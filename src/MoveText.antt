-- ===== src/MoveText.antt =====
-- Move sequences as text: the reading loop FOREACH_READMOVE of src/core/moves.h, and `readmoves`
-- and `countmoves`. A text is the list of its characters' codes up to the closing zero. A moved letter
-- with a `w` is read as the letter's move and 18, whatever the letter.
pub mod Apply
pub mod Write
pub mod Tokens
pub mod Loop
pub mod Written
pub mod Total
pub mod Roundtrip
use h.Base.{
  ℕ, zero, suc, ◌+◌, ◌-◌, ◌%◌, ◌^◌, Bool, true, false, not, ◌&&◌, ◌||◌, List, [], ◌∷◌, ◌++◌, Option,
  none, some, ◌==◌, leb, if◌then◌else◌, get_or, length,
}
use h.Moves.{uint8_error}

-- The codes of the moves' names, by the number of the move. C reads out of the table for a number
-- above 53; the model then reads an empty name.
abbrev pub movestr : List (List ℕ)
movestr =
    (85 ∷ [])
    ∷ (85 ∷ 50 ∷ [])
    ∷ (85 ∷ 39 ∷ [])
    ∷ (68 ∷ [])
    ∷ (68 ∷ 50 ∷ [])
    ∷ (68 ∷ 39 ∷ [])
    ∷ (82 ∷ [])
    ∷ (82 ∷ 50 ∷ [])
    ∷ (82 ∷ 39 ∷ [])
    ∷ (76 ∷ [])
    ∷ (76 ∷ 50 ∷ [])
    ∷ (76 ∷ 39 ∷ [])
    ∷ (70 ∷ [])
    ∷ (70 ∷ 50 ∷ [])
    ∷ (70 ∷ 39 ∷ [])
    ∷ (66 ∷ [])
    ∷ (66 ∷ 50 ∷ [])
    ∷ (66 ∷ 39 ∷ [])
    ∷ (85 ∷ 119 ∷ [])
    ∷ (85 ∷ 119 ∷ 50 ∷ [])
    ∷ (85 ∷ 119 ∷ 39 ∷ [])
    ∷ (68 ∷ 119 ∷ [])
    ∷ (68 ∷ 119 ∷ 50 ∷ [])
    ∷ (68 ∷ 119 ∷ 39 ∷ [])
    ∷ (82 ∷ 119 ∷ [])
    ∷ (82 ∷ 119 ∷ 50 ∷ [])
    ∷ (82 ∷ 119 ∷ 39 ∷ [])
    ∷ (76 ∷ 119 ∷ [])
    ∷ (76 ∷ 119 ∷ 50 ∷ [])
    ∷ (76 ∷ 119 ∷ 39 ∷ [])
    ∷ (70 ∷ 119 ∷ [])
    ∷ (70 ∷ 119 ∷ 50 ∷ [])
    ∷ (70 ∷ 119 ∷ 39 ∷ [])
    ∷ (66 ∷ 119 ∷ [])
    ∷ (66 ∷ 119 ∷ 50 ∷ [])
    ∷ (66 ∷ 119 ∷ 39 ∷ [])
    ∷ (77 ∷ [])
    ∷ (77 ∷ 50 ∷ [])
    ∷ (77 ∷ 39 ∷ [])
    ∷ (83 ∷ [])
    ∷ (83 ∷ 50 ∷ [])
    ∷ (83 ∷ 39 ∷ [])
    ∷ (69 ∷ [])
    ∷ (69 ∷ 50 ∷ [])
    ∷ (69 ∷ 39 ∷ [])
    ∷ (120 ∷ [])
    ∷ (120 ∷ 50 ∷ [])
    ∷ (120 ∷ 39 ∷ [])
    ∷ (121 ∷ [])
    ∷ (121 ∷ 50 ∷ [])
    ∷ (121 ∷ 39 ∷ [])
    ∷ (122 ∷ [])
    ∷ (122 ∷ 50 ∷ [])
    ∷ (122 ∷ 39 ∷ [])
    ∷ []

unfoldable pub is_space : ℕ → Bool
is_space c = c == 32 || c == 9 || c == 10

-- The letters U, D, R, L, F, B, M, S, E, x, y, z.
unfoldable pub readmove : ℕ → ℕ
readmove c =
    if c == 85
    then 0
    else if c == 68
    then 3
    else if c == 82
    then 6
    else if c == 76
    then 9
    else if c == 70
    then 12
    else if c == 66
    then 15
    else if c == 77
    then 36
    else if c == 83
    then 39
    else if c == 69
    then 42
    else if c == 120
    then 45
    else if c == 121
    then 48
    else if c == 122
    then 51
    else uint8_error

-- The digits 1, 2, 3 and the apostrophe.
unfoldable pub readmodifier : ℕ → ℕ
readmodifier c = if leb 49 c && leb c 51 then c - 49 else if c == 39 then 2 else 0

-- What a function that reads moves comes back with: a value and the count of the rounds, or one of
-- the two errors.
pub data Outcome {ℓ} (A : Type ℓ) : Type ℓ where
  done : A → ℕ → Outcome A
  invalid_moves : Outcome A
  buffer_size : Outcome A

unfoldable pub skip_spaces : List ℕ → List ℕ
unfolding is_space
skip_spaces [] = []
skip_spaces (c ∷ cs) = let rest = skip_spaces cs in if is_space c then rest else (c ∷ cs)

-- A `w` adds 18 to the move.
unfoldable pub take_wide : ℕ → List ℕ → ℕ × List ℕ
take_wide m [] = (m, [])
take_wide m (c ∷ cs) = if c == 119 then (m + 18, cs) else (m, c ∷ cs)

unfoldable pub take_modifier : ℕ → List ℕ → ℕ × List ℕ
unfolding readmodifier
take_modifier m [] = (m, [])
take_modifier m (c ∷ cs) = if readmodifier c == 0 then (m, c ∷ cs) else (m + readmodifier c, cs)

-- The move that starts with the letter `c`, and the text after it.
unfoldable pub read_token : ℕ → List ℕ → Option (ℕ × List ℕ)
unfolding readmove take_wide take_modifier
read_token c cs =
    let (m, cs') = take_wide (readmove c) cs in
    if readmove c == uint8_error then none else some (take_modifier m cs')

-- The end of the loop.
unfoldable pub finish {ℓ} : {A : Type ℓ} → Bool → A → ℕ → Outcome A
finish inside acc count = if inside then invalid_moves else done acc count

-- A round of the loop on the text after the spaces, with an action that gets whether the move
-- stands in parentheses, the move, and what the action keeps; `none` is its error. `stop` is the
-- test of the count against the maximum, `again` the rounds that follow.
unfoldable pub read_round {ℓ} :
    {A : Type ℓ}
    → (Bool → ℕ → A → Option A)
    → (ℕ → Bool)
    → (List ℕ → Bool → A → ℕ → Option (Outcome A))
    → List ℕ
    → Bool
    → A
    → ℕ
    → Option (Outcome A)
unfolding read_token finish
read_round action stop again [] inside acc count = some (finish inside acc count)
read_round action stop again (c ∷ cs) inside acc count =
    if stop count
    then some (finish inside acc count)
    else if c == 40
    then (if inside then some invalid_moves else again cs true acc (count + 1))
    else if c == 41
    then (if inside then again cs false acc (count + 1) else some invalid_moves)
    else elim (read_token c cs) [
      | none ↦ some invalid_moves
      | some (m, rest) ↦ elim (action inside m acc) [
        | none ↦ some buffer_size
        | some acc' ↦ again rest inside acc' (count + 1)
      ]
    ]

-- Without fuel the loop gives `none`.
unfoldable pub read_loop {ℓ} :
    {A : Type ℓ}
    → (Bool → ℕ → A → Option A)
    → (ℕ → Bool)
    → ℕ
    → List ℕ
    → Bool
    → A
    → ℕ
    → Option (Outcome A)
unfolding skip_spaces read_round
read_loop action stop zero cs inside acc count = none
read_loop action stop (suc fuel) cs inside acc count =
    read_round action stop (read_loop action stop fuel) (skip_spaces cs) inside acc count

-- The normal and the inverse moves so far.
pub record MoveLists : Type 0 where
  pub normal : List ℕ
  pub inverse : List ℕ

-- The bounds are `nsize - 1` and `invsize - 1` on `size_t`.
unfoldable pub store_move : ℕ → ℕ → Bool → ℕ → MoveLists → Option MoveLists
store_move nsize invsize inside m acc =
    if inside
    then (if leb ((invsize + 2 ^ 64 - 1) % 2 ^ 64) (length acc.inverse)
        then none
        else some (record acc { inverse = acc.inverse ++ m ∷ [] }))
    else if leb ((nsize + 2 ^ 64 - 1) % 2 ^ 64) (length acc.normal)
    then none
    else some (record acc { normal = acc.normal ++ m ∷ [] })

unfoldable pub readmoves : List ℕ → ℕ → ℕ → Option (Outcome MoveLists)
unfolding read_loop store_move
readmoves buf nsize invsize =
    read_loop (store_move nsize invsize) (λ count. count == (nsize + invsize) % 2 ^ 64)
      (suc (length buf)) buf false (record { normal = []; inverse = [] }) 0

-- A slice counts for two moves and a rotation for none.
unfoldable pub add_weight : Bool → ℕ → ℕ → Option ℕ
add_weight inside m count = some (count + (if leb m 35 then 1 else if leb m 44 then 2 else 0))

abbrev pub int_max : ℕ
int_max = 2147483647

unfoldable pub countmoves : List ℕ → Option (Outcome ℕ)
unfolding read_loop add_weight
countmoves buf = read_loop add_weight (λ count. count == int_max) (suc (length buf)) buf false 0 0
