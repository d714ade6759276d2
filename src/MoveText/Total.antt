-- ===== src/MoveText/Total.antt =====
-- The reading loop of src/core/moves.h always comes to an end.
use h.Base.{
  length-append, ℕ, zero, suc, ◌+◌, ◌≤◌, ◌<◌, Bool, true, false, List, [], ◌∷◌, Option, none, some,
  ◌==◌, leb, if◌then◌else◌, length, ◌≡◌, refl, sym, ap, ◌∙◌, Bool-cases, arith, inl, inr, ◌++◌, ◌-◌,
  ◌^◌, ◌%◌, subst,
}
use h.MoveText.{
  is_space, skip_spaces, take_wide, take_modifier, readmodifier, readmove, read_token, read_round,
  read_loop, Outcome, done, MoveLists, store_move, readmoves, finish, invalid_moves, buffer_size,
}
use mathlib.Core.Option.{none-ne-some, some-injective}

skip_spaces-le : (cs : List ℕ) → length (skip_spaces cs) ≤ length cs
unfolding skip_spaces
skip_spaces-le [] = omega arith
skip_spaces-le (c ∷ cs) = elim (Bool-cases (is_space c)) [
  | inl e ↦ rw e (omega (arith, skip_spaces-le cs))
  | inr e ↦ rw e (omega arith)
]

take_wide-le : (m : ℕ) (cs : List ℕ) → length (take_wide m cs).1 ≤ length cs
unfolding take_wide
take_wide-le m [] = omega arith
take_wide-le m (c ∷ cs) = elim (Bool-cases (c == 119)) [
  | inl e ↦ rw e (omega arith)
  | inr e ↦ rw e (omega arith)
]

take_modifier-le : (m : ℕ) (cs : List ℕ) → length (take_modifier m cs).1 ≤ length cs
unfolding take_modifier
take_modifier-le m [] = omega arith
take_modifier-le m (c ∷ cs) = elim (Bool-cases (readmodifier c == 0)) [
  | inl e ↦ rw e (omega arith)
  | inr e ↦ rw e (omega arith)
]

if_some :
    {A : Type 0} (t : Bool) (r p : A)
    → (if t then none else some r) ≡ some p
    → (t ≡ false) × (r ≡ p)
if_some true r p e = absurd (none-ne-some p e)
if_some false r p e = (refl, some-injective r p e)

-- A token leaves no more text than there was after its letter.
read_token-le :
    (c : ℕ) (cs : List ℕ) (p : ℕ × List ℕ) → read_token c cs ≡ some p → length p.1 ≤ length cs
unfolding read_token
read_token-le c cs p e =
    let w : ℕ × List ℕ = take_wide (readmove c) cs in
    let rest : take_modifier w.0 w.1 ≡ p =
      (if_some (readmove c == 255) (take_modifier w.0 w.1) p e).1 in
    omega (arith, ap (λ t. length t.1) rest, take_modifier-le w.0 w.1, take_wide-le (readmove c) cs)

-- An outcome whose value, if it has one, satisfies `P`.
pub data Good {A : Type 0} (P : A → Type 0) : Outcome A → Type 0 where
  good_value : {a : A} {count : ℕ} → P a → Good P (done a count)
  good_invalid : Good P invalid_moves
  good_size : Good P buffer_size

module _ {A : Type 0} (action : Bool → ℕ → A → Option A) (stop : ℕ → Bool) (P : A → Type 0)
    (keep : (inside : Bool) (m : ℕ) (a a' : A) → P a → action inside m a ≡ some a' → P a') where
  -- A good outcome is reached.
  abbrev pub Ends : Option (Outcome A) → Type 0
  Ends o = (r : Outcome A) × (o ≡ some r) × Good P r

  if-Ends : (t : Bool) (o o' : Option (Outcome A)) → Ends o → Ends o' → Ends (if t then o else o')
  if-Ends true o o' e e' = e
  if-Ends false o o' e e' = e'

  finish-Ends : (inside : Bool) (a : A) (count : ℕ) → P a → Ends (some (finish inside a count))
  unfolding finish
  finish-Ends true a count p = (invalid_moves, refl, good_invalid)
  finish-Ends false a count p = (done a count, refl, good_value p)

  invalid-Ends : Ends (some invalid_moves)
  invalid-Ends = (invalid_moves, refl, good_invalid)

  read_round-Ends :
      (again : List ℕ → Bool → A → ℕ → Option (Outcome A)) (cs : List ℕ) (inside : Bool) (a : A)
      (count : ℕ)
      → P a
      → ((rest : List ℕ) (inside' : Bool) (a' : A)
          → P a'
          → length rest < length cs
          → Ends (again rest inside' a' (count + 1)))
      → Ends (read_round action stop again cs inside a count)
  unfolding read_round
  read_round-Ends again [] inside a count p h = finish-Ends inside a count p
  read_round-Ends again (c ∷ cs) inside a count p h =
      if-Ends (stop count) (some (finish inside a count)) _ (finish-Ends inside a count p) (
        if-Ends (c == 40) _ _
          (if-Ends inside (some invalid_moves) _ invalid-Ends (h cs true a p (omega arith)))
          (if-Ends (c == 41) _ _
            (if-Ends inside _ (some invalid_moves) (h cs false a p (omega arith)) invalid-Ends)
            (token (read_token c cs) refl)))
    where
      stored :
          (m : ℕ) (rest : List ℕ)
          → length rest ≤ length cs
          → (o : Option A) → action inside m a ≡ o
          → Ends (elim o [ none ↦ some buffer_size | some a' ↦ again rest inside a' (count + 1) ])
      stored m rest le none e = (buffer_size, refl, good_size)
      stored m rest le (some a') e = h rest inside a' (keep inside m a a' p e) (omega arith)

      token :
          (o : Option (ℕ × List ℕ))
          → read_token c cs ≡ o
          → Ends (elim o [
            | none ↦ some invalid_moves
            | some (m, rest) ↦ elim (action inside m a) [
              | none ↦ some buffer_size
              | some a' ↦ again rest inside a' (count + 1)
            ]
          ])
      token none e = invalid-Ends
      token (some (m, rest)) e =
          stored m rest (read_token-le c cs (m, rest) e) (action inside m a) refl

  -- With one round more than the text has characters the loop ends, whatever the maximum and the
  -- text, and keeps what the action keeps.
  pub read_loop-Ends :
      (fuel : ℕ) (cs : List ℕ) (inside : Bool) (a : A) (count : ℕ)
      → P a
      → length cs < fuel
      → Ends (read_loop action stop fuel cs inside a count)
  unfolding read_loop
  read_loop-Ends zero cs inside a count p h = absurd (omega arith)
  read_loop-Ends (suc fuel) cs inside a count p h =
      read_round-Ends (read_loop action stop fuel) (skip_spaces cs) inside a count p
        λ rest inside' a' p' le.
          read_loop-Ends fuel rest inside' a' (count + 1) p' (omega (arith, skip_spaces-le cs))

-- Both lists leave room in their arrays.
pub record HasRoom (nsize invsize : ℕ) (l : MoveLists) : Type 0 where
  pub normal : length l.normal < nsize
  pub inverse : length l.inverse < invsize

one_more :
    (size n : ℕ)
    → 0 < size
    → size < 2 ^ 64
    → leb ((size + 2 ^ 64 - 1) % 2 ^ 64) n ≡ false
    → n + 1 < size
one_more size n pos small e =
    let bound : (size + 2 ^ 64 - 1) % 2 ^ 64 ≡ size - 1 = omega arith in
    below (size - 1) (ap (λ k. leb k n) (sym bound) ∙ e) (omega arith)
  where
    below : (k : ℕ) → leb k n ≡ false → k + 1 ≤ size → n + 1 < size
    below k h h' = ground arith

store_move-HasRoom :
    (nsize invsize : ℕ) (inside : Bool) (m : ℕ) (l l' : MoveLists)
    → 0 < nsize
    → 0 < invsize
    → nsize < 2 ^ 64
    → invsize < 2 ^ 64
    → HasRoom nsize invsize l
    → store_move nsize invsize inside m l ≡ some l'
    → HasRoom nsize invsize l'
unfolding store_move
store_move-HasRoom nsize invsize true m l l' pos pos' small small' r e =
    let (test, same) =
      if_some (leb ((invsize + 2 ^ 64 - 1) % 2 ^ 64) (length l.inverse))
        (record l { inverse = l.inverse ++ m ∷ [] }) l' e in
    let one = one_more invsize (length l.inverse) pos' small' test in
    let longer : length (l.inverse ++ m ∷ []) ≡ length l.inverse + 1 =
      length-append l.inverse (m ∷ []) in
    subst (HasRoom nsize invsize) same
      (record { normal = r.normal; inverse = omega (arith, one, longer) })
store_move-HasRoom nsize invsize false m l l' pos pos' small small' r e =
    let (test, same) =
      if_some (leb ((nsize + 2 ^ 64 - 1) % 2 ^ 64) (length l.normal))
        (record l { normal = l.normal ++ m ∷ [] }) l' e in
    let one = one_more nsize (length l.normal) pos small test in
    let longer : length (l.normal ++ m ∷ []) ≡ length l.normal + 1 =
      length-append l.normal (m ∷ []) in
    subst (HasRoom nsize invsize) same
      (record { normal = omega (arith, one, longer); inverse = r.inverse })

-- On every text `readmoves` comes back with an outcome, given arrays of positive size below
-- 2^64; if it is no error, each array has room left for one move at least.
pub readmoves-HasRoom :
    (buf : List ℕ) (nsize invsize : ℕ)
    → 0 < nsize
    → 0 < invsize
    → nsize < 2 ^ 64
    → invsize < 2 ^ 64
    → (r : Outcome MoveLists) × (readmoves buf nsize invsize ≡ some r)
      × Good (HasRoom nsize invsize) r
unfolding readmoves
readmoves-HasRoom buf nsize invsize pos pos' small small' =
    read_loop-Ends (store_move nsize invsize) (λ count. count == (nsize + invsize) % 2 ^ 64)
      (HasRoom nsize invsize)
      (λ inside m a a' p e.
        store_move-HasRoom nsize invsize inside m a a' pos pos' small small' p e)
      (suc (length buf)) buf false (record { normal = []; inverse = [] }) 0
      (record { normal = pos; inverse = pos' }) (omega arith)
