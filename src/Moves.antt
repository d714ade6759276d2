-- ===== src/Moves.antt =====
-- The moves of src/core/moves.h, as numbers below 54 and as cubes. A move is a `uint8_t`; arithmetic
-- that could leave it is cut at 256.
pub mod Table
pub mod Laws
use h.Base.{
  ℕ, zero, suc, ◌+◌, ◌-◌, ◌*◌, ◌/◌, ◌%◌, ◌^◌, bit_and, Bool, true, false, not, ◌&&◌, ◌||◌, List, [],
  ◌∷◌, ◌==◌, ltb, leb, if◌then◌else◌, get_or, set, length, Option, none, some,
}
use h.Cube.{Cube, zero_cube, compose}
use h.Tables.{allowedmask, trans_move_table, orientation_trans, inverse_trans_table}
use Table.{u, u2, u3, d, d2, d3, r, r2, r3, l, l2, l3, f, f2, f3, b, b2, b3}

abbrev pub uint8_error : ℕ
uint8_error = 255

-- The last move without a wide layer, MOVE_B3.
abbrev pub move_b3 : ℕ
move_b3 = 17

unfoldable pub movebase : ℕ → ℕ
movebase m = m / 3

unfoldable pub moveaxis : ℕ → ℕ
moveaxis m = m / 6

unfoldable pub isbase : ℕ → Bool
unfolding movebase
isbase m = m == 3 * movebase m

unfoldable pub moveopposite : ℕ → ℕ
unfolding movebase moveaxis
moveopposite m = if movebase m == 2 * moveaxis m then (m + 3) % 2 ^ 8 else (m + 2 ^ 8 - 3) % 2 ^ 8

unfoldable pub inverse_move : ℕ → ℕ
inverse_move m = (m + 2 - 2 * (m % 3)) % 2 ^ 8

-- The face of an outer layer that moves along with `m`.
unfoldable pub movefollow : ℕ → ℕ
movefollow m =
    let b = 3 * (m / 3) in
    let k = m - b in
    if leb m 17
    then m
    else if leb m 35
    then m - 18
    else if b == 36
    then 9 + k
    else if b == 39
    then 12 + k
    else if b == 42
    then 3 + k
    else if b == 45
    then 6 + k
    else if b == 48
    then 0 + k
    else if b == 51
    then 12 + k
    else uint8_error

unfoldable pub parallel : ℕ → ℕ → Bool
unfolding moveaxis movefollow
parallel m1 m2 = moveaxis (movefollow m1) == moveaxis (movefollow m2)

-- The bit of `m2` in the mask of `m1`. MM_SINGLE shifts by less than 64.
unfoldable pub allowednextmove : ℕ → ℕ → Bool
unfolding allowedmask movebase
allowednextmove m1 m2 = not (bit_and (get_or allowedmask (movebase m1) 0) (2 ^ m2) == 0)

-- The loop from index `j`, a `uint8_t`. After 255 it goes on with the index 0, where the code reads before the
-- array: `none`.
unfoldable pub allowed_loop : ℕ → ℕ → List ℕ → Option Bool
unfolding allowednextmove
allowed_loop zero j m = none
allowed_loop (suc left) j m =
    let rest = allowed_loop left ((j + 1) % 2 ^ 8) m in
    if not (ltb j (length m))
    then some true
    else if j == 0
    then none
    else if not (allowednextmove (get_or m (j - 1) 0) (get_or m j 0))
    then some false
    else rest

unfoldable pub allowedmoves : List ℕ → Option Bool
unfolding allowed_loop
allowedmoves m = allowed_loop (suc (length m)) 1 m

-- The body of the loop of `sortparallel_moves`.
unfoldable pub swap_parallel : ℕ → List ℕ → List ℕ
unfolding parallel
swap_parallel i moves =
    let a = get_or moves i 0 in
    let b = get_or moves (i + 1) 0 in
    if parallel a b && ltb b a then set (set moves i b) (i + 1) a else moves

-- The loop from index `i`, a `uint8_t`; `none` if the rounds given do not end it.
unfoldable pub sort_loop : ℕ → ℕ → List ℕ → Option (List ℕ)
unfolding swap_parallel
sort_loop zero i moves = none
sort_loop (suc left) i moves =
    let rest = sort_loop left ((i + 1) % 2 ^ 8) (swap_parallel i moves) in
    if ltb i (length moves - 1) then rest else some moves

-- `none` is a loop that never ends.
unfoldable pub sortparallel_moves : List ℕ → Option (List ℕ)
unfolding sort_loop
sortparallel_moves moves =
    if ltb (length moves) 2 then some moves else sort_loop (length moves) 0 moves

unfoldable pub are_lastmoves_singlecw : List ℕ → Bool
unfolding parallel isbase
are_lastmoves_singlecw moves =
    let n = length moves in
    let last = get_or moves (n - 1) 0 in
    let before = get_or moves (n - 2) 0 in
    let two : Bool = ltb 1 n && parallel last before in
    if n == 0 then true else isbase last && (not two || isbase before)

unfoldable pub move_cubes : List Cube
move_cubes = u ∷ u2 ∷ u3 ∷ d ∷ d2 ∷ d3 ∷ r ∷ r2 ∷ r3 ∷ l ∷ l2 ∷ l3 ∷ f ∷ f2 ∷ f3 ∷ b ∷ b2 ∷ b3 ∷ []

unfoldable pub premove_cubes : List Cube
premove_cubes =
    u3 ∷ u2 ∷ u ∷ d3 ∷ d2 ∷ d ∷ r3 ∷ r2 ∷ r ∷ l3 ∷ l2 ∷ l ∷ f3 ∷ f2 ∷ f ∷ b3 ∷ b2 ∷ b ∷ []

-- The `switch` on the move; the default case is the zero cube.
unfoldable pub move : Cube → ℕ → Cube
move c m = if leb m move_b3 then compose c (get_or move_cubes m zero_cube) else zero_cube

-- Applies the inverse of `m` before the scramble of `c`.
unfoldable pub premove : Cube → ℕ → Cube
premove c m = if leb m move_b3 then compose (get_or premove_cubes m zero_cube) c else zero_cube

unfoldable pub transform_move : ℕ → ℕ → ℕ
unfolding moveaxis movebase moveopposite trans_move_table
transform_move m t =
    let a = moveaxis m in
    let image = get_or (get_or trans_move_table t []) a 0 in
    let base : ℕ = if movebase m == 2 * a then image else moveopposite image in
    let modifier : ℕ = if leb 24 t then 2 - m % 3 else m % 3 in
    if ltb move_b3 m then uint8_error else (base + modifier) % 2 ^ 8

unfoldable pub reorient_move : ℕ → ℕ → ℕ
unfolding transform_move orientation_trans
reorient_move m or = transform_move m (get_or orientation_trans or 0)

unfoldable pub inverse_reorient_move : ℕ → ℕ → ℕ
unfolding transform_move orientation_trans inverse_trans_table
inverse_reorient_move m or =
    transform_move m (get_or inverse_trans_table (get_or orientation_trans or 0) 0)
