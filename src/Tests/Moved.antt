-- ===== src/Tests/Moved.antt =====
-- Moves and symmetries on the cube of R.
use h.Base.{
  zero, suc, length, ◌≤◌, ◌<◌, ◌⊎◌, some, none, true, false, ℕ, ◌≡◌, refl, ◌↔◌, arith, List, [],
  ◌∷◌,
}
use h.Cube.{compose, solved_cube}
use h.Cube.Group.{IsCube, solved-IsCube}
use h.Moves.{move, inverse_move, sortparallel_moves, sort_loop, allowedmoves, transform_move}
use h.Moves.Laws.{move-inverse_move}
use h.Moves.Laws.Sequences.{run, AreBasic, run-inverse_moves, inverse_moves}
use h.Moves.Laws.Sorting.{SortedOf, run-sortparallel_moves}
use h.Moves.Table.{r, u}
use h.Oriented.Checked.{is_cube, is_cube_sound}
use h.Transform.{transform, inverse_trans, symmetry_mask}
use h.Transform.Laws.{transform-compose}
use h.Transform.Laws.Moved.{transform-inverse_trans, transform-move}
use h.Transform.Laws.Symmetry.{bit_at, symmetry_mask_iff}

r-IsCube : IsCube r
unfolding is_cube
r-IsCube = is_cube_sound r refl

u-IsCube : IsCube u
unfolding is_cube
u-IsCube = is_cube_sound u refl

move-inverse_move_example : move (move r 4) (inverse_move 4) ≡ r
move-inverse_move_example = move-inverse_move 4 (omega arith) r-IsCube

-- D before U is sorted into U before D.
abbrev unsorted : List ℕ
unsorted = 3 ∷ 0 ∷ 6 ∷ []

sorted : sortparallel_moves unsorted ≡ some (0 ∷ 3 ∷ 6 ∷ [])
unfolding sortparallel_moves
sorted = refl

unsorted-AreBasic : AreBasic unsorted
unsorted-AreBasic = omega arith

turns : ℕ → List ℕ
turns zero = []
turns (suc n) = 0 ∷ 6 ∷ turns n

-- R and L are allowed after U, R after R is not. After 256 allowed moves the loop reads before the array.
answers :
    (allowedmoves (0 ∷ 6 ∷ 9 ∷ []) ≡ some true)
    × (allowedmoves (0 ∷ 6 ∷ 6 ∷ []) ≡ some false)
    × (allowedmoves (turns 127) ≡ some true)
    × (allowedmoves (turns 128) ≡ none)
unfolding allowedmoves turns
answers = (refl, refl, refl, refl)

run-sortparallel_moves_example :
    ((length unsorted ≤ 256)
      × ((ns : List ℕ) × (sortparallel_moves unsorted ≡ some ns) × SortedOf unsorted ns))
    ⊎ ((256 < length unsorted) × ((rounds : ℕ) → sort_loop rounds 0 unsorted ≡ none))
run-sortparallel_moves_example = run-sortparallel_moves unsorted

run-inverse_moves_example : run (run r unsorted) (inverse_moves unsorted) ≡ r
run-inverse_moves_example = run-inverse_moves unsorted unsorted-AreBasic r-IsCube

transform-compose_example : transform (compose r u) 30 ≡ compose (transform r 30) (transform u 30)
transform-compose_example = transform-compose 30 (omega arith) r-IsCube u-IsCube

transform-inverse_trans_example : transform (transform r 29) (inverse_trans 29) ≡ r
transform-inverse_trans_example = transform-inverse_trans 29 (omega arith) r-IsCube

transform-move_example : transform (move u 6) 29 ≡ move (transform u 29) (transform_move 6 29)
transform-move_example = transform-move 29 6 (omega arith) (omega arith) u-IsCube

symmetry_mask_iff_example :
    (bit_at 25 (symmetry_mask solved_cube) ≡ 1) ↔ (transform solved_cube 25 ≡ solved_cube)
symmetry_mask_iff_example = symmetry_mask_iff 25 (omega arith) solved-IsCube
