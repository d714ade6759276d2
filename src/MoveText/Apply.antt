-- ===== src/MoveText/Apply.antt =====
-- `applymoves` of src/core/oriented_cube.h on the text of moves.
use h.Base.{ℕ, suc, Bool, false, not, List, Option, none, some, ◌==◌, if◌then◌else◌, length}
use h.Cube.{inverse}
use h.Extended.{move_extended, compose_oriented}
use h.MoveText.{done, invalid_moves, buffer_size, read_loop}
use h.Oriented.{OrientedCube, solved_oriented_cube, zero_oriented_cube}

-- The cubes that the normal and the inverse moves make.
pub record NissCubes : Type 0 where
  pub c : OrientedCube
  pub cinv : OrientedCube

unfoldable pub apply_move : Bool → ℕ → NissCubes → Option NissCubes
unfolding move_extended
apply_move inside m acc = some (
    if inside
    then record acc { cinv = move_extended acc.cinv m }
    else record acc { c = move_extended acc.c m })

-- What `applymoves` makes of the two cubes.
unfoldable pub join_niss : NissCubes → OrientedCube
unfolding compose_oriented inverse
join_niss acc =
    if not (acc.cinv.orientation == 0)
    then zero_oriented_cube
    else compose_oriented (record acc.cinv { cube = inverse acc.cinv.cube }) acc.c

-- The count is never -1, the maximum of this loop.
unfoldable pub applymoves : OrientedCube → List ℕ → Option OrientedCube
unfolding read_loop apply_move join_niss
applymoves cube buf =
    let start : NissCubes = record { c = cube; cinv = solved_oriented_cube } in
    elim (read_loop apply_move (λ count. false) (suc (length buf)) buf false start 0) [
      | none ↦ none
      | some (done acc count) ↦ some (join_niss acc)
      | some invalid_moves ↦ some zero_oriented_cube
      | some buffer_size ↦ some zero_oriented_cube
    ]
