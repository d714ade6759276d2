-- ===== src/Extended.antt =====
-- The oriented cubes of src/core/oriented_cube.h: wide moves, slices and rotations, and composition.
pub mod Moves
pub mod Tables
pub mod Compose
use h.Base.{ℕ, List, [], ◌∷◌, ◌==◌, if◌then◌else◌, get_or}
use h.Cube.{Cube, compose}
use h.Moves.{move, reorient_move}
use h.Oriented.{OrientedCube}
use h.Tables.{
  EquivalentMoves, equivalent_moves_table, orientation_moves, orientation_transition_table,
  orientation_trans,
}
use h.Transform.{transform}

-- The loop over `eqm.move`, up to the mark 255.
unfoldable pub apply_moves : List ℕ → OrientedCube → OrientedCube
unfolding reorient_move
apply_moves [] c = c
apply_moves (m ∷ ms) c =
    let rest = apply_moves ms (record c { cube = move c.cube (reorient_move m c.orientation) }) in
    if m == 255 then c else rest

-- The loop over `eqm.rotation`, up to the mark 255.
unfoldable pub apply_rotations : List ℕ → ℕ → ℕ
unfolding orientation_transition_table
apply_rotations [] o = o
apply_rotations (r ∷ rs) o =
    let rest = apply_rotations rs (get_or (get_or orientation_transition_table o []) r 0) in
    if r == 255 then o else rest

-- What the table has for a move; one past its end is read as no move at all.
unfoldable pub equivalent_moves : ℕ → EquivalentMoves
unfolding equivalent_moves_table
equivalent_moves m = get_or equivalent_moves_table m (record { move = []; rotation = [] })

unfoldable pub move_extended : OrientedCube → ℕ → OrientedCube
unfolding apply_moves apply_rotations equivalent_moves
move_extended c m =
    let eqm = equivalent_moves m in
    let ret = apply_moves eqm.move c in
    record ret { orientation = apply_rotations eqm.rotation ret.orientation }

-- The loop over `orientation_moves[d.orientation]`, up to the mark 255.
unfoldable pub apply_extended : List ℕ → OrientedCube → OrientedCube
unfolding move_extended
apply_extended [] c = c
apply_extended (m ∷ ms) c =
    let rest = apply_extended ms (move_extended c m) in if m == 255 then c else rest

unfoldable pub compose_oriented : OrientedCube → OrientedCube → OrientedCube
unfolding apply_extended orientation_moves orientation_trans
compose_oriented c d =
    let transformed_d = transform d.cube (get_or orientation_trans c.orientation 0) in
    let ret : OrientedCube = record {
      cube = compose c.cube transformed_d;
      orientation = c.orientation;
    } in
    apply_extended (get_or orientation_moves d.orientation []) ret
