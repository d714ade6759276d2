-- ===== src/Transform.antt =====
-- The 48 symmetries of src/core/transform.h. The three `switch` statements name one constant and its
-- inverse in each case, so a case is an entry of the tables below.
mod Rotations
mod Mirrors
pub mod Laws
use h.Base.{
  ℕ, zero, suc, ◌+◌, ◌-◌, ◌*◌, ◌/◌, ◌%◌, ◌^◌, bit_and, bit_or, Bool, true, false, List, ◌++◌, ◌==◌,
  ltb, leb, if◌then◌else◌, of_bool, get_or,
}
use h.Cube.{Cube, zero_cube, compose, compose_edges, compose_corners, invertco, equal}
use h.Tables.{inverse_trans_table}
use h.Oriented.{OrientedCube}
use Rotations.{rotations, rotations_inverse}
use Mirrors.{mirrors, mirrors_inverse}

unfoldable pub trans_cubes : List Cube
unfolding rotations mirrors
trans_cubes = rotations ++ mirrors

unfoldable pub trans_cubes_inverse : List Cube
unfolding rotations_inverse mirrors_inverse
trans_cubes_inverse = rotations_inverse ++ mirrors_inverse

abbrev pub trans_cube : ℕ → Cube
trans_cube t = get_or trans_cubes t zero_cube

abbrev pub trans_cube_inverse : ℕ → Cube
trans_cube_inverse t = get_or trans_cubes_inverse t zero_cube

-- A `switch` on `t`: the identity, a rotation, a mirrored symmetry, or the default.
unfoldable pub trans_switch : ℕ → Cube → Cube → Cube → Cube
trans_switch t same rotated mirrored =
    if t == 0 then same else if ltb t 24 then rotated else if ltb t 48 then mirrored else zero_cube

unfoldable pub transform_edges : Cube → ℕ → Cube
unfolding trans_switch
transform_edges c t =
    let turned = compose_edges (compose_edges (trans_cube t) c) (trans_cube_inverse t) in
    trans_switch t c turned turned

unfoldable pub transform_corners : Cube → ℕ → Cube
unfolding trans_switch
transform_corners c t =
    let turned = compose_corners (compose_corners (trans_cube t) c) (trans_cube_inverse t) in
    trans_switch t c turned (invertco turned)

unfoldable pub transform : Cube → ℕ → Cube
unfolding trans_switch
transform c t =
    let turned = compose (compose (trans_cube t) c) (trans_cube_inverse t) in
    trans_switch t c turned (invertco turned)

unfoldable pub inverse_trans : ℕ → ℕ
unfolding inverse_trans_table
inverse_trans t = get_or inverse_trans_table t 0

-- The loop of `symmetry_mask` at symmetry `t`, with `left` rounds to go.
unfoldable pub symmetry_loop : ℕ → ℕ → Cube → ℕ → ℕ
symmetry_loop zero t cube ret = ret
symmetry_loop (suc left) t cube ret =
    symmetry_loop left (t + 1) cube (bit_or ret (of_bool (equal cube (transform cube t)) * 2 ^ t))

unfoldable pub symmetry_mask : Cube → ℕ
unfolding symmetry_loop
symmetry_mask cube = symmetry_loop 48 0 cube 0
