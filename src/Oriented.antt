-- ===== src/Oriented.antt =====
-- `oriented_cube_t` of src/core/core_types.h and the checks of src/core/cube.h on it.
pub mod Marks
pub mod Consistent
pub mod Checked
pub mod Equal
use h.Base.{
  ℕ, zero, suc, ◌+◌, ◌/◌, ◌%◌, ◌^◌, bit_and, Bool, true, false, not, ◌&&◌, ◌||◌, List, [], ◌∷◌,
  Option, none, some, map, ◌==◌, ltb, leb, if◌then◌else◌, of_bool, get_or, set, replicate,
}
use h.Cube.{
  Cube, pbits, eobit, cobits, ctwist_cw, ctwist_ccw, solved_cube, zero_cube, equal, equal_loop,
}

pub record OrientedCube : Type 0 where
  pub cube : Cube
  pub orientation : ℕ

abbrev pub zero_oriented_cube : OrientedCube
zero_oriented_cube = record { cube = zero_cube; orientation = 0 }

abbrev pub solved_oriented_cube : OrientedCube
solved_oriented_cube = record { cube = solved_cube; orientation = 0 }

abbrev pub eo_valid : ℕ → Bool
eo_valid e = not (not (e == 0) && not (e == eobit))

abbrev pub co_valid : ℕ → Bool
co_valid e = not (not (e == 0) && not (e == ctwist_cw) && not (e == ctwist_ccw))

-- The loop of `isconsistent` that marks the places found. `none` is a jump to one of its labels.
unfoldable pub mark_found : ℕ → ℕ → (ℕ → Bool) → List ℕ → List Bool → Option (List Bool)
mark_found bound mask valid [] found = some found
mark_found bound mask valid (piece ∷ pieces) found =
    if leb bound (bit_and piece pbits)
    then none
    else if not (valid (bit_and piece mask))
    then none
    else mark_found bound mask valid pieces (set found (bit_and piece pbits) true)

-- `found[i] = false` for the first `n` entries.
unfoldable pub clear_found : ℕ → List Bool → List Bool
clear_found zero found = found
clear_found (suc n) [] = []
clear_found (suc n) (b ∷ found) = false ∷ clear_found n found

-- The loop `if (!found[i]) goto ...` from index `i`, with `left` rounds to go.
unfoldable pub all_found : ℕ → ℕ → List Bool → Bool
all_found zero i found = true
all_found (suc left) i found = get_or found i false && all_found left (i + 1) found

unfoldable pub isconsistent : OrientedCube → Bool
unfolding mark_found all_found clear_found
isconsistent c = elim (mark_found 12 eobit eo_valid c.cube.edge (replicate 12 false)) [
  | none ↦ false
  | some found ↦
      all_found 12 0 found
      && elim (mark_found 8 cobits co_valid c.cube.corner (clear_found 8 found)) [
        | none ↦ false
        | some found' ↦ all_found 8 0 found' && not (leb 24 c.orientation)
      ]
]

unfoldable pub issolved : OrientedCube → Bool
unfolding equal
issolved c = equal c.cube solved_cube

unfoldable pub iserror : OrientedCube → Bool
unfolding equal
iserror c = equal c.cube zero_cube
