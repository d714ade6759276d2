-- ===== src/TransText.antt =====
-- The symmetries as text: `readtrans`, `writetrans` and `applytrans` of src/core/transform.h. A string is the list of
-- its characters before the closing zero.
use h.Base.{
  ℕ, ◌+◌, ◌<◌, ◌≡◌, refl, true, List, [], ◌∷◌, ◌++◌, ◌==◌, leb, if◌then◌else◌, get_or, all_below,
  all_below_sound, ==_iff, ap,
}
use h.Oriented.{OrientedCube}
use h.Moves.{uint8_error}
use h.Transform.{transform}
use h.Coord.Parse.{strncmp_equal}

-- "rotation " and two faces.
abbrev rotation_of : ℕ → ℕ → List ℕ
rotation_of up front = 114 ∷ 111 ∷ 116 ∷ 97 ∷ 116 ∷ 105 ∷ 111 ∷ 110 ∷ 32 ∷ up ∷ front ∷ []

-- "mirrored " and two faces.
abbrev mirrored_of : ℕ → ℕ → List ℕ
mirrored_of up front = 109 ∷ 105 ∷ 114 ∷ 114 ∷ 111 ∷ 114 ∷ 101 ∷ 100 ∷ 32 ∷ up ∷ front ∷ []

abbrev pub transstr : List (List ℕ)
transstr =
    (rotation_of 85 70)
    ∷ (rotation_of 85 76)
    ∷ (rotation_of 85 66)
    ∷ (rotation_of 85 82)
    ∷ (rotation_of 68 70)
    ∷ (rotation_of 68 76)
    ∷ (rotation_of 68 66)
    ∷ (rotation_of 68 82)
    ∷ (rotation_of 82 85)
    ∷ (rotation_of 82 70)
    ∷ (rotation_of 82 68)
    ∷ (rotation_of 82 66)
    ∷ (rotation_of 76 85)
    ∷ (rotation_of 76 70)
    ∷ (rotation_of 76 68)
    ∷ (rotation_of 76 66)
    ∷ (rotation_of 70 85)
    ∷ (rotation_of 70 82)
    ∷ (rotation_of 70 68)
    ∷ (rotation_of 70 76)
    ∷ (rotation_of 66 85)
    ∷ (rotation_of 66 82)
    ∷ (rotation_of 66 68)
    ∷ (rotation_of 66 76)
    ∷ (mirrored_of 85 70)
    ∷ (mirrored_of 85 76)
    ∷ (mirrored_of 85 66)
    ∷ (mirrored_of 85 82)
    ∷ (mirrored_of 68 70)
    ∷ (mirrored_of 68 76)
    ∷ (mirrored_of 68 66)
    ∷ (mirrored_of 68 82)
    ∷ (mirrored_of 82 85)
    ∷ (mirrored_of 82 70)
    ∷ (mirrored_of 82 68)
    ∷ (mirrored_of 82 66)
    ∷ (mirrored_of 76 85)
    ∷ (mirrored_of 76 70)
    ∷ (mirrored_of 76 68)
    ∷ (mirrored_of 76 66)
    ∷ (mirrored_of 70 85)
    ∷ (mirrored_of 70 82)
    ∷ (mirrored_of 70 68)
    ∷ (mirrored_of 70 76)
    ∷ (mirrored_of 66 85)
    ∷ (mirrored_of 66 82)
    ∷ (mirrored_of 66 68)
    ∷ (mirrored_of 66 76)
    ∷ []

-- The text "error trans".
abbrev error_trans : List ℕ
error_trans = 101 ∷ 114 ∷ 114 ∷ 111 ∷ 114 ∷ 32 ∷ 116 ∷ 114 ∷ 97 ∷ 110 ∷ 115 ∷ []

unfoldable pub readtrans_loop : List (List ℕ) → ℕ → List ℕ → ℕ
unfolding strncmp_equal
readtrans_loop [] t buf = uint8_error
readtrans_loop (s ∷ ss) t buf =
    let rest = readtrans_loop ss (t + 1) buf in if strncmp_equal buf s 11 then t else rest

unfoldable pub readtrans : List ℕ → ℕ
unfolding readtrans_loop
readtrans buf = readtrans_loop transstr 0 buf

-- The twelve bytes that it writes.
unfoldable pub writetrans : ℕ → List ℕ
writetrans t = (if leb 48 t then error_trans else get_or transstr t []) ++ (0 ∷ [])

unfoldable pub applytrans : OrientedCube → List ℕ → OrientedCube
unfolding readtrans transform
applytrans cube buf = record {
  cube = transform cube.cube (readtrans buf);
  orientation = cube.orientation;
}

readtrans_table : all_below 48 (λ t. readtrans (writetrans t) == t) ≡ true
unfolding all_below readtrans writetrans
readtrans_table = refl

readtrans-writetrans : (t : ℕ) → t < 48 → readtrans (writetrans t) ≡ t
readtrans-writetrans t h =
    (==_iff (readtrans (writetrans t)) t).0
      (all_below_sound 48 (λ t. readtrans (writetrans t) == t) t readtrans_table h)

-- The name that `writetrans` writes of one of the 48 symmetries makes `applytrans` transform the cube by it and keep
-- the orientation.
pub applytrans-writetrans :
    (cube : OrientedCube) (t : ℕ)
    → t < 48
    → applytrans cube (writetrans t) ≡ record cube { cube = transform cube.cube t }
unfolding applytrans
applytrans-writetrans cube t h =
    ap (λ u. record cube { cube = transform cube.cube u }) (readtrans-writetrans t h)
