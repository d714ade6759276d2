-- ===== src/Tests/Separations.antt =====
-- Separation coordinates and the H48 coordinate at concrete cubes.
use h.Base.{ℕ, zero, suc, ◌+◌, ◌*◌, ◌^◌, List, [], ◌∷◌, ◌≡◌, refl, arith}
use h.Cube.{solved_cube}
use h.Coordinates.{coord_eo}
use h.Moves.Table.{r}
use h.Separation.{coord_esep, coord_csep, coord_cocsep, invcoord_eoesep}
use h.Separation.Flipped.{invcoord_eoesep_lem}
use h.H48.{coord_h48, invcoord_h48, coclass, ttrep, h48_esize}
use h.H48.Roundtrip.{coord_h48-invcoord_h48}

turned : (coord_esep solved_cube ≡ 0) × (coord_csep solved_cube ≡ 112) × (coord_csep r ≡ 25)
unfolding coord_esep coord_csep
turned = (refl, refl, refl)

invcoord_eoesep_lem_example :
    coord_esep (invcoord_eoesep 12345678) * 2 ^ 11 + coord_eo (invcoord_eoesep 12345678) ≡ 12345678
invcoord_eoesep_lem_example = invcoord_eoesep_lem 12345678 (omega arith)

zeros : ℕ → List ℕ
zeros zero = []
zeros (suc n) = 0 ∷ zeros n

abbrev one_class : List ℕ
one_class = zeros 200

coord_h48-invcoord_h48_example :
    coord_h48 (invcoord_h48 123456 (solved_cube ∷ []) 2) one_class 2 ≡ 123456
unfolding h48_esize coclass zeros coord_cocsep ttrep
coord_h48-invcoord_h48_example =
    coord_h48-invcoord_h48 one_class (solved_cube ∷ []) 123456 2 (omega arith) refl refl
