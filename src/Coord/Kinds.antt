-- ===== src/Coord/Kinds.antt =====
-- The coordinates of src/solvers/coord/eo.h, dr.h, dreo.h and list.h.
use h.Base.{
  ℕ, ◌+◌, ◌*◌, ◌/◌, ◌%◌, Bool, false, not, ◌&&◌, List, [], ◌∷◌, none, some, ◌==◌, if◌then◌else◌,
}
use h.Cube.{Cube, solved_cube, eobit, eoshift, cobits_2, coshift}
use h.CubeText.{pieces}
use h.Coordinates.{coord_eo, set_eo, coord_co, invcoord_co}
use h.Solvable.{add_orientations, pow_2_11, pow_3_7}
use h.Separation.{coord_esep, invcoord_esep, copy_corners}
use h.H48.{comb_12_4, comb_8_4}
use h.Coord.{
  Coord, SymCoord, CoordData, coord_coord_generic, coord_cube_generic, coord_isnasty_generic,
  coord_gendata_generic, solution_lastqt_cw,
}

abbrev pub mm18_allmoves : ℕ
mm18_allmoves = 0x3FFFF

-- The moves but the quarter turns of F and B.
abbrev pub mm18_eo : ℕ
mm18_eo = 0x12FFF

-- TM_SINGLE(TRANS_UFr).
abbrev pub tm_single_uf : ℕ
tm_single_uf = 0x1

abbrev pub tm_udrlfix : ℕ
tm_udrlfix = 0x55000055

abbrev pub tm_udfix : ℕ
tm_udfix = 0xFF0000FF

unfoldable pub coordinate_eo_cube : ℕ → CoordData → Cube
unfolding set_eo
coordinate_eo_cube c table = set_eo solved_cube c

unfoldable pub is_eo_even : Cube → Bool
unfolding pieces add_orientations
is_eo_even cube = let (c, e) = pieces cube in add_orientations eobit eoshift e 0 % 2 == 0

unfoldable pub coordinate_eo : Coord
unfolding coord_eo coordinate_eo_cube is_eo_even solution_lastqt_cw
coordinate_eo = record {
  name = 69 ∷ 79 ∷ [];
  coord = λ c table. coord_eo c;
  cube = coordinate_eo_cube;
  isnasty = λ c table. false;
  gendata = λ table. (0, table);
  max = pow_2_11;
  moves_mask = mm18_allmoves;
  trans_mask = tm_single_uf;
  axistrans = 18 ∷ 3 ∷ 0 ∷ [];
  is_admissible = solution_lastqt_cw;
  is_solvable = is_eo_even;
  sym = none;
}

abbrev pub dreoesep_classes : ℕ
dreoesep_classes = 64430

abbrev pub dreoesep_max : ℕ
dreoesep_max = 1013760

unfoldable pub coord_dreoesep_nosym : Cube → ℕ
unfolding coord_esep coord_eo
coord_dreoesep_nosym cube =
    let esep = coord_esep cube / comb_8_4 in let eo = coord_eo cube in esep * pow_2_11 + eo

unfoldable pub invcoord_dreoesep_nosym : ℕ → Cube
unfolding invcoord_esep set_eo
invcoord_dreoesep_nosym coord =
    let eo = coord % pow_2_11 in
    let esep = coord / pow_2_11 * comb_8_4 in set_eo (invcoord_esep esep) eo

unfoldable pub coordinate_dr_merge : Cube → Cube → Cube
unfolding copy_corners
coordinate_dr_merge c1 c2 = copy_corners c1 c2

unfoldable pub dr_sym : SymCoord
unfolding coord_dreoesep_nosym invcoord_dreoesep_nosym coord_co invcoord_co coordinate_dr_merge
dr_sym = record {
  classes = dreoesep_classes;
  max = dreoesep_max;
  coord = coord_dreoesep_nosym;
  cube = invcoord_dreoesep_nosym;
  max2 = pow_3_7;
  coord2 = coord_co;
  cube2 = invcoord_co;
  merge = coordinate_dr_merge;
}

unfoldable pub is_eoco_solvable : Cube → Bool
unfolding pieces add_orientations
is_eoco_solvable cube =
    let (c, e) = pieces cube in
    let cocount = add_orientations cobits_2 coshift c 0 in
    let eocount = add_orientations eobit eoshift e 0 in cocount % 3 == 0 && eocount % 2 == 0

unfoldable pub coordinate_dr : Coord
unfolding dr_sym coord_coord_generic coord_cube_generic coord_isnasty_generic coord_gendata_generic
    is_eoco_solvable solution_lastqt_cw
coordinate_dr = record {
  name = 68 ∷ 82 ∷ [];
  coord = coord_coord_generic dr_sym;
  cube = coord_cube_generic dr_sym;
  isnasty = coord_isnasty_generic dr_sym;
  gendata = coord_gendata_generic dr_sym tm_udfix (68 ∷ 82 ∷ []);
  max = dreoesep_classes * pow_3_7;
  moves_mask = mm18_allmoves;
  trans_mask = tm_udfix;
  axistrans = 0 ∷ 9 ∷ 18 ∷ [];
  is_admissible = solution_lastqt_cw;
  is_solvable = is_eoco_solvable;
  sym = some dr_sym;
}

abbrev pub dresep_classes : ℕ
dresep_classes = 81

unfoldable pub coord_dresep_nosym : Cube → ℕ
unfolding coord_esep
coord_dresep_nosym cube = coord_esep cube / comb_8_4

unfoldable pub invcoord_dresep_nosym : ℕ → Cube
unfolding invcoord_esep
invcoord_dresep_nosym coord = invcoord_esep (coord * comb_8_4)

unfoldable pub coordinate_dreo_merge : Cube → Cube → Cube
unfolding copy_corners
coordinate_dreo_merge c1 c2 = copy_corners c1 c2

unfoldable pub dreo_sym : SymCoord
unfolding coord_dresep_nosym invcoord_dresep_nosym coord_co invcoord_co coordinate_dreo_merge
dreo_sym = record {
  classes = dresep_classes;
  max = comb_12_4;
  coord = coord_dresep_nosym;
  cube = invcoord_dresep_nosym;
  max2 = pow_3_7;
  coord2 = coord_co;
  cube2 = invcoord_co;
  merge = coordinate_dreo_merge;
}

unfoldable pub is_dreo_solvable : Cube → Bool
unfolding coord_eo pieces add_orientations
is_dreo_solvable cube =
    let (c, e) = pieces cube in
    if not (coord_eo cube == 0) then false else add_orientations cobits_2 coshift c 0 % 3 == 0

unfoldable pub coordinate_dreo : Coord
unfolding dreo_sym coord_coord_generic coord_cube_generic coord_isnasty_generic
    coord_gendata_generic is_dreo_solvable solution_lastqt_cw
coordinate_dreo = record {
  name = 68 ∷ 82 ∷ 69 ∷ 79 ∷ [];
  coord = coord_coord_generic dreo_sym;
  cube = coord_cube_generic dreo_sym;
  isnasty = coord_isnasty_generic dreo_sym;
  gendata = coord_gendata_generic dreo_sym tm_udrlfix (68 ∷ 82 ∷ 69 ∷ 79 ∷ []);
  max = dresep_classes * pow_3_7;
  moves_mask = mm18_eo;
  trans_mask = tm_udrlfix;
  axistrans = 0 ∷ 9 ∷ 18 ∷ [];
  is_admissible = solution_lastqt_cw;
  is_solvable = is_dreo_solvable;
  sym = some dreo_sym;
}

unfoldable pub all_coordinates : List Coord
unfolding coordinate_eo coordinate_dr coordinate_dreo
all_coordinates = coordinate_eo ∷ coordinate_dr ∷ coordinate_dreo ∷ []
