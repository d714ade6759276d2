-- ===== src/Tests/Dreo.antt =====
-- The DREO coordinate of src/solvers/coord/dreo.h meets what its table of classes needs, and has the 81 classes that
-- the code reserves.
use h.Base.{
  ◌≡◌, refl, Bool, true, false, not, ltb→lt, ◌||◌, ltb, all_below, all_below₂_sound, [], ◌∷◌, some,
  arith,
}
use h.Cube.{compose, invertco}
use h.Transform.{transform, trans_cubes, trans_cubes_inverse}
use h.Coord.{CoordData, in_mask, coord_gendata_generic}
use h.Coord.Kinds.{tm_udrlfix, dreo_sym, coord_dresep_nosym, invcoord_dresep_nosym}
use h.Coord.Instances.{dr_laws}
use h.Coord.Rounds.{IsSymCoord}
use h.Coord.Filled.{classes_found, Reached, coord_gendata_generic_lem}

dreo_classes : classes_found dreo_sym tm_udrlfix ≡ 81
unfolding classes_found transform trans_cubes trans_cubes_inverse in_mask compose invertco
    coord_dresep_nosym invcoord_dresep_nosym dreo_sym
dreo_classes = refl

dreo_range :
    all_below 495 (λ i. all_below 48 (λ t.
      not (in_mask tm_udrlfix t)
      || ltb (coord_dresep_nosym (transform (invcoord_dresep_nosym i) t)) 495))
    ≡ true
unfolding all_below transform trans_cubes trans_cubes_inverse in_mask compose invertco
    coord_dresep_nosym invcoord_dresep_nosym
dreo_range = refl

then_holds : (b c : Bool) → (not b || c) ≡ true → b ≡ true → c ≡ true
then_holds true c e h = e
then_holds false c e h = absurd (ground (arith, h))

dreo_sym-IsSymCoord : IsSymCoord dreo_sym tm_udrlfix
unfolding in_mask dreo_sym
dreo_sym-IsSymCoord = record {
  here = refl;
  back = λ i h. dr_laws.1 i h;
  range = λ i t h ht m.
      let row =
        all_below₂_sound 495 48
          (λ i. λ t.
            not (in_mask tm_udrlfix t)
            || ltb (coord_dresep_nosym (transform (invcoord_dresep_nosym i) t)) 495)
          i t dreo_range h ht in
      ltb→lt _ 495 (then_holds (in_mask tm_udrlfix t) _ row m);
  few = omega arith;
}

coord_gendata_generic_lem_example :
    (table : CoordData) × ((coord_gendata_generic dreo_sym tm_udrlfix
        (68 ∷ 82 ∷ 69 ∷ 79 ∷ [])
        (some (record { header = []; words = [] }))).1
      ≡ some table)
    × Reached dreo_sym tm_udrlfix table.words 300
unfolding dreo_sym
coord_gendata_generic_lem_example =
    coord_gendata_generic_lem dreo_sym tm_udrlfix (68 ∷ 82 ∷ 69 ∷ 79 ∷ [])
      (record { header = []; words = [] }) 300 dreo_sym-IsSymCoord (omega (arith, dreo_classes))
      (omega arith)
