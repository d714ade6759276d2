-- ===== src/Coord/Instances.antt =====
-- The laws of the DR and DREO coordinates: src/solvers/coord/dr.h and dreo.h.
use h.Base.{ℕ, ◌*◌, ◌/◌, ◌%◌, ◌<◌, ◌≡◌, refl, ap, arith}
use h.Cube.{Cube}
use h.Coordinates.{coord_co, coord_eo}
use h.Coordinates.Corners.{coord_co-invcoord_co}
use h.Separation.{coord_esep, invcoord_esep, copy_corners}
use h.Separation.Flipped.{coord_esep-set_eo_made}
use h.Separation.Slices.{coord_esep-invcoord_esep}
use h.Coord.Kinds.{
  coord_dreoesep_nosym, invcoord_dreoesep_nosym, coordinate_dr_merge, dr_sym, coord_dresep_nosym,
  invcoord_dresep_nosym, coordinate_dreo_merge, dreo_sym,
}
use h.Coord.Classes.{IsMerged}

coord_dresep-made : (i : ℕ) → i < 495 → coord_dresep_nosym (invcoord_dresep_nosym i) ≡ i
unfolding coord_dresep_nosym invcoord_dresep_nosym
coord_dresep-made i h = omega (arith, coord_esep-invcoord_esep (i * 70) (omega arith))

coord_dreoesep-made : (i : ℕ) → i < 1013760 → coord_dreoesep_nosym (invcoord_dreoesep_nosym i) ≡ i
unfolding coord_dreoesep_nosym invcoord_dreoesep_nosym
coord_dreoesep-made i h =
    let (e, f) =
      coord_esep-set_eo_made (i / 2048 * 70) (i % 2048) (invcoord_esep (i / 2048 * 70)).corner
        (omega arith) (omega arith) in
    omega (arith, e, f)

corners_only : (c d : Cube) → c.corner ≡ d.corner → coord_co c ≡ coord_co d
unfolding coord_co
corners_only c d e = ap (λ k. coord_co (record c { corner = k })) e

dr_sym-IsMerged : IsMerged dr_sym
unfolding dr_sym coordinate_dr_merge copy_corners coord_dreoesep_nosym coord_esep coord_eo coord_co
dr_sym-IsMerged = record {
  first = λ c d. refl;
  second = λ c k h. (coord_co-invcoord_co k h).1;
  some2 = omega arith;
}

dreo_sym-IsMerged : IsMerged dreo_sym
unfolding dreo_sym coordinate_dreo_merge copy_corners coord_dresep_nosym coord_esep coord_co
dreo_sym-IsMerged = record {
  first = λ c d. refl;
  second = λ c k h. (coord_co-invcoord_co k h).1;
  some2 = omega arith;
}

-- The DR and the DREO coordinate are read back from their cubes on all values of their two parts, and merging keeps
-- both parts.
pub dr_laws :
    ((i : ℕ) → i < 1013760 → coord_dreoesep_nosym (invcoord_dreoesep_nosym i) ≡ i)
    × ((i : ℕ) → i < 495 → coord_dresep_nosym (invcoord_dresep_nosym i) ≡ i)
    × IsMerged dr_sym
    × IsMerged dreo_sym
dr_laws = (coord_dreoesep-made, coord_dresep-made, dr_sym-IsMerged, dreo_sym-IsMerged)
