-- ===== src/Tests/Classes.antt =====
-- Coordinates up to symmetry and their names at concrete inputs.
use h.Base.{
  get_or, Bool, true, false, if◌then◌else◌, ◌⊎◌, ◌&&◌, ◌↔◌, all_below₂_sound, ℕ, ◌<◌, ◌*◌, ◌%◌,
  true, not, ◌||◌, [], ◌∷◌, some, ◌≡◌, refl, ltb, ◌==◌, set, all_below, all_below_sound, arith,
}
use h.Cube.{solved_cube, compose, invertco, cobits_2, coshift}
use h.Solvable.{add_orientations}
use h.Coordinates.{coord_eo, set_eo}
use h.Transform.{transform, trans_cubes, trans_cubes_inverse}
use h.Coord.{
  coord_class, coord_isnasty_generic, coord_coord_generic, coord_cube_generic, SymCoord, CoordData,
  in_mask, coord_gendata_generic,
}
use h.Coord.Kinds.{tm_udfix, coordinate_eo, coordinate_dr}
use h.Coord.Parse.{parse_coord_and_axis}
use h.Coord.Rounds.{IsSymCoord}
use h.Coordinates.Edges.{coord_eo-set_eo}
use h.Cube.Group.{solved-IsCube}
use h.Coord.Orbits.{Linked, IsOrbits}
use h.Coord.Classes.{IsMerged, coord_class_iff, coord_coord_generic-coord_cube_generic}
use h.Coord.Filled.{classes_found}

-- The sum of the twists of the corners.
abbrev twist_sym : SymCoord
twist_sym = record {
  classes = 2;
  max = 3;
  coord = λ c. add_orientations cobits_2 coshift c.corner 0 % 3;
  cube = λ i. record solved_cube { corner = set solved_cube.corner 0 (i * 32) };
  max2 = 2048;
  coord2 = coord_eo;
  cube2 = λ i. set_eo solved_cube i;
  merge = λ c1 c2. record c1 { edge = c2.edge };
}

two_classes : classes_found twist_sym tm_udfix ≡ 2
unfolding classes_found compose invertco transform trans_cubes trans_cubes_inverse in_mask
    add_orientations
two_classes = refl

twist_back : all_below 3 (λ i. twist_sym.coord (twist_sym.cube i) == i) ≡ true
unfolding all_below add_orientations
twist_back = refl

twist_range :
    all_below 3 (λ i.
      all_below 48
        (λ t. not (in_mask tm_udfix t) || ltb (twist_sym.coord (transform (twist_sym.cube i) t)) 3))
    ≡ true
unfolding all_below transform trans_cubes trans_cubes_inverse in_mask compose invertco
    add_orientations
twist_range = refl

twist_sym-IsSymCoord : IsSymCoord twist_sym tm_udfix
unfolding in_mask
twist_sym-IsSymCoord = record {
  here = refl;
  back = λ i h.
      ground
        (arith, all_below_sound 3 (λ i. twist_sym.coord (twist_sym.cube i) == i) i twist_back h);
  range = λ i t h ht m. omega arith;
  few = omega arith;
}

-- The sum is 0 for the images of a cube exactly when it is for the cube.
twist_signs :
    all_below 3 (λ i. all_below 48 (λ t.
      not (in_mask tm_udfix t)
      || ((twist_sym.coord (transform (twist_sym.cube i) t) == 0) && (i == 0))
      || (not (twist_sym.coord (transform (twist_sym.cube i) t) == 0) && not (i == 0))))
    ≡ true
unfolding all_below transform trans_cubes trans_cubes_inverse in_mask compose invertco
    add_orientations
twist_signs = refl

Linked-sign : (i j : ℕ) → i < 3 → Linked twist_sym tm_udfix i j → (i ≡ 0) ↔ (j ≡ 0)
unfolding Linked
Linked-sign i j hi (t, ht, m, e) =
    let row =
      all_below₂_sound 3 48
        (λ i. λ t.
          not (in_mask tm_udfix t)
          || ((twist_sym.coord (transform (twist_sym.cube i) t) == 0) && (i == 0))
          || (not (twist_sym.coord (transform (twist_sym.cube i) t) == 0) && not (i == 0)))
        i t twist_signs hi ht in
    (λ z. ground (arith, row, m, e, z), λ z. ground (arith, row, m, e, z))

twist_turns :
    all_below 3 (λ r. all_below 3 (λ i.
      ((r == 0) && not (i == 0))
      || (not (r == 0) && (i == 0))
      || (twist_sym.coord (transform (twist_sym.cube r) (if r == i then 0 else 24)) == i)))
    ≡ true
unfolding all_below transform trans_cubes trans_cubes_inverse compose invertco add_orientations
twist_turns = refl

turn_in_mask : (b : Bool) → in_mask tm_udfix (if b then 0 else 24) ≡ true
unfolding in_mask
turn_in_mask true = refl
turn_in_mask false = refl

twist_sym-IsOrbits : IsOrbits twist_sym tm_udfix
unfolding Linked in_mask
twist_sym-IsOrbits = record {
  orbit = λ i r j hi hr a b.
      let of_i = Linked-sign i j hi a in
      let of_r = Linked-sign r j hr b in
      let row =
        all_below₂_sound 3 3
          (λ r. λ i.
            ((r == 0) && not (i == 0))
            || (not (r == 0) && (i == 0))
            || (twist_sym.coord (transform (twist_sym.cube r) (if r == i then 0 else 24)) == i))
          r i twist_turns hr hi in
      (
        if r == i then 0 else 24,
        ground arith,
        turn_in_mask (r == i),
        ground (arith, row, of_i, of_r),
      );
}

twist_sym-IsMerged : IsMerged twist_sym
unfolding coord_eo set_eo
twist_sym-IsMerged = record {
  first = λ c d. refl;
  second = λ c k h. coord_eo-set_eo solved_cube k solved-IsCube h;
  some2 = omega arith;
}

coord_class_iff_example :
    (table : CoordData) × ((coord_gendata_generic twist_sym tm_udfix
        (84 ∷ [])
        (some (record { header = []; words = [] }))).1
      ≡ some table)
    × ((coord_class (get_or table.words 1 0) ≡ coord_class (get_or table.words 2 0))
        ↔ Linked twist_sym tm_udfix 1 2)
coord_class_iff_example =
    coord_class_iff twist_sym tm_udfix (84 ∷ []) (record { header = []; words = [] }) 1 2
      twist_sym-IsSymCoord twist_sym-IsOrbits (omega (arith, two_classes)) (omega arith)
      (omega arith)

coord_coord_generic-coord_cube_generic_example :
    (table : CoordData) × ((coord_gendata_generic twist_sym tm_udfix
        (84 ∷ [])
        (some (record { header = []; words = [] }))).1
      ≡ some table)
    × ((coord_isnasty_generic twist_sym 3000 table ≡ true)
        ⊎ (coord_coord_generic twist_sym (coord_cube_generic twist_sym 3000 table) table ≡ 3000))
coord_coord_generic-coord_cube_generic_example =
    coord_coord_generic-coord_cube_generic twist_sym tm_udfix (84 ∷ [])
      (record { header = []; words = [] }) 3000 twist_sym-IsSymCoord twist_sym-IsOrbits
      twist_sym-IsMerged (omega (arith, two_classes)) (omega (arith, two_classes))

-- An axis may be left out or cut short, and a name of a coordinate may be cut short: DR_, D_U and EO.
any_prefix :
    ((parse_coord_and_axis (68 ∷ 82 ∷ 95 ∷ [])).1 ≡ 0)
    × ((parse_coord_and_axis (68 ∷ 95 ∷ 85 ∷ [])) ≡ (some coordinate_dr, 0))
    × ((parse_coord_and_axis (69 ∷ 79 ∷ [])) ≡ (some coordinate_eo, 255))
    × ((parse_coord_and_axis (95 ∷ 76 ∷ [])) ≡ (some coordinate_eo, 1))
unfolding parse_coord_and_axis coordinate_eo coordinate_dr
any_prefix = (refl, refl, refl, refl)
