-- ===== src/Tests/Coordinates.antt =====
-- The orientation coordinates at concrete cubes.
use h.Base.{◌≡◌, refl}
use h.Coordinates.{coord_co, coord_eo, set_eo}
use h.Coordinates.Edges.{set_eo-coord_eo}
use h.Cube.Group.{IsCube}
use h.Moves.Table.{r, f}
use h.Oriented.Checked.{is_cube, is_cube_sound}

turned-IsCube : IsCube r
unfolding is_cube
turned-IsCube = is_cube_sound r refl

front-IsCube : IsCube f
unfolding is_cube
front-IsCube = is_cube_sound f refl

coordinates : (coord_co r ≡ 1028) × (coord_eo f ≡ 388)
unfolding coord_co coord_eo
coordinates = (refl, refl)

set_eo-coord_eo_example : set_eo f (coord_eo f) ≡ f
set_eo-coord_eo_example = set_eo-coord_eo f front-IsCube refl
