-- ===== src/Tests/Cubes.antt =====
-- The group of cubes at the moves U, R and F.
use h.Base.{◌<◌, true, ◌≡◌, refl, ◌↔◌, arith, [], ◌∷◌}
use h.Cube.{compose, inverse, solved_cube, invertco}
use h.Cube.Group.{IsCube, HasRoom, compose_assoc, inverse_lem}
use h.Cube.Mirror.{invertco-compose}
use h.Moves.Table.{r, u, f}
use h.Oriented.{OrientedCube, isconsistent, solved_oriented_cube}
use h.Oriented.Checked.{is_cube, is_cube_sound}
use h.Oriented.Consistent.{IsRaw, isconsistent_iff}

r-IsCube : IsCube r
unfolding is_cube
r-IsCube = is_cube_sound r refl

u-IsCube : IsCube u
unfolding is_cube
u-IsCube = is_cube_sound u refl

f-IsCube : IsCube f
unfolding is_cube
f-IsCube = is_cube_sound f refl

compose-run : (compose r u).corner ≡ 32 ∷ 4 ∷ 2 ∷ 69 ∷ 70 ∷ 1 ∷ 35 ∷ 7 ∷ []
unfolding compose
compose-run = refl

compose_assoc_example : compose (compose r u) f ≡ compose r (compose u f)
compose_assoc_example = compose_assoc r-IsCube u-IsCube f-IsCube

inverse_lem_example : (compose (inverse f) f ≡ solved_cube) × (compose f (inverse f) ≡ solved_cube)
inverse_lem_example = inverse_lem f-IsCube

r-HasRoom : HasRoom r
r-HasRoom = record { corner_size = refl; edge_size = refl }

invertco-compose_example : invertco (compose r f) ≡ compose (invertco r) (invertco f)
invertco-compose_example = invertco-compose r-IsCube f-IsCube

u-HasRoom : HasRoom u
u-HasRoom = record { corner_size = refl; edge_size = refl }

abbrev turned : OrientedCube
turned = record { cube = f; orientation = 5 }

f-IsRaw : IsRaw f
f-IsRaw = record {
  room = record { corner_size = refl; edge_size = refl };
  corner_byte = λ k h. omega (arith, f-IsCube.corners.piece k h);
  edge_bits = λ k h. (f-IsCube.edges.piece k h).0;
}

isconsistent_iff_example : (isconsistent turned ≡ true) ↔ (IsCube f × (turned.orientation < 24))
isconsistent_iff_example = isconsistent_iff turned f-IsRaw

-- An edge with a stray bit above the flip is accepted: the test of the flip can never fail.
stray_bit :
    isconsistent (record solved_oriented_cube {
      cube = record solved_cube { edge = 32 ∷ 1 ∷ 2 ∷ 3 ∷ 4 ∷ 5 ∷ 6 ∷ 7 ∷ 8 ∷ 9 ∷ 10 ∷ 11 ∷ [] };
    })
    ≡ true
unfolding isconsistent
stray_bit = refl
