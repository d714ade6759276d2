-- ===== src/Cube/Group.antt =====
-- The cubes that a real puzzle can be taken apart and put together to form a group under
-- `compose`, and `invertco` respects composition.
use h.Base.{ℕ, ◌+◌, ◌≡◌, refl, sym, ap, ◌∙◌, List, [], ◌∷◌, arith, length}
use h.Cube.{
  Cube, solved_cube, zero_cube, compose, inverse, inverse_onto, inverse_loop, inverse_edge,
  inverse_corner,
}
use h.Cube.Pieces.{IsEdgePiece, IsCornerPiece, place_of, edge_laws, corner_laws}
use h.Cube.Algebra.{
  IsArrangement, IsIdentity, invert_pieces, compose_pieces-IsArrangement, compose_pieces_assoc,
  compose_pieces_right, compose_pieces_left, identity-IsArrangement,
}
use h.Cube.Algebra.Inverse.{
  invert_pieces-IsArrangement, invert_pieces_compose, compose_invert_pieces,
}

-- Eight corners and twelve edges, each at a place of its own.
pub record IsCube (c : Cube) : Type 0 where
  pub corners : IsArrangement 8 IsCornerPiece place_of c.corner
  pub edges : IsArrangement 12 IsEdgePiece place_of c.edge

pub cube_ext : {a b : Cube} → a.corner ≡ b.corner → a.edge ≡ b.edge → a ≡ b
cube_ext p q = λ i. record { corner = p i; edge = q i }

solved_corners : IsIdentity 8 solved_cube.corner
solved_corners = record { size = refl; at = λ i h. grind arith }

solved_edges : IsIdentity 12 solved_cube.edge
solved_edges = record { size = refl; at = λ i h. grind arith }

-- The composition of two cubes is a cube.
pub compose-IsCube : {a b : Cube} → IsCube a → IsCube b → IsCube (compose a b)
unfolding compose
compose-IsCube ha hb = record {
  corners = compose_pieces-IsArrangement corner_laws ha.corners hb.corners;
  edges = compose_pieces-IsArrangement edge_laws ha.edges hb.edges;
}

-- Composition of cubes of the puzzle is associative.
pub compose_assoc :
    {a b c : Cube}
    → IsCube a
    → IsCube b
    → IsCube c
    → compose (compose a b) c ≡ compose a (compose b c)
unfolding compose
compose_assoc ha hb hc =
    cube_ext (compose_pieces_assoc corner_laws ha.corners hb.corners hc.corners)
      (compose_pieces_assoc edge_laws ha.edges hb.edges hc.edges)

-- The solved cube is neutral on the right.
pub compose_solved : {a : Cube} → IsCube a → compose a solved_cube ≡ a
unfolding compose
compose_solved ha =
    cube_ext (compose_pieces_right corner_laws ha.corners solved_corners)
      (compose_pieces_right edge_laws ha.edges solved_edges)

-- The solved cube is neutral on the left.
pub solved_compose : {a : Cube} → IsCube a → compose solved_cube a ≡ a
unfolding compose
solved_compose ha =
    cube_ext (compose_pieces_left corner_laws ha.corners solved_corners)
      (compose_pieces_left edge_laws ha.edges solved_edges)

inverse_loop-eq-invert :
    (f : ℕ → ℕ → ℕ) (i : ℕ) (xs ret : List ℕ)
    → inverse_loop f i xs ret ≡ invert_pieces place_of f i xs ret
unfolding inverse_loop
inverse_loop-eq-invert f i [] ret = refl
inverse_loop-eq-invert f i (x ∷ xs) ret = inverse_loop-eq-invert f (i + 1) xs _

inverse_onto_lem :
    (ret c : Cube)
    → inverse_onto ret c ≡ record {
      corner = invert_pieces place_of inverse_corner 0 c.corner ret.corner;
      edge = invert_pieces place_of inverse_edge 0 c.edge ret.edge;
    }
unfolding inverse_onto
inverse_onto_lem ret c =
    cube_ext (inverse_loop-eq-invert inverse_corner 0 c.corner ret.corner)
      (inverse_loop-eq-invert inverse_edge 0 c.edge ret.edge)

-- What C reserves for a cube: eight bytes and twelve.
pub record HasRoom (ret : Cube) : Type 0 where
  pub corner_size : length ret.corner ≡ 8
  pub edge_size : length ret.edge ≡ 12

module _ (ret : Cube) {c : Cube} (room : HasRoom ret) (hc : IsCube c) where
  pub inverse_onto-IsCube : IsCube (inverse_onto ret c)
  inverse_onto-IsCube = rw (inverse_onto_lem ret c) (record {
    corners =
        invert_pieces-IsArrangement corner_laws c.corner hc.corners ret.corner room.corner_size;
    edges = invert_pieces-IsArrangement edge_laws c.edge hc.edges ret.edge room.edge_size;
  })

  pub compose-inverse_onto_left : compose (inverse_onto ret c) c ≡ solved_cube
  unfolding compose
  compose-inverse_onto_left = rw (inverse_onto_lem ret c) (
      cube_ext
        (invert_pieces_compose corner_laws c.corner hc.corners ret.corner room.corner_size
          solved_corners)
        (invert_pieces_compose edge_laws c.edge hc.edges ret.edge room.edge_size solved_edges))

  pub compose-inverse_onto_right : compose c (inverse_onto ret c) ≡ solved_cube
  unfolding compose
  compose-inverse_onto_right = rw (inverse_onto_lem ret c) (
      cube_ext
        (compose_invert_pieces corner_laws c.corner hc.corners ret.corner room.corner_size
          solved_corners)
        (compose_invert_pieces edge_laws c.edge hc.edges ret.edge room.edge_size solved_edges))

zero_room : HasRoom zero_cube
zero_room = record { corner_size = refl; edge_size = refl }

pub inverse-IsCube : {c : Cube} → IsCube c → IsCube (inverse c)
unfolding inverse
inverse-IsCube hc = inverse_onto-IsCube zero_cube zero_room hc

-- A cube of the puzzle composed with its inverse, in either order, is solved.
pub inverse_lem :
    {c : Cube}
    → IsCube c
    → (compose (inverse c) c ≡ solved_cube) × (compose c (inverse c) ≡ solved_cube)
unfolding inverse
inverse_lem hc = (
  compose-inverse_onto_left zero_cube zero_room hc,
  compose-inverse_onto_right zero_cube zero_room hc,
)

pub solved-IsCube : IsCube solved_cube
solved-IsCube = record {
  corners = identity-IsArrangement corner_laws solved_corners;
  edges = identity-IsArrangement edge_laws solved_edges;
}

-- A left inverse is the inverse.
pub inverse_unique : {a c : Cube} → IsCube a → IsCube c → compose a c ≡ solved_cube → a ≡ inverse c
inverse_unique {a} {c} ha hc e =
    sym (compose_solved ha)
    ∙ ap (compose a) (sym (inverse_lem hc).1)
    ∙ sym (compose_assoc ha hc (inverse-IsCube hc))
    ∙ ap (λ t. compose t (inverse c)) e
    ∙ solved_compose (inverse-IsCube hc)

-- What the result of `inverse` held before does not matter, on a cube of the puzzle, if it is an
-- array of eight corners and one of twelve edges.
pub inverse_onto_unique :
    (ret : Cube) {c : Cube} → HasRoom ret → IsCube c → inverse_onto ret c ≡ inverse c
inverse_onto_unique ret room hc =
    inverse_unique (inverse_onto-IsCube ret room hc) hc (compose-inverse_onto_left ret room hc)

pub inverse_involutive : {c : Cube} → IsCube c → inverse (inverse c) ≡ c
inverse_involutive hc = sym (inverse_unique hc (inverse-IsCube hc) (inverse_lem hc).1)

-- The inverse of a composition of cubes of the puzzle is the composition of the inverses the other
-- way round.
pub inverse-compose :
    {a b : Cube} → IsCube a → IsCube b → inverse (compose a b) ≡ compose (inverse b) (inverse a)
inverse-compose {a} {b} ha hb =
    let ia = inverse-IsCube ha in
    let ib = inverse-IsCube hb in
    sym (
      inverse_unique (compose-IsCube ib ia) (compose-IsCube ha hb) (
        compose_assoc ib ia (compose-IsCube ha hb)
        ∙ ap (compose (inverse b)) (sym (compose_assoc ia ha hb))
        ∙ ap (λ t. compose (inverse b) (compose t b)) (inverse_lem ha).0
        ∙ ap (compose (inverse b)) (solved_compose hb)
        ∙ (inverse_lem hb).0))
