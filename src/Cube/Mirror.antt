-- ===== src/Cube/Mirror.antt =====
-- `invertco` turns every corner's twist round: an involution that respects composition.
use h.Base.{
  ℕ, ◌+◌, ◌-◌, ◌*◌, ◌/◌, ◌%◌, ◌<◌, ◌≡◌, refl, ap, ◌∙◌, map, arith, length-map, get_or-map,
  get_or_ext, length,
}
use h.Cube.{Cube, compose, invertco, invertco_piece, mix_corner}
use h.Cube.Pieces.{
  IsCornerPiece, place_of, place_of_lem, corner_laws, mix_corner_lem, invertco_piece_lem,
}
use h.Cube.Algebra.{map-IsArrangement, map-compose}
use h.Cube.Group.{IsCube, cube_ext}

invertco_piece-IsCornerPiece : (x : ℕ) → IsCornerPiece x → IsCornerPiece (invertco_piece x)
invertco_piece-IsCornerPiece x h = omega (arith, invertco_piece_lem x h)

invertco_piece-mix :
    (x y : ℕ)
    → IsCornerPiece x
    → IsCornerPiece y
    → invertco_piece (mix_corner x y) ≡ mix_corner (invertco_piece x) (invertco_piece y)
invertco_piece-mix x y hx hy =
    rw (mix_corner_lem x y hx hy, invertco_piece_lem x hx, invertco_piece_lem y hy)
      (omega (
        arith,
        invertco_piece_lem (x % 32 + 32 * ((x / 32 + y / 32) % 3)) (omega arith),
        mix_corner_lem (x % 32 + 32 * ((3 - x / 32) % 3)) (y % 32 + 32 * ((3 - y / 32) % 3))
            (omega arith) (omega arith),
      ))

place_of-invertco : (x : ℕ) → IsCornerPiece x → place_of (invertco_piece x) ≡ place_of x
place_of-invertco x h = omega (
  arith,
  invertco_piece_lem x h,
  place_of_lem x (omega arith),
  place_of_lem (invertco_piece x) (omega (arith, invertco_piece_lem x h)),
)

pub invertco-IsCube : {a : Cube} → IsCube a → IsCube (invertco a)
unfolding invertco
invertco-IsCube ha = record {
  corners =
      map-IsArrangement corner_laws invertco_piece invertco_piece-IsCornerPiece place_of-invertco
        invertco_piece-mix ha.corners;
  edges = ha.edges;
}

-- Turning every twist round respects composition.
pub invertco-compose :
    {a b : Cube} → IsCube a → IsCube b → invertco (compose a b) ≡ compose (invertco a) (invertco b)
unfolding compose invertco
invertco-compose ha hb =
    cube_ext
      (map-compose corner_laws invertco_piece invertco_piece-IsCornerPiece place_of-invertco
        invertco_piece-mix ha.corners hb.corners)
      refl

invertco_piece_involutive : (x : ℕ) → IsCornerPiece x → invertco_piece (invertco_piece x) ≡ x
invertco_piece_involutive x h =
    rw (invertco_piece_lem x h)
      (omega (arith, invertco_piece_lem (x % 32 + 32 * ((3 - x / 32) % 3)) (omega arith)))

pub invertco_involutive : {a : Cube} → IsCube a → invertco (invertco a) ≡ a
unfolding invertco
invertco_involutive {a} ha =
    cube_ext
      (get_or_ext 0 _ _
        (length-map invertco_piece (map invertco_piece a.corner)
          ∙ length-map invertco_piece a.corner)
        λ i p.
          let p1 : i < length (map invertco_piece a.corner) =
            rw (← length-map invertco_piece (map invertco_piece a.corner)) p in
          let p2 : i < length a.corner = rw (← length-map invertco_piece a.corner) p1 in
          get_or-map invertco_piece (map invertco_piece a.corner) i 0 0 p1
          ∙ ap invertco_piece (get_or-map invertco_piece a.corner i 0 0 p2)
          ∙ invertco_piece_involutive _ (ha.corners.piece i (rw (← ha.corners.size) p2)))
      refl
