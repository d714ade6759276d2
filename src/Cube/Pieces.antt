-- ===== src/Cube/Pieces.antt =====
-- The bit operations on pieces as arithmetic: an edge is `place + 16 * flip`, a corner
-- `place + 32 * twist`. The tables run over every valid piece.
use h.Base.{
  ℕ, ◌+◌, ◌-◌, ◌*◌, ◌/◌, ◌%◌, ◌<◌, bit_and, true, ◌≡◌, refl, sym, ap, ap₂, ◌∙◌, arith, ◌==◌, ==_iff,
  all_below, all_below_sound, all_below₂_sound,
}
use h.Cube.{pbits, mix_edge, mix_corner, inverse_edge, inverse_corner, invertco_piece}
use h.Cube.Algebra.{PieceLaws}

-- A place below 12 and a flip.
abbrev pub IsEdgePiece : ℕ → Type 0
IsEdgePiece x = (x < 32) × (x % 16 < 12)

-- A place below 8 and a twist below 3.
abbrev pub IsCornerPiece : ℕ → Type 0
IsCornerPiece x = (x < 96) × (x % 32 < 8)

abbrev pub place_of : ℕ → ℕ
place_of x = bit_and x pbits

place_table : all_below 256 (λ x. place_of x == x % 16) ≡ true
unfolding all_below
place_table = refl

pub place_of_lem : (x : ℕ) → x < 256 → place_of x ≡ x % 16
place_of_lem x h = (==_iff _ (x % 16)).0 (all_below_sound 256 _ x place_table h)

mix_edge_table :
    all_below 32 (λ x. all_below 32 (λ y. mix_edge x y == x % 16 + 16 * ((x / 16 + y / 16) % 2)))
    ≡ true
unfolding all_below mix_edge
mix_edge_table = refl

pub mix_edge_lem :
    (x y : ℕ) → x < 32 → y < 32 → mix_edge x y ≡ x % 16 + 16 * ((x / 16 + y / 16) % 2)
mix_edge_lem x y hx hy = (==_iff _ _).0 (
    all_below₂_sound 32 32 (λ a b. mix_edge a b == a % 16 + 16 * ((a / 16 + b / 16) % 2)) x y
      mix_edge_table hx hy)

inverse_edge_table :
    all_below 12 (λ i. all_below 32 (λ x. inverse_edge i x == i + 16 * (x / 16))) ≡ true
unfolding all_below inverse_edge
inverse_edge_table = refl

pub inverse_edge_lem : (i x : ℕ) → i < 12 → x < 32 → inverse_edge i x ≡ i + 16 * (x / 16)
inverse_edge_lem i x hi hx = (==_iff _ _).0 (
    all_below₂_sound 12 32 (λ j y. inverse_edge j y == j + 16 * (y / 16)) i x inverse_edge_table hi
      hx)

-- The corner of place `a % 8` and twist `a / 8`.
abbrev corner_of : ℕ → ℕ
corner_of a = a % 8 + 32 * (a / 8)

abbrev corner_index : ℕ → ℕ
corner_index x = x % 32 + 8 * (x / 32)

corner_of-index : (x : ℕ) → IsCornerPiece x → corner_of (corner_index x) ≡ x
corner_of-index x h = omega arith

mix_corner_table :
    all_below 24 (λ a.
      all_below 24
        (λ b. mix_corner (corner_of a) (corner_of b) == a % 8 + 32 * ((a / 8 + b / 8) % 3)))
    ≡ true
unfolding all_below mix_corner
mix_corner_table = refl

pub mix_corner_lem :
    (x y : ℕ)
    → IsCornerPiece x
    → IsCornerPiece y
    → mix_corner x y ≡ x % 32 + 32 * ((x / 32 + y / 32) % 3)
mix_corner_lem x y hx hy =
    ap₂ mix_corner (sym (corner_of-index x hx)) (sym (corner_of-index y hy))
    ∙ (==_iff _ _).0 (
        all_below₂_sound 24 24
          (λ a b. mix_corner (corner_of a) (corner_of b) == a % 8 + 32 * ((a / 8 + b / 8) % 3))
          (corner_index x) (corner_index y) mix_corner_table (omega arith) (omega arith))
    ∙ omega arith

inverse_corner_table :
    all_below 8
      (λ i. all_below 24 (λ a. inverse_corner i (corner_of a) == i + 32 * ((3 - a / 8) % 3)))
    ≡ true
unfolding all_below inverse_corner
inverse_corner_table = refl

pub inverse_corner_lem :
    (i x : ℕ) → i < 8 → IsCornerPiece x → inverse_corner i x ≡ i + 32 * ((3 - x / 32) % 3)
inverse_corner_lem i x hi hx =
    ap (inverse_corner i) (sym (corner_of-index x hx))
    ∙ (==_iff _ _).0 (
        all_below₂_sound 8 24 (λ j a. inverse_corner j (corner_of a) == j + 32 * ((3 - a / 8) % 3))
          i (corner_index x) inverse_corner_table hi (omega arith))
    ∙ omega arith

invertco_table :
    all_below 24 (λ a. invertco_piece (corner_of a) == a % 8 + 32 * ((3 - a / 8) % 3)) ≡ true
unfolding all_below invertco_piece
invertco_table = refl

pub invertco_piece_lem :
    (x : ℕ) → IsCornerPiece x → invertco_piece x ≡ x % 32 + 32 * ((3 - x / 32) % 3)
invertco_piece_lem x hx =
    ap invertco_piece (sym (corner_of-index x hx))
    ∙ (==_iff _ _).0 (
        all_below_sound 24 (λ a. invertco_piece (corner_of a) == a % 8 + 32 * ((3 - a / 8) % 3))
          (corner_index x) invertco_table (omega arith))
    ∙ omega arith

mix_edge-IsEdgePiece : (x y : ℕ) → IsEdgePiece x → IsEdgePiece y → IsEdgePiece (mix_edge x y)
mix_edge-IsEdgePiece x y hx hy = omega (arith, mix_edge_lem x y hx.0 hy.0)

mix_edge_assoc :
    (x y z : ℕ)
    → IsEdgePiece x
    → IsEdgePiece y
    → IsEdgePiece z
    → mix_edge (mix_edge x y) z ≡ mix_edge x (mix_edge y z)
mix_edge_assoc x y z hx hy hz =
    rw (mix_edge_lem x y hx.0 hy.0, mix_edge_lem y z hy.0 hz.0)
      (omega (
        arith,
        mix_edge_lem (x % 16 + 16 * ((x / 16 + y / 16) % 2)) z (omega arith) hz.0,
        mix_edge_lem x (y % 16 + 16 * ((y / 16 + z / 16) % 2)) hx.0 (omega arith),
      ))

pub edge_laws : PieceLaws 12 IsEdgePiece place_of mix_edge inverse_edge
edge_laws = record {
  pos_lt = λ x h. omega (arith, place_of_lem x (omega arith));
  place = λ i h. omega arith;
  pos_place = λ i h. omega (arith, place_of_lem i (omega arith));
  mix_piece = mix_edge-IsEdgePiece;
  pos_mix = λ x y hx hy. omega (
    arith,
    place_of_lem (mix_edge x y) (omega (arith, mix_edge-IsEdgePiece x y hx hy)),
    place_of_lem x (omega arith),
    mix_edge_lem x y hx.0 hy.0,
  );
  mix_assoc = mix_edge_assoc;
  mix_right = λ x i hx hi. omega (arith, mix_edge_lem x i hx.0 (omega arith));
  mix_left = λ x hx.
      rw (place_of_lem x (omega arith)) (omega (arith, mix_edge_lem (x % 16) x (omega arith) hx.0));
  undo_piece = λ i x hi hx. omega (arith, inverse_edge_lem i x hi hx.0);
  pos_undo = λ i x hi hx. omega (
    arith,
    inverse_edge_lem i x hi hx.0,
    place_of_lem (inverse_edge i x) (omega (arith, inverse_edge_lem i x hi hx.0)),
  );
  mix_undo = λ i x hi hx.
      rw (inverse_edge_lem i x hi hx.0)
        (omega (arith, mix_edge_lem (i + 16 * (x / 16)) x (omega arith) hx.0));
  undo_mix = λ i x hi hx.
      rw (inverse_edge_lem i x hi hx.0, place_of_lem x (omega arith))
        (omega (arith, mix_edge_lem x (i + 16 * (x / 16)) hx.0 (omega arith)));
}

mix_corner-IsCornerPiece :
    (x y : ℕ) → IsCornerPiece x → IsCornerPiece y → IsCornerPiece (mix_corner x y)
mix_corner-IsCornerPiece x y hx hy = omega (arith, mix_corner_lem x y hx hy)

mix_corner_assoc :
    (x y z : ℕ)
    → IsCornerPiece x
    → IsCornerPiece y
    → IsCornerPiece z
    → mix_corner (mix_corner x y) z ≡ mix_corner x (mix_corner y z)
mix_corner_assoc x y z hx hy hz =
    rw (mix_corner_lem x y hx hy, mix_corner_lem y z hy hz)
      (omega (
        arith,
        mix_corner_lem (x % 32 + 32 * ((x / 32 + y / 32) % 3)) z (omega arith) hz,
        mix_corner_lem x (y % 32 + 32 * ((y / 32 + z / 32) % 3)) hx (omega arith),
      ))

pub corner_laws : PieceLaws 8 IsCornerPiece place_of mix_corner inverse_corner
corner_laws = record {
  pos_lt = λ x h. omega (arith, place_of_lem x (omega arith));
  place = λ i h. omega arith;
  pos_place = λ i h. omega (arith, place_of_lem i (omega arith));
  mix_piece = mix_corner-IsCornerPiece;
  pos_mix = λ x y hx hy. omega (
    arith,
    place_of_lem (mix_corner x y) (omega (arith, mix_corner-IsCornerPiece x y hx hy)),
    place_of_lem x (omega arith),
    mix_corner_lem x y hx hy,
  );
  mix_assoc = mix_corner_assoc;
  mix_right = λ x i hx hi. omega (arith, mix_corner_lem x i hx (omega arith));
  mix_left = λ x hx.
      rw (place_of_lem x (omega arith)) (omega (arith, mix_corner_lem (x % 16) x (omega arith) hx));
  undo_piece = λ i x hi hx. omega (arith, inverse_corner_lem i x hi hx);
  pos_undo = λ i x hi hx. omega (
    arith,
    inverse_corner_lem i x hi hx,
    place_of_lem (inverse_corner i x) (omega (arith, inverse_corner_lem i x hi hx)),
  );
  mix_undo = λ i x hi hx.
      rw (inverse_corner_lem i x hi hx)
        (omega (arith, mix_corner_lem (i + 32 * ((3 - x / 32) % 3)) x (omega arith) hx));
  undo_mix = λ i x hi hx.
      rw (inverse_corner_lem i x hi hx, place_of_lem x (omega arith))
        (omega (arith, mix_corner_lem x (i + 32 * ((3 - x / 32) % 3)) hx (omega arith)));
}
