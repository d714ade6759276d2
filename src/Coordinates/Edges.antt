-- ===== src/Coordinates/Edges.antt =====
-- The flips of the edges as a number: `coord_eo` and `set_eo`.
use h.Base.{ℕ, ◌+◌, ◌*◌, ◌/◌, ◌%◌, ◌<◌, List, [], ◌∷◌, length, ◌≡◌, refl, sym, arith}
use h.Cube.{Cube}
use h.Cube.Group.{IsCube}
use h.Coordinates.{coord_eo, set_eo}
use h.Coordinates.Flips.{flip_at, set_flip-same, twelve, AreEdges, coord_eo-list}

flip-lt : (xs : List ℕ) → AreEdges xs → (k : ℕ) → k < 12 → flip_at xs k < 2
flip-lt xs small k h = omega (arith, small k h)

-- The flips of all edges together.
abbrev pub total_flip : List ℕ → ℕ
total_flip xs =
    flip_at xs 0
    + flip_at xs 1
    + flip_at xs 2
    + flip_at xs 3
    + flip_at xs 4
    + flip_at xs 5
    + flip_at xs 6
    + flip_at xs 7
    + flip_at xs 8
    + flip_at xs 9
    + flip_at xs 10
    + flip_at xs 11

-- The digits of a sum of eleven digits.
digits_of :
    (f1 f2 f3 f4 f5 f6 f7 f8 f9 f10 f11 : ℕ)
    → f1 < 2
    → f2 < 2
    → f3 < 2
    → f4 < 2
    → f5 < 2
    → f6 < 2
    → f7 < 2
    → f8 < 2
    → f9 < 2
    → f10 < 2
    → f11 < 2
    → (d : ℕ)
    → d
      ≡ f1
        + 2
          * (f2
              + 2
                * (f3
                    + 2
                      * (f4
                          + 2
                            * (f5
                                + 2
                                  * (f6 + 2 * (f7 + 2 * (f8 + 2 * (f9 + 2 * (f10 + 2 * f11)))))))))
    → (d % 2 ≡ f1)
      × (d / 2 % 2 ≡ f2)
      × (d / 2 / 2 % 2 ≡ f3)
      × (d / 2 / 2 / 2 % 2 ≡ f4)
      × (d / 2 / 2 / 2 / 2 % 2 ≡ f5)
      × (d / 2 / 2 / 2 / 2 / 2 % 2 ≡ f6)
      × (d / 2 / 2 / 2 / 2 / 2 / 2 % 2 ≡ f7)
      × (d / 2 / 2 / 2 / 2 / 2 / 2 / 2 % 2 ≡ f8)
      × (d / 2 / 2 / 2 / 2 / 2 / 2 / 2 / 2 % 2 ≡ f9)
      × (d / 2 / 2 / 2 / 2 / 2 / 2 / 2 / 2 / 2 % 2 ≡ f10)
      × (d / 2 / 2 / 2 / 2 / 2 / 2 / 2 / 2 / 2 / 2 % 2 ≡ f11)
digits_of f1 f2 f3 f4 f5 f6 f7 f8 f9 f10 f11 h1 h2 h3 h4 h5 h6 h7 h8 h9 h10 h11 d e = (
  omega arith,
  omega arith,
  omega arith,
  omega arith,
  omega arith,
  omega arith,
  omega arith,
  omega arith,
  omega arith,
  omega arith,
  omega arith,
)

coord_eo-sum :
    (x0 x1 x2 x3 x4 x5 x6 x7 x8 x9 x10 x11 : ℕ) (corner : List ℕ)
    → coord_eo (record {
      corner = corner;
      edge = x0 ∷ x1 ∷ x2 ∷ x3 ∷ x4 ∷ x5 ∷ x6 ∷ x7 ∷ x8 ∷ x9 ∷ x10 ∷ x11 ∷ [];
    })
      ≡ x1 / 16
        + 2
          * (x2 / 16
              + 2
                * (x3 / 16
                    + 2
                      * (x4 / 16
                          + 2
                            * (x5 / 16
                                + 2
                                  * (x6 / 16
                                      + 2
                                        * (x7 / 16
                                            + 2
                                              * (x8 / 16
                                                  + 2
                                                    * (x9 / 16
                                                        + 2 * (x10 / 16 + 2 * (x11 / 16))))))))))
unfolding coord_eo
coord_eo-sum x0 x1 x2 x3 x4 x5 x6 x7 x8 x9 x10 x11 corner = omega arith

-- Setting the flips that the edges have changes nothing.
set_eo-same :
    (x0 x1 x2 x3 x4 x5 x6 x7 x8 x9 x10 x11 d : ℕ) (corner : List ℕ)
    → AreEdges (x0 ∷ x1 ∷ x2 ∷ x3 ∷ x4 ∷ x5 ∷ x6 ∷ x7 ∷ x8 ∷ x9 ∷ x10 ∷ x11 ∷ [])
    → x0 / 16
      ≡ (0
          + d % 2
          + d / 2 % 2
          + d / 2 / 2 % 2
          + d / 2 / 2 / 2 % 2
          + d / 2 / 2 / 2 / 2 % 2
          + d / 2 / 2 / 2 / 2 / 2 % 2
          + d / 2 / 2 / 2 / 2 / 2 / 2 % 2
          + d / 2 / 2 / 2 / 2 / 2 / 2 / 2 % 2
          + d / 2 / 2 / 2 / 2 / 2 / 2 / 2 / 2 % 2
          + d / 2 / 2 / 2 / 2 / 2 / 2 / 2 / 2 / 2 % 2
          + d / 2 / 2 / 2 / 2 / 2 / 2 / 2 / 2 / 2 / 2 % 2)
        % 2
    → x1 / 16 ≡ d % 2
    → x2 / 16 ≡ d / 2 % 2
    → x3 / 16 ≡ d / 2 / 2 % 2
    → x4 / 16 ≡ d / 2 / 2 / 2 % 2
    → x5 / 16 ≡ d / 2 / 2 / 2 / 2 % 2
    → x6 / 16 ≡ d / 2 / 2 / 2 / 2 / 2 % 2
    → x7 / 16 ≡ d / 2 / 2 / 2 / 2 / 2 / 2 % 2
    → x8 / 16 ≡ d / 2 / 2 / 2 / 2 / 2 / 2 / 2 % 2
    → x9 / 16 ≡ d / 2 / 2 / 2 / 2 / 2 / 2 / 2 / 2 % 2
    → x10 / 16 ≡ d / 2 / 2 / 2 / 2 / 2 / 2 / 2 / 2 / 2 % 2
    → x11 / 16 ≡ d / 2 / 2 / 2 / 2 / 2 / 2 / 2 / 2 / 2 / 2 % 2
    → set_eo
        (record {
          corner = corner;
          edge = x0 ∷ x1 ∷ x2 ∷ x3 ∷ x4 ∷ x5 ∷ x6 ∷ x7 ∷ x8 ∷ x9 ∷ x10 ∷ x11 ∷ [];
        })
        d
      ≡ record {
        corner = corner;
        edge = x0 ∷ x1 ∷ x2 ∷ x3 ∷ x4 ∷ x5 ∷ x6 ∷ x7 ∷ x8 ∷ x9 ∷ x10 ∷ x11 ∷ [];
      }
unfolding set_eo
set_eo-same x0 x1 x2 x3 x4 x5 x6 x7 x8 x9 x10 x11 d corner small e0 e1 e2 e3 e4 e5 e6 e7 e8 e9 e10
      e11 =
    rw
      (
        set_flip-same x0
            ((0
                + d % 2
                + d / 2 % 2
                + d / 2 / 2 % 2
                + d / 2 / 2 / 2 % 2
                + d / 2 / 2 / 2 / 2 % 2
                + d / 2 / 2 / 2 / 2 / 2 % 2
                + d / 2 / 2 / 2 / 2 / 2 / 2 % 2
                + d / 2 / 2 / 2 / 2 / 2 / 2 / 2 % 2
                + d / 2 / 2 / 2 / 2 / 2 / 2 / 2 / 2 % 2
                + d / 2 / 2 / 2 / 2 / 2 / 2 / 2 / 2 / 2 % 2
                + d / 2 / 2 / 2 / 2 / 2 / 2 / 2 / 2 / 2 / 2 % 2)
              % 2)
            (small 0 (omega arith)) e0,
        set_flip-same x1 (d % 2) (small 1 (omega arith)) e1,
        set_flip-same x2 (d / 2 % 2) (small 2 (omega arith)) e2,
        set_flip-same x3 (d / 2 / 2 % 2) (small 3 (omega arith)) e3,
        set_flip-same x4 (d / 2 / 2 / 2 % 2) (small 4 (omega arith)) e4,
        set_flip-same x5 (d / 2 / 2 / 2 / 2 % 2) (small 5 (omega arith)) e5,
        set_flip-same x6 (d / 2 / 2 / 2 / 2 / 2 % 2) (small 6 (omega arith)) e6,
        set_flip-same x7 (d / 2 / 2 / 2 / 2 / 2 / 2 % 2) (small 7 (omega arith)) e7,
        set_flip-same x8 (d / 2 / 2 / 2 / 2 / 2 / 2 / 2 % 2) (small 8 (omega arith)) e8,
        set_flip-same x9 (d / 2 / 2 / 2 / 2 / 2 / 2 / 2 / 2 % 2) (small 9 (omega arith)) e9,
        set_flip-same x10 (d / 2 / 2 / 2 / 2 / 2 / 2 / 2 / 2 / 2 % 2) (small 10 (omega arith)) e10,
        set_flip-same x11 (d / 2 / 2 / 2 / 2 / 2 / 2 / 2 / 2 / 2 / 2 % 2) (small 11 (omega arith))
            e11,
      )
      refl

set_eo-list :
    (xs : List ℕ)
    → length xs ≡ 12
    → AreEdges xs
    → total_flip xs % 2 ≡ 0
    → (corner : List ℕ)
    → set_eo
        (record { corner = corner; edge = xs })
        (coord_eo (record { corner = corner; edge = xs }))
      ≡ record { corner = corner; edge = xs }
unfolding set_eo
set_eo-list =
    twelve
      (λ xs.
        AreEdges xs
        → total_flip xs % 2 ≡ 0
        → (corner : List ℕ)
        → set_eo (record { corner = corner; edge = xs })
            (coord_eo (record { corner = corner; edge = xs }))
          ≡ record { corner = corner; edge = xs })
      λ x0 x1 x2 x3 x4 x5 x6 x7 x8 x9 x10 x11 small even corner.
        let d : ℕ = coord_eo (record {
          corner = corner;
          edge = x0 ∷ x1 ∷ x2 ∷ x3 ∷ x4 ∷ x5 ∷ x6 ∷ x7 ∷ x8 ∷ x9 ∷ x10 ∷ x11 ∷ [];
        }) in
        let b = λ (k : ℕ) (p : k < 12).
          flip-lt (x0 ∷ x1 ∷ x2 ∷ x3 ∷ x4 ∷ x5 ∷ x6 ∷ x7 ∷ x8 ∷ x9 ∷ x10 ∷ x11 ∷ []) small k p in
        let (d1, d2, d3, d4, d5, d6, d7, d8, d9, d10, d11) =
          digits_of (x1 / 16) (x2 / 16) (x3 / 16) (x4 / 16) (x5 / 16) (x6 / 16) (x7 / 16) (x8 / 16)
            (x9 / 16) (x10 / 16) (x11 / 16) (b 1 (omega arith)) (b 2 (omega arith))
            (b 3 (omega arith)) (b 4 (omega arith)) (b 5 (omega arith)) (b 6 (omega arith))
            (b 7 (omega arith)) (b 8 (omega arith)) (b 9 (omega arith)) (b 10 (omega arith))
            (b 11 (omega arith)) d (coord_eo-sum x0 x1 x2 x3 x4 x5 x6 x7 x8 x9 x10 x11 corner) in
        set_eo-same x0 x1 x2 x3 x4 x5 x6 x7 x8 x9 x10 x11 d corner small
          (omega (arith, even, b 0 (omega arith), d1, d2, d3, d4, d5, d6, d7, d8, d9, d10, d11))
          (sym d1) (sym d2) (sym d3) (sym d4) (sym d5) (sym d6) (sym d7) (sym d8) (sym d9) (sym d10)
          (sym d11)

edges_of : (c : Cube) → IsCube c → AreEdges c.edge
edges_of c h k lt = (h.edges.piece k lt).0

-- On a cube of the puzzle, `coord_eo` reads the number back that `set_eo` wrote, if it is below
-- 2^11.
pub coord_eo-set_eo : (c : Cube) (d : ℕ) → IsCube c → d < 2048 → coord_eo (set_eo c d) ≡ d
coord_eo-set_eo c d h lt = coord_eo-list d lt c.edge h.edges.size (edges_of c h) c.corner

-- Writing the coordinate that a cube of the puzzle has changes nothing, if its flips add up to an even
-- number.
pub set_eo-coord_eo : (c : Cube) → IsCube c → total_flip c.edge % 2 ≡ 0 → set_eo c (coord_eo c) ≡ c
set_eo-coord_eo c h even = set_eo-list c.edge h.edges.size (edges_of c h) even c.corner
