-- ===== src/Coordinates/Flips.antt =====
-- The flips of twelve edges, one by one, for `coord_eo` and `set_eo` of src/arch/portable.h.
use h.Base.{
  ℕ, ◌+◌, ◌*◌, ◌/◌, ◌%◌, ◌^◌, ◌<◌, true, List, [], ◌∷◌, ◌==◌, ==_iff, get_or, length, ◌≡◌, refl,
  ◌∙◌, arith, all_below, all_below₂_sound,
}
use h.Cube.{eoshift}
use h.Coordinates.{coord_eo, set_eo, set_flip}

-- The flip of the edge at a place.
abbrev pub flip_at : List ℕ → ℕ → ℕ
flip_at edge k = get_or edge k 0 / 2 ^ eoshift

flip_check : all_below 32 (λ x. all_below 2 (λ f. set_flip x f == x % 16 + 16 * f)) ≡ true
unfolding all_below set_flip
flip_check = refl

-- The place stays and the flip is the given one.
set_flip_lem : (x f : ℕ) → x < 32 → f < 2 → set_flip x f ≡ x % 16 + 16 * f
set_flip_lem x f h h' =
    (==_iff (set_flip x f) (x % 16 + 16 * f)).0
      (all_below₂_sound 32 2 (λ x f. set_flip x f == x % 16 + 16 * f) x f flip_check h h')

pub set_flip-same : (x f : ℕ) → x < 32 → x / 16 ≡ f → set_flip x f ≡ x
set_flip-same x f h e = set_flip_lem x f h (omega arith) ∙ omega arith

flip_of : (x f : ℕ) → x < 32 → f < 2 → set_flip x f / 2 ^ eoshift ≡ f
flip_of x f h h' = omega (arith, set_flip_lem x f h h')

-- Twelve edges.
pub twelve :
    (P : List ℕ → Type 0)
    → ((x0 x1 x2 x3 x4 x5 x6 x7 x8 x9 x10 x11 : ℕ)
        → P (x0 ∷ x1 ∷ x2 ∷ x3 ∷ x4 ∷ x5 ∷ x6 ∷ x7 ∷ x8 ∷ x9 ∷ x10 ∷ x11 ∷ []))
    → (xs : List ℕ) → length xs ≡ 12
    → P xs
twelve P f [] e = absurd (omega arith)
twelve P f (x0 ∷ []) e = absurd (omega arith)
twelve P f (x0 ∷ x1 ∷ []) e = absurd (omega arith)
twelve P f (x0 ∷ x1 ∷ x2 ∷ []) e = absurd (omega arith)
twelve P f (x0 ∷ x1 ∷ x2 ∷ x3 ∷ []) e = absurd (omega arith)
twelve P f (x0 ∷ x1 ∷ x2 ∷ x3 ∷ x4 ∷ []) e = absurd (omega arith)
twelve P f (x0 ∷ x1 ∷ x2 ∷ x3 ∷ x4 ∷ x5 ∷ []) e = absurd (omega arith)
twelve P f (x0 ∷ x1 ∷ x2 ∷ x3 ∷ x4 ∷ x5 ∷ x6 ∷ []) e = absurd (omega arith)
twelve P f (x0 ∷ x1 ∷ x2 ∷ x3 ∷ x4 ∷ x5 ∷ x6 ∷ x7 ∷ []) e = absurd (omega arith)
twelve P f (x0 ∷ x1 ∷ x2 ∷ x3 ∷ x4 ∷ x5 ∷ x6 ∷ x7 ∷ x8 ∷ []) e = absurd (omega arith)
twelve P f (x0 ∷ x1 ∷ x2 ∷ x3 ∷ x4 ∷ x5 ∷ x6 ∷ x7 ∷ x8 ∷ x9 ∷ []) e = absurd (omega arith)
twelve P f (x0 ∷ x1 ∷ x2 ∷ x3 ∷ x4 ∷ x5 ∷ x6 ∷ x7 ∷ x8 ∷ x9 ∷ x10 ∷ []) e = absurd (omega arith)
twelve P f (x0 ∷ x1 ∷ x2 ∷ x3 ∷ x4 ∷ x5 ∷ x6 ∷ x7 ∷ x8 ∷ x9 ∷ x10 ∷ x11 ∷ []) e =
    f x0 x1 x2 x3 x4 x5 x6 x7 x8 x9 x10 x11
twelve P f (x0 ∷ x1 ∷ x2 ∷ x3 ∷ x4 ∷ x5 ∷ x6 ∷ x7 ∷ x8 ∷ x9 ∷ x10 ∷ x11 ∷ x12 ∷ xs) e =
    absurd (omega arith)

-- All edges below 32, as they are on a cube of the puzzle.
abbrev pub AreEdges : List ℕ → Type 0
AreEdges xs = (k : ℕ) → k < 12 → get_or xs k 0 < 32

digits_sum :
    (d : ℕ)
    → d < 2048
    → d % 2
        + 2
          * (d / 2 % 2
              + 2
                * (d / 2 / 2 % 2
                    + 2
                      * (d / 2 / 2 / 2 % 2
                          + 2
                            * (d / 2 / 2 / 2 / 2 % 2
                                + 2
                                  * (d / 2 / 2 / 2 / 2 / 2 % 2
                                      + 2
                                        * (d / 2 / 2 / 2 / 2 / 2 / 2 % 2
                                            + 2
                                              * (d / 2 / 2 / 2 / 2 / 2 / 2 / 2 % 2
                                                  + 2
                                                    * (d / 2 / 2 / 2 / 2 / 2 / 2 / 2 / 2 % 2
                                                        + 2
                                                          * (d / 2 / 2 / 2 / 2 / 2 / 2 / 2 / 2 / 2
                                                            % 2
                                                            + 2
                                                            * (d / 2 / 2 / 2 / 2 / 2 / 2 / 2 / 2 / 2
                                                            / 2 % 2))))))))))
      ≡ d
digits_sum d h = omega arith

pub coord_eo-list :
    (d : ℕ)
    → d < 2048
    → (xs : List ℕ) → length xs ≡ 12
    → AreEdges xs
    → (corner : List ℕ) → coord_eo (set_eo (record { corner = corner; edge = xs }) d) ≡ d
unfolding coord_eo set_eo
coord_eo-list d h =
    twelve
      (λ xs.
        AreEdges xs
        → (corner : List ℕ) → coord_eo (set_eo (record { corner = corner; edge = xs }) d) ≡ d)
      λ x0 x1 x2 x3 x4 x5 x6 x7 x8 x9 x10 x11 small corner.
        rw
          (
            flip_of x1 (d % 2) (small 1 (omega arith)) (omega arith),
            flip_of x2 (d / 2 % 2) (small 2 (omega arith)) (omega arith),
            flip_of x3 (d / 2 / 2 % 2) (small 3 (omega arith)) (omega arith),
            flip_of x4 (d / 2 / 2 / 2 % 2) (small 4 (omega arith)) (omega arith),
            flip_of x5 (d / 2 / 2 / 2 / 2 % 2) (small 5 (omega arith)) (omega arith),
            flip_of x6 (d / 2 / 2 / 2 / 2 / 2 % 2) (small 6 (omega arith)) (omega arith),
            flip_of x7 (d / 2 / 2 / 2 / 2 / 2 / 2 % 2) (small 7 (omega arith)) (omega arith),
            flip_of x8 (d / 2 / 2 / 2 / 2 / 2 / 2 / 2 % 2) (small 8 (omega arith)) (omega arith),
            flip_of x9 (d / 2 / 2 / 2 / 2 / 2 / 2 / 2 / 2 % 2) (small 9 (omega arith))
                (omega arith),
            flip_of x10 (d / 2 / 2 / 2 / 2 / 2 / 2 / 2 / 2 / 2 % 2) (small 10 (omega arith))
                (omega arith),
            flip_of x11 (d / 2 / 2 / 2 / 2 / 2 / 2 / 2 / 2 / 2 / 2 % 2) (small 11 (omega arith))
                (omega arith),
          )
          (omega (arith, digits_sum d h))
