-- ===== src/Coordinates/Corners.antt =====
-- The twists of the corners as a number: `coord_co` and `invcoord_co` are inverse.
use h.Base.{
  ℕ, zero, suc, ◌+◌, ◌-◌, ◌*◌, ◌/◌, ◌%◌, ◌^◌, ◌<◌, true, ◌==◌, ==_iff, get_or, ◌≡◌, refl, ◌∙◌,
  arith, all_below, all_below_sound, all_below₂_sound,
}
use h.Cube.{Cube, coshift}
use h.Cube.Group.{IsCube}
use h.Coordinates.{coord_co, invcoord_co}
use h.Oriented.Checked.{is_cube, is_cube_sound}

-- The twist of the corner at a place.
abbrev pub twist_at : Cube → ℕ → ℕ
twist_at c k = get_or c.corner k 0 / 2 ^ coshift

abbrev digit_sum : ℕ → ℕ
digit_sum d = d % 3 + d / 3 % 3 + d / 9 % 3 + d / 27 % 3 + d / 81 % 3 + d / 243 % 3 + d / 729 % 3

coord_co_check : all_below 2187 (λ d. coord_co (invcoord_co d) == d) ≡ true
unfolding all_below coord_co invcoord_co
coord_co_check = refl

invcoord_co_check : all_below 2187 (λ d. is_cube (invcoord_co d)) ≡ true
unfolding all_below invcoord_co is_cube
invcoord_co_check = refl

digit_check :
    all_below 2187 (λ d. all_below 7 (λ k. twist_at (invcoord_co d) k == d / 3 ^ k % 3)) ≡ true
unfolding all_below invcoord_co
digit_check = refl

last_check : all_below 2187 (λ d. twist_at (invcoord_co d) 7 == (3 - digit_sum d % 3) % 3) ≡ true
unfolding all_below invcoord_co
last_check = refl

-- For a number below 3^7, `invcoord_co` makes a cube of the puzzle with that coordinate.
pub coord_co-invcoord_co :
    (d : ℕ) → d < 2187 → IsCube (invcoord_co d) × (coord_co (invcoord_co d) ≡ d)
coord_co-invcoord_co d h = (
  is_cube_sound (invcoord_co d)
      (all_below_sound 2187 (λ d. is_cube (invcoord_co d)) d invcoord_co_check h),
  (==_iff (coord_co (invcoord_co d)) d).0
      (all_below_sound 2187 (λ d. coord_co (invcoord_co d) == d) d coord_co_check h),
)

-- The digits of a sum of seven digits.
digits_of :
    (a b c d e f g : ℕ)
    → a < 3
    → b < 3
    → c < 3
    → d < 3
    → e < 3
    → f < 3
    → g < 3
    → (n : ℕ) → n ≡ a + 3 * (b + 3 * (c + 3 * (d + 3 * (e + 3 * (f + 3 * g)))))
    → (n < 2187)
      × (n % 3 ≡ a)
      × (n / 3 % 3 ≡ b)
      × (n / 9 % 3 ≡ c)
      × (n / 27 % 3 ≡ d)
      × (n / 81 % 3 ≡ e)
      × (n / 243 % 3 ≡ f)
      × (n / 729 % 3 ≡ g)
digits_of a b c d e f g ha hb hc hd he hf hg n h = (
  omega arith,
  omega arith,
  omega arith,
  omega arith,
  omega arith,
  omega arith,
  omega arith,
  omega arith,
)

coord_co-sum :
    (c : Cube)
    → coord_co c
      ≡ twist_at c 0
        + 3
          * (twist_at c 1
              + 3
                * (twist_at c 2
                    + 3
                      * (twist_at c 3
                          + 3 * (twist_at c 4 + 3 * (twist_at c 5 + 3 * twist_at c 6)))))
unfolding coord_co
coord_co-sum c = omega arith

twist-lt : (c : Cube) (k : ℕ) → IsCube c → k < 8 → twist_at c k < 3
twist-lt c k h lt = omega (arith, (h.corners.piece k lt).0)

digit_at : (d j : ℕ) → d < 2187 → j < 7 → twist_at (invcoord_co d) j ≡ d / 3 ^ j % 3
digit_at d j h p = (==_iff (twist_at (invcoord_co d) j) (d / 3 ^ j % 3)).0 (
    all_below₂_sound 2187 7 (λ d k. twist_at (invcoord_co d) k == d / 3 ^ k % 3) d j digit_check h
      p)

last_at : (d : ℕ) → d < 2187 → twist_at (invcoord_co d) 7 ≡ (3 - digit_sum d % 3) % 3
last_at d h = (==_iff (twist_at (invcoord_co d) 7) ((3 - digit_sum d % 3) % 3)).0 (
    all_below_sound 2187 (λ d. twist_at (invcoord_co d) 7 == (3 - digit_sum d % 3) % 3) d last_check
      h)

last_twist : (s x : ℕ) → x < 3 → (s + x) % 3 ≡ 0 → (3 - s % 3) % 3 ≡ x
last_twist s x h e = omega arith

eight : (P : ℕ → Type 0) → P 0 → P 1 → P 2 → P 3 → P 4 → P 5 → P 6 → P 7 → (k : ℕ) → k < 8 → P k
eight P a b c d e f g h zero lt = a
eight P a b c d e f g h (suc zero) lt = b
eight P a b c d e f g h (suc (suc zero)) lt = c
eight P a b c d e f g h (suc (suc (suc zero))) lt = d
eight P a b c d e f g h (suc (suc (suc (suc zero)))) lt = e
eight P a b c d e f g h (suc (suc (suc (suc (suc zero))))) lt = f
eight P a b c d e f g h (suc (suc (suc (suc (suc (suc zero)))))) lt = g
eight P a b c d e f g h (suc (suc (suc (suc (suc (suc (suc zero))))))) lt = h
eight P a b c d e f g h (suc (suc (suc (suc (suc (suc (suc (suc k)))))))) lt = absurd (omega arith)

-- The twists of all corners together.
abbrev pub total_twist : Cube → ℕ
total_twist c =
    twist_at c 0
    + twist_at c 1
    + twist_at c 2
    + twist_at c 3
    + twist_at c 4
    + twist_at c 5
    + twist_at c 6
    + twist_at c 7

-- On a cube of the puzzle whose twists add up to a multiple of three, the coordinate determines the
-- twist at every place: `invcoord_co` of it has the same twists.
pub invcoord_co-coord_co :
    (c : Cube) (k : ℕ)
    → IsCube c
    → total_twist c % 3 ≡ 0
    → k < 8
    → twist_at (invcoord_co (coord_co c)) k ≡ twist_at c k
invcoord_co-coord_co c k h even lt =
    let t = λ (j : ℕ) (p : j < 8). twist-lt c j h p in
    let (small, d0, d1, d2, d3, d4, d5, d6) =
      digits_of (twist_at c 0) (twist_at c 1) (twist_at c 2) (twist_at c 3) (twist_at c 4)
        (twist_at c 5) (twist_at c 6) (t 0 (omega arith)) (t 1 (omega arith)) (t 2 (omega arith))
        (t 3 (omega arith)) (t 4 (omega arith)) (t 5 (omega arith)) (t 6 (omega arith)) (coord_co c)
        (coord_co-sum c) in
    let d : ℕ = coord_co c in
    let digit = λ (j : ℕ) (p : j < 7). digit_at d j small p in
    let one : d / 3 ^ 0 % 3 ≡ d % 3 = omega arith in
    let last : twist_at (invcoord_co d) 7 ≡ twist_at c 7 =
      last_at d small
      ∙ last_twist (digit_sum d) (twist_at c 7) (t 7 (omega arith))
          (omega (arith, even, d0, d1, d2, d3, d4, d5, d6)) in
    eight (λ j. twist_at (invcoord_co d) j ≡ twist_at c j) (digit 0 (omega arith) ∙ one ∙ d0)
      (digit 1 (omega arith) ∙ d1) (digit 2 (omega arith) ∙ d2) (digit 3 (omega arith) ∙ d3)
      (digit 4 (omega arith) ∙ d4) (digit 5 (omega arith) ∙ d5) (digit 6 (omega arith) ∙ d6) last k
      lt
