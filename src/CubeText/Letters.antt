-- ===== src/CubeText/Letters.antt =====
-- The letters of the pieces in src/core/cube.h: 32 letters, one for each piece.
use h.Base.{
  ℕ, ◌+◌, ◌*◌, ◌/◌, ◌%◌, ◌<◌, true, ◌||◌, ◌≡◌, ◌≢◌, refl, sym, ap, ◌∙◌, arith, ◌==◌, ==_iff,
  all_below, all_below_sound,
}
use h.Cube.Pieces.{IsCornerPiece}
use h.Moves.{uint8_error}
use h.CubeText.{is_b32, b32toedge, b32tocorner, edgetob32, cornertob32}

pub b32toedge-edgetob32 :
    (x : ℕ) → x < 32 → (b32toedge (edgetob32 x) ≡ x) × (b32toedge (edgetob32 x) ≢ uint8_error)
unfolding b32toedge edgetob32 is_b32
b32toedge-edgetob32 x h = (ground arith, λ e. ground arith)

corner_of : ℕ → ℕ
corner_of a = a % 8 + 32 * (a / 8)

corner_table : all_below 24 (λ a. b32tocorner (cornertob32 (corner_of a)) == corner_of a) ≡ true
unfolding all_below b32tocorner cornertob32 is_b32 corner_of
corner_table = refl

corner_of-index : (x : ℕ) → IsCornerPiece x → corner_of (x % 32 + 8 * (x / 32)) ≡ x
unfolding corner_of
corner_of-index x h = omega arith

b32tocorner-cornertob32_same : (x : ℕ) → IsCornerPiece x → b32tocorner (cornertob32 x) ≡ x
b32tocorner-cornertob32_same x h =
    ap (λ t. b32tocorner (cornertob32 t)) (sym (corner_of-index x h))
    ∙ (==_iff _ _).0 (
        all_below_sound 24 (λ a. b32tocorner (cornertob32 (corner_of a)) == corner_of a)
          (x % 32 + 8 * (x / 32)) corner_table (omega arith))
    ∙ corner_of-index x h

pub b32tocorner-cornertob32 :
    (x : ℕ)
    → IsCornerPiece x
    → (b32tocorner (cornertob32 x) ≡ x) × (b32tocorner (cornertob32 x) ≢ uint8_error)
b32tocorner-cornertob32 x h = (e, λ p. omega (arith, e, p))
  where
    e : b32tocorner (cornertob32 x) ≡ x
    e = b32tocorner-cornertob32_same x h

-- A letter that is read is the one written for its piece.
pub edgetob32-b32toedge : (c : ℕ) → b32toedge c ≢ uint8_error → edgetob32 (b32toedge c) ≡ c
unfolding b32toedge edgetob32 is_b32
edgetob32-b32toedge c h = ground arith

letters_table :
    all_below 128 (λ c. b32tocorner c == uint8_error || cornertob32 (b32tocorner c) == c) ≡ true
unfolding all_below b32tocorner cornertob32 is_b32
letters_table = refl

b32tocorner_small : (c : ℕ) → b32tocorner c ≢ uint8_error → c < 128
unfolding b32tocorner is_b32
b32tocorner_small c h = ground arith

pub cornertob32-b32tocorner :
    (c : ℕ) → b32tocorner c ≢ uint8_error → cornertob32 (b32tocorner c) ≡ c
cornertob32-b32tocorner c h = ground (
  arith,
  all_below_sound 128 (λ k. b32tocorner k == uint8_error || cornertob32 (b32tocorner k) == k) c
      letters_table (b32tocorner_small c h),
)
