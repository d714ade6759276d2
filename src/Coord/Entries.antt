-- ===== src/Coord/Entries.antt =====
-- The parts of the words that src/solvers/coord/types_macros.h packs.
use h.Base.{
  ℕ, zero, suc, ◌+◌, ◌*◌, ◌/◌, ◌%◌, ◌^◌, ◌<◌, ◌≤◌, bit_and, bit_or, ◌≡◌, refl, sym, ap, ap₂, ◌∙◌,
  ◌≢◌, arith, min,
}
use h.Base.Bits.{bit_and-lowest, bit_or-lowest, bit_or_add, bit_and_low}
use native.Mathlib.Nat.{pow-suc, div-div-eq-div-mul}
use h.Transform.{inverse_trans}
use h.Transform.Laws.Moved.{inverse_trans-lt}
use h.Coord.{class_entry, coord_class, coord_ttrep, coord_isnasty, no_entry}

bit_or_comm_upto : (k a b : ℕ) → a ≤ k → b ≤ k → bit_or a b ≡ bit_or b a
bit_or_comm_upto zero a b p q =
    let a0 : a ≡ 0 = omega arith in let b0 : b ≡ 0 = omega arith in rw (a0, b0) refl
bit_or_comm_upto (suc k) a b p q =
    let halves : bit_or (a / 2) (b / 2) ≡ bit_or (b / 2) (a / 2) =
      bit_or_comm_upto k (a / 2) (b / 2) (omega arith) (omega arith) in
    omega (arith, bit_or-lowest a b, bit_or-lowest b a, halves)

bit_or_comm : (a b : ℕ) → bit_or a b ≡ bit_or b a
bit_or_comm a b = bit_or_comm_upto (a + b) a b (omega arith) (omega arith)

bit_and_shifted : (k a b : ℕ) → bit_and a (b * 2 ^ k) ≡ bit_and (a / 2 ^ k) b * 2 ^ k
bit_and_shifted zero a b =
    ap (λ t. bit_and t (b * 1)) (sym one) ∙ ap (λ t. bit_and (a / 1) t) times ∙ omega arith
  where
    one : a / 1 ≡ a
    one = omega arith

    times : b * 1 ≡ b
    times = omega arith
bit_and_shifted (suc k) a b =
    let p : 2 ^ suc k ≡ 2 ^ k * 2 = pow-suc 2 k in
    let double : b * 2 ^ suc k ≡ b * 2 ^ k * 2 = ap (λ t. b * t) p ∙ omega arith in
    let half : b * 2 ^ suc k / 2 ≡ b * 2 ^ k = omega (arith, double) in
    let even : b * 2 ^ suc k % 2 ≡ 0 = omega (arith, double) in
    let quotient : a / 2 / 2 ^ k ≡ a / 2 ^ suc k =
      div-div-eq-div-mul a 2 (2 ^ k) ∙ ap (λ t. a / t) (omega (arith, p)) in
    let same : bit_and (a / 2) (b * 2 ^ suc k / 2) ≡ bit_and (a / 2 ^ suc k) b * 2 ^ k =
      ap (λ t. bit_and (a / 2) t) half
      ∙ bit_and_shifted k (a / 2) b
      ∙ ap (λ t. bit_and t b * 2 ^ k) quotient in
    let drop : bit_and (a / 2 ^ suc k) b * 2 ^ k * 2 + min (a % 2) 0
        ≡ bit_and (a / 2 ^ suc k) b * (2 ^ k * 2) =
      omega arith in
    bit_and-lowest a (b * 2 ^ suc k)
    ∙ ap₂ (λ u v. u * 2 + min (a % 2) v) same even
    ∙ (drop ∙ ap (λ t. bit_and (a / 2 ^ suc k) b * t) (sym p))

-- A word with its parts in their ranges is their sum.
class_entry_sum :
    (n nasty t : ℕ)
    → n < 2 ^ 16
    → nasty < 2
    → t < 48
    → class_entry n nasty t ≡ inverse_trans t + nasty * 2 ^ 8 + n * 2 ^ 16
unfolding class_entry
class_entry_sum n nasty t hn hs ht =
    let u : inverse_trans t < 48 = inverse_trans-lt t ht in
    let high : bit_or (n * 2 ^ 16) (nasty * 2 ^ 8) ≡ (nasty + n * 2 ^ 8) * 2 ^ 8 =
      bit_or_comm (n * 2 ^ 16) (nasty * 2 ^ 8)
      ∙ bit_or_add 16 (nasty * 2 ^ 8) n (omega arith)
      ∙ omega arith in
    let low : inverse_trans t * 2 ^ 0 ≡ inverse_trans t = omega arith in
    ap (λ x. x % 2 ^ 32)
      (ap₂ bit_or high low
        ∙ bit_or_comm ((nasty + n * 2 ^ 8) * 2 ^ 8) (inverse_trans t)
        ∙ bit_or_add 8 (inverse_trans t) (nasty + n * 2 ^ 8) (omega arith))
    ∙ omega arith

-- The parts are read back.
pub class_entry-parts :
    (n nasty t : ℕ)
    → n < 2 ^ 16
    → nasty < 2
    → t < 48
    → (coord_class (class_entry n nasty t) ≡ n)
      × (coord_isnasty (class_entry n nasty t) ≡ nasty)
      × (coord_ttrep (class_entry n nasty t) ≡ inverse_trans t)
unfolding coord_class coord_isnasty coord_ttrep
class_entry-parts n nasty t hn hs ht =
    let u : inverse_trans t < 48 = inverse_trans-lt t ht in
    let e = class_entry_sum n nasty t hn hs ht in
    let d = class_entry n nasty t in
    let c16 : d / 2 ^ 16 % 2 ^ 16 ≡ n = omega (arith, e) in
    let c8 : d / 2 ^ 8 % 2 ^ 8 ≡ nasty = omega (arith, e) in
    let c0 : d % 2 ^ 8 ≡ inverse_trans t = omega (arith, e) in
    (
      omega (arith, bit_and_shifted 16 d 0xFFFF, bit_and_low 16 (d / 2 ^ 16), c16),
      omega (arith, bit_and_shifted 8 d 0xFF, bit_and_low 8 (d / 2 ^ 8), c8),
      omega (arith, bit_and_low 8 d, c0),
    )

-- A word is not the mark of an empty place.
pub class_entry-no_entry :
    (n nasty t : ℕ) → n < 2 ^ 16 → nasty < 2 → t < 48 → class_entry n nasty t ≢ no_entry
class_entry-no_entry n nasty t hn hs ht e =
    let u : inverse_trans t < 48 = inverse_trans-lt t ht in
    omega (arith, e, class_entry_sum n nasty t hn hs ht)
