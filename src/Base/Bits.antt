-- ===== src/Base/Bits.antt =====
-- Bit masks as arithmetic, at every width: the native operations by their lowest digit, disjunction
-- of disjoint fields, and conjunction with a mask.
use Prim.Native.Nat.{
  ℕ, zero, suc, ◌+◌, ◌*◌, ◌/◌, ◌%◌, ◌-◌, ◌^◌, ◌≤◌, ◌<◌, min, max, bit_and, bit_or, digits, bitwise,
  bit_and-bitwise, bit_or-bitwise,
}
use mathlib.Core.Path.{◌≡◌, refl, ap, ◌∙◌, sym}
use native.Mathlib.Nat.{pow-suc, one-le-pow, mod-lt, div-add-mod}
use native.Mathlib.Omega.{arith}

module _ (z : ℕ → ℕ) (op : ℕ → ℕ → ℕ) where
  -- More rounds than the first number has digits change nothing.
  more_rounds :
      (rounds extra a b : ℕ)
      → a ≤ rounds
      → digits z op (rounds + extra) a b ≡ digits z op rounds a b
  more_rounds zero extra zero b h = at_zero (zero + extra)
    where
      at_zero : (k : ℕ) → digits z op k zero b ≡ z b
      at_zero zero = refl
      at_zero (suc k) = refl
  more_rounds zero extra (suc a) b h = absurd (omega arith)
  more_rounds (suc rounds) extra zero b h = from (suc rounds + extra)
    where
      from : (k : ℕ) → digits z op k zero b ≡ z b
      from zero = refl
      from (suc k) = refl
  more_rounds (suc rounds) extra (suc a) b h =
      let e : suc rounds + extra ≡ suc (rounds + extra) = omega arith in
      ap (λ k. digits z op k (suc a) b) e
      ∙ ap (λ t. t * 2 + op (suc a % 2) (b % 2))
          (more_rounds rounds extra (suc a / 2) (b / 2) (omega arith))

  by_lowest :
      (a b : ℕ)
      → bitwise z op (suc a) b ≡ bitwise z op (suc a / 2) (b / 2) * 2 + op (suc a % 2) (b % 2)
  by_lowest a b =
      let split : a ≡ suc a / 2 + (a - suc a / 2) = omega arith in
      let e : digits z op a (suc a / 2) (b / 2) ≡ digits z op (suc a / 2) (suc a / 2) (b / 2) =
        ap (λ k. digits z op k (suc a / 2) (b / 2)) split
        ∙ more_rounds (suc a / 2) (a - suc a / 2) (suc a / 2) (b / 2) (omega arith) in
      ap (λ t. t * 2 + op (suc a % 2) (b % 2)) e

pub bit_or-lowest : (a b : ℕ) → bit_or a b ≡ bit_or (a / 2) (b / 2) * 2 + max (a % 2) (b % 2)
bit_or-lowest zero b = rw (bit_or-bitwise 0 b, bit_or-bitwise (0 / 2) (b / 2)) (omega arith)
bit_or-lowest (suc a) b =
    bit_or-bitwise (suc a) b
    ∙ by_lowest (λ y. y) max a b
    ∙ ap (λ t. t * 2 + max (suc a % 2) (b % 2)) (sym (bit_or-bitwise (suc a / 2) (b / 2)))

pub bit_and-lowest : (a b : ℕ) → bit_and a b ≡ bit_and (a / 2) (b / 2) * 2 + min (a % 2) (b % 2)
bit_and-lowest zero b = rw (bit_and-bitwise 0 b, bit_and-bitwise (0 / 2) (b / 2)) (omega arith)
bit_and-lowest (suc a) b =
    bit_and-bitwise (suc a) b
    ∙ by_lowest (λ y. 0) min a b
    ∙ ap (λ t. t * 2 + min (suc a % 2) (b % 2)) (sym (bit_and-bitwise (suc a / 2) (b / 2)))

zero-bit_or : (b : ℕ) → bit_or 0 b ≡ b
zero-bit_or b = bit_or-bitwise 0 b

-- A field above `k` bits is or-ed on top of a value that fits them by addition.
pub bit_or_add : (k low high : ℕ) → low < 2 ^ k → bit_or low (high * 2 ^ k) ≡ low + high * 2 ^ k
bit_or_add zero low high h =
    let e : low ≡ 0 = omega arith in rw (e, zero-bit_or (high * 2 ^ 0)) (omega arith)
bit_or_add (suc k) low high h =
    let p : 2 ^ suc k ≡ 2 ^ k * 2 = pow-suc 2 k in
    let q : high * 2 ^ suc k ≡ high * 2 ^ k * 2 = omega (arith, ap (λ (t : ℕ). high * t) p) in
    omega (
      arith,
      bit_or-lowest low (high * 2 ^ suc k),
      ap (λ (t : ℕ). bit_or (low / 2) t)
          (let e : high * 2 ^ suc k / 2 ≡ high * 2 ^ k = omega arith in e),
      bit_or_add k (low / 2) high (omega arith),
    )

bit_and-zero : (rounds a : ℕ) → a ≤ rounds → bit_and a 0 ≡ 0
bit_and-zero zero a h = let e : a ≡ 0 = omega arith in rw (e, bit_and-bitwise 0 0)
bit_and-zero (suc rounds) a h =
    omega (arith, bit_and-lowest a 0, bit_and-zero rounds (a / 2) (omega arith))

-- A mask of the low `k` bits keeps a field below them and drops what is above.
bit_and_field : (k high low : ℕ) → low < 2 ^ k → bit_and (low + high * 2 ^ k) (2 ^ k - 1) ≡ low
bit_and_field zero high low h =
    bit_and-zero (low + high * 2 ^ 0) (low + high * 2 ^ 0) (omega arith) ∙ omega arith
bit_and_field (suc k) high low h =
    let p : 2 ^ suc k ≡ 2 ^ k * 2 = pow-suc 2 k in
    let one : 1 ≤ 2 ^ k = one-le-pow k 2 (omega arith) in
    let q : high * 2 ^ suc k ≡ high * 2 ^ k * 2 = omega (arith, ap (λ (t : ℕ). high * t) p) in
    let a : ℕ = low + high * 2 ^ suc k in
    let upper : a / 2 ≡ low / 2 + high * 2 ^ k = omega arith in
    let half : (2 ^ suc k - 1) / 2 ≡ 2 ^ k - 1 = omega arith in
    omega (
      arith,
      bit_and-lowest a (2 ^ suc k - 1),
      ap (λ (t : ℕ). bit_and t ((2 ^ suc k - 1) / 2)) upper,
      ap (λ (t : ℕ). bit_and (low / 2 + high * 2 ^ k) t) half,
      bit_and_field k high (low / 2) (omega arith),
    )

-- A mask of the low `k` bits is a remainder.
pub bit_and_low : (k a : ℕ) → bit_and a (2 ^ k - 1) ≡ a % 2 ^ k
bit_and_low k a =
    let one : 1 ≤ 2 ^ k = one-le-pow k 2 (omega arith) in
    let low : a % 2 ^ k < 2 ^ k = mod-lt a one in
    let split : a ≡ a % 2 ^ k + a / 2 ^ k * 2 ^ k = omega (arith, div-add-mod a (2 ^ k)) in
    ap (λ t. bit_and t (2 ^ k - 1)) split ∙ bit_and_field k (a / 2 ^ k) (a % 2 ^ k) low
