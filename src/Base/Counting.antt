-- ===== src/Base/Counting.antt =====
-- How often a value stands in a list of numbers, and the pigeonhole principle.
use Prim.Native.Nat.{ℕ, zero, suc, ◌+◌, ◌≤◌, ◌<◌}
use mathlib.Core.Path.{◌≡◌, refl}
use mathlib.Core.Logic.{◌⊎◌, inl, inr}
use mathlib.Core.List.{List, [], ◌∷◌}
use native.Mathlib.Omega.{arith}
use native.Mathlib.Decide.{ℕ_discrete}
use h.Base.Tests.{◌==◌, of_bool}
use h.Base.Arrays.{length, get_or}

unfoldable pub count : ℕ → List ℕ → ℕ
count v [] = 0
count v (x ∷ xs) = of_bool (x == v) + count v xs

-- Every entry is below `n`.
abbrev pub IsBounded : ℕ → List ℕ → Type 0
IsBounded n xs = (i : ℕ) → i < length xs → get_or xs i 0 < n

-- No two entries are equal.
abbrev pub IsInjective : List ℕ → Type 0
IsInjective xs = (i j : ℕ) → i < length xs → j < length xs → get_or xs i 0 ≡ get_or xs j 0 → i ≡ j

-- The values `count v xs` for `v < n`, added up.
unfoldable pub total : ℕ → List ℕ → ℕ
total zero xs = 0
total (suc n) xs = count n xs + total n xs

pub total-nil : (n : ℕ) → total n [] ≡ 0
unfolding total count
total-nil zero = refl
total-nil (suc n) = omega (arith, total-nil n)

pub total-cons_ge : (n x : ℕ) (xs : List ℕ) → n ≤ x → total n (x ∷ xs) ≡ total n xs
unfolding total count
total-cons_ge zero x xs h = refl
total-cons_ge (suc n) x xs h = ground (arith, total-cons_ge n x xs (omega arith))

pub total-cons_lt : (n x : ℕ) (xs : List ℕ) → x < n → total n (x ∷ xs) ≡ suc (total n xs)
unfolding total count
total-cons_lt zero x xs h = absurd (omega arith)
total-cons_lt (suc n) x xs h = elim (ℕ_discrete x n) [
  | yes e ↦ ground (arith, total-cons_ge n x xs)
  | no ne ↦ ground (arith, total-cons_lt n x xs)
]

total-length : (n : ℕ) (xs : List ℕ) → IsBounded n xs → total n xs ≡ length xs
total-length n [] b = total-nil n
total-length n (x ∷ xs) b = omega (
  arith,
  total-cons_lt n x xs (b 0 (omega arith)),
  total-length n xs (λ i h. b (suc i) (omega arith)),
)

-- A value that is counted stands at some index.
pub count_index :
    (v : ℕ) (xs : List ℕ) → 0 < count v xs → (i : ℕ) × (i < length xs) × (get_or xs i 0 ≡ v)
unfolding count
count_index v [] h = absurd (omega arith)
count_index v (x ∷ xs) h = elim (ℕ_discrete x v) [
  | yes e ↦ (0, omega arith, e)
  | no ne ↦ let (i, p, q) = count_index v xs (ground arith) in (suc i, omega arith, q)
]

pub count-get_or : (xs : List ℕ) (i : ℕ) → i < length xs → 0 < count (get_or xs i 0) xs
unfolding count
count-get_or [] i h = absurd (omega arith)
count-get_or (x ∷ xs) zero h = ground arith
count-get_or (x ∷ xs) (suc i) h = omega (arith, count-get_or xs i (omega arith))

pub count-le_one : (v : ℕ) (xs : List ℕ) → IsInjective xs → count v xs ≤ 1
unfolding count
count-le_one v [] inj = omega arith
count-le_one v (x ∷ xs) inj = elim (ℕ_discrete (count v xs) 0) [
  | yes e ↦ ground arith
  | no ne ↦ elim (ℕ_discrete x v) [
    | yes e ↦
        let (i, p, q) = count_index v xs (omega arith) in
        absurd (omega (arith, inj 0 (suc i) (omega arith) (omega arith) (omega arith)))
    | no ne' ↦ ground (
      arith,
      count-le_one v xs
          λ i j p q e. omega (arith, inj (suc i) (suc j) (omega arith) (omega arith) e),
    )
  ]
]

total-le : (n : ℕ) (xs : List ℕ) → ((v : ℕ) → count v xs ≤ 1) → total n xs ≤ n
unfolding total
total-le zero xs h = omega arith
total-le (suc n) xs h = omega (arith, h n, total-le n xs h)

total-lt :
    (n : ℕ) (xs : List ℕ) (v : ℕ)
    → ((w : ℕ) → count w xs ≤ 1)
    → v < n
    → count v xs ≡ 0
    → total n xs < n
unfolding total
total-lt zero xs v h p e = absurd (omega arith)
total-lt (suc n) xs v h p e = elim (ℕ_discrete v n) [
  | yes q ↦ let e' : count n xs ≡ 0 = ground (arith) in omega (arith, total-le n xs h)
  | no q ↦ omega (arith, h n, total-lt n xs v h (omega arith) e)
]

-- `n` different entries below `n` take every value.
pub surjective_of_injective :
    (n : ℕ) (xs : List ℕ) (v : ℕ)
    → length xs ≡ n
    → IsBounded n xs
    → IsInjective xs
    → v < n
    → (i : ℕ) × (i < n) × (get_or xs i 0 ≡ v)
surjective_of_injective n xs v len b inj p = elim (ℕ_discrete (count v xs) 0) [
  | yes e ↦
      absurd (omega (arith, total-lt n xs v (λ w. count-le_one w xs inj) p e, total-length n xs b))
  | no ne ↦ let (i, q, r) = count_index v xs (omega arith) in (i, omega arith, r)
]

total-ge : (n : ℕ) (xs : List ℕ) → ((v : ℕ) → v < n → 0 < count v xs) → n ≤ total n xs
unfolding total
total-ge zero xs h = omega arith
total-ge (suc n) xs h = omega (arith, h n (omega arith), total-ge n xs (λ v p. h v (omega arith)))

total-gt :
    (n : ℕ) (xs : List ℕ) (v : ℕ)
    → ((w : ℕ) → w < n → 0 < count w xs)
    → v < n
    → 1 < count v xs
    → n < total n xs
unfolding total
total-gt zero xs v h p e = absurd (omega arith)
total-gt (suc n) xs v h p e = elim (ℕ_discrete v n) [
  | yes q ↦
      let e' : 1 < count n xs = ground arith in
      omega (arith, total-ge n xs (λ w r. h w (omega arith)))
  | no q ↦
      omega (arith, h n (omega arith), total-gt n xs v (λ w r. h w (omega arith)) (omega arith) e)
]

-- A value at two indices is counted twice.
count-two :
    (xs : List ℕ) (i j : ℕ)
    → i < j
    → j < length xs
    → get_or xs i 0 ≡ get_or xs j 0
    → 1 < count (get_or xs j 0) xs
unfolding count
count-two [] i j p q e = absurd (omega arith)
count-two (x ∷ xs) i zero p q e = absurd (omega arith)
count-two (x ∷ xs) zero (suc j) p q e = ground (arith, count-get_or xs j)
count-two (x ∷ xs) (suc i) (suc j) p q e =
    omega (arith, count-two xs i j (omega arith) (omega arith) e)

-- `n` entries below `n` that take every value are different.
pub IsInjective-of_surjective :
    (n : ℕ) (xs : List ℕ)
    → length xs ≡ n
    → IsBounded n xs
    → ((v : ℕ) → v < n → 0 < count v xs)
    → IsInjective xs
IsInjective-of_surjective n xs len b all i j p q e = elim (ℕ_discrete i j) [
  | yes r ↦ r
  | no r ↦ elim (ltb_cases i j) [
    | inl lt ↦ clash i j lt q e
    | inr ge ↦ clash j i (omega arith) p (omega arith)
  ]
]
  where
    ltb_cases : (a c : ℕ) → (a < c) ⊎ (c ≤ a)
    ltb_cases a c = omega arith

    clash : (a c : ℕ) → a < c → c < length xs → get_or xs a 0 ≡ get_or xs c 0 → i ≡ j
    clash a c lt in_range same = absurd (
        omega (
          arith,
          total-gt n xs (get_or xs c 0) all (b c in_range) (count-two xs a c lt in_range same),
          total-length n xs b,
        ))
