-- ===== src/Indices/Digits/ZeroSum.antt =====
-- The arrays of digits whose sum is zero modulo the base: what `sumzerotodigits` of src/utils/math.h
-- makes and `digitstosumzero` reads.
use h.Base.{
  ◌≢◌, ℕ, zero, suc, ◌+◌, ◌-◌, ◌%◌, ◌^◌, ◌<◌, true, List, [], ◌∷◌, some, ◌≡◌, refl, ap, ◌∙◌, ◌==◌,
  ==_iff, arith, length, get_or, sum_over,
}
use native.Mathlib.Nat.{mod-lt}
use h.Indices.{digitstosumzero, sumzerotodigits, sumzero_loop, sizes_ok}
use h.Indices.Digits.{
  AreDigits, empty, digit, sum_of, number, sumzero_loop_lem, sizes_room, closes, read_digits,
}

pub record IsZeroSum (b n : ℕ) (ys : List ℕ) : Type 0 where
  pub size : length ys ≡ n
  pub below_base : (i : ℕ) → i < n → get_or ys i 0 < b
  pub zero_sum : sum_over ys (λ y. y) % b ≡ 0

digits_below : (b : ℕ) (xs : List ℕ) → AreDigits b xs → (i : ℕ) → i < length xs → get_or xs i 0 < b
digits_below b [] d i h = absurd (omega arith)
digits_below b (x ∷ xs) (digit lt d) zero h = lt
digits_below b (x ∷ xs) (digit lt d) (suc i) h = digits_below b xs d i (omega arith)

below_digits :
    (b : ℕ) (xs : List ℕ) → ((i : ℕ) → i < length xs → get_or xs i 0 < b) → AreDigits b xs
below_digits b [] h = empty
below_digits b (x ∷ xs) h =
    digit (h 0 (omega arith)) (below_digits b xs (λ i p. h (suc i) (omega arith)))

sum_of-over : (xs : List ℕ) → sum_of xs ≡ sum_over xs (λ y. y)
unfolding sum_of sum_over
sum_of-over [] = refl
sum_of-over (x ∷ xs) = ap (λ t. x + t) (sum_of-over xs)

pub sumzerotodigits-IsZeroSum :
    (d n b : ℕ) → sizes_ok n b ≡ true → d < b ^ (n - 1) → IsZeroSum b n (sumzerotodigits d n b)
unfolding sumzerotodigits sum_over
sumzerotodigits-IsZeroSum d n b ok h =
    let (pos, room, some_digit) = sizes_room n b ok in
    let (ds, num, total, len) = sumzero_loop_lem (n - 1) b d 0 pos room h in
    let xs : List ℕ = (sumzero_loop (n - 1) b d 0).0 in
    let sum : ℕ = (sumzero_loop (n - 1) b d 0).1 in
    let x : ℕ = (b - sum % b) % b in
    rw ok (record {
      size = omega (arith, len);
      below_base = λ i p. first_or x xs ds (mod-lt _ pos) i (omega (arith, len));
      zero_sum =
          ap (λ t. t % b) (omega (arith, sum_of-over xs, total))
          ∙ (==_iff _ 0).0 (closes n b sum ok);
    })
  where
    first_or :
        (x : ℕ) (xs : List ℕ)
        → AreDigits b xs
        → x < b
        → (i : ℕ) → i < suc (length xs)
        → get_or (x ∷ xs) i 0 < b
    first_or x xs ds lt i p = digits_below b (x ∷ xs) (digit lt ds) i p

empty_size : (n b : ℕ) → sizes_ok n b ≡ true → 0 ≢ n
empty_size n b ok e = let (_, _, some_digit) = sizes_room n b ok in omega (arith, some_digit)

pub digitstosumzero-some :
    (b n : ℕ) (ys : List ℕ)
    → sizes_ok n b ≡ true
    → IsZeroSum b n ys
    → (d : ℕ) × (digitstosumzero ys b ≡ some d)
unfolding sum_over
digitstosumzero-some b n [] ok z = absurd (empty_size n b ok z.size)
digitstosumzero-some b n (x ∷ xs) ok z =
    let ds = below_digits b xs (λ i h. z.below_base (suc i) (omega (arith, z.size))) in
    let t1 : sizes_ok (suc (length xs)) b ≡ true = ap (λ k. sizes_ok k b) z.size ∙ ok in
    let t2 : ((sum_of xs + x) % b == 0) ≡ true =
      (==_iff _ 0).1 (ap (λ t. t % b) (omega (arith, sum_of-over xs)) ∙ z.zero_sum) in
    (number b xs, read_digits b x xs ds ∙ rw (t1, t2) refl)
