-- ===== src/Indices/Digits.antt =====
-- Digits with a sum divisible by the base: `digitstosumzero` and `sumzerotodigits` are inverse.
pub mod ZeroSum
use h.Base.{
  ℕ, zero, suc, ◌+◌, ◌-◌, ◌*◌, ◌/◌, ◌%◌, ◌^◌, ◌<◌, Bool, true, false, ◌&&◌, List, [], ◌∷◌, Option,
  none, some, ◌≡◌, ◌≢◌, refl, sym, ap, ap₂, ◌∙◌, ◌==◌, leb, if◌then◌else◌, get_or, length, arith,
  inl, inr, ◌⊎◌, subst, Bool-cases, Option-cases, ==_iff,
}
use h.Indices.{digits_loop, digitstosumzero, sumzero_loop, sumzerotodigits, sizes_ok}
use mathlib.Core.Option.{none-ne-some, some-injective}
use native.Mathlib.Nat.{
  mod-add-div, mod-lt, pow-suc, pow-zero, div-lt_iff_lt-mul, div-eq_of_lt, mod-eq_of_lt,
  add-mul-mod_self_left, add-mul-div_left,
}

-- All digits are below the base.
pub data AreDigits (b : ℕ) : List ℕ → Type 0 where
  empty : AreDigits b []
  digit : {x : ℕ} {xs : List ℕ} → x < b → AreDigits b xs → AreDigits b (x ∷ xs)

unfoldable pub sum_of : List ℕ → ℕ
sum_of [] = 0
sum_of (x ∷ xs) = x + sum_of xs

-- The number with these digits, the lowest first.
pub number : ℕ → List ℕ → ℕ
number b [] = 0
number b (x ∷ xs) = x + b * number b xs

digits_loop-digits :
    (b : ℕ) (xs : List ℕ) (p sum ret : ℕ)
    → AreDigits b xs
    → digits_loop b xs p sum ret ≡ some (sum + sum_of xs, ret + p * number b xs)
unfolding digits_loop sum_of number
digits_loop-digits b [] p sum ret d = ap₂ (λ (s t : ℕ). some (s, t)) (omega arith) (omega arith)
digits_loop-digits b (x ∷ xs) p sum ret (digit lt d) =
    let below : leb b x ≡ false = ground arith in
    rw below (
      digits_loop-digits b xs (p * b) (sum + x) (ret + p * x) d
      ∙ ap₂ (λ (s t : ℕ). some (s, t)) (omega arith) (grind arith))

digits_loop-below :
    (b x : ℕ) (xs : List ℕ) (p sum ret : ℕ)
    → leb b x ≡ false
    → digits_loop b (x ∷ xs) p sum ret ≡ digits_loop b xs (p * b) (sum + x) (ret + p * x)
unfolding digits_loop
digits_loop-below b x xs p sum ret h = rw h refl

digits_loop-above :
    (b x : ℕ) (xs : List ℕ) (p sum ret : ℕ)
    → leb b x ≡ true
    → digits_loop b (x ∷ xs) p sum ret ≡ none
unfolding digits_loop
digits_loop-above b x xs p sum ret h = rw h refl

digits_loop-AreDigits :
    (b : ℕ) (xs : List ℕ) (p sum ret : ℕ) (r : ℕ × ℕ)
    → digits_loop b xs p sum ret ≡ some r
    → AreDigits b xs
digits_loop-AreDigits b [] p sum ret r e = empty
digits_loop-AreDigits b (x ∷ xs) p sum ret r e = elim (Bool-cases (leb b x)) [
  | inr below ↦ digit (ground arith) (
      digits_loop-AreDigits b xs (p * b) (sum + x) (ret + p * x) r
        (sym (digits_loop-below b x xs p sum ret below) ∙ e))
  | inl above ↦ absurd (none-ne-some r (sym (digits_loop-above b x xs p sum ret above) ∙ e))
]

-- Division takes the lowest digit away.
pub lowest : (b x n : ℕ) → x < b → ((x + b * n) % b ≡ x) × ((x + b * n) / b ≡ n)
lowest b x n lt =
    let zero_div : x / b ≡ 0 = div-eq_of_lt lt in
    (
      add-mul-mod_self_left x b n ∙ mod-eq_of_lt lt,
      add-mul-div_left x n (omega arith) ∙ omega (arith, zero_div),
    )

pub sumzero_loop_lem :
    (left b d sum : ℕ)
    → 0 < b
    → sum + left * b < 2 ^ 8
    → d < b ^ left
    → AreDigits b (sumzero_loop left b d sum).0
      × (number b (sumzero_loop left b d sum).0 ≡ d)
      × ((sumzero_loop left b d sum).1 ≡ sum + sum_of (sumzero_loop left b d sum).0)
      × (length (sumzero_loop left b d sum).0 ≡ left)
unfolding sumzero_loop sum_of number
sumzero_loop_lem zero b d sum pos fits h =
    let one : b ^ 0 ≡ 1 = pow-zero b in (empty, omega arith, omega arith, refl)
sumzero_loop_lem (suc left) b d sum pos fits h =
    let small : d % b < b = mod-lt d pos in
    let room : sum + d % b + left * b < 2 ^ 8 = grind arith in
    let fits' : (sum + d % b) % 2 ^ 8 ≡ sum + d % b = omega arith in
    let less : d / b < b ^ left =
      (div-lt_iff_lt-mul pos).1 (subst (λ k. d < k) (pow-suc b left) h) in
    let (ds, n, s, l) =
      sumzero_loop_lem left b (d / b) ((sum + d % b) % 2 ^ 8) pos (omega (arith, fits', room))
        less in
    (digit small ds, ap (λ k. d % b + b * k) n ∙ mod-add-div d b, s ∙ omega arith, ap suc l)

sumzero_loop-number :
    (b : ℕ) (xs : List ℕ) (sum : ℕ)
    → 0 < b
    → AreDigits b xs
    → sum + length xs * b < 2 ^ 8
    → sumzero_loop (length xs) b (number b xs) sum ≡ (xs, sum + sum_of xs)
unfolding sumzero_loop sum_of number
sumzero_loop-number b [] sum pos d fits = ap (λ (s : ℕ). ([], s)) (omega arith)
sumzero_loop-number b (x ∷ xs) sum pos (digit lt d) fits =
    let (m, q) = lowest b x (number b xs) lt in
    let room : sum + x + length xs * b < 2 ^ 8 = grind arith in
    let fits' : (sum + x) % 2 ^ 8 ≡ sum + x = omega (arith, room) in
    rw (m, q, fits')
      (ap (λ t. (x ∷ t.0, t.1)) (sumzero_loop-number b xs (sum + x) pos d room)
        ∙ ap (λ (s : ℕ). (x ∷ xs, s)) (omega arith))

sizes_cases : (n b : ℕ) → sizes_ok n b ≡ true → ((n ≡ 8) × (b ≡ 3)) ⊎ ((n ≡ 12) × (b ≡ 2))
unfolding sizes_ok
sizes_cases n b h = ground arith

-- What both directions need of the sizes.
pub sizes_room : (n b : ℕ) → sizes_ok n b ≡ true → (0 < b) × (0 + (n - 1) * b < 2 ^ 8) × (0 < n)
sizes_room n b h = elim (sizes_cases n b h) [
  | inl (e, e') ↦ rw (e, e') (omega arith, omega arith, omega arith)
  | inr (e, e') ↦ rw (e, e') (omega arith, omega arith, omega arith)
]

pub closes : (n b s : ℕ) → sizes_ok n b ≡ true → ((s + (b - s % b) % b) % b == 0) ≡ true
closes n b s h = elim (sizes_cases n b h) [
  | inl (e, e') ↦ rw e' (ground arith)
  | inr (e, e') ↦ rw e' (ground arith)
]

first_digit : (n b s x : ℕ) → sizes_ok n b ≡ true → x < b → (s + x) % b ≡ 0 → (b - s % b) % b ≡ x
first_digit n b s x h lt e = elim (sizes_cases n b h) [
  | inl (_, e') ↦
      subst (λ k. x < k → (s + x) % k ≡ 0 → (k - s % k) % k ≡ x) (sym e') (λ p q. omega arith) lt e
  | inr (_, e') ↦
      subst (λ k. x < k → (s + x) % k ≡ 0 → (k - s % k) % k ≡ x) (sym e') (λ p q. omega arith) lt e
]

read_error :
    (b x d : ℕ) (xs : List ℕ) → digits_loop b xs 1 0 0 ≡ none → digitstosumzero (x ∷ xs) b ≢ some d
unfolding digitstosumzero
read_error b x d xs e e' = none-ne-some d (sym (ap read e) ∙ e')
  where
    read : Option (ℕ × ℕ) → Option ℕ
    read none = none
    read (some (sum, ret)) =
        if sizes_ok (suc (length xs)) b && ((sum + x) % b == 0) then some ret else none

pub read_digits :
    (b x : ℕ) (xs : List ℕ)
    → AreDigits b xs
    → digitstosumzero (x ∷ xs) b ≡ (
        if sizes_ok (suc (length xs)) b && ((sum_of xs + x) % b == 0)
        then some (number b xs)
        else none)
unfolding digitstosumzero
read_digits b x xs d =
    ap
      (λ o. elim o [
        | none ↦ none
        | some (sum, ret) ↦
            if sizes_ok (suc (length xs)) b && ((sum + x) % b == 0) then some ret else none
      ])
      (digits_loop-digits b xs 1 0 0 d)
    ∙ ap₂ (λ (s r : ℕ). if sizes_ok (suc (length xs)) b && ((s + x) % b == 0) then some r else none)
        (omega arith) (omega arith)

pub then_some : (t : Bool) (n d : ℕ) → (if t then some n else none) ≡ some d → (t ≡ true) × (n ≡ d)
then_some true n d e = (refl, some-injective n d e)
then_some false n d e = absurd (none-ne-some d e)

read_some :
    (b x d : ℕ) (xs : List ℕ)
    → digitstosumzero (x ∷ xs) b ≡ some d
    → AreDigits b xs
      × (sizes_ok (suc (length xs)) b ≡ true)
      × ((sum_of xs + x) % b ≡ 0)
      × (number b xs ≡ d)
read_some b x d xs e = elim (Option-cases (digits_loop b xs 1 0 0)) [
  | inl wrong ↦ absurd (read_error b x d xs wrong e)
  | inr (r, right) ↦
      let ds : AreDigits b xs = digits_loop-AreDigits b xs 1 0 0 r right in
      let (t, n) =
        then_some (sizes_ok (suc (length xs)) b && ((sum_of xs + x) % b == 0)) (number b xs) d
          (sym (read_digits b x xs ds) ∙ e) in
      let (t', t'') = both (sizes_ok (suc (length xs)) b) ((sum_of xs + x) % b == 0) t in
      (ds, t', (==_iff ((sum_of xs + x) % b) 0).0 t'', n)
]
  where
    both : (p q : Bool) → (p && q) ≡ true → (p ≡ true) × (q ≡ true)
    both true q e = (refl, e)
    both false q e = absurd (ground (arith, e))

-- For the two sizes that the code admits, `digitstosumzero` reads the number back that
-- `sumzerotodigits` spread over the digits, for every number with `n - 1` digits.
pub digitstosumzero-sumzerotodigits :
    (d n b : ℕ)
    → sizes_ok n b ≡ true
    → d < b ^ (n - 1)
    → digitstosumzero (sumzerotodigits d n b) b ≡ some d
unfolding sumzerotodigits
digitstosumzero-sumzerotodigits d n b ok h =
    let (pos, room, some_digit) = sizes_room n b ok in
    let (ds, num, total, len) = sumzero_loop_lem (n - 1) b d 0 pos room h in
    let xs : List ℕ = (sumzero_loop (n - 1) b d 0).0 in
    let sum : ℕ = (sumzero_loop (n - 1) b d 0).1 in
    let x : ℕ = (b - sum % b) % b in
    let size : suc (length xs) ≡ n = omega (arith, len) in
    let sum_lem : sum_of xs ≡ sum = omega (arith, total) in
    rw ok (read_digits b x xs ds ∙ rw (size, ok, sum_lem, closes n b sum ok) (ap some num))

-- The other way round: where `digitstosumzero` gives a number and the first digit, which it does
-- not check, is below the base, `sumzerotodigits` restores the digits.
pub sumzerotodigits-digitstosumzero :
    (a : List ℕ) (b d : ℕ)
    → get_or a 0 0 < b
    → digitstosumzero a b ≡ some d
    → sumzerotodigits d (length a) b ≡ a
unfolding digitstosumzero sumzerotodigits
sumzerotodigits-digitstosumzero [] b d lt e = absurd (none-ne-some d e)
sumzerotodigits-digitstosumzero (x ∷ xs) b d lt e =
    let (ds, ok, zero_sum, num) = read_some b x d xs e in
    let (pos, room, _) = sizes_room (suc (length xs)) b ok in
    let left : suc (length xs) - 1 ≡ length xs = omega arith in
    let room' : 0 + length xs * b < 2 ^ 8 = subst (λ k. 0 + k * b < 2 ^ 8) left room in
    let loop : sumzero_loop (suc (length xs) - 1) b d 0 ≡ (xs, 0 + sum_of xs) =
      ap (λ k. sumzero_loop k b d 0) left
      ∙ ap (λ k. sumzero_loop (length xs) b k 0) (sym num)
      ∙ sumzero_loop-number b xs 0 pos ds room' in
    let sum_lem : 0 + sum_of xs ≡ sum_of xs = omega arith in
    rw ok (
      ap (λ t. (b - t.1 % b) % b ∷ t.0) loop
      ∙ ap (λ k. (b - k % b) % b ∷ xs) sum_lem
      ∙ ap (λ k. k ∷ xs) (first_digit (suc (length xs)) b (sum_of xs) x ok lt zero_sum))
