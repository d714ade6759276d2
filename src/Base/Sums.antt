-- ===== src/Base/Sums.antt =====
-- Sums over lists of numbers: over all entries, over all pairs of entries, and over a permutation.
use Prim.Native.Nat.{ℕ, zero, suc, ◌+◌, ◌*◌, ◌<◌}
use mathlib.Core.Path.{subst, ◌≡◌, refl, sym, ap, ap₂, ◌∙◌}
use mathlib.Core.List.{List, [], ◌∷◌, map}
use native.Mathlib.Omega.{arith}
use native.Mathlib.Nat.{zero-mul, one-mul, add-mul}
use native.Mathlib.Decide.{ℕ_discrete}
use mathlib.Core.Logic.{◌≢◌}
use h.Base.Tests.{◌==◌, of_bool}
use h.Base.Arrays.{length, get_or}
use h.Base.Counting.{
  count, count-get_or, count-le_one, IsBounded, IsInjective, surjective_of_injective,
}

unfoldable pub sum_over : List ℕ → (ℕ → ℕ) → ℕ
sum_over [] f = 0
sum_over (x ∷ xs) f = f x + sum_over xs f

unfoldable pub sum_below : ℕ → (ℕ → ℕ) → ℕ
sum_below zero f = 0
sum_below (suc n) f = sum_below n f + f n

-- Over the pairs of an entry and a later one.
unfoldable pub sum_pairs : List ℕ → (ℕ → ℕ → ℕ) → ℕ
unfolding sum_over
sum_pairs [] s = 0
sum_pairs (x ∷ xs) s = sum_over xs (s x) + sum_pairs xs s

pub sum_over_ext :
    (xs : List ℕ) (f g : ℕ → ℕ)
    → ((i : ℕ) → i < length xs → f (get_or xs i 0) ≡ g (get_or xs i 0))
    → sum_over xs f ≡ sum_over xs g
unfolding sum_over
sum_over_ext [] f g h = refl
sum_over_ext (x ∷ xs) f g h =
    ap₂ ◌+◌ (h 0 (omega arith)) (sum_over_ext xs f g (λ i p. h (suc i) (omega arith)))

pub sum_below_ext :
    (n : ℕ) (f g : ℕ → ℕ) → ((v : ℕ) → v < n → f v ≡ g v) → sum_below n f ≡ sum_below n g
unfolding sum_below
sum_below_ext zero f g h = refl
sum_below_ext (suc n) f g h =
    ap₂ ◌+◌ (sum_below_ext n f g (λ v p. h v (omega arith))) (h n (omega arith))

sum_below_add : (n : ℕ) (f g : ℕ → ℕ) → sum_below n (λ v. f v + g v) ≡ sum_below n f + sum_below n g
unfolding sum_below
sum_below_add zero f g = refl
sum_below_add (suc n) f g = omega (arith, sum_below_add n f g)

pub sum_over_add :
    (xs : List ℕ) (f g : ℕ → ℕ) → sum_over xs (λ x. f x + g x) ≡ sum_over xs f + sum_over xs g
unfolding sum_over
sum_over_add [] f g = refl
sum_over_add (x ∷ xs) f g = omega (arith, sum_over_add xs f g)

pub sum_over-map :
    (h : ℕ → ℕ) (xs : List ℕ) (f : ℕ → ℕ) → sum_over (map h xs) f ≡ sum_over xs (λ x. f (h x))
unfolding sum_over
sum_over-map h [] f = refl
sum_over-map h (x ∷ xs) f = ap (λ t. f (h x) + t) (sum_over-map h xs f)

sum_below_nothing : (n : ℕ) (f : ℕ → ℕ) → ((v : ℕ) → v < n → f v ≡ 0) → sum_below n f ≡ 0
unfolding sum_below
sum_below_nothing zero f h = refl
sum_below_nothing (suc n) f h =
    omega (arith, sum_below_nothing n f (λ v p. h v (omega arith)), h n (omega arith))

-- One value alone has a weight.
no_weight : (x v w : ℕ) → x ≢ v → of_bool (x == v) * w ≡ 0
no_weight x v w ne = let e : of_bool (x == v) ≡ 0 = ground arith in rw e (zero-mul w)

sum_below_single : (n x : ℕ) (f : ℕ → ℕ) → x < n → sum_below n (λ v. of_bool (x == v) * f v) ≡ f x
unfolding sum_below
sum_below_single zero x f h = absurd (omega arith)
sum_below_single (suc n) x f h = elim (ℕ_discrete x n) [
  | yes e ↦
      let last : of_bool (x == n) ≡ 1 = ground arith in
      let others : sum_below n (λ v. of_bool (x == v) * f v) ≡ 0 =
        sum_below_nothing n _ (λ v p. no_weight x v (f v) (omega arith)) in
      rw (others, last) (omega (arith, ap f e))
  | no ne ↦ omega (arith, sum_below_single n x f (omega arith), no_weight x n (f n) ne)
]

-- A list's sum, grouped by the values of its entries.
sum_over-count :
    (n : ℕ) (xs : List ℕ) (f : ℕ → ℕ)
    → IsBounded n xs
    → sum_over xs f ≡ sum_below n (λ v. count v xs * f v)
unfolding sum_over count
sum_over-count n [] f b = sym (sum_below_nothing n (λ v. count v [] * f v) (λ v p. zero-mul (f v)))
sum_over-count n (x ∷ xs) f b =
    ap₂ ◌+◌ (sym (sum_below_single n x f (b 0 (omega arith))))
      (sum_over-count n xs f (λ i p. b (suc i) (omega arith)))
    ∙ sym (sum_below_add n (λ v. of_bool (x == v) * f v) (λ v. count v xs * f v))
    ∙ sum_below_ext n _ _ (λ v p. sym (add-mul (of_bool (x == v)) (count v xs) (f v)))

-- `n` different entries below `n` are summed as the numbers below `n` are.
pub sum_over_permutation :
    (n : ℕ) (xs : List ℕ) (f : ℕ → ℕ)
    → length xs ≡ n
    → IsBounded n xs
    → IsInjective xs
    → sum_over xs f ≡ sum_below n f
sum_over_permutation n xs f size b inj =
    sum_over-count n xs f b
    ∙ sum_below_ext n _ f λ v p.
      let (i, q, e) = surjective_of_injective n xs v size b inj p in
      let some_index : 0 < count v xs =
        subst (λ w. 0 < count w xs) e (count-get_or xs i (omega arith)) in
      let once : count v xs ≡ 1 = omega (arith, count-le_one v xs inj) in rw once (one-mul (f v))

-- Each pair is counted in both orders by the double sum.
pairs_twice :
    (xs : List ℕ) (s : ℕ → ℕ → ℕ)
    → ((u v : ℕ) → s u v ≡ s v u)
    → sum_pairs xs s + sum_pairs xs s + sum_over xs (λ u. s u u)
      ≡ sum_over xs (λ u. sum_over xs (s u))
unfolding sum_over sum_pairs
pairs_twice [] s sym_s = refl
pairs_twice (x ∷ xs) s sym_s = omega (
  arith,
  pairs_twice xs s sym_s,
  sum_over_add xs (λ u. s u x) (λ u. sum_over xs (s u)),
  sum_over_ext xs (λ u. s u x) (s x) (λ i p. sym_s (get_or xs i 0) x),
)

-- A sum of a symmetric function over the pairs of a permutation does not depend on its order.
pub sum_pairs_permutation :
    (n : ℕ) (xs ys : List ℕ) (s : ℕ → ℕ → ℕ)
    → ((u v : ℕ) → s u v ≡ s v u)
    → (length xs ≡ n) × IsBounded n xs × IsInjective xs
    → (length ys ≡ n) × IsBounded n ys × IsInjective ys
    → sum_pairs xs s ≡ sum_pairs ys s
sum_pairs_permutation n xs ys s sym_s px py = omega (
  arith,
  pairs_twice xs s sym_s,
  pairs_twice ys s sym_s,
  squares xs px,
  squares ys py,
  sum_over_permutation n xs (λ u. s u u) px.0 px.1 px.2,
  sum_over_permutation n ys (λ u. s u u) py.0 py.1 py.2,
)
  where
    squares :
        (zs : List ℕ)
        → (length zs ≡ n) × IsBounded n zs × IsInjective zs
        → sum_over zs (λ u. sum_over zs (s u)) ≡ sum_below n (λ u. sum_below n (s u))
    squares zs pz =
        sum_over_ext zs _ _ (λ i p. sum_over_permutation n zs (s (get_or zs i 0)) pz.0 pz.1 pz.2)
        ∙ sum_over_permutation n zs (λ u. sum_below n (s u)) pz.0 pz.1 pz.2
