-- ===== src/Indices/Sign.antt =====
-- `permsign` of src/utils/math.h is a homomorphism: the parity of a composition of permutations is the
-- sum of theirs.
use h.Base.{
  ◌⊎◌, inl, inr, ℕ, zero, suc, ◌+◌, ◌%◌, ◌<◌, ◌≤◌, List, [], ◌∷◌, map, ◌≡◌, ◌≢◌, refl, ap, ◌∙◌, ltb,
  of_bool, arith, length, get_or, length-map, get_or-map, min, sum_over, sum_pairs, sum_over-map,
  sum_pairs_permutation, IsBounded, IsInjective, get_or_ext,
}
use Prim.Native.Nat.{max}
use h.Indices.{inversions, smaller_after, permsign}
use h.Indices.Permutations.{IsPerm}

abbrev inverted : ℕ → ℕ → ℕ
inverted u v = of_bool (ltb v u)

smaller_after-sum : (x : ℕ) (xs : List ℕ) → smaller_after x xs ≡ sum_over xs (inverted x)
unfolding smaller_after sum_over
smaller_after-sum x [] = refl
smaller_after-sum x (y ∷ ys) = ap (λ t. of_bool (ltb y x) + t) (smaller_after-sum x ys)

inversions-sum : (xs : List ℕ) → inversions xs ≡ sum_pairs xs inverted
unfolding inversions sum_pairs
inversions-sum [] = refl
inversions-sum (x ∷ xs) = omega (arith, smaller_after-sum x xs, inversions-sum xs)

-- The order of the two values, the smaller one first, under `f`: symmetric by its form.
swapped : (ℕ → ℕ) → ℕ → ℕ → ℕ
swapped f u v = inverted (f (min u v)) (f (max u v))

swapped_sym : (f : ℕ → ℕ) (u v : ℕ) → swapped f u v ≡ swapped f v u
unfolding swapped
swapped_sym f u v =
    let e : min u v ≡ min v u = omega arith in
    let e' : max u v ≡ max v u = omega arith in rw (e, e') refl

swapped_lem :
    (f : ℕ → ℕ) (u v : ℕ)
    → u ≢ v
    → f u ≢ f v
    → (inverted (f u) (f v) + inverted u v) % 2 ≡ swapped f u v % 2
unfolding swapped
swapped_lem f u v ne nf = elim (order u v ne) [
  | inl lt ↦
      let e : min u v ≡ u = omega arith in
      let e' : max u v ≡ v = omega arith in rw (e, e') (ground arith)
  | inr gt ↦
      let e : min u v ≡ v = omega arith in
      let e' : max u v ≡ u = omega arith in rw (e, e') (ground arith)
]
  where
    order : (x y : ℕ) → x ≢ y → (x < y) ⊎ (y < x)
    order x y h = omega arith

module _ (f : ℕ → ℕ) where
  -- Entry by entry.
  sum_over_parity :
      (x : ℕ) (xs : List ℕ)
      → ((i : ℕ) → i < length xs → (x ≢ get_or xs i 0) × (f x ≢ f (get_or xs i 0)))
      → (sum_over xs (λ y. inverted (f x) (f y)) + sum_over xs (inverted x)) % 2
        ≡ sum_over xs (swapped f x) % 2
  unfolding sum_over
  sum_over_parity x [] h = refl
  sum_over_parity x (y ∷ ys) h = omega (
    arith,
    swapped_lem f x y (h 0 (omega arith)).0 (h 0 (omega arith)).1,
    sum_over_parity x ys (λ i p. h (suc i) (omega arith)),
  )

  inversions-map_parity :
      (xs : List ℕ)
      → IsInjective xs
      → ((i j : ℕ) → i < length xs → j < length xs → f (get_or xs i 0) ≡ f (get_or xs j 0) → i ≡ j)
      → (inversions (map f xs) + inversions xs) % 2 ≡ sum_pairs xs (swapped f) % 2
  unfolding inversions sum_pairs
  inversions-map_parity [] inj inj_f = refl
  inversions-map_parity (x ∷ xs) inj inj_f = omega (
    arith,
    smaller_after-sum (f x) (map f xs),
    smaller_after-sum x xs,
    sum_over-map f xs (inverted (f x)),
    sum_over_parity x xs (λ i h. (
      λ e. absurd (omega (arith, inj 0 (suc i) (omega arith) (omega arith) e)),
      λ e. absurd (omega (arith, inj_f 0 (suc i) (omega arith) (omega arith) e)),
    )),
    inversions-map_parity xs
        (λ i j p q e. omega (arith, inj (suc i) (suc j) (omega arith) (omega arith) e))
        (λ i j p q e. omega (arith, inj_f (suc i) (suc j) (omega arith) (omega arith) e)),
  )

-- The numbers from `i` on, `n` of them.
pub from : ℕ → ℕ → List ℕ
from i zero = []
from i (suc n) = i ∷ from (suc i) n

pub length-from : (i n : ℕ) → length (from i n) ≡ n
unfolding from
length-from i zero = refl
length-from i (suc n) = ap suc (length-from (suc i) n)

get_or-from : (i n k : ℕ) → k < n → get_or (from i n) k 0 ≡ i + k
unfolding from
get_or-from i zero k h = absurd (omega arith)
get_or-from i (suc n) zero h = omega arith
get_or-from i (suc n) (suc k) h = omega (arith, get_or-from (suc i) n k (omega arith))

none_smaller : (x i n : ℕ) → x ≤ i → smaller_after x (from i n) ≡ 0
unfolding smaller_after from
none_smaller x i zero h = refl
none_smaller x i (suc n) h = ground (arith, none_smaller x (suc i) n (omega arith))

inversions-from : (i n : ℕ) → inversions (from i n) ≡ 0
unfolding inversions from
inversions-from i zero = refl
inversions-from i (suc n) =
    omega (arith, none_smaller i (suc i) n (omega arith), inversions-from (suc i) n)

-- The composition of two permutations of the same size: entry `p i` of `a`.
abbrev pub follow : List ℕ → List ℕ → List ℕ
follow a p = map (λ i. get_or a i 0) p

pub follow-from : (a : List ℕ) → follow a (from 0 (length a)) ≡ a
follow-from a =
    get_or_ext 0 _ a (length-map _ (from 0 (length a)) ∙ length-from 0 (length a)) λ i h.
      let h' : i < length (from 0 (length a)) =
        rw (← length-map (λ k. get_or a k 0) (from 0 (length a))) h in
      get_or-map (λ k. get_or a k 0) (from 0 (length a)) i 0 0 h'
      ∙ ap (λ k. get_or a k 0)
          (get_or-from 0 (length a) i (omega (arith, length-from 0 (length a))) ∙ omega arith)

pub from_permutation :
    (n : ℕ) → (length (from 0 n) ≡ n) × IsBounded n (from 0 n) × IsInjective (from 0 n)
from_permutation n = (
  length-from 0 n,
  λ i h. omega (arith, get_or-from 0 n i (omega (arith, length-from 0 n)), length-from 0 n),
  λ i j p q e. omega (
    arith,
    length-from 0 n,
    get_or-from 0 n i (omega (arith, length-from 0 n)),
    get_or-from 0 n j (omega (arith, length-from 0 n)),
  ),
)

-- The sign of one permutation after another of the same size is the sum of the two signs.
pub permsign-follow :
    (a p : List ℕ)
    → IsPerm a
    → IsPerm p
    → length p ≡ length a
    → permsign (follow a p) ≡ (permsign a + permsign p) % 2
unfolding permsign
permsign-follow a p ha hp size =
    let f : ℕ → ℕ = λ k. get_or a k 0 in
    let ids = from_permutation (length a) in
    let bounded : IsBounded (length a) p = λ i h. omega (arith, hp.bounded i h) in
    omega (
      arith,
      inversions-map_parity f p hp.injective
          (λ i j x y e. hp.injective i j x y (ha.injective _ _ (bounded i x) (bounded j y) e)),
      inversions-map_parity f (from 0 (length a)) ids.2
          (λ i j x y e. ids.2 i j x y (ha.injective _ _ (ids.1 i x) (ids.1 j y) e)),
      sum_pairs_permutation (length a) p (from 0 (length a)) (swapped f) (swapped_sym f)
          (size, bounded, hp.injective) ids,
      ap inversions (follow-from a),
      inversions-from 0 (length a),
    )
