-- ===== src/Indices/Codes/Loop.antt =====
-- The code of `permtoindex` and the loop of `indextoperm` (src/utils/math.h), on what is left.
use h.Base.{
  ℕ, zero, suc, ◌+◌, ◌-◌, ◌*◌, ◌/◌, ◌%◌, ◌≤◌, ◌<◌, Bool, true, false, not, List, [], ◌∷◌, ◌≡◌, refl,
  sym, ap, ◌∙◌, ◌==◌, of_bool, get_or, set, length, arith, ℕ_discrete, inl, inr, subst, count,
  get_or-set_self, get_or-set_ne, Bool-cases,
}
use h.Indices.{
  smaller_after, free_loop, factorial, factorial_loop, permtoindex_loop, indextoperm_loop,
}
use h.Indices.Codes.{
  Lists, free_below, smaller_after-free_below, free_loop_lem, place_of_rank, free_below-marked,
  all_marked,
}
use h.Indices.Digits.{lowest}
use native.Mathlib.Nat.{mod-lt, div-add-mod, div-lt_iff_lt-mul, mul-le-mul_left}

factorial_loop-snoc :
    (left i ret : ℕ) → factorial_loop (suc left) i ret ≡ factorial_loop left i ret * (i + left)
unfolding factorial_loop
factorial_loop-snoc zero i ret = let e : i ≡ i + 0 = omega arith in ap (λ k. ret * k) e
factorial_loop-snoc (suc left) i ret =
    let e : i + 1 + left ≡ i + suc left = omega arith in
    factorial_loop-snoc left (i + 1) (ret * i)
    ∙ ap (λ k. factorial_loop left (i + 1) (ret * i) * k) e

factorial-suc : (n : ℕ) → factorial (suc n) ≡ factorial n * suc n
unfolding factorial
factorial-suc n =
    let e : 1 + n ≡ suc n = omega arith in
    factorial_loop-snoc n 1 1 ∙ ap (λ k. factorial_loop n 1 1 * k) e

factorial-pos : (n : ℕ) → 0 < factorial n
unfolding factorial_loop factorial
factorial-pos zero = omega arith
factorial-pos (suc n) = grind (arith, factorial-suc n, factorial-pos n)

-- What `permtoindex` adds up.
pub code : List ℕ → ℕ
code [] = 0
code (x ∷ xs) = code xs + factorial (length xs) * smaller_after x xs

pub permtoindex_loop-code : (xs : List ℕ) (ret : ℕ) → permtoindex_loop xs ret ≡ ret + code xs
unfolding permtoindex_loop code
permtoindex_loop-code [] ret = omega arith
permtoindex_loop-code (x ∷ xs) ret =
    omega (arith, permtoindex_loop-code xs (ret + factorial (length xs) * smaller_after x xs))

smaller_after-le : (x : ℕ) (xs : List ℕ) → smaller_after x xs ≤ length xs
unfolding smaller_after
smaller_after-le x [] = omega arith
smaller_after-le x (y ∷ ys) = ground (arith, smaller_after-le x ys)

pub code-lt : (xs : List ℕ) → code xs < factorial (length xs)
unfolding code
code-lt [] = factorial-pos 0
code-lt (x ∷ xs) =
    code-step (code xs) (factorial (length xs)) (smaller_after x xs) (length xs) (code-lt xs)
      (smaller_after-le x xs) (factorial-suc (length xs))
  where
    code-step :
        (c f s l : ℕ)
        → c < f
        → s ≤ l
        → factorial (suc l) ≡ f * suc l
        → c + f * s < factorial (suc l)
    code-step c f s l h h' e =
        let mono : f * s ≤ f * l = mul-le-mul_left f h' in grind (arith, mono)

free_index : (used : List Bool) (x : ℕ) → get_or used x true ≡ false → x < length used
free_index [] x e = absurd (ground (arith, e))
free_index (u ∷ us) zero e = omega arith
free_index (u ∷ us) (suc x) e = omega (arith, free_index us x e)

-- Taking the first entry marks its place.
Lists-tail :
    (x : ℕ) (xs : List ℕ) (used : List Bool)
    → Lists (x ∷ xs) used
    → (get_or used x true ≡ false) × Lists xs (set used x true)
unfolding count
Lists-tail x xs used l =
    let free : get_or used x true ≡ false = is_free in
    (
      free,
      λ v. elim (ℕ_discrete x v) [
        | yes same ↦
            let here : get_or (set used x true) v true ≡ true =
              ap (λ k. get_or (set used k true) v true) same
              ∙ get_or-set_self used v true true
                  (subst (λ k. k < length used) same (free_index used x free)) in
            let one : of_bool (x == v) ≡ 1 = ground arith in
            let free' : get_or used v true ≡ false =
              ap (λ k. get_or used k true) (sym same) ∙ free in
            rw here (from_one (of_bool (x == v)) (count v xs) (get_or used v true) one free' (l v))
        | no other ↦
            let none_here : of_bool (x == v) ≡ 0 = ground arith in
            rw (get_or-set_ne used x v true true other) (omega (arith, l v, none_here))
      ],
    )
  where
    from_one : (o c : ℕ) (b : Bool) → o ≡ 1 → b ≡ false → o + c ≡ of_bool (not b) → c ≡ 0
    from_one o c b e e' e'' = ground arith

    is_free : get_or used x true ≡ false
    is_free = elim (Bool-cases (get_or used x true)) [
      | inl marked ↦
          absurd (no_room (of_bool (x == x)) (get_or used x true) (ground arith) marked (l x))
      | inr free ↦ free
    ]
      where
        no_room : (o : ℕ) (b : Bool) → o ≡ 1 → b ≡ true → o + count x xs ≡ of_bool (not b) → ⊥
        no_room o b e e' e'' = ground arith

Lists-cons :
    (x : ℕ) (xs : List ℕ) (used : List Bool)
    → get_or used x true ≡ false
    → Lists xs (set used x true)
    → Lists (x ∷ xs) used
unfolding count
Lists-cons x xs used free l v = elim (ℕ_discrete x v) [
  | yes same ↦
      let here : get_or (set used x true) v true ≡ true =
        ap (λ k. get_or (set used k true) v true) same
        ∙ get_or-set_self used v true true
            (subst (λ k. k < length used) same (free_index used x free)) in
      let none_left : count v xs ≡ 0 = l v ∙ ap (λ b. of_bool (not b)) here in
      let free' : get_or used v true ≡ false = ap (λ k. get_or used k true) (sym same) ∙ free in
      rw free' (ground (arith, none_left))
  | no other ↦
      let skip : of_bool (x == v) ≡ 0 = ground arith in
      rw (skip, l v, get_or-set_ne used x v true true other) (omega arith)
]

pub indextoperm_loop-code :
    (xs : List ℕ) (used : List Bool)
    → Lists xs used
    → indextoperm_loop (length xs) used (code xs) ≡ xs
unfolding indextoperm_loop code
indextoperm_loop-code [] used l = refl
indextoperm_loop-code (x ∷ xs) used l =
    let (free, l') = Lists-tail x xs used l in
    let (m, q) = lowest (factorial (length xs)) (code xs) (smaller_after x xs) (code-lt xs) in
    let rank : 0 + free_below used x ≡ smaller_after x xs =
      omega (arith, smaller_after-free_below x xs used l') in
    let e : 0 + suc x - 1 ≡ x = omega arith in
    rw (m, q, free_loop_lem used x (smaller_after x xs) 0 0 free rank, e)
      (ap (λ t. x ∷ t) (indextoperm_loop-code xs (set used x true) l'))

pub code-indextoperm_loop :
    (left : ℕ) (used : List Bool) (p : ℕ)
    → free_below used (length used) ≡ left
    → p < factorial left
    → Lists (indextoperm_loop left used p) used
      × (length (indextoperm_loop left used p) ≡ left)
      × (code (indextoperm_loop left used p) ≡ p)
unfolding indextoperm_loop code count
code-indextoperm_loop zero used p none_left h =
    (λ v. ap (λ b. of_bool (not b)) (sym (all_marked used none_left v)), refl, omega arith)
code-indextoperm_loop (suc left) used p some_left h =
    let f : ℕ = factorial left in
    let q : ℕ = p / f in
    let less : q < suc left =
      (div-lt_iff_lt-mul (factorial-pos left)).1 (grind (arith, h, factorial-suc left)) in
    let (x, free, rank) = place_of_rank used q (omega arith) in
    let found : free_loop used q 0 0 - 1 ≡ x =
      omega (arith, free_loop_lem used x q 0 0 free (omega (arith, rank))) in
    let (l, len, c) =
      code-indextoperm_loop left (set used x true) (p % f)
        (omega (arith, free_below-marked used x free)) (mod-lt p (factorial-pos left)) in
    let rest : List ℕ = indextoperm_loop left (set used x true) (p % f) in
    rw found (
      Lists-cons x rest used free l,
      ap suc len,
      rw (c, len, smaller_after-free_below x rest used l, rank) (omega (arith, div-add-mod p f)),
    )
