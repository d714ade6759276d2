-- ===== src/Indices/Codes/Inverse.antt =====
-- `permtoindex` and `indextoperm` of src/utils/math.h are inverse.
use h.Base.{
  ℕ, zero, suc, ◌≤◌, ◌<◌, Bool, true, false, not, ◌||◌, List, none, some, ◌≡◌, refl, sym, ap, ◌∙◌,
  ltb, leb, if◌then◌else◌, of_bool, get_or, replicate, length, arith, inl, inr, ◌⊎◌, subst, count,
  IsBounded, count_index, count-get_or, count-le_one, surjective_of_injective,
  IsInjective-of_surjective,
}
use h.Indices.{
  factorial, factorial_max, permtoindex, permtoindex_loop, indextoperm, indextoperm_loop, isperm,
}
use h.Indices.Codes.{Lists, free_below}
use h.Indices.Permutations.{IsPerm, isperm_iff}
use h.Indices.Digits.{then_some}
use h.Indices.Codes.Loop.{
  code, code-lt, permtoindex_loop-code, indextoperm_loop-code, code-indextoperm_loop,
}

unmarked : (n v : ℕ) → v < n → get_or (replicate n false) v true ≡ false
unmarked zero v h = absurd (omega arith)
unmarked (suc n) zero h = refl
unmarked (suc n) (suc v) h = unmarked n v (omega arith)

outside : (n v : ℕ) → n ≤ v → get_or (replicate n false) v true ≡ true
outside zero v h = refl
outside (suc n) zero h = absurd (omega arith)
outside (suc n) (suc v) h = outside n v (omega arith)

free_below-replicate : (n : ℕ) → free_below (replicate n false) (length (replicate n false)) ≡ n
unfolding free_below
free_below-replicate zero = refl
free_below-replicate (suc n) = omega (arith, free_below-replicate n)

split : (a c : ℕ) → (a < c) ⊎ (c ≤ a)
split a c = omega arith

-- A permutation lists the places of its length.
IsPerm-Lists : (a : List ℕ) → IsPerm a → Lists a (replicate (length a) false)
IsPerm-Lists a w v = elim (split v (length a)) [
  | inl below ↦
      let (i, p, e) = surjective_of_injective (length a) a v refl w.bounded w.injective below in
      let some_here : 0 < count v a = subst (λ k. 0 < count k a) e (count-get_or a i p) in
      rw (unmarked (length a) v below) (omega (arith, some_here, count-le_one v a w.injective))
  | inr above ↦ rw (outside (length a) v above) (nowhere above (count v a) refl)
]
  where
    nowhere : length a ≤ v → (c : ℕ) → c ≡ count v a → c ≡ 0
    nowhere above zero e = refl
    nowhere above (suc c) e =
        let (i, p, q) = count_index v a (omega arith) in absurd (omega (arith, w.bounded i p, q))

Lists-IsPerm :
    (n : ℕ) (a : List ℕ) → n ≤ factorial_max → length a ≡ n → Lists a (replicate n false) → IsPerm a
Lists-IsPerm n a short len l =
    let b : IsBounded n a = bounded in
    record {
      short = omega arith;
      bounded = subst (λ k. IsBounded k a) (sym len) b;
      injective =
          IsInjective-of_surjective n a len b
            (λ v h. ground (arith, l v ∙ ap (λ k. of_bool (not k)) (unmarked n v h)));
    }
  where
    bounded : IsBounded n a
    bounded i h = elim (split (get_or a i 0) n) [
      | inl below ↦ below
      | inr above ↦ absurd (
          omega (
            arith,
            count-get_or a i h,
            l (get_or a i 0) ∙ ap (λ k. of_bool (not k)) (outside n (get_or a i 0) above),
          ))
    ]

not_leb : (a b : ℕ) → b < a → leb a b ≡ false
not_leb a b h = ground arith

not_ltb : (a b : ℕ) → b ≤ a → ltb a b ≡ false
not_ltb a b h = ground arith

indextoperm_right :
    (p n : ℕ)
    → n ≤ factorial_max
    → p < factorial n
    → isperm (indextoperm_loop n (replicate n false) p) ≡ true
    → indextoperm p n ≡ indextoperm_loop n (replicate n false) p
unfolding indextoperm
indextoperm_right p n short h ok =
    reduce (ltb factorial_max n) (leb (factorial n) p) (isperm r) (not_ltb factorial_max n short)
      (not_leb (factorial n) p h) ok
  where
    r : List ℕ
    r = indextoperm_loop n (replicate n false) p

    reduce :
        (x y z : Bool)
        → x ≡ false
        → y ≡ false
        → z ≡ true
        → (if x || y || not z then replicate n 255 else r) ≡ r
    reduce x y z e e' e'' = rw (e, e', e'') refl

permtoindex_right : (a : List ℕ) → isperm a ≡ true → permtoindex a ≡ some (code a)
unfolding permtoindex
permtoindex_right a ok =
    ap (λ t. if t then some (permtoindex_loop a 0) else none) ok
    ∙ ap some (permtoindex_loop-code a 0 ∙ omega arith)

permtoindex-some : (a : List ℕ) (p : ℕ) → permtoindex a ≡ some p → (isperm a ≡ true) × (code a ≡ p)
unfolding permtoindex
permtoindex-some a p e =
    let (ok, sum) = then_some (isperm a) (permtoindex_loop a 0) p e in
    (ok, omega (arith, permtoindex_loop-code a 0, sum))

-- `indextoperm` of an index below `n!`, for `n` up to 12, is a permutation of length `n`, and
-- `permtoindex` gives the index back.
pub permtoindex-indextoperm :
    (p n : ℕ)
    → n ≤ factorial_max
    → p < factorial n
    → (isperm (indextoperm p n) ≡ true)
      × (length (indextoperm p n) ≡ n)
      × (permtoindex (indextoperm p n) ≡ some p)
permtoindex-indextoperm p n short h =
    let r : List ℕ = indextoperm_loop n (replicate n false) p in
    let (l, len, c) = code-indextoperm_loop n (replicate n false) p (free_below-replicate n) h in
    let ok : isperm r ≡ true = (isperm_iff r).1 (Lists-IsPerm n r short len l) in
    subst (λ t. (isperm t ≡ true) × (length t ≡ n) × (permtoindex t ≡ some p))
      (sym (indextoperm_right p n short h ok)) (ok, len, permtoindex_right r ok ∙ ap some c)

-- Where `permtoindex` gives an index, `indextoperm` of the index and the length gives the
-- permutation back.
pub indextoperm-permtoindex :
    (a : List ℕ) (p : ℕ) → permtoindex a ≡ some p → indextoperm p (length a) ≡ a
indextoperm-permtoindex a p e =
    let (ok, num) = permtoindex-some a p e in
    let w : IsPerm a = (isperm_iff a).0 ok in
    let back : indextoperm_loop (length a) (replicate (length a) false) p ≡ a =
      ap (λ k. indextoperm_loop (length a) (replicate (length a) false) k) (sym num)
      ∙ indextoperm_loop-code a (replicate (length a) false) (IsPerm-Lists a w) in
    indextoperm_right p (length a) w.short (subst (λ k. k < factorial (length a)) num (code-lt a))
      (ap isperm back ∙ ok)
    ∙ back
