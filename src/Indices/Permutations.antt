-- ===== src/Indices/Permutations.antt =====
-- `isperm` of src/utils/math.h decides the permutations.
use h.Base.{
  ℕ, zero, suc, ◌+◌, ◌≤◌, ◌<◌, Bool, true, false, ◌||◌, List, [], ◌∷◌, none, some, ◌≡◌, ◌↔◌, refl,
  sym, ap, ◌∙◌, ◌==◌, ltb, leb, of_bool, get_or, set, replicate, length, arith, ℕ_discrete, inl,
  inr, subst, Bool-cases, Option-cases, count, IsBounded, IsInjective, count-get_or,
  surjective_of_injective, IsInjective-of_surjective, get_or-set_self, get_or-set_ne, length-set,
  length-replicate,
}
use h.Indices.{factorial_max, isperm, mark_all, all_true}
use mathlib.Core.Option.{none-ne-some}
use mathlib.Core.Bool.{true≢false}

-- The arrays of at most twelve different entries below their length.
pub record IsPerm (a : List ℕ) : Type 0 where
  pub short : length a ≤ factorial_max
  pub bounded : IsBounded (length a) a
  pub injective : IsInjective a

-- What the marks are after the loop.
marks : List ℕ → List Bool → List Bool
marks [] aux = aux
marks (x ∷ xs) aux = marks xs (set aux x true)

length-marks : (xs : List ℕ) (aux : List Bool) → length (marks xs aux) ≡ length aux
unfolding marks
length-marks [] aux = refl
length-marks (x ∷ xs) aux = length-marks xs (set aux x true) ∙ length-set aux x true

or_false : (b : Bool) → b ≡ (b || false)
or_false true = refl
or_false false = refl

or_true : (b : Bool) → true ≡ (b || true)
or_true true = refl
or_true false = refl

get_or-marks :
    (xs : List ℕ) (aux : List Bool) (v : ℕ)
    → v < length aux
    → get_or (marks xs aux) v false ≡ (get_or aux v false || ltb 0 (count v xs))
unfolding marks count
get_or-marks [] aux v h = or_false (get_or aux v false)
get_or-marks (x ∷ xs) aux v h =
    get_or-marks xs (set aux x true) v (omega (arith, length-set aux x true))
    ∙ elim (ℕ_discrete x v) [
      | yes same ↦
          let here : get_or (set aux x true) v false ≡ true =
            ap (λ k. get_or (set aux k true) v false) same ∙ get_or-set_self aux v true false h in
          let counted : ltb 0 (of_bool (x == v) + count v xs) ≡ true = ground arith in
          rw (here, counted) (or_true (get_or aux v false))
      | no other ↦
          let skip : of_bool (x == v) + count v xs ≡ count v xs = ground arith in
          rw (skip, get_or-set_ne aux x v true false other) refl
    ]

mark_all-marks :
    (n : ℕ) (xs : List ℕ) (aux : List Bool)
    → IsBounded n xs
    → mark_all n xs aux ≡ some (marks xs aux)
unfolding marks mark_all
mark_all-marks n [] aux b = refl
mark_all-marks n (x ∷ xs) aux b =
    let below : leb n x ≡ false = ground (arith, b 0 (omega arith)) in
    rw below (mark_all-marks n xs (set aux x true) (λ i h. b (suc i) (omega arith)))

mark_all-below :
    (n x : ℕ) (xs : List ℕ) (aux : List Bool)
    → leb n x ≡ false
    → mark_all n (x ∷ xs) aux ≡ mark_all n xs (set aux x true)
unfolding mark_all
mark_all-below n x xs aux h = rw h refl

mark_all-above :
    (n x : ℕ) (xs : List ℕ) (aux : List Bool) → leb n x ≡ true → mark_all n (x ∷ xs) aux ≡ none
unfolding mark_all
mark_all-above n x xs aux h = rw h refl

mark_all-IsBounded :
    (n : ℕ) (xs : List ℕ) (aux r : List Bool) → mark_all n xs aux ≡ some r → IsBounded n xs
mark_all-IsBounded n [] aux r e = λ i h. absurd (omega arith)
mark_all-IsBounded n (x ∷ xs) aux r e = elim (Bool-cases (leb n x)) [
  | inl above ↦ absurd (none-ne-some r (sym (mark_all-above n x xs aux above) ∙ e))
  | inr below ↦
      cons (ground arith)
        (mark_all-IsBounded n xs (set aux x true) r (sym (mark_all-below n x xs aux below) ∙ e))
]
  where
    cons : x < n → IsBounded n xs → IsBounded n (x ∷ xs)
    cons h b zero p = h
    cons h b (suc i) p = b i (omega arith)

all_true_iff :
    (l : List Bool) → (all_true l ≡ true) ↔ ((i : ℕ) → i < length l → get_or l i false ≡ true)
unfolding all_true
all_true_iff l = (to l, from l)
  where
    to : (l : List Bool) → all_true l ≡ true → (i : ℕ) → i < length l → get_or l i false ≡ true
    to [] e i h = absurd (omega arith)
    to (true ∷ l) e zero h = refl
    to (true ∷ l) e (suc i) h = to l e i (omega arith)
    to (false ∷ l) e i h = absurd (ground (arith, e))

    from : (l : List Bool) → ((i : ℕ) → i < length l → get_or l i false ≡ true) → all_true l ≡ true
    from [] f = refl
    from (b ∷ l) f = rw (f 0 (omega arith)) (from l (λ i h. f (suc i) (omega arith)))

isperm-long : (a : List ℕ) → ltb factorial_max (length a) ≡ true → isperm a ≡ false
unfolding isperm
isperm-long a h = rw h refl

isperm-unmarked :
    (a : List ℕ)
    → ltb factorial_max (length a) ≡ false
    → mark_all (length a) a (replicate (length a) false) ≡ none
    → isperm a ≡ false
unfolding isperm
isperm-unmarked a h e = rw h (ap (λ o. elim o [ none ↦ false | some aux ↦ all_true aux ]) e)

isperm-marked :
    (a : List ℕ)
    → ltb factorial_max (length a) ≡ false
    → IsBounded (length a) a
    → isperm a ≡ all_true (marks a (replicate (length a) false))
unfolding isperm
isperm-marked a h b = rw h (
    ap (λ o. elim o [ none ↦ false | some aux ↦ all_true aux ])
      (mark_all-marks (length a) a (replicate (length a) false) b))

replicate-false : (n i : ℕ) → get_or (replicate n false) i false ≡ false
replicate-false zero i = refl
replicate-false (suc n) zero = refl
replicate-false (suc n) (suc i) = replicate-false n i

-- A place is marked where its number is counted.
marked :
    (a : List ℕ) (v : ℕ)
    → v < length a
    → get_or (marks a (replicate (length a) false)) v false ≡ ltb 0 (count v a)
marked a v h =
    get_or-marks a (replicate (length a) false) v (omega (arith, length-replicate (length a) false))
    ∙ rw (replicate-false (length a) v) refl

length-marked : (a : List ℕ) → length (marks a (replicate (length a) false)) ≡ length a
length-marked a = length-marks a (replicate (length a) false) ∙ length-replicate (length a) false

isperm_sound : (a : List ℕ) → isperm a ≡ true → IsPerm a
isperm_sound a e = elim (Bool-cases (ltb factorial_max (length a))) [
  | inl long ↦ absurd (true≢false (sym e ∙ isperm-long a long))
  | inr short ↦ elim (Option-cases (mark_all (length a) a (replicate (length a) false))) [
    | inl wrong ↦ absurd (true≢false (sym e ∙ isperm-unmarked a short wrong))
    | inr (r, right) ↦
        let b : IsBounded (length a) a =
          mark_all-IsBounded (length a) a (replicate (length a) false) r right in
        let all =
          (all_true_iff (marks a (replicate (length a) false))).0
            (sym (isperm-marked a short b) ∙ e) in
        record {
          short = ground (arith);
          bounded = b;
          injective = IsInjective-of_surjective (length a) a refl b (λ v h.
              lt-of_ltb (count v a) (sym (marked a v h) ∙ all v (omega (arith, length-marked a))));
        }
  ]
]
  where
    lt-of_ltb : (c : ℕ) → ltb 0 c ≡ true → 0 < c
    lt-of_ltb c h = ground arith

isperm_complete : (a : List ℕ) → IsPerm a → isperm a ≡ true
isperm_complete a w =
    isperm-marked a (ground (arith, w.short)) w.bounded
    ∙ (all_true_iff (marks a (replicate (length a) false))).1 λ v h.
        let below : v < length a = omega (arith, length-marked a) in
        let (i, p, e) = surjective_of_injective (length a) a v refl w.bounded w.injective below in
        let here : 0 < count v a = subst (λ k. 0 < count k a) e (count-get_or a i p) in
        marked a v below ∙ ground arith

-- `isperm` holds for the arrays of at most twelve entries, all different and below the length, and
-- for no others.
pub isperm_iff : (a : List ℕ) → (isperm a ≡ true) ↔ IsPerm a
isperm_iff a = (isperm_sound a, isperm_complete a)
