-- ===== src/Indices/Codes.antt =====
-- The factorial code of a permutation: `permtoindex` and `indextoperm` are inverse. First how the
-- marks of `indextoperm` count the entries that are left.
pub mod Loop
pub mod Inverse
use h.Base.{
  ℕ, zero, suc, ◌+◌, ◌-◌, ◌*◌, ◌/◌, ◌%◌, ◌≤◌, ◌<◌, Bool, true, false, not, ◌&&◌, ◌||◌, List, [],
  ◌∷◌, Option, none, some, ◌≡◌, ◌≢◌, ◌↔◌, refl, sym, ap, ap₂, ◌∙◌, ◌==◌, ltb, leb, if◌then◌else◌,
  of_bool, get_or, set, replicate, length, arith, ℕ_discrete, inl, inr, ◌⊎◌, subst, count, total,
  total-nil, total-cons_ge, total-cons_lt, get_or-set_self, get_or-set_ne, length-set,
}
use h.Indices.{smaller_after, free_loop}

-- The array lists the places that are not marked, each once.
abbrev pub Lists : List ℕ → List Bool → Type 0
Lists xs used = (v : ℕ) → count v xs ≡ of_bool (not (get_or used v true))

-- How many places before `x` are not marked.
pub free_below : List Bool → ℕ → ℕ
free_below [] x = 0
free_below (u ∷ us) zero = 0
free_below (u ∷ us) (suc x) = of_bool (not u) + free_below us x

smaller_after-total : (x : ℕ) (xs : List ℕ) → smaller_after x xs ≡ total x xs
unfolding smaller_after
smaller_after-total x [] = sym (total-nil x)
smaller_after-total x (y ∷ ys) = elim (split y x) [
  | inl lt ↦ ground (arith, total-cons_lt x y ys lt, smaller_after-total x ys)
  | inr ge ↦ ground (arith, total-cons_ge x y ys ge, smaller_after-total x ys)
]
  where
    split : (a c : ℕ) → (a < c) ⊎ (c ≤ a)
    split a c = omega arith

free_below-suc :
    (used : List Bool) (x : ℕ)
    → free_below used (suc x) ≡ of_bool (not (get_or used x true)) + free_below used x
unfolding free_below
free_below-suc [] x = refl
free_below-suc (u ∷ us) zero = one us
  where
    one : (us : List Bool) → of_bool (not u) + free_below us 0 ≡ of_bool (not u) + 0
    one [] = refl
    one (w ∷ ws) = refl
free_below-suc (u ∷ us) (suc x) = omega (arith, free_below-suc us x)

free_below-zero : (used : List Bool) → free_below used 0 ≡ 0
unfolding free_below
free_below-zero [] = refl
free_below-zero (u ∷ us) = refl

total-free_below :
    (x : ℕ) (xs : List ℕ) (used : List Bool) → Lists xs used → total x xs ≡ free_below used x
unfolding total
total-free_below zero xs used l = sym (free_below-zero used)
total-free_below (suc x) xs used l =
    omega (arith, l x, total-free_below x xs used l, free_below-suc used x)

free_below-set : (used : List Bool) (x : ℕ) → free_below (set used x true) x ≡ free_below used x
unfolding free_below
free_below-set [] x = refl
free_below-set (u ∷ us) zero = refl
free_below-set (u ∷ us) (suc x) = ap (λ k. of_bool (not u) + k) (free_below-set us x)

-- The entries after `x` that are less are the free places before `x`.
pub smaller_after-free_below :
    (x : ℕ) (xs : List ℕ) (used : List Bool)
    → Lists xs (set used x true)
    → smaller_after x xs ≡ free_below used x
smaller_after-free_below x xs used l =
    smaller_after-total x xs ∙ total-free_below x xs (set used x true) l ∙ free_below-set used x

free_loop-stop : (used : List Bool) (q j c : ℕ) → q < c → free_loop used q j c ≡ j
unfolding free_loop
free_loop-stop [] q j c h = refl
free_loop-stop (u ∷ us) q j c h = let stop : leb c q ≡ false = ground arith in rw stop refl

pub free_loop_lem :
    (used : List Bool) (x q j c : ℕ)
    → get_or used x true ≡ false
    → c + free_below used x ≡ q
    → free_loop used q j c ≡ j + suc x
unfolding free_loop free_below
free_loop_lem [] x q j c free e = absurd (ground (arith, free))
free_loop_lem (u ∷ us) zero q j c free e =
    let go : leb c q ≡ true = ground arith in
    rw (go, free) (free_loop-stop us q (j + 1) (c + 1) (omega arith))
free_loop_lem (u ∷ us) (suc x) q j c free e =
    let go : leb c q ≡ true = ground arith in
    rw go (free_loop_lem us x q (j + 1) (c + of_bool (not u)) free (omega arith) ∙ omega arith)

-- The free place of a rank.
pub place_of_rank :
    (used : List Bool) (q : ℕ)
    → q < free_below used (length used)
    → (x : ℕ) × (get_or used x true ≡ false) × (free_below used x ≡ q)
unfolding free_below
place_of_rank [] q h = absurd (omega arith)
place_of_rank (true ∷ us) q h =
    let (x, f, e) = place_of_rank us q (omega arith) in (suc x, f, omega (arith, e))
place_of_rank (false ∷ us) zero h = (0, refl, refl)
place_of_rank (false ∷ us) (suc q) h =
    let (x, f, e) = place_of_rank us q (omega arith) in (suc x, f, omega (arith, e))

pub free_below-marked :
    (used : List Bool) (x : ℕ)
    → get_or used x true ≡ false
    → free_below used (length used) ≡ suc (free_below (set used x true) (length (set used x true)))
unfolding free_below
free_below-marked [] x f = absurd (ground (arith, f))
free_below-marked (u ∷ us) zero f = rw f (omega arith)
free_below-marked (u ∷ us) (suc x) f = omega (arith, free_below-marked us x f)

pub all_marked :
    (used : List Bool) → free_below used (length used) ≡ 0 → (v : ℕ) → get_or used v true ≡ true
unfolding free_below
all_marked [] e v = refl
all_marked (true ∷ us) e zero = refl
all_marked (true ∷ us) e (suc v) = all_marked us (omega arith) v
all_marked (false ∷ us) e v = absurd (omega arith)
