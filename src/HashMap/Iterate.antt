-- ===== src/HashMap/Iterate.antt =====
-- Running through the map with `nextkvpair`, and the loop that gendata_h48short of
-- src/solvers/h48/gendata_h48.h makes of it.
use h.Base.{
  ℕ, zero, suc, ◌+◌, ◌-◌, ◌≤◌, ◌<◌, true, false, List, [], ◌∷◌, ◌≡◌, ◌≢◌, refl, sym, ap, ◌∙◌, ◌==◌,
  if◌then◌else◌, arith, inl, inr, ◌⊎◌, ℕ_discrete,
}
use h.HashMap.{HMap, KvPair, map_unset, entry_at, entry_key, entry_val, next_loop, nextkvpair}

-- The pairs that a loop `for (kv = nextkvpair(map, &p); p != capacity; kv = nextkvpair(map, &p))`
-- hands to its body, while nothing is inserted; gendata_h48k2_runthread leaves it on the same test.
unfoldable pub visit_loop : ℕ → HMap → ℕ → List KvPair
unfolding nextkvpair
visit_loop zero m p = []
visit_loop (suc fuel) m p =
    let (kv, p') = nextkvpair m p in
    let rest = visit_loop fuel m p' in if p' == m.capacity then [] else (kv ∷ rest)

unfoldable pub visit_pairs : HMap → List KvPair
unfolding visit_loop
visit_pairs m = visit_loop m.capacity m 0

abbrev pair_at : HMap → ℕ → KvPair
pair_at m i = record { key = entry_key (entry_at m i); val = entry_val (entry_at m i) }

-- The pairs in the `c` slots from `p` on.
unfoldable pub pairs_in : ℕ → HMap → ℕ → List KvPair
pairs_in zero m p = []
pairs_in (suc c) m p =
    let rest = pairs_in c m (suc p) in
    if entry_at m p == map_unset then rest else (pair_at m p ∷ rest)

abbrev AreFree : HMap → ℕ → ℕ → Type 0
AreFree m p q = (i : ℕ) → p ≤ i → i < q → entry_at m i ≡ map_unset

test-true : (a b : ℕ) → a ≡ b → (a == b) ≡ true
test-true a b h = ground arith

test-false : (a b : ℕ) → a ≢ b → (a == b) ≡ false
test-false a b h = ground arith

next_loop-free :
    (m : HMap) (left p : ℕ)
    → entry_at m p ≡ map_unset
    → next_loop (suc left) m p ≡ next_loop left m (p + 1)
unfolding next_loop
next_loop-free m left p e = rw (test-true (entry_at m p) map_unset e) refl

next_loop-used :
    (m : HMap) (left p : ℕ)
    → entry_at m p ≢ map_unset
    → next_loop (suc left) m p ≡ (pair_at m p, p + 1)
unfolding next_loop
next_loop-used m left p e = rw (test-false (entry_at m p) map_unset e) refl

next_loop-end : (m : HMap) (p : ℕ) → (next_loop zero m p).1 ≡ p + zero
unfolding next_loop
next_loop-end m p = omega arith

extend : (m : HMap) (p q : ℕ) → entry_at m p ≡ map_unset → AreFree m (p + 1) q → AreFree m p q
extend m p q e free i h h' = elim (ℕ_discrete i p) [
  | yes same ↦ ap (entry_at m) same ∙ e
  | no other ↦ free i (omega arith) h'
]

-- `next_loop` skips free slots: it stops at the first slot in use, or at the end.
next_loop_lem :
    (m : HMap) (left p : ℕ)
    → (AreFree m p (p + left) × ((next_loop left m p).1 ≡ p + left))
      ⊎ ((s : ℕ) × (p ≤ s)
          × (s < p + left)
          × AreFree m p s
          × (entry_at m s ≢ map_unset)
          × (next_loop left m p ≡ (pair_at m s, s + 1)))
next_loop_lem m zero p = inl (λ i h h'. absurd (omega arith), next_loop-end m p)
next_loop_lem m (suc left) p = elim (ℕ_discrete (entry_at m p) map_unset) [
  | no used ↦ inr (
    p,
    omega arith,
    omega arith,
    λ i h h'. absurd (omega arith),
    used,
    next_loop-used m left p used,
  )
  | yes free ↦
      let step : next_loop (suc left) m p ≡ next_loop left m (p + 1) =
        next_loop-free m left p free in
      elim (next_loop_lem m left (p + 1)) [
        | inl (all, stop) ↦ inl (
          extend m p (p + suc left) free (λ i h h'. all i h (omega arith)),
          ap (λ t. t.1) step ∙ stop ∙ omega arith,
        )
        | inr (s, low, high, all, used, stop) ↦
            inr (s, omega arith, omega arith, extend m p s free all, used, step ∙ stop)
      ]
]

pairs_in-free :
    (c d : ℕ) (m : HMap) (p : ℕ) → AreFree m p (p + d) → pairs_in (d + c) m p ≡ pairs_in c m (p + d)
unfolding pairs_in
pairs_in-free c zero m p free =
    let e : 0 + c ≡ c = omega arith in
    let e' : p ≡ p + 0 = omega arith in ap (λ k. pairs_in k m p) e ∙ ap (pairs_in c m) e'
pairs_in-free c (suc d) m p free =
    let e : suc d + c ≡ suc (d + c) = omega arith in
    let e' : suc p + d ≡ p + suc d = omega arith in
    ap (λ k. pairs_in k m p) e
    ∙ rw (test-true (entry_at m p) map_unset (free p (omega arith) (omega arith)))
        (pairs_in-free c d m (suc p) (λ i h h'. free i (omega arith) (omega arith)))
    ∙ ap (pairs_in c m) e'

pairs_in-all_free : (c : ℕ) (m : HMap) (p : ℕ) → AreFree m p (p + c) → pairs_in c m p ≡ []
unfolding pairs_in
pairs_in-all_free zero m p free = refl
pairs_in-all_free (suc c) m p free =
    rw (test-true (entry_at m p) map_unset (free p (omega arith) (omega arith)))
      (pairs_in-all_free c m (suc p) (λ i h h'. free i (omega arith) (omega arith)))

pairs_in-used :
    (c : ℕ) (m : HMap) (p : ℕ)
    → entry_at m p ≢ map_unset
    → pairs_in (suc c) m p ≡ pair_at m p ∷ pairs_in c m (suc p)
unfolding pairs_in
pairs_in-used c m p used = rw (test-false (entry_at m p) map_unset used) refl

visit_loop-stop :
    (fuel : ℕ) (m : HMap) (p : ℕ) → (nextkvpair m p).1 ≡ m.capacity → visit_loop (suc fuel) m p ≡ []
unfolding visit_loop
visit_loop-stop fuel m p e = rw (test-true (nextkvpair m p).1 m.capacity e) refl

visit_loop-step :
    (fuel : ℕ) (m : HMap) (p q : ℕ) (kv : KvPair)
    → nextkvpair m p ≡ (kv, q)
    → q ≢ m.capacity
    → visit_loop (suc fuel) m p ≡ kv ∷ visit_loop fuel m q
unfolding visit_loop
visit_loop-step fuel m p q kv e ne =
    let here : (nextkvpair m p).1 ≢ m.capacity = λ same. ne (sym (ap (λ t. t.1) e) ∙ same) in
    rw (test-false (nextkvpair m p).1 m.capacity here) (ap (λ t. t.0 ∷ visit_loop fuel m t.1) e)

nextkvpair-next_loop :
    (m : HMap) (p left : ℕ) → p + left ≡ m.capacity → nextkvpair m p ≡ next_loop left m p
unfolding nextkvpair
nextkvpair-next_loop m p left e =
    let e' : m.capacity - p ≡ left = omega arith in ap (λ k. next_loop k m p) e'

visit_loop-pairs_in :
    (fuel c : ℕ) (m : HMap) (p : ℕ)
    → p + suc c ≡ m.capacity
    → c < fuel
    → visit_loop fuel m p ≡ pairs_in c m p
visit_loop-pairs_in zero c m p e h = absurd (omega arith)
visit_loop-pairs_in (suc fuel) c m p e h =
    let left : nextkvpair m p ≡ next_loop (suc c) m p = nextkvpair-next_loop m p (suc c) e in
    elim (next_loop_lem m (suc c) p) [
      | inl (all, stop) ↦
          visit_loop-stop fuel m p (ap (λ t. t.1) left ∙ stop ∙ e)
          ∙ sym (pairs_in-all_free c m p (λ i l l'. all i l (omega arith)))
      | inr (s, low, high, all, used, stop) ↦ elim (ℕ_discrete (s + 1) m.capacity) [
        | yes last ↦
            visit_loop-stop fuel m p (ap (λ t. t.1) (left ∙ stop) ∙ last)
            ∙ sym (pairs_in-all_free c m p (λ i l l'. all i l (omega arith)))
        | no inner ↦
            let at : p + (s - p) ≡ s = omega arith in
            let rest : s - p + suc (c - suc (s - p)) ≡ c = omega arith in
            let next : s + 1 ≡ suc s = omega arith in
            let d : ℕ = c - suc (s - p) in
            visit_loop-step fuel m p (s + 1) (pair_at m s) (left ∙ stop) inner
            ∙ ap (λ k. pair_at m s ∷ visit_loop fuel m k) next
            ∙ ap (λ t. pair_at m s ∷ t)
                (visit_loop-pairs_in fuel d m (suc s) (omega arith) (omega arith))
            ∙ sym (pairs_in-used d m s used)
            ∙ ap (pairs_in (suc d) m) (sym at)
            ∙ sym (pairs_in-free (suc d) (s - p) m p (λ i l l'. all i l (omega arith)))
            ∙ ap (λ k. pairs_in k m p) rest
      ]
    ]

-- On a map of positive capacity that stays as it is, the callers' loop sees the pairs of every slot in use,
-- in the order of the slots, except that of the last slot, whatever it holds.
pub visit_pairs-pairs_in :
    (m : HMap) → 0 < m.capacity → visit_pairs m ≡ pairs_in (m.capacity - 1) m 0
unfolding visit_pairs
visit_pairs-pairs_in m pos =
    visit_loop-pairs_in m.capacity (m.capacity - 1) m 0 (omega arith) (omega arith)
