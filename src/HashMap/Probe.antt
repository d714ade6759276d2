-- ===== src/HashMap/Probe.antt =====
-- The probe sequence of a key: where `lookup` stops.
use h.Base.{
  ℕ, zero, suc, ◌+◌, ◌-◌, ◌*◌, ◌%◌, ◌^◌, ◌≤◌, ◌<◌, true, false, none, some, ◌≡◌, refl, sym, ap, ◌∙◌,
  arith, inl, inr, ◌⊎◌, ℕ_discrete, Bool-cases,
}
use h.HashMap.{HMap, hash, goes_on, lookup_loop, lookup}
use native.Mathlib.Nat.{mod-lt, mod-add-mod, mod-eq_of_lt, mod-eq-sub-mod}

-- The slot that the loop for `x` sees in round `j`.
abbrev pub slot : HMap → ℕ → ℕ → ℕ
slot m x j = (hash m x + j) % m.capacity

-- `lookup` of `x` stops at slot `s`: it stops there in some round and in no round before.
pub record Finds (m : HMap) (x s : ℕ) : Type 0 where
  pub round : ℕ
  pub in_time : round < m.capacity
  pub there : slot m x round ≡ s
  pub stops : goes_on m x s ≡ false
  pub before : (l : ℕ) → l < round → goes_on m x (slot m x l) ≡ true

module _ (m : HMap) (pos : 0 < m.capacity) (small : m.capacity < 2 ^ 64) where
  pub slot-lt : (x j : ℕ) → slot m x j < m.capacity
  slot-lt x j = mod-lt (hash m x + j) pos

  slot-next : (x j : ℕ) → (slot m x j + 1) % 2 ^ 64 % m.capacity ≡ slot m x (suc j)
  slot-next x j =
      let fits : (slot m x j + 1) % 2 ^ 64 ≡ slot m x j + 1 = omega (arith, slot-lt x j) in
      let shift : hash m x + j + 1 ≡ hash m x + suc j = omega arith in
      ap (λ k. k % m.capacity) fits
      ∙ mod-add-mod (hash m x + j) m.capacity 1
      ∙ ap (λ k. k % m.capacity) shift

  loop_stops :
      (d x j r fuel : ℕ)
      → j + d ≡ r
      → ((l : ℕ) → j ≤ l → l < r → goes_on m x (slot m x l) ≡ true)
      → goes_on m x (slot m x r) ≡ false
      → d < fuel
      → lookup_loop fuel m x (slot m x j) ≡ some (slot m x r)
  unfolding lookup_loop
  loop_stops d x j r zero e on off h = absurd (omega arith)
  loop_stops zero x j r (suc fuel) e on off h = let e' : j ≡ r = omega arith in rw (e', off) refl
  loop_stops (suc d) x j r (suc fuel) e on off h =
      rw (on j (omega arith) (omega arith), slot-next x j)
        (loop_stops d x (suc j) r fuel (omega arith) (λ l p q. on l (omega arith) q) off
          (omega arith))

  hash-lt : (x : ℕ) → hash m x < m.capacity
  unfolding hash
  hash-lt x = mod-lt (x % m.capacity * m.randomizer % 2 ^ 64) pos

  slot-zero : (x : ℕ) → slot m x 0 ≡ hash m x
  slot-zero x =
      let e : hash m x + 0 ≡ hash m x = omega arith in
      ap (λ k. k % m.capacity) e ∙ mod-eq_of_lt (hash-lt x)

  pub lookup-Finds : (x s : ℕ) → Finds m x s → lookup m x ≡ some s
  unfolding lookup
  lookup-Finds x s f =
      let off : goes_on m x (slot m x f.round) ≡ false = ap (goes_on m x) f.there ∙ f.stops in
      ap (lookup_loop m.capacity m x) (sym (slot-zero x))
      ∙ loop_stops f.round x 0 f.round m.capacity (omega arith) (λ l p q. f.before l q) off
          f.in_time
      ∙ ap some f.there

  pub Finds-unique : (x s t : ℕ) → Finds m x s → Finds m x t → s ≡ t
  Finds-unique x s t f g = unwrap (sym (lookup-Finds x s f) ∙ lookup-Finds x t g)
    where
      unwrap : some s ≡ some t → s ≡ t
      unwrap e = ap (λ o. elim o [ none ↦ s | some k ↦ k ]) e

  -- Every slot is seen in some round.
  slot-round : (x s : ℕ) → s < m.capacity → (j : ℕ) × (j < m.capacity) × (slot m x j ≡ s)
  slot-round x s h = elim (split (hash m x)) [
    | inl le ↦
        let e : hash m x + (s - hash m x) ≡ s = omega arith in
        (s - hash m x, omega arith, ap (λ k. k % m.capacity) e ∙ mod-eq_of_lt h)
    | inr gt ↦
        let e : hash m x + (s + m.capacity - hash m x) ≡ s + m.capacity =
          omega (arith, hash-lt x) in
        let wrap : s + m.capacity - m.capacity ≡ s = omega arith in
        (
          s + m.capacity - hash m x,
          omega (arith, hash-lt x),
          ap (λ k. k % m.capacity) e
              ∙ mod-eq-sub-mod (omega arith)
              ∙ ap (λ k. k % m.capacity) wrap
              ∙ mod-eq_of_lt h,
        )
  ]
    where
      split : (a : ℕ) → (a ≤ s) ⊎ (s < a)
      split a = omega arith

  first_stop :
      (d x j r : ℕ)
      → j + d ≡ r
      → ((l : ℕ) → l < j → goes_on m x (slot m x l) ≡ true)
      → goes_on m x (slot m x r) ≡ false
      → r < m.capacity
      → (t : ℕ) × Finds m x t
  first_stop zero x j r e on off h =
      let e' : j ≡ r = omega arith in
      (
        slot m x r,
        record {
          round = r;
          in_time = h;
          there = refl;
          stops = off;
          before = λ l p. on l (omega arith);
        },
      )
  first_stop (suc d) x j r e on off h = elim (Bool-cases (goes_on m x (slot m x j))) [
    | inr stop ↦ (
      slot m x j,
      record { round = j; in_time = omega arith; there = refl; stops = stop; before = on },
    )
    | inl go ↦ first_stop d x (suc j) r (omega arith) (extend go) off h
  ]
    where
      extend :
          goes_on m x (slot m x j) ≡ true → (l : ℕ) → l < suc j → goes_on m x (slot m x l) ≡ true
      extend go l p = elim (ℕ_discrete l j) [
        | yes same ↦ ap (λ k. goes_on m x (slot m x k)) same ∙ go
        | no other ↦ on l (omega arith)
      ]

  -- A slot where the loop would stop is enough for `lookup` to stop.
  pub Finds-of_stop : (x s : ℕ) → s < m.capacity → goes_on m x s ≡ false → (t : ℕ) × Finds m x t
  Finds-of_stop x s h off =
      let (j, p, e) = slot-round x s h in
      first_stop j x 0 j (omega arith) (λ l q. absurd (omega arith)) (ap (goes_on m x) e ∙ off) p

-- On a table of positive capacity without a free slot, looking up a key that no slot holds never
-- stops, from any slot of the table and with any fuel.
pub lookup_loop-full :
    (m : HMap) (y : ℕ)
    → 0 < m.capacity
    → ((i : ℕ) → i < m.capacity → goes_on m y i ≡ true)
    → (fuel i : ℕ) → i < m.capacity
    → lookup_loop fuel m y i ≡ none
unfolding lookup_loop
lookup_loop-full m y pos full zero i h = refl
lookup_loop-full m y pos full (suc fuel) i h = rw (full i h) (
    lookup_loop-full m y pos full fuel ((i + 1) % 2 ^ 64 % m.capacity)
      (mod-lt ((i + 1) % 2 ^ 64) pos))
