-- ===== src/HashMap/Invariant.antt =====
-- The slots of a well-formed map, and one slot written.
use h.Base.{
  ℕ, zero, suc, ◌+◌, ◌*◌, ◌%◌, ◌^◌, ◌<◌, bit_and, true, false, not, List, [], ◌∷◌, ◌≡◌, ◌≢◌, ◌∙◌,
  ◌==◌, get_or, set, length, arith, of_bool, inl, inr, ◌⊎◌, ℕ_discrete,
}
use h.Base.Bits.{bit_or_add, bit_and_low}
use h.HashMap.{
  HMap, map_unset, map_unset_val, map_keymask, entry_at, entry_key, entry_val, make_entry, goes_on,
}
use h.HashMap.Probe.{Finds, Finds-of_stop}
use native.Mathlib.Nat.{mod-eq_of_lt}

-- The number of slots in use.
unfoldable pub occupied : List ℕ → ℕ
occupied [] = 0
occupied (e ∷ es) = of_bool (not (e == map_unset)) + occupied es

-- Every pair is found by its own key, and `n` counts the pairs.
pub record IsMap (m : HMap) : Type 0 where
  pub sized : length m.table ≡ m.capacity
  pub pos : 0 < m.capacity
  pub small : m.capacity < 2 ^ 64
  pub counted : m.n ≡ occupied m.table
  pub paths :
      (i : ℕ) → i < m.capacity → entry_at m i ≢ map_unset → Finds m (entry_key (entry_at m i)) i

pub entry_key-mod : (e : ℕ) → entry_key e ≡ e % 2 ^ 40
unfolding entry_key
entry_key-mod e = bit_and_low 40 e

pub make_entry-sum :
    (key val : ℕ) → key < 2 ^ 40 → val < 2 ^ 24 → make_entry key val ≡ key + val * 2 ^ 40
unfolding make_entry
make_entry-sum key val h h' =
    let fits : val * 2 ^ 40 % 2 ^ 64 ≡ val * 2 ^ 40 = omega arith in
    let low : bit_and key map_keymask ≡ key = bit_and_low 40 key ∙ mod-eq_of_lt h in
    rw (fits, low) (bit_or_add 40 key val h)

pub entry_key-make_entry :
    (key val : ℕ) → key < 2 ^ 40 → val < 2 ^ 24 → entry_key (make_entry key val) ≡ key
entry_key-make_entry key val h h' =
    omega (arith, entry_key-mod (make_entry key val), make_entry-sum key val h h')

pub entry_val-make_entry :
    (key val : ℕ) → key < 2 ^ 40 → val < 2 ^ 24 → entry_val (make_entry key val) ≡ val
unfolding entry_val
entry_val-make_entry key val h h' = omega (arith, make_entry-sum key val h h')

pub make_entry-ne_unset :
    (key val : ℕ) → key < 2 ^ 40 → val < map_unset_val → make_entry key val ≢ map_unset
make_entry-ne_unset key val h h' e = absurd (omega (arith, make_entry-sum key val h (omega arith)))

-- A table with fewer pairs than slots has a free slot.
pub free_slot :
    (t : List ℕ)
    → occupied t < length t
    → (i : ℕ) × (i < length t) × (get_or t i map_unset ≡ map_unset)
unfolding occupied
free_slot [] h = absurd (omega arith)
free_slot (e ∷ es) h = elim (ℕ_discrete e map_unset) [
  | yes free ↦ (0, omega arith, free)
  | no used ↦ let (i, p, q) = free_slot es (ground arith) in (suc i, omega arith, q)
]

pub occupied-set :
    (t : List ℕ) (i e : ℕ)
    → i < length t
    → e ≢ map_unset
    → occupied (set t i e) ≡ occupied t + of_bool (get_or t i map_unset == map_unset)
unfolding occupied
occupied-set [] i e h ne = absurd (omega arith)
occupied-set (x ∷ xs) zero e h ne = ground arith
occupied-set (x ∷ xs) (suc i) e h ne = omega (arith, occupied-set xs i e (omega arith) ne)

pub goes_on-free : (m : HMap) (y i : ℕ) → entry_at m i ≡ map_unset → goes_on m y i ≡ false
unfolding goes_on
goes_on-free m y i e = ground arith

pub goes_on-key : (m : HMap) (y i : ℕ) → entry_key (entry_at m i) ≡ y → goes_on m y i ≡ false
unfolding goes_on
goes_on-key m y i e = elim (ℕ_discrete (entry_at m i) map_unset) [
  | yes free ↦ goes_on-free m y i free
  | no used ↦ ground arith
]

pub goes_on-false :
    (m : HMap) (y i : ℕ)
    → goes_on m y i ≡ false
    → (entry_at m i ≡ map_unset) ⊎ (entry_key (entry_at m i) ≡ y)
unfolding goes_on
goes_on-false m y i h = elim (ℕ_discrete (entry_at m i) map_unset) [
  | yes free ↦ inl free
  | no used ↦ inr (ground arith)
]

pub goes_on-true :
    (m : HMap) (y i : ℕ)
    → entry_at m i ≢ map_unset
    → entry_key (entry_at m i) ≢ y
    → goes_on m y i ≡ true
unfolding goes_on
goes_on-true m y i h h' = ground arith

pub goes_on-occupied :
    (m : HMap) (y i : ℕ)
    → goes_on m y i ≡ true
    → (entry_at m i ≢ map_unset) × (entry_key (entry_at m i) ≢ y)
unfolding goes_on
goes_on-occupied m y i h = ground arith

-- Whatever the key, the loop stops on a map that is not full.
pub IsMap-Finds : (m : HMap) (y : ℕ) → IsMap m → m.n < m.capacity → (s : ℕ) × Finds m y s
IsMap-Finds m y w h =
    let (i, p, e) = free_slot m.table (omega (arith, w.sized, w.counted)) in
    Finds-of_stop m w.pos w.small y i (omega (arith, w.sized)) (goes_on-free m y i e)
