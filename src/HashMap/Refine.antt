-- ===== src/HashMap/Refine.antt =====
-- The map refines a function from keys to their least values.
use h.Base.{
  ℕ, zero, suc, ◌+◌, ◌^◌, ◌≤◌, ◌<◌, List, [], ◌∷◌, Option, none, some, ◌≡◌, ◌≢◌, refl, sym, ap, ◌∙◌,
  ◌==◌, if◌then◌else◌, get_or, length, arith, ℕ_discrete, min, ltb, replicate, length-replicate,
}
use h.HashMap.{
  HMap, KvPair, map_unset, map_unset_val, entry_at, entry_val, value, store_min, insertmin, create,
}
use h.HashMap.Invariant.{IsMap, occupied, IsMap-Finds}
use h.HashMap.Stored.{
  value-Finds, stored-capacity, stored-room, stored-IsMap, value-stored_self, value-stored_ne,
  insertmin-stored,
}

-- The map is well formed and `value` finds `f y` for every key `y`.
pub record Represents (m : HMap) (f : ℕ → ℕ) : Type 0 where
  pub well_formed : IsMap m
  pub agrees : (y : ℕ) → value m y ≡ some (f y)

occupied-replicate : (n : ℕ) → occupied (replicate n map_unset) ≡ 0
unfolding occupied
occupied-replicate zero = refl
occupied-replicate (suc n) = omega (arith, occupied-replicate n)

replicate-unset : (n i : ℕ) → get_or (replicate n map_unset) i map_unset ≡ map_unset
replicate-unset zero i = refl
replicate-unset (suc n) zero = refl
replicate-unset (suc n) (suc i) = replicate-unset n i

create-IsMap : (capacity r : ℕ) → 0 < capacity → capacity < 2 ^ 64 → IsMap (create capacity r)
unfolding create
create-IsMap capacity r pos small = record {
  sized = length-replicate capacity map_unset;
  pos = pos;
  small = small;
  counted = sym (occupied-replicate capacity);
  paths = λ i p used. absurd (used (replicate-unset capacity i));
}

create-free : (capacity r i : ℕ) → entry_at (create capacity r) i ≡ map_unset
unfolding create
create-free capacity r i = replicate-unset capacity i

create-n :
    (capacity r : ℕ) → ((create capacity r).n ≡ 0) × ((create capacity r).capacity ≡ capacity)
unfolding create
create-n capacity r = (refl, refl)

unset_val : some (entry_val map_unset) ≡ some map_unset_val
unfolding entry_val
unset_val = refl

-- A new map of positive capacity below 2^64 is well formed and maps every key to `map_unset_val`.
pub create-Represents :
    (capacity r : ℕ)
    → 0 < capacity
    → capacity < 2 ^ 64
    → Represents (create capacity r) (λ y. map_unset_val)
create-Represents capacity r pos small =
    let w : IsMap (create capacity r) = create-IsMap capacity r pos small in
    let (n, c) = create-n capacity r in
    record {
      well_formed = w;
      agrees = λ y.
          let (s, f) = IsMap-Finds (create capacity r) y w (omega (arith, n, c)) in
          value-Finds (create capacity r) y s w.pos w.small f
          ∙ ap (λ e. some (entry_val e)) (create-free capacity r s)
          ∙ unset_val;
    }

from_some : {a b : ℕ} → some a ≡ some b → a ≡ b
from_some {a} e = ap (λ o. elim o [ none ↦ a | some k ↦ k ]) e

-- What `insertmin` stores is the least of the two values.
lowered :
    (val old f y key : ℕ)
    → y ≡ key
    → old ≡ f
    → (if ltb val old then val else old) ≡ (if y == key then min val f else f)
lowered val old f y key e e' = ground arith

unchanged : (val f y key : ℕ) → y ≢ key → f ≡ (if y == key then min val f else f)
unchanged val f y key ne = ground arith

-- On a map that represents `f` and keeps a free slot, `insertmin` of a key below 2^40 and a value
-- below `map_unset_val` stops, and its result represents `f` with the value of the key lowered to
-- the new one if that is less; the capacity stays and at most one slot is taken.
pub insertmin-Represents :
    (m : HMap) (f : ℕ → ℕ) (key val : ℕ)
    → Represents m f
    → m.n + 1 < m.capacity
    → key < 2 ^ 40
    → val < map_unset_val
    → (m' : HMap) × (insertmin m key val ≡ some m')
      × Represents m' (λ y. if y == key then min val (f y) else f y)
      × (m'.capacity ≡ m.capacity)
      × (m'.n ≤ m.n + 1)
insertmin-Represents m f key val r room hk hv =
    let w : IsMap m = r.well_formed in
    let (i, found) = IsMap-Finds m key w (omega arith) in
    (
      store_min m key val i,
      insertmin-stored m key val i w found room hk hv,
      record {
        well_formed = stored-IsMap m key val i w found room hk hv;
        agrees = λ y. elim (ℕ_discrete y key) [
          | yes e ↦
              let old : entry_val (entry_at m i) ≡ f y =
                from_some (sym (value-Finds m key i w.pos w.small found) ∙ r.agrees key)
                ∙ ap f (sym e) in
              ap (value (store_min m key val i)) e
              ∙ value-stored_self m key val i w found room hk hv
              ∙ ap some (lowered val (entry_val (entry_at m i)) (f y) y key e old)
          | no ne ↦
              value-stored_ne m key val i w found room hk hv y ne
              ∙ r.agrees y
              ∙ ap some (unchanged val (f y) y key ne)
        ];
      },
      stored-capacity m key val i w found room hk hv,
      stored-room m key val i w found room hk hv,
    )

-- `insertmin` of every pair of a list, in its order.
unfoldable pub insert_all : HMap → List KvPair → Option HMap
insert_all m [] = some m
insert_all m (kv ∷ kvs) = elim (insertmin m kv.key kv.val) [
  | none ↦ none
  | some m' ↦ insert_all m' kvs
]

-- The least value that a list gives to a key, `bound` if that is less.
unfoldable pub least_of : ℕ → ℕ → List KvPair → ℕ
least_of bound y [] = bound
least_of bound y (kv ∷ kvs) = least_of (if y == kv.key then min kv.val bound else bound) y kvs

-- Keys and values that fit their fields, and no value is the mark of an absent key.
pub data Fits : List KvPair → Type 0 where
  none_left : Fits []
  one_more :
      {kv : KvPair} {kvs : List KvPair}
      → kv.key < 2 ^ 40
      → kv.val < map_unset_val
      → Fits kvs
      → Fits (kv ∷ kvs)

insert_all-Represents :
    (m : HMap) (f : ℕ → ℕ) (kvs : List KvPair)
    → Represents m f
    → m.n + length kvs < m.capacity
    → Fits kvs
    → (m' : HMap) × (insert_all m kvs ≡ some m') × Represents m' (λ y. least_of (f y) y kvs)
unfolding insert_all least_of
insert_all-Represents m f [] r room fits = (m, refl, r)
insert_all-Represents m f (kv ∷ kvs) r room (one_more hk hv fits) =
    let (m', e, r', c, n) = insertmin-Represents m f kv.key kv.val r (omega arith) hk hv in
    let (m'', e', r'') =
      insert_all-Represents m' (λ y. if y == kv.key then min kv.val (f y) else f y) kvs r'
        (omega (arith, c, n)) fits in
    (m'', ap (λ o. elim o [ none ↦ none | some k ↦ insert_all k kvs ]) e ∙ e', r'')

-- Fewer pairs than the capacity, with keys below 2^40 and values below `map_unset_val`, inserted
-- in a new map of a capacity below 2^64, are all stored: `value` then finds the least value that
-- the list gives to a key, and `map_unset_val` for a key that is not in the list.
pub insert_all-create :
    (capacity r : ℕ) (kvs : List KvPair)
    → 0 < capacity
    → capacity < 2 ^ 64
    → length kvs < capacity
    → Fits kvs
    → (m : HMap) × (insert_all (create capacity r) kvs ≡ some m)
      × ((y : ℕ) → value m y ≡ some (least_of map_unset_val y kvs))
insert_all-create capacity r kvs pos small room fits =
    let (n, c) = create-n capacity r in
    let (m, e, rep) =
      insert_all-Represents (create capacity r) (λ y. map_unset_val) kvs
        (create-Represents capacity r pos small) (omega (arith, n, c)) fits in
    (m, e, rep.agrees)
