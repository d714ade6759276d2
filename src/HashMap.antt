-- ===== src/HashMap.antt =====
-- The open addressing map of src/solvers/h48/map.h. A slot is a `uint64_t`: 40 bits of key below 24
-- bits of value, all ones for a free slot. The loop of `lookup` has fuel; `none` means that it did
-- not stop within it.
pub mod Probe
pub mod Invariant
pub mod Stored
pub mod Refine
pub mod Iterate
use h.Base.{
  ℕ, zero, suc, ◌+◌, ◌-◌, ◌*◌, ◌/◌, ◌%◌, ◌^◌, bit_and, bit_or, Bool, true, false, not, ◌&&◌, List,
  [], ◌∷◌, Option, none, some, ◌==◌, ltb, if◌then◌else◌, of_bool, get_or, set, replicate,
}

abbrev pub map_unset : ℕ
map_unset = 0xFFFFFFFFFFFFFFFF

abbrev pub map_keymask : ℕ
map_keymask = 0xFFFFFFFFFF

abbrev pub map_keyshift : ℕ
map_keyshift = 40

abbrev pub map_unset_val : ℕ
map_unset_val = 0xFFFFFF

pub record HMap : Type 0 where
  pub n : ℕ
  pub capacity : ℕ
  pub randomizer : ℕ
  pub table : List ℕ

pub record KvPair : Type 0 where
  pub key : ℕ
  pub val : ℕ

abbrev pub entry_at : HMap → ℕ → ℕ
entry_at m i = get_or m.table i map_unset

unfoldable pub entry_key : ℕ → ℕ
entry_key e = bit_and e map_keymask

unfoldable pub entry_val : ℕ → ℕ
entry_val e = e / 2 ^ map_keyshift

unfoldable pub make_entry : ℕ → ℕ → ℕ
make_entry key val = bit_or (bit_and key map_keymask) (val * 2 ^ map_keyshift % 2 ^ 64)

unfoldable pub clear : HMap → HMap
clear m = record m { table = replicate m.capacity map_unset; n = 0 }

unfoldable pub create : ℕ → ℕ → HMap
unfolding clear
create capacity randomizer =
    clear (record { n = 0; capacity = capacity; randomizer = randomizer; table = [] })

unfoldable pub hash : HMap → ℕ → ℕ
hash m x = x % m.capacity * m.randomizer % 2 ^ 64 % m.capacity

-- The condition of the loop.
unfoldable pub goes_on : HMap → ℕ → ℕ → Bool
unfolding entry_key
goes_on m x i = not (entry_at m i == map_unset) && not (entry_key (entry_at m i) == x)

unfoldable pub lookup_loop : ℕ → HMap → ℕ → ℕ → Option ℕ
unfolding goes_on
lookup_loop zero m x i = none
lookup_loop (suc fuel) m x i =
    let rest = lookup_loop fuel m x ((i + 1) % 2 ^ 64 % m.capacity) in
    if goes_on m x i then rest else some i

-- The loop sees every slot in as many rounds as there are slots.
unfoldable pub lookup : HMap → ℕ → Option ℕ
unfolding lookup_loop hash
lookup m x = lookup_loop m.capacity m x (hash m x)

-- What `insertmin` does with the slot `i` that it looked up.
unfoldable pub store_min : HMap → ℕ → ℕ → ℕ → HMap
unfolding entry_val make_entry
store_min m key val i =
    let oldval = entry_val (entry_at m i) in
    let min : ℕ = if ltb val oldval then val else oldval in
    record m {
      n = (m.n + of_bool (entry_at m i == map_unset)) % 2 ^ 64;
      table = set m.table i (make_entry key min);
    }

unfoldable pub insertmin : HMap → ℕ → ℕ → Option HMap
unfolding lookup store_min
insertmin m key val = elim (lookup m key) [ none ↦ none | some i ↦ some (store_min m key val i) ]

unfoldable pub value : HMap → ℕ → Option ℕ
unfolding lookup entry_val
value m key = elim (lookup m key) [ none ↦ none | some i ↦ some (entry_val (entry_at m i)) ]

-- The loop of `nextkvpair` from slot `p`, with `left` slots to go: the pair and the new `p`.
unfoldable pub next_loop : ℕ → HMap → ℕ → KvPair × ℕ
unfolding entry_key entry_val
next_loop zero m p = (record { key = map_keymask; val = map_unset_val }, p)
next_loop (suc left) m p =
    let rest = next_loop left m (p + 1) in
    let pair = entry_at m p in
    if not (pair == map_unset)
    then (record { key = entry_key pair; val = entry_val pair }, p + 1)
    else rest

unfoldable pub nextkvpair : HMap → ℕ → KvPair × ℕ
unfolding next_loop
nextkvpair m p = next_loop (m.capacity - p) m p
