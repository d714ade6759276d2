-- ===== src/Tests/Maps.antt =====
-- Runs of the map, and its theorems at concrete maps.
use h.Base.{
  ℕ, ◌+◌, ◌≤◌, ◌<◌, true, List, [], ◌∷◌, none, some, ◌≡◌, refl, arith, if◌then◌else◌, ◌==◌, min,
  all_below, all_below_sound, ◌-◌,
}
use h.HashMap.{HMap, KvPair, map_unset_val, create, insertmin, value, goes_on}
use h.HashMap.Refine.{
  Represents, create-Represents, insertmin-Represents, insert_all, insert_all-create, least_of,
  Fits,
}
use h.HashMap.Iterate.{visit_pairs, pairs_in, visit_pairs-pairs_in}

abbrev three : KvPair
three = record { key = 3; val = 9 }

abbrev ten : KvPair
ten = record { key = 10; val = 4 }

abbrev lower : KvPair
lower = record { key = 3; val = 2 }

abbrev seven_slots : HMap
seven_slots = create 7 1

abbrev inserts : List KvPair
inserts = three ∷ ten ∷ lower ∷ []

-- 3 and 10 collide.
abbrev filled : HMap
filled = elim (insert_all seven_slots inserts) [ none ↦ seven_slots | some m ↦ m ]

values :
    (value filled 3 ≡ some 2) × (value filled 10 ≡ some 4) × (value filled 4 ≡ some map_unset_val)
unfolding create insert_all value insertmin
values = (refl, refl, refl)

visited : visit_pairs filled ≡ lower ∷ ten ∷ []
unfolding create insert_all insertmin visit_pairs
visited = refl

new_room : (create 7 1).n + 1 < (create 7 1).capacity
unfolding create
new_room = omega arith

seven_slots-Represents : Represents seven_slots (λ y. map_unset_val)
seven_slots-Represents = create-Represents 7 1 (omega arith) (omega arith)

insertmin-Represents_example :
    (m' : HMap) × (insertmin (create 7 1) 3 9 ≡ some m')
    × Represents m' (λ y. if y == 3 then min 9 map_unset_val else map_unset_val)
    × (m'.capacity ≡ (create 7 1).capacity)
    × (m'.n ≤ (create 7 1).n + 1)
insertmin-Represents_example =
    insertmin-Represents (create 7 1) (λ y. map_unset_val) 3 9 seven_slots-Represents new_room
      (omega arith) (omega arith)

insert_all-create_example :
    (m : HMap) × (insert_all (create 7 1) inserts ≡ some m)
    × ((y : ℕ) → value m y ≡ some (least_of map_unset_val y inserts))
insert_all-create_example =
    insert_all-create 7 1 inserts (omega arith) (omega arith) (omega arith) fit
  where
    fit : Fits inserts
    fit = Fits.one_more (omega arith) (omega arith) (
        Fits.one_more (omega arith) (omega arith)
          (Fits.one_more (omega arith) (omega arith) Fits.none_left))

filled_pos : 0 < filled.capacity
unfolding create insert_all insertmin
filled_pos = omega arith

visit_pairs-pairs_in_example : visit_pairs filled ≡ pairs_in (filled.capacity - 1) filled 0
visit_pairs-pairs_in_example = visit_pairs-pairs_in filled filled_pos

-- A table of two slots, both in use.
abbrev full : HMap
full = elim (insert_all (create 2 1) (three ∷ ten ∷ [])) [ none ↦ seven_slots | some m ↦ m ]

-- The pair in its last slot is not visited.
skipped : visit_pairs full ≡ ten ∷ []
unfolding create insert_all insertmin visit_pairs
skipped = refl

full_everywhere : (i : ℕ) → i < full.capacity → goes_on full 5 i ≡ true
unfolding create insert_all insertmin goes_on all_below
full_everywhere i h = all_below_sound 2 (goes_on full 5) i refl h

full_slots : 1 < full.capacity
unfolding create insert_all insertmin
full_slots = omega arith
