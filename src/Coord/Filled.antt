-- ===== src/Coord/Filled.antt =====
-- What `coord_gendata_generic` of src/solvers/coord/common.h fills its table with.
use h.Base.{
  ℕ, ◌+◌, ◌<◌, ◌≤◌, true, List, ◌≡◌, refl, ap, ◌∙◌, inl, inr, ◌==◌, get_or, replicate,
  length-replicate, get_or-replicate, arith, all_below, all_below_sound, ==_iff, some,
}
use h.Transform.{transform, inverse_trans}
use h.Coord.{
  SymCoord, CoordData, in_mask, class_loop, no_entry, coord_class, coord_ttrep,
  coord_gendata_generic,
}
use h.Coord.Entries.{class_entry-parts}
use h.Coord.Rounds.{Filled, Filled-loop, IsSymCoord}

inverse_trans_table_lem : all_below 48 (λ t. inverse_trans (inverse_trans t) == t) ≡ true
unfolding all_below inverse_trans
inverse_trans_table_lem = refl

inverse_trans_inverse : (t : ℕ) → t < 48 → inverse_trans (inverse_trans t) ≡ t
inverse_trans_inverse t h =
    (==_iff (inverse_trans (inverse_trans t)) t).0
      (all_below_sound 48 (λ t. inverse_trans (inverse_trans t) == t) t inverse_trans_table_lem h)

-- The number of classes that the loop finds.
unfoldable pub classes_found : SymCoord → ℕ → ℕ
unfolding class_loop
classes_found s mask = (class_loop s mask s.max 0 (0, replicate (s.classes + s.max) no_entry)).0

-- The word at `j` names a class, and a symmetry whose inverse takes the representative of the class to `j`.
unfoldable pub Reached : SymCoord → ℕ → List ℕ → ℕ → Type 0
unfolding coord_class coord_ttrep
Reached s mask words j =
    let r = get_or words (s.max + coord_class (get_or words j 0)) 0 in
    let t = inverse_trans (coord_ttrep (get_or words j 0)) in
    (coord_class (get_or words j 0) < classes_found s mask)
    × (r < s.max)
    × (in_mask mask t ≡ true)
    × (s.coord (transform (s.cube r) t) ≡ j)

pub Filled-start :
    (s : SymCoord) (mask : ℕ) → Filled s mask 0 0 (replicate (s.classes + s.max) no_entry)
Filled-start s mask = record {
  size = length-replicate (s.classes + s.max) no_entry;
  words_good = λ j hj. inl (get_or-replicate (s.classes + s.max) j no_entry 0 (omega arith));
  passed = λ j hj. absurd (omega arith);
  reps = λ k hk. absurd (omega arith);
}

reached :
    (s : SymCoord) (mask : ℕ)
    → IsSymCoord s mask
    → classes_found s mask ≤ s.classes
    → (j : ℕ) → j < s.max
    → Reached s mask (class_loop s mask s.max 0 (0, replicate (s.classes + s.max) no_entry)).1 j
unfolding classes_found Reached
reached s mask h room j hj =
    let f =
      Filled-loop s mask h s.max 0 (0, replicate (s.classes + s.max) no_entry) (omega arith) room
        (Filled-start s mask) in
    elim (f.words_good j hj) [
      | inl none_here ↦ absurd (f.passed j (omega arith) none_here)
      | inr g ↦
          let (c, _, t) =
            class_entry-parts g.class g.nasty g.image.by (omega (arith, g.class_lt, room, h.few))
              g.nasty_lt g.image.by_lt in
          let words = (class_loop s mask s.max 0 (0, replicate (s.classes + s.max) no_entry)).1 in
          let class : coord_class (get_or words j 0) ≡ g.class =
            ap coord_class g.image.is_word ∙ c in
          let by : inverse_trans (coord_ttrep (get_or words j 0)) ≡ g.image.by =
            ap (λ w. inverse_trans (coord_ttrep w)) g.image.is_word
            ∙ ap inverse_trans t
            ∙ inverse_trans_inverse g.image.by g.image.by_lt in
          rw (class, by) (g.class_lt, f.reps g.class g.class_lt, g.image.by_in, g.image.is_image)
    ]

-- After `coord_gendata_generic` each value of the coordinate has a word that names a class below the number
-- of those found, and a symmetry of the mask whose inverse takes the representative of the class to the value.
-- The coordinate is read back from its cubes, its images under the mask stay below the maximum, and there
-- are no more classes than the table has room for.
pub coord_gendata_generic_lem :
    (s : SymCoord) (mask : ℕ) (name : List ℕ) (old : CoordData) (j : ℕ)
    → IsSymCoord s mask
    → classes_found s mask ≤ s.classes
    → j < s.max
    → (table : CoordData) × ((coord_gendata_generic s mask name (some old)).1 ≡ some table)
      × Reached s mask table.words j
unfolding coord_gendata_generic
coord_gendata_generic_lem s mask name old j h room hj = (_, refl, reached s mask h room j hj)
