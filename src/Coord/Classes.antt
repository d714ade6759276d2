-- ===== src/Coord/Classes.antt =====
-- The classes of the tables of src/solvers/coord/common.h as orbits, and the coordinate read back from the cubes
-- that `coord_cube_generic` makes.
use h.Base.{
  ℕ, zero, suc, ◌+◌, ◌*◌, ◌/◌, ◌%◌, ◌<◌, ◌≤◌, true, not, List, ◌≡◌, ◌≢◌, refl, sym, ap, ap₂, ◌∙◌,
  ◌⊎◌, inl, inr, ◌↔◌, ◌==◌, get_or, replicate, Bool-cases, arith, ℕ_discrete, some, subst,
}
use native.Mathlib.Nat.{mod-lt, div-add-mod}
use h.Cube.{Cube}
use h.Transform.{transform, inverse_trans}
use h.Coord.{
  SymCoord, CoordData, in_mask, nasty_loop, class_loop, no_entry, coord_class, coord_isnasty,
  coord_ttrep, coord_gendata_generic, coord_coord_generic, coord_cube_generic,
  coord_isnasty_generic,
}
use h.Coord.Entries.{class_entry-parts}
use h.Coord.Images.{Image}
use h.Coord.Rounds.{Filled, Filled-loop, IsSymCoord, transform-zero}
use h.Coord.Filled.{classes_found, Filled-start}
use h.Coord.Orbits.{Linked, IsOrbits, Whole, Whole-loop}

nasty_loop-zero :
    (s : SymCoord) (mask : ℕ) (c : Cube) (i left t u : ℕ)
    → nasty_loop s mask c i left t ≡ 0
    → t ≤ u
    → u < t + left
    → in_mask mask u ≡ true
    → s.coord (transform c u) ≢ i
unfolding nasty_loop
nasty_loop-zero s mask c i zero t u z low high m e = omega arith
nasty_loop-zero s mask c i (suc left) t u z low high m e =
    let at_t : t ≡ u → (in_mask mask t ≡ true) × (s.coord (transform c t) ≡ i) =
      λ p. (ap (in_mask mask) p ∙ m, ap (λ x. s.coord (transform c x)) p ∙ e) in
    let later : nasty_loop s mask c i left (t + 1) ≡ 0 → t ≢ u → ⊥ =
      λ z' ne. nasty_loop-zero s mask c i left (t + 1) u z' (omega (arith, ne)) (omega arith) m e in
    elim (Bool-cases (in_mask mask t)) [
      | inl inside ↦ elim (Bool-cases (i == s.coord (transform c t))) [
        | inl hit ↦
            let one : nasty_loop s mask c i (suc left) t ≡ 1 = rw (inside, hit) refl in
            omega (arith, one, z)
        | inr miss ↦
            let rest : nasty_loop s mask c i (suc left) t ≡ nasty_loop s mask c i left (t + 1) =
              rw (inside, miss) refl in
            later (sym rest ∙ z) (λ p. ground (arith, miss, (at_t p).1))
      ]
      | inr outside ↦
          let rest : nasty_loop s mask c i (suc left) t ≡ nasty_loop s mask c i left (t + 1) =
            rw outside refl in
          later (sym rest ∙ z) (λ p. ground (arith, outside, (at_t p).0))
    ]

module _ (s : SymCoord) (mask : ℕ) (h : IsSymCoord s mask) (o : IsOrbits s mask)
    (room : classes_found s mask ≤ s.classes) where
  words_of : List ℕ
  words_of = (class_loop s mask s.max 0 (0, replicate (s.classes + s.max) no_entry)).1

  words-Filled : Filled s mask s.max (classes_found s mask) words_of
  unfolding words_of classes_found
  words-Filled =
      subst (λ i. Filled s mask i (classes_found s mask) words_of) (omega arith)
        (Filled-loop s mask h s.max 0 (0, replicate (s.classes + s.max) no_entry) (omega arith) room
          (Filled-start s mask))

  words-Whole : Whole s mask (classes_found s mask) words_of
  unfolding words_of classes_found
  words-Whole =
      Whole-loop s mask h o s.max 0 (0, replicate (s.classes + s.max) no_entry) (omega arith) room
        (Filled-start s mask) (record { owned = λ k j hk hj link. absurd (omega arith) })

  Linked-refl : (j : ℕ) → j < s.max → Linked s mask j j
  unfolding Linked
  Linked-refl j hj = (0, omega arith, h.here, ap s.coord (transform-zero (s.cube j)) ∙ h.back j hj)

  Linked-sym : {i j : ℕ} → i < s.max → j < s.max → Linked s mask i j → Linked s mask j i
  Linked-sym {i} {j} hi hj link = o.orbit i j j hi hj link (Linked-refl j hj)

  Linked-trans :
      {i j k : ℕ}
      → i < s.max
      → j < s.max
      → k < s.max
      → Linked s mask i j
      → Linked s mask j k
      → Linked s mask i k
  Linked-trans {i} {j} {k} hi hj hk a b = o.orbit k i j hk hi (Linked-sym hj hk b) a

  rep_of : ℕ → ℕ
  rep_of k = get_or words_of (s.max + k) 0

  word_parts :
      {c : Cube} {k nasty j : ℕ}
      → k < classes_found s mask
      → nasty < 2
      → (m : Image s mask c k nasty j (get_or words_of j 0))
      → (coord_class (get_or words_of j 0) ≡ k)
        × (coord_isnasty (get_or words_of j 0) ≡ nasty)
        × (coord_ttrep (get_or words_of j 0) ≡ inverse_trans m.by)
  word_parts {c} {k} {nasty} {j} hk hn m =
      let (a, b, d) = class_entry-parts k nasty m.by (omega (arith, room, h.few)) hn m.by_lt in
      (ap coord_class m.is_word ∙ a, ap coord_isnasty m.is_word ∙ b, ap coord_ttrep m.is_word ∙ d)

  -- The class of a value, whose representative is linked to it.
  class_of :
      (j : ℕ)
      → j < s.max
      → (k : ℕ) × (k < classes_found s mask)
        × (coord_class (get_or words_of j 0) ≡ k)
        × (rep_of k < s.max)
        × Linked s mask (rep_of k) j
  unfolding rep_of Linked
  class_of j hj = elim (words-Filled.words_good j hj) [
    | inl free ↦ absurd (words-Filled.passed j hj free)
    | inr g ↦ (
      g.class,
      g.class_lt,
      (word_parts g.class_lt g.nasty_lt g.image).0,
      words-Filled.reps g.class g.class_lt,
      (g.image.by, g.image.by_lt, g.image.by_in, g.image.is_image),
    )
  ]

  classes_iff :
      (i j : ℕ)
      → i < s.max
      → j < s.max
      → (coord_class (get_or words_of i 0) ≡ coord_class (get_or words_of j 0)) ↔ Linked s mask i j
  unfolding rep_of
  classes_iff i j hi hj =
      let (k, hk, ck, rk, lk) = class_of i hi in
      let (k', hk', ck', rk', lk') = class_of j hj in
      (
        λ e.
            let same : k' ≡ k = sym ck' ∙ sym e ∙ ck in
            Linked-trans hi rk hj (Linked-sym rk hi lk)
              (subst (λ x. Linked s mask (rep_of x) j) same lk'),
        λ link.
            let own = words-Whole.owned k j hk hj (Linked-trans rk hi hj lk link) in
            ck ∙ sym (word_parts hk own.nasty_lt own.image).0,
      )

  -- The representative of a class that is not nasty has its class and the identity in its word.
  representative :
      (k : ℕ)
      → k < classes_found s mask
      → (not (coord_isnasty (get_or words_of (rep_of k) 0) == 0) ≡ true)
        ⊎ ((coord_class (get_or words_of (rep_of k) 0) ≡ k)
            × (coord_ttrep (get_or words_of (rep_of k) 0) ≡ 0)
            × (s.coord (s.cube (rep_of k)) ≡ rep_of k))
  unfolding rep_of inverse_trans
  representative k hk =
      let r = rep_of k in
      let hr : r < s.max = words-Filled.reps k hk in
      let own = words-Whole.owned k r hk hr (Linked-refl r hr) in
      let (c, ns, t) = word_parts hk own.nasty_lt own.image in
      elim (ℕ_discrete own.nasty 0) [
        | yes z ↦ elim (ℕ_discrete own.image.by 0) [
          | yes first ↦ inr (c, t ∙ ap inverse_trans first, h.back r hr)
          | no ne ↦ absurd (
              nasty_loop-zero s mask (s.cube r) r 47 1 own.image.by (sym own.nasty_found ∙ z)
                (omega (arith, ne)) own.image.by_lt own.image.by_in own.image.is_image)
        ]
        | no ne ↦ inl (ground (arith, ns, ne))
      ]

-- The two coordinates do not disturb each other in the cube that is merged of theirs.
pub record IsMerged (s : SymCoord) : Type 0 where
  pub first : (c d : Cube) → s.coord (s.merge c d) ≡ s.coord c
  pub second : (c : Cube) (k : ℕ) → k < s.max2 → s.coord2 (s.merge c (s.cube2 k)) ≡ k
  pub some2 : 0 < s.max2

-- After `coord_gendata_generic` two values have the same class exactly when a symmetry of the mask takes the
-- cube of the one to a cube of the other. The coordinate satisfies `IsSymCoord`, the mask acts on its values, and
-- there are no more classes than the table has room for.
pub coord_class_iff :
    (s : SymCoord) (mask : ℕ) (name : List ℕ) (old : CoordData) (i j : ℕ)
    → IsSymCoord s mask
    → IsOrbits s mask
    → classes_found s mask ≤ s.classes
    → i < s.max
    → j < s.max
    → (table : CoordData) × ((coord_gendata_generic s mask name (some old)).1 ≡ some table)
      × ((coord_class (get_or table.words i 0) ≡ coord_class (get_or table.words j 0))
          ↔ Linked s mask i j)
unfolding coord_gendata_generic words_of
coord_class_iff s mask name old i j h o room hi hj =
    (_, refl, classes_iff s mask h o room i j hi hj)

coord_coord_generic-made :
    (s : SymCoord) (table : CoordData) (i : ℕ)
    → IsMerged s
    → s.coord (s.cube (get_or table.words (s.max + i / s.max2) 0))
      ≡ get_or table.words (s.max + i / s.max2) 0
    → coord_class (get_or table.words (get_or table.words (s.max + i / s.max2) 0) 0) ≡ i / s.max2
    → coord_ttrep (get_or table.words (get_or table.words (s.max + i / s.max2) 0) 0) ≡ 0
    → coord_coord_generic s (coord_cube_generic s i table) table ≡ i
unfolding coord_coord_generic coord_cube_generic
coord_coord_generic-made s table i m back class here =
    let r = get_or table.words (s.max + i / s.max2) 0 in
    let made = s.merge (s.cube r) (s.cube2 (i % s.max2)) in
    let at_r : s.coord made ≡ r = m.first (s.cube r) (s.cube2 (i % s.max2)) ∙ back in
    let small : i % s.max2 < s.max2 = mod-lt i m.some2 in
    ap
      (λ x.
        coord_class (get_or table.words x 0) * s.max2
        + s.coord2 (transform made (coord_ttrep (get_or table.words x 0))))
      at_r
    ∙ ap₂ (λ k t. k * s.max2 + s.coord2 (transform made t)) class here
    ∙ ap (λ d. i / s.max2 * s.max2 + s.coord2 d) (transform-zero made)
    ∙ ap (λ x. i / s.max2 * s.max2 + x) (m.second (s.cube r) (i % s.max2) small)
    ∙ omega (arith, div-add-mod i s.max2)

-- With the table of `coord_gendata_generic`, a value whose class was found is nasty or is read back from the
-- cube that `coord_cube_generic` makes of it. The coordinate satisfies `IsSymCoord`, the mask acts on its values,
-- merging keeps both coordinates, and there are no more classes than the table has room for.
pub coord_coord_generic-coord_cube_generic :
    (s : SymCoord) (mask : ℕ) (name : List ℕ) (old : CoordData) (i : ℕ)
    → IsSymCoord s mask
    → IsOrbits s mask
    → IsMerged s
    → classes_found s mask ≤ s.classes
    → i / s.max2 < classes_found s mask
    → (table : CoordData) × ((coord_gendata_generic s mask name (some old)).1 ≡ some table)
      × ((coord_isnasty_generic s i table ≡ true)
          ⊎ (coord_coord_generic s (coord_cube_generic s i table) table ≡ i))
unfolding coord_gendata_generic words_of rep_of coord_isnasty_generic
coord_coord_generic-coord_cube_generic s mask name old i h o m room hi = (
  _,
  refl,
  elim (representative s mask h o room (i / s.max2) hi) [
    | inl nasty ↦ inl nasty
    | inr (class, here, back) ↦ inr (coord_coord_generic-made s _ i m back class here)
  ],
)
