-- ===== src/Coord/Images.antt =====
-- The loop of src/solvers/coord/common.h that writes the word of a class at the images of its representative.
use h.Base.{
  ℕ, zero, suc, ◌+◌, ◌<◌, ◌≤◌, true, List, ◌≡◌, refl, sym, ap, ◌∙◌, ◌⊎◌, inl, inr, length, get_or,
  set, length-set, get_or-set_self, get_or-set_ne, Bool-cases, arith, ℕ_discrete, subst,
}
use h.Cube.{Cube}
use h.Transform.{transform}
use h.Coord.{SymCoord, in_mask, class_entry, fill_loop}

module _ (s : SymCoord) (mask : ℕ) (c : Cube) (n nasty : ℕ) where
  -- `w` is the word of the class at an image `j` of the cube.
  pub record Image (j w : ℕ) : Type 0 where
    pub by : ℕ
    pub by_lt : by < 48
    pub by_in : in_mask mask by ≡ true
    pub is_image : s.coord (transform c by) ≡ j
    pub is_word : w ≡ class_entry n nasty by

  -- Only words at images of the cube are changed.
  pub record Written (words words' : List ℕ) : Type 0 where
    pub size : length words' ≡ length words
    pub each : (j : ℕ) → (get_or words' j 0 ≡ get_or words j 0) ⊎ Image j (get_or words' j 0)

  Written-trans : (a b d : List ℕ) → Written a b → Written b d → Written a d
  Written-trans a b d p q = record {
    size = q.size ∙ p.size;
    each = λ j. elim (q.each j) [
      | inl same ↦ elim (p.each j) [
        | inl same' ↦ inl (same ∙ same')
        | inr image ↦ inr (subst (λ w. Image j w) (sym same) image)
      ]
      | inr image ↦ inr image
    ];
  }

  Written-set :
      (words : List ℕ) (t : ℕ)
      → t < 48
      → in_mask mask t ≡ true
      → s.coord (transform c t) < length words
      → Written words (set words (s.coord (transform c t)) (class_entry n nasty t))
  Written-set words t ht hm room = record {
    size = length-set words _ _;
    each = λ j. elim (ℕ_discrete (s.coord (transform c t)) j) [
      | yes e ↦ inr (record {
        by = t;
        by_lt = ht;
        by_in = hm;
        is_image = e;
        is_word =
            ap (λ k. get_or (set words (s.coord (transform c t)) (class_entry n nasty t)) k 0)
              (sym e)
            ∙ get_or-set_self words (s.coord (transform c t)) (class_entry n nasty t) 0 room;
      })
      | no ne ↦ inl (get_or-set_ne words _ j _ 0 ne)
    ];
  }

  module _
      (range : (t : ℕ) → t < 48 → in_mask mask t ≡ true → s.coord (transform c t) < s.max) where
    pub fill_loop-Written :
        (left t : ℕ) (words : List ℕ)
        → t + left ≤ 48
        → s.max ≤ length words
        → Written words (fill_loop s mask c n nasty left t words)
    unfolding fill_loop
    fill_loop-Written zero t words h room = record { size = refl; each = λ j. inl refl }
    fill_loop-Written (suc left) t words h room = elim (Bool-cases (in_mask mask t)) [
      | inl yes_in ↦ rw yes_in (
          Written-trans words (set words (s.coord (transform c t)) (class_entry n nasty t)) _
            (Written-set words t (omega arith) yes_in (omega (arith, range t (omega arith) yes_in)))
            (fill_loop-Written left (t + 1)
              (set words (s.coord (transform c t)) (class_entry n nasty t)) (omega arith)
              (omega (arith, length-set words (s.coord (transform c t)) (class_entry n nasty t)))))
      | inr no_in ↦ rw no_in (fill_loop-Written left (t + 1) words (omega arith) room)
    ]

    -- Every image by a symmetry that the loop passes gets the word of the class.
    pub fill_loop-covers :
        (left t u : ℕ) (words : List ℕ)
        → t ≤ u
        → u < t + left
        → t + left ≤ 48
        → in_mask mask u ≡ true
        → s.max ≤ length words
        → Image
            (s.coord (transform c u))
            (get_or (fill_loop s mask c n nasty left t words) (s.coord (transform c u)) 0)
    unfolding fill_loop
    fill_loop-covers zero t u words low high h hu room = absurd (omega arith)
    fill_loop-covers (suc left) t u words low high h hu room = elim (ℕ_discrete t u) [
      | yes e ↦
          let entry = class_entry n nasty t in
          let j = s.coord (transform c u) in
          let now : in_mask mask t ≡ true = ap (in_mask mask) e ∙ hu in
          let start = set words (s.coord (transform c t)) entry in
          let place : s.coord (transform c t) ≡ j = ap (λ k. s.coord (transform c k)) e in
          let at_j : get_or start j 0 ≡ entry =
            ap (λ k. get_or start k 0) (sym place)
            ∙ get_or-set_self words (s.coord (transform c t)) entry 0
                (omega (arith, range t (omega arith) now)) in
          let rest : Written start (fill_loop s mask c n nasty left (t + 1) start) =
            fill_loop-Written left (t + 1) start (omega arith)
              (omega (arith, length-set words (s.coord (transform c t)) entry)) in
          let image : Image j entry = record {
            by = t;
            by_lt = omega arith;
            by_in = now;
            is_image = place;
            is_word = refl;
          } in
          rw now (elim (rest.each j) [
            | inl same ↦ subst (λ w. Image j w) (sym (same ∙ at_j)) image
            | inr other ↦ other
          ])
      | no ne ↦ elim (Bool-cases (in_mask mask t)) [
        | inl yes_in ↦ rw yes_in (
            fill_loop-covers left (t + 1) u
              (set words (s.coord (transform c t)) (class_entry n nasty t)) (omega (arith, ne))
              (omega arith) (omega arith) hu
              (omega (arith, length-set words (s.coord (transform c t)) (class_entry n nasty t))))
        | inr no_in ↦ rw no_in (
            fill_loop-covers left (t + 1) u words (omega (arith, ne)) (omega arith) (omega arith) hu
              room)
      ]
    ]
