-- ===== src/Separation/Kept.antt =====
-- What the loop of `invcoord_esep_array` of src/arch/common.h keeps.
use h.Base.{
  ◌⊎◌, subst, ℕ_discrete, ℕ, zero, suc, ◌+◌, ◌-◌, ◌*◌, ◌<◌, ◌≤◌, true, false, List, [], ◌≡◌, ap,
  ◌∙◌, ltb, leb, of_bool, get_or, set, length, length-set, get_or-set_self, get_or-set_ne, arith,
  inl, inr,
}
use h.Separation.{binomial}
use h.Separation.Combinations.{comb, binomial_lem, comb_zero, comb_upper}

ltb_cases : (a b : ℕ) → (a < b) ⊎ (b ≤ a)
ltb_cases a b = omega arith

-- What the loop keeps, with `left` edges to come, `m` of them or more outside of the last slice.
pub record Ready (left m set1 set2 i j k l : ℕ) (slice : List ℕ) : Type 0 where
  pub places : i + left ≡ 12
  pub others : m + j ≡ 8
  pub taken : i + k ≡ j + 4
  pub k_small : k ≤ 4
  pub l_small : l ≤ 4
  pub set2_small : set2 < comb left k
  pub set1_small : set1 < comb m l
  pub slice_0 : get_or slice 0 0 + 4 ≡ j + l
  pub slice_1 : get_or slice 1 0 + l ≡ 4
  pub slice_2 : get_or slice 2 0 + k ≡ 4
  pub three : length slice ≡ 3

-- The bound `w` of the first set: 0 if no place is left for it.
unfoldable pub bound_1 : ℕ → ℕ → ℕ
bound_1 j l = of_bool (ltb j 8) * get_or (get_or binomial (7 - j * of_bool (ltb j 8)) []) l 0

module _ (left m set1 set2 i j k l : ℕ) (slice : List ℕ)
    (ready : Ready (suc left) m set1 set2 i j k l slice) where
  open ready use {
    places, others, taken, k_small, l_small, set2_small, set1_small, slice_0, slice_1, slice_2,
    three,
  }

  pub bound_2_lem : get_or (get_or binomial (11 - i) []) k 0 ≡ comb left k
  bound_2_lem =
      binomial_lem (11 - i) k (omega (arith, places)) (omega (arith, k_small))
      ∙ ap (λ n. comb n k) (omega (arith, places))

  -- An edge of the last slice.
  pub Ready-top :
      comb left k ≤ set2
      → Ready left m set1
          (set2 - comb left k)
          (i + 1)
          j
          (k - 1)
          l
          (set slice 2 (get_or slice 2 0 + 1))
  Ready-top h =
      let (some_left, small) = comb_upper left k set2 h set2_small in
      record {
        places = omega (arith, places);
        others = others;
        taken = omega (arith, taken);
        k_small = omega (arith, k_small);
        l_small = l_small;
        set2_small = small;
        set1_small = set1_small;
        slice_0 = omega (
          arith,
          get_or-set_ne slice 2 0 (get_or slice 2 0 + 1) 0 (λ e. omega (arith, e)),
          slice_0,
        );
        slice_1 = omega (
          arith,
          get_or-set_ne slice 2 1 (get_or slice 2 0 + 1) 0 (λ e. omega (arith, e)),
          slice_1,
        );
        slice_2 = omega (
          arith,
          get_or-set_self slice 2 (get_or slice 2 0 + 1) 0 (omega (arith, three)),
          slice_2,
        );
        three = length-set slice 2 (get_or slice 2 0 + 1) ∙ three;
      }

  -- There is a place outside of the last slice if this edge is not of it.
  some_other : set2 < comb left k → 0 < m
  some_other h = elim (ℕ_discrete m 0) [
    | yes e ↦ absurd (
        omega (
          arith,
          e,
          others,
          taken,
          places,
          h,
          comb_zero left k (omega (arith, e, others, taken, places)),
        ))
    | no ne ↦ omega (arith, ne)
  ]

  module _ (h : set2 < comb left k) where
    room : j < 8
    room = omega (arith, some_other h, others)

    pub bound_1_lem : bound_1 j l ≡ comb (m - 1) l
    unfolding bound_1
    bound_1_lem =
        let t : ltb j 8 ≡ true = ground (arith, room) in
        rw t (
          omega (
            arith,
            binomial_lem (7 - j * 1) l (omega arith) (omega (arith, l_small)),
            ap (λ n. comb n l) (let e : 7 - j * 1 ≡ m - 1 = omega (arith, room, others) in e),
          ))

    -- An edge of the middle slice.
    pub Ready-middle :
        comb (m - 1) l ≤ set1
        → Ready left
            (m - 1)
            (set1 - comb (m - 1) l)
            set2
            (i + 1)
            (j + 1)
            k
            (l - 1)
            (set slice 1 (get_or slice 1 0 + 1))
    Ready-middle g =
        let e : m ≡ suc (m - 1) = omega (arith, some_other h) in
        let (some_left, small) =
          comb_upper (m - 1) l set1 g (subst (λ n. set1 < comb n l) e set1_small) in
        record {
          places = omega (arith, places);
          others = omega (arith, others, room);
          taken = omega (arith, taken);
          k_small = k_small;
          l_small = omega (arith, l_small);
          set2_small = h;
          set1_small = small;
          slice_0 = omega (
            arith,
            get_or-set_ne slice 1 0 (get_or slice 1 0 + 1) 0 (λ e. omega (arith, e)),
            slice_0,
            some_left,
          );
          slice_1 = omega (
            arith,
            get_or-set_self slice 1 (get_or slice 1 0 + 1) 0 (omega (arith, three)),
            slice_1,
            some_left,
          );
          slice_2 = omega (
            arith,
            get_or-set_ne slice 1 2 (get_or slice 1 0 + 1) 0 (λ e. omega (arith, e)),
            slice_2,
          );
          three = length-set slice 1 (get_or slice 1 0 + 1) ∙ three;
        }

    pub middle_some : comb (m - 1) l ≤ set1 → 0 < l
    middle_some g =
        let e : m ≡ suc (m - 1) = omega (arith, some_other h) in
        (comb_upper (m - 1) l set1 g (subst (λ n. set1 < comb n l) e set1_small)).0

    -- An edge of the first slice.
    pub Ready-first :
        set1 < comb (m - 1) l
        → Ready left (m - 1) set1 set2 (i + 1) (j + 1) k l (set slice 0 (get_or slice 0 0 + 1))
    Ready-first g = record {
      places = omega (arith, places);
      others = omega (arith, others, room);
      taken = omega (arith, taken);
      k_small = k_small;
      l_small = l_small;
      set2_small = h;
      set1_small = g;
      slice_0 =
          omega (
            arith,
            get_or-set_self slice 0 (get_or slice 0 0 + 1) 0 (omega (arith, three)),
            slice_0,
          );
      slice_1 = omega (
        arith,
        get_or-set_ne slice 0 1 (get_or slice 0 0 + 1) 0 (λ e. omega (arith, e)),
        slice_1,
      );
      slice_2 = omega (
        arith,
        get_or-set_ne slice 0 2 (get_or slice 0 0 + 1) 0 (λ e. omega (arith, e)),
        slice_2,
      );
      three = length-set slice 0 (get_or slice 0 0 + 1) ∙ three;
    }

    pub first_free : set1 < comb (m - 1) l → get_or slice 0 0 < 4
    first_free g = elim (ltb_cases (m - 1) l) [
      | inl full ↦ absurd (omega (arith, g, comb_zero (m - 1) l full))
      | inr free ↦ omega (arith, slice_0, others, some_other h, free)
    ]

above : (b c x : ℕ) → b ≡ c → leb b x ≡ false → x < c
above b c x e h = ground (arith, e)

comb_none : (l x : ℕ) → x < comb 0 l → x ≡ 0
unfolding comb
comb_none zero x h = omega arith
comb_none (suc l) x h = absurd (omega arith)
