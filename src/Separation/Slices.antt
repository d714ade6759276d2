-- ===== src/Separation/Slices.antt =====
-- The separation of the edges is read back from the edges made of it: src/arch/portable.h, common.h.
use h.Base.{
  leb→le, subst, ℕ, zero, suc, ◌+◌, ◌-◌, ◌*◌, ◌/◌, ◌%◌, ◌<◌, ◌≤◌, false, List, [], ◌∷◌, ◌≡◌, refl,
  sym, ap, ◌∙◌, leb, get_or, set, arith, Bool-cases, inl, inr,
}
use h.Separation.{
  binomial, coord_esep_loop, coord_esep, esep_array_loop, invcoord_esep_array, invcoord_esep,
}
use h.Separation.Combinations.{comb, comb_upper}
use h.Separation.Kept.{
  Ready, bound_1, bound_2_lem, Ready-top, bound_1_lem, Ready-middle, middle_some, Ready-first,
  first_free,
}
use h.Separation.Steps.{array_top, array_middle, array_first, coord_top, coord_middle, coord_first}

above : (b c x : ℕ) → b ≡ c → leb b x ≡ false → x < c
above b c x e h = ground (arith, e)

comb_none : (l x : ℕ) → x < comb 0 l → x ≡ 0
unfolding comb
comb_none zero x h = omega arith
comb_none (suc l) x h = absurd (omega arith)

-- The two numbers are read back from the edges that the loop makes of them.
esep_loops :
    (left m set1 set2 i j k l ret1 ret2 : ℕ) (slice : List ℕ)
    → Ready left m set1 set2 i j k l slice
    → coord_esep_loop (esep_array_loop left set1 set2 i j k l slice) i j k l ret1 ret2
      ≡ (ret1 + set2) * 70 + (ret2 + set1)
unfolding coord_esep_loop esep_array_loop
esep_loops zero m set1 set2 i j k l ret1 ret2 slice r =
    let m0 : m ≡ 0 = omega (arith, r.places, r.others, r.taken) in
    let k0 : k ≡ 0 = omega (arith, r.places, r.others, r.taken) in
    omega (
      arith,
      comb_none k set2 r.set2_small,
      comb_none l set1 (subst (λ n. set1 < comb n l) m0 r.set1_small),
    )
esep_loops (suc left) m set1 set2 i j k l ret1 ret2 slice r =
    let v : get_or (get_or binomial (11 - i) []) k 0 ≡ comb left k =
      bound_2_lem left m set1 set2 i j k l slice r in
    elim (Bool-cases (leb (get_or (get_or binomial (11 - i) []) k 0) set2)) [
      | inl top ↦
          let h : comb left k ≤ set2 = omega (arith, leb→le _ _ top, v) in
          ap (λ t. coord_esep_loop t i j k l ret1 ret2) (array_top left set1 set2 i j k l slice top)
          ∙ coord_top (get_or slice 2 0)
              (esep_array_loop left set1 (set2 - get_or (get_or binomial (11 - i) []) k 0) (i + 1) j
                (k - 1) l (set slice 2 (get_or slice 2 0 + 1)))
              i j k l ret1 ret2
              (omega (arith, r.slice_2, (comb_upper left k set2 h r.set2_small).0))
          ∙ esep_loops left m set1 (set2 - get_or (get_or binomial (11 - i) []) k 0) (i + 1) j
              (k - 1) l (ret1 + get_or (get_or binomial (11 - i) []) k 0) ret2 _
              (subst
                (λ c.
                  Ready left m set1 (set2 - c) (i + 1) j (k - 1) l
                    (set slice 2 (get_or slice 2 0 + 1)))
                (sym v) (Ready-top left m set1 set2 i j k l slice r h))
          ∙ omega (arith, h, v)
      | inr below ↦
          let h : set2 < comb left k = above _ _ _ v below in
          let w : bound_1 j l ≡ comb (m - 1) l = bound_1_lem left m set1 set2 i j k l slice r h in
          elim (Bool-cases (leb (bound_1 j l) set1)) [
            | inl middle ↦
                let g : comb (m - 1) l ≤ set1 = omega (arith, leb→le _ _ middle, w) in
                let next = Ready-middle left m set1 set2 i j k l slice r h g in
                ap (λ t. coord_esep_loop t i j k l ret1 ret2)
                  (array_middle left set1 set2 i j k l slice below middle)
                ∙ coord_middle (get_or slice 1 0)
                    (esep_array_loop left (set1 - bound_1 j l) set2 (i + 1) (j + 1) k (l - 1)
                      (set slice 1 (get_or slice 1 0 + 1)))
                    i j k l ret1 ret2
                    (omega (arith, r.slice_1, middle_some left m set1 set2 i j k l slice r h g))
                ∙ esep_loops left (m - 1) (set1 - bound_1 j l) set2 (i + 1) (j + 1) k (l - 1) ret1
                    (ret2 + bound_1 j l) _
                    (subst
                      (λ c.
                        Ready left (m - 1) (set1 - c) set2 (i + 1) (j + 1) k (l - 1)
                          (set slice 1 (get_or slice 1 0 + 1)))
                      (sym w) next)
                ∙ omega (arith, g, w)
            | inr first ↦
                let g : set1 < comb (m - 1) l = above _ _ _ w first in
                ap (λ t. coord_esep_loop t i j k l ret1 ret2)
                  (array_first left set1 set2 i j k l slice below first)
                ∙ coord_first (get_or slice 0 0)
                    (esep_array_loop left set1 set2 (i + 1) (j + 1) k l
                      (set slice 0 (get_or slice 0 0 + 1)))
                    i j k l ret1 ret2 (first_free left m set1 set2 i j k l slice r h g)
                ∙ esep_loops left (m - 1) set1 set2 (i + 1) (j + 1) k l ret1 ret2 _
                    (Ready-first left m set1 set2 i j k l slice r h g)
          ]
    ]

-- Of the 495 * 70 separations of the edges, each is the one of the cube that is made of it.
pub coord_esep-invcoord_esep : (esep : ℕ) → esep < 34650 → coord_esep (invcoord_esep esep) ≡ esep
unfolding coord_esep invcoord_esep invcoord_esep_array comb
coord_esep-invcoord_esep esep h =
    esep_loops 12 8 (esep % 70) (esep / 70) 0 0 4 4 0 0 (0 ∷ 0 ∷ 0 ∷ []) (record {
      places = refl;
      others = refl;
      taken = refl;
      k_small = omega arith;
      l_small = omega arith;
      set2_small = omega arith;
      set1_small = omega arith;
      slice_0 = refl;
      slice_1 = refl;
      slice_2 = refl;
      three = refl;
    })
    ∙ omega arith
