-- ===== src/Coord/Orbits.antt =====
-- The classes of `coord_gendata_generic` of src/solvers/coord/common.h are the orbits of its symmetries.
use h.Base.{
  ℕ, zero, suc, ◌+◌, ◌<◌, ◌≤◌, true, List, ◌≡◌, sym, ap, ◌∙◌, inl, inr, ◌==◌, get_or, Bool-cases,
  arith, ℕ_discrete, subst,
}
use h.Transform.{transform}
use h.Coord.{SymCoord, in_mask, nasty_loop, class_round, class_loop, no_entry}
use h.Coord.Images.{Image}
use h.Coord.Steps.{class_loop-count, class_round-some, class_round-none}
use h.Coord.Rounds.{
  Filled, IsSymCoord, Filled-round, Image-≢, Image-subst, nasty_of, nasty_of_lt, filled, after, wr,
  covers, after_low, after_new, after_old,
}

-- A symmetry of the mask takes the cube of the value `i` to one of the value `j`.
unfoldable pub Linked : SymCoord → ℕ → ℕ → ℕ → Type 0
Linked s mask i j =
    (t : ℕ) × (t < 48) × (in_mask mask t ≡ true) × (s.coord (transform (s.cube i) t) ≡ j)

-- The symmetries of the mask act on the values: when a value is linked to one that another is linked to, the
-- first is linked to the other.
pub record IsOrbits (s : SymCoord) (mask : ℕ) : Type 0 where
  pub orbit :
      (i r j : ℕ)
      → i < s.max
      → r < s.max
      → Linked s mask i j
      → Linked s mask r j
      → Linked s mask r i

-- The word at `j` is that of the class `k`, whose nastiness is the one that the loop found.
pub record Owned (s : SymCoord) (mask k : ℕ) (words : List ℕ) (j : ℕ) : Type 0 where
  pub rep_lt : get_or words (s.max + k) 0 < s.max
  pub nasty : ℕ
  pub nasty_lt : nasty < 2
  pub nasty_found :
      nasty
      ≡ nasty_loop s mask (s.cube (get_or words (s.max + k) 0)) (get_or words (s.max + k) 0) 47 1
  pub image : Image s mask (s.cube (get_or words (s.max + k) 0)) k nasty j (get_or words j 0)

-- All values linked to the representative of a class have the word of the class.
pub record Whole (s : SymCoord) (mask n : ℕ) (words : List ℕ) : Type 0 where
  pub owned :
      (k j : ℕ)
      → k < n
      → j < s.max
      → Linked s mask (get_or words (s.max + k) 0) j
      → Owned s mask k words j

module _ (s : SymCoord) (mask : ℕ) (h : IsSymCoord s mask) (o : IsOrbits s mask) where
  Owned-subst :
      {k j : ℕ} {words words' : List ℕ}
      → get_or words' (s.max + k) 0 ≡ get_or words (s.max + k) 0
      → get_or words' j 0 ≡ get_or words j 0
      → Owned s mask k words j
      → Owned s mask k words' j
  Owned-subst {k} {j} {words} {words'} er ew w = record {
    rep_lt = omega (arith, er, w.rep_lt);
    nasty = w.nasty;
    nasty_lt = w.nasty_lt;
    nasty_found = w.nasty_found ∙ ap (λ r. nasty_loop s mask (s.cube r) r 47 1) (sym er);
    image = Image-subst s mask h er ew w.image;
  }

  Owned-new :
      (i n : ℕ) (words : List ℕ) (hi : i < s.max) (hn : n < s.classes) (f : Filled s mask i n words)
      (j : ℕ)
      → j < s.max
      → Linked s mask i j
      → Owned s mask n (after s mask h i n words hi hn f) j
  unfolding Linked nasty_of
  Owned-new i n words hi hn f j hj (u, hu, m, e) =
      let rep = after_new s mask h i n words hi hn f in
      let now = filled s mask h i n words hi hn f in
      let image : Image s mask (s.cube i) n (nasty_of s mask h i n words hi hn f) j
          (get_or now j 0) =
        subst
          (λ x. Image s mask (s.cube i) n (nasty_of s mask h i n words hi hn f) x (get_or now x 0))
          e (covers s mask h i n words hi hn f u hu m) in
      record {
        rep_lt = omega (arith, rep, hi);
        nasty = nasty_of s mask h i n words hi hn f;
        nasty_lt = nasty_of_lt s mask h i n words hi hn f;
        nasty_found = ap (λ r. nasty_loop s mask (s.cube r) r 47 1) (sym rep);
        image = Image-subst s mask h rep (after_low s mask h i n words hi hn f j hj) image;
      }

  Whole-after :
      (i n : ℕ) (words : List ℕ) (hi : i < s.max) (hn : n < s.classes) (f : Filled s mask i n words)
      → get_or words i 0 ≡ no_entry
      → Whole s mask n words
      → Whole s mask (n + 1) (after s mask h i n words hi hn f)
  unfolding Linked
  Whole-after i n words hi hn f free w = record {
    owned = λ k j hk hj link. elim (ℕ_discrete k n) [
      | yes e ↦
          let new = after s mask h i n words hi hn f in
          let rep : get_or new (s.max + k) 0 ≡ i =
            ap (λ x. get_or new (s.max + x) 0) e ∙ after_new s mask h i n words hi hn f in
          subst (λ x. Owned s mask x new j) (sym e)
            (Owned-new i n words hi hn f j hj (subst (λ r. Linked s mask r j) rep link))
      | no ne ↦
          let old : k < n = omega (arith, ne) in
          let er = after_old s mask h i n words hi hn f k old in
          let link' : Linked s mask (get_or words (s.max + k) 0) j =
            subst (λ r. Linked s mask r j) er link in
          let own = w.owned k j old hj link' in
          elim ((wr s mask h i n words hi hn f).each j) [
            | inl same ↦ Owned-subst er (after_low s mask h i n words hi hn f j hj ∙ same) own
            | inr m ↦
                let at_i = w.owned k i old hi (
                  o.orbit i (get_or words (s.max + k) 0) j hi (f.reps k old)
                    (m.by, m.by_lt, m.by_in, m.is_image) link') in
                absurd (Image-≢ s mask h (omega arith) at_i.nasty_lt at_i.image free)
          ]
    ];
  }

  Whole-round :
      (i : ℕ) (state : ℕ × List ℕ)
      → i < s.max
      → (class_round s mask i state).0 ≤ s.classes
      → Filled s mask i state.0 state.1
      → Whole s mask state.0 state.1
      → Whole s mask (class_round s mask i state).0 (class_round s mask i state).1
  unfolding after filled nasty_of
  Whole-round i (n, words) hi room f w = elim (Bool-cases (get_or words i 0 == no_entry)) [
    | inl e ↦
        let step = class_round-none s mask i n words e in
        subst (λ t. Whole s mask t.0 t.1) (sym step)
          (Whole-after i n words hi (omega (arith, room, ap (λ t. t.0) step)) f (ground (arith, e))
            w)
    | inr ne ↦ subst (λ t. Whole s mask t.0 t.1) (sym (class_round-some s mask i n words ne)) w
  ]

  pub Whole-loop :
      (left i : ℕ) (state : ℕ × List ℕ)
      → i + left ≤ s.max
      → (class_loop s mask left i state).0 ≤ s.classes
      → Filled s mask i state.0 state.1
      → Whole s mask state.0 state.1
      → Whole s mask (class_loop s mask left i state).0 (class_loop s mask left i state).1
  unfolding class_loop
  Whole-loop zero i state l room f w = w
  Whole-loop (suc left) i state l room f w =
      let next = class_round s mask i state in
      let room' : next.0 ≤ s.classes =
        omega (arith, class_loop-count s mask left (i + 1) next, room) in
      Whole-loop left (i + 1) next (omega arith) room
        (Filled-round s mask h i state (omega arith) room' f)
        (Whole-round i state (omega arith) room' f w)
