-- ===== src/Coord/Rounds.antt =====
-- What the loop over the values in `coord_gendata_generic` of src/solvers/coord/common.h keeps.
use h.Base.{
  ℕ, zero, suc, ◌+◌, ◌^◌, ◌<◌, ◌≤◌, true, List, ◌≡◌, ◌≢◌, refl, sym, ap, ◌∙◌, ◌⊎◌, inl, inr, ◌==◌,
  length, get_or, set, length-set, get_or-set_self, get_or-set_ne, Bool-cases, arith, ℕ_discrete,
  subst,
}
use h.Cube.{Cube}
use h.Transform.{transform, trans_switch}
use h.Coord.{SymCoord, in_mask, nasty_loop, fill_loop, class_round, class_loop, no_entry}
use h.Coord.Entries.{class_entry-no_entry}
use h.Coord.Images.{Image, Written, fill_loop-Written, fill_loop-covers}
use h.Coord.Steps.{class_round-some, class_round-none, class_loop-count}

-- The word at `j` is that of an earlier class, by a symmetry that takes its representative there.
pub record Good (s : SymCoord) (mask n : ℕ) (words : List ℕ) (j : ℕ) : Type 0 where
  pub class : ℕ
  pub class_lt : class < n
  pub nasty : ℕ
  pub nasty_lt : nasty < 2
  pub image :
      Image s mask (s.cube (get_or words (s.max + class) 0)) class nasty j (get_or words j 0)

nasty_loop-lt :
    (s : SymCoord) (mask : ℕ) (c : Cube) (i left t : ℕ) → nasty_loop s mask c i left t < 2
unfolding nasty_loop
nasty_loop-lt s mask c i zero t = omega arith
nasty_loop-lt s mask c i (suc left) t = elim (Bool-cases (in_mask mask t)) [
  | inl yes_in ↦ elim (Bool-cases (i == s.coord (transform c t))) [
    | inl e ↦ rw (yes_in, e) (omega arith)
    | inr ne ↦ rw (yes_in, ne) (nasty_loop-lt s mask c i left (t + 1))
  ]
  | inr no_in ↦ rw no_in (nasty_loop-lt s mask c i left (t + 1))
]

pub transform-zero : (c : Cube) → transform c 0 ≡ c
unfolding transform trans_switch
transform-zero c = refl

-- The table after the loop has passed the values below `i` and found `n` classes.
pub record Filled (s : SymCoord) (mask i n : ℕ) (words : List ℕ) : Type 0 where
  pub size : length words ≡ s.classes + s.max
  pub words_good : (j : ℕ) → j < s.max → (get_or words j 0 ≡ no_entry) ⊎ Good s mask n words j
  pub passed : (j : ℕ) → j < i → get_or words j 0 ≢ no_entry
  pub reps : (k : ℕ) → k < n → get_or words (s.max + k) 0 < s.max

-- What the loop needs of a coordinate: the identity is among the symmetries, a value is that of the cube
-- made of it, and the images have values below the maximum. The classes are numbered in 16 bits.
pub record IsSymCoord (s : SymCoord) (mask : ℕ) : Type 0 where
  pub here : in_mask mask 0 ≡ true
  pub back : (i : ℕ) → i < s.max → s.coord (s.cube i) ≡ i
  pub range :
      (i t : ℕ)
      → i < s.max
      → t < 48
      → in_mask mask t ≡ true
      → s.coord (transform (s.cube i) t) < s.max
  pub few : s.classes ≤ 2 ^ 16

module _ (s : SymCoord) (mask : ℕ) (h : IsSymCoord s mask) where
  pub Image-≢ :
      {c : Cube} {n nasty j w : ℕ}
      → n < s.classes
      → nasty < 2
      → Image s mask c n nasty j w
      → w ≢ no_entry
  Image-≢ {c} {n} {nasty} hn hs m e =
      class_entry-no_entry n nasty m.by (omega (arith, h.few)) hs m.by_lt (sym m.is_word ∙ e)

  pub Image-subst :
      {r r' n nasty j w w' : ℕ}
      → r' ≡ r
      → w' ≡ w
      → Image s mask (s.cube r) n nasty j w
      → Image s mask (s.cube r') n nasty j w'
  Image-subst {r} {r'} {n} {nasty} {j} {w} {w'} er ew m =
      subst (λ x. Image s mask (s.cube x) n nasty j w') (sym er)
        (subst (λ x. Image s mask (s.cube r) n nasty j x) (sym ew) m)

  Good-subst :
      {n n' j : ℕ} {words words' : List ℕ}
      → n ≤ n'
      → ((k : ℕ) → k < n → get_or words' (s.max + k) 0 ≡ get_or words (s.max + k) 0)
      → get_or words' j 0 ≡ get_or words j 0
      → Good s mask n words j
      → Good s mask n' words' j
  Good-subst {n} {n'} le reps e g = record {
    class = g.class;
    class_lt = omega (arith, g.class_lt, le);
    nasty = g.nasty;
    nasty_lt = g.nasty_lt;
    image = Image-subst (reps g.class g.class_lt) e g.image;
  }

  -- A value that no class has makes a class of its own.
  module _ (i n : ℕ) (words : List ℕ) (hi : i < s.max) (hn : n < s.classes)
      (f : Filled s mask i n words) where
    unfoldable pub nasty_of : ℕ
    nasty_of = nasty_loop s mask (s.cube i) i 47 1

    pub nasty_of_lt : nasty_of < 2
    unfolding nasty_of
    nasty_of_lt = nasty_loop-lt s mask (s.cube i) i 47 1

    unfoldable pub filled : List ℕ
    filled = fill_loop s mask (s.cube i) n nasty_of 48 0 words

    unfoldable pub after : List ℕ
    after = set filled (s.max + n) i

    pub wr : Written s mask (s.cube i) n nasty_of words filled
    unfolding filled
    wr =
        fill_loop-Written s mask (s.cube i) n nasty_of (λ t p q. h.range i t hi p q) 48 0 words
          (omega arith) (omega (arith, f.size))

    pub covers :
        (u : ℕ)
        → u < 48
        → in_mask mask u ≡ true
        → Image s mask
            (s.cube i)
            n
            nasty_of
            (s.coord (transform (s.cube i) u))
            (get_or filled (s.coord (transform (s.cube i) u)) 0)
    unfolding filled
    covers u hu m =
        fill_loop-covers s mask (s.cube i) n nasty_of (λ t p q. h.range i t hi p q) 48 0 u words
          (omega arith) hu (omega arith) m (omega (arith, f.size))

    first : Image s mask (s.cube i) n nasty_of i (get_or filled i 0)
    first =
        subst (λ j. Image s mask (s.cube i) n nasty_of j (get_or filled j 0))
          (ap s.coord (transform-zero (s.cube i)) ∙ h.back i hi) (covers 0 (omega arith) h.here)

    pub after_low : (j : ℕ) → j < s.max → get_or after j 0 ≡ get_or filled j 0
    unfolding after
    after_low j hj = get_or-set_ne filled (s.max + n) j i 0 (λ e. omega (arith, e))

    pub after_new : get_or after (s.max + n) 0 ≡ i
    unfolding after
    after_new = get_or-set_self filled (s.max + n) i 0 (omega (arith, wr.size, f.size))

    pub after_old : (k : ℕ) → k < n → get_or after (s.max + k) 0 ≡ get_or words (s.max + k) 0
    unfolding after
    after_old k hk =
        get_or-set_ne filled (s.max + n) (s.max + k) i 0 (λ e. omega (arith, e))
        ∙ elim (wr.each (s.max + k)) [
          | inl same ↦ same
          | inr m ↦ absurd (omega (arith, m.is_image, h.range i m.by hi m.by_lt m.by_in))
        ]

    after-Good : (j : ℕ) → j < s.max → (get_or after j 0 ≡ no_entry) ⊎ Good s mask (n + 1) after j
    after-Good j hj = elim (wr.each j) [
      | inl same ↦ elim (f.words_good j hj) [
        | inl none_yet ↦ inl (after_low j hj ∙ same ∙ none_yet)
        | inr g ↦ inr (Good-subst (omega arith) after_old (after_low j hj ∙ same) g)
      ]
      | inr m ↦ inr (record {
        class = n;
        class_lt = omega arith;
        nasty = nasty_of;
        nasty_lt = nasty_of_lt;
        image = Image-subst after_new (after_low j hj) m;
      })
    ]

    after_passed : (j : ℕ) → j < i + 1 → get_or after j 0 ≢ no_entry
    after_passed j hj e = elim (ℕ_discrete j i) [
      | yes same ↦
          Image-≢ hn nasty_of_lt first
            (ap (λ k. get_or filled k 0) (sym same) ∙ sym (after_low j (omega arith)) ∙ e)
      | no ne ↦ elim (wr.each j) [
        | inl same ↦ f.passed j (omega (arith, ne)) (sym same ∙ sym (after_low j (omega arith)) ∙ e)
        | inr m ↦ Image-≢ hn nasty_of_lt m (sym (after_low j (omega arith)) ∙ e)
      ]
    ]

    after_reps : (k : ℕ) → k < n + 1 → get_or after (s.max + k) 0 < s.max
    after_reps k hk = elim (ℕ_discrete k n) [
      | yes same ↦ omega (arith, ap (λ x. get_or after (s.max + x) 0) same, after_new)
      | no ne ↦ omega (arith, after_old k (omega (arith, ne)), f.reps k (omega (arith, ne)))
    ]

    pub Filled-after : Filled s mask (i + 1) (n + 1) after
    unfolding after
    Filled-after = record {
      size = length-set filled (s.max + n) i ∙ wr.size ∙ f.size;
      words_good = after-Good;
      passed = after_passed;
      reps = after_reps;
    }

  pub Filled-round :
      (i : ℕ) (state : ℕ × List ℕ)
      → i < s.max
      → (class_round s mask i state).0 ≤ s.classes
      → Filled s mask i state.0 state.1
      → Filled s mask (i + 1) (class_round s mask i state).0 (class_round s mask i state).1
  unfolding after filled nasty_of
  Filled-round i (n, words) hi room f = elim (Bool-cases (get_or words i 0 == no_entry)) [
    | inl e ↦
        let step = class_round-none s mask i n words e in
        subst (λ t. Filled s mask (i + 1) t.0 t.1) (sym step)
          (Filled-after i n words hi (omega (arith, room, ap (λ t. t.0) step)) f)
    | inr ne ↦
        subst (λ t. Filled s mask (i + 1) t.0 t.1) (sym (class_round-some s mask i n words ne))
          (record {
            size = f.size;
            words_good = f.words_good;
            passed = λ j hj e. elim (ℕ_discrete j i) [
              | yes same ↦ absurd (ground (arith, ne, ap (λ k. get_or words k 0) (sym same) ∙ e))
              | no other ↦ f.passed j (omega (arith, other)) e
            ];
            reps = f.reps;
          })
  ]

  pub Filled-loop :
      (left i : ℕ) (state : ℕ × List ℕ)
      → i + left ≤ s.max
      → (class_loop s mask left i state).0 ≤ s.classes
      → Filled s mask i state.0 state.1
      → Filled s mask
          (i + left)
          (class_loop s mask left i state).0
          (class_loop s mask left i state).1
  unfolding class_loop
  Filled-loop zero i state h room f = subst (λ k. Filled s mask k state.0 state.1) (omega arith) f
  Filled-loop (suc left) i state h room f =
      let next = class_round s mask i state in
      subst
        (λ k.
          Filled s mask k (class_loop s mask left (i + 1) next).0
            (class_loop s mask left (i + 1) next).1)
        (omega arith)
        (Filled-loop left (i + 1) next (omega arith) room (
          Filled-round i state (omega arith)
            (omega (arith, class_loop-count s mask left (i + 1) next, room)) f))
