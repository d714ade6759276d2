-- ===== src/Oriented/Consistent.antt =====
-- `isconsistent` decides the cubes of Cube/Group.
use h.Base.{
  ℕ, ◌%◌, ◌<◌, bit_and, Bool, true, false, not, ◌&&◌, ◌||◌, ◌≡◌, refl, sym, ◌∙◌, ◌↔◌, inl, inr,
  List, some, map, ltb, arith, length, length-map, get_or, get_or-map, replicate, Option-cases,
  count, count-get_or, IsInjective-of_surjective, all_below, all_below_sound, subst,
}
use h.Cube.{Cube, eobit, cobits}
use h.Cube.Pieces.{IsEdgePiece, IsCornerPiece, place_of, place_of_lem, edge_laws, corner_laws}
use h.Cube.Algebra.{PieceLaws, IsArrangement}
use h.Cube.Algebra.Inverse.{piece_at}
use h.Cube.Group.{IsCube, HasRoom}
use h.Oriented.{OrientedCube, eo_valid, co_valid, mark_found, clear_found, all_found, isconsistent}
use h.Oriented.Marks.{
  mark_found_sound, mark_found_complete, all_found_sound, all_found_complete, get_or-clear,
  get_or-replicate, length-clear,
}

corner_table :
    all_below 256
      (λ x. not (co_valid (bit_and x cobits) && ltb (x % 16) 8) || (ltb x 96 && ltb (x % 32) 8))
    ≡ true
unfolding all_below
corner_table = refl

corner_table' :
    all_below 256 (λ x. not (ltb x 96 && ltb (x % 32) 8) || co_valid (bit_and x cobits)) ≡ true
unfolding all_below
corner_table' = refl

edge_table : all_below 32 (λ x. eo_valid (bit_and x eobit)) ≡ true
unfolding all_below
edge_table = refl

implied : (a b : Bool) → (not a || b) ≡ true → a ≡ true → b ≡ true
implied a b h e = ground arith

corner_valid :
    (x : ℕ) → x < 256 → place_of x < 8 → co_valid (bit_and x cobits) ≡ true → IsCornerPiece x
corner_valid x hx hp hv =
    let both : (ltb x 96 && ltb (x % 32) 8) ≡ true =
      implied (co_valid (bit_and x cobits) && ltb (x % 16) 8) (ltb x 96 && ltb (x % 32) 8)
        (all_below_sound 256
          (λ y. not (co_valid (bit_and y cobits) && ltb (y % 16) 8) || (ltb y 96 && ltb (y % 32) 8))
          x corner_table hx)
        (rw hv (ground (arith, place_of_lem x hx))) in
    ground arith

valid_corner : (x : ℕ) → IsCornerPiece x → co_valid (bit_and x cobits) ≡ true
valid_corner x hx =
    implied (ltb x 96 && ltb (x % 32) 8) (co_valid (bit_and x cobits))
      (all_below_sound 256 (λ y. not (ltb y 96 && ltb (y % 32) 8) || co_valid (bit_and y cobits)) x
        corner_table' (omega arith))
      (ground arith)

module _ (n : ℕ) (IsPiece : ℕ → Type 0) (ps : List ℕ) (size : length ps ≡ n) where
  -- Pieces at places that are all taken stand at different places.
  IsArrangement-of_counts :
      ((k : ℕ) → k < n → IsPiece (get_or ps k 0))
      → ((k : ℕ) → k < n → place_of (get_or ps k 0) < n)
      → ((v : ℕ) → v < n → 0 < count v (map place_of ps))
      → IsArrangement n IsPiece place_of ps
  IsArrangement-of_counts good low all = record {
    size = size;
    piece = good;
    distinct = λ i j p q e. inj i j (rw len p) (rw len q) (at i p ∙ e ∙ sym (at j q));
  }
    where
      len : length (map place_of ps) ≡ n
      len = length-map place_of ps ∙ size

      at : (k : ℕ) → k < n → get_or (map place_of ps) k 0 ≡ place_of (get_or ps k 0)
      at k h = get_or-map place_of ps k 0 0 (rw size h)

      inj :
          (i j : ℕ)
          → i < length (map place_of ps)
          → j < length (map place_of ps)
          → get_or (map place_of ps) i 0 ≡ get_or (map place_of ps) j 0
          → i ≡ j
      inj =
          IsInjective-of_surjective n (map place_of ps) len
            (λ i h. let h' : i < n = rw (← len) h in rw (at i h') (low i h')) all

  count-of_arrangement :
      {mix undo : ℕ → ℕ → ℕ}
      → PieceLaws n IsPiece place_of mix undo
      → IsArrangement n IsPiece place_of ps
      → (v : ℕ) → v < n
      → 0 < count v (map place_of ps)
  count-of_arrangement laws a v h =
      let (k, p, e) = piece_at laws ps a v h in
      let at : get_or (map place_of ps) k 0 ≡ v = get_or-map place_of ps k 0 0 (rw size p) ∙ e in
      subst (λ w. 0 < count w (map place_of ps)) at
        (count-get_or (map place_of ps) k (rw (length-map place_of ps ∙ size) p))

-- The arrays of a cube as C holds them, with no stray bit in an edge.
pub record IsRaw (c : Cube) : Type 0 where
  pub room : HasRoom c
  pub corner_byte : (k : ℕ) → k < 8 → get_or c.corner k 0 < 256
  pub edge_bits : (k : ℕ) → k < 12 → get_or c.edge k 0 < 32

-- What makes `isconsistent` answer true.
abbrev Accepted : OrientedCube → Type 0
Accepted c =
    (f g : List Bool) × (mark_found 12 eobit eo_valid c.cube.edge (replicate 12 false) ≡ some f)
    × (all_found 12 0 f ≡ true)
    × (mark_found 8 cobits co_valid c.cube.corner (clear_found 8 f) ≡ some g)
    × (all_found 8 0 g ≡ true)
    × (c.orientation < 24)

accepted : (c : OrientedCube) → isconsistent c ≡ true → Accepted c
unfolding isconsistent
accepted c h = elim (Option-cases (mark_found 12 eobit eo_valid c.cube.edge (replicate 12 false))) [
  | inl e ↦ absurd (ground arith)
  | inr (f, e) ↦
      elim (Option-cases (mark_found 8 cobits co_valid c.cube.corner (clear_found 8 f))) [
        | inl e' ↦ absurd (ground arith)
        | inr (g, e') ↦ (f, g, e, ground arith, e', ground arith, ground arith)
      ]
]

Accepted-IsCube : (c : OrientedCube) → IsRaw c.cube → Accepted c → IsCube c.cube
Accepted-IsCube c raw (f, g, ef, af, eg, ag, o) =
    let (pe, me) = mark_found_sound 12 eobit eo_valid c.cube.edge (replicate 12 false) f ef in
    let (pc, mc) = mark_found_sound 8 cobits co_valid c.cube.corner (clear_found 8 f) g eg in
    record {
      corners =
          IsArrangement-of_counts 8 IsCornerPiece c.cube.corner raw.room.corner_size
            (λ k h.
              let (low, ok) = pc k (rw raw.room.corner_size h) in
              corner_valid _ (raw.corner_byte k h) low ok)
            (λ k h. (pc k (rw raw.room.corner_size h)).0)
            (λ v h. ground (
              arith,
              mc v (all_found_sound 8 0 g v ag (omega arith) (omega arith)),
              get_or-clear 8 f v h,
            ));
      edges =
          IsArrangement-of_counts 12 IsEdgePiece c.cube.edge raw.room.edge_size
            (λ k h. omega (
              arith,
              raw.edge_bits k h,
              (pe k (rw raw.room.edge_size h)).0,
              place_of_lem (get_or c.cube.edge k 0) (omega (arith, raw.edge_bits k h)),
            ))
            (λ k h. (pe k (rw raw.room.edge_size h)).0)
            (λ v h. ground (
              arith,
              me v (all_found_sound 12 0 f v af (omega arith) (omega arith)),
              get_or-replicate 12 v,
            ));
    }

cube-Accepted : (c : OrientedCube) → IsCube c.cube → c.orientation < 24 → Accepted c
cube-Accepted c hc o =
    let (f, ef, lf, kf, mf) =
      mark_found_complete 12 eobit eo_valid c.cube.edge (replicate 12 false) (omega arith) (λ k h.
        let hn : k < 12 = rw (← hc.edges.size) h in
        (
          edge_laws.pos_lt _ (hc.edges.piece k hn),
          all_below_sound 32 (λ x. eo_valid (bit_and x eobit)) _ edge_table (hc.edges.piece k hn).0,
        )) in
    let (g, eg, lg, kg, mg) =
      mark_found_complete 8 cobits co_valid c.cube.corner (clear_found 8 f)
        (omega (arith, length-clear 8 f, lf))
        (λ k h.
          let hn : k < 8 = rw (← hc.corners.size) h in
          (corner_laws.pos_lt _ (hc.corners.piece k hn), valid_corner _ (hc.corners.piece k hn))) in
    (
      f,
      g,
      ef,
      all_found_complete 12 0 f (λ v h. mf v (
          count-of_arrangement 12 IsEdgePiece c.cube.edge hc.edges.size edge_laws hc.edges v
            (omega arith))),
      eg,
      all_found_complete 8 0 g (λ v h. mg v (
          count-of_arrangement 8 IsCornerPiece c.cube.corner hc.corners.size corner_laws hc.corners
            v (omega arith))),
      o,
    )

Accepted-back : (c : OrientedCube) → Accepted c → isconsistent c ≡ true
unfolding isconsistent
Accepted-back c (f, g, ef, af, eg, ag, o) = ground arith

pub isconsistent-IsCube :
    (c : OrientedCube) → IsCube c.cube → c.orientation < 24 → isconsistent c ≡ true
isconsistent-IsCube c hc ho = Accepted-back c (cube-Accepted c hc ho)

-- `isconsistent` answers true exactly on the cubes of the puzzle with an orientation below 24, for
-- any corner bytes and any edges without bits above the flip.
pub isconsistent_iff :
    (c : OrientedCube)
    → IsRaw c.cube
    → (isconsistent c ≡ true) ↔ (IsCube c.cube × (c.orientation < 24))
isconsistent_iff c raw = (
  λ h. let a = accepted c h in (Accepted-IsCube c raw a, a.6),
  λ h. Accepted-back c (cube-Accepted c h.0 h.1),
)
