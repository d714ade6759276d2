-- ===== src/Cube/Algebra.antt =====
-- Arrays of oriented pieces and their composition, for any kind of piece that has the laws below:
-- a group, proved once for the edges and the corners.
pub mod Inverse
use h.Base.{
  ℕ, zero, suc, ◌+◌, ◌<◌, ◌≡◌, sym, subst, ap, ◌∙◌, List, [], ◌∷◌, map, length, get_or, set,
  length-map, get_or-map, get_or_ext,
}

-- `pos` reads a piece's place, `mix x y` is piece `x` carried along by `y`, and `undo i x` is the
-- piece that brings `x` back to place `i`.
pub record PieceLaws (n : ℕ) (IsPiece : ℕ → Type 0) (pos : ℕ → ℕ) (mix : ℕ → ℕ → ℕ)
    (undo : ℕ → ℕ → ℕ) : Type 0 where
  pub pos_lt : (x : ℕ) → IsPiece x → pos x < n
  pub place : (i : ℕ) → i < n → IsPiece i
  pub pos_place : (i : ℕ) → i < n → pos i ≡ i
  pub mix_piece : (x y : ℕ) → IsPiece x → IsPiece y → IsPiece (mix x y)
  pub pos_mix : (x y : ℕ) → IsPiece x → IsPiece y → pos (mix x y) ≡ pos x
  pub mix_assoc :
      (x y z : ℕ) → IsPiece x → IsPiece y → IsPiece z → mix (mix x y) z ≡ mix x (mix y z)
  pub mix_right : (x i : ℕ) → IsPiece x → i < n → mix x i ≡ x
  pub mix_left : (x : ℕ) → IsPiece x → mix (pos x) x ≡ x
  pub undo_piece : (i x : ℕ) → i < n → IsPiece x → IsPiece (undo i x)
  pub pos_undo : (i x : ℕ) → i < n → IsPiece x → pos (undo i x) ≡ i
  pub mix_undo : (i x : ℕ) → i < n → IsPiece x → mix (undo i x) x ≡ i
  pub undo_mix : (i x : ℕ) → i < n → IsPiece x → mix x (undo i x) ≡ pos x

-- `n` pieces at different places.
pub record IsArrangement (n : ℕ) (IsPiece : ℕ → Type 0) (pos : ℕ → ℕ) (xs : List ℕ) : Type 0 where
  pub size : length xs ≡ n
  pub piece : (i : ℕ) → i < n → IsPiece (get_or xs i 0)
  pub distinct : (i j : ℕ) → i < n → j < n → pos (get_or xs i 0) ≡ pos (get_or xs j 0) → i ≡ j

-- The array with piece `i` at place `i`.
pub record IsIdentity (n : ℕ) (ids : List ℕ) : Type 0 where
  pub size : length ids ≡ n
  pub at : (i : ℕ) → i < n → get_or ids i 0 ≡ i

abbrev pub compose_pieces : (ℕ → ℕ) → (ℕ → ℕ → ℕ) → List ℕ → List ℕ → List ℕ
compose_pieces pos mix xs ys = map (λ y. mix (get_or xs (pos y) 0) y) ys

abbrev pub invert_pieces : (ℕ → ℕ) → (ℕ → ℕ → ℕ) → ℕ → List ℕ → List ℕ → List ℕ
invert_pieces pos undo i [] ret = ret
invert_pieces pos undo i (x ∷ xs) ret =
    invert_pieces pos undo (i + 1) xs (set ret (pos x) (undo i x))

module _ {n : ℕ} {IsPiece : ℕ → Type 0} {pos : ℕ → ℕ} {mix : ℕ → ℕ → ℕ} {undo : ℕ → ℕ → ℕ}
    (laws : PieceLaws n IsPiece pos mix undo) where
  open laws use {
    pos_lt, place, pos_place, mix_piece, pos_mix, mix_assoc, mix_right, mix_left, undo_piece,
    pos_undo, mix_undo, undo_mix,
  }

  abbrev IsArr : List ℕ → Type 0
  IsArr = IsArrangement n IsPiece pos

  infixl 70 ◌⊙◌
  abbrev ◌⊙◌ : List ℕ → List ℕ → List ℕ
  xs ⊙ ys = compose_pieces pos mix xs ys

  get_or-compose :
      (xs ys : List ℕ) (i : ℕ)
      → i < length ys
      → get_or (xs ⊙ ys) i 0 ≡ mix (get_or xs (pos (get_or ys i 0)) 0) (get_or ys i 0)
  get_or-compose xs ys i h = get_or-map (λ y. mix (get_or xs (pos y) 0) y) ys i 0 0 h

  -- The piece of `xs` at the place that piece `i` of `ys` names.
  source-piece :
      {xs ys : List ℕ} (i : ℕ)
      → IsArr xs
      → IsArr ys
      → i < n
      → IsPiece (get_or xs (pos (get_or ys i 0)) 0)
  source-piece {xs} {ys} i a b h = a.piece _ (pos_lt _ (b.piece i h))

  pos-compose :
      {xs ys : List ℕ} (i : ℕ)
      → IsArr xs
      → IsArr ys
      → i < n
      → pos (get_or (xs ⊙ ys) i 0) ≡ pos (get_or xs (pos (get_or ys i 0)) 0)
  pos-compose {xs} {ys} i a b h =
      ap pos (get_or-compose xs ys i (rw b.size h))
      ∙ pos_mix _ _ (source-piece i a b h) (b.piece i h)

  pub compose_pieces-IsArrangement : {xs ys : List ℕ} → IsArr xs → IsArr ys → IsArr (xs ⊙ ys)
  compose_pieces-IsArrangement {xs} {ys} a b = record {
    size = length-map _ ys ∙ b.size;
    piece = λ i h.
        subst IsPiece (sym (get_or-compose xs ys i (rw b.size h)))
          (mix_piece _ _ (source-piece i a b h) (b.piece i h));
    distinct = λ i j p q e. b.distinct i j p q (
        a.distinct _ _ (pos_lt _ (b.piece i p)) (pos_lt _ (b.piece j q))
          (sym (pos-compose i a b p) ∙ e ∙ pos-compose j a b q));
  }

  pub compose_pieces_assoc :
      {xs ys zs : List ℕ} → IsArr xs → IsArr ys → IsArr zs → xs ⊙ ys ⊙ zs ≡ xs ⊙ (ys ⊙ zs)
  compose_pieces_assoc {xs} {ys} {zs} a b c =
      get_or_ext 0 _ _ (length-map _ zs ∙ sym (length-map _ (ys ⊙ zs) ∙ length-map _ zs)) at
    where
      at :
          (i : ℕ)
          → i < length (xs ⊙ ys ⊙ zs)
          → get_or (xs ⊙ ys ⊙ zs) i 0 ≡ get_or (xs ⊙ (ys ⊙ zs)) i 0
      at i h =
          let h' : i < length zs =
            rw (← length-map (λ y. mix (get_or (xs ⊙ ys) (pos y) 0) y) zs) h in
          let hn : i < n = rw (← c.size) h' in
          let z : ℕ = get_or zs i 0 in
          let pz : pos z < n = pos_lt z (c.piece i hn) in
          get_or-compose (xs ⊙ ys) zs i h'
          ∙ ap (λ t. mix t z) (get_or-compose xs ys (pos z) (rw b.size pz))
          ∙ mix_assoc _ _ z (source-piece (pos z) a b pz) (b.piece (pos z) pz) (c.piece i hn)
          ∙ ap (λ t. mix (get_or xs t 0) (mix (get_or ys (pos z) 0) z))
              (sym (pos_mix _ z (b.piece (pos z) pz) (c.piece i hn)))
          ∙ ap (λ t. mix (get_or xs (pos t) 0) t) (sym (get_or-compose ys zs i h'))
          ∙ sym (
              get_or-compose xs (ys ⊙ zs) i
                (rw (length-map (λ y. mix (get_or ys (pos y) 0) y) zs) h'))

  pub compose_pieces_right : {xs ids : List ℕ} → IsArr xs → IsIdentity n ids → xs ⊙ ids ≡ xs
  compose_pieces_right {xs} {ids} a u =
      get_or_ext 0 _ _ (length-map _ ids ∙ u.size ∙ sym a.size) λ i h.
        let h' : i < length ids = rw (← length-map (λ y. mix (get_or xs (pos y) 0) y) ids) h in
        let hn : i < n = rw (← u.size) h' in
        get_or-compose xs ids i h'
        ∙ ap (λ t. mix (get_or xs (pos t) 0) t) (u.at i hn)
        ∙ ap (λ t. mix (get_or xs t 0) i) (pos_place i hn)
        ∙ mix_right _ i (a.piece i hn) hn

  pub compose_pieces_left : {xs ids : List ℕ} → IsArr xs → IsIdentity n ids → ids ⊙ xs ≡ xs
  compose_pieces_left {xs} {ids} a u = get_or_ext 0 _ _ (length-map _ xs) λ i h.
      let h' : i < length xs = rw (← length-map (λ y. mix (get_or ids (pos y) 0) y) xs) h in
      let hn : i < n = rw (← a.size) h' in
      get_or-compose ids xs i h'
      ∙ ap (λ t. mix t (get_or xs i 0)) (u.at _ (pos_lt _ (a.piece i hn)))
      ∙ mix_left _ (a.piece i hn)

  pub identity-IsArrangement : {ids : List ℕ} → IsIdentity n ids → IsArr ids
  identity-IsArrangement {ids} u = record {
    size = u.size;
    piece = λ i h. subst IsPiece (sym (u.at i h)) (place i h);
    distinct = λ i j p q e.
        sym (ap pos (u.at i p) ∙ pos_place i p) ∙ e ∙ ap pos (u.at j q) ∙ pos_place j q;
  }

  -- A map on pieces that keeps places and respects `mix` respects composition.
  module _ (f : ℕ → ℕ) (f_piece : (x : ℕ) → IsPiece x → IsPiece (f x))
      (pos_f : (x : ℕ) → IsPiece x → pos (f x) ≡ pos x)
      (f_mix : (x y : ℕ) → IsPiece x → IsPiece y → f (mix x y) ≡ mix (f x) (f y)) where
    pub map-IsArrangement : {xs : List ℕ} → IsArr xs → IsArr (map f xs)
    map-IsArrangement {xs} a = record {
      size = length-map f xs ∙ a.size;
      piece = λ i h. subst IsPiece (sym (at i h)) (f_piece _ (a.piece i h));
      distinct = λ i j p q e. a.distinct i j p q (sym (place_at i p) ∙ e ∙ place_at j q);
    }
      where
        at : (i : ℕ) → i < n → get_or (map f xs) i 0 ≡ f (get_or xs i 0)
        at i h = get_or-map f xs i 0 0 (rw a.size h)

        place_at : (i : ℕ) → i < n → pos (get_or (map f xs) i 0) ≡ pos (get_or xs i 0)
        place_at i h = ap pos (at i h) ∙ pos_f _ (a.piece i h)

    pub map-compose : {xs ys : List ℕ} → IsArr xs → IsArr ys → map f (xs ⊙ ys) ≡ map f xs ⊙ map f ys
    map-compose {xs} {ys} a b =
        get_or_ext 0 _ _
          (length-map f (xs ⊙ ys)
            ∙ length-map _ ys
            ∙ sym (length-map _ (map f ys) ∙ length-map f ys))
          λ i h.
            let hs : i < length (xs ⊙ ys) = rw (← length-map f (xs ⊙ ys)) h in
            let h' : i < length ys = rw (← length-map (λ y. mix (get_or xs (pos y) 0) y) ys) hs in
            let hn : i < n = rw (← b.size) h' in
            let y : ℕ = get_or ys i 0 in
            get_or-map f (xs ⊙ ys) i 0 0 hs
            ∙ ap f (get_or-compose xs ys i h')
            ∙ f_mix _ y (source-piece i a b hn) (b.piece i hn)
            ∙ ap (λ t. mix t (f y))
                (sym (get_or-map f xs (pos y) 0 0 (rw a.size (pos_lt y (b.piece i hn)))))
            ∙ ap (λ t. mix (get_or (map f xs) t 0) (f y)) (sym (pos_f y (b.piece i hn)))
            ∙ ap (λ t. mix (get_or (map f xs) (pos t) 0) t) (sym (get_or-map f ys i 0 0 h'))
            ∙ sym (get_or-compose (map f xs) (map f ys) i (rw (length-map f ys) h'))
