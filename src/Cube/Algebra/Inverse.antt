-- ===== src/Cube/Algebra/Inverse.antt =====
-- The inverse of an arrangement, as the loop that writes every piece's inverse to its place.
use h.Base.{
  ℕ, zero, suc, ◌+◌, ◌<◌, ◌≡◌, refl, sym, subst, ap, ◌∙◌, ◌≢◌, List, [], ◌∷◌, map, arith, length,
  get_or, set, length-map, length-set, get_or-map, get_or-set_self, get_or-set_ne, get_or_ext,
  surjective_of_injective,
}
use h.Cube.Algebra.{PieceLaws, IsArrangement, IsIdentity, compose_pieces, invert_pieces}

module _ (pos : ℕ → ℕ) (undo : ℕ → ℕ → ℕ) where
  pub length-invert :
      (i : ℕ) (xs ret : List ℕ) → length (invert_pieces pos undo i xs ret) ≡ length ret
  length-invert i [] ret = refl
  length-invert i (x ∷ xs) ret =
      length-invert (i + 1) xs (set ret (pos x) (undo i x)) ∙ length-set ret (pos x) (undo i x)

  -- A place that no piece names keeps what it held.
  invert_keep :
      (i : ℕ) (xs ret : List ℕ) (p : ℕ)
      → ((k : ℕ) → k < length xs → pos (get_or xs k 0) ≢ p)
      → get_or (invert_pieces pos undo i xs ret) p 0 ≡ get_or ret p 0
  invert_keep i [] ret p away = refl
  invert_keep i (x ∷ xs) ret p away =
      invert_keep (i + 1) xs (set ret (pos x) (undo i x)) p (λ k h. away (suc k) (omega arith))
      ∙ get_or-set_ne ret (pos x) p (undo i x) 0 (away 0 (omega arith))

  -- The place of piece `k` gets what brings it back.
  pub get_or-invert :
      (i : ℕ) (xs ret : List ℕ) (k : ℕ)
      → ((a c : ℕ)
          → a < length xs
          → c < length xs
          → pos (get_or xs a 0) ≡ pos (get_or xs c 0)
          → a ≡ c)
      → k < length xs
      → pos (get_or xs k 0) < length ret
      → get_or (invert_pieces pos undo i xs ret) (pos (get_or xs k 0)) 0
        ≡ undo (i + k) (get_or xs k 0)
  get_or-invert i [] ret k inj h fits = absurd (omega arith)
  get_or-invert i (x ∷ xs) ret zero inj h fits =
      invert_keep (i + 1) xs (set ret (pos x) (undo i x)) (pos x)
        (λ k p e. absurd (omega (arith, inj (suc k) 0 (omega arith) (omega arith) e)))
      ∙ get_or-set_self ret (pos x) (undo i x) 0 fits
      ∙ ap (λ t. undo t x) (omega arith)
  get_or-invert i (x ∷ xs) ret (suc k) inj h fits =
      get_or-invert (i + 1) xs (set ret (pos x) (undo i x)) k
        (λ a c p q e. omega (arith, inj (suc a) (suc c) (omega arith) (omega arith) e))
        (omega arith) (rw length-set fits)
      ∙ ap (λ t. undo t (get_or xs k 0)) (omega arith)

module _ {n : ℕ} {IsPiece : ℕ → Type 0} {pos : ℕ → ℕ} {mix : ℕ → ℕ → ℕ} {undo : ℕ → ℕ → ℕ}
    (laws : PieceLaws n IsPiece pos mix undo) (xs : List ℕ)
    (a : IsArrangement n IsPiece pos xs) where
  open laws use {pos_lt}

  abbrev places : List ℕ
  places = map pos xs

  get_or-places : (i : ℕ) → i < n → get_or places i 0 ≡ pos (get_or xs i 0)
  get_or-places i h = get_or-map pos xs i 0 0 (rw a.size h)

  places_size : length places ≡ n
  places_size = length-map pos xs ∙ a.size

  -- Every place is named by some piece.
  pub piece_at : (v : ℕ) → v < n → (k : ℕ) × (k < n) × (pos (get_or xs k 0) ≡ v)
  piece_at v h =
      let (k, p, e) =
        surjective_of_injective n places v places_size
          (λ i q.
            let q' : i < n = rw (← places_size) q in
            rw (get_or-places i q') (pos_lt _ (a.piece i q')))
          (λ i j p q e.
            let p' : i < n = rw (← places_size) p in
            let q' : j < n = rw (← places_size) q in
            a.distinct i j p' q' (sym (get_or-places i p') ∙ e ∙ get_or-places j q'))
          h in
      (k, p, sym (get_or-places k p) ∙ e)

module _ {n : ℕ} {IsPiece : ℕ → Type 0} {pos : ℕ → ℕ} {mix : ℕ → ℕ → ℕ} {undo : ℕ → ℕ → ℕ}
    (laws : PieceLaws n IsPiece pos mix undo) (xs : List ℕ) (a : IsArrangement n IsPiece pos xs)
    (ret : List ℕ) (room : length ret ≡ n) where
  open laws use {pos_lt, mix_undo, undo_mix, undo_piece, pos_undo}

  abbrev inverted : List ℕ
  inverted = invert_pieces pos undo 0 xs ret

  inverted_size : length inverted ≡ n
  inverted_size = length-invert pos undo 0 xs ret ∙ room

  inverted_at : (k : ℕ) → k < n → get_or inverted (pos (get_or xs k 0)) 0 ≡ undo k (get_or xs k 0)
  inverted_at k h =
      get_or-invert pos undo 0 xs ret k
        (λ i j p q e. a.distinct i j (rw (← a.size) p) (rw (← a.size) q) e) (rw a.size h)
        (rw room (pos_lt _ (a.piece k h)))
      ∙ ap (λ t. undo t (get_or xs k 0)) (omega arith)

  -- Piece `v` of the inverse, by the piece of the original that stands for place `v`.
  inverted_read :
      (v : ℕ)
      → v < n
      → (k : ℕ) × (k < n)
        × (pos (get_or xs k 0) ≡ v)
        × (get_or inverted v 0 ≡ undo k (get_or xs k 0))
  inverted_read v h =
      let (k, p, e) = piece_at laws xs a v h in
      (k, p, e, ap (λ t. get_or inverted t 0) (sym e) ∙ inverted_at k p)

  pub invert_pieces-IsArrangement : IsArrangement n IsPiece pos inverted
  invert_pieces-IsArrangement = record {
    size = inverted_size;
    piece = λ v h.
        let (k, p, e, r) = inverted_read v h in
        subst IsPiece (sym r) (undo_piece k _ p (a.piece k p));
    distinct = λ v w h h' e.
        let (k, p, pe, r) = inverted_read v h in
        let (l, q, qe, s) = inverted_read w h' in
        let same : k ≡ l =
          sym (pos_undo k _ p (a.piece k p))
          ∙ ap pos (sym r)
          ∙ e
          ∙ ap pos s
          ∙ pos_undo l _ q (a.piece l q) in
        sym pe ∙ ap (λ t. pos (get_or xs t 0)) same ∙ qe;
  }

  -- The inverse before the arrangement gives back the identity.
  pub invert_pieces_compose :
      {ids : List ℕ} → IsIdentity n ids → compose_pieces pos mix inverted xs ≡ ids
  invert_pieces_compose {ids} u = get_or_ext 0 _ _ (length-map _ xs ∙ a.size ∙ sym u.size) λ i h.
      let h' : i < length xs = rw (← length-map (λ y. mix (get_or inverted (pos y) 0) y) xs) h in
      let hn : i < n = rw (← a.size) h' in
      get_or-map (λ y. mix (get_or inverted (pos y) 0) y) xs i 0 0 h'
      ∙ ap (λ t. mix t (get_or xs i 0)) (inverted_at i hn)
      ∙ mix_undo i _ hn (a.piece i hn)
      ∙ sym (u.at i hn)

  -- The arrangement before its inverse does so too.
  pub compose_invert_pieces :
      {ids : List ℕ} → IsIdentity n ids → compose_pieces pos mix xs inverted ≡ ids
  compose_invert_pieces {ids} u =
      get_or_ext 0 _ _ (length-map _ inverted ∙ inverted_size ∙ sym u.size) λ v h.
        let h' : v < length inverted =
          rw (← length-map (λ y. mix (get_or xs (pos y) 0) y) inverted) h in
        let hn : v < n = rw (← inverted_size) h' in
        let (k, p, e, r) = inverted_read v hn in
        get_or-map (λ y. mix (get_or xs (pos y) 0) y) inverted v 0 0 h'
        ∙ ap (λ t. mix (get_or xs (pos t) 0) t) r
        ∙ ap (λ t. mix (get_or xs t 0) (undo k (get_or xs k 0))) (pos_undo k _ p (a.piece k p))
        ∙ undo_mix k _ p (a.piece k p)
        ∙ e
        ∙ sym (u.at v hn)
