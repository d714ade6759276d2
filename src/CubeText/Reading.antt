-- ===== src/CubeText/Reading.antt =====
-- The loops of `readcube` in src/core/cube.h on a buffer that holds letters.
use h.Base.{
  subst, get_or_at, ℕ, zero, suc, ◌+◌, ◌<◌, List, [], ◌∷◌, ◌++◌, map, some, ◌≡◌, ◌≢◌, refl, sym, ap,
  ◌∙◌, ◌==◌, false, get_or, length, arith, get_or_ext, Option-cases, Bool-cases, inl, inr,
}
use h.Moves.{uint8_error}
use h.CubeText.{read_pieces}

-- Every entry of the list has the property.
unfoldable pub All : (ℕ → Type 0) → List ℕ → Type 0
All P [] = Unit {0}
All P (x ∷ xs) = P x × All P xs

pub All-of_entries :
    (P : ℕ → Type 0) (xs : List ℕ) → ((i : ℕ) → i < length xs → P (get_or xs i 0)) → All P xs
unfolding All
All-of_entries P [] f = tt
All-of_entries P (x ∷ xs) f =
    (f 0 (omega arith), All-of_entries P xs (λ i h. f (suc i) (omega arith)))

-- `xs` stands in `buf` from index `i` on.
unfoldable pub StandsAt : List ℕ → ℕ → List ℕ → Type 0
StandsAt xs i buf = (k : ℕ) → k < length xs → get_or buf (i + k) 0 ≡ get_or xs k 0

pub StandsAt-tail :
    (x : ℕ) (xs : List ℕ) (i : ℕ) (buf : List ℕ) → StandsAt (x ∷ xs) i buf → StandsAt xs (i + 1) buf
unfolding StandsAt
StandsAt-tail x xs i buf h k p = get_or_at buf 0 (omega arith) ∙ h (suc k) (omega arith)

pub StandsAt-head :
    (x : ℕ) (xs : List ℕ) (i : ℕ) (buf : List ℕ) → StandsAt (x ∷ xs) i buf → get_or buf i 0 ≡ x
unfolding StandsAt
StandsAt-head x xs i buf h = get_or_at buf 0 (omega arith) ∙ h 0 (omega arith)

pub StandsAt-nil : (i : ℕ) (buf : List ℕ) → StandsAt [] i buf
unfolding StandsAt
StandsAt-nil i buf k h = absurd (omega arith)

module _ (decode encode : ℕ → ℕ) where
  pub read_pieces-map :
      (xs : List ℕ) (i : ℕ) (buf : List ℕ)
      → All (λ x. (decode (encode x) ≡ x) × (decode (encode x) ≢ uint8_error)) xs
      → StandsAt (map encode xs) i buf
      → read_pieces decode (length xs) i buf ≡ some xs
  unfolding read_pieces All StandsAt
  read_pieces-map [] i buf good at = refl
  read_pieces-map (x ∷ xs) i buf good at =
      let here : decode (get_or buf i 0) ≡ x =
        ap (λ t. decode (get_or buf t 0)) (let e : i ≡ i + 0 = omega arith in e)
        ∙ ap decode (at 0 (omega arith))
        ∙ good.0.0 in
      let fine : (x == uint8_error) ≡ false = ground (arith, good.0.0, good.0.1) in
      rw
        (
          here,
          fine,
          read_pieces-map xs (i + 1) buf good.1 (StandsAt-tail _ (map encode xs) i buf at),
        )
        (ap (λ p. some (p ∷ xs)) here)

  read_pieces-parts :
      (n i : ℕ) (buf xs : List ℕ)
      → read_pieces decode (suc n) i buf ≡ some xs
      → (rest : List ℕ) × (decode (get_or buf i 0) ≢ uint8_error)
        × (read_pieces decode n (i + 1) buf ≡ some rest)
        × (decode (get_or buf i 0) ∷ rest ≡ xs)
  unfolding read_pieces
  read_pieces-parts n i buf xs e = elim (Bool-cases (decode (get_or buf i 0) == uint8_error)) [
    | inl wrong ↦ absurd (ground (arith, wrong, e))
    | inr fine ↦ elim (Option-cases (read_pieces decode n (i + 1) buf)) [
      | inl wrong ↦ absurd (ground (arith, fine, wrong, e))
      | inr (rest, right) ↦
          (rest, λ p. ground (arith, fine, p), right, ground (arith, fine, right, e))
    ]
  ]

  -- The pieces that are read, written, are the letters of the text.
  pub map-read_pieces :
      (n i : ℕ) (buf xs : List ℕ)
      → ((c : ℕ) → decode c ≢ uint8_error → encode (decode c) ≡ c)
      → read_pieces decode n i buf ≡ some xs
      → (length xs ≡ n) × StandsAt (map encode xs) i buf
  unfolding read_pieces StandsAt
  map-read_pieces zero i buf [] back e = (refl, λ k h. absurd (omega arith))
  map-read_pieces zero i buf (x ∷ xs) back e = absurd (ground (arith, e))
  map-read_pieces (suc n) i buf [] back e =
      let (rest, valid, rest_read, parts) = read_pieces-parts n i buf [] e in
      absurd (ground (arith, parts))
  map-read_pieces (suc n) i buf (x ∷ xs) back e =
      let (rest, valid, rest_read, parts) = read_pieces-parts n i buf (x ∷ xs) e in
      let same : rest ≡ xs = ground (arith, parts) in
      let (size, at) = map-read_pieces n (i + 1) buf xs back (rest_read ∙ ap some same) in
      let first : encode x ≡ get_or buf i 0 =
        ap encode (sym (ground (arith, parts))) ∙ back (get_or buf i 0) valid in
      (ap suc size, stands first at)
    where
      stands :
          encode x ≡ get_or buf i 0
          → StandsAt (map encode xs) (i + 1) buf
          → StandsAt (map encode (x ∷ xs)) i buf
      stands first at zero h = get_or_at buf 0 (omega arith) ∙ sym first
      stands first at (suc k) h = get_or_at buf 0 (omega arith) ∙ at k (omega arith)

pub StandsAt-cons :
    (x : ℕ) (xs : List ℕ) (i : ℕ) (buf : List ℕ)
    → get_or buf i 0 ≡ x
    → StandsAt xs (i + 1) buf
    → StandsAt (x ∷ xs) i buf
unfolding StandsAt
StandsAt-cons x xs i buf e h zero p = get_or_at buf 0 (omega arith) ∙ e
StandsAt-cons x xs i buf e h (suc k) p = get_or_at buf 0 (omega arith) ∙ h k (omega arith)

pub StandsAt-append :
    (xs ys : List ℕ) (i j : ℕ) (buf : List ℕ)
    → j ≡ i + length xs
    → StandsAt xs i buf
    → StandsAt ys j buf
    → StandsAt (xs ++ ys) i buf
StandsAt-append [] ys i j buf e h h' = subst (λ t. StandsAt ys t buf) (omega arith) h'
StandsAt-append (x ∷ xs) ys i j buf e h h' =
    StandsAt-cons x (xs ++ ys) i buf (StandsAt-head x xs i buf h)
      (StandsAt-append xs ys (i + 1) j buf (omega arith) (StandsAt-tail x xs i buf h) h')

pub StandsAt-all : (xs buf : List ℕ) → length xs ≡ length buf → StandsAt xs 0 buf → xs ≡ buf
unfolding StandsAt
StandsAt-all xs buf size h =
    get_or_ext 0 xs buf size (λ k p. sym (h k p) ∙ get_or_at buf 0 (omega arith))
