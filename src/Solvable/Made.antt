-- ===== src/Solvable/Made.antt =====
-- The cube that `getcube` of src/core/cube.h makes from two permutations and two arrays of digits.
use h.Base.{
  ℕ, zero, suc, ◌+◌, ◌*◌, ◌/◌, ◌%◌, ◌^◌, ◌<◌, bit_or, List, [], ◌∷◌, some, map, ◌≡◌, refl, sym, ap,
  ap₂, ◌∙◌, arith, length, get_or, length-map, get_or-map,
}
use h.Base.Bits.{bit_or_add}
use h.Cube.{eoshift, coshift}
use h.Cube.Pieces.{IsEdgePiece, IsCornerPiece, place_of, place_of_lem}
use h.Cube.Algebra.{IsArrangement}
use h.Cube.Group.{IsCube}
use h.CubeText.{cubefromarray}
use h.Indices.{factorial, indextoperm, permtoindex, sumzerotodigits, digitstosumzero, sizes_ok}
use h.Indices.Permutations.{IsPerm, isperm_iff}
use h.Indices.Codes.Inverse.{permtoindex-indextoperm}
use h.Indices.Digits.{digitstosumzero-sumzerotodigits}
use h.Indices.Digits.ZeroSum.{IsZeroSum, sumzerotodigits-IsZeroSum}
use h.Solvable.{or_shifted, getcube}
use h.Solvable.Parity.{places}

-- A place and an orientation below `b` make a piece, from which both can be read.
module _ (n b shift : ℕ) (IsPiece : ℕ → Type 0) (turn : ℕ → ℕ)
    (fits : (x y : ℕ)
      → x < n
      → y < b
      → IsPiece (bit_or x (y * 2 ^ shift) % 2 ^ 8)
        × (place_of (bit_or x (y * 2 ^ shift) % 2 ^ 8) ≡ x)
        × (turn (bit_or x (y * 2 ^ shift) % 2 ^ 8) ≡ y)) where
  or_shifted_parts :
      (xs ys : List ℕ)
      → length xs ≡ length ys
      → ((i : ℕ) → i < length xs → get_or xs i 0 < n)
      → ((i : ℕ) → i < length ys → get_or ys i 0 < b)
      → (places (or_shifted shift xs ys) ≡ xs)
        × (map turn (or_shifted shift xs ys) ≡ ys)
        × ((i : ℕ) → i < length xs → IsPiece (get_or (or_shifted shift xs ys) i 0))
  unfolding or_shifted
  or_shifted_parts [] [] e hx hy = (refl, refl, λ i h. absurd (omega arith))
  or_shifted_parts [] (y ∷ ys) e hx hy = absurd (omega arith)
  or_shifted_parts (x ∷ xs) [] e hx hy = absurd (omega arith)
  or_shifted_parts (x ∷ xs) (y ∷ ys) e hx hy =
      let (piece, place, turned) = fits x y (hx 0 (omega arith)) (hy 0 (omega arith)) in
      let (p, t, ps) =
        or_shifted_parts xs ys (omega arith) (λ i h. hx (suc i) (omega arith))
          (λ i h. hy (suc i) (omega arith)) in
      (ap₂ ◌∷◌ place p, ap₂ ◌∷◌ turned t, first_or _ (or_shifted shift xs ys) piece ps)
    where
      first_or :
          (z : ℕ) (zs : List ℕ)
          → IsPiece z
          → ((i : ℕ) → i < length xs → IsPiece (get_or zs i 0))
          → (i : ℕ) → i < suc (length xs)
          → IsPiece (get_or (z ∷ zs) i 0)
      first_or z zs h hs zero p = h
      first_or z zs h hs (suc i) p = hs i (omega arith)

  or_shifted-IsArrangement :
      (xs ys : List ℕ)
      → IsPerm xs
      → length xs ≡ n
      → IsZeroSum b n ys
      → IsArrangement n IsPiece place_of (or_shifted shift xs ys)
        × (places (or_shifted shift xs ys) ≡ xs)
        × (map turn (or_shifted shift xs ys) ≡ ys)
  or_shifted-IsArrangement xs ys p size z =
      let (place, turned, piece) =
        or_shifted_parts xs ys (omega (arith, z.size)) (λ i h. omega (arith, p.bounded i h))
          (λ i h. z.below_base i (omega (arith, z.size))) in
      let len : length (or_shifted shift xs ys) ≡ n =
        sym (length-map place_of (or_shifted shift xs ys)) ∙ ap length place ∙ size in
      (
        record {
          size = len;
          piece = λ i h. piece i (omega arith);
          distinct = λ i j h k e.
              p.injective i j (omega arith) (omega arith)
                (at place len i h ∙ e ∙ sym (at place len j k));
        },
        place,
        turned,
      )
    where
      at :
          places (or_shifted shift xs ys) ≡ xs
          → length (or_shifted shift xs ys) ≡ n
          → (i : ℕ) → i < n
          → get_or xs i 0 ≡ place_of (get_or (or_shifted shift xs ys) i 0)
      at place len i h =
          ap (λ t. get_or t i 0) (sym place)
          ∙ get_or-map place_of (or_shifted shift xs ys) i 0 0 (omega arith)

edge_fits :
    (x y : ℕ)
    → x < 12
    → y < 2
    → IsEdgePiece (bit_or x (y * 2 ^ eoshift) % 2 ^ 8)
      × (place_of (bit_or x (y * 2 ^ eoshift) % 2 ^ 8) ≡ x)
      × (bit_or x (y * 2 ^ eoshift) % 2 ^ 8 / 16 ≡ y)
edge_fits x y hx hy =
    let e : bit_or x (y * 2 ^ eoshift) % 2 ^ 8 ≡ x + 16 * y =
      omega (arith, bit_or_add 4 x y (omega arith)) in
    rw e (omega arith, place_of_lem (x + 16 * y) (omega arith) ∙ omega arith, omega arith)

corner_fits :
    (x y : ℕ)
    → x < 8
    → y < 3
    → IsCornerPiece (bit_or x (y * 2 ^ coshift) % 2 ^ 8)
      × (place_of (bit_or x (y * 2 ^ coshift) % 2 ^ 8) ≡ x)
      × (bit_or x (y * 2 ^ coshift) % 2 ^ 8 / 32 ≡ y)
corner_fits x y hx hy =
    let e : bit_or x (y * 2 ^ coshift) % 2 ^ 8 ≡ x + 32 * y =
      omega (arith, bit_or_add 5 x y (omega arith)) in
    rw e (omega arith, place_of_lem (x + 32 * y) (omega arith) ∙ omega arith, omega arith)

-- What `getcube` needs of its indices.
pub record AreIndices (ep eo cp co : ℕ) : Type 0 where
  pub edges : IsPerm (indextoperm ep 12)
  pub edge_count : length (indextoperm ep 12) ≡ 12
  pub flips : IsZeroSum 2 12 (sumzerotodigits eo 12 2)
  pub corners : IsPerm (indextoperm cp 8)
  pub corner_count : length (indextoperm cp 8) ≡ 8
  pub twists : IsZeroSum 3 8 (sumzerotodigits co 8 3)

module _ {ep eo cp co : ℕ} (h : AreIndices ep eo cp co) where
  pub getcube-IsCube : IsCube (getcube ep eo cp co)
  unfolding getcube cubefromarray
  getcube-IsCube = record {
    corners =
        (or_shifted-IsArrangement 8 3 coshift IsCornerPiece (λ x. x / 32) corner_fits _ _ h.corners
          h.corner_count h.twists).0;
    edges =
        (or_shifted-IsArrangement 12 2 eoshift IsEdgePiece (λ x. x / 16) edge_fits _ _ h.edges
          h.edge_count h.flips).0;
  }

  pub getcube_parts :
      (places (getcube ep eo cp co).edge ≡ indextoperm ep 12)
      × (map (λ x. x / 16) (getcube ep eo cp co).edge ≡ sumzerotodigits eo 12 2)
      × (places (getcube ep eo cp co).corner ≡ indextoperm cp 8)
      × (map (λ x. x / 32) (getcube ep eo cp co).corner ≡ sumzerotodigits co 8 3)
  unfolding getcube cubefromarray
  getcube_parts =
      let (_, place_c, turn_c) =
        or_shifted-IsArrangement 8 3 coshift IsCornerPiece (λ x. x / 32) corner_fits _ _ h.corners
          h.corner_count h.twists in
      let (_, place_e, turn_e) =
        or_shifted-IsArrangement 12 2 eoshift IsEdgePiece (λ x. x / 16) edge_fits _ _ h.edges
          h.edge_count h.flips in
      (place_e, turn_e, place_c, turn_c)

pub AreIndices-of_bounds :
    {ep eo cp co : ℕ} → ep < 479001600 → eo < 2048 → cp < 40320 → co < 2187 → AreIndices ep eo cp co
unfolding factorial sizes_ok
AreIndices-of_bounds {ep} {eo} {cp} {co} hep heo hcp hco =
    let (pe, le, ie) = permtoindex-indextoperm ep 12 (omega arith) hep in
    let (pc, lc, ic) = permtoindex-indextoperm cp 8 (omega arith) hcp in
    record {
      edges = (isperm_iff _).0 pe;
      edge_count = le;
      flips = sumzerotodigits-IsZeroSum eo 12 2 refl heo;
      corners = (isperm_iff _).0 pc;
      corner_count = lc;
      twists = sumzerotodigits-IsZeroSum co 8 3 refl hco;
    }

-- For indices in their ranges `getcube` makes a cube of the puzzle, from which the indices are read
-- back: those of the places of its edges and corners, and those of their flips and twists.
pub getcube_lem :
    (ep eo cp co : ℕ)
    → ep < 479001600
    → eo < 2048
    → cp < 40320
    → co < 2187
    → IsCube (getcube ep eo cp co)
      × (permtoindex (places (getcube ep eo cp co).edge) ≡ some ep)
      × (digitstosumzero (map (λ x. x / 16) (getcube ep eo cp co).edge) 2 ≡ some eo)
      × (permtoindex (places (getcube ep eo cp co).corner) ≡ some cp)
      × (digitstosumzero (map (λ x. x / 32) (getcube ep eo cp co).corner) 3 ≡ some co)
unfolding factorial sizes_ok
getcube_lem ep eo cp co hep heo hcp hco =
    let h : AreIndices ep eo cp co = AreIndices-of_bounds hep heo hcp hco in
    let (e, f, c, t) = getcube_parts h in
    (
      getcube-IsCube h,
      ap permtoindex e ∙ (permtoindex-indextoperm ep 12 (omega arith) hep).2,
      ap (λ x. digitstosumzero x 2) f ∙ digitstosumzero-sumzerotodigits eo 12 2 refl heo,
      ap permtoindex c ∙ (permtoindex-indextoperm cp 8 (omega arith) hcp).2,
      ap (λ x. digitstosumzero x 3) t ∙ digitstosumzero-sumzerotodigits co 8 3 refl hco,
    )
