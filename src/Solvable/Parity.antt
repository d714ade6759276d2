-- ===== src/Solvable/Parity.antt =====
-- The three invariants that `issolvable` of src/core/cube.h computes, under composition.
use h.Base.{
  ap₂, ℕ, suc, ◌+◌, ◌*◌, ◌/◌, ◌%◌, ◌^◌, ◌<◌, ◌≤◌, bit_and, true, List, [], ◌∷◌, map, ◌≡◌, refl, sym,
  ap, ◌∙◌, ◌==◌, arith, length, get_or, length-map, get_or-map, sum_over, sum_over_add,
  sum_over-map, sum_over_permutation, all_below,
}
use h.Cube.{eobit, cobits, eoshift, coshift}
use h.Cube.Pieces.{place_of}
use h.Cube.Algebra.{PieceLaws, IsArrangement, compose_pieces}
use h.Indices.Permutations.{IsPerm}
use native.Mathlib.Nat.{add-mod}
use h.Indices.Sign.{from, follow-from, from_permutation, follow}
use h.Solvable.{add_orientations}

-- The places of the pieces.
abbrev pub places : List ℕ → List ℕ
places ps = map place_of ps

pub eo_table : all_below 32 (λ x. bit_and x eobit / 2 ^ eoshift == x / 16) ≡ true
unfolding all_below
eo_table = refl

pub co_table : all_below 96 (λ x. bit_and x cobits / 2 ^ coshift == x / 32) ≡ true
unfolding all_below
co_table = refl

-- A sum of at most twelve entries up to 2 stays a `uint8_t`.
pub add_orientations_lem :
    (mask shift : ℕ) (f : ℕ → ℕ) (ps : List ℕ) (sum : ℕ)
    → ((i : ℕ)
        → i < length ps
        → (bit_and (get_or ps i 0) mask / 2 ^ shift ≡ f (get_or ps i 0)) × (f (get_or ps i 0) ≤ 2))
    → sum + 2 * length ps < 256
    → add_orientations mask shift ps sum ≡ sum + sum_over ps f
unfolding add_orientations sum_over
add_orientations_lem mask shift f [] sum h room = omega arith
add_orientations_lem mask shift f (x ∷ xs) sum h room =
    let here : (sum + bit_and x mask / 2 ^ shift) % 2 ^ 8 ≡ sum + f x =
      omega (arith, (h 0 (omega arith)).0, (h 0 (omega arith)).1) in
    rw here (
      omega (
        arith,
        add_orientations_lem mask shift f xs (sum + f x) (λ i p. h (suc i) (omega arith))
            (omega (arith, (h 0 (omega arith)).1)),
      ))

map_square :
    (f g h k : ℕ → ℕ) (ys : List ℕ)
    → ((i : ℕ) → i < length ys → f (g (get_or ys i 0)) ≡ h (k (get_or ys i 0)))
    → map f (map g ys) ≡ map h (map k ys)
map_square f g h k [] e = refl
map_square f g h k (y ∷ ys) e =
    ap₂ ◌∷◌ (e 0 (omega arith)) (map_square f g h k ys (λ i p. e (suc i) (omega arith)))

-- Entries that agree modulo `m` have sums that do.
sum_over_mod :
    (m : ℕ) (xs : List ℕ) (f g : ℕ → ℕ)
    → ((i : ℕ) → i < length xs → f (get_or xs i 0) % m ≡ g (get_or xs i 0) % m)
    → sum_over xs f % m ≡ sum_over xs g % m
unfolding sum_over
sum_over_mod m [] f g e = refl
sum_over_mod m (x ∷ xs) f g e =
    add-mod (f x) (sum_over xs f) m
    ∙ ap₂ (λ a b. (a + b) % m) (e 0 (omega arith))
        (sum_over_mod m xs f g (λ i p. e (suc i) (omega arith)))
    ∙ sym (add-mod (g x) (sum_over xs g) m)

module _ {n : ℕ} {IsPiece : ℕ → Type 0} {mix undo : ℕ → ℕ → ℕ}
    (laws : PieceLaws n IsPiece place_of mix undo) (short : n ≤ 12) where
  pub places-IsPerm : {ps : List ℕ} → IsArrangement n IsPiece place_of ps → IsPerm (places ps)
  places-IsPerm {ps} a = record {
    short = omega (arith, length-map place_of ps, a.size);
    bounded = λ i h.
        rw (at i (below i h))
          (omega (arith, laws.pos_lt _ (a.piece i (below i h)), length-map place_of ps, a.size));
    injective = λ i j p q e.
        a.distinct i j (below i p) (below j q) (sym (at i (below i p)) ∙ e ∙ at j (below j q));
  }
    where
      below : (i : ℕ) → i < length (places ps) → i < n
      below i h = omega (arith, length-map place_of ps, a.size)

      at : (i : ℕ) → i < n → get_or (places ps) i 0 ≡ place_of (get_or ps i 0)
      at i h = get_or-map place_of ps i 0 0 (rw a.size h)

  -- The places of a composition are those of the first array, at the places of the second.
  pub places-compose :
      {xs ys : List ℕ}
      → IsArrangement n IsPiece place_of xs
      → IsArrangement n IsPiece place_of ys
      → places (compose_pieces place_of mix xs ys) ≡ follow (places xs) (places ys)
  places-compose {xs} {ys} a b =
      map_square place_of (λ y. mix (get_or xs (place_of y) 0) y) (λ i. get_or (places xs) i 0)
        place_of ys
        λ i h.
          let hn : i < n = rw (← b.size) h in
          let hp = laws.pos_lt _ (b.piece i hn) in
          laws.pos_mix _ _ (a.piece _ hp) (b.piece i hn)
          ∙ sym (get_or-map place_of xs _ 0 0 (rw a.size hp))

  module _ (f : ℕ → ℕ) (m : ℕ)
      (f_mix : (x y : ℕ) → IsPiece x → IsPiece y → f (mix x y) % m ≡ (f x + f y) % m) where
    pub sum_over-compose :
        {xs ys : List ℕ}
        → IsArrangement n IsPiece place_of xs
        → IsArrangement n IsPiece place_of ys
        → sum_over (compose_pieces place_of mix xs ys) f % m ≡ (sum_over xs f + sum_over ys f) % m
    sum_over-compose {xs} {ys} a b =
        let g : ℕ → ℕ = λ y. mix (get_or xs (place_of y) 0) y in
        let carried : ℕ → ℕ = λ v. f (get_or xs v 0) in
        let pys = places-IsPerm b in
        let ids = from_permutation n in
        let size : length (places ys) ≡ n = length-map place_of ys ∙ b.size in
        ap (λ t. t % m) (sum_over-map g ys f)
        ∙ sum_over_mod m ys (λ y. f (g y)) (λ y. carried (place_of y) + f y)
            (λ i h.
              let hn : i < n = rw (← b.size) h in
              f_mix _ _ (a.piece _ (laws.pos_lt _ (b.piece i hn))) (b.piece i hn))
        ∙ ap (λ t. t % m)
            (sum_over_add ys (λ y. carried (place_of y)) f
              ∙ ap (λ t. t + sum_over ys f)
                  (sym (sum_over-map place_of ys carried)
                    ∙ sum_over_permutation n (places ys) carried size
                        (λ i h. omega (arith, pys.bounded i h)) pys.injective
                    ∙ sym (sum_over_permutation n (from 0 n) carried ids.0 ids.1 ids.2)
                    ∙ sym (sum_over-map (λ i. get_or xs i 0) (from 0 n) f)
                    ∙ ap (λ t. sum_over t f)
                        (ap (λ k. follow xs (from 0 k)) (sym a.size) ∙ follow-from xs)))
