-- ===== src/Separation/Flipped.antt =====
-- `set_eo` of src/arch/portable.h leaves the separation of the edges as it is, and `coord_eo` reads back what
-- it wrote on the edges made of a separation.
use h.Base.{
  ℕ, zero, suc, ◌+◌, ◌-◌, ◌*◌, ◌/◌, ◌%◌, ◌^◌, ◌<◌, ◌≤◌, bit_and, bit_or, Bool, true, false, ◌&&◌,
  List, [], ◌∷◌, ◌≡◌, refl, ap, ◌∙◌, ltb, of_bool, ◌==◌, get_or, set, length, length-set, arith,
  all_below, all_below₂_sound, ltb→lt,
}
use h.Cube.{Cube}
use h.Coordinates.{set_eo, set_eo_loop, set_flip, coord_eo}
use h.Coordinates.Flips.{coord_eo-list}
use h.Separation.{
  esepbit_1, esepbit_2, coord_esep_loop, coord_esep, esep_array_loop, invcoord_esep_array,
  invcoord_esep, invcoord_eoesep,
}
use h.Separation.Slices.{coord_esep-invcoord_esep}

-- `ys` are edges in the slices of `xs`.
record Same (xs ys : List ℕ) : Type 0 where
  size : length ys ≡ length xs
  small : (k : ℕ) → get_or ys k 0 < 32
  bit1 : (k : ℕ) → bit_and (get_or ys k 0) esepbit_1 ≡ bit_and (get_or xs k 0) esepbit_1
  bit2 : (k : ℕ) → bit_and (get_or ys k 0) esepbit_2 ≡ bit_and (get_or xs k 0) esepbit_2

flip_table :
    all_below 32 (λ x. all_below 2 (λ f.
      ltb (set_flip x f) 32
      && (bit_and (set_flip x f) esepbit_1 == bit_and x esepbit_1
          && bit_and (set_flip x f) esepbit_2 == bit_and x esepbit_2)))
    ≡ true
unfolding all_below set_flip
flip_table = refl

flip_row :
    (x f : ℕ)
    → x < 32
    → f < 2
    → (set_flip x f < 32)
      × (bit_and (set_flip x f) esepbit_1 ≡ bit_and x esepbit_1)
      × (bit_and (set_flip x f) esepbit_2 ≡ bit_and x esepbit_2)
flip_row x f hx hf = ground (
  arith,
  all_below₂_sound 32 2
      (λ x. λ f.
        ltb (set_flip x f) 32
        && (bit_and (set_flip x f) esepbit_1 == bit_and x esepbit_1
            && bit_and (set_flip x f) esepbit_2 == bit_and x esepbit_2))
      x f flip_table hx hf,
)

-- A property of the entries that the written value has too.
get_or-set_all :
    (P : ℕ → ℕ → Type 0) (xs : List ℕ) (i v : ℕ)
    → P i v
    → ((k : ℕ) → P k (get_or xs k 0))
    → (k : ℕ) → P k (get_or (set xs i v) k 0)
get_or-set_all P [] i v p h k = h k
get_or-set_all P (x ∷ xs) zero v p h zero = p
get_or-set_all P (x ∷ xs) zero v p h (suc k) = h (suc k)
get_or-set_all P (x ∷ xs) (suc i) v p h zero = h zero
get_or-set_all P (x ∷ xs) (suc i) v p h (suc k) =
    get_or-set_all (λ k. P (suc k)) xs i v p (λ k. h (suc k)) k

Same-flip :
    (xs ys : List ℕ) (i f : ℕ)
    → f < 2
    → Same xs ys
    → Same xs (set ys i (set_flip (get_or ys i 0) f))
Same-flip xs ys i f hf s =
    let (low, b1, b2) = flip_row (get_or ys i 0) f (s.small i) hf in
    record {
      size = length-set ys i (set_flip (get_or ys i 0) f) ∙ s.size;
      small = get_or-set_all (λ k v. v < 32) ys i _ low s.small;
      bit1 =
          get_or-set_all (λ k v. bit_and v esepbit_1 ≡ bit_and (get_or xs k 0) esepbit_1) ys i _
            (b1 ∙ s.bit1 i) s.bit1;
      bit2 =
          get_or-set_all (λ k v. bit_and v esepbit_2 ≡ bit_and (get_or xs k 0) esepbit_2) ys i _
            (b2 ∙ s.bit2 i) s.bit2;
    }

Same-set_eo_loop :
    (left : ℕ) (xs ys : List ℕ) (i eo sum : ℕ)
    → Same xs ys
    → Same xs (set_eo_loop left ys i eo sum).0
unfolding set_eo_loop
Same-set_eo_loop zero xs ys i eo sum s = s
Same-set_eo_loop (suc left) xs ys i eo sum s =
    Same-set_eo_loop left xs (set ys i (set_flip (get_or ys i 0) (eo % 2))) (i + 1) (eo / 2)
      (sum + eo % 2) (Same-flip xs ys i (eo % 2) (omega arith) s)

coord_esep_loop-Same :
    (xs ys : List ℕ) (i j k l a b : ℕ)
    → Same xs ys
    → coord_esep_loop ys i j k l a b ≡ coord_esep_loop xs i j k l a b
unfolding coord_esep_loop
coord_esep_loop-Same [] [] i j k l a b s = refl
coord_esep_loop-Same [] (y ∷ ys) i j k l a b s = absurd (omega (arith, s.size))
coord_esep_loop-Same (x ∷ xs) [] i j k l a b s = absurd (omega (arith, s.size))
coord_esep_loop-Same (x ∷ xs) (y ∷ ys) i j k l a b s =
    rw (s.bit1 0, s.bit2 0)
      (coord_esep_loop-Same xs ys _ _ _ _ _ _ (record {
        size = omega (arith, s.size);
        small = λ n. s.small (suc n);
        bit1 = λ n. s.bit1 (suc n);
        bit2 = λ n. s.bit2 (suc n);
      }))

-- Flips do not change the separation.
coord_esep-set_eo :
    (c : Cube) (eo : ℕ)
    → ((k : ℕ) → get_or c.edge k 0 < 32)
    → coord_esep (set_eo c eo) ≡ coord_esep c
unfolding coord_esep set_eo
coord_esep-set_eo c eo small = coord_esep_loop-Same c.edge _ 0 0 4 4 0 0 (
    Same-flip c.edge (set_eo_loop 11 c.edge 1 eo 0).0 0 ((set_eo_loop 11 c.edge 1 eo 0).1 % 2)
      (omega arith)
      (Same-set_eo_loop 11 c.edge c.edge 1 eo 0
        (record { size = refl; small = small; bit1 = λ k. refl; bit2 = λ k. refl })))

made_table : all_below 16 (λ a. all_below 3 (λ s. ltb (bit_or a (s * 2 ^ 2)) 32)) ≡ true
unfolding all_below
made_table = refl

slice-lt : (b2 b1 : Bool) → 2 * of_bool b2 + (1 - of_bool b2) * of_bool b1 < 3
slice-lt true true = omega arith
slice-lt true false = omega arith
slice-lt false true = omega arith
slice-lt false false = omega arith

below_16 : (v i left : ℕ) → v ≤ i → i + suc left ≤ 15 → v < 16
below_16 v i left h h' = omega arith

next_le : (v i : ℕ) → v ≤ i → v + 1 ≤ i + 1
next_le v i h = omega arith

made_small :
    (left set1 set2 i j k l : ℕ) (slice : List ℕ)
    → i + left ≤ 15
    → ((s : ℕ) → get_or slice s 0 ≤ i)
    → (n : ℕ) → get_or (esep_array_loop left set1 set2 i j k l slice) n 0 < 32
unfolding esep_array_loop
made_small zero set1 set2 i j k l slice h counts n = omega arith
made_small (suc left) set1 set2 i j k l slice h counts zero = ltb→lt _ 32 (
    all_below₂_sound 16 3 (λ a. λ s. ltb (bit_or a (s * 2 ^ 2)) 32) _ _ made_table
      (below_16 _ i left (counts _) h) (slice-lt _ _))
made_small (suc left) set1 set2 i j k l slice h counts (suc n) =
    made_small left _ _ (i + 1) _ _ _ _ (omega arith)
      (get_or-set_all (λ s v. v ≤ i + 1) slice _ _ (next_le _ i (counts _))
        (λ s. omega (arith, counts s)))
      n

length-esep_array_loop :
    (left set1 set2 i j k l : ℕ) (slice : List ℕ)
    → length (esep_array_loop left set1 set2 i j k l slice) ≡ left
unfolding esep_array_loop
length-esep_array_loop zero set1 set2 i j k l slice = refl
length-esep_array_loop (suc left) set1 set2 i j k l slice =
    ap suc (length-esep_array_loop left _ _ _ _ _ _ _)

zeros : (s : ℕ) → get_or (0 ∷ 0 ∷ 0 ∷ []) s 0 ≤ 0
zeros zero = omega arith
zeros (suc zero) = omega arith
zeros (suc (suc zero)) = omega arith
zeros (suc (suc (suc s))) = omega arith

pub invcoord_esep_small : (esep n : ℕ) → get_or (invcoord_esep esep).edge n 0 < 32
unfolding invcoord_esep invcoord_esep_array
invcoord_esep_small esep n =
    made_small 12 (esep % 70) (esep / 70) 0 0 4 4 (0 ∷ 0 ∷ 0 ∷ []) (omega arith) zeros n

-- On edges made of a separation below 495 * 70, both the separation and the flips that `set_eo` wrote,
-- a number below 2^11, are read back, whatever the corners.
pub coord_esep-set_eo_made :
    (esep eo : ℕ) (corner : List ℕ)
    → esep < 34650
    → eo < 2048
    → (coord_esep (set_eo (record (invcoord_esep esep) { corner = corner }) eo) ≡ esep)
      × (coord_eo (set_eo (record (invcoord_esep esep) { corner = corner }) eo) ≡ eo)
unfolding coord_esep invcoord_esep
coord_esep-set_eo_made esep eo corner h h' = (
  coord_esep-set_eo (record (invcoord_esep esep) { corner = corner }) eo (invcoord_esep_small esep)
      ∙ coord_esep-invcoord_esep esep h,
  coord_eo-list eo h' (invcoord_esep esep).edge
      (length-esep_array_loop 12 (esep % 70) (esep / 70) 0 0 4 4 (0 ∷ 0 ∷ 0 ∷ []))
      (λ k p. invcoord_esep_small esep k) corner,
)

-- Of the 495 * 70 * 2^11 separations with flips, each is read back from the cube that `invcoord_eoesep`
-- makes of it.
pub invcoord_eoesep_lem :
    (i : ℕ)
    → i < 70963200
    → coord_esep (invcoord_eoesep i) * 2 ^ 11 + coord_eo (invcoord_eoesep i) ≡ i
unfolding invcoord_eoesep invcoord_esep
invcoord_eoesep_lem i h =
    let (e, f) =
      coord_esep-set_eo_made (i / 2 ^ 11) (i % 2048) (invcoord_esep (i / 2 ^ 11)).corner
        (omega arith) (omega arith) in
    omega (arith, e, f)
