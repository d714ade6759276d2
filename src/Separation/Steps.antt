-- ===== src/Separation/Steps.antt =====
-- A round of the loops of `coord_esep` and `invcoord_esep_array`, by the slice of the edge.
use h.Base.{
  ℕ, suc, ◌+◌, ◌-◌, ◌*◌, ◌/◌, ◌^◌, ◌<◌, bit_and, bit_or, true, false, List, [], ◌∷◌, ◌≡◌, refl, ap,
  ◌∙◌, ltb, leb, of_bool, get_or, set, arith, Bool-cases, inl, inr,
}
use native.Mathlib.Nat.{mul-zero, zero-mul, mul-one}
use h.Separation.{binomial, esepbit_1, esepbit_2, coord_esep_loop, esep_array_loop}
use h.Separation.Combinations.{piece_bits}
use h.Separation.Kept.{bound_1}

coord_esep_loop-cons :
    (e : ℕ) (edge : List ℕ) (i j k l ret1 ret2 bit1 bit2 : ℕ)
    → bit_and e esepbit_1 / 2 ^ 2 ≡ bit1
    → bit_and e esepbit_2 / 2 ^ 3 ≡ bit2
    → coord_esep_loop (e ∷ edge) i j k l ret1 ret2
      ≡ coord_esep_loop edge
          (i + 1)
          (j + (1 - bit2))
          (k - bit2)
          (l - (1 - bit2) * bit1)
          (ret1 + bit2 * get_or (get_or binomial (11 - i) []) k 0)
          (ret2
            + of_bool (ltb j 8)
              * ((1 - bit2) * bit1)
              * get_or (get_or binomial (7 - j * of_bool (ltb j 8)) []) l 0)
unfolding coord_esep_loop
coord_esep_loop-cons e edge i j k l ret1 ret2 bit1 bit2 p q = rw (p, q) refl

coord_same :
    (edge : List ℕ) (i : ℕ) {j k l a b j' k' l' a' b' : ℕ}
    → j ≡ j'
    → k ≡ k'
    → l ≡ l'
    → a ≡ a'
    → b ≡ b'
    → coord_esep_loop edge i j k l a b ≡ coord_esep_loop edge i j' k' l' a' b'
coord_same edge i ej ek el ea eb = rw (ej, ek, el, ea, eb) refl

array_same :
    (left i : ℕ) {a b j k l a' b' j' k' l' : ℕ} (slice : List ℕ)
    → a ≡ a'
    → b ≡ b'
    → j ≡ j'
    → k ≡ k'
    → l ≡ l'
    → esep_array_loop left a b i j k l slice ≡ esep_array_loop left a' b' i j' k' l' slice
array_same left i slice ea eb ej ek el = rw (ea, eb, ej, ek, el) refl

module _ (left set1 set2 i j k l : ℕ) (slice : List ℕ) where
  pub array_top :
      leb (get_or (get_or binomial (11 - i) []) k 0) set2 ≡ true
      → esep_array_loop (suc left) set1 set2 i j k l slice
        ≡ bit_or (get_or slice 2 0) (2 * 2 ^ 2)
          ∷ esep_array_loop left set1
              (set2 - get_or (get_or binomial (11 - i) []) k 0)
              (i + 1)
              j
              (k - 1)
              l
              (set slice 2 (get_or slice 2 0 + 1))
  unfolding esep_array_loop bound_1
  array_top top = elim (Bool-cases (leb (bound_1 j l) set1)) [
    | inl b ↦
        rw (top, b)
          (ap (λ t. bit_or (get_or slice 2 0) (2 * 2 ^ 2) ∷ t)
            (array_same left (i + 1) _ (omega arith) (omega arith) (omega arith) (omega arith)
              (omega arith)))
    | inr b ↦
        rw (top, b)
          (ap (λ t. bit_or (get_or slice 2 0) (2 * 2 ^ 2) ∷ t)
            (array_same left (i + 1) _ (omega arith) (omega arith) (omega arith) (omega arith)
              (omega arith)))
  ]

  pub array_middle :
      leb (get_or (get_or binomial (11 - i) []) k 0) set2 ≡ false
      → leb (bound_1 j l) set1 ≡ true
      → esep_array_loop (suc left) set1 set2 i j k l slice
        ≡ bit_or (get_or slice 1 0) (1 * 2 ^ 2)
          ∷ esep_array_loop left
              (set1 - bound_1 j l)
              set2
              (i + 1)
              (j + 1)
              k
              (l - 1)
              (set slice 1 (get_or slice 1 0 + 1))
  unfolding esep_array_loop bound_1
  array_middle below middle =
      rw (below, middle)
        (ap (λ t. bit_or (get_or slice 1 0) (1 * 2 ^ 2) ∷ t)
          (array_same left (i + 1) _ (omega arith) (omega arith) (omega arith) (omega arith)
            (omega arith)))

  pub array_first :
      leb (get_or (get_or binomial (11 - i) []) k 0) set2 ≡ false
      → leb (bound_1 j l) set1 ≡ false
      → esep_array_loop (suc left) set1 set2 i j k l slice
        ≡ bit_or (get_or slice 0 0) (0 * 2 ^ 2)
          ∷ esep_array_loop left set1 set2 (i + 1) (j + 1) k l (set slice 0 (get_or slice 0 0 + 1))
  unfolding esep_array_loop bound_1
  array_first below first =
      rw (below, first)
        (ap (λ t. bit_or (get_or slice 0 0) (0 * 2 ^ 2) ∷ t)
          (array_same left (i + 1) _ (omega arith) (omega arith) (omega arith) (omega arith)
            (omega arith)))

no_part : (t x r : ℕ) → r + t * 0 * x ≡ r
no_part t x r = rw (mul-zero t, zero-mul x) (omega arith)

one_part : (t x r : ℕ) → r + t * 1 * x ≡ r + t * x
one_part t x r = rw (mul-one t) refl

module _ (a : ℕ) (edge : List ℕ) (i j k l ret1 ret2 : ℕ) (small : a < 4) where
  pub coord_top :
      coord_esep_loop (bit_or a (2 * 2 ^ 2) ∷ edge) i j k l ret1 ret2
      ≡ coord_esep_loop edge
          (i + 1)
          j
          (k - 1)
          l
          (ret1 + get_or (get_or binomial (11 - i) []) k 0)
          ret2
  coord_top =
      let (p, q) = piece_bits a 2 small (omega arith) in
      coord_esep_loop-cons _ edge i j k l ret1 ret2 0 1 p q
      ∙ coord_same edge (i + 1) (omega arith) (omega arith) (omega arith) (omega arith)
          (no_part (of_bool (ltb j 8)) _ ret2)

  pub coord_middle :
      coord_esep_loop (bit_or a (1 * 2 ^ 2) ∷ edge) i j k l ret1 ret2
      ≡ coord_esep_loop edge (i + 1) (j + 1) k (l - 1) ret1 (ret2 + bound_1 j l)
  unfolding bound_1
  coord_middle =
      let (p, q) = piece_bits a 1 small (omega arith) in
      coord_esep_loop-cons _ edge i j k l ret1 ret2 1 0 p q
      ∙ coord_same edge (i + 1) (omega arith) (omega arith) (omega arith) (omega arith)
          (one_part (of_bool (ltb j 8)) _ ret2)

  pub coord_first :
      coord_esep_loop (bit_or a (0 * 2 ^ 2) ∷ edge) i j k l ret1 ret2
      ≡ coord_esep_loop edge (i + 1) (j + 1) k l ret1 ret2
  coord_first =
      let (p, q) = piece_bits a 0 small (omega arith) in
      coord_esep_loop-cons _ edge i j k l ret1 ret2 0 0 p q
      ∙ coord_same edge (i + 1) (omega arith) (omega arith) (omega arith) (omega arith)
          (no_part (of_bool (ltb j 8)) _ ret2)
