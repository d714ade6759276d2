-- ===== src/Oriented/Marks.antt =====
-- The loops of `isconsistent`: what a marked place says of the pieces, and when every place is marked.
use h.Base.{
  ℕ, zero, suc, ◌+◌, ◌<◌, ◌≤◌, bit_and, Bool, true, false, ◌≡◌, refl, ap, ◌∙◌, ◌⊎◌, inl, inr, List,
  [], ◌∷◌, some, map, ◌==◌, arith, length, length-set, get_or, get_or-set_self, get_or-set_ne, set,
  replicate, count, of_bool, ℕ_discrete,
}
use h.Cube.Pieces.{place_of}
use h.Oriented.{mark_found, clear_found, all_found}

module _ (bound mask : ℕ) (valid : ℕ → Bool) where
  -- What the loop has checked of each piece it went through.
  abbrev pub Passes : List ℕ → Type 0
  Passes ps =
      (k : ℕ)
      → k < length ps
      → (place_of (get_or ps k 0) < bound) × (valid (bit_and (get_or ps k 0) mask) ≡ true)

  mark_found_step :
      (p : ℕ) (ps : List ℕ) (found out : List Bool)
      → mark_found bound mask valid (p ∷ ps) found ≡ some out
      → (place_of p < bound)
        × (valid (bit_and p mask) ≡ true)
        × (mark_found bound mask valid ps (set found (place_of p) true) ≡ some out)
  unfolding mark_found
  mark_found_step p ps found out e = ground arith

  pub mark_found_sound :
      (ps : List ℕ) (found out : List Bool)
      → mark_found bound mask valid ps found ≡ some out
      → Passes ps
        × ((v : ℕ)
            → get_or out v false ≡ true
            → (get_or found v false ≡ true) ⊎ (0 < count v (map place_of ps)))
  unfolding mark_found count
  mark_found_sound [] found out e = (λ k h. absurd (omega arith), λ v h. inl (ground arith))
  mark_found_sound (p ∷ ps) found out e =
      let (a, b, r) = mark_found_step p ps found out e in
      let (c, d) = mark_found_sound ps (set found (place_of p) true) out r in
      (passes a b c, marked d)
    where
      passes : place_of p < bound → valid (bit_and p mask) ≡ true → Passes ps → Passes (p ∷ ps)
      passes a b c zero h = (a, b)
      passes a b c (suc k) h = c k (omega arith)

      marked :
          ((v : ℕ)
            → get_or out v false ≡ true
            → (get_or (set found (place_of p) true) v false ≡ true)
              ⊎ (0 < count v (map place_of ps)))
          → (v : ℕ) → get_or out v false ≡ true
          → (get_or found v false ≡ true)
            ⊎ (0 < of_bool (place_of p == v) + count v (map place_of ps))
      marked d v h = elim (ℕ_discrete (place_of p) v) [
        | yes q ↦ inr (ground arith)
        | no q ↦ ground (arith, d v, get_or-set_ne found (place_of p) v true false q)
      ]

  pub mark_found_complete :
      (ps : List ℕ) (found : List Bool)
      → bound ≤ length found
      → Passes ps
      → (out : List Bool) × (mark_found bound mask valid ps found ≡ some out)
        × (length out ≡ length found)
        × ((v : ℕ) → get_or found v false ≡ true → get_or out v false ≡ true)
        × ((v : ℕ) → 0 < count v (map place_of ps) → get_or out v false ≡ true)
  unfolding mark_found count
  mark_found_complete [] found room pass =
      (found, refl, refl, λ v h. h, λ v h. absurd (omega arith))
  mark_found_complete (p ∷ ps) found room pass =
      let here = pass 0 (omega arith) in
      let (out, e, len, keep, hit) =
        mark_found_complete ps (set found (place_of p) true)
          (rw (length-set found (place_of p) true) room) (λ k h. pass (suc k) (omega arith)) in
      (
        out,
        ground (arith, here),
        len ∙ length-set found (place_of p) true,
        λ v h. elim (ℕ_discrete (place_of p) v) [
          | yes q ↦ keep v (rw (← q) (get_or-set_self found (place_of p) true false (omega arith)))
          | no q ↦ keep v (get_or-set_ne found (place_of p) v true false q ∙ h)
        ],
        λ v h. elim (ℕ_discrete (place_of p) v) [
          | yes q ↦ keep v (rw (← q) (get_or-set_self found (place_of p) true false (omega arith)))
          | no q ↦ hit v (ground (arith))
        ],
      )

pub all_found_sound :
    (left i : ℕ) (found : List Bool) (v : ℕ)
    → all_found left i found ≡ true
    → i ≤ v
    → v < i + left
    → get_or found v false ≡ true
unfolding all_found
all_found_sound zero i found v h p q = absurd (omega arith)
all_found_sound (suc left) i found v h p q = elim (ℕ_discrete i v) [
  | yes e ↦ ground arith
  | no ne ↦ all_found_sound left (i + 1) found v (ground arith) (omega arith) (omega arith)
]

pub all_found_complete :
    (left i : ℕ) (found : List Bool)
    → ((v : ℕ) → v < i + left → get_or found v false ≡ true)
    → all_found left i found ≡ true
unfolding all_found
all_found_complete zero i found h = refl
all_found_complete (suc left) i found h =
    rw (h i (omega arith)) (all_found_complete left (i + 1) found (λ v p. h v (omega arith)))

pub get_or-replicate : (n v : ℕ) → get_or (replicate n false) v false ≡ false
get_or-replicate zero v = refl
get_or-replicate (suc n) zero = refl
get_or-replicate (suc n) (suc v) = get_or-replicate n v

pub get_or-clear :
    (n : ℕ) (found : List Bool) (v : ℕ) → v < n → get_or (clear_found n found) v false ≡ false
unfolding clear_found
get_or-clear zero found v h = absurd (omega arith)
get_or-clear (suc n) [] v h = refl
get_or-clear (suc n) (b ∷ found) zero h = refl
get_or-clear (suc n) (b ∷ found) (suc v) h = get_or-clear n found v (omega arith)

pub length-clear : (n : ℕ) (found : List Bool) → length (clear_found n found) ≡ length found
unfolding clear_found
length-clear zero found = refl
length-clear (suc n) [] = refl
length-clear (suc n) (b ∷ found) = ap suc (length-clear n found)
