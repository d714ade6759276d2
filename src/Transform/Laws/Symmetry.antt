-- ===== src/Transform/Laws/Symmetry.antt =====
-- `symmetry_mask` collects the symmetries that fix a cube; the partial transformations agree with
-- the whole one.
use h.Base.{
  ℕ, zero, suc, ◌+◌, ◌*◌, ◌/◌, ◌%◌, ◌^◌, ◌≤◌, ◌<◌, Bool, List, ◌≡◌, refl, sym, ap, ◌∙◌, ◌≢◌, ◌↔◌,
  arith, of_bool,
}
use h.Base.Bits.{bit_or_add}
use h.Cube.{Cube, equal, compose, compose_edges, compose_corners, zero_cube, invertco}
use h.Cube.Group.{IsCube}
use h.Moves.Laws.{IsCube-HasRoom}
use h.Oriented.Equal.{equal_iff}
use h.Transform.{
  transform, symmetry_loop, symmetry_mask, trans_switch, transform_edges, transform_corners,
}
use h.Transform.Laws.{transform-IsCube}
use native.Mathlib.Nat.{pow-suc, div-div-eq-div-mul, mul_comm, add-zero}
use native.Mathlib.Numerals.{add-one}

-- Bit `t` of a mask.
abbrev pub bit_at : ℕ → ℕ → ℕ
bit_at t mask = mask / 2 ^ t % 2

of_bool-le_one : (b : Bool) → of_bool b ≤ 1
of_bool-le_one b = ground arith

bit_at-suc : (k b x : ℕ) → b ≤ 1 → bit_at (suc k) (b + 2 * x) ≡ bit_at k x
bit_at-suc k b x h =
    let half : (b + 2 * x) / 2 ≡ x = omega arith in
    let p : 2 ^ suc k ≡ 2 * 2 ^ k = pow-suc 2 k ∙ mul_comm (2 ^ k) 2 in
    ap (λ t. (b + 2 * x) / t % 2) p
    ∙ ap (λ t. t % 2) (sym (div-div-eq-div-mul (b + 2 * x) 2 (2 ^ k)))
    ∙ ap (λ t. t / 2 ^ k % 2) half

-- The answers of the tests from symmetry `t` on, the first in the lowest bit.
answers : ℕ → ℕ → Cube → ℕ
answers zero t c = 0
answers (suc left) t c = of_bool (equal c (transform c t)) + 2 * answers left (t + 1) c

symmetry_loop_lem :
    (left t : ℕ) (c : Cube) (ret : ℕ)
    → ret < 2 ^ t
    → symmetry_loop left t c ret ≡ ret + answers left t c * 2 ^ t
unfolding symmetry_loop answers
symmetry_loop_lem zero t c ret h = omega arith
symmetry_loop_lem (suc left) t c ret h =
    let b : ℕ = of_bool (equal c (transform c t)) in
    let small : b ≤ 1 = of_bool-le_one (equal c (transform c t)) in
    let p : 2 ^ (t + 1) ≡ 2 ^ t * 2 = ap (λ (k : ℕ). 2 ^ k) (add-one t) ∙ pow-suc 2 t in
    let fits : b * 2 ^ t ≤ 2 ^ t = grind arith in
    ap (symmetry_loop left (t + 1) c) (bit_or_add t ret b h)
    ∙ symmetry_loop_lem left (t + 1) c (ret + b * 2 ^ t) (omega arith)
    ∙ ap (λ k. ret + b * 2 ^ t + answers left (t + 1) c * k) p
    ∙ omega arith

bit_at-answers :
    (left t : ℕ) (c : Cube) (k : ℕ)
    → k < left
    → bit_at k (answers left t c) ≡ of_bool (equal c (transform c (t + k)))
unfolding answers
bit_at-answers zero t c k h = absurd (omega arith)
bit_at-answers (suc left) t c zero h =
    let test : ℕ → ℕ = λ k. of_bool (equal c (transform c k)) in
    let low : (test t + 2 * answers left (t + 1) c) / 2 ^ 0 % 2 ≡ test t =
      omega (arith, of_bool-le_one (equal c (transform c t))) in
    low ∙ ap test (sym (add-zero t))
bit_at-answers (suc left) t c (suc k) h =
    let test : ℕ → ℕ = λ k. of_bool (equal c (transform c k)) in
    let e : t + 1 + k ≡ t + suc k = omega arith in
    bit_at-suc k (test t) (answers left (t + 1) c) (of_bool-le_one (equal c (transform c t)))
    ∙ bit_at-answers left (t + 1) c k (omega arith)
    ∙ ap test e

bit_at-symmetry_mask :
    (c : Cube) (t : ℕ) → t < 48 → bit_at t (symmetry_mask c) ≡ of_bool (equal c (transform c t))
unfolding symmetry_mask
bit_at-symmetry_mask c t h =
    let whole : symmetry_loop 48 0 c 0 ≡ answers 48 0 c =
      symmetry_loop_lem 48 0 c 0 (omega arith) ∙ omega arith in
    let e : 0 + t ≡ t = omega arith in
    ap (bit_at t) whole ∙ bit_at-answers 48 0 c t h ∙ ap (λ k. of_bool (equal c (transform c k))) e

-- For a cube of the puzzle and each `t` below 48, bit `t` of the symmetry mask is set exactly if
-- symmetry `t` fixes the cube.
pub symmetry_mask_iff :
    {c : Cube} (t : ℕ) → t < 48 → IsCube c → (bit_at t (symmetry_mask c) ≡ 1) ↔ (transform c t ≡ c)
symmetry_mask_iff {c} t h hc =
    let same =
      equal_iff c (transform c t) (IsCube-HasRoom hc) (IsCube-HasRoom (transform-IsCube t h hc)) in
    let bit = bit_at-symmetry_mask c t h in
    (λ e. sym (same.0 (ground arith)), λ e. let yes' = same.1 (sym e) in ground arith)

module _ (t : ℕ) (same turned flipped same' turned' flipped' : Cube) where
  switch_edges :
      same.edge ≡ same'.edge
      → turned.edge ≡ turned'.edge
      → flipped.edge ≡ flipped'.edge
      → (trans_switch t same turned flipped).edge ≡ (trans_switch t same' turned' flipped').edge
  unfolding trans_switch
  switch_edges p q r = ground arith

  switch_corners :
      same.corner ≡ same'.corner
      → turned.corner ≡ turned'.corner
      → flipped.corner ≡ flipped'.corner
      → (trans_switch t same turned flipped).corner ≡ (trans_switch t same' turned' flipped').corner
  unfolding trans_switch
  switch_corners p q r = ground arith

-- Away from the identity the result is one of the two turned cubes.
switch_away :
    (t : ℕ) (same turned flipped : Cube) (half : Cube → List ℕ) {xs : List ℕ}
    → t ≢ 0
    → t < 48
    → half turned ≡ xs
    → half flipped ≡ xs
    → half (trans_switch t same turned flipped) ≡ xs
unfolding trans_switch
switch_away t same turned flipped half ne h p q = ground arith

-- For each of the 48 symmetries, `transform_edges` and `transform_corners` agree with `transform`
-- on their own half of the cube, and give zeros on the other half if the symmetry is not the
-- identity.
pub transform_halves :
    (c : Cube) (t : ℕ)
    → t < 48
    → ((transform_edges c t).edge ≡ (transform c t).edge)
      × ((transform_corners c t).corner ≡ (transform c t).corner)
      × (t ≢ 0 → (transform_edges c t).corner ≡ zero_cube.corner)
      × (t ≢ 0 → (transform_corners c t).edge ≡ zero_cube.edge)
unfolding transform_edges transform_corners transform compose compose_edges compose_corners invertco
transform_halves c t h = (
  switch_edges t _ _ _ _ _ _ refl refl refl,
  switch_corners t _ _ _ _ _ _ refl refl refl,
  λ ne. switch_away t _ _ _ (λ d. d.corner) ne h refl refl,
  λ ne. switch_away t _ _ _ (λ d. d.edge) ne h refl refl,
)
