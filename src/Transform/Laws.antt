-- ===== src/Transform/Laws.antt =====
-- The symmetries as maps of the group of cubes.
pub mod Moved
pub mod Symmetry
use h.Base.{
  ℕ, zero, suc, ◌+◌, ◌≤◌, ◌<◌, Bool, true, false, not, ◌&&◌, ◌||◌, ◌≡◌, refl, sym, ap, ◌∙◌, ◌==◌,
  ltb, leb, arith, get_or, length, all_below, all_below_sound, all_below₂_sound, List, [], ◌∷◌,
  if◌then◌else◌, Bool-cases, inl, inr, ◌⊎◌,
}
use h.Cube.{Cube, zero_cube, solved_cube, compose, inverse, equal, invertco}
use h.Cube.Group.{
  IsCube, HasRoom, compose-IsCube, compose_assoc, compose_solved, solved_compose, inverse-IsCube,
  inverse_lem, inverse_unique, inverse-compose, inverse_involutive, solved-IsCube,
}
use h.Cube.Mirror.{invertco-IsCube, invertco-compose}
use h.Oriented.Checked.{all_cubes, all_cubes_sound}
use h.Moves.Laws.{equal→≡}
use h.Transform.{
  trans_cubes, trans_cubes_inverse, trans_cube, trans_cube_inverse, trans_switch, transform,
  inverse_trans,
}

trans_cubes_checked : all_cubes trans_cubes ≡ true
unfolding all_cubes trans_cubes
trans_cubes_checked = refl

trans_cubes_inverse_checked : all_cubes trans_cubes_inverse ≡ true
unfolding all_cubes trans_cubes_inverse
trans_cubes_inverse_checked = refl

pub trans_cube-IsCube : (t : ℕ) → t < 48 → IsCube (trans_cube t)
unfolding trans_cubes
trans_cube-IsCube t h = all_cubes_sound trans_cubes t zero_cube trans_cubes_checked h

pub trans_cube_inverse-IsCube : (t : ℕ) → t < 48 → IsCube (trans_cube_inverse t)
unfolding trans_cubes_inverse
trans_cube_inverse-IsCube t h =
    all_cubes_sound trans_cubes_inverse t zero_cube trans_cubes_inverse_checked h

inverse_table :
    all_below 48 (λ t.
      equal (compose (trans_cube_inverse t) (trans_cube t)) solved_cube
      && equal (compose (trans_cube t) (trans_cube_inverse t)) solved_cube)
    ≡ true
unfolding all_below equal compose trans_cubes trans_cubes_inverse
inverse_table = refl

pub trans_cubes_cancel :
    (t : ℕ)
    → t < 48
    → (compose (trans_cube_inverse t) (trans_cube t) ≡ solved_cube)
      × (compose (trans_cube t) (trans_cube_inverse t) ≡ solved_cube)
trans_cubes_cancel t h = (
  equal→≡ (compose-IsCube hi ht) solved-IsCube (ground (arith, row)),
  equal→≡ (compose-IsCube ht hi) solved-IsCube (ground (arith, row)),
)
  where
    ht : IsCube (trans_cube t)
    ht = trans_cube-IsCube t h

    hi : IsCube (trans_cube_inverse t)
    hi = trans_cube_inverse-IsCube t h

    row :
        (equal (compose (trans_cube_inverse t) (trans_cube t)) solved_cube
          && equal (compose (trans_cube t) (trans_cube_inverse t)) solved_cube)
        ≡ true
    row =
        all_below_sound 48
          (λ k.
            equal (compose (trans_cube_inverse k) (trans_cube k)) solved_cube
            && equal (compose (trans_cube k) (trans_cube_inverse k)) solved_cube)
          t inverse_table h

-- Conjugation by a cube.
abbrev pub conjugate : ℕ → Cube → Cube
conjugate t c = compose (compose (trans_cube t) c) (trans_cube_inverse t)

pub conjugate-IsCube : (t : ℕ) {c : Cube} → t < 48 → IsCube c → IsCube (conjugate t c)
conjugate-IsCube t h hc =
    compose-IsCube (compose-IsCube (trans_cube-IsCube t h) hc) (trans_cube_inverse-IsCube t h)

conjugate-compose :
    (t : ℕ) {a b : Cube}
    → t < 48
    → IsCube a
    → IsCube b
    → conjugate t (compose a b) ≡ compose (conjugate t a) (conjugate t b)
conjugate-compose t {a} {b} h ha hb =
    let ht = trans_cube-IsCube t h in
    let hi = trans_cube_inverse-IsCube t h in
    let x = trans_cube t in
    let y = trans_cube_inverse t in
    sym (
      compose_assoc (compose-IsCube ht ha) hi (compose-IsCube (compose-IsCube ht hb) hi)
      ∙ ap (compose (compose x a)) (
          sym (compose_assoc hi (compose-IsCube ht hb) hi)
          ∙ ap (λ s. compose s y)
              (sym (compose_assoc hi ht hb)
                ∙ ap (λ s. compose s b) (trans_cubes_cancel t h).0
                ∙ solved_compose hb))
      ∙ sym (compose_assoc (compose-IsCube ht ha) hb hi)
      ∙ ap (λ s. compose s y) (compose_assoc ht ha hb))

-- What the `switch` of `transform` does in each of its ranges.
pub transform_zero : (c : Cube) → transform c 0 ≡ c
unfolding transform trans_switch
transform_zero c = refl

pub transform_same : (c : Cube) → IsCube c → transform c 0 ≡ conjugate 0 c
unfolding transform trans_switch trans_cubes trans_cubes_inverse
transform_same c hc = sym (ap (λ t. compose t solved_cube) (solved_compose hc) ∙ compose_solved hc)

pub transform_rotation : {c : Cube} (t : ℕ) → t < 24 → IsCube c → transform c t ≡ conjugate t c
unfolding transform trans_switch
transform_rotation {c} zero h hc = transform_same c hc
transform_rotation {c} (suc t) h hc = ground arith

pub transform_mirrored :
    (c : Cube) (t : ℕ) → 24 ≤ t → t < 48 → transform c t ≡ invertco (conjugate t c)
unfolding transform trans_switch
transform_mirrored c t h h' = ground arith

halves : (t : ℕ) → (t < 24) ⊎ (24 ≤ t)
halves t = omega arith

-- A symmetry takes a cube to a cube.
pub transform-IsCube : {c : Cube} (t : ℕ) → t < 48 → IsCube c → IsCube (transform c t)
transform-IsCube {c} t h hc = elim (halves t) [
  | inl low ↦ rw (transform_rotation t low hc) (conjugate-IsCube t h hc)
  | inr high ↦ rw (transform_mirrored c t high h) (invertco-IsCube (conjugate-IsCube t h hc))
]

-- Each of the 48 symmetries respects the composition of cubes of the puzzle.
pub transform-compose :
    {a b : Cube} (t : ℕ)
    → t < 48
    → IsCube a
    → IsCube b
    → transform (compose a b) t ≡ compose (transform a t) (transform b t)
transform-compose {a} {b} t h ha hb = elim (halves t) [
  | inl low ↦
      rw
        (
          transform_rotation t low ha,
          transform_rotation t low hb,
          transform_rotation t low (compose-IsCube ha hb),
        )
        (conjugate-compose t h ha hb)
  | inr high ↦
      rw
        (
          transform_mirrored a t high h,
          transform_mirrored b t high h,
          transform_mirrored (compose a b) t high h,
        )
        (ap invertco (conjugate-compose t h ha hb)
          ∙ invertco-compose (conjugate-IsCube t h ha) (conjugate-IsCube t h hb))
]
