-- ===== src/Transform/Laws/Moved.antt =====
-- The inverse symmetry, the symmetry of a move, and `symmetry_mask`.
use h.Base.{
  ℕ, ◌≤◌, ◌<◌, Bool, true, ◌&&◌, ◌≡◌, refl, sym, ap, ◌∙◌, ltb, leb, arith, all_below,
  all_below_sound, all_below₂_sound, if◌then◌else◌, inl, inr,
}
use h.Cube.{Cube, solved_cube, compose, equal, invertco}
use h.Cube.Group.{
  IsCube, compose-IsCube, compose_assoc, compose_solved, solved_compose, solved-IsCube,
}
use h.Cube.Mirror.{invertco-IsCube, invertco-compose, invertco_involutive}
use h.Moves.{move_cubes, move, transform_move}
use h.Moves.Laws.{equal→≡, move_cube, move_cube-IsCube, move_lem}
use h.Transform.{
  trans_cubes, trans_cubes_inverse, trans_cube, trans_cube_inverse, transform, inverse_trans,
}
use h.Transform.Laws.{
  trans_cube-IsCube, trans_cube_inverse-IsCube, conjugate, conjugate-IsCube, transform_rotation,
  transform_mirrored, transform-IsCube, transform-compose, halves,
}

conjugate_cancel :
    {p q x y c : Cube}
    → IsCube p
    → IsCube q
    → IsCube x
    → IsCube y
    → IsCube c
    → compose p x ≡ solved_cube
    → compose y q ≡ solved_cube
    → compose (compose p (compose (compose x c) y)) q ≡ c
conjugate_cancel {p} {q} {x} {y} {c} hp hq hx hy hc left right =
    ap (λ t. compose t q)
      (sym (compose_assoc hp (compose-IsCube hx hc) hy)
        ∙ ap (λ t. compose t y)
            (sym (compose_assoc hp hx hc) ∙ ap (λ t. compose t c) left ∙ solved_compose hc))
    ∙ compose_assoc hc hy hq
    ∙ ap (compose c) right
    ∙ compose_solved hc

abbrev rotation_row : ℕ → Bool
rotation_row t =
    ltb (inverse_trans t) 24
    && (equal (compose (trans_cube (inverse_trans t)) (trans_cube t)) solved_cube
        && equal (compose (trans_cube_inverse t) (trans_cube_inverse (inverse_trans t)))
            solved_cube)

abbrev mirror_row : ℕ → Bool
mirror_row t =
    (leb 24 (inverse_trans t) && ltb (inverse_trans t) 48)
    && (equal (compose (invertco (trans_cube (inverse_trans t))) (trans_cube t)) solved_cube
        && equal (compose (trans_cube_inverse t) (invertco (trans_cube_inverse (inverse_trans t))))
            solved_cube)

inverse_table : all_below 48 (λ t. if ltb t 24 then rotation_row t else mirror_row t) ≡ true
unfolding all_below equal compose trans_cubes trans_cubes_inverse invertco inverse_trans
inverse_table = refl

inverse_row : (t : ℕ) → t < 48 → (if ltb t 24 then rotation_row t else mirror_row t) ≡ true
inverse_row t h =
    all_below_sound 48 (λ k. if ltb k 24 then rotation_row k else mirror_row k) t inverse_table h

pub inverse_trans-lt : (t : ℕ) → t < 48 → inverse_trans t < 48
inverse_trans-lt t h = ground (arith, inverse_row t h)

transform-inverse_rotation :
    {c : Cube} (t : ℕ) → t < 24 → IsCube c → transform (transform c t) (inverse_trans t) ≡ c
transform-inverse_rotation {c} t h hc =
    let row : rotation_row t ≡ true = ground (arith, inverse_row t) in
    let s = inverse_trans t in
    let low : s < 24 = ground arith in
    let ht = trans_cube-IsCube t (omega arith) in
    let hi = trans_cube_inverse-IsCube t (omega arith) in
    let hs = trans_cube-IsCube s (omega arith) in
    let hj = trans_cube_inverse-IsCube s (omega arith) in
    ap (λ d. transform d s) (transform_rotation t h hc)
    ∙ transform_rotation s low (conjugate-IsCube t (omega arith) hc)
    ∙ conjugate_cancel hs hj ht hi hc (equal→≡ (compose-IsCube hs ht) solved-IsCube (ground arith))
        (equal→≡ (compose-IsCube hi hj) solved-IsCube (ground arith))

transform-inverse_mirrored :
    {c : Cube} (t : ℕ)
    → 24 ≤ t
    → t < 48
    → IsCube c
    → transform (transform c t) (inverse_trans t) ≡ c
transform-inverse_mirrored {c} t g h hc =
    let row : mirror_row t ≡ true = ground (arith, inverse_row t) in
    let s = inverse_trans t in
    let high : 24 ≤ s = ground arith in
    let top : s < 48 = ground arith in
    let ht = trans_cube-IsCube t h in
    let hi = trans_cube_inverse-IsCube t h in
    let hs = trans_cube-IsCube s top in
    let hj = trans_cube_inverse-IsCube s top in
    let hd = invertco-IsCube (conjugate-IsCube t h hc) in
    ap (λ d. transform d s) (transform_mirrored c t g h)
    ∙ transform_mirrored (invertco (conjugate t c)) s high top
    ∙ invertco-compose (compose-IsCube hs hd) hj
    ∙ ap (λ d. compose d (invertco (trans_cube_inverse s)))
        (invertco-compose hs hd
          ∙ ap (compose (invertco (trans_cube s))) (invertco_involutive (conjugate-IsCube t h hc)))
    ∙ conjugate_cancel (invertco-IsCube hs) (invertco-IsCube hj) ht hi hc
        (equal→≡ (compose-IsCube (invertco-IsCube hs) ht) solved-IsCube (ground arith))
        (equal→≡ (compose-IsCube hi (invertco-IsCube hj)) solved-IsCube (ground arith))

-- For each of the 48 symmetries, `inverse_trans` gives the symmetry that undoes `transform` on
-- every cube of the puzzle.
pub transform-inverse_trans :
    {c : Cube} (t : ℕ) → t < 48 → IsCube c → transform (transform c t) (inverse_trans t) ≡ c
transform-inverse_trans t h hc = elim (halves t) [
  | inl low ↦ transform-inverse_rotation t low hc
  | inr high ↦ transform-inverse_mirrored t high h hc
]

moved_table :
    all_below 48 (λ t. all_below 18 (λ m.
      ltb (transform_move m t) 18
      && equal (transform (move_cube m) t) (move_cube (transform_move m t))))
    ≡ true
unfolding all_below equal compose trans_cubes trans_cubes_inverse invertco transform transform_move
    move_cubes
moved_table = refl

moved_row :
    (t m : ℕ)
    → t < 48
    → m < 18
    → (ltb (transform_move m t) 18
        && equal (transform (move_cube m) t) (move_cube (transform_move m t)))
      ≡ true
moved_row t m ht hm =
    all_below₂_sound 48 18
      (λ t. λ m.
        ltb (transform_move m t) 18
        && equal (transform (move_cube m) t) (move_cube (transform_move m t)))
      t m moved_table ht hm

pub transform_move-lt : (t m : ℕ) → t < 48 → m < 18 → transform_move m t < 18
transform_move-lt t m ht hm = ground (arith, moved_row t m ht hm)

-- For each of the 48 symmetries and the 18 basic moves, on a cube of the puzzle, moving and then
-- transforming is transforming and then making the transformed move.
pub transform-move :
    {c : Cube} (t m : ℕ)
    → t < 48
    → m < 18
    → IsCube c
    → transform (move c m) t ≡ move (transform c t) (transform_move m t)
transform-move {c} t m ht hm hc =
    let hM = move_cube-IsCube m hm in
    let low = transform_move-lt t m ht hm in
    ap (λ d. transform d t) (move_lem c m hm)
    ∙ transform-compose t ht hc hM
    ∙ ap (compose (transform c t)) (
        equal→≡ (transform-IsCube t ht hM) (move_cube-IsCube (transform_move m t) low)
          (ground (arith, moved_row t m ht hm)))
    ∙ sym (move_lem (transform c t) (transform_move m t) low)
