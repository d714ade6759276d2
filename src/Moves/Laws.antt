-- ===== src/Moves/Laws.antt =====
-- The moves as elements of the group of cubes: tables over the 18 basic moves, lifted to every cube.
pub mod Sequences
pub mod Sorting
pub mod Allowed
use h.Base.{
  ℕ, zero, suc, ◌+◌, ◌≤◌, ◌<◌, Bool, true, false, not, ◌&&◌, ◌||◌, ◌≡◌, refl, sym, ap, ◌∙◌, ◌==◌,
  ltb, leb, arith, get_or, length, all_below, all_below_sound, all_below₂_sound, List, [], ◌∷◌,
}
use h.Cube.{Cube, zero_cube, solved_cube, compose, inverse, equal}
use h.Cube.Group.{
  IsCube, HasRoom, compose-IsCube, compose_assoc, compose_solved, solved_compose, inverse-IsCube,
  inverse_lem, inverse_unique, inverse-compose, inverse_involutive, solved-IsCube,
}
use h.Oriented.Checked.{all_cubes, all_cubes_sound}
use h.Oriented.Equal.{equal_iff}
use h.Moves.{move_cubes, premove_cubes, move, premove, inverse_move, parallel, move_b3}

abbrev pub move_cube : ℕ → Cube
move_cube m = get_or move_cubes m zero_cube

abbrev premove_cube : ℕ → Cube
premove_cube m = get_or premove_cubes m zero_cube

move_cubes_checked : all_cubes move_cubes ≡ true
unfolding all_cubes move_cubes
move_cubes_checked = refl

premove_cubes_checked : all_cubes premove_cubes ≡ true
unfolding all_cubes premove_cubes
premove_cubes_checked = refl

pub move_cube-IsCube : (m : ℕ) → m < 18 → IsCube (move_cube m)
unfolding move_cubes
move_cube-IsCube m h = all_cubes_sound move_cubes m zero_cube move_cubes_checked h

premove_cube-IsCube : (m : ℕ) → m < 18 → IsCube (premove_cube m)
unfolding premove_cubes
premove_cube-IsCube m h = all_cubes_sound premove_cubes m zero_cube premove_cubes_checked h

pub IsCube-HasRoom : {c : Cube} → IsCube c → HasRoom c
IsCube-HasRoom hc = record { corner_size = hc.corners.size; edge_size = hc.edges.size }

pub equal→≡ : {a b : Cube} → IsCube a → IsCube b → equal a b ≡ true → a ≡ b
equal→≡ {a} {b} ha hb h = (equal_iff a b (IsCube-HasRoom ha) (IsCube-HasRoom hb)).0 h

pub move_lem : (c : Cube) (m : ℕ) → m < 18 → move c m ≡ compose c (move_cube m)
unfolding move
move_lem c m h = ground arith

premove_lem : (c : Cube) (m : ℕ) → m < 18 → premove c m ≡ compose (premove_cube m) c
unfolding premove
premove_lem c m h = ground arith

-- A basic move takes a cube to a cube.
pub move-IsCube : {c : Cube} (m : ℕ) → m < 18 → IsCube c → IsCube (move c m)
move-IsCube {c} m h hc = rw (move_lem c m h) (compose-IsCube hc (move_cube-IsCube m h))

undo_table :
    all_below 18 (λ m.
      ltb (inverse_move m) 18
      && equal (compose (move_cube m) (move_cube (inverse_move m))) solved_cube)
    ≡ true
unfolding all_below equal compose move_cubes inverse_move
undo_table = refl

pub inverse_move-lt : (m : ℕ) → m < 18 → inverse_move m < 18
unfolding inverse_move
inverse_move-lt m h = omega arith

-- A move followed by its inverse gives the cube back.
pub move-inverse_move :
    {c : Cube} (m : ℕ) → m < 18 → IsCube c → move (move c m) (inverse_move m) ≡ c
move-inverse_move {c} m h hc =
    let h' = inverse_move-lt m h in
    let hm = move_cube-IsCube m h in
    let hi = move_cube-IsCube (inverse_move m) h' in
    move_lem (move c m) (inverse_move m) h'
    ∙ ap (λ t. compose t (move_cube (inverse_move m))) (move_lem c m h)
    ∙ compose_assoc hc hm hi
    ∙ ap (compose c) (equal→≡ (compose-IsCube hm hi) solved-IsCube cancel)
    ∙ compose_solved hc
  where
    cancel : equal (compose (move_cube m) (move_cube (inverse_move m))) solved_cube ≡ true
    cancel = ground (
      arith,
      all_below_sound 18
          (λ k.
            ltb (inverse_move k) 18
            && equal (compose (move_cube k) (move_cube (inverse_move k))) solved_cube)
          m undo_table h,
    )

premove_table :
    all_below 18 (λ m. equal (compose (premove_cube m) (move_cube m)) solved_cube) ≡ true
unfolding all_below equal compose move_cubes premove_cubes
premove_table = refl

-- On a cube of the puzzle, `premove` of each of the 18 basic moves is the inverse of the moved
-- inverse.
pub premove-via_inverse :
    {c : Cube} (m : ℕ) → m < 18 → IsCube c → premove c m ≡ inverse (move (inverse c) m)
premove-via_inverse {c} m h hc =
    let hi = inverse-IsCube hc in
    let hm = move_cube-IsCube m h in
    let hp = premove_cube-IsCube m h in
    premove_lem c m h
    ∙ ap (λ t. compose t c)
        (inverse_unique hp hm (
          equal→≡ (compose-IsCube hp hm) solved-IsCube (
            all_below_sound 18 (λ k. equal (compose (premove_cube k) (move_cube k)) solved_cube) m
              premove_table h)))
    ∙ ap (compose (inverse (move_cube m))) (sym (inverse_involutive hc))
    ∙ sym (inverse-compose hi hm)
    ∙ ap inverse (sym (move_lem (inverse c) m h))

commute_table :
    all_below 18 (λ a. all_below 18 (λ b.
      not (parallel a b)
      || equal (compose (move_cube a) (move_cube b)) (compose (move_cube b) (move_cube a))))
    ≡ true
unfolding all_below equal compose move_cubes parallel
commute_table = refl

-- Moves of parallel layers may be made in either order.
pub move_comm :
    {c : Cube} (a b : ℕ)
    → a < 18
    → b < 18
    → parallel a b ≡ true
    → IsCube c
    → move (move c a) b ≡ move (move c b) a
move_comm {c} a b ha hb par hc =
    let ca = move_cube-IsCube a ha in
    let cb = move_cube-IsCube b hb in
    move_lem (move c a) b hb
    ∙ ap (λ t. compose t (move_cube b)) (move_lem c a ha)
    ∙ compose_assoc hc ca cb
    ∙ ap (compose c) (equal→≡ (compose-IsCube ca cb) (compose-IsCube cb ca) same)
    ∙ sym (compose_assoc hc cb ca)
    ∙ ap (λ t. compose t (move_cube a)) (sym (move_lem c b hb))
    ∙ sym (move_lem (move c b) a ha)
  where
    same : equal (compose (move_cube a) (move_cube b)) (compose (move_cube b) (move_cube a)) ≡ true
    same = ground (
      arith,
      all_below₂_sound 18 18
          (λ x y.
            not (parallel x y)
            || equal (compose (move_cube x) (move_cube y)) (compose (move_cube y) (move_cube x)))
          a b commute_table ha hb,
    )
