-- ===== src/Extended/Moves.antt =====
-- `move_extended` as basic moves in the current orientation and a new orientation.
use h.Base.{
  ℕ, ◌<◌, Bool, true, ◌&&◌, ◌≡◌, refl, sym, ap, ◌∙◌, ◌==◌, ltb, arith, List, [], ◌∷◌, if◌then◌else◌,
  all_below, all_below₂_sound, Bool-cases, inl, inr,
}
use h.Cube.{Cube, solved_cube, compose, equal}
use h.Cube.Group.{IsCube, compose_assoc, compose_solved, solved_compose, solved-IsCube}
use h.Extended.{apply_moves, apply_rotations, equivalent_moves, move_extended}
use h.Moves.{move_cubes, move, reorient_move, inverse_move}
use h.Moves.Laws.{move_lem, move_cube-IsCube, move-IsCube, equal→≡}
use h.Moves.Laws.Sequences.{run, AreBasic, run-IsCube}
use h.Oriented.{OrientedCube}

-- An oriented cube of the puzzle.
pub record IsOriented (c : OrientedCube) : Type 0 where
  pub is_cube : IsCube c.cube
  pub orientation_lt : c.orientation < 24

pub oriented_ext : {a b : OrientedCube} → a.cube ≡ b.cube → a.orientation ≡ b.orientation → a ≡ b
oriented_ext p q = λ i. record { cube = p i; orientation = q i }

-- The basic moves that `apply_moves` makes in orientation `o`.
unfoldable pub basic_moves : List ℕ → ℕ → List ℕ
basic_moves [] o = []
basic_moves (m ∷ ms) o =
    let rest = reorient_move m o ∷ basic_moves ms o in if m == 255 then [] else rest

apply_moves_lem :
    (ms : List ℕ) (c : OrientedCube)
    → apply_moves ms c
      ≡ record { cube = run c.cube (basic_moves ms c.orientation); orientation = c.orientation }
unfolding apply_moves basic_moves
apply_moves_lem [] c = refl
apply_moves_lem (m ∷ ms) c = elim (Bool-cases (m == 255)) [
  | inl e ↦ rw e
  | inr e ↦
      rw e (apply_moves_lem ms (record c { cube = move c.cube (reorient_move m c.orientation) }))
]

-- What move `m` does in orientation `o`: basic moves and the next orientation.
abbrev pub moves_of : ℕ → ℕ → List ℕ
moves_of m o = basic_moves (equivalent_moves m).move o

abbrev pub next_orientation : ℕ → ℕ → ℕ
next_orientation m o = apply_rotations (equivalent_moves m).rotation o

pub move_extended_lem :
    (c : OrientedCube) (m : ℕ)
    → move_extended c m ≡ record {
      cube = run c.cube (moves_of m c.orientation);
      orientation = next_orientation m c.orientation;
    }
unfolding move_extended
move_extended_lem c m =
    let e = apply_moves_lem (equivalent_moves m).move c in
    oriented_ext (ap (λ d. d.cube) e)
      (ap (λ d. apply_rotations (equivalent_moves m).rotation d.orientation) e)

-- A run of basic moves is the composition with what it does to the solved cube.
pub run-compose :
    (ms : List ℕ) {c : Cube} → AreBasic ms → IsCube c → run c ms ≡ compose c (run solved_cube ms)
run-compose [] b hc = sym (compose_solved hc)
run-compose (m ∷ ms) {c} b hc =
    let hm = move_cube-IsCube m b.0 in
    run-compose ms b.1 (move-IsCube m b.0 hc)
    ∙ ap (λ d. compose d (run solved_cube ms)) (move_lem c m b.0)
    ∙ compose_assoc hc hm (run-IsCube ms b.1 solved-IsCube)
    ∙ ap (λ d. compose c (compose d (run solved_cube ms)))
        (sym (solved_compose hm) ∙ sym (move_lem solved_cube m b.0))
    ∙ ap (compose c) (sym (run-compose ms b.1 (move-IsCube m b.0 solved-IsCube)))

all_basic : List ℕ → Bool
all_basic [] = true
all_basic (m ∷ ms) = ltb m 18 && all_basic ms

all_basic_sound : (ms : List ℕ) → all_basic ms ≡ true → AreBasic ms
unfolding all_basic
all_basic_sound [] h = tt
all_basic_sound (m ∷ ms) h = (ground arith, all_basic_sound ms (ground arith))

abbrev moves_row : ℕ → ℕ → Bool
moves_row m o =
    (all_basic (moves_of m o) && ltb (next_orientation m o) 24)
    && (next_orientation (inverse_move m) (next_orientation m o) == o
        && equal
            (run (run solved_cube (moves_of m o))
              (moves_of (inverse_move m) (next_orientation m o)))
            solved_cube)

moves_table : all_below 54 (λ m. all_below 24 (λ o. moves_row m o)) ≡ true
unfolding all_below all_basic equal compose move equivalent_moves basic_moves apply_rotations
    inverse_move reorient_move move_cubes
moves_table = refl

moves_row-true : (m o : ℕ) → m < 54 → o < 24 → moves_row m o ≡ true
moves_row-true m o hm ho = all_below₂_sound 54 24 moves_row m o moves_table hm ho

pub moves_of-AreBasic : (m o : ℕ) → m < 54 → o < 24 → AreBasic (moves_of m o)
moves_of-AreBasic m o hm ho =
    all_basic_sound (moves_of m o) (ground (arith, moves_row-true m o hm ho))

pub next_orientation-lt : (m o : ℕ) → m < 54 → o < 24 → next_orientation m o < 24
next_orientation-lt m o hm ho = ground (arith, moves_row-true m o hm ho)

next_orientation-inverse_move :
    (m o : ℕ) → m < 54 → o < 24 → next_orientation (inverse_move m) (next_orientation m o) ≡ o
next_orientation-inverse_move m o hm ho = ground (arith, moves_row-true m o hm ho)

pub inverse_move-lt_extended : (m : ℕ) → m < 54 → inverse_move m < 54
unfolding inverse_move
inverse_move-lt_extended m h = omega arith

-- Each of the 54 moves takes a cube of the puzzle with an orientation below 24 to one again.
pub move_extended-IsOriented :
    {c : OrientedCube} (m : ℕ) → m < 54 → IsOriented c → IsOriented (move_extended c m)
move_extended-IsOriented {c} m hm hc = rw (move_extended_lem c m) (record {
  is_cube =
      run-IsCube (moves_of m c.orientation) (moves_of-AreBasic m c.orientation hm hc.orientation_lt)
        hc.is_cube;
  orientation_lt = next_orientation-lt m c.orientation hm hc.orientation_lt;
})

moves_cancel :
    (m o : ℕ)
    → m < 54
    → o < 24
    → run (run solved_cube (moves_of m o)) (moves_of (inverse_move m) (next_orientation m o))
      ≡ solved_cube
moves_cancel m o hm ho =
    let there = moves_of-AreBasic m o hm ho in
    let back =
      moves_of-AreBasic (inverse_move m) (next_orientation m o) (inverse_move-lt_extended m hm)
        (next_orientation-lt m o hm ho) in
    equal→≡
      (run-IsCube (moves_of (inverse_move m) (next_orientation m o)) back
        (run-IsCube (moves_of m o) there solved-IsCube))
      solved-IsCube (ground (arith, moves_row-true m o hm ho))

-- On a cube of the puzzle with an orientation below 24, each of the 54 moves is undone by its
-- `inverse_move`, cube and orientation.
pub move_extended-inverse_move :
    {c : OrientedCube} (m : ℕ)
    → m < 54
    → IsOriented c
    → move_extended (move_extended c m) (inverse_move m) ≡ c
move_extended-inverse_move {c} m hm hc =
    ap (λ d. move_extended d (inverse_move m)) (move_extended_lem c m)
    ∙ move_extended_lem
        (record { cube = run c.cube there; orientation = next_orientation m c.orientation })
        (inverse_move m)
    ∙ oriented_ext
        (run-compose back back_basic (run-IsCube there there_basic hc.is_cube)
          ∙ ap (λ d. compose d (run solved_cube back)) (run-compose there there_basic hc.is_cube)
          ∙ compose_assoc hc.is_cube hx (run-IsCube back back_basic solved-IsCube)
          ∙ ap (compose c.cube) (
              sym (run-compose back back_basic hx)
              ∙ moves_cancel m c.orientation hm hc.orientation_lt)
          ∙ compose_solved hc.is_cube)
        (next_orientation-inverse_move m c.orientation hm hc.orientation_lt)
  where
    there : List ℕ
    there = moves_of m c.orientation

    back : List ℕ
    back = moves_of (inverse_move m) (next_orientation m c.orientation)

    there_basic : AreBasic there
    there_basic = moves_of-AreBasic m c.orientation hm hc.orientation_lt

    back_basic : AreBasic back
    back_basic =
        moves_of-AreBasic (inverse_move m) (next_orientation m c.orientation)
          (inverse_move-lt_extended m hm) (next_orientation-lt m c.orientation hm hc.orientation_lt)

    hx : IsCube (run solved_cube there)
    hx = run-IsCube there there_basic solved-IsCube
