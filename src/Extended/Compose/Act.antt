-- ===== src/Extended/Compose/Act.antt =====
-- The 54 moves act on the right of `compose_oriented`.
use h.Base.{
  ℕ, ◌<◌, Bool, true, ◌&&◌, ◌≡◌, refl, sym, ap, ap₂, ◌∙◌, ◌==◌, ltb, arith, List, [], ◌∷◌, map,
  all_below, all_below_sound, ◌||◌, Bool-cases, inl, inr,
}
use h.Cube.{Cube, compose}
use h.Cube.Group.{IsCube, compose-IsCube, compose_assoc, solved-IsCube}
use h.Extended.{compose_oriented, equivalent_moves, move_extended}
use h.Extended.Moves.{
  IsOriented, oriented_ext, basic_moves, moves_of, next_orientation, next_orientation-lt,
  move_extended_lem, moves_of-AreBasic, run-compose,
}
use h.Extended.Tables.{trans_of, product, trans_of-lt, reorient_move-product}
use h.Moves.{transform_move}
use h.Moves.Laws.{move-IsCube}
use h.Moves.Laws.Sequences.{run, AreBasic, run-IsCube}
use h.Oriented.{OrientedCube}
use h.Transform.{transform}
use h.Transform.Laws.{transform-IsCube}
use h.Transform.Laws.Moved.{transform-move}
use h.Extended.Compose.{product-lt, product-next, compose_oriented_lem}

-- A run of moves, transformed.
transform-run :
    (ms : List ℕ) {x : Cube} (t : ℕ)
    → t < 48
    → AreBasic ms
    → IsCube x
    → transform (run x ms) t ≡ run (transform x t) (map (λ m. transform_move m t) ms)
transform-run [] t ht b hx = refl
transform-run (m ∷ ms) {x} t ht b hx =
    transform-run ms t ht b.1 (move-IsCube m b.0 hx)
    ∙ ap (λ y. run y (map (λ k. transform_move k t) ms)) (transform-move t m ht b.0 hx)

all_basic_moves : List ℕ → Bool
all_basic_moves [] = true
all_basic_moves (m ∷ ms) = let rest = all_basic_moves ms in m == 255 || (ltb m 18 && rest)

-- The basic moves of a move, seen in the product of two orientations.
moves-product :
    (ms : List ℕ) (a b : ℕ)
    → a < 24
    → b < 24
    → all_basic_moves ms ≡ true
    → map (λ m. transform_move m (trans_of a)) (basic_moves ms b) ≡ basic_moves ms (product a b)
unfolding all_basic_moves basic_moves
moves-product [] a b ha hb h = refl
moves-product (m ∷ ms) a b ha hb h = elim (Bool-cases (m == 255)) [
  | inl e ↦ rw e
  | inr e ↦
      let small : m < 18 = ground arith in
      let others : all_basic_moves ms ≡ true = ground arith in
      rw e (ap₂ ◌∷◌ (reorient_move-product a b m ha hb small) (moves-product ms a b ha hb others))
]

basic_table : all_below 54 (λ m. all_basic_moves (equivalent_moves m).move) ≡ true
unfolding all_below all_basic_moves equivalent_moves
basic_table = refl

run-compose_left :
    (ms : List ℕ) {x y : Cube}
    → AreBasic ms
    → IsCube x
    → IsCube y
    → compose x (run y ms) ≡ run (compose x y) ms
run-compose_left ms {x} {y} b hx hy =
    ap (compose x) (run-compose ms b hy)
    ∙ sym (compose_assoc hx hy (run-IsCube ms b solved-IsCube))
    ∙ sym (run-compose ms b (compose-IsCube hx hy))

-- For each of the 54 moves and cubes of the puzzle with orientations below 24, making the move
-- after a composition is composing with the moved cube.
pub move_extended-compose :
    {c d : OrientedCube} (m : ℕ)
    → m < 54
    → IsOriented c
    → IsOriented d
    → move_extended (compose_oriented c d) m ≡ compose_oriented c (move_extended d m)
move_extended-compose {c} {d} m hm hc hd =
    let t : ℕ = trans_of c.orientation in
    let o : ℕ = product c.orientation d.orientation in
    let ho : o < 24 = product-lt c.orientation d.orientation hc.orientation_lt hd.orientation_lt in
    let ht : t < 48 = omega (arith, trans_of-lt c.orientation hc.orientation_lt) in
    let basic = moves_of-AreBasic m d.orientation hm hd.orientation_lt in
    let same : map (λ k. transform_move k t) (moves_of m d.orientation) ≡ moves_of m o =
      moves-product (equivalent_moves m).move c.orientation d.orientation hc.orientation_lt
        hd.orientation_lt
        (all_below_sound 54 (λ k. all_basic_moves (equivalent_moves k).move) m basic_table hm) in
    ap (λ x. move_extended x m) (compose_oriented_lem c d hd.orientation_lt)
    ∙ move_extended_lem (record { cube = compose c.cube (transform d.cube t); orientation = o }) m
    ∙ oriented_ext
        (sym (
            run-compose_left (moves_of m o) (moves_of-AreBasic m o hm ho) hc.is_cube
              (transform-IsCube t ht hd.is_cube))
          ∙ ap (λ ms. compose c.cube (run (transform d.cube t) ms)) (sym same)
          ∙ ap (compose c.cube)
              (sym (transform-run (moves_of m d.orientation) t ht basic hd.is_cube)))
        (sym (product-next m c.orientation d.orientation hm hc.orientation_lt hd.orientation_lt))
    ∙ sym (
        ap (compose_oriented c) (move_extended_lem d m)
        ∙ compose_oriented_lem c
            (record {
              cube = run d.cube (moves_of m d.orientation);
              orientation = next_orientation m d.orientation;
            })
            (next_orientation-lt m d.orientation hm hd.orientation_lt))
