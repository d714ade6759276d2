-- ===== src/Extended/Compose.antt =====
-- `compose_oriented` is an associative composition with the solved cube as its unit.
pub mod Act
use h.Base.{
  ℕ, zero, suc, ◌+◌, ◌<◌, Bool, true, ◌&&◌, ◌≡◌, refl, sym, ap, ap₂, ◌∙◌, ◌==◌, ==_iff, ltb, arith,
  List, [], ◌∷◌, if◌then◌else◌, map, get_or, all_below, all_below_sound, all_below₂_sound, ◌||◌,
  Bool-cases, inl, inr,
}
use h.Cube.{Cube, compose, equal, solved_cube}
use h.Cube.Group.{
  IsCube, compose-IsCube, compose_assoc, compose_solved, solved_compose, solved-IsCube,
}
use h.Extended.{compose_oriented, apply_extended, apply_rotations, equivalent_moves, move_extended}
use h.Extended.Moves.{
  IsOriented, oriented_ext, basic_moves, moves_of, next_orientation, next_orientation-lt,
  move_extended_lem, moves_of-AreBasic, run-compose,
}
use h.Extended.Tables.{
  trans_of, turned, product, product_row-true, apply_extended_lem, orientation_moves-are_rotations,
  trans_of-lt, step, step_row, reorient_move-product,
}
use h.Moves.{transform_move, reorient_move, move}
use h.Moves.Laws.{equal→≡, move-IsCube}
use h.Moves.Laws.Sequences.{run, AreBasic, run-IsCube}
use h.Oriented.{OrientedCube, solved_oriented_cube}
use h.Tables.{orientation_moves, orientation_trans}
use h.Transform.{trans_cube, trans_cube_inverse, transform}
use h.Transform.Laws.{
  trans_cubes_cancel, trans_cube-IsCube, trans_cube_inverse-IsCube, conjugate, conjugate-IsCube,
  transform_rotation, transform-IsCube, transform-compose, transform_zero,
}
use h.Transform.Laws.Moved.{transform-move, transform_move-lt}

pub product-lt : (a b : ℕ) → a < 24 → b < 24 → product a b < 24
product-lt a b ha hb = ground (arith, product_row-true a b ha hb)

zero-product : (b : ℕ) → b < 24 → product 0 b ≡ b
zero-product b hb = ground (arith, product_row-true 0 b (omega arith) hb)

product-zero : (a : ℕ) → a < 24 → product a 0 ≡ a
product-zero a ha = ground (arith, product_row-true a 0 ha (omega arith))

-- `compose_oriented` by parts.
pub compose_oriented_lem :
    (c d : OrientedCube)
    → d.orientation < 24
    → compose_oriented c d ≡ record {
      cube = compose c.cube (transform d.cube (trans_of c.orientation));
      orientation = product c.orientation d.orientation;
    }
unfolding compose_oriented
compose_oriented_lem c d h =
    apply_extended_lem (get_or orientation_moves d.orientation [])
      (record {
        cube = compose c.cube (transform d.cube (trans_of c.orientation));
        orientation = c.orientation;
      })
      (orientation_moves-are_rotations d.orientation h)

-- The composition of two oriented cubes is one.
pub compose_oriented-IsOriented :
    {c d : OrientedCube} → IsOriented c → IsOriented d → IsOriented (compose_oriented c d)
compose_oriented-IsOriented {c} {d} hc hd =
    rw (compose_oriented_lem c d hd.orientation_lt) (record {
      is_cube = compose-IsCube hc.is_cube (
          transform-IsCube (trans_of c.orientation)
            (omega (arith, trans_of-lt c.orientation hc.orientation_lt)) hd.is_cube);
      orientation_lt = product-lt c.orientation d.orientation hc.orientation_lt hd.orientation_lt;
    })

-- Two symmetries of orientations in a row are the symmetry of the product.
transform-product :
    {x : Cube} (a b : ℕ)
    → a < 24
    → b < 24
    → IsCube x
    → transform (transform x (trans_of b)) (trans_of a) ≡ transform x (trans_of (product a b))
transform-product {x} a b ha hb hx =
    let la = trans_of-lt a ha in
    let lb = trans_of-lt b hb in
    let lp = trans_of-lt (product a b) (product-lt a b ha hb) in
    let ta = trans_cube-IsCube (trans_of a) (omega arith) in
    let tb = trans_cube-IsCube (trans_of b) (omega arith) in
    let tp = trans_cube-IsCube (trans_of (product a b)) (omega arith) in
    let ia = trans_cube_inverse-IsCube (trans_of a) (omega arith) in
    let ib = trans_cube_inverse-IsCube (trans_of b) (omega arith) in
    let ip = trans_cube_inverse-IsCube (trans_of (product a b)) (omega arith) in
    let row = product_row-true a b ha hb in
    let there = equal→≡ (compose-IsCube ta tb) tp (ground arith) in
    let back = equal→≡ (compose-IsCube ib ia) ip (ground arith) in
    ap (λ y. transform y (trans_of a)) (transform_rotation (trans_of b) lb hx)
    ∙ transform_rotation (trans_of a) la (conjugate-IsCube (trans_of b) (omega arith) hx)
    ∙ ap (λ y. compose y (trans_cube_inverse (trans_of a)))
        (sym (compose_assoc ta (compose-IsCube tb hx) ib)
          ∙ ap (λ y. compose y (trans_cube_inverse (trans_of b))) (sym (compose_assoc ta tb hx)))
    ∙ compose_assoc (compose-IsCube (compose-IsCube ta tb) hx) ib ia
    ∙ ap (compose (compose (compose (trans_cube (trans_of a)) (trans_cube (trans_of b))) x)) back
    ∙ ap (λ y. compose (compose y x) (trans_cube_inverse (trans_of (product a b)))) there
    ∙ sym (transform_rotation (trans_of (product a b)) lp hx)

-- The rotations of a move, up to the mark 255, are x, y and z.
all_steps : List ℕ → Bool
all_steps [] = true
all_steps (r ∷ rs) = let rest = all_steps rs in r == 255 || (ltb r 3 && rest)

product_rotations :
    (rs : List ℕ) (a b : ℕ)
    → a < 24
    → b < 24
    → all_steps rs ≡ true
    → product a (apply_rotations rs b) ≡ apply_rotations rs (product a b)
unfolding all_steps apply_rotations
product_rotations [] a b ha hb h = refl
product_rotations (r ∷ rs) a b ha hb h = elim (Bool-cases (r == 255)) [
  | inl e ↦ rw e
  | inr e ↦
      let small : r < 3 = ground arith in
      let others : all_steps rs ≡ true = ground arith in
      let row = step_row a b r ha hb small in
      let hs : step b r < 24 = ground arith in
      let same : product a (step b r) ≡ step (product a b) r = ground arith in
      rw e (product_rotations rs a (step b r) ha hs others ∙ ap (apply_rotations rs) same)
]

steps_table : all_below 54 (λ m. all_steps (equivalent_moves m).rotation) ≡ true
unfolding all_below all_steps equivalent_moves
steps_table = refl

-- A move turns a product of orientations as it turns the second of them.
pub product-next :
    (m a b : ℕ)
    → m < 54
    → a < 24
    → b < 24
    → product a (next_orientation m b) ≡ next_orientation m (product a b)
product-next m a b hm ha hb =
    product_rotations (equivalent_moves m).rotation a b ha hb
      (all_below_sound 54 (λ k. all_steps (equivalent_moves k).rotation) m steps_table hm)

all_moves : List ℕ → Bool
all_moves [] = true
all_moves (m ∷ ms) = let rest = all_moves ms in m == 255 || (ltb m 54 && rest)

product-turned :
    (ms : List ℕ) (a b : ℕ)
    → a < 24
    → b < 24
    → all_moves ms ≡ true
    → product a (turned ms b) ≡ turned ms (product a b)
unfolding all_moves turned
product-turned [] a b ha hb h = refl
product-turned (m ∷ ms) a b ha hb h = elim (Bool-cases (m == 255)) [
  | inl e ↦ rw e
  | inr e ↦
      let small : m < 54 = ground arith in
      let others : all_moves ms ≡ true = ground arith in
      rw e (
        product-turned ms a (next_orientation m b) ha (next_orientation-lt m b small hb) others
        ∙ ap (turned ms) (product-next m a b small ha hb))
]

all_moves_table : all_below 24 (λ o. all_moves (get_or orientation_moves o [])) ≡ true
unfolding all_below all_moves orientation_moves
all_moves_table = refl

product_assoc :
    (a b c : ℕ) → a < 24 → b < 24 → c < 24 → product (product a b) c ≡ product a (product b c)
product_assoc a b c ha hb hc = sym (
    product-turned (get_or orientation_moves c []) a b ha hb
      (all_below_sound 24 (λ o. all_moves (get_or orientation_moves o [])) c all_moves_table hc))

-- `compose_oriented` is associative on cubes of the puzzle with orientations below 24.
pub compose_oriented_assoc :
    {a b c : OrientedCube}
    → IsOriented a
    → IsOriented b
    → IsOriented c
    → compose_oriented (compose_oriented a b) c ≡ compose_oriented a (compose_oriented b c)
compose_oriented_assoc {a} {b} {c} ha hb hc =
    let la : trans_of a.orientation < 48 =
      omega (arith, trans_of-lt a.orientation ha.orientation_lt) in
    let lb : trans_of b.orientation < 48 =
      omega (arith, trans_of-lt b.orientation hb.orientation_lt) in
    let tb = transform-IsCube (trans_of a.orientation) la hb.is_cube in
    let tc = transform-IsCube (trans_of b.orientation) lb hc.is_cube in
    ap (λ x. compose_oriented x c) (compose_oriented_lem a b hb.orientation_lt)
    ∙ compose_oriented_lem
        (record {
          cube = compose a.cube (transform b.cube (trans_of a.orientation));
          orientation = product a.orientation b.orientation;
        })
        c hc.orientation_lt
    ∙ oriented_ext
        (ap (compose (compose a.cube (transform b.cube (trans_of a.orientation)))) (
            sym (
              transform-product a.orientation b.orientation ha.orientation_lt hb.orientation_lt
                hc.is_cube))
          ∙ compose_assoc ha.is_cube tb (transform-IsCube (trans_of a.orientation) la tc)
          ∙ ap (compose a.cube) (sym (transform-compose (trans_of a.orientation) la hb.is_cube tc)))
        (product_assoc a.orientation b.orientation c.orientation ha.orientation_lt hb.orientation_lt
          hc.orientation_lt)
    ∙ sym (
        ap (compose_oriented a) (compose_oriented_lem b c hc.orientation_lt)
        ∙ compose_oriented_lem a
            (record {
              cube = compose b.cube (transform c.cube (trans_of b.orientation));
              orientation = product b.orientation c.orientation;
            })
            (product-lt b.orientation c.orientation hb.orientation_lt hc.orientation_lt))

standard : trans_of 0 ≡ 0
unfolding orientation_trans
standard = refl

solved_fixed : (t : ℕ) → t < 24 → transform solved_cube t ≡ solved_cube
solved_fixed t h =
    let ht = trans_cube-IsCube t (omega arith) in
    transform_rotation t h solved-IsCube
    ∙ ap (λ y. compose y (trans_cube_inverse t)) (compose_solved ht)
    ∙ (trans_cubes_cancel t (omega arith)).1

-- The solved cube in standard orientation is the unit of `compose_oriented`, on either side, for
-- cubes of the puzzle with an orientation below 24.
pub compose_oriented_solved :
    {c : OrientedCube}
    → IsOriented c
    → (compose_oriented solved_oriented_cube c ≡ c) × (compose_oriented c solved_oriented_cube ≡ c)
compose_oriented_solved {c} hc = (
  compose_oriented_lem solved_oriented_cube c hc.orientation_lt
      ∙ oriented_ext
          (ap (λ t. compose solved_cube (transform c.cube t)) standard
            ∙ ap (compose solved_cube) (transform_zero c.cube)
            ∙ solved_compose hc.is_cube)
          (zero-product c.orientation hc.orientation_lt),
  compose_oriented_lem c solved_oriented_cube (omega arith)
      ∙ oriented_ext
          (ap (compose c.cube)
              (solved_fixed (trans_of c.orientation) (trans_of-lt c.orientation hc.orientation_lt))
            ∙ compose_solved hc.is_cube)
          (product-zero c.orientation hc.orientation_lt),
)
