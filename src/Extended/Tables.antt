-- ===== src/Extended/Tables.antt =====
-- The 24 orientations as a group: `product` is what `compose_oriented` makes of two orientations, and
-- the symmetries of `orientation_trans` follow it.
use h.Base.{
  ℕ, ◌<◌, Bool, true, ◌&&◌, ◌||◌, ◌≡◌, refl, ap, ◌∙◌, ◌==◌, ==_iff, ltb, arith, List, [], ◌∷◌,
  if◌then◌else◌, get_or, all_below, all_below_sound, all_below₂_sound, Bool-cases, inl, inr,
}
use h.Cube.{compose, equal}
use h.Extended.{apply_rotations, apply_extended, equivalent_moves, move_extended}
use h.Extended.Moves.{basic_moves, next_orientation, move_extended_lem}
use h.Moves.{transform_move, reorient_move}
use h.Moves.Laws.Sequences
use h.Oriented.{OrientedCube}
use h.Tables.{orientation_moves, orientation_trans, orientation_transition_table}
use h.Transform.{trans_cubes, trans_cubes_inverse, trans_cube, trans_cube_inverse}

-- The symmetry of an orientation.
abbrev pub trans_of : ℕ → ℕ
trans_of o = get_or orientation_trans o 0

-- The orientation after the moves `ms`, which are rotations.
unfoldable pub turned : List ℕ → ℕ → ℕ
turned [] o = o
turned (m ∷ ms) o = let rest = turned ms (next_orientation m o) in if m == 255 then o else rest

-- Each of the moves, up to the mark 255, is a rotation: it makes no basic move.
unfoldable pub are_rotations : List ℕ → Bool
are_rotations [] = true
are_rotations (m ∷ ms) =
    let rest = are_rotations ms in m == 255 || (get_or (equivalent_moves m).move 0 0 == 255 && rest)

abbrev pub product : ℕ → ℕ → ℕ
product o1 o2 = turned (get_or orientation_moves o2 []) o1

no_moves : (ms : List ℕ) (o : ℕ) → (get_or ms 0 0 == 255) ≡ true → basic_moves ms o ≡ []
unfolding basic_moves
no_moves [] o h = refl
no_moves (m ∷ ms) o h = rw h

rotation_lem :
    (c : OrientedCube) (m : ℕ)
    → (get_or (equivalent_moves m).move 0 0 == 255) ≡ true
    → move_extended c m ≡ record { cube = c.cube; orientation = next_orientation m c.orientation }
rotation_lem c m h =
    move_extended_lem c m
    ∙ ap
        (λ ms. record {
          cube = Sequences.run c.cube ms;
          orientation = next_orientation m c.orientation;
        })
        (no_moves (equivalent_moves m).move c.orientation h)

pub apply_extended_lem :
    (ms : List ℕ) (c : OrientedCube)
    → are_rotations ms ≡ true
    → apply_extended ms c ≡ record { cube = c.cube; orientation = turned ms c.orientation }
unfolding apply_extended turned are_rotations
apply_extended_lem [] c h = refl
apply_extended_lem (m ∷ ms) c h = elim (Bool-cases (m == 255)) [
  | inl e ↦ rw e
  | inr e ↦
      let first : (get_or (equivalent_moves m).move 0 0 == 255) ≡ true = ground arith in
      let others : are_rotations ms ≡ true = ground arith in
      rw e (
        ap (apply_extended ms) (rotation_lem c m first)
        ∙ apply_extended_lem ms
            (record { cube = c.cube; orientation = next_orientation m c.orientation }) others)
]

abbrev product_row : ℕ → ℕ → Bool
product_row o1 o2 =
    (ltb (product o1 o2) 24 && (product 0 o2 == o2 && product o1 0 == o1))
    && (equal (compose (trans_cube (trans_of o1)) (trans_cube (trans_of o2)))
          (trans_cube (trans_of (product o1 o2)))
        && equal (compose (trans_cube_inverse (trans_of o2)) (trans_cube_inverse (trans_of o1)))
            (trans_cube_inverse (trans_of (product o1 o2))))

product_table : all_below 24 (λ a. all_below 24 (λ b. product_row a b)) ≡ true
unfolding all_below equal compose trans_cubes trans_cubes_inverse orientation_trans
    orientation_moves turned apply_rotations equivalent_moves
product_table = refl

pub product_row-true : (a b : ℕ) → a < 24 → b < 24 → product_row a b ≡ true
product_row-true a b ha hb = all_below₂_sound 24 24 product_row a b product_table ha hb

rotations_table :
    all_below 24 (λ o. are_rotations (get_or orientation_moves o []) && ltb (trans_of o) 24) ≡ true
unfolding all_below are_rotations orientation_moves orientation_trans equivalent_moves
rotations_table = refl

rotations_row :
    (o : ℕ) → o < 24 → (are_rotations (get_or orientation_moves o []) && ltb (trans_of o) 24) ≡ true
rotations_row o h =
    all_below_sound 24 (λ k. are_rotations (get_or orientation_moves k []) && ltb (trans_of k) 24) o
      rotations_table h

pub orientation_moves-are_rotations :
    (o : ℕ) → o < 24 → are_rotations (get_or orientation_moves o []) ≡ true
orientation_moves-are_rotations o h = ground (arith, rotations_row o h)

pub trans_of-lt : (o : ℕ) → o < 24 → trans_of o < 24
trans_of-lt o h = ground (arith, rotations_row o h)

abbrev pub step : ℕ → ℕ → ℕ
step o r = get_or (get_or orientation_transition_table o []) r 0

step_table :
    all_below 24 (λ a.
      all_below 24
        (λ b. all_below 3 (λ r. ltb (step b r) 24 && product a (step b r) == step (product a b) r)))
    ≡ true
unfolding all_below orientation_transition_table orientation_moves turned apply_rotations
    equivalent_moves
step_table = refl

pub step_row :
    (a b r : ℕ)
    → a < 24
    → b < 24
    → r < 3
    → (ltb (step b r) 24 && product a (step b r) == step (product a b) r) ≡ true
step_row a b r ha hb hr =
    all_below₂_sound 24 3
      (λ b. λ r. ltb (step b r) 24 && product a (step b r) == step (product a b) r) b r
      (all_below_sound 24
        (λ a. all_below 24 (λ b.
          all_below 3 (λ r. ltb (step b r) 24 && product a (step b r) == step (product a b) r)))
        a step_table ha)
      hb hr

moves_table :
    all_below 24 (λ a. all_below 24 (λ b.
      all_below 18
        (λ m. transform_move (reorient_move m b) (trans_of a) == reorient_move m (product a b))))
    ≡ true
unfolding all_below transform_move reorient_move orientation_trans orientation_moves turned
    apply_rotations equivalent_moves
moves_table = refl

-- The basic move seen in the product of two orientations.
pub reorient_move-product :
    (a b m : ℕ)
    → a < 24
    → b < 24
    → m < 18
    → transform_move (reorient_move m b) (trans_of a) ≡ reorient_move m (product a b)
reorient_move-product a b m ha hb hm = (==_iff _ (reorient_move m (product a b))).0 (
    all_below₂_sound 24 18
      (λ b. λ m. transform_move (reorient_move m b) (trans_of a) == reorient_move m (product a b)) b
      m
      (all_below_sound 24
        (λ a. all_below 24 (λ b.
          all_below 18 (λ m.
            transform_move (reorient_move m b) (trans_of a) == reorient_move m (product a b))))
        a moves_table ha)
      hb hm)
