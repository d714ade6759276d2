-- ===== src/Solvable/Invariants.antt =====
-- `issolvable` of src/core/cube.h under composition, inversion and moves.
use h.Base.{
  subst, all_below, ℕ, ◌+◌, ◌/◌, ◌%◌, ◌^◌, ◌<◌, bit_and, Bool, true, false, not, List, [], ◌∷◌, ◌≡◌,
  refl, sym, ap, ◌∙◌, ◌==◌, arith, length-map, sum_over, all_below_sound, ==_iff, ◌↔◌,
  if◌then◌else◌,
}
use h.Cube.{Cube, eobit, cobits, eoshift, coshift, compose, inverse, solved_cube}
use h.Cube.Pieces.{place_of, edge_laws, corner_laws, mix_edge_lem, mix_corner_lem}
use h.Cube.Group.{IsCube, compose-IsCube, inverse-IsCube, inverse_lem, inverse_involutive}
use h.Moves.{move, move_cubes}
use h.Moves.Laws.{move_cube, move_lem, move_cube-IsCube, move-IsCube}
use h.Moves.Laws.Sequences.{run, AreBasic}
use h.Oriented.{OrientedCube}
use h.CubeText.{pieces}
use h.Indices.{permsign}
use h.Indices.Sign.{permsign-follow}
use h.Solvable.{add_orientations, issolvable}
use h.Solvable.Parity.{
  places, eo_table, co_table, add_orientations_lem, places-IsPerm, places-compose, sum_over-compose,
}

-- The parity of the two permutations together, the flips modulo 2, and the twists modulo 3.
unfoldable pub perm_sum : Cube → ℕ
perm_sum c = (permsign (places c.edge) + permsign (places c.corner)) % 2

unfoldable pub flip_sum : Cube → ℕ
flip_sum c = sum_over c.edge (λ x. x / 16) % 2

unfoldable pub twist_sum : Cube → ℕ
twist_sum c = sum_over c.corner (λ x. x / 32) % 3

unfoldable pub AreZero : Cube → Type 0
AreZero c = (perm_sum c ≡ 0) × (flip_sum c ≡ 0) × (twist_sum c ≡ 0)

pub permsign-lt : (a : List ℕ) → permsign a < 2
unfolding permsign
permsign-lt a = omega arith

flips_added :
    {c : Cube} → IsCube c → add_orientations eobit eoshift c.edge 0 ≡ sum_over c.edge (λ x. x / 16)
flips_added {c} hc =
    add_orientations_lem eobit eoshift (λ x. x / 16) c.edge 0
      (λ i h.
        let piece = (hc.edges.piece i (rw (← hc.edges.size) h)).0 in
        (
          (==_iff _ _).0
              (all_below_sound 32 (λ x. bit_and x eobit / 2 ^ eoshift == x / 16) _ eo_table piece),
          omega arith,
        ))
      (omega (arith, hc.edges.size))
    ∙ omega arith

twists_added :
    {c : Cube}
    → IsCube c
    → add_orientations cobits coshift c.corner 0 ≡ sum_over c.corner (λ x. x / 32)
twists_added {c} hc =
    add_orientations_lem cobits coshift (λ x. x / 32) c.corner 0
      (λ i h.
        let piece = (hc.corners.piece i (rw (← hc.corners.size) h)).0 in
        (
          (==_iff _ _).0
              (all_below_sound 96 (λ x. bit_and x cobits / 2 ^ coshift == x / 32) _ co_table piece),
          omega arith,
        ))
      (omega (arith, hc.corners.size))
    ∙ omega arith

checks :
    (a b x y : ℕ)
    → a < 2
    → b < 2
    → ((if not (a == b)
          then false
          else if not (x % 2 == 0)
          then false
          else if not (y % 3 == 0)
          then false
          else true)
        ≡ true)
      ↔ (((a + b) % 2 ≡ 0) × (x % 2 ≡ 0) × (y % 3 ≡ 0))
checks a b x y ha hb = ground arith

-- A cube of the puzzle is solvable, whatever its orientation, exactly if all three are zero.
pub issolvable_iff :
    (c : Cube) (o : ℕ)
    → IsCube c
    → (issolvable (record { cube = c; orientation = o }) ≡ true) ↔ AreZero c
unfolding issolvable pieces AreZero perm_sum flip_sum twist_sum
issolvable_iff c o hc =
    let flips = flips_added hc in
    let twists = twists_added hc in
    let same =
      checks (permsign (places c.edge)) (permsign (places c.corner))
        (add_orientations eobit eoshift c.edge 0) (add_orientations cobits coshift c.corner 0)
        (permsign-lt (places c.edge)) (permsign-lt (places c.corner)) in
    (
      λ h. ((same.0 h).0, omega (arith, (same.0 h).1, flips), omega (arith, (same.0 h).2, twists)),
      λ (h0, h1, h2). same.1 (h0, omega (arith, h1, flips), omega (arith, h2, twists)),
    )

perm_sum-compose :
    {a b : Cube} → IsCube a → IsCube b → perm_sum (compose a b) ≡ (perm_sum a + perm_sum b) % 2
unfolding perm_sum compose
perm_sum-compose {a} {b} ha hb = omega (
  arith,
  ap permsign (places-compose edge_laws (omega arith) ha.edges hb.edges),
  ap permsign (places-compose corner_laws (omega arith) ha.corners hb.corners),
  permsign-follow (places a.edge) (places b.edge) (places-IsPerm edge_laws (omega arith) ha.edges)
      (places-IsPerm edge_laws (omega arith) hb.edges)
      (omega (
        arith,
        length-map place_of a.edge,
        length-map place_of b.edge,
        ha.edges.size,
        hb.edges.size,
      )),
  permsign-follow (places a.corner) (places b.corner)
      (places-IsPerm corner_laws (omega arith) ha.corners)
      (places-IsPerm corner_laws (omega arith) hb.corners)
      (omega (
        arith,
        length-map place_of a.corner,
        length-map place_of b.corner,
        ha.corners.size,
        hb.corners.size,
      )),
)

flip_sum-compose :
    {a b : Cube} → IsCube a → IsCube b → flip_sum (compose a b) ≡ (flip_sum a + flip_sum b) % 2
unfolding flip_sum compose
flip_sum-compose {a} {b} ha hb =
    sum_over-compose edge_laws (omega arith) (λ x. x / 16) 2
      (λ x y hx hy. omega (arith, mix_edge_lem x y hx.0 hy.0)) ha.edges hb.edges
    ∙ omega arith

twist_sum-compose :
    {a b : Cube} → IsCube a → IsCube b → twist_sum (compose a b) ≡ (twist_sum a + twist_sum b) % 3
unfolding twist_sum compose
twist_sum-compose {a} {b} ha hb =
    sum_over-compose corner_laws (omega arith) (λ x. x / 32) 3
      (λ x y hx hy. omega (arith, mix_corner_lem x y hx hy)) ha.corners hb.corners
    ∙ omega arith

AreZero-solved : AreZero solved_cube
unfolding AreZero perm_sum flip_sum twist_sum permsign sum_over
AreZero-solved = (refl, refl, refl)

zero_left : {a b : Cube} → IsCube a → IsCube b → AreZero a → AreZero (compose a b) ↔ AreZero b
unfolding AreZero perm_sum flip_sum twist_sum
zero_left ha hb z =
    let p = perm_sum-compose ha hb in
    let f = flip_sum-compose ha hb in
    let t = twist_sum-compose ha hb in
    (
      λ h. (omega (arith, p, z.0, h.0), omega (arith, f, z.1, h.1), omega (arith, t, z.2, h.2)),
      λ h. (omega (arith, p, z.0, h.0), omega (arith, f, z.1, h.1), omega (arith, t, z.2, h.2)),
    )

zero_right : {a b : Cube} → IsCube a → IsCube b → AreZero a → AreZero (compose b a) ↔ AreZero b
unfolding AreZero perm_sum flip_sum twist_sum
zero_right ha hb z =
    let p = perm_sum-compose hb ha in
    let f = flip_sum-compose hb ha in
    let t = twist_sum-compose hb ha in
    (
      λ h. (omega (arith, p, z.0, h.0), omega (arith, f, z.1, h.1), omega (arith, t, z.2, h.2)),
      λ h. (omega (arith, p, z.0, h.0), omega (arith, f, z.1, h.1), omega (arith, t, z.2, h.2)),
    )

same_truth : (x y : Bool) → ((x ≡ true) ↔ (y ≡ true)) → x ≡ y
same_truth true true h = refl
same_truth true false h = sym (h.0 refl)
same_truth false true h = h.1 refl
same_truth false false h = refl

abbrev oriented : Cube → ℕ → OrientedCube
oriented c o = record { cube = c; orientation = o }

issolvable_same :
    (a b : Cube) (o p : ℕ)
    → IsCube a
    → IsCube b
    → AreZero a ↔ AreZero b
    → issolvable (oriented a o) ≡ issolvable (oriented b p)
issolvable_same a b o p ha hb same =
    let (ta, fa) = issolvable_iff a o ha in
    let (tb, fb) = issolvable_iff b p hb in
    same_truth _ _ (λ h. fb (same.0 (ta h)), λ h. fa (same.1 (tb h)))

-- A solvable cube composed with a cube of the puzzle, on either side, is solvable exactly if that cube
-- is, whatever the orientations.
pub issolvable-compose :
    (a b : OrientedCube) (o : ℕ)
    → IsCube a.cube
    → IsCube b.cube
    → issolvable a ≡ true
    → (issolvable (record { cube = compose a.cube b.cube; orientation = o }) ≡ issolvable b)
      × (issolvable (record { cube = compose b.cube a.cube; orientation = o }) ≡ issolvable b)
issolvable-compose a b o ha hb h =
    let z = (issolvable_iff a.cube a.orientation ha).0 h in
    (
      issolvable_same _ b.cube o b.orientation (compose-IsCube ha hb) hb (zero_left ha hb z),
      issolvable_same _ b.cube o b.orientation (compose-IsCube hb ha) hb (zero_right ha hb z),
    )

zero_inverse : {c : Cube} → IsCube c → AreZero (inverse c) → AreZero c
zero_inverse {c} hc z =
    (zero_left (inverse-IsCube hc) hc z).0 (subst AreZero (sym (inverse_lem hc).0) AreZero-solved)

-- The inverse of a cube of the puzzle is solvable exactly if the cube is, whatever the orientations.
pub issolvable-inverse :
    (c : OrientedCube) (o : ℕ)
    → IsCube c.cube
    → issolvable (record { cube = inverse c.cube; orientation = o }) ≡ issolvable c
issolvable-inverse c o hc = issolvable_same _ c.cube o c.orientation (inverse-IsCube hc) hc (
  zero_inverse hc,
  λ z. zero_inverse (inverse-IsCube hc) (subst AreZero (sym (inverse_involutive hc)) z),
)

moves_solvable : all_below 18 (λ m. issolvable (oriented (move_cube m) 0)) ≡ true
unfolding all_below issolvable move_cubes pieces permsign add_orientations
moves_solvable = refl

-- Basic moves do not change whether a cube of the puzzle is solvable.
pub issolvable-run :
    (ms : List ℕ) (c : OrientedCube) (o : ℕ)
    → AreBasic ms
    → IsCube c.cube
    → issolvable (record { cube = run c.cube ms; orientation = o }) ≡ issolvable c
issolvable-run [] c o b hc = issolvable_same c.cube c.cube o c.orientation hc hc (λ z. z, λ z. z)
issolvable-run (m ∷ ms) c o b hc =
    issolvable-run ms (oriented (move c.cube m) 0) o b.1 (move-IsCube m b.0 hc)
    ∙ ap (λ t. issolvable (oriented t 0)) (move_lem c.cube m b.0)
    ∙ (issolvable-compose (oriented (move_cube m) 0) c 0 (move_cube-IsCube m b.0) hc
        (all_below_sound 18 (λ k. issolvable (oriented (move_cube k) 0)) m moves_solvable b.0)).1
