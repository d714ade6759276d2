-- ===== src/Tests/Solvability.antt =====
-- Solvable cubes and cubes made of indices.
use h.Base.{◌<◌, ◌/◌, ◌%◌, ◌+◌, true, false, [], ◌∷◌, some, map, ◌≡◌, refl, arith}
use h.Cube.{compose}
use h.Cube.Group.{IsCube}
use h.Moves.Table.{f}
use h.Moves.Laws.Sequences.{run}
use h.Oriented.{OrientedCube}
use h.Oriented.Checked.{is_cube, is_cube_sound}
use h.Indices.{permsign, permtoindex, digitstosumzero, isperm}
use h.Indices.Permutations.{isperm_iff}
use h.Indices.Sign.{follow, permsign-follow}
use h.Solvable.{issolvable, getcube, getcube_fix, pos, negsuc, Indexes}
use h.Solvable.Parity.{places}
use h.Solvable.Invariants.{issolvable-compose, issolvable-run}
use h.Solvable.Made.{getcube_lem}
use h.Solvable.Fixed.{getcube_fix_lem}

f-IsCube : IsCube f
unfolding is_cube
f-IsCube = is_cube_sound f refl

-- One corner turned in its place.
abbrev twisted : OrientedCube
twisted = record {
  cube = record {
    corner = 32 ∷ 1 ∷ 2 ∷ 3 ∷ 4 ∷ 5 ∷ 6 ∷ 7 ∷ [];
    edge = 0 ∷ 1 ∷ 2 ∷ 3 ∷ 4 ∷ 5 ∷ 6 ∷ 7 ∷ 8 ∷ 9 ∷ 10 ∷ 11 ∷ [];
  };
  orientation = 0;
}

abbrev turned : OrientedCube
turned = record { cube = f; orientation = 5 }

twisted-IsCube : IsCube twisted.cube
unfolding is_cube
twisted-IsCube = is_cube_sound twisted.cube refl

f_solvable : issolvable turned ≡ true
unfolding issolvable
f_solvable = refl

twisted_unsolvable : issolvable twisted ≡ false
unfolding issolvable
twisted_unsolvable = refl

issolvable-compose_example :
    (issolvable (record { cube = compose f twisted.cube; orientation = 3 }) ≡ issolvable twisted)
    × (issolvable (record { cube = compose twisted.cube f; orientation = 3 }) ≡ issolvable twisted)
issolvable-compose_example = issolvable-compose turned twisted 3 f-IsCube twisted-IsCube f_solvable

issolvable-run_example :
    issolvable (record { cube = run twisted.cube (6 ∷ 0 ∷ 13 ∷ []); orientation = 0 })
    ≡ issolvable twisted
issolvable-run_example =
    issolvable-run (6 ∷ 0 ∷ 13 ∷ []) twisted 0 (omega arith, (omega arith, (omega arith, tt)))
      twisted-IsCube

permsign-follow_example :
    permsign (follow (1 ∷ 0 ∷ 2 ∷ []) (2 ∷ 0 ∷ 1 ∷ []))
    ≡ (permsign (1 ∷ 0 ∷ 2 ∷ []) + permsign (2 ∷ 0 ∷ 1 ∷ [])) % 2
unfolding isperm
permsign-follow_example =
    permsign-follow (1 ∷ 0 ∷ 2 ∷ []) (2 ∷ 0 ∷ 1 ∷ []) ((isperm_iff (1 ∷ 0 ∷ 2 ∷ [])).0 refl)
      ((isperm_iff (2 ∷ 0 ∷ 1 ∷ [])).0 refl) refl

getcube_lem_example :
    IsCube (getcube 7 5 9 11)
    × (permtoindex (places (getcube 7 5 9 11).edge) ≡ some 7)
    × (digitstosumzero (map (λ x. x / 16) (getcube 7 5 9 11).edge) 2 ≡ some 5)
    × (permtoindex (places (getcube 7 5 9 11).corner) ≡ some 9)
    × (digitstosumzero (map (λ x. x / 32) (getcube 7 5 9 11).corner) 3 ≡ some 11)
getcube_lem_example = getcube_lem 7 5 9 11 (omega arith) (omega arith) (omega arith) (omega arith)

getcube_fix_lem_example :
    (r : Indexes) × (getcube_fix (negsuc 0) (pos 5) (pos 9) (pos 11) (negsuc 3) ≡ some r)
    × IsCube (getcube r.ep r.eo r.cp r.co)
    × (issolvable (record { cube = getcube r.ep r.eo r.cp r.co; orientation = r.orien }) ≡ true)
    × (r.orien < 24)
getcube_fix_lem_example = getcube_fix_lem (negsuc 0) (pos 5) (pos 9) (pos 11) (negsuc 3)
