-- ===== src/Oriented/Checked.antt =====
-- A Boolean test of a cube given by its numbers, for the tables of moves and symmetries.
use h.Base.{
  ℕ, zero, suc, ◌<◌, Bool, true, ◌&&◌, ◌≡◌, ◌==◌, ltb, arith, length, get_or, all_below,
  all_below_sound, List, [], ◌∷◌,
}
use h.Cube.{Cube}
use h.Cube.Group.{IsCube}
use h.Oriented.{isconsistent}
use h.Oriented.Consistent.{IsRaw, isconsistent_iff}

unfoldable pub is_cube : Cube → Bool
unfolding isconsistent all_below
is_cube c =
    length c.corner == 8
    && (length c.edge == 12
        && (all_below 8 (λ k. ltb (get_or c.corner k 0) 256)
            && (all_below 12 (λ k. ltb (get_or c.edge k 0) 32)
                && isconsistent (record { cube = c; orientation = 0 }))))

and_true : (a b : Bool) → (a && b) ≡ true → (a ≡ true) × (b ≡ true)
and_true a b h = ground arith

is_cube_parts :
    (c : Cube)
    → is_cube c ≡ true
    → ((length c.corner == 8) ≡ true)
      × ((length c.edge == 12) ≡ true)
      × (all_below 8 (λ k. ltb (get_or c.corner k 0) 256) ≡ true)
      × (all_below 12 (λ k. ltb (get_or c.edge k 0) 32) ≡ true)
      × (isconsistent (record { cube = c; orientation = 0 }) ≡ true)
unfolding is_cube
is_cube_parts c h =
    let (p, h1) = and_true _ _ h in
    let (q, h2) = and_true _ _ h1 in
    let (r, h3) = and_true _ _ h2 in let (s, t) = and_true _ _ h3 in (p, q, r, s, t)

pub is_cube_sound : (c : Cube) → is_cube c ≡ true → IsCube c
is_cube_sound c h = ((isconsistent_iff (record { cube = c; orientation = 0 }) raw).0 parts.4).0
  where
    parts :
        ((length c.corner == 8) ≡ true)
        × ((length c.edge == 12) ≡ true)
        × (all_below 8 (λ k. ltb (get_or c.corner k 0) 256) ≡ true)
        × (all_below 12 (λ k. ltb (get_or c.edge k 0) 32) ≡ true)
        × (isconsistent (record { cube = c; orientation = 0 }) ≡ true)
    parts = is_cube_parts c h

    raw : IsRaw c
    raw = record {
      room = record { corner_size = ground (arith, parts.0); edge_size = ground (arith, parts.1) };
      corner_byte = λ k hk.
          ground (arith, all_below_sound 8 (λ j. ltb (get_or c.corner j 0) 256) k parts.2 hk);
      edge_bits =
          λ k hk. ground (arith, all_below_sound 12 (λ j. ltb (get_or c.edge j 0) 32) k parts.3 hk);
    }

-- Every cube of a list passes the test.
unfoldable pub all_cubes : List Cube → Bool
unfolding is_cube
all_cubes [] = true
all_cubes (c ∷ cs) = is_cube c && all_cubes cs

pub all_cubes_sound :
    (cs : List Cube) (i : ℕ) (d : Cube)
    → all_cubes cs ≡ true
    → i < length cs
    → IsCube (get_or cs i d)
unfolding all_cubes
all_cubes_sound [] i d h p = elim p [ ]
all_cubes_sound (c ∷ cs) zero d h p = is_cube_sound c (and_true _ _ h).0
all_cubes_sound (c ∷ cs) (suc i) d h p = all_cubes_sound cs i d (and_true _ _ h).1 (omega arith)
