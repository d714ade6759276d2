-- ===== src/Tables.antt =====
-- The tables of src/core/constants.h on moves, orientations and symmetries. A list in a table that
-- ends in UINT8_MAX keeps that mark, 255.
use h.Base.{ℕ, List, [], ◌∷◌}

pub record EquivalentMoves : Type 0 where
  pub move : List ℕ
  pub rotation : List ℕ

-- The moves that may follow a move of each base.
unfoldable pub allowedmask : List ℕ
allowedmask =
    0x3fff8 ∷ 0x3ffc0 ∷ 0x3fe3f ∷ 0x3f03f ∷ 0x38fff ∷ 0xfff ∷ 0x0 ∷ 0x0 ∷ 0x0 ∷ 0x0 ∷ 0x0 ∷ 0x0
    ∷ 0x0 ∷ 0x0 ∷ 0x0 ∷ 0x0 ∷ 0x0 ∷ 0x0 ∷ []

-- The inverse of each symmetry.
unfoldable pub inverse_trans_table : List ℕ
inverse_trans_table =
    0 ∷ 3 ∷ 2 ∷ 1 ∷ 4 ∷ 5 ∷ 6 ∷ 7 ∷ 17 ∷ 13 ∷ 23 ∷ 11 ∷ 19 ∷ 9 ∷ 21 ∷ 15 ∷ 16 ∷ 8 ∷ 20 ∷ 12 ∷ 18
    ∷ 14 ∷ 22 ∷ 10 ∷ 24 ∷ 25 ∷ 26 ∷ 27 ∷ 28 ∷ 31 ∷ 30 ∷ 29 ∷ 43 ∷ 33 ∷ 45 ∷ 39 ∷ 41 ∷ 37 ∷ 47 ∷ 35
    ∷ 40 ∷ 36 ∷ 44 ∷ 32 ∷ 42 ∷ 34 ∷ 46 ∷ 38 ∷ []

-- Where each symmetry takes U, R and F.
unfoldable pub trans_move_table : List (List ℕ)
trans_move_table =
    (0 ∷ 6 ∷ 12 ∷ [])
    ∷ (0 ∷ 12 ∷ 9 ∷ [])
    ∷ (0 ∷ 9 ∷ 15 ∷ [])
    ∷ (0 ∷ 15 ∷ 6 ∷ [])
    ∷ (3 ∷ 9 ∷ 12 ∷ [])
    ∷ (3 ∷ 15 ∷ 9 ∷ [])
    ∷ (3 ∷ 6 ∷ 15 ∷ [])
    ∷ (3 ∷ 12 ∷ 6 ∷ [])
    ∷ (6 ∷ 12 ∷ 0 ∷ [])
    ∷ (6 ∷ 3 ∷ 12 ∷ [])
    ∷ (6 ∷ 15 ∷ 3 ∷ [])
    ∷ (6 ∷ 0 ∷ 15 ∷ [])
    ∷ (9 ∷ 15 ∷ 0 ∷ [])
    ∷ (9 ∷ 0 ∷ 12 ∷ [])
    ∷ (9 ∷ 12 ∷ 3 ∷ [])
    ∷ (9 ∷ 3 ∷ 15 ∷ [])
    ∷ (12 ∷ 9 ∷ 0 ∷ [])
    ∷ (12 ∷ 0 ∷ 6 ∷ [])
    ∷ (12 ∷ 6 ∷ 3 ∷ [])
    ∷ (12 ∷ 3 ∷ 9 ∷ [])
    ∷ (15 ∷ 6 ∷ 0 ∷ [])
    ∷ (15 ∷ 3 ∷ 6 ∷ [])
    ∷ (15 ∷ 9 ∷ 3 ∷ [])
    ∷ (15 ∷ 0 ∷ 9 ∷ [])
    ∷ (0 ∷ 9 ∷ 12 ∷ [])
    ∷ (0 ∷ 12 ∷ 6 ∷ [])
    ∷ (0 ∷ 6 ∷ 15 ∷ [])
    ∷ (0 ∷ 15 ∷ 9 ∷ [])
    ∷ (3 ∷ 6 ∷ 12 ∷ [])
    ∷ (3 ∷ 15 ∷ 6 ∷ [])
    ∷ (3 ∷ 9 ∷ 15 ∷ [])
    ∷ (3 ∷ 12 ∷ 9 ∷ [])
    ∷ (9 ∷ 12 ∷ 0 ∷ [])
    ∷ (9 ∷ 3 ∷ 12 ∷ [])
    ∷ (9 ∷ 15 ∷ 3 ∷ [])
    ∷ (9 ∷ 0 ∷ 15 ∷ [])
    ∷ (6 ∷ 15 ∷ 0 ∷ [])
    ∷ (6 ∷ 0 ∷ 12 ∷ [])
    ∷ (6 ∷ 12 ∷ 3 ∷ [])
    ∷ (6 ∷ 3 ∷ 15 ∷ [])
    ∷ (12 ∷ 6 ∷ 0 ∷ [])
    ∷ (12 ∷ 0 ∷ 9 ∷ [])
    ∷ (12 ∷ 9 ∷ 3 ∷ [])
    ∷ (12 ∷ 3 ∷ 6 ∷ [])
    ∷ (15 ∷ 9 ∷ 0 ∷ [])
    ∷ (15 ∷ 3 ∷ 9 ∷ [])
    ∷ (15 ∷ 6 ∷ 3 ∷ [])
    ∷ (15 ∷ 0 ∷ 6 ∷ [])
    ∷ []

-- Rotations that lead from the standard orientation to each.
unfoldable pub orientation_moves : List (List ℕ)
orientation_moves =
    (255 ∷ [])
    ∷ (48 ∷ 255 ∷ [])
    ∷ (49 ∷ 255 ∷ [])
    ∷ (50 ∷ 255 ∷ [])
    ∷ (52 ∷ 255 ∷ [])
    ∷ (48 ∷ 52 ∷ 255 ∷ [])
    ∷ (49 ∷ 52 ∷ 255 ∷ [])
    ∷ (50 ∷ 52 ∷ 255 ∷ [])
    ∷ (53 ∷ 255 ∷ [])
    ∷ (53 ∷ 48 ∷ 255 ∷ [])
    ∷ (53 ∷ 49 ∷ 255 ∷ [])
    ∷ (53 ∷ 50 ∷ 255 ∷ [])
    ∷ (51 ∷ 255 ∷ [])
    ∷ (51 ∷ 50 ∷ 255 ∷ [])
    ∷ (51 ∷ 49 ∷ 255 ∷ [])
    ∷ (51 ∷ 48 ∷ 255 ∷ [])
    ∷ (45 ∷ 255 ∷ [])
    ∷ (45 ∷ 48 ∷ 255 ∷ [])
    ∷ (45 ∷ 49 ∷ 255 ∷ [])
    ∷ (45 ∷ 50 ∷ 255 ∷ [])
    ∷ (47 ∷ 49 ∷ 255 ∷ [])
    ∷ (47 ∷ 48 ∷ 255 ∷ [])
    ∷ (47 ∷ 255 ∷ [])
    ∷ (47 ∷ 50 ∷ 255 ∷ [])
    ∷ []

-- Where x, y and z take each orientation.
unfoldable pub orientation_transition_table : List (List ℕ)
orientation_transition_table =
    (16 ∷ 1 ∷ 12 ∷ [])
    ∷ (9 ∷ 2 ∷ 17 ∷ [])
    ∷ (20 ∷ 3 ∷ 10 ∷ [])
    ∷ (13 ∷ 0 ∷ 23 ∷ [])
    ∷ (18 ∷ 7 ∷ 8 ∷ [])
    ∷ (11 ∷ 4 ∷ 21 ∷ [])
    ∷ (22 ∷ 5 ∷ 14 ∷ [])
    ∷ (15 ∷ 6 ∷ 19 ∷ [])
    ∷ (19 ∷ 9 ∷ 0 ∷ [])
    ∷ (7 ∷ 10 ∷ 16 ∷ [])
    ∷ (23 ∷ 11 ∷ 6 ∷ [])
    ∷ (3 ∷ 8 ∷ 22 ∷ [])
    ∷ (17 ∷ 15 ∷ 4 ∷ [])
    ∷ (5 ∷ 12 ∷ 20 ∷ [])
    ∷ (21 ∷ 13 ∷ 2 ∷ [])
    ∷ (1 ∷ 14 ∷ 18 ∷ [])
    ∷ (6 ∷ 17 ∷ 13 ∷ [])
    ∷ (10 ∷ 18 ∷ 5 ∷ [])
    ∷ (2 ∷ 19 ∷ 11 ∷ [])
    ∷ (14 ∷ 16 ∷ 3 ∷ [])
    ∷ (4 ∷ 23 ∷ 9 ∷ [])
    ∷ (8 ∷ 20 ∷ 1 ∷ [])
    ∷ (0 ∷ 21 ∷ 15 ∷ [])
    ∷ (12 ∷ 22 ∷ 7 ∷ [])
    ∷ []

-- The symmetry that stands for each orientation.
unfoldable pub orientation_trans : List ℕ
orientation_trans =
    0 ∷ 3 ∷ 2 ∷ 1 ∷ 4 ∷ 7 ∷ 6 ∷ 5 ∷ 9 ∷ 10 ∷ 11 ∷ 8 ∷ 13 ∷ 14 ∷ 15 ∷ 12 ∷ 18 ∷ 17 ∷ 16 ∷ 19 ∷ 22
    ∷ 21 ∷ 20 ∷ 23 ∷ []

-- Every move as basic moves and rotations of the whole cube.
unfoldable pub equivalent_moves_table : List EquivalentMoves
equivalent_moves_table =
    record { move = 0 ∷ 255 ∷ []; rotation = 255 ∷ [] }
    ∷ record { move = 1 ∷ 255 ∷ []; rotation = 255 ∷ [] }
    ∷ record { move = 2 ∷ 255 ∷ []; rotation = 255 ∷ [] }
    ∷ record { move = 3 ∷ 255 ∷ []; rotation = 255 ∷ [] }
    ∷ record { move = 4 ∷ 255 ∷ []; rotation = 255 ∷ [] }
    ∷ record { move = 5 ∷ 255 ∷ []; rotation = 255 ∷ [] }
    ∷ record { move = 6 ∷ 255 ∷ []; rotation = 255 ∷ [] }
    ∷ record { move = 7 ∷ 255 ∷ []; rotation = 255 ∷ [] }
    ∷ record { move = 8 ∷ 255 ∷ []; rotation = 255 ∷ [] }
    ∷ record { move = 9 ∷ 255 ∷ []; rotation = 255 ∷ [] }
    ∷ record { move = 10 ∷ 255 ∷ []; rotation = 255 ∷ [] }
    ∷ record { move = 11 ∷ 255 ∷ []; rotation = 255 ∷ [] }
    ∷ record { move = 12 ∷ 255 ∷ []; rotation = 255 ∷ [] }
    ∷ record { move = 13 ∷ 255 ∷ []; rotation = 255 ∷ [] }
    ∷ record { move = 14 ∷ 255 ∷ []; rotation = 255 ∷ [] }
    ∷ record { move = 15 ∷ 255 ∷ []; rotation = 255 ∷ [] }
    ∷ record { move = 16 ∷ 255 ∷ []; rotation = 255 ∷ [] }
    ∷ record { move = 17 ∷ 255 ∷ []; rotation = 255 ∷ [] }
    ∷ record { move = 3 ∷ 255 ∷ []; rotation = 1 ∷ 255 ∷ [] }
    ∷ record { move = 4 ∷ 255 ∷ []; rotation = 1 ∷ 1 ∷ 255 ∷ [] }
    ∷ record { move = 5 ∷ 255 ∷ []; rotation = 1 ∷ 1 ∷ 1 ∷ 255 ∷ [] }
    ∷ record { move = 0 ∷ 255 ∷ []; rotation = 1 ∷ 1 ∷ 1 ∷ 255 ∷ [] }
    ∷ record { move = 1 ∷ 255 ∷ []; rotation = 1 ∷ 1 ∷ 255 ∷ [] }
    ∷ record { move = 2 ∷ 255 ∷ []; rotation = 1 ∷ 255 ∷ [] }
    ∷ record { move = 9 ∷ 255 ∷ []; rotation = 0 ∷ 255 ∷ [] }
    ∷ record { move = 10 ∷ 255 ∷ []; rotation = 0 ∷ 0 ∷ 255 ∷ [] }
    ∷ record { move = 11 ∷ 255 ∷ []; rotation = 0 ∷ 0 ∷ 0 ∷ 255 ∷ [] }
    ∷ record { move = 6 ∷ 255 ∷ []; rotation = 0 ∷ 0 ∷ 0 ∷ 255 ∷ [] }
    ∷ record { move = 7 ∷ 255 ∷ []; rotation = 0 ∷ 0 ∷ 255 ∷ [] }
    ∷ record { move = 8 ∷ 255 ∷ []; rotation = 0 ∷ 255 ∷ [] }
    ∷ record { move = 15 ∷ 255 ∷ []; rotation = 2 ∷ 255 ∷ [] }
    ∷ record { move = 16 ∷ 255 ∷ []; rotation = 2 ∷ 2 ∷ 255 ∷ [] }
    ∷ record { move = 17 ∷ 255 ∷ []; rotation = 2 ∷ 2 ∷ 2 ∷ 255 ∷ [] }
    ∷ record { move = 12 ∷ 255 ∷ []; rotation = 2 ∷ 2 ∷ 2 ∷ 255 ∷ [] }
    ∷ record { move = 13 ∷ 255 ∷ []; rotation = 2 ∷ 2 ∷ 255 ∷ [] }
    ∷ record { move = 14 ∷ 255 ∷ []; rotation = 2 ∷ 255 ∷ [] }
    ∷ record { move = 6 ∷ 11 ∷ 255 ∷ []; rotation = 0 ∷ 0 ∷ 0 ∷ 255 ∷ [] }
    ∷ record { move = 7 ∷ 10 ∷ 255 ∷ []; rotation = 0 ∷ 0 ∷ 255 ∷ [] }
    ∷ record { move = 8 ∷ 9 ∷ 255 ∷ []; rotation = 0 ∷ 255 ∷ [] }
    ∷ record { move = 14 ∷ 15 ∷ 255 ∷ []; rotation = 2 ∷ 255 ∷ [] }
    ∷ record { move = 13 ∷ 16 ∷ 255 ∷ []; rotation = 2 ∷ 2 ∷ 255 ∷ [] }
    ∷ record { move = 12 ∷ 17 ∷ 255 ∷ []; rotation = 2 ∷ 2 ∷ 2 ∷ 255 ∷ [] }
    ∷ record { move = 0 ∷ 5 ∷ 255 ∷ []; rotation = 1 ∷ 1 ∷ 1 ∷ 255 ∷ [] }
    ∷ record { move = 1 ∷ 4 ∷ 255 ∷ []; rotation = 1 ∷ 1 ∷ 255 ∷ [] }
    ∷ record { move = 2 ∷ 3 ∷ 255 ∷ []; rotation = 1 ∷ 255 ∷ [] }
    ∷ record { move = 255 ∷ []; rotation = 0 ∷ 255 ∷ [] }
    ∷ record { move = 255 ∷ []; rotation = 0 ∷ 0 ∷ 255 ∷ [] }
    ∷ record { move = 255 ∷ []; rotation = 0 ∷ 0 ∷ 0 ∷ 255 ∷ [] }
    ∷ record { move = 255 ∷ []; rotation = 1 ∷ 255 ∷ [] }
    ∷ record { move = 255 ∷ []; rotation = 1 ∷ 1 ∷ 255 ∷ [] }
    ∷ record { move = 255 ∷ []; rotation = 1 ∷ 1 ∷ 1 ∷ 255 ∷ [] }
    ∷ record { move = 255 ∷ []; rotation = 2 ∷ 255 ∷ [] }
    ∷ record { move = 255 ∷ []; rotation = 2 ∷ 2 ∷ 255 ∷ [] }
    ∷ record { move = 255 ∷ []; rotation = 2 ∷ 2 ∷ 2 ∷ 255 ∷ [] }
    ∷ []
