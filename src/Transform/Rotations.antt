-- ===== src/Transform/Rotations.antt =====
-- The 24 rotations of the 48 symmetries as cubes, with their inverses: the TRANS_CUBE_ constants of
-- src/core/constants.h, in the order of the TRANS_ numbers.
use h.Base.{List, [], ◌∷◌}
use h.Cube.{Cube}

unfoldable pub rotations : List Cube
rotations =
    record {
      corner = 0 ∷ 1 ∷ 2 ∷ 3 ∷ 4 ∷ 5 ∷ 6 ∷ 7 ∷ [];
      edge = 0 ∷ 1 ∷ 2 ∷ 3 ∷ 4 ∷ 5 ∷ 6 ∷ 7 ∷ 8 ∷ 9 ∷ 10 ∷ 11 ∷ [];
    }
    ∷ record {
      corner = 4 ∷ 5 ∷ 7 ∷ 6 ∷ 1 ∷ 0 ∷ 2 ∷ 3 ∷ [];
      edge = 5 ∷ 4 ∷ 7 ∷ 6 ∷ 0 ∷ 1 ∷ 2 ∷ 3 ∷ 25 ∷ 26 ∷ 27 ∷ 24 ∷ [];
    }
    ∷ record {
      corner = 1 ∷ 0 ∷ 3 ∷ 2 ∷ 5 ∷ 4 ∷ 7 ∷ 6 ∷ [];
      edge = 1 ∷ 0 ∷ 3 ∷ 2 ∷ 5 ∷ 4 ∷ 7 ∷ 6 ∷ 10 ∷ 11 ∷ 8 ∷ 9 ∷ [];
    }
    ∷ record {
      corner = 5 ∷ 4 ∷ 6 ∷ 7 ∷ 0 ∷ 1 ∷ 3 ∷ 2 ∷ [];
      edge = 4 ∷ 5 ∷ 6 ∷ 7 ∷ 1 ∷ 0 ∷ 3 ∷ 2 ∷ 27 ∷ 24 ∷ 25 ∷ 26 ∷ [];
    }
    ∷ record {
      corner = 2 ∷ 3 ∷ 0 ∷ 1 ∷ 6 ∷ 7 ∷ 4 ∷ 5 ∷ [];
      edge = 3 ∷ 2 ∷ 1 ∷ 0 ∷ 6 ∷ 7 ∷ 4 ∷ 5 ∷ 9 ∷ 8 ∷ 11 ∷ 10 ∷ [];
    }
    ∷ record {
      corner = 7 ∷ 6 ∷ 4 ∷ 5 ∷ 2 ∷ 3 ∷ 1 ∷ 0 ∷ [];
      edge = 6 ∷ 7 ∷ 4 ∷ 5 ∷ 2 ∷ 3 ∷ 0 ∷ 1 ∷ 26 ∷ 25 ∷ 24 ∷ 27 ∷ [];
    }
    ∷ record {
      corner = 3 ∷ 2 ∷ 1 ∷ 0 ∷ 7 ∷ 6 ∷ 5 ∷ 4 ∷ [];
      edge = 2 ∷ 3 ∷ 0 ∷ 1 ∷ 7 ∷ 6 ∷ 5 ∷ 4 ∷ 11 ∷ 10 ∷ 9 ∷ 8 ∷ [];
    }
    ∷ record {
      corner = 6 ∷ 7 ∷ 5 ∷ 4 ∷ 3 ∷ 2 ∷ 0 ∷ 1 ∷ [];
      edge = 7 ∷ 6 ∷ 5 ∷ 4 ∷ 3 ∷ 2 ∷ 1 ∷ 0 ∷ 24 ∷ 27 ∷ 26 ∷ 25 ∷ [];
    }
    ∷ record {
      corner = 64 ∷ 67 ∷ 65 ∷ 66 ∷ 37 ∷ 38 ∷ 36 ∷ 39 ∷ [];
      edge = 20 ∷ 23 ∷ 22 ∷ 21 ∷ 24 ∷ 27 ∷ 26 ∷ 25 ∷ 0 ∷ 1 ∷ 2 ∷ 3 ∷ [];
    }
    ∷ record {
      corner = 38 ∷ 37 ∷ 36 ∷ 39 ∷ 64 ∷ 67 ∷ 66 ∷ 65 ∷ [];
      edge = 24 ∷ 27 ∷ 26 ∷ 25 ∷ 23 ∷ 20 ∷ 21 ∷ 22 ∷ 19 ∷ 16 ∷ 17 ∷ 18 ∷ [];
    }
    ∷ record {
      corner = 67 ∷ 64 ∷ 66 ∷ 65 ∷ 38 ∷ 37 ∷ 39 ∷ 36 ∷ [];
      edge = 23 ∷ 20 ∷ 21 ∷ 22 ∷ 27 ∷ 24 ∷ 25 ∷ 26 ∷ 2 ∷ 3 ∷ 0 ∷ 1 ∷ [];
    }
    ∷ record {
      corner = 37 ∷ 38 ∷ 39 ∷ 36 ∷ 67 ∷ 64 ∷ 65 ∷ 66 ∷ [];
      edge = 27 ∷ 24 ∷ 25 ∷ 26 ∷ 20 ∷ 23 ∷ 22 ∷ 21 ∷ 17 ∷ 18 ∷ 19 ∷ 16 ∷ [];
    }
    ∷ record {
      corner = 65 ∷ 66 ∷ 64 ∷ 67 ∷ 36 ∷ 39 ∷ 37 ∷ 38 ∷ [];
      edge = 21 ∷ 22 ∷ 23 ∷ 20 ∷ 26 ∷ 25 ∷ 24 ∷ 27 ∷ 1 ∷ 0 ∷ 3 ∷ 2 ∷ [];
    }
    ∷ record {
      corner = 36 ∷ 39 ∷ 38 ∷ 37 ∷ 66 ∷ 65 ∷ 64 ∷ 67 ∷ [];
      edge = 25 ∷ 26 ∷ 27 ∷ 24 ∷ 21 ∷ 22 ∷ 23 ∷ 20 ∷ 16 ∷ 19 ∷ 18 ∷ 17 ∷ [];
    }
    ∷ record {
      corner = 66 ∷ 65 ∷ 67 ∷ 64 ∷ 39 ∷ 36 ∷ 38 ∷ 37 ∷ [];
      edge = 22 ∷ 21 ∷ 20 ∷ 23 ∷ 25 ∷ 26 ∷ 27 ∷ 24 ∷ 3 ∷ 2 ∷ 1 ∷ 0 ∷ [];
    }
    ∷ record {
      corner = 39 ∷ 36 ∷ 37 ∷ 38 ∷ 65 ∷ 66 ∷ 67 ∷ 64 ∷ [];
      edge = 26 ∷ 25 ∷ 24 ∷ 27 ∷ 22 ∷ 21 ∷ 20 ∷ 23 ∷ 18 ∷ 17 ∷ 16 ∷ 19 ∷ [];
    }
    ∷ record {
      corner = 68 ∷ 70 ∷ 69 ∷ 71 ∷ 32 ∷ 34 ∷ 33 ∷ 35 ∷ [];
      edge = 16 ∷ 19 ∷ 18 ∷ 17 ∷ 9 ∷ 8 ∷ 11 ∷ 10 ∷ 5 ∷ 4 ∷ 7 ∷ 6 ∷ [];
    }
    ∷ record {
      corner = 32 ∷ 34 ∷ 35 ∷ 33 ∷ 70 ∷ 68 ∷ 69 ∷ 71 ∷ [];
      edge = 8 ∷ 9 ∷ 10 ∷ 11 ∷ 16 ∷ 19 ∷ 18 ∷ 17 ∷ 20 ∷ 23 ∷ 22 ∷ 21 ∷ [];
    }
    ∷ record {
      corner = 70 ∷ 68 ∷ 71 ∷ 69 ∷ 34 ∷ 32 ∷ 35 ∷ 33 ∷ [];
      edge = 19 ∷ 16 ∷ 17 ∷ 18 ∷ 8 ∷ 9 ∷ 10 ∷ 11 ∷ 7 ∷ 6 ∷ 5 ∷ 4 ∷ [];
    }
    ∷ record {
      corner = 34 ∷ 32 ∷ 33 ∷ 35 ∷ 68 ∷ 70 ∷ 71 ∷ 69 ∷ [];
      edge = 9 ∷ 8 ∷ 11 ∷ 10 ∷ 19 ∷ 16 ∷ 17 ∷ 18 ∷ 22 ∷ 21 ∷ 20 ∷ 23 ∷ [];
    }
    ∷ record {
      corner = 69 ∷ 71 ∷ 68 ∷ 70 ∷ 33 ∷ 35 ∷ 32 ∷ 34 ∷ [];
      edge = 17 ∷ 18 ∷ 19 ∷ 16 ∷ 11 ∷ 10 ∷ 9 ∷ 8 ∷ 4 ∷ 5 ∷ 6 ∷ 7 ∷ [];
    }
    ∷ record {
      corner = 35 ∷ 33 ∷ 32 ∷ 34 ∷ 69 ∷ 71 ∷ 70 ∷ 68 ∷ [];
      edge = 11 ∷ 10 ∷ 9 ∷ 8 ∷ 18 ∷ 17 ∷ 16 ∷ 19 ∷ 23 ∷ 20 ∷ 21 ∷ 22 ∷ [];
    }
    ∷ record {
      corner = 71 ∷ 69 ∷ 70 ∷ 68 ∷ 35 ∷ 33 ∷ 34 ∷ 32 ∷ [];
      edge = 18 ∷ 17 ∷ 16 ∷ 19 ∷ 10 ∷ 11 ∷ 8 ∷ 9 ∷ 6 ∷ 7 ∷ 4 ∷ 5 ∷ [];
    }
    ∷ record {
      corner = 33 ∷ 35 ∷ 34 ∷ 32 ∷ 71 ∷ 69 ∷ 68 ∷ 70 ∷ [];
      edge = 10 ∷ 11 ∷ 8 ∷ 9 ∷ 17 ∷ 18 ∷ 19 ∷ 16 ∷ 21 ∷ 22 ∷ 23 ∷ 20 ∷ [];
    }
    ∷ []

unfoldable pub rotations_inverse : List Cube
rotations_inverse =
    record {
      corner = 0 ∷ 1 ∷ 2 ∷ 3 ∷ 4 ∷ 5 ∷ 6 ∷ 7 ∷ [];
      edge = 0 ∷ 1 ∷ 2 ∷ 3 ∷ 4 ∷ 5 ∷ 6 ∷ 7 ∷ 8 ∷ 9 ∷ 10 ∷ 11 ∷ [];
    }
    ∷ record {
      corner = 5 ∷ 4 ∷ 6 ∷ 7 ∷ 0 ∷ 1 ∷ 3 ∷ 2 ∷ [];
      edge = 4 ∷ 5 ∷ 6 ∷ 7 ∷ 1 ∷ 0 ∷ 3 ∷ 2 ∷ 27 ∷ 24 ∷ 25 ∷ 26 ∷ [];
    }
    ∷ record {
      corner = 1 ∷ 0 ∷ 3 ∷ 2 ∷ 5 ∷ 4 ∷ 7 ∷ 6 ∷ [];
      edge = 1 ∷ 0 ∷ 3 ∷ 2 ∷ 5 ∷ 4 ∷ 7 ∷ 6 ∷ 10 ∷ 11 ∷ 8 ∷ 9 ∷ [];
    }
    ∷ record {
      corner = 4 ∷ 5 ∷ 7 ∷ 6 ∷ 1 ∷ 0 ∷ 2 ∷ 3 ∷ [];
      edge = 5 ∷ 4 ∷ 7 ∷ 6 ∷ 0 ∷ 1 ∷ 2 ∷ 3 ∷ 25 ∷ 26 ∷ 27 ∷ 24 ∷ [];
    }
    ∷ record {
      corner = 2 ∷ 3 ∷ 0 ∷ 1 ∷ 6 ∷ 7 ∷ 4 ∷ 5 ∷ [];
      edge = 3 ∷ 2 ∷ 1 ∷ 0 ∷ 6 ∷ 7 ∷ 4 ∷ 5 ∷ 9 ∷ 8 ∷ 11 ∷ 10 ∷ [];
    }
    ∷ record {
      corner = 7 ∷ 6 ∷ 4 ∷ 5 ∷ 2 ∷ 3 ∷ 1 ∷ 0 ∷ [];
      edge = 6 ∷ 7 ∷ 4 ∷ 5 ∷ 2 ∷ 3 ∷ 0 ∷ 1 ∷ 26 ∷ 25 ∷ 24 ∷ 27 ∷ [];
    }
    ∷ record {
      corner = 3 ∷ 2 ∷ 1 ∷ 0 ∷ 7 ∷ 6 ∷ 5 ∷ 4 ∷ [];
      edge = 2 ∷ 3 ∷ 0 ∷ 1 ∷ 7 ∷ 6 ∷ 5 ∷ 4 ∷ 11 ∷ 10 ∷ 9 ∷ 8 ∷ [];
    }
    ∷ record {
      corner = 6 ∷ 7 ∷ 5 ∷ 4 ∷ 3 ∷ 2 ∷ 0 ∷ 1 ∷ [];
      edge = 7 ∷ 6 ∷ 5 ∷ 4 ∷ 3 ∷ 2 ∷ 1 ∷ 0 ∷ 24 ∷ 27 ∷ 26 ∷ 25 ∷ [];
    }
    ∷ record {
      corner = 32 ∷ 34 ∷ 35 ∷ 33 ∷ 70 ∷ 68 ∷ 69 ∷ 71 ∷ [];
      edge = 8 ∷ 9 ∷ 10 ∷ 11 ∷ 16 ∷ 19 ∷ 18 ∷ 17 ∷ 20 ∷ 23 ∷ 22 ∷ 21 ∷ [];
    }
    ∷ record {
      corner = 36 ∷ 39 ∷ 38 ∷ 37 ∷ 66 ∷ 65 ∷ 64 ∷ 67 ∷ [];
      edge = 25 ∷ 26 ∷ 27 ∷ 24 ∷ 21 ∷ 22 ∷ 23 ∷ 20 ∷ 16 ∷ 19 ∷ 18 ∷ 17 ∷ [];
    }
    ∷ record {
      corner = 33 ∷ 35 ∷ 34 ∷ 32 ∷ 71 ∷ 69 ∷ 68 ∷ 70 ∷ [];
      edge = 10 ∷ 11 ∷ 8 ∷ 9 ∷ 17 ∷ 18 ∷ 19 ∷ 16 ∷ 21 ∷ 22 ∷ 23 ∷ 20 ∷ [];
    }
    ∷ record {
      corner = 37 ∷ 38 ∷ 39 ∷ 36 ∷ 67 ∷ 64 ∷ 65 ∷ 66 ∷ [];
      edge = 27 ∷ 24 ∷ 25 ∷ 26 ∷ 20 ∷ 23 ∷ 22 ∷ 21 ∷ 17 ∷ 18 ∷ 19 ∷ 16 ∷ [];
    }
    ∷ record {
      corner = 34 ∷ 32 ∷ 33 ∷ 35 ∷ 68 ∷ 70 ∷ 71 ∷ 69 ∷ [];
      edge = 9 ∷ 8 ∷ 11 ∷ 10 ∷ 19 ∷ 16 ∷ 17 ∷ 18 ∷ 22 ∷ 21 ∷ 20 ∷ 23 ∷ [];
    }
    ∷ record {
      corner = 38 ∷ 37 ∷ 36 ∷ 39 ∷ 64 ∷ 67 ∷ 66 ∷ 65 ∷ [];
      edge = 24 ∷ 27 ∷ 26 ∷ 25 ∷ 23 ∷ 20 ∷ 21 ∷ 22 ∷ 19 ∷ 16 ∷ 17 ∷ 18 ∷ [];
    }
    ∷ record {
      corner = 35 ∷ 33 ∷ 32 ∷ 34 ∷ 69 ∷ 71 ∷ 70 ∷ 68 ∷ [];
      edge = 11 ∷ 10 ∷ 9 ∷ 8 ∷ 18 ∷ 17 ∷ 16 ∷ 19 ∷ 23 ∷ 20 ∷ 21 ∷ 22 ∷ [];
    }
    ∷ record {
      corner = 39 ∷ 36 ∷ 37 ∷ 38 ∷ 65 ∷ 66 ∷ 67 ∷ 64 ∷ [];
      edge = 26 ∷ 25 ∷ 24 ∷ 27 ∷ 22 ∷ 21 ∷ 20 ∷ 23 ∷ 18 ∷ 17 ∷ 16 ∷ 19 ∷ [];
    }
    ∷ record {
      corner = 68 ∷ 70 ∷ 69 ∷ 71 ∷ 32 ∷ 34 ∷ 33 ∷ 35 ∷ [];
      edge = 16 ∷ 19 ∷ 18 ∷ 17 ∷ 9 ∷ 8 ∷ 11 ∷ 10 ∷ 5 ∷ 4 ∷ 7 ∷ 6 ∷ [];
    }
    ∷ record {
      corner = 64 ∷ 67 ∷ 65 ∷ 66 ∷ 37 ∷ 38 ∷ 36 ∷ 39 ∷ [];
      edge = 20 ∷ 23 ∷ 22 ∷ 21 ∷ 24 ∷ 27 ∷ 26 ∷ 25 ∷ 0 ∷ 1 ∷ 2 ∷ 3 ∷ [];
    }
    ∷ record {
      corner = 69 ∷ 71 ∷ 68 ∷ 70 ∷ 33 ∷ 35 ∷ 32 ∷ 34 ∷ [];
      edge = 17 ∷ 18 ∷ 19 ∷ 16 ∷ 11 ∷ 10 ∷ 9 ∷ 8 ∷ 4 ∷ 5 ∷ 6 ∷ 7 ∷ [];
    }
    ∷ record {
      corner = 65 ∷ 66 ∷ 64 ∷ 67 ∷ 36 ∷ 39 ∷ 37 ∷ 38 ∷ [];
      edge = 21 ∷ 22 ∷ 23 ∷ 20 ∷ 26 ∷ 25 ∷ 24 ∷ 27 ∷ 1 ∷ 0 ∷ 3 ∷ 2 ∷ [];
    }
    ∷ record {
      corner = 70 ∷ 68 ∷ 71 ∷ 69 ∷ 34 ∷ 32 ∷ 35 ∷ 33 ∷ [];
      edge = 19 ∷ 16 ∷ 17 ∷ 18 ∷ 8 ∷ 9 ∷ 10 ∷ 11 ∷ 7 ∷ 6 ∷ 5 ∷ 4 ∷ [];
    }
    ∷ record {
      corner = 66 ∷ 65 ∷ 67 ∷ 64 ∷ 39 ∷ 36 ∷ 38 ∷ 37 ∷ [];
      edge = 22 ∷ 21 ∷ 20 ∷ 23 ∷ 25 ∷ 26 ∷ 27 ∷ 24 ∷ 3 ∷ 2 ∷ 1 ∷ 0 ∷ [];
    }
    ∷ record {
      corner = 71 ∷ 69 ∷ 70 ∷ 68 ∷ 35 ∷ 33 ∷ 34 ∷ 32 ∷ [];
      edge = 18 ∷ 17 ∷ 16 ∷ 19 ∷ 10 ∷ 11 ∷ 8 ∷ 9 ∷ 6 ∷ 7 ∷ 4 ∷ 5 ∷ [];
    }
    ∷ record {
      corner = 67 ∷ 64 ∷ 66 ∷ 65 ∷ 38 ∷ 37 ∷ 39 ∷ 36 ∷ [];
      edge = 23 ∷ 20 ∷ 21 ∷ 22 ∷ 27 ∷ 24 ∷ 25 ∷ 26 ∷ 2 ∷ 3 ∷ 0 ∷ 1 ∷ [];
    }
    ∷ []
