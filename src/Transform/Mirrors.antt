-- ===== src/Transform/Mirrors.antt =====
-- The 24 mirrored ones of the 48 symmetries as cubes, with their inverses: the TRANS_CUBE_ constants of
-- src/core/constants.h, in the order of the TRANS_ numbers.
use h.Base.{List, [], ◌∷◌}
use h.Cube.{Cube}

unfoldable pub mirrors : List Cube
mirrors =
    record {
      corner = 4 ∷ 5 ∷ 6 ∷ 7 ∷ 0 ∷ 1 ∷ 2 ∷ 3 ∷ [];
      edge = 0 ∷ 1 ∷ 2 ∷ 3 ∷ 5 ∷ 4 ∷ 7 ∷ 6 ∷ 9 ∷ 8 ∷ 11 ∷ 10 ∷ [];
    }
    ∷ record {
      corner = 0 ∷ 1 ∷ 3 ∷ 2 ∷ 5 ∷ 4 ∷ 6 ∷ 7 ∷ [];
      edge = 4 ∷ 5 ∷ 6 ∷ 7 ∷ 0 ∷ 1 ∷ 2 ∷ 3 ∷ 24 ∷ 27 ∷ 26 ∷ 25 ∷ [];
    }
    ∷ record {
      corner = 5 ∷ 4 ∷ 7 ∷ 6 ∷ 1 ∷ 0 ∷ 3 ∷ 2 ∷ [];
      edge = 1 ∷ 0 ∷ 3 ∷ 2 ∷ 4 ∷ 5 ∷ 6 ∷ 7 ∷ 11 ∷ 10 ∷ 9 ∷ 8 ∷ [];
    }
    ∷ record {
      corner = 1 ∷ 0 ∷ 2 ∷ 3 ∷ 4 ∷ 5 ∷ 7 ∷ 6 ∷ [];
      edge = 5 ∷ 4 ∷ 7 ∷ 6 ∷ 1 ∷ 0 ∷ 3 ∷ 2 ∷ 26 ∷ 25 ∷ 24 ∷ 27 ∷ [];
    }
    ∷ record {
      corner = 6 ∷ 7 ∷ 4 ∷ 5 ∷ 2 ∷ 3 ∷ 0 ∷ 1 ∷ [];
      edge = 3 ∷ 2 ∷ 1 ∷ 0 ∷ 7 ∷ 6 ∷ 5 ∷ 4 ∷ 8 ∷ 9 ∷ 10 ∷ 11 ∷ [];
    }
    ∷ record {
      corner = 3 ∷ 2 ∷ 0 ∷ 1 ∷ 6 ∷ 7 ∷ 5 ∷ 4 ∷ [];
      edge = 7 ∷ 6 ∷ 5 ∷ 4 ∷ 2 ∷ 3 ∷ 0 ∷ 1 ∷ 27 ∷ 24 ∷ 25 ∷ 26 ∷ [];
    }
    ∷ record {
      corner = 7 ∷ 6 ∷ 5 ∷ 4 ∷ 3 ∷ 2 ∷ 1 ∷ 0 ∷ [];
      edge = 2 ∷ 3 ∷ 0 ∷ 1 ∷ 6 ∷ 7 ∷ 4 ∷ 5 ∷ 10 ∷ 11 ∷ 8 ∷ 9 ∷ [];
    }
    ∷ record {
      corner = 2 ∷ 3 ∷ 1 ∷ 0 ∷ 7 ∷ 6 ∷ 4 ∷ 5 ∷ [];
      edge = 6 ∷ 7 ∷ 4 ∷ 5 ∷ 3 ∷ 2 ∷ 1 ∷ 0 ∷ 25 ∷ 26 ∷ 27 ∷ 24 ∷ [];
    }
    ∷ record {
      corner = 68 ∷ 71 ∷ 69 ∷ 70 ∷ 33 ∷ 34 ∷ 32 ∷ 35 ∷ [];
      edge = 21 ∷ 22 ∷ 23 ∷ 20 ∷ 25 ∷ 26 ∷ 27 ∷ 24 ∷ 0 ∷ 1 ∷ 2 ∷ 3 ∷ [];
    }
    ∷ record {
      corner = 34 ∷ 33 ∷ 32 ∷ 35 ∷ 68 ∷ 71 ∷ 70 ∷ 69 ∷ [];
      edge = 25 ∷ 26 ∷ 27 ∷ 24 ∷ 22 ∷ 21 ∷ 20 ∷ 23 ∷ 19 ∷ 16 ∷ 17 ∷ 18 ∷ [];
    }
    ∷ record {
      corner = 71 ∷ 68 ∷ 70 ∷ 69 ∷ 34 ∷ 33 ∷ 35 ∷ 32 ∷ [];
      edge = 22 ∷ 21 ∷ 20 ∷ 23 ∷ 26 ∷ 25 ∷ 24 ∷ 27 ∷ 2 ∷ 3 ∷ 0 ∷ 1 ∷ [];
    }
    ∷ record {
      corner = 33 ∷ 34 ∷ 35 ∷ 32 ∷ 71 ∷ 68 ∷ 69 ∷ 70 ∷ [];
      edge = 26 ∷ 25 ∷ 24 ∷ 27 ∷ 21 ∷ 22 ∷ 23 ∷ 20 ∷ 17 ∷ 18 ∷ 19 ∷ 16 ∷ [];
    }
    ∷ record {
      corner = 69 ∷ 70 ∷ 68 ∷ 71 ∷ 32 ∷ 35 ∷ 33 ∷ 34 ∷ [];
      edge = 20 ∷ 23 ∷ 22 ∷ 21 ∷ 27 ∷ 24 ∷ 25 ∷ 26 ∷ 1 ∷ 0 ∷ 3 ∷ 2 ∷ [];
    }
    ∷ record {
      corner = 32 ∷ 35 ∷ 34 ∷ 33 ∷ 70 ∷ 69 ∷ 68 ∷ 71 ∷ [];
      edge = 24 ∷ 27 ∷ 26 ∷ 25 ∷ 20 ∷ 23 ∷ 22 ∷ 21 ∷ 16 ∷ 19 ∷ 18 ∷ 17 ∷ [];
    }
    ∷ record {
      corner = 70 ∷ 69 ∷ 71 ∷ 68 ∷ 35 ∷ 32 ∷ 34 ∷ 33 ∷ [];
      edge = 23 ∷ 20 ∷ 21 ∷ 22 ∷ 24 ∷ 27 ∷ 26 ∷ 25 ∷ 3 ∷ 2 ∷ 1 ∷ 0 ∷ [];
    }
    ∷ record {
      corner = 35 ∷ 32 ∷ 33 ∷ 34 ∷ 69 ∷ 70 ∷ 71 ∷ 68 ∷ [];
      edge = 27 ∷ 24 ∷ 25 ∷ 26 ∷ 23 ∷ 20 ∷ 21 ∷ 22 ∷ 18 ∷ 17 ∷ 16 ∷ 19 ∷ [];
    }
    ∷ record {
      corner = 64 ∷ 66 ∷ 65 ∷ 67 ∷ 36 ∷ 38 ∷ 37 ∷ 39 ∷ [];
      edge = 16 ∷ 19 ∷ 18 ∷ 17 ∷ 8 ∷ 9 ∷ 10 ∷ 11 ∷ 4 ∷ 5 ∷ 6 ∷ 7 ∷ [];
    }
    ∷ record {
      corner = 36 ∷ 38 ∷ 39 ∷ 37 ∷ 66 ∷ 64 ∷ 65 ∷ 67 ∷ [];
      edge = 9 ∷ 8 ∷ 11 ∷ 10 ∷ 16 ∷ 19 ∷ 18 ∷ 17 ∷ 21 ∷ 22 ∷ 23 ∷ 20 ∷ [];
    }
    ∷ record {
      corner = 66 ∷ 64 ∷ 67 ∷ 65 ∷ 38 ∷ 36 ∷ 39 ∷ 37 ∷ [];
      edge = 19 ∷ 16 ∷ 17 ∷ 18 ∷ 9 ∷ 8 ∷ 11 ∷ 10 ∷ 6 ∷ 7 ∷ 4 ∷ 5 ∷ [];
    }
    ∷ record {
      corner = 38 ∷ 36 ∷ 37 ∷ 39 ∷ 64 ∷ 66 ∷ 67 ∷ 65 ∷ [];
      edge = 8 ∷ 9 ∷ 10 ∷ 11 ∷ 19 ∷ 16 ∷ 17 ∷ 18 ∷ 23 ∷ 20 ∷ 21 ∷ 22 ∷ [];
    }
    ∷ record {
      corner = 65 ∷ 67 ∷ 64 ∷ 66 ∷ 37 ∷ 39 ∷ 36 ∷ 38 ∷ [];
      edge = 17 ∷ 18 ∷ 19 ∷ 16 ∷ 10 ∷ 11 ∷ 8 ∷ 9 ∷ 5 ∷ 4 ∷ 7 ∷ 6 ∷ [];
    }
    ∷ record {
      corner = 39 ∷ 37 ∷ 36 ∷ 38 ∷ 65 ∷ 67 ∷ 66 ∷ 64 ∷ [];
      edge = 10 ∷ 11 ∷ 8 ∷ 9 ∷ 18 ∷ 17 ∷ 16 ∷ 19 ∷ 22 ∷ 21 ∷ 20 ∷ 23 ∷ [];
    }
    ∷ record {
      corner = 67 ∷ 65 ∷ 66 ∷ 64 ∷ 39 ∷ 37 ∷ 38 ∷ 36 ∷ [];
      edge = 18 ∷ 17 ∷ 16 ∷ 19 ∷ 11 ∷ 10 ∷ 9 ∷ 8 ∷ 7 ∷ 6 ∷ 5 ∷ 4 ∷ [];
    }
    ∷ record {
      corner = 37 ∷ 39 ∷ 38 ∷ 36 ∷ 67 ∷ 65 ∷ 64 ∷ 66 ∷ [];
      edge = 11 ∷ 10 ∷ 9 ∷ 8 ∷ 17 ∷ 18 ∷ 19 ∷ 16 ∷ 20 ∷ 23 ∷ 22 ∷ 21 ∷ [];
    }
    ∷ []

unfoldable pub mirrors_inverse : List Cube
mirrors_inverse =
    record {
      corner = 4 ∷ 5 ∷ 6 ∷ 7 ∷ 0 ∷ 1 ∷ 2 ∷ 3 ∷ [];
      edge = 0 ∷ 1 ∷ 2 ∷ 3 ∷ 5 ∷ 4 ∷ 7 ∷ 6 ∷ 9 ∷ 8 ∷ 11 ∷ 10 ∷ [];
    }
    ∷ record {
      corner = 0 ∷ 1 ∷ 3 ∷ 2 ∷ 5 ∷ 4 ∷ 6 ∷ 7 ∷ [];
      edge = 4 ∷ 5 ∷ 6 ∷ 7 ∷ 0 ∷ 1 ∷ 2 ∷ 3 ∷ 24 ∷ 27 ∷ 26 ∷ 25 ∷ [];
    }
    ∷ record {
      corner = 5 ∷ 4 ∷ 7 ∷ 6 ∷ 1 ∷ 0 ∷ 3 ∷ 2 ∷ [];
      edge = 1 ∷ 0 ∷ 3 ∷ 2 ∷ 4 ∷ 5 ∷ 6 ∷ 7 ∷ 11 ∷ 10 ∷ 9 ∷ 8 ∷ [];
    }
    ∷ record {
      corner = 1 ∷ 0 ∷ 2 ∷ 3 ∷ 4 ∷ 5 ∷ 7 ∷ 6 ∷ [];
      edge = 5 ∷ 4 ∷ 7 ∷ 6 ∷ 1 ∷ 0 ∷ 3 ∷ 2 ∷ 26 ∷ 25 ∷ 24 ∷ 27 ∷ [];
    }
    ∷ record {
      corner = 6 ∷ 7 ∷ 4 ∷ 5 ∷ 2 ∷ 3 ∷ 0 ∷ 1 ∷ [];
      edge = 3 ∷ 2 ∷ 1 ∷ 0 ∷ 7 ∷ 6 ∷ 5 ∷ 4 ∷ 8 ∷ 9 ∷ 10 ∷ 11 ∷ [];
    }
    ∷ record {
      corner = 2 ∷ 3 ∷ 1 ∷ 0 ∷ 7 ∷ 6 ∷ 4 ∷ 5 ∷ [];
      edge = 6 ∷ 7 ∷ 4 ∷ 5 ∷ 3 ∷ 2 ∷ 1 ∷ 0 ∷ 25 ∷ 26 ∷ 27 ∷ 24 ∷ [];
    }
    ∷ record {
      corner = 7 ∷ 6 ∷ 5 ∷ 4 ∷ 3 ∷ 2 ∷ 1 ∷ 0 ∷ [];
      edge = 2 ∷ 3 ∷ 0 ∷ 1 ∷ 6 ∷ 7 ∷ 4 ∷ 5 ∷ 10 ∷ 11 ∷ 8 ∷ 9 ∷ [];
    }
    ∷ record {
      corner = 3 ∷ 2 ∷ 0 ∷ 1 ∷ 6 ∷ 7 ∷ 5 ∷ 4 ∷ [];
      edge = 7 ∷ 6 ∷ 5 ∷ 4 ∷ 2 ∷ 3 ∷ 0 ∷ 1 ∷ 27 ∷ 24 ∷ 25 ∷ 26 ∷ [];
    }
    ∷ record {
      corner = 70 ∷ 68 ∷ 69 ∷ 71 ∷ 32 ∷ 34 ∷ 35 ∷ 33 ∷ [];
      edge = 8 ∷ 9 ∷ 10 ∷ 11 ∷ 19 ∷ 16 ∷ 17 ∷ 18 ∷ 23 ∷ 20 ∷ 21 ∷ 22 ∷ [];
    }
    ∷ record {
      corner = 66 ∷ 65 ∷ 64 ∷ 67 ∷ 36 ∷ 39 ∷ 38 ∷ 37 ∷ [];
      edge = 25 ∷ 26 ∷ 27 ∷ 24 ∷ 22 ∷ 21 ∷ 20 ∷ 23 ∷ 19 ∷ 16 ∷ 17 ∷ 18 ∷ [];
    }
    ∷ record {
      corner = 71 ∷ 69 ∷ 68 ∷ 70 ∷ 33 ∷ 35 ∷ 34 ∷ 32 ∷ [];
      edge = 10 ∷ 11 ∷ 8 ∷ 9 ∷ 18 ∷ 17 ∷ 16 ∷ 19 ∷ 22 ∷ 21 ∷ 20 ∷ 23 ∷ [];
    }
    ∷ record {
      corner = 67 ∷ 64 ∷ 65 ∷ 66 ∷ 37 ∷ 38 ∷ 39 ∷ 36 ∷ [];
      edge = 27 ∷ 24 ∷ 25 ∷ 26 ∷ 23 ∷ 20 ∷ 21 ∷ 22 ∷ 18 ∷ 17 ∷ 16 ∷ 19 ∷ [];
    }
    ∷ record {
      corner = 68 ∷ 70 ∷ 71 ∷ 69 ∷ 34 ∷ 32 ∷ 33 ∷ 35 ∷ [];
      edge = 9 ∷ 8 ∷ 11 ∷ 10 ∷ 16 ∷ 19 ∷ 18 ∷ 17 ∷ 21 ∷ 22 ∷ 23 ∷ 20 ∷ [];
    }
    ∷ record {
      corner = 64 ∷ 67 ∷ 66 ∷ 65 ∷ 38 ∷ 37 ∷ 36 ∷ 39 ∷ [];
      edge = 24 ∷ 27 ∷ 26 ∷ 25 ∷ 20 ∷ 23 ∷ 22 ∷ 21 ∷ 16 ∷ 19 ∷ 18 ∷ 17 ∷ [];
    }
    ∷ record {
      corner = 69 ∷ 71 ∷ 70 ∷ 68 ∷ 35 ∷ 33 ∷ 32 ∷ 34 ∷ [];
      edge = 11 ∷ 10 ∷ 9 ∷ 8 ∷ 17 ∷ 18 ∷ 19 ∷ 16 ∷ 20 ∷ 23 ∷ 22 ∷ 21 ∷ [];
    }
    ∷ record {
      corner = 65 ∷ 66 ∷ 67 ∷ 64 ∷ 39 ∷ 36 ∷ 37 ∷ 38 ∷ [];
      edge = 26 ∷ 25 ∷ 24 ∷ 27 ∷ 21 ∷ 22 ∷ 23 ∷ 20 ∷ 17 ∷ 18 ∷ 19 ∷ 16 ∷ [];
    }
    ∷ record {
      corner = 32 ∷ 34 ∷ 33 ∷ 35 ∷ 68 ∷ 70 ∷ 69 ∷ 71 ∷ [];
      edge = 16 ∷ 19 ∷ 18 ∷ 17 ∷ 8 ∷ 9 ∷ 10 ∷ 11 ∷ 4 ∷ 5 ∷ 6 ∷ 7 ∷ [];
    }
    ∷ record {
      corner = 37 ∷ 38 ∷ 36 ∷ 39 ∷ 64 ∷ 67 ∷ 65 ∷ 66 ∷ [];
      edge = 20 ∷ 23 ∷ 22 ∷ 21 ∷ 27 ∷ 24 ∷ 25 ∷ 26 ∷ 1 ∷ 0 ∷ 3 ∷ 2 ∷ [];
    }
    ∷ record {
      corner = 33 ∷ 35 ∷ 32 ∷ 34 ∷ 69 ∷ 71 ∷ 68 ∷ 70 ∷ [];
      edge = 17 ∷ 18 ∷ 19 ∷ 16 ∷ 10 ∷ 11 ∷ 8 ∷ 9 ∷ 5 ∷ 4 ∷ 7 ∷ 6 ∷ [];
    }
    ∷ record {
      corner = 36 ∷ 39 ∷ 37 ∷ 38 ∷ 65 ∷ 66 ∷ 64 ∷ 67 ∷ [];
      edge = 21 ∷ 22 ∷ 23 ∷ 20 ∷ 25 ∷ 26 ∷ 27 ∷ 24 ∷ 0 ∷ 1 ∷ 2 ∷ 3 ∷ [];
    }
    ∷ record {
      corner = 34 ∷ 32 ∷ 35 ∷ 33 ∷ 70 ∷ 68 ∷ 71 ∷ 69 ∷ [];
      edge = 19 ∷ 16 ∷ 17 ∷ 18 ∷ 9 ∷ 8 ∷ 11 ∷ 10 ∷ 6 ∷ 7 ∷ 4 ∷ 5 ∷ [];
    }
    ∷ record {
      corner = 39 ∷ 36 ∷ 38 ∷ 37 ∷ 66 ∷ 65 ∷ 67 ∷ 64 ∷ [];
      edge = 22 ∷ 21 ∷ 20 ∷ 23 ∷ 26 ∷ 25 ∷ 24 ∷ 27 ∷ 2 ∷ 3 ∷ 0 ∷ 1 ∷ [];
    }
    ∷ record {
      corner = 35 ∷ 33 ∷ 34 ∷ 32 ∷ 71 ∷ 69 ∷ 70 ∷ 68 ∷ [];
      edge = 18 ∷ 17 ∷ 16 ∷ 19 ∷ 11 ∷ 10 ∷ 9 ∷ 8 ∷ 7 ∷ 6 ∷ 5 ∷ 4 ∷ [];
    }
    ∷ record {
      corner = 38 ∷ 37 ∷ 39 ∷ 36 ∷ 67 ∷ 64 ∷ 66 ∷ 65 ∷ [];
      edge = 23 ∷ 20 ∷ 21 ∷ 22 ∷ 24 ∷ 27 ∷ 26 ∷ 25 ∷ 3 ∷ 2 ∷ 1 ∷ 0 ∷ [];
    }
    ∷ []
