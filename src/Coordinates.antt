-- ===== src/Coordinates.antt =====
-- The orientation coordinates of src/arch/portable.h: `coord_co`, `invcoord_co`, `coord_eo` and
-- `set_eo`. The sums are of `int`s and stay below 3^7 and 2^11.
pub mod Corners
pub mod Flips
pub mod Edges
use h.Base.{ℕ, zero, suc, ◌+◌, ◌-◌, ◌*◌, ◌/◌, ◌%◌, ◌^◌, bit_and, bit_or, List, [], ◌∷◌, get_or, set}
use h.Cube.{Cube, solved_cube, coshift, eoshift, eobit}

unfoldable pub coord_co_loop : ℕ → List ℕ → ℕ → ℕ → ℕ → ℕ
coord_co_loop zero corner i p ret = ret
coord_co_loop (suc left) corner i p ret =
    coord_co_loop left corner (i + 1) (p * 3) (ret + p * (get_or corner i 0 / 2 ^ coshift))

unfoldable pub coord_co : Cube → ℕ
unfolding coord_co_loop
coord_co c = coord_co_loop 7 c.corner 0 1 0

-- `corner[i] |= (c % 3) << COSHIFT` for seven corners, and the sum of the digits.
unfoldable pub invcoord_co_loop : ℕ → List ℕ → ℕ → ℕ → ℕ → List ℕ × ℕ
invcoord_co_loop zero corner i c p = (corner, p)
invcoord_co_loop (suc left) corner i c p =
    invcoord_co_loop left (set corner i (bit_or (get_or corner i 0) (c % 3 * 2 ^ coshift % 2 ^ 8)))
      (i + 1) (c / 3) (p + c % 3)

unfoldable pub invcoord_co : ℕ → Cube
unfolding invcoord_co_loop
invcoord_co coord =
    let (corner, p) = invcoord_co_loop 7 solved_cube.corner 0 coord 0 in
    record solved_cube {
      corner = set corner 7 (bit_or (get_or corner 7 0) ((3 - p % 3) % 3 * 2 ^ coshift % 2 ^ 8));
    }

unfoldable pub coord_eo_loop : ℕ → List ℕ → ℕ → ℕ → ℕ → ℕ
coord_eo_loop zero edge i p ret = ret
coord_eo_loop (suc left) edge i p ret =
    coord_eo_loop left edge (i + 1) (p * 2) (ret + p * (get_or edge i 0 / 2 ^ eoshift))

unfoldable pub coord_eo : Cube → ℕ
unfolding coord_eo_loop
coord_eo c = coord_eo_loop 11 c.edge 1 1 0

-- `(edge & ~EOBIT) | (EOBIT * flip)`; the complement of a byte is 255 less the byte.
unfoldable pub set_flip : ℕ → ℕ → ℕ
set_flip piece flip = bit_or (bit_and piece (255 - eobit)) (eobit * flip)

-- The edges and the sum of the flips.
unfoldable pub set_eo_loop : ℕ → List ℕ → ℕ → ℕ → ℕ → List ℕ × ℕ
unfolding set_flip
set_eo_loop zero edge i eo sum = (edge, sum)
set_eo_loop (suc left) edge i eo sum =
    set_eo_loop left (set edge i (set_flip (get_or edge i 0) (eo % 2))) (i + 1) (eo / 2)
      (sum + eo % 2)

unfoldable pub set_eo : Cube → ℕ → Cube
unfolding set_eo_loop set_flip
set_eo cube eo =
    let (edge, sum) = set_eo_loop 11 cube.edge 1 eo 0 in
    record cube { edge = set edge 0 (set_flip (get_or edge 0 0) (sum % 2)) }
