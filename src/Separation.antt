-- ===== src/Separation.antt =====
-- The separation coordinates of src/arch/portable.h and src/arch/common.h: to which of two tetrads the
-- corners belong and to which of three slices the edges.
pub mod Combinations
pub mod Kept
pub mod Steps
pub mod Slices
pub mod Flipped
use h.Base.{
  ℕ, zero, suc, ◌+◌, ◌-◌, ◌*◌, ◌/◌, ◌%◌, ◌^◌, bit_and, bit_or, Bool, List, [], ◌∷◌, ltb, leb,
  of_bool, get_or, set,
}
use h.Cube.{Cube, solved_cube}
use h.Coordinates.{coord_co, set_eo}
use h.Solvable.{pow_2_11}

-- The rows of Pascal's triangle that the code's table holds, a row without its zeros.
unfoldable pub binomial : List (List ℕ)
binomial =
    (1 ∷ [])
    ∷ (1 ∷ 1 ∷ [])
    ∷ (1 ∷ 2 ∷ 1 ∷ [])
    ∷ (1 ∷ 3 ∷ 3 ∷ 1 ∷ [])
    ∷ (1 ∷ 4 ∷ 6 ∷ 4 ∷ 1 ∷ [])
    ∷ (1 ∷ 5 ∷ 10 ∷ 10 ∷ 5 ∷ 1 ∷ [])
    ∷ (1 ∷ 6 ∷ 15 ∷ 20 ∷ 15 ∷ 6 ∷ 1 ∷ [])
    ∷ (1 ∷ 7 ∷ 21 ∷ 35 ∷ 35 ∷ 21 ∷ 7 ∷ 1 ∷ [])
    ∷ (1 ∷ 8 ∷ 28 ∷ 56 ∷ 70 ∷ 56 ∷ 28 ∷ 8 ∷ 1 ∷ [])
    ∷ (1 ∷ 9 ∷ 36 ∷ 84 ∷ 126 ∷ 126 ∷ 84 ∷ 36 ∷ 9 ∷ 1 ∷ [])
    ∷ (1 ∷ 10 ∷ 45 ∷ 120 ∷ 210 ∷ 252 ∷ 210 ∷ 120 ∷ 45 ∷ 10 ∷ 1 ∷ [])
    ∷ (1 ∷ 11 ∷ 55 ∷ 165 ∷ 330 ∷ 462 ∷ 462 ∷ 330 ∷ 165 ∷ 55 ∷ 11 ∷ 1 ∷ [])
    ∷ []

abbrev pub csepbit : ℕ
csepbit = 0x4

abbrev pub esepbit_1 : ℕ
esepbit_1 = 0x4

abbrev pub esepbit_2 : ℕ
esepbit_2 = 0x8

unfoldable pub coord_csep_loop : ℕ → List ℕ → ℕ → ℕ → ℕ → ℕ
coord_csep_loop zero corner i p ret = ret
coord_csep_loop (suc left) corner i p ret =
    coord_csep_loop left corner (i + 1) (p * 2)
      (ret + p * (bit_and (get_or corner i 0) csepbit / 2 ^ 2))

unfoldable pub coord_csep : Cube → ℕ
unfolding coord_csep_loop
coord_csep c = coord_csep_loop 7 c.corner 0 1 0

unfoldable pub coord_cocsep : Cube → ℕ
unfolding coord_co coord_csep
coord_cocsep c = coord_co c * 2 ^ 7 + coord_csep c

-- The loop of `coord_esep` over the edges from index `i`.
unfoldable pub coord_esep_loop : List ℕ → ℕ → ℕ → ℕ → ℕ → ℕ → ℕ → ℕ
unfolding binomial
coord_esep_loop [] i j k l ret1 ret2 = ret1 * 70 + ret2
coord_esep_loop (e ∷ edge) i j k l ret1 ret2 =
    let bit1 = bit_and e esepbit_1 / 2 ^ 2 in
    let bit2 = bit_and e esepbit_2 / 2 ^ 3 in
    let is1 = (1 - bit2) * bit1 in
    let jj = of_bool (ltb j 8) in
    coord_esep_loop edge (i + 1) (j + (1 - bit2)) (k - bit2) (l - is1)
      (ret1 + bit2 * get_or (get_or binomial (11 - i) []) k 0)
      (ret2 + jj * is1 * get_or (get_or binomial (7 - j * jj) []) l 0)

unfoldable pub coord_esep : Cube → ℕ
unfolding coord_esep_loop
coord_esep c = coord_esep_loop c.edge 0 0 4 4 0 0

-- The loop of `invcoord_esep_array` from index `i`, with `left` rounds to go.
unfoldable pub esep_array_loop : ℕ → ℕ → ℕ → ℕ → ℕ → ℕ → ℕ → List ℕ → List ℕ
unfolding binomial
esep_array_loop zero set1 set2 i j k l slice = []
esep_array_loop (suc left) set1 set2 i j k l slice =
    let v = get_or (get_or binomial (11 - i) []) k 0 in
    let jj = of_bool (ltb j 8) in
    let w = jj * get_or (get_or binomial (7 - j * jj) []) l 0 in
    let bit2 = of_bool (leb v set2) in
    let bit1 = of_bool (leb w set1) in
    let is1 = (1 - bit2) * bit1 in
    let s = 2 * bit2 + (1 - bit2) * bit1 in
    bit_or (get_or slice s 0) (s * 2 ^ 2)
    ∷ esep_array_loop left (set1 - is1 * w) (set2 - bit2 * v) (i + 1) (j + (1 - bit2)) (k - bit2)
        (l - is1) (set slice s (get_or slice s 0 + 1))

-- The twelve edges that it writes.
unfoldable pub invcoord_esep_array : ℕ → ℕ → List ℕ
unfolding esep_array_loop
invcoord_esep_array set1 set2 = esep_array_loop 12 set1 set2 0 0 4 4 (0 ∷ 0 ∷ 0 ∷ [])

unfoldable pub invcoord_esep : ℕ → Cube
unfolding invcoord_esep_array
invcoord_esep esep = record solved_cube { edge = invcoord_esep_array (esep % 70) (esep / 70) }

unfoldable pub copy_corners : Cube → Cube → Cube
copy_corners dest src = record dest { corner = src.corner }

unfoldable pub copy_edges : Cube → Cube → Cube
copy_edges dest src = record dest { edge = src.edge }

unfoldable pub invcoord_eoesep : ℕ → Cube
unfolding invcoord_esep set_eo
invcoord_eoesep i = set_eo (invcoord_esep (i / 2 ^ 11)) (i % pow_2_11)
