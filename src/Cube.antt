-- ===== src/Cube.antt =====
-- The cube of src/arch/portable.h and its masks of src/arch/common.h: the portable
-- representation, composition and inversion. An array is a list; a read out of range, which C
-- leaves undefined, gives 0, and no read of a consistent cube is out of range.
pub mod Pieces
pub mod Algebra
pub mod Group
pub mod Mirror
use h.Base.{
  ℕ, suc, ◌+◌, ◌*◌, ◌/◌, ◌%◌, ◌^◌, bit_and, bit_or, bit_xor, Bool, true, ◌&&◌, List, [], ◌∷◌, map,
  ◌==◌, get_or, set, zero,
}

pub record Cube : Type 0 where
  pub corner : List ℕ
  pub edge : List ℕ

abbrev pub eoshift : ℕ
eoshift = 4

abbrev pub coshift : ℕ
coshift = 5

abbrev pub pbits : ℕ
pbits = 0xF

abbrev pub eobit : ℕ
eobit = 0x10

abbrev pub cobits : ℕ
cobits = 0xF0

abbrev pub cobits_2 : ℕ
cobits_2 = 0x60

abbrev pub ctwist_cw : ℕ
ctwist_cw = 0x20

abbrev pub ctwist_ccw : ℕ
ctwist_ccw = 0x40

abbrev pub zero_cube : Cube
zero_cube = record {
  corner = 0 ∷ 0 ∷ 0 ∷ 0 ∷ 0 ∷ 0 ∷ 0 ∷ 0 ∷ [];
  edge = 0 ∷ 0 ∷ 0 ∷ 0 ∷ 0 ∷ 0 ∷ 0 ∷ 0 ∷ 0 ∷ 0 ∷ 0 ∷ 0 ∷ [];
}

abbrev pub solved_cube : Cube
solved_cube = record {
  corner = 0 ∷ 1 ∷ 2 ∷ 3 ∷ 4 ∷ 5 ∷ 6 ∷ 7 ∷ [];
  edge = 0 ∷ 1 ∷ 2 ∷ 3 ∷ 4 ∷ 5 ∷ 6 ∷ 7 ∷ 8 ∷ 9 ∷ 10 ∷ 11 ∷ [];
}

-- The loop `ret = ret && xs[i] == ys[i]` from index `i`, with `left` rounds to go.
unfoldable pub equal_loop : ℕ → ℕ → List ℕ → List ℕ → Bool → Bool
equal_loop zero i xs ys ret = ret
equal_loop (suc left) i xs ys ret =
    equal_loop left (i + 1) xs ys (ret && get_or xs i 0 == get_or ys i 0)

unfoldable pub equal : Cube → Cube → Bool
unfolding equal_loop
equal c1 c2 = equal_loop 12 0 c1.edge c2.edge (equal_loop 8 0 c1.corner c2.corner true)

-- The corner's twist turned the other way: the two bits change places.
unfoldable pub invert_twist : ℕ → ℕ
invert_twist piece = bit_and (bit_or (piece * 2) (piece / 2)) cobits_2

unfoldable pub invertco_piece : ℕ → ℕ
unfolding invert_twist
invertco_piece piece = bit_or (bit_and piece pbits) (invert_twist piece)

unfoldable pub invertco : Cube → Cube
unfolding invertco_piece
invertco c = record c { corner = map invertco_piece c.corner }

-- The piece at the place that `piece2` names, carried along by `piece2`.
unfoldable pub mix_edge : ℕ → ℕ → ℕ
mix_edge piece1 piece2 =
    let orien = bit_and (bit_xor piece2 piece1) eobit in bit_or (bit_and piece1 pbits) orien

unfoldable pub mix_corner : ℕ → ℕ → ℕ
mix_corner piece1 piece2 =
    let aux = (bit_and piece2 cobits + bit_and piece1 cobits) % 2 ^ 8 in
    let auy = (aux + ctwist_cw) / 2 ^ 2 in
    let orien = bit_and (aux + auy) cobits_2 in bit_or (bit_and piece1 pbits) orien

unfoldable pub compose_edges_inplace : Cube → Cube → Cube → Cube
unfolding mix_edge
compose_edges_inplace c1 c2 ret = record ret {
  edge = map (λ p2. mix_edge (get_or c1.edge (bit_and p2 pbits) 0) p2) c2.edge;
}

unfoldable pub compose_corners_inplace : Cube → Cube → Cube → Cube
unfolding mix_corner
compose_corners_inplace c1 c2 ret = record ret {
  corner = map (λ p2. mix_corner (get_or c1.corner (bit_and p2 pbits) 0) p2) c2.corner;
}

unfoldable pub compose_edges : Cube → Cube → Cube
unfolding compose_edges_inplace
compose_edges c1 c2 = compose_edges_inplace c1 c2 zero_cube

unfoldable pub compose_corners : Cube → Cube → Cube
unfolding compose_corners_inplace
compose_corners c1 c2 = compose_corners_inplace c1 c2 zero_cube

unfoldable pub compose : Cube → Cube → Cube
unfolding compose_edges_inplace compose_corners_inplace
compose c1 c2 = compose_corners_inplace c1 c2 (compose_edges_inplace c1 c2 zero_cube)

-- `i | (piece & EOBIT)`
unfoldable pub inverse_edge : ℕ → ℕ → ℕ
inverse_edge i piece = bit_or i (bit_and piece eobit)

unfoldable pub inverse_corner : ℕ → ℕ → ℕ
unfolding invert_twist
inverse_corner i piece = bit_or i (invert_twist piece)

-- The loop of `inverse` over `pieces` from index `i`: it writes into `ret`.
unfoldable pub inverse_loop : (ℕ → ℕ → ℕ) → ℕ → List ℕ → List ℕ → List ℕ
inverse_loop f i [] ret = ret
inverse_loop f i (piece ∷ pieces) ret =
    inverse_loop f (i + 1) pieces (set ret (bit_and piece pbits) (f i piece))

-- `inverse`, with what the uninitialised `ret` holds as an argument.
unfoldable pub inverse_onto : Cube → Cube → Cube
unfolding inverse_loop inverse_edge inverse_corner
inverse_onto ret cube = record {
  corner = inverse_loop inverse_corner 0 cube.corner ret.corner;
  edge = inverse_loop inverse_edge 0 cube.edge ret.edge;
}

unfoldable pub inverse : Cube → Cube
unfolding inverse_onto
inverse cube = inverse_onto zero_cube cube
