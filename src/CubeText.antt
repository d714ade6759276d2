-- ===== src/CubeText.antt =====
-- Cubes as text: `readcube`, `writecube` and the letters of their pieces in src/core/cube.h. A buffer is
-- the list of its bytes; a read past its end gives 0.
pub mod Letters
pub mod Reading
pub mod Roundtrip
use h.Base.{
  ℕ, zero, suc, ◌+◌, ◌-◌, ◌*◌, ◌/◌, ◌%◌, ◌^◌, bit_and, bit_or, Bool, not, ◌&&◌, ◌||◌, List, [], ◌∷◌,
  ◌++◌, map, Option, none, some, ◌==◌, ltb, leb, if◌then◌else◌, get_or,
}
use h.Cube.{Cube}
use h.Oriented.{OrientedCube, zero_oriented_cube}
use h.Moves.{uint8_error}

abbrev pub nissy_size_cube : ℕ
nissy_size_cube = 24

-- The two ranges of letters, A to Z and a to f.
unfoldable pub is_b32 : ℕ → Bool
is_b32 c = (leb 65 c && leb c 90) || (leb 97 c && leb c 102)

unfoldable pub b32toedge : ℕ → ℕ
unfolding is_b32
b32toedge c = if not (is_b32 c) then uint8_error else if leb c 90 then c - 65 else c - 97 + 26

unfoldable pub b32tocorner : ℕ → ℕ
unfolding is_b32
b32tocorner c =
    let val : ℕ = if leb c 90 then c - 65 else c - 97 + 26 in
    if not (is_b32 c) then uint8_error else bit_or (bit_and val 7) (bit_and val 24 * 2 ^ 2)

-- On a byte.
unfoldable pub edgetob32 : ℕ → ℕ
edgetob32 edge = if ltb edge 26 then 65 + edge else (97 + (edge - 26)) % 2 ^ 8

unfoldable pub cornertob32 : ℕ → ℕ
cornertob32 corner =
    let val = bit_or (bit_and corner 7) (bit_and corner 96 / 2 ^ 2) in
    if ltb val 26 then 65 + val else 97 + (val - 26)

-- Copies the arrays.
unfoldable pub cubefromarray : List ℕ → List ℕ → Cube
cubefromarray c e = record { corner = c; edge = e }

unfoldable pub pieces : Cube → List ℕ × List ℕ
pieces cube = (cube.corner, cube.edge)

-- The loop of `readcube` over `left` letters from index `i`. `none` is its early return.
unfoldable pub read_pieces : (ℕ → ℕ) → ℕ → ℕ → List ℕ → Option (List ℕ)
read_pieces decode zero i buf = some []
read_pieces decode (suc left) i buf =
    let rest = read_pieces decode left (i + 1) buf in
    let piece = decode (get_or buf i 0) in
    if piece == uint8_error then none else elim rest [ none ↦ none | some ps ↦ some (piece ∷ ps) ]

unfoldable pub readcube : List ℕ → OrientedCube
unfolding b32tocorner b32toedge read_pieces cubefromarray
readcube buf = elim (read_pieces b32tocorner 8 0 buf) [
  | none ↦ zero_oriented_cube
  | some c ↦
      if not (get_or buf 8 0 == 61)
      then zero_oriented_cube
      else elim (read_pieces b32toedge 12 9 buf) [
        | none ↦ zero_oriented_cube
        | some e ↦
            let orientation = (get_or buf 22 0 + 2 ^ 8 - 65) % 2 ^ 8 in
            if leb 24 orientation
            then zero_oriented_cube
            else record { cube = cubefromarray c e; orientation = orientation }
      ]
]

-- The bytes written into a buffer of the given size; `none` is NISSY_ERROR_BUFFER_SIZE.
unfoldable pub writecube : OrientedCube → ℕ → Option (List ℕ)
unfolding cornertob32 edgetob32 pieces
writecube cube buf_size =
    let (corner, edge) = pieces cube.cube in
    if ltb buf_size nissy_size_cube
    then none
    else some (
        map cornertob32 corner
        ++ (61 ∷ (map edgetob32 edge ++ (61 ∷ (cube.orientation + 65) % 2 ^ 8 ∷ 0 ∷ []))))
