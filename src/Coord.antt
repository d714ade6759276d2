-- ===== src/Coord.antt =====
-- Coordinates up to symmetry: src/solvers/coord/types_macros.h and common.h. The data of a coordinate is
-- the bytes of its header and the 32-bit words after it: an entry for each value of the first coordinate,
-- then a representative for each class. The buffer has the size that the code asks for.
pub mod Entries
pub mod Steps
pub mod Images
pub mod Rounds
pub mod Filled
pub mod Orbits
pub mod Classes
pub mod Instances
pub mod Pruning
pub mod Kinds
pub mod Parse
use h.Base.{
  ℕ, zero, suc, ◌+◌, ◌-◌, ◌*◌, ◌/◌, ◌%◌, ◌^◌, bit_and, bit_or, Bool, true, false, not, ◌&&◌, ◌||◌,
  List, [], ◌∷◌, ◌++◌, Option, none, some, ◌==◌, ltb, if◌then◌else◌, of_bool, length, get_or, set,
  replicate,
}
use h.Cube.{Cube, solved_cube}
use h.Moves.{move, parallel, are_lastmoves_singlecw}
use h.Transform.{transform, inverse_trans}
use h.Solutions.{SolutionMoves, ntrans}
use h.TableInfo.{Info, infosize, info_distribution_len, writetableinfo, write_bytes}

abbrev pub coord_class_mask : ℕ
coord_class_mask = 0xFFFF0000

unfoldable pub coord_class : ℕ → ℕ
coord_class d = bit_and d coord_class_mask / 2 ^ 16

abbrev pub coord_ttrep_mask : ℕ
coord_ttrep_mask = 0xFF

unfoldable pub coord_ttrep : ℕ → ℕ
coord_ttrep d = bit_and d coord_ttrep_mask / 2 ^ 0

abbrev pub coord_isnasty_mask : ℕ
coord_isnasty_mask = 0xFF00

unfoldable pub coord_isnasty : ℕ → ℕ
coord_isnasty d = bit_and d coord_isnasty_mask / 2 ^ 8

pub record CoordData : Type 0 where
  pub header : List ℕ
  pub words : List ℕ

-- The field `sym` of `coord_t`.
pub record SymCoord : Type 0 where
  pub classes : ℕ
  pub max : ℕ
  pub coord : Cube → ℕ
  pub cube : ℕ → Cube
  pub max2 : ℕ
  pub coord2 : Cube → ℕ
  pub cube2 : ℕ → Cube
  pub merge : Cube → Cube → Cube

-- `none` as `sym` is the one that is all zero.
pub record Coord : Type 0 where
  pub name : List ℕ
  pub coord : Cube → CoordData → ℕ
  pub cube : ℕ → CoordData → Cube
  pub isnasty : ℕ → CoordData → Bool
  pub gendata : Option CoordData → ℕ × Option CoordData
  pub max : ℕ
  pub moves_mask : ℕ
  pub trans_mask : ℕ
  pub axistrans : List ℕ
  pub is_admissible : SolutionMoves → Bool
  pub is_solvable : Cube → Bool
  pub sym : Option SymCoord

unfoldable pub coord_coord_generic : SymCoord → Cube → CoordData → ℕ
unfolding coord_class coord_ttrep transform
coord_coord_generic sym c table =
    let d = get_or table.words (sym.coord c) 0 in
    let tr = transform c (coord_ttrep d) in coord_class d * sym.max2 + sym.coord2 tr

unfoldable pub coord_cube_generic : SymCoord → ℕ → CoordData → Cube
coord_cube_generic sym i table =
    let c = sym.cube (get_or table.words (sym.max + i / sym.max2) 0) in
    sym.merge c (sym.cube2 (i % sym.max2))

unfoldable pub coord_isnasty_generic : SymCoord → ℕ → CoordData → Bool
unfolding coord_isnasty
coord_isnasty_generic sym i table =
    let r = get_or table.words (sym.max + i / sym.max2) 0 in
    not (coord_isnasty (get_or table.words r 0) == 0)

unfoldable pub strlen : List ℕ → ℕ
strlen [] = 0
strlen (c ∷ cs) = let rest = strlen cs in if c == 0 then 0 else suc rest

unfoldable pub append_coord_name : List ℕ → List ℕ → List ℕ
unfolding strlen write_bytes
append_coord_name name str = write_bytes str (strlen str) (name ++ (0 ∷ []))

unfoldable pub in_mask : ℕ → ℕ → Bool
in_mask mask t = not (bit_and (2 ^ t) mask == 0)

-- The loop that looks for a symmetry, from `t` on, that keeps the coordinate `i` of `c`, with `left` rounds
-- to go.
unfoldable pub nasty_loop : SymCoord → ℕ → Cube → ℕ → ℕ → ℕ → ℕ
unfolding in_mask transform
nasty_loop sym mask c i zero t = 0
nasty_loop sym mask c i (suc left) t =
    let rest = nasty_loop sym mask c i left (t + 1) in
    if not (in_mask mask t) then rest else if i == sym.coord (transform c t) then 1 else rest

-- The word of a class, a `uint32_t`.
unfoldable pub class_entry : ℕ → ℕ → ℕ → ℕ
unfolding inverse_trans
class_entry n nasty t =
    bit_or (bit_or (n * 2 ^ 16) (nasty * 2 ^ 8)) (inverse_trans t * 2 ^ 0) % 2 ^ 32

-- The loop that writes the word of the class `n` of `c` at the images of `c`.
unfoldable pub fill_loop : SymCoord → ℕ → Cube → ℕ → ℕ → ℕ → ℕ → List ℕ → List ℕ
unfolding in_mask transform class_entry
fill_loop sym mask c n nasty zero t words = words
fill_loop sym mask c n nasty (suc left) t words = fill_loop sym mask c n nasty left (t + 1) (
    if not (in_mask mask t)
    then words
    else set words (sym.coord (transform c t)) (class_entry n nasty t))

abbrev pub no_entry : ℕ
no_entry = 0xFFFFFFFF

-- A round of the loop over the values `i`, on the number of classes so far and the words.
unfoldable pub class_round : SymCoord → ℕ → ℕ → ℕ × List ℕ → ℕ × List ℕ
unfolding nasty_loop fill_loop
class_round sym mask i (n, words) =
    if not (get_or words i 0 == no_entry)
    then (n, words)
    else (let c = sym.cube i in
        let nasty = nasty_loop sym mask c i (ntrans - 1) 1 in
        let filled = fill_loop sym mask c n nasty ntrans 0 words in
        (n + 1, set filled (sym.max + n) i))

unfoldable pub class_loop : SymCoord → ℕ → ℕ → ℕ → ℕ × List ℕ → ℕ × List ℕ
unfolding class_round
class_loop sym mask zero i state = state
class_loop sym mask (suc left) i state =
    class_loop sym mask left (i + 1) (class_round sym mask i state)

-- The text "coord data for " in the hundred bytes of a name.
abbrev pub coord_data_for : List ℕ
coord_data_for =
    99
    ∷ 111
    ∷ 111
    ∷ 114
    ∷ 100
    ∷ 32
    ∷ 100
    ∷ 97
    ∷ 116
    ∷ 97
    ∷ 32
    ∷ 102
    ∷ 111
    ∷ 114
    ∷ 32
    ∷ replicate 85 0

unfoldable pub coord_info : SymCoord → List ℕ → Info
unfolding append_coord_name
coord_info sym name = record {
  distribution = replicate info_distribution_len 0;
  type = 1;
  size = infosize;
  fullsize = infosize + 4 * (sym.classes + sym.max);
  hash = 0;
  entries = sym.classes + sym.max;
  classes = sym.classes;
  next = 0;
  solver = append_coord_name name coord_data_for;
  h48h = 0;
  bits = 32;
  base = 0;
  maxvalue = 0;
}

-- The size of the data, and the data when the buffer is not NULL.
unfoldable pub coord_gendata_generic :
    SymCoord → ℕ → List ℕ → Option CoordData → ℕ × Option CoordData
unfolding class_loop coord_info writetableinfo
coord_gendata_generic sym mask name table =
    let coord_datasize = infosize + 4 * (sym.classes + sym.max) in
    elim table [
      | none ↦ (coord_datasize, none)
      | some old ↦
          let (n, words) =
            class_loop sym mask sym.max 0 (0, replicate (sym.classes + sym.max) no_entry) in
          let header = replicate infosize 0xFF in
          (
            coord_datasize,
            some (record {
              header = elim (writetableinfo (coord_info sym name) coord_datasize header) [
                | none ↦ header
                | some b ↦ b
              ];
              words = words;
            }),
          )
    ]

unfoldable pub solution_lastqt_cw : SolutionMoves → Bool
unfolding are_lastmoves_singlecw
solution_lastqt_cw s = are_lastmoves_singlecw s.moves && are_lastmoves_singlecw s.premoves

-- The effect of the last move is looked at twice.
unfoldable pub coord_can_switch : Coord → CoordData → List ℕ → Bool
unfolding move parallel
coord_can_switch coord table moves =
    let n = length moves in
    let last = get_or moves (n - 1) 0 in
    let i = coord.coord (move solved_cube last) table in
    if n == 0
    then true
    else if i == 0
    then false
    else if n == 1 || not (parallel last (get_or moves (n - 2) 0))
    then true
    else not (i == 0)
