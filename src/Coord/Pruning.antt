-- ===== src/Coord/Pruning.antt =====
-- The pruning table of a coordinate, two values in a byte, and its generator: src/solvers/coord/gendata.h. Which of
-- the two ways to fill it a round takes, a test on floating point numbers, is an argument.
pub mod Packed
use h.Base.{
  ℕ, zero, suc, ◌+◌, ◌-◌, ◌*◌, ◌/◌, ◌%◌, ◌^◌, bit_and, bit_or, Bool, true, false, not, ◌&&◌, ◌||◌,
  List, [], ◌∷◌, ◌++◌, Option, none, some, ◌==◌, ltb, if◌then◌else◌, length, get_or, set, replicate,
  of_bool,
}
use h.Cube.{Cube, solved_cube}
use h.Moves.{move}
use h.Transform.{transform}
use h.Solutions.{ntrans}
use h.TableInfo.{Info, infosize, info_distribution_len, writetableinfo}
use h.Coord.{Coord, CoordData, in_mask, append_coord_name}
use h.Coord.Parse.{parse_coord}

-- The moves that are not rotations, slices or wide.
abbrev pub nmoves : ℕ
nmoves = 18

abbrev pub coord_index : ℕ → ℕ
coord_index i = i / 2

abbrev pub coord_shift : ℕ → ℕ
coord_shift i = 4 * (i % 2)

abbrev pub coord_mask : ℕ → ℕ
coord_mask i = 0xF * 2 ^ coord_shift i

unfoldable pub get_coord_pval : List ℕ → ℕ → ℕ
get_coord_pval table i = bit_and (get_or table (coord_index i) 0) (coord_mask i) / 2 ^ coord_shift i

-- The complement is taken in the byte.
unfoldable pub set_coord_pval : List ℕ → ℕ → ℕ → List ℕ
set_coord_pval table i val = set table (coord_index i) (
    bit_or (bit_and (get_or table (coord_index i) 0) (0xFF - coord_mask i))
      (val * 2 ^ coord_shift i)
    % 2 ^ 8)

-- Gives the value `d` to the coordinate `j` if it has a greater one, and counts it.
unfoldable pub set_if_greater : ℕ → ℕ → ℕ × List ℕ → ℕ × List ℕ
unfolding get_coord_pval set_coord_pval
set_if_greater j d (tot, table) =
    if ltb d (get_coord_pval table j) then (tot + 1, set_coord_pval table j d) else (tot, table)

-- The loop over the symmetries from `t` on, all of them for a nasty coordinate and else the first.
unfoldable pub neighbor_loop : Coord → CoordData → Cube → Bool → ℕ → ℕ → ℕ → ℕ × List ℕ → ℕ × List ℕ
unfolding in_mask transform set_if_greater
neighbor_loop coord cd moved isnasty d zero t state = state
neighbor_loop coord cd moved isnasty d (suc left) t state =
    let next =
      if (t == 0 || isnasty) && in_mask coord.trans_mask t
      then set_if_greater (coord.coord (transform moved t) cd) d state
      else state in
    neighbor_loop coord cd moved isnasty d left (t + 1) next

-- The loop over the moves from `m` on.
unfoldable pub moves_loop : Coord → CoordData → Cube → ℕ → ℕ → ℕ → ℕ × List ℕ → ℕ × List ℕ
unfolding in_mask move neighbor_loop
moves_loop coord cd c d zero m state = state
moves_loop coord cd c d (suc left) m state =
    let moved = move c m in
    let next =
      if in_mask coord.moves_mask m
      then neighbor_loop coord cd moved (coord.isnasty (coord.coord moved cd) cd) d ntrans 0 state
      else state in
    moves_loop coord cd c d left (m + 1) next

unfoldable pub genptable_coord_fillneighbors : Coord → CoordData → ℕ → ℕ → List ℕ → ℕ × List ℕ
unfolding moves_loop
genptable_coord_fillneighbors coord cd i d table =
    moves_loop coord cd (coord.cube i cd) d nmoves 0 (0, table)

unfoldable pub is_in : ℕ → List ℕ → Bool
is_in x [] = false
is_in x (y ∷ ys) = y == x || is_in x ys

-- The different coordinates of the images of `c`, from the symmetry `t` on.
unfoldable pub similar_loop : Coord → CoordData → Cube → ℕ → ℕ → List ℕ → List ℕ
unfolding in_mask transform is_in
similar_loop coord cd c zero t sim = sim
similar_loop coord cd c (suc left) t sim =
    let ii = coord.coord (transform c t) cd in
    similar_loop coord cd c left (t + 1)
      (if in_mask coord.trans_mask t && not (is_in ii sim) then sim ++ (ii ∷ []) else sim)

-- Whether a move from `m` on leads to a value below `d`.
unfoldable pub near_loop : Coord → CoordData → List ℕ → ℕ → Cube → ℕ → ℕ → Bool
unfolding in_mask move get_coord_pval
near_loop coord cd table d c zero m = false
near_loop coord cd table d c (suc left) m =
    (in_mask coord.moves_mask m && ltb (get_coord_pval table (coord.coord (move c m) cd)) d)
    || near_loop coord cd table d c left (m + 1)

unfoldable pub any_near : Coord → CoordData → List ℕ → ℕ → List ℕ → Bool
unfolding near_loop
any_near coord cd table d [] = false
any_near coord cd table d (j ∷ js) =
    near_loop coord cd table d (coord.cube j cd) nmoves 0 || any_near coord cd table d js

unfoldable pub set_all_greater : List ℕ → ℕ → ℕ × List ℕ → ℕ × List ℕ
unfolding set_if_greater
set_all_greater [] d state = state
set_all_greater (j ∷ js) d state = set_all_greater js d (set_if_greater j d state)

unfoldable pub genptable_coord_fillfromnew : Coord → CoordData → ℕ → ℕ → List ℕ → ℕ × List ℕ
unfolding similar_loop any_near set_all_greater
genptable_coord_fillfromnew coord cd i d table =
    let sim = similar_loop coord cd (coord.cube i cd) ntrans 0 [] in
    if any_near coord cd table d sim then set_all_greater sim d (0, table) else (0, table)

-- A round of the loop over the values `i` that fills from the done ones, those of value `d - 1`.
unfoldable pub done_loop : Coord → CoordData → ℕ → ℕ → ℕ → ℕ × List ℕ → ℕ × List ℕ
unfolding get_coord_pval genptable_coord_fillneighbors
done_loop coord cd d zero i state = state
done_loop coord cd d (suc left) i (t, table) =
    let next =
      if get_coord_pval table i == d - 1
      then (let (n, table') = genptable_coord_fillneighbors coord cd i d table in (t + n, table'))
      else (t, table) in
    done_loop coord cd d left (i + 1) next

-- The same from the new ones, of a value greater than `d`.
unfoldable pub new_loop : Coord → CoordData → ℕ → ℕ → ℕ → ℕ × List ℕ → ℕ × List ℕ
unfolding get_coord_pval genptable_coord_fillfromnew
new_loop coord cd d zero i state = state
new_loop coord cd d (suc left) i (t, table) =
    let next =
      if ltb d (get_coord_pval table i)
      then (let (n, table') = genptable_coord_fillfromnew coord cd i d table in (t + n, table'))
      else (t, table) in
    new_loop coord cd d left (i + 1) next

-- The state of the loop over the depths.
pub record Depths : Type 0 where
  pub d : ℕ
  pub tot : ℕ
  pub table : List ℕ
  pub distribution : List ℕ

unfoldable pub popcount_u32 : ℕ → ℕ → ℕ
popcount_u32 zero x = 0
popcount_u32 (suc left) x = x % 2 + popcount_u32 left (x / 2)

-- `switch` is `switch_to_fromnew`.
unfoldable pub depth_round : (ℕ → ℕ → ℕ → Bool) → Coord → CoordData → Depths → Depths
unfolding done_loop new_loop popcount_u32
depth_round switch coord cd s =
    let (t, table) =
      if switch s.tot coord.max (popcount_u32 32 coord.moves_mask)
      then new_loop coord cd s.d coord.max 0 (0, s.table)
      else done_loop coord cd s.d coord.max 0 (0, s.table) in
    record { d = s.d + 1; tot = s.tot + t; table = table; distribution = set s.distribution s.d t }

-- The loop over the depths, which ends below depth 20: `left` is 20 less the depth.
unfoldable pub depth_loop : (ℕ → ℕ → ℕ → Bool) → Coord → CoordData → ℕ → Depths → Depths
unfolding depth_round
depth_loop switch coord cd zero s = s
depth_loop switch coord cd (suc left) s =
    let rest = depth_loop switch coord cd left (depth_round switch coord cd s) in
    if ltb s.tot coord.max then rest else s

-- The text "coordinate solver for " in the hundred bytes of a name.
abbrev pub coordinate_solver_for : List ℕ
coordinate_solver_for =
    99
    ∷ 111
    ∷ 111
    ∷ 114
    ∷ 100
    ∷ 105
    ∷ 110
    ∷ 97
    ∷ 116
    ∷ 101
    ∷ 32
    ∷ 115
    ∷ 111
    ∷ 108
    ∷ 118
    ∷ 101
    ∷ 114
    ∷ 32
    ∷ 102
    ∷ 111
    ∷ 114
    ∷ 32
    ∷ replicate 78 0

-- The header and the table.
unfoldable pub genptable_coord : (ℕ → ℕ → ℕ → Bool) → Coord → CoordData → Info × List ℕ
unfolding set_coord_pval depth_loop append_coord_name move
genptable_coord switch coord cd =
    let tablesize = (coord.max + 1) / 2 in
    let start = coord.coord solved_cube cd in
    let s = depth_loop switch coord cd 19 (record {
      d = 1;
      tot = 1;
      table = set_coord_pval (replicate tablesize 0xFF) start 0;
      distribution = set (replicate info_distribution_len 0) 0 1;
    }) in
    (
      record {
        distribution = s.distribution;
        type = 0;
        size = infosize;
        fullsize = infosize + tablesize;
        hash = 0;
        entries = coord.max;
        classes = 0;
        next = 0;
        solver = append_coord_name coord.name coordinate_solver_for;
        h48h = 0;
        bits = 4;
        base = 0;
        maxvalue = s.d - 1;
      },
      s.table,
    )

-- The loop that counts the values of the entries from `i` on.
unfoldable pub distribution_loop : List ℕ → ℕ → ℕ → List ℕ → List ℕ
unfolding get_coord_pval
distribution_loop table zero i distr = distr
distribution_loop table (suc left) i distr =
    let v = get_coord_pval table i in
    distribution_loop table left (i + 1) (set distr v (get_or distr v 0 + 1))

unfoldable pub getdistribution_coord : List ℕ → List ℕ → List ℕ
unfolding parse_coord distribution_loop
getdistribution_coord table coord =
    let distr = replicate info_distribution_len 0 in
    elim (parse_coord (length coord) coord) [
      | none ↦ distr
      | some c ↦ distribution_loop table c.max 0 distr
    ]
