-- ===== src/Lib.antt =====
-- The engine of Nissy, a Rubik's cube library with the H48 optimal solver: its core, modelled from
-- the C sources.
--
-- The program. A cube is an array of corner bytes and one of edge bytes, a place with an orientation
-- each (src/arch, one implementation per instruction set). src/core composes cubes, inverts
-- them, moves and transforms them by the 48 symmetries, adds an orientation of the whole cube, and
-- checks what comes from outside. src/utils/math.h numbers permutations and orientations.
-- src/solvers builds pruning tables from coordinates of cubes and searches them; the generator
-- of the H48 table keeps the cubes near the solved one in an open addressing map.
--
-- The modules and the code they model:
--   Base       shared names; arrays as lists, counting, sums, finite checks, bit masks as
--              arithmetic.
--   Cube       src/arch/portable.h and src/arch/common.h: `equal`, `invertco`, `compose`, its
--              halves and `inverse`, loop by loop. Children: Pieces (the tables of single bytes),
--              Algebra (the laws of one array), Group, Mirror.
--   Oriented   src/core/cube.h: `isconsistent`, `issolved`, `iserror` on `oriented_cube_t`.
--   CubeText   src/core/cube.h: `readcube` and `writecube`. Children: Letters, Reading, Roundtrip.
--   Solvable   src/core/cube.h: `issolvable`, `getcube`, `getcube_fix`. Children: Parity, Invariants,
--              Made, Fixed.
--   Tables     the tables of src/core/constants.h on moves, orientations and symmetries.
--   Moves      src/core/moves.h: the moves as numbers and as cubes. Children: Table (the
--              18 cubes), Laws, Laws/Sequences, Laws/Sorting and Laws/Allowed (the two loops with a
--              `uint8_t` index).
--   Transform  src/core/transform.h: the symmetries. Children: Rotations and Mirrors (the tables),
--              Laws, Laws/Moved, Laws/Symmetry.
--   TransText  src/core/transform.h: `readtrans`, `writetrans` and `applytrans`.
--   Extended   src/core/oriented_cube.h: wide moves, slices, rotations and composition of oriented
--              cubes. Children: Tables, Moves, Compose, Compose/Act.
--   Indices    src/utils/math.h: permutations and digit arrays as numbers. Children: Permutations,
--              Codes, Codes/Loop, Codes/Inverse, Digits, Digits/ZeroSum, Sign.
--   Coordinates  src/arch/portable.h: the twists of the corners and the flips of the edges as numbers.
--              Children: Corners, Flips, Edges.
--   Separation  src/arch/portable.h and common.h: which of two tetrads a corner and which of three slices
--              an edge belongs to, as numbers. Children: Combinations, Kept (what the loop of
--              `invcoord_esep_array` keeps), Steps, Slices, Flipped (together with the flips).
--   H48        src/solvers/h48/coordinate.h: the coordinate of the H48 tables. Child: Roundtrip.
--   TableInfo  src/solvers/tables.h: the header of a table. Children: Bytes, Writes, Roundtrip.
--   Solutions  src/solvers/solutions.h: the buffer of solutions. Children: Follow and Effect (what the
--              written solutions do), Lengths, Bounds, Rounds, Done.
--   Coord      src/solvers/coord/common.h: coordinates up to symmetry and the tables of their classes.
--              Children: Entries (the packed words), Images and Rounds (the loops of
--              `coord_gendata_generic`, with Steps), Filled, Orbits, Classes, Kinds (eo.h, dr.h,
--              dreo.h), Instances (their laws), Parse (utils.h), Pruning (the generator of
--              src/solvers/coord/gendata.h), Pruning/Packed (two values in a byte).
--   HashMap    src/solvers/h48/map.h and the loops over it in src/solvers/h48/gendata_h48.h.
--              Children: Probe (where a lookup stops), Invariant, Stored (one slot
--              written), Refine (the map as a function), Iterate.
--   MoveText   src/core/moves.h: the loop FOREACH_READMOVE, `readmoves`, `countmoves`, `writemoves`, and
--              `applymoves` of src/core/oriented_cube.h. Children: Apply, Write, Tokens
--              (the names of the moves), Loop, Total (termination), Written, Roundtrip.
--   Interface  src/nissy.c: the functions that take the text of a cube and answer with one. Child: Answers.
--   Tests      runs on small inputs, and each result at a concrete input.
--
-- The model. A definition has the name of the C function; a loop is a recursive definition named
-- after it. An array is a list, a write is `set`, a result parameter is a result. A `uint8_t` or a
-- `uint64_t` is a natural number, with the remainder modulo its range written where the code could
-- leave it. A `switch` over all moves or symmetries is a table of its cases. Functions that can fail
-- return `Option`, with `none` for the error value of the code. DBG_ASSERT, empty in a release, is
-- left out.
--
-- A buffer is the list of its bytes, or of those written so far, and a word in it is little endian; a
-- buffer is never NULL. `getcube` takes indices that are not negative, `getcube_fix` any integers. Where
-- `appendsolution` fails for want of room, the buffer that the code leaves behind is dropped. The solutions buffer
-- keeps how far it was written, so that a write past its end shows.
--
-- What the tables of src/solvers/coord need of a coordinate is the record `IsSymCoord`. The buffer of such a
-- table has the size that the code asks for.
--
-- Fuel. All loops run over an array or a counter, but for five. The loops of `sortparallel_moves` and
-- `allowedmoves`, whose index wraps at 256, get as many rounds as there are moves, the latter one more: up
-- to 256 moves the first needs no more, and beyond it does not end; the second gives up when its index
-- is 0 again. The probing loop of `lookup` gets as many rounds as the map has slots: a map that keeps a
-- free slot never needs more, and a full one does not answer with any number of rounds. The loop over the
-- pairs of a map gets as many rounds, since each moves on by a slot at least. The loop that reads moves
-- gets one round more than the text has characters, and every round but the last takes one away.
--
-- Not modelled: the AVX2 and NEON versions of src/arch, which compute the same functions with
-- vector instructions; intpow of src/utils/math.h, which is on floating point numbers; logging,
-- threads, files, the shell and the language bindings. The tables of the H48 solver, the searches of
-- src/solvers and the dispatch of src/nissy.c to them are not modelled.
pub mod Base
pub mod Cube
pub mod Oriented
pub mod Tables
pub mod Moves
pub mod Transform
pub mod Extended
pub mod HashMap
pub mod Coordinates
pub mod Indices
pub mod MoveText
pub mod CubeText
pub mod Solvable
pub mod Solutions
pub mod TableInfo
pub mod Separation
pub mod H48
pub mod Coord
pub mod TransText
pub mod Interface
mod Tests
