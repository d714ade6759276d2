-- ===== src/Solutions.antt =====
-- The solutions that a solver writes: src/solvers/solutions.h and solutions_types_macros.h. The buffer
-- is the list of the bytes of its text, whose length is `used`; `extent` is how many bytes from its start have been
-- written in all, a closing zero included, and `closed` whether one stands after the text. Where the code gives an
-- error it empties the buffer.
pub mod Follow
pub mod Effect
pub mod Lengths
pub mod Bounds
pub mod Rounds
pub mod Done
use h.Base.{
  ℕ, zero, suc, ◌+◌, ◌-◌, ◌*◌, ◌%◌, ◌/◌, ◌^◌, bit_and, Bool, true, false, not, ◌&&◌, ◌||◌, List, [],
  ◌∷◌, ◌++◌, Option, none, some, map, ◌==◌, ltb, leb, if◌then◌else◌, length, min, max,
}
use h.Moves.{inverse_move, transform_move, inverse_reorient_move, sortparallel_moves, allowedmoves}
use h.MoveText.Write.{writemoves}

abbrev pub maxlen : ℕ
maxlen = 20

abbrev pub ntrans : ℕ
ntrans = 48

pub record SolutionMoves : Type 0 where
  pub moves : List ℕ
  pub premoves : List ℕ

pub record SolutionSettings : Type 0 where
  pub tmask : ℕ
  pub unniss : Bool
  pub maxmoves : ℕ
  pub maxsolutions : ℕ
  pub optimal : ℕ
  pub orientation : ℕ

pub record SolutionList : Type 0 where
  pub nsols : ℕ
  pub shortest_sol : ℕ
  pub size : ℕ
  pub buf : List ℕ
  pub extent : ℕ
  pub closed : Bool

unfoldable pub solution_moves_reset : SolutionMoves → SolutionMoves
solution_moves_reset sol = record { moves = []; premoves = [] }

unfoldable pub solution_moves_transform : SolutionMoves → ℕ → SolutionMoves
unfolding transform_move
solution_moves_transform sol t = record {
  moves = map (λ m. transform_move m t) sol.moves;
  premoves = map (λ m. transform_move m t) sol.premoves;
}

unfoldable pub solution_moves_reorient : SolutionMoves → ℕ → SolutionMoves
unfolding inverse_reorient_move
solution_moves_reorient sol or = record {
  moves = map (λ m. inverse_reorient_move m or) sol.moves;
  premoves = map (λ m. inverse_reorient_move m or) sol.premoves;
}

-- `none` for a buffer of size 0.
unfoldable pub solution_list_init : ℕ → Option SolutionList
solution_list_init n =
    if n == 0
    then none
    else some (record {
      nsols = 0;
      shortest_sol = maxlen + 1;
      size = n;
      buf = [];
      extent = 1;
      closed = true;
    })

-- The test of the lengths and the loop over two arrays.
unfoldable pub same_moves : List ℕ → List ℕ → Bool
same_moves [] [] = true
same_moves [] (y ∷ ys) = false
same_moves (x ∷ xs) [] = false
same_moves (x ∷ xs) (y ∷ ys) = x == y && same_moves xs ys

unfoldable pub solution_moves_equal : SolutionMoves → SolutionMoves → Bool
unfolding same_moves
solution_moves_equal a b = same_moves a.moves b.moves && same_moves a.premoves b.premoves

-- Whether `sol` is one of the solutions before it.
unfoldable pub solution_moves_is_duplicate : List SolutionMoves → SolutionMoves → Bool
unfolding solution_moves_equal
solution_moves_is_duplicate [] sol = false
solution_moves_is_duplicate (s ∷ ss) sol =
    solution_moves_equal s sol || solution_moves_is_duplicate ss sol

unfoldable pub appendchar : SolutionList → ℕ → Option SolutionList
appendchar list c =
    if leb list.size (length list.buf)
    then none
    else some (record list {
      buf = list.buf ++ c ∷ [];
      extent = max list.extent (length list.buf + 1);
      closed = false;
    })

-- A zero at the index after the text, which may be the one after the buffer.
unfoldable pub close : SolutionList → SolutionList
close list = record list { extent = max list.extent (length list.buf + 1); closed = true }

-- `writemoves` into the rest of the buffer, with its closing zero.
unfoldable pub append_moves : List ℕ → SolutionList → Option SolutionList
unfolding writemoves close
append_moves ms list = elim (writemoves ms ((list.size + 2 ^ 64 - length list.buf) % 2 ^ 64)) [
  | none ↦ none
  | some text ↦ some (close (record list { buf = list.buf ++ text }))
]

unfoldable pub appendnormal : SolutionMoves → SolutionList → Option SolutionList
unfolding append_moves
appendnormal sol list = if length sol.moves == 0 then some list else append_moves sol.moves list

unfoldable pub appendinverse : SolutionMoves → SolutionList → Option SolutionList
unfolding append_moves appendchar
appendinverse sol list = if length sol.premoves == 0 then some list else elim (appendchar list 40) [
  | none ↦ none
  | some start ↦ elim (append_moves sol.premoves start) [
    | none ↦ none
    | some inside ↦ appendchar inside 41
  ]
]

-- How a round of `appendsolution` ends: with the solution written, with an error for want of room, or
-- with `return false` where the space between the two sides does not fit.
pub data Round : Type 0 where
  written : SolutionList → Round
  no_room : Round
  stopped : SolutionList → Round

unfoldable pub count_solution : SolutionMoves → SolutionList → SolutionList
count_solution sol list = record list {
  nsols = list.nsols + 1;
  shortest_sol = min list.shortest_sol (length sol.moves + length sol.premoves);
}

-- The second side and the newline.
unfoldable pub append_second : Bool → SolutionMoves → SolutionList → Round
unfolding appendnormal appendinverse appendchar count_solution
append_second normal_first sol list =
    elim (if normal_first then appendinverse sol list else appendnormal sol list) [
      | none ↦ no_room
      | some both ↦ elim (appendchar both 10) [
        | none ↦ no_room
        | some line ↦ written (count_solution sol line)
      ]
    ]

-- The side with more moves, the space, and the other side.
unfoldable pub append_line : SolutionMoves → SolutionList → Round
unfolding appendnormal appendinverse appendchar append_second
append_line sol list =
    let normal_first : Bool = leb (length sol.premoves) (length sol.moves) in
    elim (if normal_first then appendnormal sol list else appendinverse sol list) [
      | none ↦ no_room
      | some first ↦
          if ltb 0 (length sol.moves) && ltb 0 (length sol.premoves)
          then (elim (appendchar first 32) [
            | none ↦ stopped first
            | some space ↦ append_second normal_first sol space
          ])
          else append_second normal_first sol first
    ]

-- The moves after `sortparallel_moves`, which ends on all that a side has room for.
unfoldable pub sorted : List ℕ → List ℕ
unfolding sortparallel_moves
sorted moves = elim (sortparallel_moves moves) [ none ↦ moves | some ms ↦ ms ]

-- Whether `allowedmoves` answers with true, which it does or does not on all that a side has room for.
unfoldable pub are_allowed : List ℕ → Bool
unfolding allowedmoves
are_allowed moves = elim (allowedmoves moves) [ none ↦ false | some b ↦ b ]

-- The premoves, inverted from the last to the first.
unfoldable pub undo_premoves : List ℕ → List ℕ
unfolding inverse_move
undo_premoves [] = []
undo_premoves (m ∷ ms) = undo_premoves ms ++ inverse_move m ∷ []

unfoldable pub sort_sides : SolutionMoves → SolutionMoves
unfolding sorted
sort_sides sol = record { moves = sorted sol.moves; premoves = sorted sol.premoves }

unfoldable pub unniss_moves : SolutionMoves → SolutionMoves
unfolding undo_premoves sorted
unniss_moves sol = record {
  moves = sorted (sol.moves ++ undo_premoves sol.premoves);
  premoves = [];
}

-- `tsol[r]` for the symmetry `t`; `none` if the premoves cancel with the moves.
unfoldable pub transformed : SolutionSettings → SolutionMoves → ℕ → Option SolutionMoves
unfolding unniss_moves sort_sides solution_moves_transform solution_moves_reorient are_allowed
transformed settings sol t =
    let sol' = if settings.unniss then unniss_moves sol else sol in
    if settings.unniss && not (are_allowed sol'.moves)
    then none
    else some (
        sort_sides (solution_moves_reorient (solution_moves_transform sol' t) settings.orientation))

-- What `appendsolution` returns.
pub data Appended : Type 0 where
  appended : ℕ → SolutionList → Appended
  buffer_size : Appended
  unknown : Appended

-- A round for the symmetry `t`, after the solutions `tsol`; `again` is the rounds that follow.
unfoldable pub append_round :
    SolutionSettings
    → SolutionMoves
    → ℕ
    → (List SolutionMoves → SolutionList → Appended)
    → List SolutionMoves
    → SolutionList
    → Appended
unfolding transformed solution_moves_is_duplicate append_line close
append_round settings sol t again tsol list =
    if not (ltb list.nsols settings.maxsolutions)
    then appended (length tsol) (close list)
    else if bit_and settings.tmask (2 ^ t) == 0
    then again tsol list
    else elim (transformed settings sol t) [
      | none ↦ again tsol list
      | some s ↦
          if solution_moves_is_duplicate tsol s
          then again tsol list
          else elim (append_line s list) [
            | no_room ↦ buffer_size
            | stopped l ↦ appended 0 l
            | written l ↦ again (tsol ++ s ∷ []) l
          ]
    ]

unfoldable pub append_loop :
    SolutionSettings → SolutionMoves → ℕ → ℕ → List SolutionMoves → SolutionList → Appended
unfolding append_round close
append_loop settings sol zero t tsol list = appended (length tsol) (close list)
append_loop settings sol (suc left) t tsol list =
    append_round settings sol t (append_loop settings sol left (t + 1)) tsol list

unfoldable pub appendsolution : SolutionMoves → SolutionSettings → SolutionList → Appended
unfolding append_loop
appendsolution sol settings list =
    if ltb maxlen (length sol.moves + length sol.premoves)
    then unknown
    else append_loop settings sol ntrans 0 [] list

-- On a depth that is not negative.
unfoldable pub solutions_done : SolutionList → SolutionSettings → ℕ → Bool
solutions_done list settings depth =
    ltb settings.maxmoves depth
    || (ltb (list.shortest_sol + settings.optimal) depth || leb settings.maxsolutions list.nsols)
