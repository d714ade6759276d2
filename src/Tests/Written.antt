-- ===== src/Tests/Written.antt =====
-- The solutions buffer.
use h.Base.{true, false, [], ◌∷◌, some, ◌≡◌, refl, arith}
use h.Cube.Group.{IsCube}
use h.Moves.Table.{f}
use h.Moves.Laws.Sequences.{run}
use h.Oriented.Checked.{is_cube, is_cube_sound}
use h.Solutions.{
  SolutionMoves, SolutionSettings, SolutionList, transformed, appended, appendsolution,
  solutions_done,
}
use h.Solutions.Effect.{shown, run-transformed}
use h.Solutions.Follow.{whole}
use h.Solutions.Rounds.{Grows}
use h.Solutions.Done.{appendsolution-Grows, solutions_done-appendsolution}

-- R U and the premove F.
abbrev r_u : SolutionMoves
r_u = record { moves = 6 ∷ 0 ∷ []; premoves = 12 ∷ [] }

-- The identity and the next symmetry, at most five solutions, and no moves above the optimum.
abbrev two_symmetries : SolutionSettings
two_symmetries = record {
  tmask = 3;
  unniss = false;
  maxmoves = 20;
  maxsolutions = 5;
  optimal = 0;
  orientation = 0;
}

abbrev empty_list : SolutionList
empty_list = record {
  nsols = 0;
  shortest_sol = 21;
  size = 100;
  buf = [];
  extent = 1;
  closed = true;
}

abbrev two_lines : SolutionList
two_lines = record {
  nsols = 2;
  shortest_sol = 3;
  size = 100;
  buf = 82 ∷ 32 ∷ 85 ∷ 32 ∷ 40 ∷ 70 ∷ 41 ∷ 10 ∷ 70 ∷ 32 ∷ 85 ∷ 32 ∷ 40 ∷ 76 ∷ 41 ∷ 10 ∷ [];
  extent = 17;
  closed = true;
}

-- "R U (F)" and, seen by the second symmetry, "F U (L)".
run-r_u : appendsolution r_u two_symmetries empty_list ≡ appended 2 two_lines
unfolding appendsolution
run-r_u = refl

appendsolution-Grows_example : Grows 5 3 0 empty_list 2 two_lines
appendsolution-Grows_example =
    appendsolution-Grows r_u two_symmetries empty_list two_lines 2 (omega arith) (omega arith)
      run-r_u

solutions_done-appendsolution_example : solutions_done two_lines two_symmetries 4 ≡ true
solutions_done-appendsolution_example =
    solutions_done-appendsolution r_u two_symmetries empty_list two_lines 1 4 (omega arith)
      (omega arith) run-r_u (omega arith)

-- A buffer of eight bytes that the line fills: the closing zero is a ninth byte.
abbrev eight : SolutionList
eight = record { nsols = 0; shortest_sol = 21; size = 8; buf = []; extent = 1; closed = true }

abbrev one : SolutionSettings
one = record two_symmetries { maxsolutions = 1 }

full_buffer :
    appendsolution r_u one eight
    ≡ appended 1 (record {
      nsols = 1;
      shortest_sol = 3;
      size = 8;
      buf = 82 ∷ 32 ∷ 85 ∷ 32 ∷ 40 ∷ 70 ∷ 41 ∷ 10 ∷ [];
      extent = 9;
      closed = true;
    })
unfolding appendsolution
full_buffer = refl

-- Where the inverse side comes first and fills the buffer, the answer is 0 and not an error.
abbrev r_uf : SolutionMoves
r_uf = record { moves = 6 ∷ []; premoves = 0 ∷ 12 ∷ [] }

no_error :
    appendsolution r_uf one (record eight { size = 5 })
    ≡ appended 0 (record {
      nsols = 0;
      shortest_sol = 21;
      size = 5;
      buf = 40 ∷ 85 ∷ 32 ∷ 70 ∷ 41 ∷ [];
      extent = 5;
      closed = false;
    })
unfolding appendsolution
no_error = refl

f-IsCube : IsCube f
unfolding is_cube
f-IsCube = is_cube_sound f refl

abbrev second_symmetry : SolutionMoves
second_symmetry = record { moves = 12 ∷ 0 ∷ []; premoves = 9 ∷ [] }

second_made : transformed two_symmetries r_u 1 ≡ some second_symmetry
unfolding transformed
second_made = refl

run-transformed_example : run (shown 1 0 f) (whole second_symmetry) ≡ shown 1 0 (run f (whole r_u))
run-transformed_example =
    run-transformed two_symmetries r_u second_symmetry 1 f (omega arith, (omega arith, tt))
      (omega arith, tt) (omega arith) (omega arith) f-IsCube second_made
