-- ===== src/Solutions/Lengths.antt =====
-- The lengths of the solutions that `appendsolution` of src/solvers/solutions.h makes by symmetries.
use h.Base.{
  ℕ, ◌+◌, List, [], ◌∷◌, ◌++◌, some, map, ◌≡◌, refl, ap, ◌∙◌, length, length-append, length-map,
  arith, inl, inr,
}
use h.Moves.{inverse_move, transform_move, inverse_reorient_move}
use h.Solutions.{
  SolutionMoves, SolutionSettings, solution_moves_transform, solution_moves_reorient, undo_premoves,
  sort_sides, unniss_moves, transformed,
}
use h.Solutions.Follow.{sorted-SortedOf}
use h.Solutions.Effect.{image, transformed-some}

length-undo_premoves : (ms : List ℕ) → length (undo_premoves ms) ≡ length ms
unfolding undo_premoves
length-undo_premoves [] = refl
length-undo_premoves (m ∷ ms) =
    omega (arith, length-append (undo_premoves ms) (inverse_move m ∷ []), length-undo_premoves ms)

length-image :
    (s : SolutionMoves) (t or : ℕ)
    → length (image s t or).moves + length (image s t or).premoves
      ≡ length s.moves + length s.premoves
unfolding image sort_sides solution_moves_reorient solution_moves_transform
length-image s t or = omega (
  arith,
  (sorted-SortedOf (twice s.moves)).size,
  (sorted-SortedOf (twice s.premoves)).size,
  length-map (λ m. inverse_reorient_move m or) (map (λ m. transform_move m t) s.moves),
  length-map (λ m. inverse_reorient_move m or) (map (λ m. transform_move m t) s.premoves),
  length-map (λ m. transform_move m t) s.moves,
  length-map (λ m. transform_move m t) s.premoves,
)
  where
    twice : List ℕ → List ℕ
    twice ms = map (λ m. inverse_reorient_move m or) (map (λ m. transform_move m t) ms)

-- A solution made by a symmetry is as long as the given one.
pub length-transformed :
    (settings : SolutionSettings) (sol s : SolutionMoves) (t : ℕ)
    → transformed settings sol t ≡ some s
    → length s.moves + length s.premoves ≡ length sol.moves + length sol.premoves
unfolding unniss_moves
length-transformed settings sol s t e = elim (transformed-some settings sol s t e) [
  | inl (on, same) ↦
      ap (λ k. length k.moves + length k.premoves) same
      ∙ length-image (unniss_moves sol) t settings.orientation
      ∙ omega (
        arith,
        (sorted-SortedOf (sol.moves ++ undo_premoves sol.premoves)).size,
        length-append sol.moves (undo_premoves sol.premoves),
        length-undo_premoves sol.premoves,
      )
  | inr (off, same) ↦
      ap (λ k. length k.moves + length k.premoves) same ∙ length-image sol t settings.orientation
]
