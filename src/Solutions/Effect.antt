-- ===== src/Solutions/Effect.antt =====
-- What the solutions that `appendsolution` of src/solvers/solutions.h makes by symmetries do to a cube.
use h.Base.{
  ◌⊎◌, ltb→lt, ℕ, ◌<◌, Bool, true, false, not, ◌&&◌, List, [], ◌++◌, some, none, map, ◌≡◌, refl,
  sym, ap, ◌∙◌, if◌then◌else◌, get_or, all_below, all_below_sound, ltb, inl, inr, subst,
}
use mathlib.Core.Option.{some-injective, none-ne-some}
use h.Cube.{Cube}
use h.Cube.Group.{IsCube}
use h.Tables.{orientation_trans, inverse_trans_table}
use h.Moves.{transform_move, inverse_reorient_move}
use h.Moves.Laws.Sequences.{run, AreBasic, run-append, inverse_moves, inverse_moves-AreBasic}
use h.Transform.{transform}
use h.Transform.Laws.{transform-IsCube}
use h.Transform.Laws.Moved.{transform_move-lt}
use h.Solutions.{sorted, are_allowed}
use h.Solutions.Bounds.{if_value}
use h.Solutions.{
  SolutionMoves, SolutionSettings, solution_moves_transform, solution_moves_reorient, undo_premoves,
  sort_sides, unniss_moves, transformed,
}
use h.Solutions.Follow.{
  undo_premoves-inverse, whole, Follows, Follows-inverse, Follows-append, Follows-sort,
  AreBasic-map, AreBasic-append, sorted-SortedOf, run-transform,
}

-- The symmetry that turns the orientation back.
abbrev pub turn_back : ℕ → ℕ
turn_back or = get_or inverse_trans_table (get_or orientation_trans or 0) 0

turn_back_table : all_below 24 (λ or. ltb (turn_back or) 48) ≡ true
unfolding all_below inverse_trans_table orientation_trans
turn_back_table = refl

turn_back-lt : (or : ℕ) → or < 24 → turn_back or < 48
turn_back-lt or h =
    ltb→lt _ 48 (all_below_sound 24 (λ k. ltb (turn_back k) 48) or turn_back_table h)

-- The cube as the symmetry `t` and the orientation show it.
abbrev pub shown : ℕ → ℕ → Cube → Cube
shown t or c = transform (transform c t) (turn_back or)

-- The image of a solution, with parallel moves sorted.
unfoldable pub image : SolutionMoves → ℕ → ℕ → SolutionMoves
image s t or = sort_sides (solution_moves_reorient (solution_moves_transform s t) or)

module _ (t or : ℕ) (ht : t < 48) (ho : or < 24) where
  shown-IsCube : (c : Cube) → IsCube c → IsCube (shown t or c)
  shown-IsCube c hc =
      transform-IsCube (turn_back or) (turn_back-lt or ho) (transform-IsCube t ht hc)

  -- The moves of a side, transformed and reoriented.
  side : List ℕ → List ℕ
  side ms = map (λ m. inverse_reorient_move m or) (map (λ m. transform_move m t) ms)

  side-AreBasic : (ms : List ℕ) → AreBasic ms → AreBasic (side ms)
  unfolding side inverse_reorient_move
  side-AreBasic ms b =
      AreBasic-map (λ m. inverse_reorient_move m or) (map (λ m. transform_move m t) ms)
        (λ m h. transform_move-lt (turn_back or) m (turn_back-lt or ho) h)
        (AreBasic-map (λ m. transform_move m t) ms (λ m h. transform_move-lt t m ht h) b)

  side-Follows : (ms : List ℕ) → AreBasic ms → Follows (shown t or) shown-IsCube ms (side ms)
  unfolding Follows side inverse_reorient_move
  side-Follows ms b c hc =
      run-transform (turn_back or) (map (λ m. transform_move m t) ms) (turn_back-lt or ho)
        (AreBasic-map (λ m. transform_move m t) ms (λ m h. transform_move-lt t m ht h) b)
        (transform-IsCube t ht hc)
      ∙ ap (λ k. transform k (turn_back or)) (run-transform t ms ht b hc)

  whole-Follows :
      (s : SolutionMoves)
      → AreBasic s.moves
      → AreBasic s.premoves
      → (c : Cube) → IsCube c
      → run (shown t or c) (whole (image s t or)) ≡ shown t or (run c (whole s))
  unfolding image sort_sides solution_moves_reorient solution_moves_transform whole Follows side
  whole-Follows s bm bp =
      let f : Cube → Cube = shown t or in
      let sm = side-AreBasic s.moves bm in
      let sp = side-AreBasic s.premoves bp in
      Follows-append f shown-IsCube s.moves (sorted (side s.moves)) (inverse_moves s.premoves)
        (inverse_moves (sorted (side s.premoves))) bm
        (Follows-sort f shown-IsCube s.moves (side s.moves) sm (side-Follows s.moves bm))
        (Follows-inverse f shown-IsCube s.premoves (sorted (side s.premoves)) bp
          ((sorted-SortedOf (side s.premoves)).basic sp)
          (Follows-sort f shown-IsCube s.premoves (side s.premoves) sp
            (side-Follows s.premoves bp)))

undo_premoves-AreBasic : (ms : List ℕ) → AreBasic ms → AreBasic (undo_premoves ms)
undo_premoves-AreBasic ms b =
    subst AreBasic (sym (undo_premoves-inverse ms)) (inverse_moves-AreBasic ms b)

unniss_moves-AreBasic :
    (s : SolutionMoves) → AreBasic s.moves → AreBasic s.premoves → AreBasic (unniss_moves s).moves
unfolding unniss_moves
unniss_moves-AreBasic s bm bp =
    (sorted-SortedOf (s.moves ++ undo_premoves s.premoves)).basic
      (AreBasic-append s.moves (undo_premoves s.premoves) bm (undo_premoves-AreBasic s.premoves bp))

-- Unnissing does not change what a solution does.
run-unniss_moves :
    (s : SolutionMoves) (c : Cube)
    → AreBasic s.moves
    → AreBasic s.premoves
    → IsCube c
    → run c (whole (unniss_moves s)) ≡ run c (whole s)
unfolding unniss_moves whole
run-unniss_moves s c bm bp hc =
    run-append c (unniss_moves s).moves []
    ∙ (sorted-SortedOf (s.moves ++ undo_premoves s.premoves)).effect
        (AreBasic-append s.moves (undo_premoves s.premoves) bm
          (undo_premoves-AreBasic s.premoves bp))
        hc
    ∙ ap (λ t. run c (s.moves ++ t)) (undo_premoves-inverse s.premoves)

unfoldable pub chosen :
    (u : Bool) (x y : SolutionMoves) (g : SolutionMoves → SolutionMoves) (s : SolutionMoves)
    → (if u && not (are_allowed (if u then x else y).moves)
        then none
        else some (g (if u then x else y)))
      ≡ some s
    → ((u ≡ true) × (s ≡ g x)) ⊎ ((u ≡ false) × (s ≡ g y))
chosen true x y g s e = elim (if_value (not (are_allowed x.moves)) none (some (g x)) s e) [
  | inl (cancelled, wrong) ↦ absurd (none-ne-some s wrong)
  | inr (allowed, right) ↦ inl (refl, sym (some-injective _ _ right))
]
chosen false x y g s e = inr (refl, sym (some-injective _ _ e))

pub transformed-some :
    (settings : SolutionSettings) (sol s : SolutionMoves) (t : ℕ)
    → transformed settings sol t ≡ some s
    → ((settings.unniss ≡ true) × (s ≡ image (unniss_moves sol) t settings.orientation))
      ⊎ ((settings.unniss ≡ false) × (s ≡ image sol t settings.orientation))
unfolding transformed image
transformed-some settings sol s t e =
    chosen settings.unniss (unniss_moves sol) sol (λ k. image k t settings.orientation) s e

-- A solution that `appendsolution` makes with the symmetry `t` does to the cube as the symmetry and the
-- orientation show it what the given solution does to the cube, seen in the same way: for basic moves,
-- a symmetry below 48, an orientation below 24, and every cube of the puzzle, whether or not the
-- premoves are turned into moves.
pub run-transformed :
    (settings : SolutionSettings) (sol s : SolutionMoves) (t : ℕ) (c : Cube)
    → AreBasic sol.moves
    → AreBasic sol.premoves
    → t < 48
    → settings.orientation < 24
    → IsCube c
    → transformed settings sol t ≡ some s
    → run (shown t settings.orientation c) (whole s)
      ≡ shown t settings.orientation (run c (whole sol))
unfolding unniss_moves
run-transformed settings sol s t c bm bp ht ho hc e = elim (transformed-some settings sol s t e) [
  | inl (on, same) ↦
      ap (λ k. run (shown t settings.orientation c) (whole k)) same
      ∙ whole-Follows t settings.orientation ht ho (unniss_moves sol)
          (unniss_moves-AreBasic sol bm bp) tt c hc
      ∙ ap (shown t settings.orientation) (run-unniss_moves sol c bm bp hc)
  | inr (off, same) ↦
      ap (λ k. run (shown t settings.orientation c) (whole k)) same
      ∙ whole-Follows t settings.orientation ht ho sol bm bp c hc
]
