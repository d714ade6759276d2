-- ===== src/Solutions/Follow.antt =====
-- Sequences of moves that follow one another under a map of cubes, for the solutions of src/solvers/solutions.h.
use h.Base.{ℕ, ◌<◌, List, [], ◌∷◌, ◌++◌, map, ◌≡◌, refl, sym, ap, ◌∙◌, arith, inl, inr}
use h.Cube.{Cube}
use h.Cube.Group.{IsCube}
use h.Moves.{move, inverse_move, transform_move, sortparallel_moves}
use h.Moves.Laws.{move-IsCube, move-inverse_move, inverse_move-lt}
use h.Moves.{sortparallel_moves}
use h.Moves.Laws.Sorting.{SortedOf, SortedOf-refl, sortparallel_moves-SortedOf}
use h.Solutions.{sorted}
use h.Base.{Option-cases, inl, inr, none, some, subst}
use h.Moves.Laws.Sequences.{
  run, AreBasic, run-IsCube, run-append, inverse_moves, inverse_moves-AreBasic, run-inverse_moves,
}
use h.Transform.{transform}
use h.Transform.Laws.Moved.{transform-move}
use h.Solutions.{SolutionMoves, undo_premoves}

pub undo_premoves-inverse : (ms : List ℕ) → undo_premoves ms ≡ inverse_moves ms
unfolding undo_premoves
undo_premoves-inverse [] = refl
undo_premoves-inverse (m ∷ ms) = ap (λ t. t ++ inverse_move m ∷ []) (undo_premoves-inverse ms)

-- The moves of a solution and then its premoves undone: what it does to the cube that it solves.
unfoldable pub whole : SolutionMoves → List ℕ
whole s = s.moves ++ inverse_moves s.premoves

pub inverse_move_twice : (m : ℕ) → m < 18 → inverse_move (inverse_move m) ≡ m
unfolding inverse_move
inverse_move_twice m h = omega arith

-- A sequence undoes its inverse.
pub run-after_inverse :
    (ms : List ℕ) {c : Cube} → AreBasic ms → IsCube c → run (run c (inverse_moves ms)) ms ≡ c
run-after_inverse [] b hc = refl
run-after_inverse (m ∷ ms) {c} b hc =
    let d : Cube = run c (inverse_moves ms) in
    let hd : IsCube d = run-IsCube (inverse_moves ms) (inverse_moves-AreBasic ms b.1) hc in
    ap (λ t. run (move t m) ms) (run-append c (inverse_moves ms) (inverse_move m ∷ []))
    ∙ ap (λ k. run (move (move d (inverse_move m)) k) ms) (sym (inverse_move_twice m b.0))
    ∙ ap (λ t. run t ms) (move-inverse_move (inverse_move m) (inverse_move-lt m b.0) hd)
    ∙ run-after_inverse ms b.1 hc

-- Sorting keeps the length, the basic moves and the effect.
pub sorted-SortedOf : (ms : List ℕ) → SortedOf ms (sorted ms)
unfolding sorted
sorted-SortedOf ms = elim (Option-cases (sortparallel_moves ms)) [
  | inl endless ↦
      subst (SortedOf ms) (sym (ap (λ o. elim o [ none ↦ ms | some ns ↦ ns ]) endless))
        (SortedOf-refl ms)
  | inr (ns, e) ↦
      subst (SortedOf ms) (sym (ap (λ o. elim o [ none ↦ ms | some ns ↦ ns ]) e))
        (sortparallel_moves-SortedOf ms ns e)
]

-- A map of cubes, and sequences for sequences under it.
module _ (f : Cube → Cube) (f_cube : (c : Cube) → IsCube c → IsCube (f c)) where
  -- `ns` does to the images what `ms` does to the cubes.
  unfoldable pub Follows : List ℕ → List ℕ → Type 0
  Follows ms ns = (c : Cube) → IsCube c → run (f c) ns ≡ f (run c ms)

  pub Follows-inverse :
      (ms ns : List ℕ)
      → AreBasic ms
      → AreBasic ns
      → Follows ms ns
      → Follows (inverse_moves ms) (inverse_moves ns)
  unfolding Follows
  Follows-inverse ms ns bm bn h c hc =
      let d : Cube = run c (inverse_moves ms) in
      let hd : IsCube d = run-IsCube (inverse_moves ms) (inverse_moves-AreBasic ms bm) hc in
      ap (λ t. run (f t) (inverse_moves ns)) (sym (run-after_inverse ms bm hc))
      ∙ ap (λ t. run t (inverse_moves ns)) (sym (h d hd))
      ∙ run-inverse_moves ns bn (f_cube d hd)

  pub Follows-append :
      (ms ns ms' ns' : List ℕ)
      → AreBasic ms
      → Follows ms ns
      → Follows ms' ns'
      → Follows (ms ++ ms') (ns ++ ns')
  unfolding Follows
  Follows-append ms ns ms' ns' bm h h' c hc =
      run-append (f c) ns ns'
      ∙ ap (λ t. run t ns') (h c hc)
      ∙ h' (run c ms) (run-IsCube ms bm hc)
      ∙ ap f (sym (run-append c ms ms'))

  pub Follows-sort : (ms ns : List ℕ) → AreBasic ns → Follows ms ns → Follows ms (sorted ns)
  unfolding Follows
  Follows-sort ms ns bn h c hc = (sorted-SortedOf ns).effect bn (f_cube c hc) ∙ h c hc

pub AreBasic-map :
    (g : ℕ → ℕ) (ms : List ℕ) → ((m : ℕ) → m < 18 → g m < 18) → AreBasic ms → AreBasic (map g ms)
AreBasic-map g [] h b = b
AreBasic-map g (m ∷ ms) h b = (h m b.0, AreBasic-map g ms h b.1)

pub AreBasic-append : (ms ns : List ℕ) → AreBasic ms → AreBasic ns → AreBasic (ms ++ ns)
AreBasic-append [] ns b b' = b'
AreBasic-append (m ∷ ms) ns b b' = (b.0, AreBasic-append ms ns b.1 b')

pub run-transform :
    (t : ℕ) (ms : List ℕ) {c : Cube}
    → t < 48
    → AreBasic ms
    → IsCube c
    → run (transform c t) (map (λ m. transform_move m t) ms) ≡ transform (run c ms) t
run-transform t [] ht b hc = refl
run-transform t (m ∷ ms) ht b hc =
    ap (λ k. run k (map (λ m. transform_move m t) ms)) (sym (transform-move t m ht b.0 hc))
    ∙ run-transform t ms ht b.1 (move-IsCube m b.0 hc)
