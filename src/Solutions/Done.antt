-- ===== src/Solutions/Done.antt =====
-- `appendsolution` and `solutions_done` of src/solvers/solutions.h together.
use h.Base.{
  ℕ, zero, suc, ◌+◌, ◌<◌, ◌≤◌, ◌^◌, bit_and, Bool, true, false, ◌||◌, List, [], ◌∷◌, ◌++◌, ◌≡◌,
  refl, sym, ◌==◌, ltb, if◌then◌else◌, length, length-append, arith, inl, inr, Bool-cases,
  Option-cases, ltb→lt, subst,
}
use h.Solutions.{
  SolutionMoves, SolutionSettings, SolutionList, solution_moves_is_duplicate, append_line,
  transformed, Round, written, no_room, stopped, Appended, appended, buffer_size, unknown,
  append_round, append_loop, appendsolution, solutions_done, count_solution, maxlen, ntrans,
}
use h.Solutions.Rounds.{
  RoundFrom, append_line-RoundFrom, Grows, GrowsTo, Grows-close, GrowsTo-written, GrowsTo-stopped,
}
use h.Solutions.Lengths.{length-transformed}

module _ (settings : SolutionSettings) (sol : SolutionMoves) (total : ℕ)
    (size : length sol.moves + length sol.premoves ≡ total) where
  abbrev max : ℕ
  max = settings.maxsolutions

  -- What is asked of the rounds that follow.
  Goes : (List SolutionMoves → SolutionList → Appended) → Type 0
  Goes again =
      (tsol : List SolutionMoves) (l : SolutionList)
      → l.size < 2 ^ 64
      → length l.buf ≤ l.size
      → GrowsTo max total (length tsol) l (again tsol l)

  line_of :
      (again : List SolutionMoves → SolutionList → Appended)
      → Goes again
      → (tsol : List SolutionMoves) (l : SolutionList) (s : SolutionMoves) (r : Round)
      → l.size < 2 ^ 64
      → l.nsols < max
      → length s.moves + length s.premoves ≤ total
      → RoundFrom s l r
      → GrowsTo max total (length tsol) l (elim r [
        | no_room ↦ buffer_size
        | stopped m ↦ appended 0 m
        | written m ↦ again (tsol ++ s ∷ []) m
      ])
  unfolding RoundFrom GrowsTo Goes count_solution
  line_of again goes tsol l s no_room big below small h = tt
  line_of again goes tsol l s (stopped m) big below small h =
      GrowsTo-stopped max total (length tsol) l m h
  line_of again goes tsol l s (written m) big below small (k, x, e) =
      let m' : SolutionList = count_solution s k in
      let next : GrowsTo max total (length (tsol ++ s ∷ [])) m' (again (tsol ++ s ∷ []) m') =
        goes (tsol ++ s ∷ []) m' (omega (arith, x.same_size)) x.used in
      subst (λ z. GrowsTo max total (length tsol) l (again (tsol ++ s ∷ []) z)) (sym e)
        (GrowsTo-written max total (length tsol) s l k (again (tsol ++ s ∷ []) m') x below small (
          subst (λ n. GrowsTo max total n m' (again (tsol ++ s ∷ []) m'))
            (length-append tsol (s ∷ [])) next))

  round-GrowsTo :
      (t : ℕ) (again : List SolutionMoves → SolutionList → Appended)
      → Goes again
      → Goes (append_round settings sol t again)
  unfolding Goes append_round GrowsTo
  round-GrowsTo t again goes tsol l big h = elim (Bool-cases (ltb l.nsols max)) [
    | inr full ↦ rw (append_round, full) (Grows-close max total (length tsol) l h)
    | inl below ↦ elim (Bool-cases (bit_and settings.tmask (2 ^ t) == 0)) [
      | inl skip ↦ rw (append_round, below, skip) (goes tsol l big h)
      | inr chosen ↦ elim (Option-cases (transformed settings sol t)) [
        | inl cancelled ↦ rw (append_round, below, chosen, cancelled) (goes tsol l big h)
        | inr (s, e) ↦ elim (Bool-cases (solution_moves_is_duplicate tsol s)) [
          | inl known ↦ rw (append_round, below, chosen, e, known) (goes tsol l big h)
          | inr new ↦
              rw (append_round, below, chosen, e, new)
                (line_of again goes tsol l s (append_line s l) big (ltb→lt _ _ below)
                  (omega (arith, length-transformed settings sol s t e, size))
                  (append_line-RoundFrom s l big h))
        ]
      ]
    ]
  ]

  loop-GrowsTo : (left t : ℕ) → Goes (append_loop settings sol left t)
  unfolding Goes append_loop GrowsTo
  loop-GrowsTo zero t tsol l big h = Grows-close max total (length tsol) l h
  loop-GrowsTo (suc left) t tsol l big h =
      round-GrowsTo t (append_loop settings sol left (t + 1)) (loop-GrowsTo left (t + 1)) tsol l big
        h

if_appended :
    (b : Bool) (a : Appended) (r : ℕ) (l : SolutionList)
    → (if b then unknown else a) ≡ appended r l
    → (b ≡ false) × (a ≡ appended r l)
if_appended true a r l e = absurd (ground (arith, e))
if_appended false a r l e = (refl, e)

-- If `appendsolution` comes back without an error, on a list whose text is within its size, then the text
-- is still within the size and continues what was there; no byte after the size was written that was
-- not before, but for the closing zero where the text fills the buffer, which is one byte after it; the zero was
-- written right after the text, unless 0 is returned; solutions were counted only up to the maximum; the count that is returned is 0 or that of
-- the solutions that were added; and if it is not 0, the shortest solution is at most as long as the given one.
pub appendsolution-Grows :
    (sol : SolutionMoves) (settings : SolutionSettings) (list l : SolutionList) (r : ℕ)
    → list.size < 2 ^ 64
    → length list.buf ≤ list.size
    → appendsolution sol settings list ≡ appended r l
    → Grows settings.maxsolutions (length sol.moves + length sol.premoves) 0 list r l
unfolding appendsolution GrowsTo Goes
appendsolution-Grows sol settings list l r big h e =
    let total = length sol.moves + length sol.premoves in
    let (short, right) =
      if_appended (ltb maxlen total) (append_loop settings sol ntrans 0 [] list) r l e in
    subst (GrowsTo settings.maxsolutions total 0 list) right
      (loop-GrowsTo settings sol total refl ntrans 0 [] list big h)

-- After `appendsolution` wrote a solution, the search is done at every depth that exceeds the length of
-- the solution by more than the number of moves allowed above the optimum.
pub solutions_done-appendsolution :
    (sol : SolutionMoves) (settings : SolutionSettings) (list l : SolutionList) (r depth : ℕ)
    → list.size < 2 ^ 64
    → length list.buf ≤ list.size
    → appendsolution sol settings list ≡ appended (suc r) l
    → length sol.moves + length sol.premoves + settings.optimal < depth
    → solutions_done l settings depth ≡ true
unfolding solutions_done
solutions_done-appendsolution sol settings list l r depth big h e deep =
    let g = appendsolution-Grows sol settings list l (suc r) big h e in
    done (ltb settings.maxmoves depth) (l.shortest_sol + settings.optimal) depth _
      (omega (arith, g.found (λ p. absurd (omega arith)) (omega arith)))
  where
    done : (a : Bool) (s d : ℕ) (c : Bool) → s < d → (a || (ltb s d || c)) ≡ true
    done a s d c h = ground arith
