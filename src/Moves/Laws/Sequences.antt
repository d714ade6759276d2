-- ===== src/Moves/Laws/Sequences.antt =====
-- Sequences of basic moves: their effect on a cube, which move may follow which, and the
-- inverse of a sequence.
use h.Base.{
  ℕ, ◌<◌, true, false, not, ◌&&◌, ◌||◌, ◌≡◌, refl, ap, ◌∙◌, ◌==◌, ltb, arith, all_below,
  all_below₂_sound, List, [], ◌∷◌, ◌++◌, ◌↔◌,
}
use h.Cube.{Cube}
use h.Cube.Group.{IsCube}
use h.Moves.{move, inverse_move, parallel, allowednextmove, movebase}
use h.Moves.Laws.{move-IsCube, inverse_move-lt, move-inverse_move}

-- The cube after a sequence of moves.
abbrev pub run : Cube → List ℕ → Cube
run c [] = c
run c (m ∷ ms) = run (move c m) ms

-- Every move of the sequence is one of the 18 basic ones.
abbrev pub AreBasic : List ℕ → Type 0
AreBasic [] = Unit {0}
AreBasic (m ∷ ms) = (m < 18) × AreBasic ms

pub run-IsCube : (ms : List ℕ) {c : Cube} → AreBasic ms → IsCube c → IsCube (run c ms)
run-IsCube [] b hc = hc
run-IsCube (m ∷ ms) b hc = run-IsCube ms b.1 (move-IsCube m b.0 hc)

pub run-append : (c : Cube) (ms ns : List ℕ) → run c (ms ++ ns) ≡ run (run c ms) ns
run-append c [] ns = refl
run-append c (m ∷ ms) ns = run-append (move c m) ms ns

-- The inverse sequence: every move inverted, in reverse order.
abbrev pub inverse_moves : List ℕ → List ℕ
inverse_moves [] = []
inverse_moves (m ∷ ms) = inverse_moves ms ++ inverse_move m ∷ []

pub inverse_moves-AreBasic : (ms : List ℕ) → AreBasic ms → AreBasic (inverse_moves ms)
inverse_moves-AreBasic [] b = b
inverse_moves-AreBasic (m ∷ ms) b = snoc (inverse_moves ms) (inverse_moves-AreBasic ms b.1)
  where
    snoc : (ns : List ℕ) → AreBasic ns → AreBasic (ns ++ inverse_move m ∷ [])
    snoc [] u = (inverse_move-lt m b.0, tt)
    snoc (n ∷ ns) u = (u.0, snoc ns u.1)

-- A sequence followed by its inverse gives the cube back.
pub run-inverse_moves :
    (ms : List ℕ) {c : Cube} → AreBasic ms → IsCube c → run (run c ms) (inverse_moves ms) ≡ c
run-inverse_moves [] b hc = refl
run-inverse_moves (m ∷ ms) {c} b hc =
    run-append (run (move c m) ms) (inverse_moves ms) (inverse_move m ∷ [])
    ∙ ap (λ t. move t (inverse_move m)) (run-inverse_moves ms b.1 (move-IsCube m b.0 hc))
    ∙ move-inverse_move m b.0 hc

follow_table :
    all_below 18 (λ a. all_below 18 (λ b.
      (allowednextmove a b && not (movebase a == movebase b) && (not (parallel a b) || ltb a b))
      || (not (allowednextmove a b) && (movebase a == movebase b || (parallel a b && ltb b a)))))
    ≡ true
unfolding all_below allowednextmove parallel movebase
follow_table = refl

-- Of two basic moves, `allowednextmove` forbids the second exactly if it is of the same layer, or
-- of a parallel layer and of a lower number.
pub allowednextmove_iff :
    (a b : ℕ)
    → a < 18
    → b < 18
    → (allowednextmove a b ≡ true)
      ↔ ((movebase a == movebase b) ≡ false) × ((parallel a b && ltb b a) ≡ false)
allowednextmove_iff a b ha hb = ground (
  arith,
  all_below₂_sound 18 18
      (λ x y.
        (allowednextmove x y && not (movebase x == movebase y) && (not (parallel x y) || ltb x y))
        || (not (allowednextmove x y) && (movebase x == movebase y || (parallel x y && ltb y x))))
      a b follow_table ha hb,
)
