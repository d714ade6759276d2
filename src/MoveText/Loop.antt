-- ===== src/MoveText/Loop.antt =====
-- One round of the reading loop of src/core/moves.h, and all rounds over the names of moves.
use h.Base.{
  ℕ, zero, suc, ◌+◌, ◌≤◌, ◌<◌, Bool, false, List, [], ◌∷◌, ◌++◌, Option, none, some, ◌==◌, get_or,
  length, ◌≡◌, refl, sym, ap, ap₂, ◌∙◌, Option-cases, arith, inl, inr,
}
use h.MoveText.{movestr, is_space, skip_spaces, read_token, finish, read_loop, read_round, done}
use h.MoveText.Tokens.{Apart, at_end, at_space, Named, movestr-Named, read_token-append}
use mathlib.Core.List.{append-nil}
use mathlib.Core.Option.{none-ne-some, some-injective}

-- Every element is one of the 54 moves.
pub data AreMoves : List ℕ → Type 0 where
  no_move : AreMoves []
  next_move : {m : ℕ} {ms : List ℕ} → m < 54 → AreMoves ms → AreMoves (m ∷ ms)

-- The names with single spaces between them.
unfoldable pub spaced : List ℕ → List ℕ
spaced [] = []
spaced (m ∷ []) = get_or movestr m []
spaced (m ∷ m' ∷ ms) = get_or movestr m [] ++ 32 ∷ spaced (m' ∷ ms)

-- Doing the action for each move.
unfoldable pub act {ℓ} : {A : Type ℓ} → (ℕ → A → Option A) → List ℕ → A → Option A
act f [] a = some a
act f (m ∷ ms) a = elim (f m a) [ none ↦ none | some a' ↦ act f ms a' ]

module _ {ℓ} {A : Type ℓ} (action : Bool → ℕ → A → Option A) (stop : ℕ → Bool) where
  skip_spaces-letter : (c : ℕ) (cs : List ℕ) → is_space c ≡ false → skip_spaces (c ∷ cs) ≡ c ∷ cs
  unfolding skip_spaces
  skip_spaces-letter c cs h = rw h refl

  -- A round that reads a move and goes on.
  read_loop-letter :
      (fuel c m : ℕ) (cs rest : List ℕ) (a a' : A) (count : ℕ)
      → is_space c ≡ false
      → stop count ≡ false
      → (c == 40) ≡ false
      → (c == 41) ≡ false
      → read_token c cs ≡ some (m, rest)
      → action false m a ≡ some a'
      → read_loop action stop (suc fuel) (c ∷ cs) false a count
        ≡ read_loop action stop fuel rest false a' (count + 1)
  unfolding read_loop read_round skip_spaces
  read_loop-letter fuel c m cs rest a a' count sp st op cl tok ac =
      rw (read_loop, read_round, sp, st, op, cl, tok, ac) refl

  read_loop-space :
      (fuel : ℕ) (cs : List ℕ) (a : A) (count : ℕ)
      → read_loop action stop (suc fuel) (32 ∷ cs) false a count
        ≡ read_loop action stop (suc fuel) cs false a count
  unfolding read_loop read_round skip_spaces is_space
  read_loop-space fuel cs a count = refl

  read_loop-end :
      (fuel : ℕ) (a : A) (count : ℕ)
      → read_loop action stop (suc fuel) [] false a count ≡ some (done a count)
  unfolding read_loop read_round skip_spaces finish
  read_loop-end fuel a count = refl

  read_loop-move :
      (fuel m : ℕ) (rest : List ℕ) (a a' : A) (count : ℕ)
      → m < 54
      → Apart rest
      → stop count ≡ false
      → action false m a ≡ some a'
      → read_loop action stop (suc fuel) (get_or movestr m [] ++ rest) false a count
        ≡ read_loop action stop fuel rest false a' (count + 1)
  read_loop-move fuel m rest a a' count lt apart st ac =
      let n : Named m = movestr-Named m lt in
      ap (λ s. read_loop action stop (suc fuel) (s ++ rest) false a count) n.spelled
      ∙ read_loop-letter fuel n.letter m (n.tail ++ rest) rest a a' count n.no_space st n.no_open
          n.no_close (read_token-append n.letter m n.tail [] rest apart n.reads) ac

  -- What follows the name of a move.
  after : List ℕ → List ℕ
  after [] = []
  after (m ∷ ms) = 32 ∷ spaced (m ∷ ms)

  after-Apart : (ms : List ℕ) → Apart (after ms)
  unfolding after
  after-Apart [] = at_end
  after-Apart (m ∷ ms) = at_space

  spaced-after : (m : ℕ) (ms : List ℕ) → spaced (m ∷ ms) ≡ get_or movestr m [] ++ after ms
  unfolding after spaced
  spaced-after m [] = sym (append-nil (get_or movestr m []))
  spaced-after m (m' ∷ ms) = refl

  read_loop-after :
      (fuel : ℕ) (ms : List ℕ) (a : A) (count : ℕ)
      → read_loop action stop (suc fuel) (after ms) false a count
        ≡ read_loop action stop (suc fuel) (spaced ms) false a count
  unfolding after spaced
  read_loop-after fuel [] a count = refl
  read_loop-after fuel (m ∷ ms) a count = read_loop-space fuel (spaced (m ∷ ms)) a count

  -- The loop does the action for every move of the text, in order, and counts them.
  pub read_loop-spaced :
      (ms : List ℕ) (fuel : ℕ) (a a' : A) (count : ℕ)
      → AreMoves ms
      → ((k : ℕ) → count ≤ k → k < count + length ms → stop k ≡ false)
      → act (action false) ms a ≡ some a'
      → length ms < fuel
      → read_loop action stop fuel (spaced ms) false a count ≡ some (done a' (count + length ms))
  unfolding spaced act
  read_loop-spaced ms zero a a' count are st e h = absurd (omega arith)
  read_loop-spaced [] (suc fuel) a a' count are st e h =
      let same : a ≡ a' = some-injective a a' e in
      read_loop-end fuel a count ∙ ap₂ (λ t (k : ℕ). some (done t k)) same (omega arith)
  read_loop-spaced (m ∷ ms) (suc zero) a a' count are st e h = absurd (omega arith)
  read_loop-spaced (m ∷ ms) (suc (suc fuel)) a a' count (next_move lt are) st e h =
      elim (Option-cases (action false m a)) [
        | inl wrong ↦ absurd (
            none-ne-some a'
              (sym (ap (λ o. elim o [ none ↦ none | some b ↦ act (action false) ms b ]) wrong) ∙ e))
        | inr (b, right) ↦
            let e' : act (action false) ms b ≡ some a' =
              sym (ap (λ o. elim o [ none ↦ none | some b ↦ act (action false) ms b ]) right) ∙ e in
            let total : count + 1 + length ms ≡ count + suc (length ms) = omega arith in
            ap (λ s. read_loop action stop (suc (suc fuel)) s false a count) (spaced-after m ms)
            ∙ read_loop-move (suc fuel) m (after ms) a b count lt (after-Apart ms)
                (st count (omega arith) (omega arith)) right
            ∙ read_loop-after fuel ms b (count + 1)
            ∙ read_loop-spaced ms (suc fuel) b a' (count + 1) are
                (λ k p q. st k (omega arith) (omega arith)) e' (omega arith)
            ∙ ap (λ (k : ℕ). some (done a' k)) total
      ]
