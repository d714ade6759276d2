-- ===== src/Moves/Laws/Allowed.antt =====
-- The loop of `allowedmoves` in src/core/moves.h looks at each move and the next, on at most 255 moves.
use h.Base.{
  ℕ, zero, suc, ◌+◌, ◌-◌, ◌%◌, ◌^◌, ◌<◌, ◌≤◌, Bool, true, false, not, List, [], ◌∷◌, Option, none,
  some, ◌≡◌, inl, inr, refl, sym, ap, ap₂, ◌∙◌, ltb, ◌==◌, if◌then◌else◌, get_or, length, arith,
  Bool-cases, ltb→lt,
}
use h.Moves.{allowednextmove, allowed_loop, allowedmoves}

-- Each move is allowed after the one before it.
unfoldable pub each_allowed : List ℕ → Bool
each_allowed [] = true
each_allowed (m ∷ []) = true
each_allowed (m ∷ n ∷ ms) = if not (allowednextmove m n) then false else each_allowed (n ∷ ms)

-- The moves from index `k` on.
after : ℕ → List ℕ → List ℕ
after zero ms = ms
after (suc k) [] = []
after (suc k) (m ∷ ms) = after k ms

after-split : (k : ℕ) (ms : List ℕ) → k < length ms → after k ms ≡ get_or ms k 0 ∷ after (suc k) ms
unfolding after
after-split k [] h = absurd (omega arith)
after-split zero (m ∷ ms) h = refl
after-split (suc k) (m ∷ ms) h = after-split k ms (omega arith)

after-end : (k : ℕ) (ms : List ℕ) → length ms ≤ k → after k ms ≡ []
unfolding after
after-end zero [] h = refl
after-end zero (m ∷ ms) h = absurd (omega arith)
after-end (suc k) [] h = refl
after-end (suc k) (m ∷ ms) h = after-end k ms (omega arith)

-- A round at an index that is not 0.
allowed_loop-round :
    (left k : ℕ) (ms : List ℕ)
    → allowed_loop (suc left) (suc k) ms ≡ (
        if not (ltb (suc k) (length ms))
        then some true
        else if not (allowednextmove (get_or ms k 0) (get_or ms (suc k) 0))
        then some false
        else allowed_loop left (suc (suc k) % 2 ^ 8) ms)
unfolding allowed_loop
allowed_loop-round left k ms =
    let positive : (suc k == 0) ≡ false = ground arith in
    let before : suc k - 1 ≡ k = omega arith in
    let next : suc k + 1 ≡ suc (suc k) = omega arith in
    ap
      (λ b.
        if not (ltb (suc k) (length ms))
        then some true
        else if b
        then none
        else if not (allowednextmove (get_or ms (suc k - 1) 0) (get_or ms (suc k) 0))
        then some false
        else allowed_loop left ((suc k + 1) % 2 ^ 8) ms)
      positive
    ∙ ap₂
        (λ x y.
          if not (ltb (suc k) (length ms))
          then some true
          else if not (allowednextmove (get_or ms x 0) (get_or ms (suc k) 0))
          then some false
          else allowed_loop left (y % 2 ^ 8) ms)
        before next

-- The choice that the loop and the description make together.
step :
    (b : Bool) (a : Bool) (o : Option Bool)
    → o ≡ some a
    → (if not b then some false else o) ≡ some (if not b then false else a)
step true a o e = e
step false a o e = refl

allowed_loop_lem :
    (left k : ℕ) (ms : List ℕ)
    → k < length ms
    → length ms ≤ k + left
    → length ms ≤ 255
    → allowed_loop left (suc k) ms ≡ some (each_allowed (after k ms))
unfolding each_allowed
allowed_loop_lem zero k ms h enough few = absurd (omega arith)
allowed_loop_lem (suc left) k ms h enough few = elim (Bool-cases (ltb (suc k) (length ms))) [
  | inr last ↦
      allowed_loop-round left k ms
      ∙ ap choice last
      ∙ ap some (sym (one_left (ground (arith, last))))
  | inl more ↦
      let less : suc k < length ms = ltb→lt (suc k) (length ms) more in
      let index : suc (suc k) % 2 ^ 8 ≡ suc (suc k) = omega (arith, less) in
      allowed_loop-round left k ms
      ∙ ap choice more
      ∙ step (allowednextmove (get_or ms k 0) (get_or ms (suc k) 0))
          (each_allowed (after (suc k) ms)) _
          (ap (λ j. allowed_loop left j ms) index
            ∙ allowed_loop_lem left (suc k) ms less (omega arith) few)
      ∙ ap some (sym (two_left less))
]
  where
    choice : Bool → Option Bool
    choice b =
        if not b
        then some true
        else if not (allowednextmove (get_or ms k 0) (get_or ms (suc k) 0))
        then some false
        else allowed_loop left (suc (suc k) % 2 ^ 8) ms

    one_left : length ms ≤ suc k → each_allowed (after k ms) ≡ true
    one_left end =
        ap each_allowed
          (after-split k ms h ∙ ap (λ t. get_or ms k 0 ∷ t) (after-end (suc k) ms end))

    two_left :
        suc k < length ms
        → each_allowed (after k ms) ≡ (
            if not (allowednextmove (get_or ms k 0) (get_or ms (suc k) 0))
            then false
            else each_allowed (after (suc k) ms))
    two_left less =
        let split = after-split (suc k) ms less in
        ap each_allowed (after-split k ms h ∙ ap (λ t. get_or ms k 0 ∷ t) split)
        ∙ ap
            (λ t.
              if not (allowednextmove (get_or ms k 0) (get_or ms (suc k) 0))
              then false
              else each_allowed t)
            (sym split)

-- On at most 255 moves `allowedmoves` answers, with true exactly if each move is allowed after the one before it.
pub allowedmoves_lem : (ms : List ℕ) → length ms ≤ 255 → allowedmoves ms ≡ some (each_allowed ms)
unfolding allowedmoves after each_allowed
allowedmoves_lem [] few = refl
allowedmoves_lem (m ∷ ms) few =
    allowed_loop_lem (suc (length (m ∷ ms))) 0 (m ∷ ms) (omega arith) (omega arith) few
