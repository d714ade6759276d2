-- ===== src/Moves/Laws/Sorting.antt =====
-- The loop of `sortparallel_moves` in src/core/moves.h: what it keeps, when it ends, and that it does not end on more
-- than 256 moves, where its index wraps.
use h.Base.{
  ℕ, zero, suc, ◌+◌, ◌-◌, ◌%◌, ◌^◌, ◌<◌, ◌≤◌, Bool, true, false, ◌&&◌, List, [], ◌∷◌, none, some,
  ◌≡◌, ◌⊎◌, inl, inr, refl, sym, ap, ◌∙◌, ltb, if◌then◌else◌, get_or, set, length, length-set,
  arith, Bool-cases, ltb→lt, lt→ltb, subst, dec_lt,
}
use mathlib.Core.Option.{none-ne-some, some-injective}
use h.Cube.{Cube}
use h.Cube.Group.{IsCube}
use h.Moves.{parallel, swap_parallel, sort_loop, sortparallel_moves}
use h.Moves.Laws.{move-IsCube, move_comm}
use h.Moves.Laws.Sequences.{run, AreBasic}

-- A swap of the moves at an index and the next, and after the first one.
swap_parallel-first :
    (m n : ℕ) (ms : List ℕ)
    → (swap_parallel 0 (m ∷ n ∷ ms) ≡ m ∷ n ∷ ms)
      ⊎ ((parallel m n ≡ true) × (swap_parallel 0 (m ∷ n ∷ ms) ≡ n ∷ m ∷ ms))
unfolding swap_parallel
swap_parallel-first m n ms = elim (Bool-cases (parallel m n && ltb n m)) [
  | inl s ↦ inr (ground (arith, s), rw s refl)
  | inr k ↦ inl (rw k refl)
]

swap_parallel-suc :
    (i m : ℕ) (ms : List ℕ) → swap_parallel (suc i) (m ∷ ms) ≡ m ∷ swap_parallel i ms
unfolding swap_parallel
swap_parallel-suc i m ms =
    let a = get_or ms i 0 in
    let next : suc i + 1 ≡ suc (i + 1) = omega arith in
    ap
      (λ k.
        if parallel a (get_or (m ∷ ms) k 0) && ltb (get_or (m ∷ ms) k 0) a
        then set (m ∷ set ms i (get_or (m ∷ ms) k 0)) k a
        else m ∷ ms)
      next
    ∙ behind (parallel a (get_or ms (i + 1) 0) && ltb (get_or ms (i + 1) 0) a)
        (set (set ms i (get_or ms (i + 1) 0)) (i + 1) a) ms
  where
    behind :
        (b : Bool) (xs ys : List ℕ) → (if b then m ∷ xs else m ∷ ys) ≡ m ∷ (if b then xs else ys)
    behind true xs ys = refl
    behind false xs ys = refl

pub length-swap_parallel : (i : ℕ) (ms : List ℕ) → length (swap_parallel i ms) ≡ length ms
unfolding swap_parallel
length-swap_parallel i ms =
    elim (Bool-cases (
      parallel (get_or ms i 0) (get_or ms (i + 1) 0)
      && ltb (get_or ms (i + 1) 0) (get_or ms i 0))) [
        | inl s ↦ rw s (
            length-set (set ms i (get_or ms (i + 1) 0)) (i + 1) (get_or ms i 0)
            ∙ length-set ms i (get_or ms (i + 1) 0))
        | inr k ↦ rw k refl
      ]

-- A swap keeps the moves basic and does to a cube of the puzzle what the moves did.
run-swap_parallel :
    (i : ℕ) (ms : List ℕ) {c : Cube}
    → i + 1 < length ms
    → AreBasic ms
    → IsCube c
    → run c (swap_parallel i ms) ≡ run c ms
run-swap_parallel i [] h b hc = absurd (omega arith)
run-swap_parallel i (m ∷ []) h b hc = absurd (omega arith)
run-swap_parallel zero (m ∷ n ∷ ms) {c} h (bm, (bn, b)) hc = elim (swap_parallel-first m n ms) [
  | inl e ↦ ap (run c) e
  | inr (p, e) ↦ ap (run c) e ∙ ap (λ t. run t ms) (sym (move_comm m n bm bn p hc))
]
run-swap_parallel (suc i) (m ∷ n ∷ ms) {c} h (bm, b) hc =
    ap (run c) (swap_parallel-suc i m (n ∷ ms))
    ∙ run-swap_parallel i (n ∷ ms) (omega arith) b (move-IsCube m bm hc)

swap_parallel-AreBasic :
    (i : ℕ) (ms : List ℕ) → i + 1 < length ms → AreBasic ms → AreBasic (swap_parallel i ms)
swap_parallel-AreBasic i [] h b = absurd (omega arith)
swap_parallel-AreBasic i (m ∷ []) h b = absurd (omega arith)
swap_parallel-AreBasic zero (m ∷ n ∷ ms) h (bm, (bn, b)) = elim (swap_parallel-first m n ms) [
  | inl e ↦ subst AreBasic (sym e) (bm, (bn, b))
  | inr (p, e) ↦ subst AreBasic (sym e) (bn, (bm, b))
]
swap_parallel-AreBasic (suc i) (m ∷ n ∷ ms) h (bm, b) =
    subst AreBasic (sym (swap_parallel-suc i m (n ∷ ms)))
      (bm, swap_parallel-AreBasic i (n ∷ ms) (omega arith) b)

-- What the loop leaves, if it ends: a list of the same length, of basic moves if those were basic, with the same
-- effect.
pub record SortedOf (ms ns : List ℕ) : Type 0 where
  pub size : length ns ≡ length ms
  pub basic : AreBasic ms → AreBasic ns
  pub effect : {c : Cube} → AreBasic ms → IsCube c → run c ns ≡ run c ms

SortedOf-swap :
    (i : ℕ) (ms ns : List ℕ) → i + 1 < length ms → SortedOf (swap_parallel i ms) ns → SortedOf ms ns
SortedOf-swap i ms ns h s = record {
  size = s.size ∙ length-swap_parallel i ms;
  basic = λ b. s.basic (swap_parallel-AreBasic i ms h b);
  effect = λ b hc. s.effect (swap_parallel-AreBasic i ms h b) hc ∙ run-swap_parallel i ms h b hc;
}

sort_loop-more :
    (left i : ℕ) (ms : List ℕ)
    → ltb i (length ms - 1) ≡ true
    → sort_loop (suc left) i ms ≡ sort_loop left ((i + 1) % 2 ^ 8) (swap_parallel i ms)
unfolding sort_loop
sort_loop-more left i ms e =
    ap (λ b. if b then sort_loop left ((i + 1) % 2 ^ 8) (swap_parallel i ms) else some ms) e

sort_loop-last :
    (left i : ℕ) (ms : List ℕ) → ltb i (length ms - 1) ≡ false → sort_loop (suc left) i ms ≡ some ms
unfolding sort_loop
sort_loop-last left i ms e =
    ap (λ b. if b then sort_loop left ((i + 1) % 2 ^ 8) (swap_parallel i ms) else some ms) e

sort_loop-none : (i : ℕ) (ms : List ℕ) → sort_loop zero i ms ≡ none
unfolding sort_loop
sort_loop-none i ms = refl

pub SortedOf-refl : (ms : List ℕ) → SortedOf ms ms
SortedOf-refl ms = record { size = refl; basic = λ b. b; effect = λ b hc. refl }

sort_loop-SortedOf : (left i : ℕ) (ms ns : List ℕ) → sort_loop left i ms ≡ some ns → SortedOf ms ns
sort_loop-SortedOf zero i ms ns e = absurd (none-ne-some ns (sym (sort_loop-none i ms) ∙ e))
sort_loop-SortedOf (suc left) i ms ns e = elim (Bool-cases (ltb i (length ms - 1))) [
  | inl more ↦ SortedOf-swap i ms ns (omega (arith, ltb→lt i (length ms - 1) more)) (
      sort_loop-SortedOf left ((i + 1) % 2 ^ 8) (swap_parallel i ms) ns
        (sym (sort_loop-more left i ms more) ∙ e))
  | inr last ↦
      subst (SortedOf ms) (some-injective _ _ (sym (sort_loop-last left i ms last) ∙ e))
        (SortedOf-refl ms)
]

pub sortparallel_moves-SortedOf :
    (ms ns : List ℕ) → sortparallel_moves ms ≡ some ns → SortedOf ms ns
unfolding sortparallel_moves
sortparallel_moves-SortedOf ms ns e = elim (Bool-cases (ltb (length ms) 2)) [
  | inl short ↦
      subst (SortedOf ms)
        (some-injective _ _
          (sym (ap (λ b. if b then some ms else sort_loop (length ms) 0 ms) short) ∙ e))
        (SortedOf-refl ms)
  | inr long ↦
      sort_loop-SortedOf (length ms) 0 ms ns
        (sym (ap (λ b. if b then some ms else sort_loop (length ms) 0 ms) long) ∙ e)
]

-- As many rounds as there are moves end the loop, if they are 256 at most.
sort_loop-some :
    (left i : ℕ) (ms : List ℕ)
    → i < length ms
    → length ms ≤ i + left
    → length ms ≤ 256
    → (ns : List ℕ) × (sort_loop left i ms ≡ some ns)
sort_loop-some zero i ms h enough few = absurd (omega arith)
sort_loop-some (suc left) i ms h enough few = elim (Bool-cases (ltb i (length ms - 1))) [
  | inl more ↦
      let less = ltb→lt i (length ms - 1) more in
      let size = length-swap_parallel i ms in
      let (ns, e) =
        sort_loop-some left ((i + 1) % 2 ^ 8) (swap_parallel i ms) (omega (arith, less, size))
          (omega (arith, less, size)) (omega (arith, size)) in
      (ns, sort_loop-more left i ms more ∙ e)
  | inr last ↦ (ms, sort_loop-last left i ms last)
]

-- No number of rounds ends it on more moves.
sort_loop-never :
    (left i : ℕ) (ms : List ℕ) → i < 256 → 256 < length ms → sort_loop left i ms ≡ none
sort_loop-never zero i ms h many = sort_loop-none i ms
sort_loop-never (suc left) i ms h many =
    sort_loop-more left i ms (lt→ltb i (length ms - 1) (omega arith))
    ∙ sort_loop-never left ((i + 1) % 2 ^ 8) (swap_parallel i ms) (omega arith)
        (omega (arith, length-swap_parallel i ms))

pub sortparallel_moves-some :
    (ms : List ℕ) → length ms ≤ 256 → (ns : List ℕ) × (sortparallel_moves ms ≡ some ns)
unfolding sortparallel_moves
sortparallel_moves-some ms few = elim (Bool-cases (ltb (length ms) 2)) [
  | inl short ↦ (ms, ap (λ b. if b then some ms else sort_loop (length ms) 0 ms) short)
  | inr long ↦
      let (ns, e) = sort_loop-some (length ms) 0 ms (ground (arith, long)) (omega arith) few in
      (ns, ap (λ b. if b then some ms else sort_loop (length ms) 0 ms) long ∙ e)
]

-- On at most 256 moves `sortparallel_moves` ends, with as many moves, which are basic and have the effect of the given
-- ones if those are basic, on every cube of the puzzle. On more moves its loop does not end after any number
-- of rounds.
pub run-sortparallel_moves :
    (ms : List ℕ)
    → ((length ms ≤ 256) × ((ns : List ℕ) × (sortparallel_moves ms ≡ some ns) × SortedOf ms ns))
      ⊎ ((256 < length ms) × ((rounds : ℕ) → sort_loop rounds 0 ms ≡ none))
run-sortparallel_moves ms = elim (dec_lt 256 (length ms)) [
  | yes many ↦ inr (many, λ rounds. sort_loop-never rounds 0 ms (omega arith) many)
  | no few ↦
      let small : length ms ≤ 256 = omega (arith, few) in
      let (ns, e) = sortparallel_moves-some ms small in
      inl (small, (ns, e, sortparallel_moves-SortedOf ms ns e))
]
