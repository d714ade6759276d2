-- ===== src/Coord/Steps.antt =====
-- Single rounds of the loop over the values in `coord_gendata_generic` of src/solvers/coord/common.h.
use h.Base.{
  ℕ, zero, suc, ◌+◌, ◌≤◌, true, false, List, ◌≡◌, refl, inl, inr, ◌==◌, get_or, set, Bool-cases,
  arith,
}
use h.Coord.{SymCoord, nasty_loop, fill_loop, class_round, class_loop, no_entry}

pub class_round-count :
    (s : SymCoord) (mask i n : ℕ) (words : List ℕ) → n ≤ (class_round s mask i (n, words)).0
unfolding class_round
class_round-count s mask i n words = elim (Bool-cases (get_or words i 0 == no_entry)) [
  | inl e ↦ rw e (omega arith)
  | inr ne ↦ rw ne (omega arith)
]

pub class_loop-count :
    (s : SymCoord) (mask left i : ℕ) (state : ℕ × List ℕ)
    → state.0 ≤ (class_loop s mask left i state).0
unfolding class_loop
class_loop-count s mask zero i state = omega arith
class_loop-count s mask (suc left) i state = omega (
  arith,
  class_round-count s mask i state.0 state.1,
  class_loop-count s mask left (i + 1) (class_round s mask i state),
)

pub class_round-some :
    (s : SymCoord) (mask i n : ℕ) (words : List ℕ)
    → (get_or words i 0 == no_entry) ≡ false
    → class_round s mask i (n, words) ≡ (n, words)
unfolding class_round
class_round-some s mask i n words e = rw e refl

pub class_round-none :
    (s : SymCoord) (mask i n : ℕ) (words : List ℕ)
    → (get_or words i 0 == no_entry) ≡ true
    → class_round s mask i (n, words) ≡ (
      n + 1,
      set
          (fill_loop s mask (s.cube i) n (nasty_loop s mask (s.cube i) i 47 1) 48 0 words)
          (s.max + n)
          i,
    )
unfolding class_round
class_round-none s mask i n words e = rw e refl
