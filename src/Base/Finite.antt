-- ===== src/Base/Finite.antt =====
-- Statements over a small range, decided by evaluating a Boolean test at every value.
use Prim.Native.Nat.{ℕ, zero, suc, ◌<◌}
use mathlib.Core.Path.{◌≡◌}
use mathlib.Core.Bool.{Bool, true, ◌&&◌}
use native.Mathlib.Omega.{arith}
use native.Mathlib.Decide.{ℕ_discrete}

unfoldable pub all_below : ℕ → (ℕ → Bool) → Bool
all_below zero test = true
all_below (suc top) test = all_below top test && test top

pub all_below_sound :
    (bound : ℕ) (test : ℕ → Bool) (n : ℕ) → all_below bound test ≡ true → n < bound → test n ≡ true
unfolding all_below
all_below_sound zero test n passed below = elim below [ ]
all_below_sound (suc top) test n passed below = elim (ℕ_discrete n top) [
  | yes same ↦ rw same (ground arith)
  | no other ↦ all_below_sound top test n (ground arith) (omega arith)
]

-- Two nested ranges.
pub all_below₂_sound :
    (n m : ℕ) (p : ℕ → ℕ → Bool) (x y : ℕ)
    → all_below n (λ a. all_below m (λ b. p a b)) ≡ true
    → x < n
    → y < m
    → p x y ≡ true
all_below₂_sound n m p x y h hx hy =
    all_below_sound m (p x) y (all_below_sound n (λ a. all_below m (λ b. p a b)) x h hx) hy
