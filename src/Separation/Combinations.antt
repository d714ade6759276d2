-- ===== src/Separation/Combinations.antt =====
-- The table of binomial coefficients and the bits of the slices, of src/arch/common.h.
use h.Base.{
  ℕ, zero, suc, ◌+◌, ◌-◌, ◌*◌, ◌/◌, ◌%◌, ◌^◌, ◌<◌, ◌≤◌, bit_and, bit_or, true, [], ◌≡◌, refl, ◌==◌,
  ◌&&◌, ==_iff, get_or, arith, all_below, all_below₂_sound,
}
use h.Separation.{binomial, esepbit_1, esepbit_2}

-- The binomial coefficients, by Pascal's rule.
unfoldable pub comb : ℕ → ℕ → ℕ
comb n zero = 1
comb zero (suc k) = 0
comb (suc n) (suc k) = comb n k + comb n (suc k)

binomial_table :
    all_below 12 (λ n. all_below 5 (λ k. get_or (get_or binomial n []) k 0 == comb n k)) ≡ true
unfolding all_below binomial comb
binomial_table = refl

pub binomial_lem : (n k : ℕ) → n < 12 → k < 5 → get_or (get_or binomial n []) k 0 ≡ comb n k
binomial_lem n k hn hk = (==_iff _ _).0 (
    all_below₂_sound 12 5 (λ n. λ k. get_or (get_or binomial n []) k 0 == comb n k) n k
      binomial_table hn hk)

pub comb_zero : (n k : ℕ) → n < k → comb n k ≡ 0
unfolding comb
comb_zero n zero h = absurd (omega arith)
comb_zero zero (suc k) h = refl
comb_zero (suc n) (suc k) h =
    omega (arith, comb_zero n k (omega arith), comb_zero n (suc k) (omega arith))

-- A number from `comb n k` on, below `comb (n + 1) k`.
pub comb_upper :
    (n k x : ℕ) → comb n k ≤ x → x < comb (suc n) k → (0 < k) × (x - comb n k < comb n (k - 1))
unfolding comb
comb_upper n zero x h h' = absurd (at_zero n h h')
  where
    at_zero : (n : ℕ) → comb n 0 ≤ x → x < comb (suc n) 0 → ⊥
    at_zero zero h h' = omega arith
    at_zero (suc n) h h' = omega arith
comb_upper n (suc k) x h h' =
    (omega arith, let e : suc k - 1 ≡ k = omega arith in rw e (omega (arith, h, h')))

piece_table :
    all_below 4 (λ a. all_below 3 (λ s.
      bit_and (bit_or a (s * 2 ^ 2)) esepbit_1 / 2 ^ 2 == s % 2
      && bit_and (bit_or a (s * 2 ^ 2)) esepbit_2 / 2 ^ 3 == s / 2))
    ≡ true
unfolding all_below
piece_table = refl

pub piece_bits :
    (a s : ℕ)
    → a < 4
    → s < 3
    → (bit_and (bit_or a (s * 2 ^ 2)) esepbit_1 / 2 ^ 2 ≡ s % 2)
      × (bit_and (bit_or a (s * 2 ^ 2)) esepbit_2 / 2 ^ 3 ≡ s / 2)
piece_bits a s ha hs = ground (
  arith,
  all_below₂_sound 4 3
      (λ a. λ s.
        bit_and (bit_or a (s * 2 ^ 2)) esepbit_1 / 2 ^ 2 == s % 2
        && bit_and (bit_or a (s * 2 ^ 2)) esepbit_2 / 2 ^ 3 == s / 2)
      a s piece_table ha hs,
)
