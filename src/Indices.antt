-- ===== src/Indices.antt =====
-- Permutations and digits as numbers: src/utils/math.h. The arrays are lists that carry their
-- length; the error value -1 is `none`; the sizes of at most 12 keep every sum and product of these
-- functions far below the range of its type.
pub mod Permutations
pub mod Codes
pub mod Digits
pub mod Sign
use h.Base.{
  ℕ, zero, suc, ◌+◌, ◌-◌, ◌*◌, ◌/◌, ◌%◌, ◌^◌, Bool, true, false, not, ◌&&◌, ◌||◌, List, [], ◌∷◌,
  Option, none, some, ◌==◌, ltb, leb, if◌then◌else◌, of_bool, get_or, set, replicate, length,
}
use h.Moves.{uint8_error}

abbrev pub factorial_max : ℕ
factorial_max = 12

-- The loop of `factorial`, with `left` rounds to go.
unfoldable pub factorial_loop : ℕ → ℕ → ℕ → ℕ
factorial_loop zero i ret = ret
factorial_loop (suc left) i ret = factorial_loop left (i + 1) (ret * i)

-- On the numbers up to `factorial_max`.
unfoldable pub factorial : ℕ → ℕ
unfolding factorial_loop
factorial n = factorial_loop n 1 1

unfoldable pub mark_all : ℕ → List ℕ → List Bool → Option (List Bool)
mark_all n [] aux = some aux
mark_all n (x ∷ xs) aux =
    let rest = mark_all n xs (set aux x true) in if leb n x then none else rest

unfoldable pub all_true : List Bool → Bool
all_true [] = true
all_true (b ∷ bs) = b && all_true bs

unfoldable pub isperm : List ℕ → Bool
unfolding mark_all all_true
isperm a =
    if ltb factorial_max (length a)
    then false
    else (elim (mark_all (length a) a (replicate (length a) false)) [
      | none ↦ false
      | some aux ↦ all_true aux
    ])

-- How many of the later entries are less.
unfoldable pub smaller_after : ℕ → List ℕ → ℕ
smaller_after x [] = 0
smaller_after x (y ∷ ys) = of_bool (ltb y x) + smaller_after x ys

unfoldable pub permtoindex_loop : List ℕ → ℕ → ℕ
unfolding smaller_after factorial
permtoindex_loop [] ret = ret
permtoindex_loop (x ∷ xs) ret =
    permtoindex_loop xs (ret + factorial (length xs) * smaller_after x xs)

unfoldable pub permtoindex : List ℕ → Option ℕ
unfolding permtoindex_loop isperm
permtoindex a = if isperm a then some (permtoindex_loop a 0) else none

-- The inner loop of `indextoperm`, on the rest of the marks `a`: the `j` where it stops.
unfoldable pub free_loop : List Bool → ℕ → ℕ → ℕ → ℕ
free_loop [] q j c = j
free_loop (used ∷ a) q j c =
    let rest = free_loop a q (j + 1) (c + of_bool (not used)) in if leb c q then rest else j

unfoldable pub indextoperm_loop : ℕ → List Bool → ℕ → List ℕ
unfolding free_loop factorial
indextoperm_loop zero a p = []
indextoperm_loop (suc left) a p =
    let r : ℕ = free_loop a (p / factorial left) 0 0 - 1 in
    r ∷ indextoperm_loop left (set a r true) (p % factorial left)

unfoldable pub indextoperm : ℕ → ℕ → List ℕ
unfolding indextoperm_loop isperm
indextoperm p n =
    let r = indextoperm_loop n (replicate n false) p in
    if ltb factorial_max n || leb (factorial n) p || not (isperm r)
    then replicate n uint8_error
    else r

unfoldable pub inversions : List ℕ → ℕ
unfolding smaller_after
inversions [] = 0
inversions (x ∷ xs) = smaller_after x xs + inversions xs

unfoldable pub permsign : List ℕ → ℕ
unfolding inversions
permsign a = inversions a % 2

unfoldable pub digits_loop : ℕ → List ℕ → ℕ → ℕ → ℕ → Option (ℕ × ℕ)
digits_loop b [] p sum ret = some (sum, ret)
digits_loop b (x ∷ xs) p sum ret =
    let rest = digits_loop b xs (p * b) (sum + x) (ret + p * x) in if leb b x then none else rest

unfoldable pub sizes_ok : ℕ → ℕ → Bool
sizes_ok n b = (n == 8 && b == 3) || (n == 12 && b == 2)

unfoldable pub digitstosumzero : List ℕ → ℕ → Option ℕ
unfolding digits_loop sizes_ok
digitstosumzero [] b = none
digitstosumzero (x ∷ xs) b = elim (digits_loop b xs 1 0 0) [
  | none ↦ none
  | some (sum, ret) ↦
      if sizes_ok (length (x ∷ xs)) b && ((sum + x) % b == 0) then some ret else none
]

-- The digits and their sum.
unfoldable pub sumzero_loop : ℕ → ℕ → ℕ → ℕ → List ℕ × ℕ
sumzero_loop zero b d sum = ([], sum)
sumzero_loop (suc left) b d sum =
    let (xs, total) = sumzero_loop left b (d / b) ((sum + d % b) % 2 ^ 8) in (d % b ∷ xs, total)

unfoldable pub sumzerotodigits : ℕ → ℕ → ℕ → List ℕ
unfolding sumzero_loop sizes_ok
sumzerotodigits d n b =
    let (xs, sum) = sumzero_loop (n - 1) b d 0 in
    if sizes_ok n b then ((b - sum % b) % b ∷ xs) else replicate n uint8_error
