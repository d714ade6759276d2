-- ===== src/Solvable.antt =====
-- `issolvable`, `getcube` and `getcube_fix` of src/core/cube.h.
pub mod Parity
pub mod Invariants
pub mod Made
pub mod Fixed
use h.Base.{
  ℕ, zero, suc, ◌+◌, ◌-◌, ◌*◌, ◌/◌, ◌%◌, ◌^◌, bit_and, bit_or, Bool, true, false, not, ◌&&◌, ◌||◌,
  List, [], ◌∷◌, Option, none, some, map, ◌==◌, ltb, leb, if◌then◌else◌, of_bool, get_or, set,
}
use h.Cube.{Cube, pbits, eobit, cobits, eoshift, coshift}
use h.Oriented.{OrientedCube}
use h.CubeText.{pieces, cubefromarray}
use h.Indices.{permsign, factorial, indextoperm, permtoindex, sumzerotodigits, digitstosumzero}

-- The loop that adds up the orientations in a `uint8_t`.
unfoldable pub add_orientations : ℕ → ℕ → List ℕ → ℕ → ℕ
add_orientations mask shift [] sum = sum
add_orientations mask shift (piece ∷ ps) sum =
    add_orientations mask shift ps ((sum + bit_and piece mask / 2 ^ shift) % 2 ^ 8)

unfoldable pub issolvable : OrientedCube → Bool
unfolding pieces permsign add_orientations
issolvable cube =
    let (corner, edge) = pieces cube.cube in
    let ep = map (λ piece. bit_and piece pbits) edge in
    let cp = map (λ piece. bit_and piece pbits) corner in
    if not (permsign ep == permsign cp)
    then false
    else if not (add_orientations eobit eoshift edge 0 % 2 == 0)
    then false
    else if not (add_orientations cobits coshift corner 0 % 3 == 0)
    then false
    else true

-- `xs[i] |= ys[i] << shift` on bytes.
unfoldable pub or_shifted : ℕ → List ℕ → List ℕ → List ℕ
or_shifted shift [] ys = []
or_shifted shift (x ∷ xs) [] = x ∷ xs
or_shifted shift (x ∷ xs) (y ∷ ys) = bit_or x (y * 2 ^ shift) % 2 ^ 8 ∷ or_shifted shift xs ys

-- On indices that are not negative.
unfoldable pub getcube : ℕ → ℕ → ℕ → ℕ → Cube
unfolding or_shifted indextoperm sumzerotodigits cubefromarray
getcube ep eo cp co =
    let eoarr = sumzerotodigits eo 12 2 in
    let earr = or_shifted eoshift (indextoperm ep 12) eoarr in
    let coarr = sumzerotodigits co 8 3 in
    let carr = or_shifted coshift (indextoperm cp 8) coarr in cubefromarray carr earr

abbrev pub fact_12 : ℕ
fact_12 = 479001600

abbrev pub pow_2_11 : ℕ
pow_2_11 = 2048

abbrev pub fact_8 : ℕ
fact_8 = 40320

abbrev pub pow_3_7 : ℕ
pow_3_7 = 2187

-- A `long long`: `pos n` is `n`, `negsuc n` is `-(n + 1)`.
pub data ℤ : Type 0 where
  pos : ℕ → ℤ
  negsuc : ℕ → ℤ

-- `(a % m + m) % m`, where the remainder of a negative number is not positive.
unfoldable pub wrap : ℤ → ℕ → ℕ
wrap (pos n) m = (n % m + m) % m
wrap (negsuc n) m = (m - (n + 1) % m) % m

pub record Indexes : Type 0 where
  pub ep : ℕ
  pub eo : ℕ
  pub cp : ℕ
  pub co : ℕ
  pub orien : ℕ

-- SWAP of the first two entries.
unfoldable pub swap_first : List ℕ → List ℕ
swap_first (x ∷ y ∷ xs) = y ∷ x ∷ xs
swap_first (x ∷ []) = x ∷ []
swap_first [] = []

-- The twists are computed from the corner permutation, whatever they were. `none` is for an index -1.
unfoldable pub getcube_fix : ℤ → ℤ → ℤ → ℤ → ℤ → Option Indexes
unfolding wrap swap_first indextoperm permsign permtoindex sumzerotodigits digitstosumzero
getcube_fix ep eo cp co orien =
    let ep' = wrap ep fact_12 in
    let eo' = wrap eo pow_2_11 in
    let cp' = wrap cp fact_8 in
    let co' = wrap (pos cp') pow_3_7 in
    let orien' = wrap orien 24 in
    let c = indextoperm cp' 8 in
    if not (permsign (indextoperm ep' 12) == permsign c)
    then (elim (permtoindex (swap_first c)) [
      | none ↦ none
      | some cp'' ↦ elim (digitstosumzero (swap_first (sumzerotodigits co' 8 3)) 3) [
        | none ↦ none
        | some co'' ↦ some (record { ep = ep'; eo = eo'; cp = cp''; co = co''; orien = orien' })
      ]
    ])
    else some (record { ep = ep'; eo = eo'; cp = cp'; co = co'; orien = orien' })
