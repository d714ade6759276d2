-- ===== src/Tests/Indices.antt =====
-- Runs of the index functions, and their theorems at concrete inputs.
use h.Base.{ℕ, ◌<◌, List, [], ◌∷◌, none, some, ◌≡◌, refl, arith, true, length}
use h.Indices.{
  isperm, permtoindex, indextoperm, permsign, digitstosumzero, sumzerotodigits, factorial,
}
use h.Indices.Codes.Inverse.{permtoindex-indextoperm, indextoperm-permtoindex}

abbrev twisted : List ℕ
twisted = 2 ∷ 0 ∷ 3 ∷ 1 ∷ []

abbrev flips : List ℕ
flips = 1 ∷ 0 ∷ 1 ∷ 1 ∷ 0 ∷ 0 ∷ 1 ∷ 0 ∷ 0 ∷ 0 ∷ 0 ∷ 0 ∷ []

index_of_twisted :
    (permtoindex twisted ≡ some 13) × (indextoperm 13 4 ≡ twisted) × (permsign twisted ≡ 1)
unfolding permtoindex indextoperm permsign
index_of_twisted = (refl, refl, refl)

errors : (permtoindex (0 ∷ 0 ∷ []) ≡ none) × (indextoperm 24 4 ≡ 255 ∷ 255 ∷ 255 ∷ 255 ∷ [])
unfolding permtoindex indextoperm
errors = (refl, refl)

digits_of_flips : (digitstosumzero flips 2 ≡ some 38) × (sumzerotodigits 38 12 2 ≡ flips)
unfolding digitstosumzero sumzerotodigits
digits_of_flips = (refl, refl)

-- The first digit is not compared with the base.
first_unchecked : digitstosumzero (3 ∷ 0 ∷ 0 ∷ 0 ∷ 0 ∷ 0 ∷ 0 ∷ 0 ∷ []) 3 ≡ some 0
unfolding digitstosumzero
first_unchecked = refl

thirteen : 13 < factorial 4
unfolding factorial
thirteen = omega arith

permtoindex-indextoperm_example :
    (isperm (indextoperm 13 4) ≡ true)
    × (length (indextoperm 13 4) ≡ 4)
    × (permtoindex (indextoperm 13 4) ≡ some 13)
permtoindex-indextoperm_example = permtoindex-indextoperm 13 4 (omega arith) thirteen

indextoperm-permtoindex_example : indextoperm 13 4 ≡ twisted
unfolding permtoindex
indextoperm-permtoindex_example = indextoperm-permtoindex twisted 13 refl
