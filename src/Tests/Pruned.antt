-- ===== src/Tests/Pruned.antt =====
-- The packed values of a pruning table at concrete inputs.
use h.Base.{ℕ, zero, suc, ◌<◌, List, [], ◌∷◌, ◌≡◌, refl, get_or, if◌then◌else◌, ◌==◌, arith}
use h.Coord.Pruning.{get_coord_pval, set_coord_pval, popcount_u32}
use h.Coord.Pruning.Packed.{get_coord_pval-set_coord_pval}

abbrev three_bytes : List ℕ
three_bytes = 255 ∷ 18 ∷ 255 ∷ []

three_bytes_small : (k : ℕ) → get_or three_bytes k 0 < 256
three_bytes_small zero = omega arith
three_bytes_small (suc zero) = omega arith
three_bytes_small (suc (suc zero)) = omega arith
three_bytes_small (suc (suc (suc k))) = omega arith

packed : (set_coord_pval three_bytes 3 7 ≡ 255 ∷ 114 ∷ 255 ∷ []) × (popcount_u32 32 0x3FFFF ≡ 18)
unfolding set_coord_pval popcount_u32
packed = (refl, refl)

get_coord_pval-set_coord_pval_example :
    get_coord_pval (set_coord_pval three_bytes 3 7) 2
    ≡ (if 2 == 3 then 7 else get_coord_pval three_bytes 2)
get_coord_pval-set_coord_pval_example =
    get_coord_pval-set_coord_pval three_bytes 3 2 7 three_bytes_small (omega arith) (omega arith)
