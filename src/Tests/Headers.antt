-- ===== src/Tests/Headers.antt =====
-- Headers of tables, written and read: src/solvers/tables.h.
use h.Base.{ℕ, zero, suc, List, [], ◌∷◌, none, some, length, ◌≡◌, refl, arith, false}
use h.TableInfo.{Info, readtableinfo, writetableinfo, end_string}
use h.TableInfo.Roundtrip.{readtableinfo-writetableinfo, IsInfo}
use h.TableInfo.Writes.{AreWords}

copies : ℕ → ℕ → List ℕ
copies zero x = []
copies (suc n) x = x ∷ copies n x

abbrev eo_header : Info
eo_header = record {
  distribution = 1 ∷ 2 ∷ 25 ∷ copies 18 0;
  type = 0;
  size = 512;
  fullsize = 1536;
  hash = 12345678901234;
  entries = 2048;
  classes = 140;
  next = 0;
  solver = 69 ∷ 79 ∷ 0 ∷ copies 97 1;
  h48h = 0;
  bits = 4;
  base = 0;
  maxvalue = 7;
}

too_small :
    (writetableinfo eo_header 1535 (copies 512 0) ≡ none)
    × (readtableinfo 511 (copies 511 0) ≡ none)
unfolding writetableinfo readtableinfo
too_small = (refl, refl)

eo_header-IsInfo : IsInfo eo_header
unfolding AreWords copies
eo_header-IsInfo = record {
  distribution_size = refl;
  distribution_words = ground arith;
  type = omega arith;
  size = omega arith;
  fullsize = omega arith;
  hash = omega arith;
  entries = omega arith;
  classes = omega arith;
  next = omega arith;
  solver_size = refl;
}

readtableinfo-writetableinfo_example :
    (b : List ℕ) × (writetableinfo eo_header 1536 (copies 512 255) ≡ some b)
    × (length b ≡ length (copies 512 255))
    × (readtableinfo 1536 b
        ≡ some (record eo_header { solver = end_string false eo_header.solver }))
unfolding copies
readtableinfo-writetableinfo_example =
    readtableinfo-writetableinfo eo_header 1536 (copies 512 255) eo_header-IsInfo (omega arith)
      (omega arith) (omega arith)
