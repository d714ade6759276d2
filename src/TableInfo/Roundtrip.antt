-- ===== src/TableInfo/Roundtrip.antt =====
-- A header that is written is read back: src/solvers/tables.h.
use h.Base.{
  subst, ℕ, suc, ◌^◌, ◌<◌, ◌≤◌, Bool, false, List, [], ◌∷◌, some, ◌≡◌, refl, sym, ap, ◌∙◌, ltb,
  get_or, length, arith,
}
use h.TableInfo.{
  Info, read_bytes, to_bytes, from_bytes, read_unaligned_u64, read_distribution, write_distribution,
  readtableinfo, writetableinfo, end_string,
}
use h.TableInfo.Bytes.{length-to_bytes, from_bytes-to_bytes}
use h.TableInfo.Writes.{
  Write, write_all, AreSized, apart, separate, within, behind, length-write_all, no_write,
  read_bytes-written, AreWords, length-write_distribution, read-write_distribution,
  read_distribution-write_all,
}

-- The writes of `writetableinfo` after the distribution.
fields : Info → List Write
fields info =
    record { at = 168; width = 8; bytes = to_bytes 8 info.type }
    ∷ record { at = 176; width = 8; bytes = to_bytes 8 info.size }
    ∷ record { at = 184; width = 8; bytes = to_bytes 8 info.fullsize }
    ∷ record { at = 192; width = 8; bytes = to_bytes 8 info.hash }
    ∷ record { at = 200; width = 8; bytes = to_bytes 8 info.entries }
    ∷ record { at = 208; width = 8; bytes = to_bytes 8 info.classes }
    ∷ record { at = 216; width = 8; bytes = to_bytes 8 info.next }
    ∷ record { at = 224; width = 100; bytes = end_string false info.solver }
    ∷ record { at = 324; width = 1; bytes = info.h48h ∷ [] }
    ∷ record { at = 325; width = 1; bytes = info.bits ∷ [] }
    ∷ record { at = 326; width = 1; bytes = info.base ∷ [] }
    ∷ record { at = 327; width = 1; bytes = info.maxvalue ∷ [] }
    ∷ []

writetableinfo-fields :
    (info : Info) (n : ℕ) (buf : List ℕ)
    → info.fullsize ≤ n
    → writetableinfo info n buf
      ≡ some (write_all (fields info) (write_distribution buf 0 info.distribution))
unfolding writetableinfo write_all fields
writetableinfo-fields info n buf h =
    let room : ltb n info.fullsize ≡ false = ground arith in rw (writetableinfo, room) refl

length-end_string : (cs : List ℕ) (end : Bool) → length (end_string end cs) ≡ length cs
unfolding end_string
length-end_string [] end = refl
length-end_string (c ∷ cs) end = ap suc (length-end_string cs _)

-- The sizes of the fields.
pub record IsInfo (info : Info) : Type 0 where
  pub distribution_size : length info.distribution ≡ 21
  pub distribution_words : AreWords info.distribution
  pub type : info.type < 2 ^ 64
  pub size : info.size < 2 ^ 64
  pub fullsize : info.fullsize < 2 ^ 64
  pub hash : info.hash < 2 ^ 64
  pub entries : info.entries < 2 ^ 64
  pub classes : info.classes < 2 ^ 64
  pub next : info.next < 2 ^ 64
  pub solver_size : length info.solver ≡ 100

module _ (info : Info) (h : IsInfo info) (buf : List ℕ) (room : 512 ≤ length buf) where
  start : List ℕ
  start = write_distribution buf 0 info.distribution

  length-start : length start ≡ length buf
  unfolding start
  length-start = length-write_distribution info.distribution buf 0

  written : List ℕ
  written = write_all (fields info) start

  length-written : length written ≡ length buf
  unfolding written
  length-written = length-write_all (fields info) start ∙ length-start

  sized : AreSized (fields info)
  unfolding AreSized fields
  sized = (
    length-to_bytes 8 info.type,
    (
      length-to_bytes 8 info.size,
      (
        length-to_bytes 8 info.fullsize,
        (
          length-to_bytes 8 info.hash,
          (
            length-to_bytes 8 info.entries,
            (
              length-to_bytes 8 info.classes,
              (
                length-to_bytes 8 info.next,
                (
                  length-end_string info.solver false ∙ h.solver_size,
                  (refl, (refl, (refl, (refl, tt)))),
                ),
              ),
            ),
          ),
        ),
      ),
    ),
  )

  field_read :
      (j : ℕ)
      → j < 12
      → read_bytes written
          (get_or (fields info) j no_write).at
          (get_or (fields info) j no_write).width
        ≡ (get_or (fields info) j no_write).bytes
  unfolding fields separate apart within written
  field_read j lt =
      read_bytes-written (fields info) start 328 j lt sized refl refl (omega (arith, length-start))

  word_read :
      (j k x : ℕ)
      → j < 12
      → get_or (fields info) j no_write ≡ record { at = k; width = 8; bytes = to_bytes 8 x }
      → x < 2 ^ 64
      → read_unaligned_u64 written k ≡ x
  unfolding read_unaligned_u64
  word_read j k x lt e small =
      ap from_bytes (subst (λ w. read_bytes written w.at w.width ≡ w.bytes) e (field_read j lt))
      ∙ from_bytes-to_bytes 8 x small

  byte_read :
      (j k x : ℕ)
      → j < 12
      → get_or (fields info) j no_write ≡ record { at = k; width = 1; bytes = x ∷ [] }
      → get_or written k 0 ≡ x
  unfolding read_bytes
  byte_read j k x lt e =
      ap (λ t. get_or t 0 0)
        (subst (λ w. read_bytes written w.at w.width ≡ w.bytes) e (field_read j lt))

  distribution_read : read_distribution written 0 21 ≡ info.distribution
  unfolding behind fields written start
  distribution_read =
      read_distribution-write_all (fields info) start 0 21 168 sized refl (omega arith)
      ∙ ap (read_distribution start 0) (sym h.distribution_size)
      ∙ read-write_distribution info.distribution buf 0 h.distribution_words
          (omega (arith, h.distribution_size))

  readtableinfo-written :
      (n : ℕ)
      → 512 ≤ n
      → readtableinfo n written ≡ some (record info { solver = end_string false info.solver })
  unfolding readtableinfo fields
  readtableinfo-written n big =
      let fits : ltb n 512 ≡ false = ground arith in
      rw
        (
          readtableinfo,
          fits,
          distribution_read,
          word_read 0 168 info.type (omega arith) refl h.type,
          word_read 1 176 info.size (omega arith) refl h.size,
          word_read 2 184 info.fullsize (omega arith) refl h.fullsize,
          word_read 3 192 info.hash (omega arith) refl h.hash,
          word_read 4 200 info.entries (omega arith) refl h.entries,
          word_read 5 208 info.classes (omega arith) refl h.classes,
          word_read 6 216 info.next (omega arith) refl h.next,
          field_read 7 (omega arith),
          byte_read 8 324 info.h48h (omega arith) refl,
          byte_read 9 325 info.bits (omega arith) refl,
          byte_read 10 326 info.base (omega arith) refl,
          byte_read 11 327 info.maxvalue (omega arith) refl,
        )
        refl

-- A header whose words are below 2^64, with 21 entries of the distribution and 100 characters of the
-- solver's name, written into a buffer of at least 512 bytes and of the size that it gives, is read back
-- from the buffer, which keeps its length; the characters after the end of the name are zero then.
pub readtableinfo-writetableinfo :
    (info : Info) (n : ℕ) (buf : List ℕ)
    → IsInfo info
    → 512 ≤ length buf
    → 512 ≤ n
    → info.fullsize ≤ n
    → (b : List ℕ) × (writetableinfo info n buf ≡ some b)
      × (length b ≡ length buf)
      × (readtableinfo n b ≡ some (record info { solver = end_string false info.solver }))
unfolding written start
readtableinfo-writetableinfo info n buf h room big size = (
  written info h buf room,
  writetableinfo-fields info n buf size,
  length-written info h buf room,
  readtableinfo-written info h buf room n big,
)
