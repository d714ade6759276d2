-- ===== src/TableInfo.antt =====
-- The header of a table: src/solvers/tables.h and tables_types_macros.h. A buffer is the list of its
-- bytes; a word is stored as on a little endian machine. A buffer is never NULL, and a read past its end
-- gives 0.
pub mod Bytes
pub mod Writes
pub mod Roundtrip
use h.Base.{
  ℕ, zero, suc, ◌+◌, ◌-◌, ◌*◌, ◌/◌, ◌%◌, ◌^◌, Bool, true, false, ◌||◌, List, [], ◌∷◌, Option, none,
  some, ◌==◌, ltb, if◌then◌else◌, get_or, set, length,
}

abbrev pub infosize : ℕ
infosize = 512

abbrev pub info_solver_strlen : ℕ
info_solver_strlen = 100

abbrev pub info_distribution_len : ℕ
info_distribution_len = 21

abbrev pub info_offset_type : ℕ
info_offset_type = 168

abbrev pub info_offset_infosize : ℕ
info_offset_infosize = 176

abbrev pub info_offset_fullsize : ℕ
info_offset_fullsize = 184

abbrev pub info_offset_hash : ℕ
info_offset_hash = 192

abbrev pub info_offset_entries : ℕ
info_offset_entries = 200

abbrev pub info_offset_classes : ℕ
info_offset_classes = 208

abbrev pub info_offset_next : ℕ
info_offset_next = 216

abbrev pub info_offset_solver : ℕ
info_offset_solver = 224

abbrev pub info_offset_h48h : ℕ
info_offset_h48h = 324

abbrev pub info_offset_bits : ℕ
info_offset_bits = 325

abbrev pub info_offset_base : ℕ
info_offset_base = 326

abbrev pub info_offset_maxvalue : ℕ
info_offset_maxvalue = 327

pub record Info : Type 0 where
  pub distribution : List ℕ
  pub type : ℕ
  pub size : ℕ
  pub fullsize : ℕ
  pub hash : ℕ
  pub entries : ℕ
  pub classes : ℕ
  pub next : ℕ
  pub solver : List ℕ
  pub h48h : ℕ
  pub bits : ℕ
  pub base : ℕ
  pub maxvalue : ℕ

-- `memcpy` of `bytes` into the buffer at index `i`.
unfoldable pub write_bytes : List ℕ → ℕ → List ℕ → List ℕ
write_bytes buf i [] = buf
write_bytes buf i (b ∷ bytes) = write_bytes (set buf i b) (i + 1) bytes

-- `memcpy` of `n` bytes of the buffer from index `i`.
unfoldable pub read_bytes : List ℕ → ℕ → ℕ → List ℕ
read_bytes buf i zero = []
read_bytes buf i (suc n) = get_or buf i 0 ∷ read_bytes buf (i + 1) n

-- The bytes of a number, the lowest first.
unfoldable pub to_bytes : ℕ → ℕ → List ℕ
to_bytes zero x = []
to_bytes (suc n) x = x % 2 ^ 8 ∷ to_bytes n (x / 2 ^ 8)

unfoldable pub from_bytes : List ℕ → ℕ
from_bytes [] = 0
from_bytes (b ∷ bytes) = b + 2 ^ 8 * from_bytes bytes

unfoldable pub read_unaligned_u64 : List ℕ → ℕ → ℕ
unfolding read_bytes from_bytes
read_unaligned_u64 buf i = from_bytes (read_bytes buf i 8)

unfoldable pub write_unaligned_u64 : List ℕ → ℕ → ℕ → List ℕ
unfolding write_bytes to_bytes
write_unaligned_u64 buf i x = write_bytes buf i (to_bytes 8 x)

-- The loop over the distribution, with `left` rounds to go.
unfoldable pub read_distribution : List ℕ → ℕ → ℕ → List ℕ
unfolding read_unaligned_u64
read_distribution buf i zero = []
read_distribution buf i (suc left) = read_unaligned_u64 buf i ∷ read_distribution buf (i + 8) left

unfoldable pub write_distribution : List ℕ → ℕ → List ℕ → List ℕ
unfolding write_unaligned_u64
write_distribution buf i [] = buf
write_distribution buf i (x ∷ xs) = write_distribution (write_unaligned_u64 buf i x) (i + 8) xs

-- `none` is NISSY_ERROR_BUFFER_SIZE.
unfoldable pub readtableinfo : ℕ → List ℕ → Option Info
unfolding read_distribution read_unaligned_u64 read_bytes
readtableinfo buf_size buf =
    if ltb buf_size infosize
    then none
    else some (record {
      distribution = read_distribution buf 0 info_distribution_len;
      type = read_unaligned_u64 buf info_offset_type;
      size = read_unaligned_u64 buf info_offset_infosize;
      fullsize = read_unaligned_u64 buf info_offset_fullsize;
      hash = read_unaligned_u64 buf info_offset_hash;
      entries = read_unaligned_u64 buf info_offset_entries;
      classes = read_unaligned_u64 buf info_offset_classes;
      next = read_unaligned_u64 buf info_offset_next;
      solver = read_bytes buf info_offset_solver info_solver_strlen;
      h48h = get_or buf info_offset_h48h 0;
      bits = get_or buf info_offset_bits 0;
      base = get_or buf info_offset_base 0;
      maxvalue = get_or buf info_offset_maxvalue 0;
    })

-- The bytes from index `i` on.
unfoldable pub skip : ℕ → List ℕ → List ℕ
skip zero buf = buf
skip (suc i) [] = []
skip (suc i) (b ∷ buf) = skip i buf

-- The table after `n - 1` others, each found by the `next` of the one before; `info` is what was read
-- last. The size that is left is a `size_t`.
unfoldable pub readtableinfo_n : ℕ → List ℕ → ℕ → Info → Option Info
unfolding readtableinfo skip
readtableinfo_n buf_size buf zero info = some info
readtableinfo_n buf_size buf (suc n) info = elim (readtableinfo buf_size buf) [
  | none ↦ none
  | some i ↦ readtableinfo_n ((buf_size + 2 ^ 64 - i.next) % 2 ^ 64) (skip i.next buf) n i
]

-- The loop that zeroes all characters after the end of the string.
unfoldable pub end_string : Bool → List ℕ → List ℕ
end_string end [] = []
end_string end (c ∷ cs) =
    let end' : Bool = end || c == 0 in (if end' then 0 else c) ∷ end_string end' cs

unfoldable pub writetableinfo : Info → ℕ → List ℕ → Option (List ℕ)
unfolding write_distribution write_unaligned_u64 write_bytes end_string
writetableinfo info data_size buf =
    let b0 = write_distribution buf 0 info.distribution in
    let b1 = write_unaligned_u64 b0 info_offset_type info.type in
    let b2 = write_unaligned_u64 b1 info_offset_infosize info.size in
    let b3 = write_unaligned_u64 b2 info_offset_fullsize info.fullsize in
    let b4 = write_unaligned_u64 b3 info_offset_hash info.hash in
    let b5 = write_unaligned_u64 b4 info_offset_entries info.entries in
    let b6 = write_unaligned_u64 b5 info_offset_classes info.classes in
    let b7 = write_unaligned_u64 b6 info_offset_next info.next in
    let b8 = write_bytes b7 info_offset_solver (end_string false info.solver) in
    let b9 = set b8 info_offset_h48h info.h48h in
    let b10 = set b9 info_offset_bits info.bits in
    let b11 = set b10 info_offset_base info.base in
    let b12 = set b11 info_offset_maxvalue info.maxvalue in
    if ltb data_size info.fullsize then none else some b12
