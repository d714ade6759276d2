-- ===== src/TableInfo/Bytes.antt =====
-- Bytes written into a buffer, read back and kept apart.
use h.Base.{
  ℕ, zero, suc, ◌+◌, ◌*◌, ◌/◌, ◌^◌, ◌<◌, ◌≤◌, List, [], ◌∷◌, ◌≡◌, refl, ap, ap₂, ◌∙◌, get_or, set,
  length, length-set, get_or-set_self, get_or-set_ne, arith, ◌⊎◌, inl,
}
use native.Mathlib.Nat.{pow-suc}
use h.TableInfo.{
  write_bytes, read_bytes, to_bytes, from_bytes, read_unaligned_u64, write_unaligned_u64,
}

pub length-write_bytes :
    (buf : List ℕ) (i : ℕ) (bs : List ℕ) → length (write_bytes buf i bs) ≡ length buf
unfolding write_bytes
length-write_bytes buf i [] = refl
length-write_bytes buf i (b ∷ bs) = length-write_bytes (set buf i b) (i + 1) bs ∙ length-set buf i b

-- A byte outside of what is written stays.
pub get_or-write_bytes :
    (buf : List ℕ) (i : ℕ) (bs : List ℕ) (k : ℕ)
    → (k < i) ⊎ (i + length bs ≤ k)
    → get_or (write_bytes buf i bs) k 0 ≡ get_or buf k 0
unfolding write_bytes
get_or-write_bytes buf i [] k h = refl
get_or-write_bytes buf i (b ∷ bs) k h =
    get_or-write_bytes (set buf i b) (i + 1) bs k (omega (arith, h))
    ∙ get_or-set_ne buf i k b 0 (λ e. omega (arith, h))

-- Reading elsewhere is not affected.
pub read_bytes-other :
    (buf : List ℕ) (i : ℕ) (bs : List ℕ) (k n : ℕ)
    → (k + n ≤ i) ⊎ (i + length bs ≤ k)
    → read_bytes (write_bytes buf i bs) k n ≡ read_bytes buf k n
unfolding read_bytes
read_bytes-other buf i bs k zero h = refl
read_bytes-other buf i bs k (suc n) h =
    ap₂ ◌∷◌ (get_or-write_bytes buf i bs k (omega (arith, h)))
      (read_bytes-other buf i bs (k + 1) n (omega (arith, h)))

-- What was written is read back.
pub read_bytes-write_bytes :
    (buf : List ℕ) (i : ℕ) (bs : List ℕ) (n : ℕ)
    → length bs ≡ n
    → i + n ≤ length buf
    → read_bytes (write_bytes buf i bs) i n ≡ bs
unfolding read_bytes write_bytes
read_bytes-write_bytes buf i [] zero e h = refl
read_bytes-write_bytes buf i [] (suc n) e h = absurd (omega (arith, e))
read_bytes-write_bytes buf i (b ∷ bs) zero e h = absurd (omega (arith, e))
read_bytes-write_bytes buf i (b ∷ bs) (suc n) e h =
    ap₂ ◌∷◌
      (get_or-write_bytes (set buf i b) (i + 1) bs i (inl (omega arith))
        ∙ get_or-set_self buf i b 0 (omega arith))
      (read_bytes-write_bytes (set buf i b) (i + 1) bs n (omega (arith, e))
        (omega (arith, length-set buf i b)))

pub length-to_bytes : (n x : ℕ) → length (to_bytes n x) ≡ n
unfolding to_bytes
length-to_bytes zero x = refl
length-to_bytes (suc n) x = ap suc (length-to_bytes n (x / 2 ^ 8))

pub from_bytes-to_bytes : (n x : ℕ) → x < 256 ^ n → from_bytes (to_bytes n x) ≡ x
unfolding from_bytes to_bytes
from_bytes-to_bytes zero x h = let one : 256 ^ 0 ≡ 1 = refl in omega arith
from_bytes-to_bytes (suc n) x h =
    let p : 256 ^ suc n ≡ 256 ^ n * 256 = pow-suc 256 n in
    omega (arith, from_bytes-to_bytes n (x / 2 ^ 8) (omega arith))

pub read-write_u64 :
    (buf : List ℕ) (i x : ℕ)
    → i + 8 ≤ length buf
    → x < 2 ^ 64
    → read_unaligned_u64 (write_unaligned_u64 buf i x) i ≡ x
unfolding read_unaligned_u64 write_unaligned_u64
read-write_u64 buf i x h small =
    ap from_bytes (read_bytes-write_bytes buf i (to_bytes 8 x) 8 (length-to_bytes 8 x) h)
    ∙ from_bytes-to_bytes 8 x small
