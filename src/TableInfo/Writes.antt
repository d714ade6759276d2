-- ===== src/TableInfo/Writes.antt =====
-- Writes to separate places of a buffer, for the fields of src/solvers/tables.h.
use h.Base.{
  leb→le, ℕ, zero, suc, ◌+◌, ◌*◌, ◌^◌, ◌<◌, ◌≤◌, Bool, true, false, ◌||◌, ◌&&◌, List, [], ◌∷◌, ◌≡◌,
  refl, ap, ap₂, ◌∙◌, leb, get_or, length, arith, ◌⊎◌, inl, inr,
}
use h.TableInfo.{
  write_bytes, read_bytes, to_bytes, from_bytes, read_unaligned_u64, write_unaligned_u64,
  read_distribution, write_distribution,
}
use h.TableInfo.Bytes.{length-write_bytes, read_bytes-other, read_bytes-write_bytes, read-write_u64}

-- Bytes for a place of a fixed width.
pub record Write : Type 0 where
  pub at : ℕ
  pub width : ℕ
  pub bytes : List ℕ

unfoldable pub write_all : List Write → List ℕ → List ℕ
write_all [] buf = buf
write_all (w ∷ ws) buf = write_all ws (write_bytes buf w.at w.bytes)

unfoldable pub AreSized : List Write → Type 0
AreSized [] = Unit {0}
AreSized (w ∷ ws) = (length w.bytes ≡ w.width) × AreSized ws

-- No write touches the `n` bytes from `k` on.
unfoldable pub apart : ℕ → ℕ → List Write → Bool
apart k n [] = true
apart k n (w ∷ ws) = (leb (k + n) w.at || leb (w.at + w.width) k) && apart k n ws

-- No write touches another.
unfoldable pub separate : List Write → Bool
separate [] = true
separate (w ∷ ws) = apart w.at w.width ws && separate ws

unfoldable pub within : ℕ → List Write → Bool
within m [] = true
within m (w ∷ ws) = leb (w.at + w.width) m && within m ws

both : (a b : Bool) → (a && b) ≡ true → (a ≡ true) × (b ≡ true)
both a b h = ground arith

one_of : (a b : Bool) → (a || b) ≡ true → (a ≡ true) ⊎ (b ≡ true)
one_of true b h = inl refl
one_of false b h = inr h

apart_parts :
    (k n at width : ℕ) (rest : Bool)
    → ((leb (k + n) at || leb (at + width) k) && rest) ≡ true
    → ((k + n ≤ at) ⊎ (at + width ≤ k)) × (rest ≡ true)
apart_parts k n at width rest h =
    let (here, after) = both (leb (k + n) at || leb (at + width) k) rest h in
    elim (one_of _ _ here) [
      | inl before ↦ (inl (leb→le _ _ before), after)
      | inr behind ↦ (inr (leb→le _ _ behind), after)
    ]

-- All writes are from `m` on.
unfoldable pub behind : ℕ → List Write → Bool
behind m [] = true
behind m (w ∷ ws) = leb m w.at && behind m ws

behind-apart : (ws : List Write) (k m : ℕ) → k + 8 ≤ m → behind m ws ≡ true → apart k 8 ws ≡ true
unfolding behind apart
behind-apart [] k m h e = refl
behind-apart (w ∷ ws) k m h e =
    let (here, after) = both (leb m w.at) (behind m ws) e in
    let before : leb (k + 8) w.at ≡ true = ground (arith, leb→le _ _ here) in
    rw before (behind-apart ws k m h after)

pub length-write_all : (ws : List Write) (buf : List ℕ) → length (write_all ws buf) ≡ length buf
unfolding write_all
length-write_all [] buf = refl
length-write_all (w ∷ ws) buf = length-write_all ws _ ∙ length-write_bytes buf w.at w.bytes

read_bytes-write_all :
    (ws : List Write) (buf : List ℕ) (k n : ℕ)
    → AreSized ws
    → apart k n ws ≡ true
    → read_bytes (write_all ws buf) k n ≡ read_bytes buf k n
unfolding write_all AreSized apart
read_bytes-write_all [] buf k n s h = refl
read_bytes-write_all (w ∷ ws) buf k n s h =
    let (here, rest) = apart_parts k n w.at w.width (apart k n ws) h in
    read_bytes-write_all ws (write_bytes buf w.at w.bytes) k n s.1 rest
    ∙ read_bytes-other buf w.at w.bytes k n (omega (arith, here, s.0))

abbrev pub no_write : Write
no_write = record { at = 0; width = 0; bytes = [] }

-- Every write can be read back.
pub read_bytes-written :
    (ws : List Write) (buf : List ℕ) (m j : ℕ)
    → j < length ws
    → AreSized ws
    → separate ws ≡ true
    → within m ws ≡ true
    → m ≤ length buf
    → read_bytes (write_all ws buf) (get_or ws j no_write).at (get_or ws j no_write).width
      ≡ (get_or ws j no_write).bytes
unfolding write_all AreSized separate within
read_bytes-written [] buf m j h s d i room = absurd (omega arith)
read_bytes-written (w ∷ ws) buf m zero h s d i room =
    read_bytes-write_all ws (write_bytes buf w.at w.bytes) w.at w.width s.1
      (both (apart w.at w.width ws) (separate ws) d).0
    ∙ read_bytes-write_bytes buf w.at w.bytes w.width s.0
        (omega (arith, leb→le _ _ (both (leb (w.at + w.width) m) (within m ws) i).0))
read_bytes-written (w ∷ ws) buf m (suc j) h s d i room =
    read_bytes-written ws (write_bytes buf w.at w.bytes) m j (omega arith) s.1
      (both (apart w.at w.width ws) (separate ws) d).1
      (both (leb (w.at + w.width) m) (within m ws) i).1
      (omega (arith, length-write_bytes buf w.at w.bytes))

unfoldable pub AreWords : List ℕ → Type 0
AreWords [] = Unit {0}
AreWords (x ∷ xs) = (x < 2 ^ 64) × AreWords xs

pub length-write_distribution :
    (xs : List ℕ) (buf : List ℕ) (i : ℕ) → length (write_distribution buf i xs) ≡ length buf
unfolding write_distribution write_unaligned_u64
length-write_distribution [] buf i = refl
length-write_distribution (x ∷ xs) buf i =
    length-write_distribution xs (write_unaligned_u64 buf i x) (i + 8)
    ∙ length-write_bytes buf i (to_bytes 8 x)

-- What stands before the words that are written stays.
read-write_distribution_before :
    (xs : List ℕ) (buf : List ℕ) (i k : ℕ)
    → k + 8 ≤ i
    → read_unaligned_u64 (write_distribution buf i xs) k ≡ read_unaligned_u64 buf k
unfolding write_distribution write_unaligned_u64 read_unaligned_u64
read-write_distribution_before [] buf i k h = refl
read-write_distribution_before (x ∷ xs) buf i k h =
    read-write_distribution_before xs (write_unaligned_u64 buf i x) (i + 8) k (omega arith)
    ∙ ap from_bytes (read_bytes-other buf i (to_bytes 8 x) k 8 (inl h))

length-write_u64 : (buf : List ℕ) (i x : ℕ) → length (write_unaligned_u64 buf i x) ≡ length buf
unfolding write_unaligned_u64
length-write_u64 buf i x = length-write_bytes buf i (to_bytes 8 x)

pub read-write_distribution :
    (xs : List ℕ) (buf : List ℕ) (i : ℕ)
    → AreWords xs
    → i + 8 * length xs ≤ length buf
    → read_distribution (write_distribution buf i xs) i (length xs) ≡ xs
unfolding write_distribution read_distribution AreWords
read-write_distribution [] buf i w room = refl
read-write_distribution (x ∷ xs) buf i w room =
    ap₂ ◌∷◌
      (read-write_distribution_before xs (write_unaligned_u64 buf i x) (i + 8) i (omega arith)
        ∙ read-write_u64 buf i x (omega arith) w.0)
      (read-write_distribution xs (write_unaligned_u64 buf i x) (i + 8) w.1 (length_u64 room))
  where
    length_u64 :
        i + 8 * length (x ∷ xs) ≤ length buf
        → i + 8 + 8 * length xs ≤ length (write_unaligned_u64 buf i x)
    length_u64 room = omega (arith, length-write_u64 buf i x)

-- The distribution under the other writes.
pub read_distribution-write_all :
    (ws : List Write) (buf : List ℕ) (k n m : ℕ)
    → AreSized ws
    → behind m ws ≡ true
    → k + 8 * n ≤ m
    → read_distribution (write_all ws buf) k n ≡ read_distribution buf k n
unfolding read_distribution read_unaligned_u64
read_distribution-write_all ws buf k zero m s h room = refl
read_distribution-write_all ws buf k (suc n) m s h room =
    ap₂ ◌∷◌
      (ap from_bytes (read_bytes-write_all ws buf k 8 s (behind-apart ws k m (omega arith) h)))
      (read_distribution-write_all ws buf (k + 8) n m s h (omega arith))
