-- ===== src/Coord/Pruning/Packed.antt =====
-- Two values in a byte: `get_coord_pval` and `set_coord_pval` of src/solvers/coord/gendata.h.
use h.Base.{
  ℕ, zero, suc, ◌-◌, ◌*◌, ◌/◌, ◌%◌, ◌^◌, ◌<◌, bit_and, bit_or, true, false, ◌&&◌, List, ◌≡◌, ◌≢◌,
  refl, sym, ap, ap₂, ◌∙◌, ◌==◌, if◌then◌else◌, length, get_or, set, get_or-set_self, get_or-set_ne,
  arith, ℕ_discrete, all_below, all_below₂_sound, ==_iff,
}
use h.Coord.Pruning.{get_coord_pval, set_coord_pval}

-- A half of a byte.
half : ℕ → ℕ → ℕ
half s b = bit_and b (0xF * 2 ^ (4 * s)) / 2 ^ (4 * s)

with_half : ℕ → ℕ → ℕ → ℕ
with_half s b v = bit_or (bit_and b (0xFF - 0xF * 2 ^ (4 * s))) (v * 2 ^ (4 * s)) % 2 ^ 8

halves :
    all_below 256 (λ b. all_below 16 (λ v.
      (half 0 (with_half 0 b v) == v)
      && ((half 1 (with_half 0 b v) == half 1 b)
          && ((half 1 (with_half 1 b v) == v) && (half 0 (with_half 1 b v) == half 0 b)))))
    ≡ true
unfolding all_below half with_half
halves = refl

halves_lem :
    (b v : ℕ)
    → b < 256
    → v < 16
    → (half 0 (with_half 0 b v) ≡ v)
      × (half 1 (with_half 0 b v) ≡ half 1 b)
      × (half 1 (with_half 1 b v) ≡ v)
      × (half 0 (with_half 1 b v) ≡ half 0 b)
halves_lem b v hb hv = ground (
  arith,
  all_below₂_sound 256 16
      (λ b. λ v.
        (half 0 (with_half 0 b v) == v)
        && ((half 1 (with_half 0 b v) == half 1 b)
            && ((half 1 (with_half 1 b v) == v) && (half 0 (with_half 1 b v) == half 0 b))))
      b v halves hb hv,
)

-- The value read at `s` after one written at `r`, both 0 or 1.
half-with_half :
    (s r b v : ℕ)
    → s < 2
    → r < 2
    → b < 256
    → v < 16
    → half s (with_half r b v) ≡ (if s == r then v else half s b)
half-with_half zero zero b v hs hr hb hv = (halves_lem b v hb hv).0
half-with_half (suc zero) zero b v hs hr hb hv = (halves_lem b v hb hv).1
half-with_half (suc zero) (suc zero) b v hs hr hb hv = (halves_lem b v hb hv).2
half-with_half zero (suc zero) b v hs hr hb hv = (halves_lem b v hb hv).3
half-with_half (suc (suc s)) r b v hs hr hb hv = absurd (omega arith)
half-with_half zero (suc (suc r)) b v hs hr hb hv = absurd (omega arith)
half-with_half (suc zero) (suc (suc r)) b v hs hr hb hv = absurd (omega arith)

different : (a b : ℕ) → a ≢ b → (a == b) ≡ false
different a b ne = ground (arith, ne)

same_place : (i j : ℕ) → i / 2 ≡ j / 2 → (j % 2 == i % 2) ≡ (j == i)
same_place i j e = elim (ℕ_discrete j i) [
  | yes p ↦ (==_iff (j % 2) (i % 2)).1 (ap (λ x. x % 2) p) ∙ sym ((==_iff j i).1 p)
  | no ne ↦ different (j % 2) (i % 2) (λ p. ne (omega (arith, e, p))) ∙ sym (different j i ne)
]

other_place : (i j : ℕ) → i / 2 ≢ j / 2 → (j == i) ≡ false
other_place i j ne = different j i (λ p. ne (ap (λ x. x / 2) (sym p)))

-- The value written at `i`, below 16, is read there, and the value at any other place is as before, in a table of
-- bytes that is long enough.
pub get_coord_pval-set_coord_pval :
    (table : List ℕ) (i j v : ℕ)
    → ((k : ℕ) → get_or table k 0 < 256)
    → i / 2 < length table
    → v < 16
    → get_coord_pval (set_coord_pval table i v) j ≡ (if j == i then v else get_coord_pval table j)
unfolding get_coord_pval set_coord_pval half with_half
get_coord_pval-set_coord_pval table i j v bytes room hv = elim (ℕ_discrete (i / 2) (j / 2)) [
  | yes e ↦
      let new = with_half (i % 2) (get_or table (i / 2) 0) v in
      let here : get_or (set table (i / 2) new) (j / 2) 0 ≡ new =
        ap (λ k. get_or (set table (i / 2) new) k 0) (sym e)
        ∙ get_or-set_self table (i / 2) new 0 room in
      let old : half (j % 2) (get_or table (i / 2) 0) ≡ get_coord_pval table j =
        ap (λ k. half (j % 2) (get_or table k 0)) e in
      ap (half (j % 2)) here
      ∙ half-with_half (j % 2) (i % 2) (get_or table (i / 2) 0) v (omega arith) (omega arith)
          (bytes (i / 2)) hv
      ∙ ap₂ (λ b x. if b then v else x) (same_place i j e) old
  | no ne ↦
      let away : get_or (set table (i / 2) (with_half (i % 2) (get_or table (i / 2) 0) v)) (j / 2) 0
          ≡ get_or table (j / 2) 0 =
        get_or-set_ne table (i / 2) (j / 2) _ 0 ne in
      ap (half (j % 2)) away
      ∙ ap (λ b. if b then v else get_coord_pval table j) (sym (other_place i j ne))
]
