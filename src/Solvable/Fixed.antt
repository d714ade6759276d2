-- ===== src/Solvable/Fixed.antt =====
-- `getcube_fix` of src/core/cube.h: the indices that it makes of any others.
use h.Base.{
  of_bool, ltb, subst, ℕ, zero, suc, ◌+◌, ◌-◌, ◌/◌, ◌%◌, ◌<◌, ◌≤◌, true, false, List, [], ◌∷◌, some,
  ◌≡◌, ◌≢◌, refl, sym, ap, ◌∙◌, ◌==◌, ==_iff, arith, length, get_or, sum_over, sum_over-map,
  Bool-cases, inl, inr, IsInjective,
}
use native.Mathlib.Nat.{mod-lt}
use h.Cube.{Cube}
use h.Cube.Group.{IsCube}
use h.Indices.{
  permsign, inversions, smaller_after, indextoperm, permtoindex, permtoindex_loop, sumzerotodigits,
  digitstosumzero, isperm, sizes_ok,
}
use h.Indices.Permutations.{IsPerm, isperm_iff}
use h.Indices.Codes.Inverse.{indextoperm-permtoindex}
use h.Indices.Digits.{sumzerotodigits-digitstosumzero}
use h.Indices.Digits.ZeroSum.{IsZeroSum, digitstosumzero-some}
use h.Solvable.{
  getcube, getcube_fix, issolvable, wrap, ℤ, pos, negsuc, Indexes, swap_first, fact_12, fact_8,
  pow_2_11, pow_3_7,
}
use h.Solvable.Invariants.{AreZero, perm_sum, flip_sum, twist_sum, permsign-lt, issolvable_iff}
use h.Solvable.Made.{AreIndices, AreIndices-of_bounds, getcube-IsCube, getcube_parts}

wrap-lt : (a : ℤ) (m : ℕ) → 0 < m → wrap a m < m
unfolding wrap
wrap-lt (pos n) m h = mod-lt (n % m + m) h
wrap-lt (negsuc n) m h = mod-lt (m - (n + 1) % m) h

-- The cube of two permutations of the same sign is solvable.
getcube-issolvable :
    {ep eo cp co : ℕ} (o : ℕ)
    → AreIndices ep eo cp co
    → permsign (indextoperm ep 12) ≡ permsign (indextoperm cp 8)
    → issolvable (record { cube = getcube ep eo cp co; orientation = o }) ≡ true
unfolding AreZero perm_sum flip_sum twist_sum
getcube-issolvable {ep} {eo} {cp} {co} o h same =
    let c : Cube = getcube ep eo cp co in
    let (e, f, p, t) = getcube_parts h in
    (issolvable_iff c o (getcube-IsCube h)).1 (
      omega (arith, ap permsign e, ap permsign p),
      ap (λ s. s % 2)
            (sym (sum_over-map (λ x. x / 16) c.edge (λ y. y)) ∙ ap (λ ys. sum_over ys (λ y. y)) f)
          ∙ h.flips.zero_sum,
      ap (λ s. s % 3)
            (sym (sum_over-map (λ x. x / 32) c.corner (λ y. y)) ∙ ap (λ ys. sum_over ys (λ y. y)) t)
          ∙ h.twists.zero_sum,
    )

differ :
    (x y a b c : ℕ)
    → x ≢ y
    → (of_bool (ltb x y) + b + (a + c)) % 2 ≢ (of_bool (ltb y x) + a + (b + c)) % 2
differ x y a b c h = λ e. ground arith

-- Two different entries that change places change the sign.
permsign-swap_first :
    (xs : List ℕ) → 2 ≤ length xs → IsInjective xs → permsign (swap_first xs) ≢ permsign xs
unfolding permsign swap_first inversions smaller_after
permsign-swap_first [] h inj = absurd (omega arith)
permsign-swap_first (x ∷ []) h inj = absurd (omega arith)
permsign-swap_first (x ∷ y ∷ xs) h inj =
    differ x y (smaller_after x xs) (smaller_after y xs) (inversions xs)
      (λ q. absurd (omega (arith, inj 0 1 (omega arith) (omega arith) q)))

length-swap_first : (xs : List ℕ) → length (swap_first xs) ≡ length xs
unfolding swap_first
length-swap_first [] = refl
length-swap_first (x ∷ []) = refl
length-swap_first (x ∷ y ∷ xs) = refl

-- The index that `swap_first` reads at index `i`.
swapped : ℕ → ℕ
swapped zero = 1
swapped (suc zero) = 0
swapped (suc (suc i)) = suc (suc i)

get_or-swap_first :
    (xs : List ℕ) (i : ℕ) → 2 ≤ length xs → get_or (swap_first xs) i 0 ≡ get_or xs (swapped i) 0
unfolding swap_first swapped
get_or-swap_first [] i h = absurd (omega arith)
get_or-swap_first (x ∷ []) i h = absurd (omega arith)
get_or-swap_first (x ∷ y ∷ xs) zero h = refl
get_or-swap_first (x ∷ y ∷ xs) (suc zero) h = refl
get_or-swap_first (x ∷ y ∷ xs) (suc (suc i)) h = refl

swapped-lt : (i n : ℕ) → 2 ≤ n → i < n → swapped i < n
unfolding swapped
swapped-lt zero n h p = omega arith
swapped-lt (suc zero) n h p = omega arith
swapped-lt (suc (suc i)) n h p = p

swapped_injective : (i j : ℕ) → swapped i ≡ swapped j → i ≡ j
unfolding swapped
swapped_injective i j e = sym (twice i) ∙ ap swapped e ∙ twice j
  where
    twice : (k : ℕ) → swapped (swapped k) ≡ k
    twice zero = refl
    twice (suc zero) = refl
    twice (suc (suc k)) = refl

swap_first-IsPerm : (xs : List ℕ) → 2 ≤ length xs → IsPerm xs → IsPerm (swap_first xs)
swap_first-IsPerm xs h p =
    let len = length-swap_first xs in
    record {
      short = omega (arith, len, p.short);
      bounded = λ i q. omega (
        arith,
        len,
        get_or-swap_first xs i h,
        p.bounded (swapped i) (swapped-lt i (length xs) h (omega (arith, len))),
      );
      injective = λ i j q r e. swapped_injective i j (
          p.injective (swapped i) (swapped j) (swapped-lt i (length xs) h (omega (arith, len)))
            (swapped-lt j (length xs) h (omega (arith, len)))
            (sym (get_or-swap_first xs i h) ∙ e ∙ get_or-swap_first xs j h));
    }

sum_over-swap_first : (xs : List ℕ) → sum_over (swap_first xs) (λ y. y) ≡ sum_over xs (λ y. y)
unfolding sum_over swap_first
sum_over-swap_first [] = refl
sum_over-swap_first (x ∷ []) = refl
sum_over-swap_first (x ∷ y ∷ xs) = omega arith

swap_first-IsZeroSum :
    (b n : ℕ) (ys : List ℕ) → 2 ≤ n → IsZeroSum b n ys → IsZeroSum b n (swap_first ys)
swap_first-IsZeroSum b n ys h z = record {
  size = length-swap_first ys ∙ z.size;
  below_base = λ i p.
      rw (get_or-swap_first ys i (omega (arith, z.size)))
        (z.below_base (swapped i) (swapped-lt i n h p));
  zero_sum = ap (λ t. t % b) (sum_over-swap_first ys) ∙ z.zero_sum;
}

-- Where `getcube_fix` swaps, the new indices are those of the swapped arrays.
swapped-AreIndices :
    {ep eo cp co cp' co' : ℕ}
    → AreIndices ep eo cp co
    → permtoindex (swap_first (indextoperm cp 8)) ≡ some cp'
    → digitstosumzero (swap_first (sumzerotodigits co 8 3)) 3 ≡ some co'
    → AreIndices ep eo cp' co' × (indextoperm cp' 8 ≡ swap_first (indextoperm cp 8))
swapped-AreIndices {ep} {eo} {cp} {co} {cp'} {co'} h p d =
    let c : List ℕ = indextoperm cp 8 in
    let t : List ℕ = sumzerotodigits co 8 3 in
    let size : length (swap_first c) ≡ 8 = length-swap_first c ∙ h.corner_count in
    let zero_sum : IsZeroSum 3 8 (swap_first t) =
      swap_first-IsZeroSum 3 8 t (omega arith) h.twists in
    let back : indextoperm cp' 8 ≡ swap_first c =
      ap (indextoperm cp') (sym size) ∙ indextoperm-permtoindex (swap_first c) cp' p in
    let back' : sumzerotodigits co' 8 3 ≡ swap_first t =
      ap (λ n. sumzerotodigits co' n 3) (sym zero_sum.size)
      ∙ sumzerotodigits-digitstosumzero (swap_first t) 3 co' (zero_sum.below_base 0 (omega arith))
          d in
    (
      record {
        edges = h.edges;
        edge_count = h.edge_count;
        flips = h.flips;
        corners =
            subst IsPerm (sym back) (swap_first-IsPerm c (omega (arith, h.corner_count)) h.corners);
        corner_count = ap length back ∙ size;
        twists = subst (IsZeroSum 3 8) (sym back') zero_sum;
      },
      back,
    )

other_sign : (a b c : ℕ) → (a == b) ≡ false → c ≢ b → a < 2 → b < 2 → c < 2 → a ≡ c
other_sign a b c other ne ha hb hc = ground arith

sizes : sizes_ok 8 3 ≡ true
unfolding sizes_ok
sizes = refl

permtoindex-some : (a : List ℕ) → isperm a ≡ true → (p : ℕ) × (permtoindex a ≡ some p)
unfolding permtoindex
permtoindex-some a h = (permtoindex_loop a 0, rw h refl)

-- Whatever the five numbers are, `getcube_fix` replaces them by the indices of a solvable cube of
-- the puzzle, with an orientation below 24.
pub getcube_fix_lem :
    (ep eo cp co orien : ℤ)
    → (r : Indexes) × (getcube_fix ep eo cp co orien ≡ some r)
      × IsCube (getcube r.ep r.eo r.cp r.co)
      × (issolvable (record { cube = getcube r.ep r.eo r.cp r.co; orientation = r.orien }) ≡ true)
      × (r.orien < 24)
unfolding getcube_fix
getcube_fix_lem ep eo cp co orien = elim (Bool-cases (permsign e == permsign c)) [
  | inl same ↦ (
    record { ep = ep'; eo = eo'; cp = cp'; co = co'; orien = orien' },
    rw (getcube_fix, same) refl,
    getcube-IsCube h,
    getcube-issolvable orien' h ((==_iff _ _).0 same),
    wrap-lt orien 24 (omega arith),
  )
  | inr other ↦
      let (cp'', is_cp) =
        permtoindex-some (swap_first c)
          ((isperm_iff _).1 (swap_first-IsPerm c (omega (arith, h.corner_count)) h.corners)) in
      let (co'', is_co) =
        digitstosumzero-some 3 8 (swap_first (sumzerotodigits co' 8 3)) sizes
          (swap_first-IsZeroSum 3 8 _ (omega arith) h.twists) in
      let (h', c') = swapped-AreIndices h is_cp is_co in
      (
        record { ep = ep'; eo = eo'; cp = cp''; co = co''; orien = orien' },
        rw (getcube_fix, other, is_cp, is_co) refl,
        getcube-IsCube h',
        getcube-issolvable orien' h' (
            other_sign _ _ _ other
              (permsign-swap_first c (omega (arith, h.corner_count)) h.corners.injective)
              (permsign-lt e) (permsign-lt c) (permsign-lt (swap_first c))
            ∙ ap permsign (sym c')),
        wrap-lt orien 24 (omega arith),
      )
]
  where
    ep' : ℕ
    ep' = wrap ep fact_12

    eo' : ℕ
    eo' = wrap eo pow_2_11

    cp' : ℕ
    cp' = wrap cp fact_8

    co' : ℕ
    co' = wrap (pos cp') pow_3_7

    orien' : ℕ
    orien' = wrap orien 24

    e : List ℕ
    e = indextoperm ep' 12

    c : List ℕ
    c = indextoperm cp' 8

    h : AreIndices ep' eo' cp' co'
    h =
        AreIndices-of_bounds (wrap-lt ep fact_12 (omega arith)) (wrap-lt eo pow_2_11 (omega arith))
          (wrap-lt cp fact_8 (omega arith)) (wrap-lt (pos cp') pow_3_7 (omega arith))
