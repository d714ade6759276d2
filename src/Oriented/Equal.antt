-- ===== src/Oriented/Equal.antt =====
-- `equal` decides equality of cubes.
use h.Base.{
  ℕ, zero, suc, ◌+◌, ◌≤◌, ◌<◌, Bool, true, ◌&&◌, ◌≡◌, refl, sym, ◌∙◌, ◌↔◌, ◌==◌, arith, get_or,
  get_or_ext, List, subst, ℕ_discrete,
}
use h.Cube.{Cube, equal, equal_loop}
use h.Cube.Group.{HasRoom, cube_ext}

equal_loop_sound :
    (left i : ℕ) (xs ys : List ℕ) (ret : Bool)
    → equal_loop left i xs ys ret ≡ true
    → (ret ≡ true) × ((k : ℕ) → i ≤ k → k < i + left → get_or xs k 0 ≡ get_or ys k 0)
unfolding equal_loop
equal_loop_sound zero i xs ys ret h = (h, λ k p q. absurd (omega arith))
equal_loop_sound (suc left) i xs ys ret h =
    let (r, rest) = equal_loop_sound left (i + 1) xs ys (ret && get_or xs i 0 == get_or ys i 0) h in
    (
      ground arith,
      λ k p q. elim (ℕ_discrete i k) [
        | yes e ↦ ground arith
        | no ne ↦ rest k (omega arith) (omega arith)
      ],
    )

equal_loop_refl : (left i : ℕ) (xs : List ℕ) → equal_loop left i xs xs true ≡ true
unfolding equal_loop
equal_loop_refl zero i xs = refl
equal_loop_refl (suc left) i xs =
    let same : (true && get_or xs i 0 == get_or xs i 0) ≡ true = ground arith in
    rw same (equal_loop_refl left (i + 1) xs)

-- `equal` answers true exactly on equal arrays, of eight corners and twelve edges.
pub equal_iff : (a b : Cube) → HasRoom a → HasRoom b → (equal a b ≡ true) ↔ (a ≡ b)
unfolding equal
equal_iff a b ra rb = (sound, complete)
  where
    sound : equal a b ≡ true → a ≡ b
    sound h =
        let (c, e) =
          equal_loop_sound 12 0 a.edge b.edge (equal_loop 8 0 a.corner b.corner true) h in
        let (t, c') = equal_loop_sound 8 0 a.corner b.corner true c in
        cube_ext
          (get_or_ext 0 _ _ (ra.corner_size ∙ sym rb.corner_size)
            (λ i p. c' i (omega arith) (omega (arith, ra.corner_size))))
          (get_or_ext 0 _ _ (ra.edge_size ∙ sym rb.edge_size)
            (λ i p. e i (omega arith) (omega (arith, ra.edge_size))))

    complete : a ≡ b → equal a b ≡ true
    complete e =
        subst (λ t. equal a t ≡ true) e
          (rw (equal_loop_refl 8 0 a.corner) (equal_loop_refl 12 0 a.edge))
