-- ===== src/MoveText/Written.antt =====
-- What `writemoves` of src/core/moves.h writes.
use h.Base.{
  length-append, ℕ, ◌+◌, ◌≤◌, ◌<◌, Bool, true, false, List, [], ◌∷◌, ◌++◌, Option, none, some, ◌==◌,
  leb, ltb, if◌then◌else◌, get_or, length, ◌≡◌, refl, sym, ap, ◌∙◌, Bool-cases, arith, inl, inr,
}
use h.MoveText.{movestr}
use h.MoveText.Write.{writemoves_loop, writemoves, without_last}
use h.MoveText.Loop.{spaced}

-- The names with a space after each.
named : List ℕ → List ℕ
named [] = []
named (m ∷ ms) = get_or movestr m [] ++ 32 ∷ named ms

without_last-end : (s : List ℕ) → without_last (s ++ 32 ∷ []) ≡ s
unfolding without_last
without_last-end [] = refl
without_last-end (c ∷ []) = refl
without_last-end (c ∷ c' ∷ s) = ap (λ t. c ∷ t) (without_last-end (c' ∷ s))

without_last-cons :
    (c : ℕ) (cs : List ℕ) → 0 < length cs → without_last (c ∷ cs) ≡ c ∷ without_last cs
unfolding without_last
without_last-cons c [] h = absurd (omega arith)
without_last-cons c (d ∷ cs) h = refl

without_last-append :
    (s t : List ℕ) → 0 < length t → without_last (s ++ 32 ∷ t) ≡ s ++ 32 ∷ without_last t
without_last-append [] t h = without_last-cons 32 t h
without_last-append (c ∷ s) t h =
    without_last-cons c (s ++ 32 ∷ t) (omega (arith, length-append s (32 ∷ t)))
    ∙ ap (λ k. c ∷ k) (without_last-append s t h)

without_last-named : (ms : List ℕ) → without_last (named ms) ≡ spaced ms
unfolding named spaced without_last
without_last-named [] = refl
without_last-named (m ∷ []) = without_last-end (get_or movestr m [])
without_last-named (m ∷ m' ∷ ms) =
    without_last-append (get_or movestr m []) (named (m' ∷ ms))
      (omega (arith, length-append (get_or movestr m' []) (32 ∷ named ms)))
    ∙ ap (λ k. get_or movestr m [] ++ 32 ∷ k) (without_last-named (m' ∷ ms))

length-spaced :
    (m m' : ℕ) (ms : List ℕ)
    → length (spaced (m ∷ m' ∷ ms)) ≡ length (get_or movestr m []) + 1 + length (spaced (m' ∷ ms))
unfolding spaced
length-spaced m m' ms = omega (arith, length-append (get_or movestr m []) (32 ∷ spaced (m' ∷ ms)))

-- The test at a move, and what is written if the rest is.
writemoves_loop-cons :
    (m : ℕ) (ms : List ℕ) (size w : ℕ)
    → writemoves_loop (m ∷ ms) size w ≡ (
        if leb size (length (get_or movestr m []) + w)
        then none
        else (elim (writemoves_loop ms size (w + length (get_or movestr m []) + 1)) [
          | none ↦ none
          | some text ↦ some (get_or movestr m [] ++ 32 ∷ text)
        ]))
unfolding writemoves_loop
writemoves_loop-cons m ms size w = refl

join_if :
    (p q r : Bool) (s t : List ℕ) (o : Option (List ℕ))
    → o ≡ (if q then some t else none)
    → (p ≡ true → r ≡ false)
    → (p ≡ false → r ≡ q)
    → (if p then none else (elim o [ none ↦ none | some k ↦ some (s ++ 32 ∷ k) ]))
      ≡ (if r then some (s ++ 32 ∷ t) else none)
join_if true q r s t o e h h' = rw (h refl) refl
join_if false true r s t o e h h' = rw (e, h' refl) refl
join_if false false r s t o e h h' = rw (e, h' refl) refl

too_long : (size l w total : ℕ) → l ≤ total → leb size (l + w) ≡ true → ltb (w + total) size ≡ false
too_long size l w total h e = ground arith

fits : (size l w : ℕ) → leb size (l + w) ≡ false → ltb (w + l) size ≡ true
fits size l w e = ground arith

writemoves_loop-nil : (size w : ℕ) → writemoves_loop [] size w ≡ (if true then some [] else none)
unfolding writemoves_loop
writemoves_loop-nil size w = refl

writemoves_loop_lem :
    (m : ℕ) (ms : List ℕ) (size w : ℕ)
    → writemoves_loop (m ∷ ms) size w
      ≡ (if ltb (w + length (spaced (m ∷ ms))) size then some (named (m ∷ ms)) else none)
unfolding named spaced
writemoves_loop_lem m [] size w =
    writemoves_loop-cons m [] size w
    ∙ join_if (leb size (length (get_or movestr m []) + w)) true
        (ltb (w + length (get_or movestr m [])) size) (get_or movestr m []) []
        (writemoves_loop [] size (w + length (get_or movestr m []) + 1))
        (writemoves_loop-nil size (w + length (get_or movestr m []) + 1))
        (too_long size (length (get_or movestr m [])) w (length (get_or movestr m []))
          (omega arith))
        (fits size (length (get_or movestr m [])) w)
writemoves_loop_lem m (m' ∷ ms) size w =
    let s : List ℕ = get_or movestr m [] in
    writemoves_loop-cons m (m' ∷ ms) size w
    ∙ join_if (leb size (length s + w)) (ltb (w + length s + 1 + length (spaced (m' ∷ ms))) size)
        (ltb (w + length (spaced (m ∷ m' ∷ ms))) size) s (named (m' ∷ ms))
        (writemoves_loop (m' ∷ ms) size (w + length s + 1))
        (writemoves_loop_lem m' ms size (w + length s + 1))
        (too_long size (length s) w (length (spaced (m ∷ m' ∷ ms)))
          (omega (arith, length-spaced m m' ms)))
        (λ h. ap (λ k. ltb k size) (omega (arith, length-spaced m m' ms)))

finish_if :
    (p : Bool) (t : List ℕ) (o : Option (List ℕ))
    → o ≡ (if p then some t else none)
    → (elim o [ none ↦ none | some text ↦ some (without_last text) ])
      ≡ (if p then some (without_last t) else none)
finish_if true t o e = rw e refl
finish_if false t o e = rw e refl

writemoves-if :
    (ms : List ℕ) (size : ℕ) (t : Bool)
    → (size == 0) ≡ t
    → writemoves ms size ≡ (
        if t then none else (elim (writemoves_loop ms size 0) [
          | none ↦ none
          | some text ↦ some (without_last text)
        ]))
unfolding writemoves
writemoves-if ms size t h =
    ap
      (λ u. if u then none else (elim (writemoves_loop ms size 0) [
        | none ↦ none
        | some text ↦ some (without_last text)
      ]))
      h

written_if :
    (p q : Bool) (s : List ℕ) → p ≡ q → (if p then some s else none) ≡ (if q then some s else none)
written_if p q s e = ap (λ t. if t then some s else none) e

written_nil : (size : ℕ) → (size == 0) ≡ false → ltb 0 size ≡ true
written_nil size h = ground arith

no_size : (l size : ℕ) → (size == 0) ≡ true → false ≡ ltb l size
no_size l size h = ground arith

-- `writemoves` writes the names of the moves with one space between two of them, exactly when
-- they and the closing zero fit the buffer; else it comes back with the error.
pub writemoves_lem :
    (ms : List ℕ) (size : ℕ)
    → writemoves ms size ≡ (if ltb (length (spaced ms)) size then some (spaced ms) else none)
unfolding spaced named
writemoves_lem ms size = elim (Bool-cases (size == 0)) [
  | inl e ↦
      writemoves-if ms size true e
      ∙ written_if false (ltb (length (spaced ms)) size) (spaced ms)
          (no_size (length (spaced ms)) size e)
  | inr ne ↦ writemoves-if ms size false ne ∙ with_room ms ne
]
  where
    with_room :
        (ms : List ℕ)
        → (size == 0) ≡ false
        → (elim (writemoves_loop ms size 0) [ none ↦ none | some text ↦ some (without_last text) ])
          ≡ (if ltb (length (spaced ms)) size then some (spaced ms) else none)
    with_room [] ne =
        finish_if true [] (writemoves_loop [] size 0) (writemoves_loop-nil size 0)
        ∙ ap some (without_last-named [])
        ∙ written_if true (ltb (length (spaced [])) size) (spaced []) (sym (written_nil size ne))
    with_room (m ∷ ms) ne =
        let start : 0 + length (spaced (m ∷ ms)) ≡ length (spaced (m ∷ ms)) = omega arith in
        finish_if (ltb (0 + length (spaced (m ∷ ms))) size) (named (m ∷ ms))
          (writemoves_loop (m ∷ ms) size 0) (writemoves_loop_lem m ms size 0)
        ∙ ap (λ t. if ltb (0 + length (spaced (m ∷ ms))) size then some t else none)
            (without_last-named (m ∷ ms))
        ∙ written_if (ltb (0 + length (spaced (m ∷ ms))) size) (ltb (length (spaced (m ∷ ms))) size)
            (spaced (m ∷ ms)) (ap (λ k. ltb k size) start)
