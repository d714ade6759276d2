-- ===== src/MoveText/Roundtrip.antt =====
-- Reading what `writemoves` wrote: src/core/moves.h, and `applymoves` of src/core/oriented_cube.h.
use h.Base.{
  length-append, ℕ, suc, ◌+◌, ◌-◌, ◌%◌, ◌^◌, ◌≤◌, ◌<◌, Bool, true, false, List, [], ◌∷◌, ◌++◌, none,
  some, ◌==◌, leb, ltb, if◌then◌else◌, get_or, length, ◌≡◌, refl, sym, ap, ◌∙◌, Bool-cases, arith,
  subst, inl, inr,
}
use h.MoveText.{movestr, done, invalid_moves, buffer_size, MoveLists, store_move, readmoves}
use h.MoveText.Apply.{NissCubes, apply_move, join_niss, applymoves}
use h.MoveText.Write.{writemoves}
use h.MoveText.Loop.{AreMoves, next_move, spaced, act, read_loop-spaced}
use h.MoveText.Tokens.{Named, movestr-Named}
use h.MoveText.Written.{writemoves_lem}
use h.Extended.{move_extended}
use h.Extended.Moves.{IsOriented, move_extended-IsOriented}
use h.Extended.Compose.{compose_oriented_solved}
use h.Oriented.{OrientedCube, solved_oriented_cube, zero_oriented_cube}
use h.Cube.{inverse}
use mathlib.Core.List.{append-nil, append_assoc}
use mathlib.Core.Option.{none-ne-some, some-injective}

name-length : (m : ℕ) → m < 54 → 0 < length (get_or movestr m [])
name-length m h = let n : Named m = movestr-Named m h in omega (arith, ap length n.spelled)

-- A text is as long as it has moves.
spaced-length : (ms : List ℕ) → AreMoves ms → length ms ≤ length (spaced ms)
unfolding spaced
spaced-length [] are = omega arith
spaced-length (m ∷ []) (next_move h are) = omega (arith, name-length m h)
spaced-length (m ∷ m' ∷ ms) (next_move h are) = omega (
  arith,
  name-length m h,
  spaced-length (m' ∷ ms) are,
  length-append (get_or movestr m []) (32 ∷ spaced (m' ∷ ms)),
)

written_text : (ms text : List ℕ) (size : ℕ) → writemoves ms size ≡ some text → spaced ms ≡ text
written_text ms text size e = elim (Bool-cases (ltb (length (spaced ms)) size)) [
  | inl fits ↦
      some-injective (spaced ms) text (sym (then_if (ltb (length (spaced ms)) size) fits) ∙ e')
  | inr fails ↦
      absurd (none-ne-some text (sym (else_if (ltb (length (spaced ms)) size) fails) ∙ e'))
]
  where
    e' : (if ltb (length (spaced ms)) size then some (spaced ms) else none) ≡ some text
    e' = sym (writemoves_lem ms size) ∙ e

    then_if : (p : Bool) → p ≡ true → (if p then some (spaced ms) else none) ≡ some (spaced ms)
    then_if p h = ap (λ t. if t then some (spaced ms) else none) h

    else_if : (p : Bool) → p ≡ false → (if p then some (spaced ms) else none) ≡ none
    else_if p h = ap (λ t. if t then some (spaced ms) else none) h

store_test :
    (nsize n : ℕ) → n + 1 < nsize → nsize < 2 ^ 64 → leb ((nsize + 2 ^ 64 - 1) % 2 ^ 64) n ≡ false
store_test nsize n h small =
    let bound : (nsize + 2 ^ 64 - 1) % 2 ^ 64 ≡ nsize - 1 = omega arith in
    ap (λ k. leb k n) bound ∙ not_leb (nsize - 1) (omega arith)
  where
    not_leb : (k : ℕ) → n < k → leb k n ≡ false
    not_leb k h = ground arith

store_move-normal :
    (nsize invsize m : ℕ) (acc : MoveLists)
    → length acc.normal + 1 < nsize
    → nsize < 2 ^ 64
    → store_move nsize invsize false m acc ≡ some (record acc { normal = acc.normal ++ m ∷ [] })
unfolding store_move
store_move-normal nsize invsize m acc h small =
    let room : leb ((nsize + 2 ^ 64 - 1) % 2 ^ 64) (length acc.normal) ≡ false =
      store_test nsize (length acc.normal) h small in
    rw room refl

act-store_move :
    (nsize invsize : ℕ) (ms : List ℕ) (acc : MoveLists)
    → length acc.normal + length ms < nsize
    → nsize < 2 ^ 64
    → act (store_move nsize invsize false) ms acc ≡ some (record acc { normal = acc.normal ++ ms })
unfolding act
act-store_move nsize invsize [] acc h small =
    ap (λ l. some (record acc { normal = l })) (sym (append-nil acc.normal))
act-store_move nsize invsize (m ∷ ms) acc h small =
    let acc' : MoveLists = record acc { normal = acc.normal ++ m ∷ [] } in
    let longer : length (acc.normal ++ m ∷ []) ≡ length acc.normal + 1 =
      length-append acc.normal (m ∷ []) in
    ap (λ o. elim o [ none ↦ none | some a ↦ act (store_move nsize invsize false) ms a ])
      (store_move-normal nsize invsize m acc (omega arith) small)
    ∙ act-store_move nsize invsize ms acc' (omega (arith, longer)) small
    ∙ ap (λ l. some (record acc { normal = l })) (append_assoc acc.normal (m ∷ []) ms)

apart : (k n : ℕ) → k < n → (k == n) ≡ false
apart k n h = ground arith

-- If `writemoves` wrote fewer than `nsize` moves, all among the 54, `readmoves` of the text gives
-- these moves, all as normal ones, and their number; the two sizes together are below 2^64.
pub readmoves-writemoves :
    (ms text : List ℕ) (size nsize invsize : ℕ)
    → AreMoves ms
    → length ms < nsize
    → nsize + invsize < 2 ^ 64
    → writemoves ms size ≡ some text
    → readmoves text nsize invsize ≡ some (done (record { normal = ms; inverse = [] }) (length ms))
unfolding readmoves
readmoves-writemoves ms text size nsize invsize are room small e =
    let text_lem : spaced ms ≡ text = written_text ms text size e in
    let start : MoveLists = record { normal = []; inverse = [] } in
    let fuel : length ms < suc (length (spaced ms)) = omega (arith, spaced-length ms are) in
    let number : 0 + length ms ≡ length ms = omega arith in
    subst
      (λ t.
        readmoves t nsize invsize ≡ some (done (record { normal = ms; inverse = [] }) (length ms)))
      text_lem
      (read_loop-spaced (store_move nsize invsize) (λ count. count == (nsize + invsize) % 2 ^ 64) ms
          (suc (length (spaced ms))) start (record { normal = ms; inverse = [] }) 0 are
          (λ k p q. not_full k (omega arith))
          (act-store_move nsize invsize ms start (omega arith) (omega arith)) fuel
        ∙ ap (λ (k : ℕ). some (done (record { normal = ms; inverse = [] }) k)) number)
  where
    not_full : (k : ℕ) → k < length ms → (k == (nsize + invsize) % 2 ^ 64) ≡ false
    not_full k h =
        let bound : (nsize + invsize) % 2 ^ 64 ≡ nsize + invsize = omega arith in
        ap (λ t. k == t) bound ∙ apart k (nsize + invsize) (omega arith)

-- The moves made one after the other.
abbrev pub move_all : OrientedCube → List ℕ → OrientedCube
move_all c [] = c
move_all c (m ∷ ms) = move_all (move_extended c m) ms

move_all-IsOriented :
    (ms : List ℕ) (c : OrientedCube) → AreMoves ms → IsOriented c → IsOriented (move_all c ms)
move_all-IsOriented [] c are h = h
move_all-IsOriented (m ∷ ms) c (next_move lt are) h =
    move_all-IsOriented ms (move_extended c m) are (move_extended-IsOriented m lt h)

act-apply_move :
    (ms : List ℕ) (acc : NissCubes)
    → act (apply_move false) ms acc ≡ some (record acc { c = move_all acc.c ms })
unfolding act apply_move
act-apply_move [] acc = refl
act-apply_move (m ∷ ms) acc = act-apply_move ms (record acc { c = move_extended acc.c m })

join_niss-normal :
    (c : OrientedCube)
    → IsOriented c
    → join_niss (record { c = c; cinv = solved_oriented_cube }) ≡ c
unfolding join_niss inverse
join_niss-normal c h = (compose_oriented_solved h).0

-- `applymoves` of what `writemoves` wrote for some of the 54 moves makes these moves one after the
-- other, on every cube of the puzzle with an orientation below 24.
pub applymoves-writemoves :
    (ms text : List ℕ) (size : ℕ) (cube : OrientedCube)
    → AreMoves ms
    → IsOriented cube
    → writemoves ms size ≡ some text
    → applymoves cube text ≡ some (move_all cube ms)
unfolding applymoves
applymoves-writemoves ms text size cube are h e =
    let text_lem : spaced ms ≡ text = written_text ms text size e in
    let start : NissCubes = record { c = cube; cinv = solved_oriented_cube } in
    let fuel : length ms < suc (length (spaced ms)) = omega (arith, spaced-length ms are) in
    subst (λ t. applymoves cube t ≡ some (move_all cube ms)) text_lem
      (ap
          (λ o. elim o [
            | none ↦ none
            | some (done acc count) ↦ some (join_niss acc)
            | some invalid_moves ↦ some zero_oriented_cube
            | some buffer_size ↦ some zero_oriented_cube
          ])
          (read_loop-spaced apply_move (λ count. false) ms (suc (length (spaced ms))) start
            (record start { c = move_all cube ms }) 0 are (λ k p q. refl) (act-apply_move ms start)
            fuel)
        ∙ ap some (join_niss-normal (move_all cube ms) (move_all-IsOriented ms cube are h)))
