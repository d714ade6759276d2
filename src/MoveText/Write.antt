-- ===== src/MoveText/Write.antt =====
-- `writemoves` of src/core/moves.h.
use h.Base.{
  ℕ, ◌+◌, List, [], ◌∷◌, ◌++◌, Option, none, some, ◌==◌, leb, if◌then◌else◌, get_or, length,
}
use h.MoveText.{movestr}

-- The loop of `writemoves` with the text of `w` characters before it: the text that it adds.
unfoldable pub writemoves_loop : List ℕ → ℕ → ℕ → Option (List ℕ)
writemoves_loop [] buf_size w = some []
writemoves_loop (m ∷ ms) buf_size w =
    let s = get_or movestr m [] in
    let rest = writemoves_loop ms buf_size (w + length s + 1) in
    if leb buf_size (length s + w)
    then none
    else (elim rest [ none ↦ none | some text ↦ some (s ++ 32 ∷ text) ])

-- The text without its last character, a space.
unfoldable pub without_last : List ℕ → List ℕ
without_last [] = []
without_last (c ∷ []) = []
without_last (c ∷ c' ∷ cs) = c ∷ without_last (c' ∷ cs)

-- The text in the buffer, or `none` for the error that leaves an empty one.
unfoldable pub writemoves : List ℕ → ℕ → Option (List ℕ)
unfolding writemoves_loop without_last
writemoves m buf_size =
    let all = writemoves_loop m buf_size 0 in
    if buf_size == 0 then none else elim all [ none ↦ none | some text ↦ some (without_last text) ]
