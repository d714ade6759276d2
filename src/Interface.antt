-- ===== src/Interface.antt =====
-- The functions of src/nissy.c that turn text into cubes and back. A string is the list of its bytes, and the buffer of
-- a result has the 24 bytes that the interface asks for.
pub mod Answers
use h.Base.{
  ℕ, zero, suc, ◌+◌, Bool, true, false, not, ◌&&◌, List, [], ◌∷◌, Option, none, some, ◌==◌, leb,
  if◌then◌else◌, get_or, min, length,
}
use h.Cube.{inverse}
use h.Oriented.{OrientedCube, zero_oriented_cube, isconsistent, iserror}
use h.CubeText.{readcube, writecube, nissy_size_cube}
use h.Solvable.{issolvable}
use h.MoveText.Apply.{applymoves}
use h.TransText.{applytrans}

-- What the functions return.
pub data Code : Type 0 where
  nissy_ok : Code
  nissy_warning_unsolvable : Code
  nissy_error_invalid_cube : Code
  nissy_error_invalid_moves : Code
  nissy_error_invalid_trans : Code
  nissy_error_null_pointer : Code
  nissy_error_unknown : Code

-- The bytes of the result after `writecube`.
unfoldable pub result_of : OrientedCube → List ℕ
unfolding writecube
result_of cube = elim (writecube cube nissy_size_cube) [ none ↦ [] | some text ↦ text ]

unfoldable pub write_result : OrientedCube → Code × List ℕ
unfolding result_of issolvable
write_result cube =
    (if not (issolvable cube) then nissy_warning_unsolvable else nissy_ok, result_of cube)

unfoldable pub nissy_inverse : List ℕ → Code × List ℕ
unfolding readcube iserror inverse isconsistent write_result
nissy_inverse cube =
    let c = readcube cube in
    let res : OrientedCube = record { cube = inverse c.cube; orientation = c.orientation } in
    if iserror c
    then (nissy_error_invalid_cube, result_of zero_oriented_cube)
    else if not (isconsistent res)
    then (nissy_error_unknown, result_of zero_oriented_cube)
    else write_result res

-- `none` as moves is NULL. `none` as a cube is a round of reading that does not end, which
-- does not happen.
unfoldable pub nissy_applymoves : List ℕ → Option (List ℕ) → Option (Code × List ℕ)
unfolding readcube isconsistent applymoves write_result
nissy_applymoves cube moves = elim moves [
  | none ↦ some (nissy_error_null_pointer, result_of zero_oriented_cube)
  | some ms ↦
      let c = readcube cube in
      if not (isconsistent c)
      then some (nissy_error_invalid_cube, result_of zero_oriented_cube)
      else (elim (applymoves c ms) [
        | none ↦ none
        | some res ↦ some (
            if not (isconsistent res)
            then (nissy_error_invalid_moves, result_of zero_oriented_cube)
            else write_result res)
      ])
]

unfoldable pub nissy_applytrans : List ℕ → List ℕ → Code × List ℕ
unfolding readcube isconsistent applytrans write_result
nissy_applytrans cube transformation =
    let c = readcube cube in
    let res = applytrans c transformation in
    if not (isconsistent c)
    then (nissy_error_invalid_cube, result_of zero_oriented_cube)
    else if not (isconsistent res)
    then (nissy_error_invalid_trans, result_of zero_oriented_cube)
    else write_result res

-- The loop of `distribution_equal` from index `i`, with `left` rounds to go, which counts the differences.
unfoldable pub wrong_loop : List ℕ → List ℕ → ℕ → ℕ → ℕ
wrong_loop expected actual zero i = 0
wrong_loop expected actual (suc left) i =
    (if get_or expected i 0 == get_or actual i 0 then 0 else 1)
    + wrong_loop expected actual left (i + 1)

unfoldable pub distribution_equal : List ℕ → List ℕ → ℕ → Bool
unfolding wrong_loop
distribution_equal expected actual maxvalue =
    wrong_loop expected actual (min maxvalue 20 + 1) 0 == 0

unfoldable pub my_strnlen : List ℕ → ℕ → ℕ
my_strnlen str zero = 0
my_strnlen [] (suc maxlen) = 0
my_strnlen (c ∷ str) (suc maxlen) =
    let rest = my_strnlen str maxlen in if c == 0 then 0 else suc rest
