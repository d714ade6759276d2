-- ===== src/Tests/Answers.antt =====
-- The functions of src/nissy.c on concrete texts.
use h.Base.{ℕ, ◌≡◌, refl, List, [], ◌∷◌, some, true, false, if◌then◌else◌, arith}
use h.Cube.Group.{IsCube}
use h.Moves.Table.{r}
use h.Oriented.{OrientedCube}
use h.Oriented.Checked.{is_cube, is_cube_sound}
use h.CubeText.{readcube, writecube}
use h.Solvable.{issolvable}
use h.Transform.{transform}
use h.TransText.{writetrans}
use h.Interface.{
  nissy_ok, nissy_warning_unsolvable, nissy_error_invalid_cube, nissy_error_invalid_trans,
  nissy_applytrans, nissy_inverse, result_of, distribution_equal, my_strnlen,
}
use h.Interface.Answers.{nissy_applytrans_lem}

abbrev turned : OrientedCube
turned = record { cube = r; orientation = 5 }

abbrev turned_text : List ℕ
turned_text = result_of turned

turned_text_lem : writecube turned 24 ≡ some turned_text
unfolding result_of writecube
turned_text_lem = refl

turned-IsCube : IsCube turned.cube
unfolding is_cube
turned-IsCube = is_cube_sound r refl

-- A text that is no cube, no moves, and a symmetry that does not exist.
errors :
    ((nissy_inverse []).0 ≡ nissy_error_invalid_cube)
    × ((nissy_applytrans turned_text []).0 ≡ nissy_error_invalid_trans)
unfolding nissy_inverse nissy_applytrans result_of
errors = (refl, refl)

lengths :
    (my_strnlen (69 ∷ 79 ∷ 0 ∷ 1 ∷ []) 100 ≡ 2)
    × (distribution_equal (1 ∷ 2 ∷ []) (1 ∷ 3 ∷ []) 0 ≡ true)
    × (distribution_equal (1 ∷ 2 ∷ []) (1 ∷ 3 ∷ []) 1 ≡ false)
unfolding my_strnlen distribution_equal
lengths = (refl, refl, refl)

nissy_applytrans_lem_example :
    (result : List ℕ) × (nissy_applytrans turned_text (writetrans 30) ≡ (
      if issolvable (record turned { cube = transform r 30 })
          then nissy_ok
          else nissy_warning_unsolvable,
      result,
    ))
    × (readcube result ≡ record turned { cube = transform r 30 })
nissy_applytrans_lem_example =
    nissy_applytrans_lem turned_text turned 30 turned-IsCube (omega arith) (omega arith)
      turned_text_lem
