-- ===== src/Tests/Texts.antt =====
-- Runs of the reading loop and of `writemoves`, and their theorems at a concrete text.
use h.Base.{ℕ, List, [], ◌∷◌, none, some, ◌≡◌, refl, arith, length, if◌then◌else◌, ltb}
use h.Extended.Moves.{IsOriented}
use h.MoveText.{readmoves, countmoves, Outcome, done, invalid_moves, MoveLists}
use h.MoveText.Apply.{applymoves}
use h.MoveText.Write.{writemoves}
use h.MoveText.Loop.{AreMoves, no_move, next_move, spaced}
use h.MoveText.Roundtrip.{readmoves-writemoves, applymoves-writemoves, move_all}
use h.MoveText.Written.{writemoves_lem}
use h.MoveText.Total.{readmoves-HasRoom, HasRoom, Good}
use h.Moves.Table.{r}
use h.Oriented.{OrientedCube}
use h.Oriented.Checked.{is_cube, is_cube_sound}

-- U2, Rw' and M.
abbrev some_moves : List ℕ
some_moves = 1 ∷ 26 ∷ 36 ∷ []

-- The text "U2 Rw' M".
abbrev some_text : List ℕ
some_text = 85 ∷ 50 ∷ 32 ∷ 82 ∷ 119 ∷ 39 ∷ 32 ∷ 77 ∷ []

writes : writemoves some_moves 20 ≡ some some_text
unfolding writemoves
writes = refl

writes_error : writemoves some_moves 8 ≡ none
unfolding writemoves
writes_error = refl

reads : readmoves some_text 10 10 ≡ some (done (record { normal = some_moves; inverse = [] }) 3)
unfolding readmoves
reads = refl

-- The text "U(F')".
niss :
    readmoves (85 ∷ 40 ∷ 70 ∷ 39 ∷ 41 ∷ []) 10 10
    ≡ some (done (record { normal = 0 ∷ []; inverse = 14 ∷ [] }) 4)
unfolding readmoves
niss = refl

counts : countmoves some_text ≡ some (done 4 3)
unfolding countmoves
counts = refl

-- The text "U1" is refused.
one_refused : readmoves (85 ∷ 49 ∷ []) 10 10 ≡ some invalid_moves
unfolding readmoves
one_refused = refl

-- The text "zw" is read as the move 69, which is in no table.
wide_rotation :
    readmoves (122 ∷ 119 ∷ []) 10 10 ≡ some (done (record { normal = 69 ∷ []; inverse = [] }) 1)
unfolding readmoves
wide_rotation = refl

some_moves-AreMoves : AreMoves some_moves
some_moves-AreMoves =
    next_move (omega arith) (next_move (omega arith) (next_move (omega arith) no_move))

abbrev turned : OrientedCube
turned = record { cube = r; orientation = 9 }

turned-IsOriented : IsOriented turned
unfolding is_cube
turned-IsOriented = record { is_cube = is_cube_sound r refl; orientation_lt = omega arith }

readmoves-writemoves_example :
    readmoves some_text 10 5 ≡ some (done (record { normal = some_moves; inverse = [] }) 3)
readmoves-writemoves_example =
    readmoves-writemoves some_moves some_text 20 10 5 some_moves-AreMoves (omega arith)
      (omega arith) writes

applymoves-writemoves_example : applymoves turned some_text ≡ some (move_all turned some_moves)
applymoves-writemoves_example =
    applymoves-writemoves some_moves some_text 20 turned some_moves-AreMoves turned-IsOriented
      writes

writemoves_lem_example :
    writemoves some_moves 20
    ≡ (if ltb (length (spaced some_moves)) 20 then some (spaced some_moves) else none)
writemoves_lem_example = writemoves_lem some_moves 20

readmoves-HasRoom_example :
    (r : Outcome MoveLists) × (readmoves some_text 3 1 ≡ some r) × Good (HasRoom 3 1) r
readmoves-HasRoom_example =
    readmoves-HasRoom some_text 3 1 (omega arith) (omega arith) (omega arith) (omega arith)
