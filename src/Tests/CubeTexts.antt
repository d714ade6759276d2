-- ===== src/Tests/CubeTexts.antt =====
-- Cubes as text.
use h.Base.{ap, set, ℕ, List, [], ◌∷◌, some, none, ◌≡◌, ◌≢◌, refl, length, arith, get_or}
use h.Moves.Table.{f}
use h.Oriented.{OrientedCube, zero_oriented_cube}
use h.Oriented.Checked.{is_cube, is_cube_sound}
use h.Cube.Group.{IsCube}
use h.CubeText.{readcube, writecube}
use h.CubeText.Roundtrip.{readcube-writecube, writecube-readcube}

abbrev turned : OrientedCube
turned = record { cube = f; orientation = 5 }

f-IsCube : IsCube f
unfolding is_cube
f-IsCube = is_cube_sound f refl

readcube-writecube_example :
    (t : List ℕ) × (writecube turned 24 ≡ some t) × (length t ≡ 24) × (readcube t ≡ turned)
readcube-writecube_example = readcube-writecube turned 24 f-IsCube (omega arith) (omega arith)

-- The text of the solved cube, "ABCDEFGH=ABCDEFGHIJKL=A".
abbrev solved_text : List ℕ
solved_text =
    65 ∷ 66 ∷ 67 ∷ 68 ∷ 69 ∷ 70 ∷ 71 ∷ 72 ∷ 61 ∷ 65 ∷ 66 ∷ 67 ∷ 68 ∷ 69 ∷ 70 ∷ 71 ∷ 72 ∷ 73 ∷ 74
    ∷ 75 ∷ 76 ∷ 61 ∷ 65 ∷ 0 ∷ []

abbrev second_edge : OrientedCube → ℕ
second_edge c = get_or c.cube.edge 1 0

solved_second_edge : second_edge (readcube solved_text) ≡ 1
unfolding readcube
solved_second_edge = refl

solved_read : readcube solved_text ≢ zero_oriented_cube
solved_read e = omega (arith, solved_second_edge, ap second_edge e)

writecube-readcube_example : writecube (readcube solved_text) 30 ≡ some solved_text
writecube-readcube_example =
    writecube-readcube solved_text 30 refl refl (omega arith) refl solved_read (omega arith)

-- The separator before the orientation is not looked at.
any_separator : (readcube (set solved_text 21 42)).orientation ≡ 0
unfolding readcube
any_separator = refl

no_room : writecube turned 23 ≡ none
unfolding writecube
no_room = refl
