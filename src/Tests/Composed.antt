-- ===== src/Tests/Composed.antt =====
-- Oriented cubes: composition and wide moves on cubes out of standard orientation.
use h.Base.{◌≡◌, refl, arith}
use h.Extended.{compose_oriented, move_extended}
use h.Extended.Compose.{compose_oriented_assoc}
use h.Extended.Compose.Act.{move_extended-compose}
use h.Extended.Moves.{IsOriented, move_extended-inverse_move, move_extended-IsOriented}
use h.Moves.{inverse_move}
use h.Moves.Table.{r, u}
use h.Oriented.{OrientedCube}
use h.Oriented.Checked.{is_cube, is_cube_sound}

abbrev one : OrientedCube
one = record { cube = r; orientation = 9 }

abbrev two : OrientedCube
two = record { cube = u; orientation = 22 }

one-IsOriented : IsOriented one
unfolding is_cube
one-IsOriented = record { is_cube = is_cube_sound r refl; orientation_lt = omega arith }

two-IsOriented : IsOriented two
unfolding is_cube
two-IsOriented = record { is_cube = is_cube_sound u refl; orientation_lt = omega arith }

-- The move Rw.
move_extended-IsOriented_example : IsOriented (move_extended one 24)
move_extended-IsOriented_example = move_extended-IsOriented 24 (omega arith) one-IsOriented

-- The slice M and its inverse.
move_extended-inverse_move_example : move_extended (move_extended one 36) (inverse_move 36) ≡ one
move_extended-inverse_move_example = move_extended-inverse_move 36 (omega arith) one-IsOriented

compose_oriented_assoc_example :
    compose_oriented (compose_oriented one two) one
    ≡ compose_oriented one (compose_oriented two one)
compose_oriented_assoc_example = compose_oriented_assoc one-IsOriented two-IsOriented one-IsOriented

move_extended-compose_example :
    move_extended (compose_oriented one two) 24 ≡ compose_oriented one (move_extended two 24)
move_extended-compose_example = move_extended-compose 24 (omega arith) one-IsOriented two-IsOriented
