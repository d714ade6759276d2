-- ===== src/Coord/Parse.antt =====
-- The names of coordinates and axes: src/solvers/coord/utils.h. A string is the list of its characters before
-- the closing zero.
use h.Base.{
  ℕ, zero, suc, ◌+◌, ◌-◌, Bool, true, false, ◌&&◌, ◌||◌, List, [], ◌∷◌, Option, none, some, ◌==◌,
  if◌then◌else◌, length,
}
use h.TableInfo.{skip}
use h.Moves.{uint8_error}
use h.Coord.{Coord}
use h.Coord.Kinds.{all_coordinates}

-- Whether `strncmp` of two strings is 0.
unfoldable pub strncmp_equal : List ℕ → List ℕ → ℕ → Bool
strncmp_equal xs ys zero = true
strncmp_equal [] [] (suc n) = true
strncmp_equal [] (y ∷ ys) (suc n) = false
strncmp_equal (x ∷ xs) [] (suc n) = false
strncmp_equal (x ∷ xs) (y ∷ ys) (suc n) = x == y && strncmp_equal xs ys n

unfoldable pub parse_coord_loop : List Coord → ℕ → List ℕ → Option Coord
unfolding strncmp_equal
parse_coord_loop [] n coord = none
parse_coord_loop (c ∷ cs) n coord =
    let rest = parse_coord_loop cs n coord in if strncmp_equal c.name coord n then some c else rest

unfoldable pub parse_coord : ℕ → List ℕ → Option Coord
unfolding parse_coord_loop all_coordinates
parse_coord n coord = parse_coord_loop all_coordinates n coord

abbrev pub axis_ud : ℕ
axis_ud = 0

abbrev pub axis_rl : ℕ
axis_rl = 1

abbrev pub axis_fb : ℕ
axis_fb = 2

unfoldable pub parse_axis : ℕ → List ℕ → ℕ
unfolding strncmp_equal
parse_axis n axis =
    if strncmp_equal axis (85 ∷ 68 ∷ []) n || strncmp_equal axis (68 ∷ 85 ∷ []) n
    then axis_ud
    else if strncmp_equal axis (82 ∷ 76 ∷ []) n || strncmp_equal axis (76 ∷ 82 ∷ []) n
    then axis_rl
    else if strncmp_equal axis (70 ∷ 66 ∷ []) n || strncmp_equal axis (66 ∷ 70 ∷ []) n
    then axis_fb
    else uint8_error

-- The index of the first underscore, or the length.
unfoldable pub underscore : List ℕ → ℕ
underscore [] = 0
underscore (c ∷ cs) = let rest = underscore cs in if c == 95 then 0 else suc rest

-- On a whole string.
unfoldable pub parse_coord_and_axis : List ℕ → Option Coord × ℕ
unfolding parse_coord parse_axis underscore skip
parse_coord_and_axis str =
    let n = length str in
    let i = underscore str in
    (parse_coord i str, if i == n then uint8_error else parse_axis (n - i - 1) (skip (i + 1) str))

unfoldable pub dataid_coord : List ℕ → Option (List ℕ)
unfolding parse_coord_and_axis
dataid_coord ca = elim (parse_coord_and_axis ca).0 [ none ↦ none | some c ↦ some c.name ]
