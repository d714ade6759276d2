-- ===== src/Tests/Symmetries.antt =====
-- Symmetries as text at concrete inputs.
use h.Base.{◌≡◌, refl, [], ◌∷◌}
use h.Oriented.{OrientedCube}
use h.Moves.Table.{r}
use h.TransText.{readtrans}

abbrev turned : OrientedCube
turned = record { cube = r; orientation = 5 }

unknown : readtrans (114 ∷ 111 ∷ 116 ∷ []) ≡ 255
unfolding readtrans
unknown = refl
