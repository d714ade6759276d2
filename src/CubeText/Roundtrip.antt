-- ===== src/CubeText/Roundtrip.antt =====
-- A cube is read back from its text, and a text from its cube: src/core/cube.h.
use h.Base.{
  ==_iff, Bool, length-append, get_or_at, get_or-append_left, get_or-append_right, ◌≤◌, ℕ, suc, ◌+◌,
  ◌-◌, ◌%◌, ◌^◌, ◌<◌, List, [], ◌∷◌, ◌++◌, map, none, some, ◌≡◌, ◌≢◌, refl, sym, ap, ◌∙◌, ◌==◌, leb,
  ltb, false, true, if◌then◌else◌, get_or, length, arith, length-map, Option-cases, Bool-cases, inl,
  inr,
}
use h.Cube.Group.{IsCube}
use h.Oriented.{OrientedCube, zero_oriented_cube}
use h.CubeText.{
  b32toedge, b32tocorner, edgetob32, cornertob32, cubefromarray, pieces, read_pieces, readcube,
  writecube,
}
use h.CubeText.Letters.{
  b32toedge-edgetob32, b32tocorner-cornertob32, edgetob32-b32toedge, cornertob32-b32tocorner,
}
use h.CubeText.Reading.{
  All-of_entries, StandsAt, StandsAt-nil, StandsAt-cons, StandsAt-append, StandsAt-all,
  read_pieces-map, map-read_pieces,
}

-- The text of a cube from its separator on.
after : OrientedCube → List ℕ
after c = 61 ∷ map edgetob32 c.cube.edge ++ 61 ∷ (c.orientation + 65) % 2 ^ 8 ∷ 0 ∷ []

text_of : OrientedCube → List ℕ
unfolding after
text_of c = map cornertob32 c.cube.corner ++ after c

writecube-text : (c : OrientedCube) (n : ℕ) → 24 ≤ n → writecube c n ≡ some (text_of c)
unfolding writecube text_of pieces after
writecube-text c n h =
    let room : ltb n 24 ≡ false = ground arith in
    ap (λ (b : Bool). if b then none else some (text_of c)) room

module _ (c : OrientedCube) (hc : IsCube c.cube) (ho : c.orientation < 24) where
  corner_letters : StandsAt (map cornertob32 c.cube.corner) 0 (text_of c)
  unfolding StandsAt text_of
  corner_letters k h =
      get_or_at (text_of c) 0 (omega arith)
      ∙ get_or-append_left (map cornertob32 c.cube.corner) (after c) k 0 h

  corner_count : length (map cornertob32 c.cube.corner) ≡ 8
  corner_count = length-map cornertob32 c.cube.corner ∙ hc.corners.size

  after_corners : (k : ℕ) → get_or (text_of c) (8 + k) 0 ≡ get_or (after c) k 0
  unfolding text_of
  after_corners k =
      get_or_at (text_of c) 0 (ap (λ t. t + k) (sym corner_count))
      ∙ get_or-append_right (map cornertob32 c.cube.corner) (after c) k 0

  edge_letters : StandsAt (map edgetob32 c.cube.edge) 9 (text_of c)
  unfolding StandsAt after
  edge_letters k h =
      get_or_at (text_of c) 0 (omega arith)
      ∙ after_corners (suc k)
      ∙ get_or-append_left (map edgetob32 c.cube.edge) (61 ∷ (c.orientation + 65) % 2 ^ 8 ∷ 0 ∷ [])
          k 0 h

  orientation_letter : get_or (text_of c) 22 0 ≡ (c.orientation + 65) % 2 ^ 8
  unfolding after
  orientation_letter =
      after_corners 14
      ∙ get_or_at (map edgetob32 c.cube.edge ++ end) 0
          (ap (λ t. t + 1) (sym (length-map edgetob32 c.cube.edge ∙ hc.edges.size)))
      ∙ get_or-append_right (map edgetob32 c.cube.edge) end 1 0
    where
      end : List ℕ
      end = 61 ∷ (c.orientation + 65) % 2 ^ 8 ∷ 0 ∷ []

  corners_read : read_pieces b32tocorner 8 0 (text_of c) ≡ some c.cube.corner
  corners_read =
      ap (λ n. read_pieces b32tocorner n 0 (text_of c)) (sym hc.corners.size)
      ∙ read_pieces-map b32tocorner cornertob32 c.cube.corner 0 (text_of c)
          (All-of_entries _ c.cube.corner
            (λ i h. b32tocorner-cornertob32 _ (hc.corners.piece i (rw (← hc.corners.size) h))))
          corner_letters

  edges_read : read_pieces b32toedge 12 9 (text_of c) ≡ some c.cube.edge
  edges_read =
      ap (λ n. read_pieces b32toedge n 9 (text_of c)) (sym hc.edges.size)
      ∙ read_pieces-map b32toedge edgetob32 c.cube.edge 9 (text_of c)
          (All-of_entries _ c.cube.edge
            (λ i h. b32toedge-edgetob32 _ (hc.edges.piece i (rw (← hc.edges.size) h)).0))
          edge_letters

  readcube-text : readcube (text_of c) ≡ c
  unfolding readcube cubefromarray after
  readcube-text =
      let orientation : (get_or (text_of c) 22 0 + 2 ^ 8 - 65) % 2 ^ 8 ≡ c.orientation =
        omega (arith, orientation_letter) in
      let separator : (get_or (text_of c) 8 0 == 61) ≡ true = ground (arith, after_corners 0) in
      let small : leb 24 c.orientation ≡ false = ground (arith) in
      rw (readcube, corners_read, separator, edges_read, orientation, small) refl

length-after_lem : (c : OrientedCube) → IsCube c.cube → length (after c) ≡ 16
unfolding after
length-after_lem c hc = omega (
  arith,
  length-append (map edgetob32 c.cube.edge) (61 ∷ (c.orientation + 65) % 2 ^ 8 ∷ 0 ∷ []),
  length-map edgetob32 c.cube.edge,
  hc.edges.size,
)

length-text_of : (c : OrientedCube) → IsCube c.cube → length (text_of c) ≡ 24
unfolding text_of
length-text_of c hc = omega (
  arith,
  length-append (map cornertob32 c.cube.corner) (after c),
  length-after_lem c hc,
  length-map cornertob32 c.cube.corner,
  hc.corners.size,
)

-- A cube with an orientation below 24 is written into every buffer of 24 bytes or more, as 24 bytes,
-- and is read back from them.
pub readcube-writecube :
    (c : OrientedCube) (n : ℕ)
    → IsCube c.cube
    → c.orientation < 24
    → 24 ≤ n
    → (t : List ℕ) × (writecube c n ≡ some t) × (length t ≡ 24) × (readcube t ≡ c)
readcube-writecube c n hc ho room =
    (text_of c, writecube-text c n room, length-text_of c hc, readcube-text c hc ho)

abbrev Parts : List ℕ → Type 0
Parts buf =
    (c e : List ℕ) × (read_pieces b32tocorner 8 0 buf ≡ some c)
    × (get_or buf 8 0 ≡ 61)
    × (read_pieces b32toedge 12 9 buf ≡ some e)
    × ((get_or buf 22 0 + 2 ^ 8 - 65) % 2 ^ 8 < 24)
    × (readcube buf ≡ record {
      cube = record { corner = c; edge = e };
      orientation = (get_or buf 22 0 + 2 ^ 8 - 65) % 2 ^ 8;
    })

below : (a : ℕ) → leb 24 a ≡ false → a < 24
below a h = ground arith

readcube-Parts : (buf : List ℕ) → readcube buf ≢ zero_oriented_cube → Parts buf
unfolding readcube cubefromarray
readcube-Parts buf h = elim (Option-cases (read_pieces b32tocorner 8 0 buf)) [
  | inl wrong ↦ absurd (h (rw (readcube, wrong) refl))
  | inr (c, ec) ↦ elim (Bool-cases (get_or buf 8 0 == 61)) [
    | inr wrong ↦ absurd (h (rw (readcube, ec, wrong) refl))
    | inl sep ↦ elim (Option-cases (read_pieces b32toedge 12 9 buf)) [
      | inl wrong ↦ absurd (h (rw (readcube, ec, sep, wrong) refl))
      | inr (e, ee) ↦ elim (Bool-cases (leb 24 ((get_or buf 22 0 + 2 ^ 8 - 65) % 2 ^ 8))) [
        | inl wrong ↦ absurd (h (rw (readcube, ec, sep, ee, wrong) refl))
        | inr fine ↦
            (c, e, ec, (==_iff _ 61).0 sep, ee, below _ fine, rw (readcube, ec, sep, ee, fine) refl)
      ]
    ]
  ]
]

-- A text of 24 bytes with its separators and its closing zero, which `readcube` does not refuse, is
-- written again for the cube that is read.
pub writecube-readcube :
    (buf : List ℕ) (n : ℕ)
    → length buf ≡ 24
    → get_or buf 21 0 ≡ 61
    → get_or buf 22 0 < 256
    → get_or buf 23 0 ≡ 0
    → readcube buf ≢ zero_oriented_cube
    → 24 ≤ n
    → writecube (readcube buf) n ≡ some buf
unfolding text_of after
writecube-readcube buf n size h21 byte h23 valid room =
    let (c, e, read_c, h8, read_e, small, r) = readcube-Parts buf valid in
    let (size_c, at_c) =
      map-read_pieces b32tocorner cornertob32 8 0 buf c cornertob32-b32tocorner read_c in
    let (size_e, at_e) =
      map-read_pieces b32toedge edgetob32 12 9 buf e edgetob32-b32toedge read_e in
    let again : ((get_or buf 22 0 + 2 ^ 8 - 65) % 2 ^ 8 + 65) % 2 ^ 8 ≡ get_or buf 22 0 =
      omega arith in
    let end : List ℕ = 61 ∷ ((get_or buf 22 0 + 2 ^ 8 - 65) % 2 ^ 8 + 65) % 2 ^ 8 ∷ 0 ∷ [] in
    let ending : StandsAt end 21 buf =
      StandsAt-cons _ _ 21 buf h21 (
        StandsAt-cons _ _ 22 buf (sym again)
          (StandsAt-cons _ _ 23 buf h23 (StandsAt-nil 24 buf))) in
    let whole : StandsAt (map cornertob32 c ++ (61 ∷ (map edgetob32 e ++ end))) 0 buf =
      StandsAt-append (map cornertob32 c) _ 0 8 buf (omega (arith, length-map cornertob32 c)) at_c (
        StandsAt-cons 61 _ 8 buf h8 (
          StandsAt-append (map edgetob32 e) end 9 21 buf (omega (arith, length-map edgetob32 e))
            at_e ending)) in
    ap (λ t. writecube t n) r
    ∙ writecube-text _ n room
    ∙ ap some (
        StandsAt-all _ buf
          (omega (
            arith,
            length-append (map cornertob32 c) (61 ∷ (map edgetob32 e ++ end)),
            length-append (map edgetob32 e) end,
            length-map cornertob32 c,
            length-map edgetob32 e,
          ))
          whole)
