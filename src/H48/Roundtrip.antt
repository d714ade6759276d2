-- ===== src/H48/Roundtrip.antt =====
-- The H48 coordinate of the cube that is made of a number: src/solvers/h48/coordinate.h.
use h.Base.{
  ℕ, zero, suc, ◌+◌, ◌-◌, ◌*◌, ◌/◌, ◌%◌, ◌^◌, ◌<◌, ◌≤◌, List, ◌≡◌, refl, ap, ap₂, ◌∙◌, get_or,
  arith,
}
use h.Base.Bits.{bit_and_low}
use h.Cube.{Cube, zero_cube}
use h.Transform.{transform_edges, trans_switch}
use h.Coordinates.{coord_eo, set_eo, coord_co}
use h.Separation.{coord_esep, coord_cocsep, coord_csep, invcoord_esep, copy_corners}
use h.Separation.Flipped.{coord_esep-set_eo_made}
use h.H48.{h48_esize, coclass, ttrep, coord_h48, coord_h48_edges, invcoord_h48}

-- A statement about every `h` up to 11.
up_to_11 :
    (P : ℕ → Type 0)
    → P 0
    → P 1
    → P 2
    → P 3
    → P 4
    → P 5
    → P 6
    → P 7
    → P 8
    → P 9
    → P 10
    → P 11
    → (h : ℕ) → h ≤ 11
    → P h
up_to_11 P p0 p1 p2 p3 p4 p5 p6 p7 p8 p9 p10 p11 = go
  where
    go : (h : ℕ) → h ≤ 11 → P h
    go zero l = p0
    go (suc zero) l = p1
    go (suc (suc zero)) l = p2
    go (suc (suc (suc zero))) l = p3
    go (suc (suc (suc (suc zero)))) l = p4
    go (suc (suc (suc (suc (suc zero))))) l = p5
    go (suc (suc (suc (suc (suc (suc zero)))))) l = p6
    go (suc (suc (suc (suc (suc (suc (suc zero))))))) l = p7
    go (suc (suc (suc (suc (suc (suc (suc (suc zero)))))))) l = p8
    go (suc (suc (suc (suc (suc (suc (suc (suc (suc zero))))))))) l = p9
    go (suc (suc (suc (suc (suc (suc (suc (suc (suc (suc zero)))))))))) l = p10
    go (suc (suc (suc (suc (suc (suc (suc (suc (suc (suc (suc zero))))))))))) l = p11
    go (suc (suc (suc (suc (suc (suc (suc (suc (suc (suc (suc (suc h)))))))))))) l =
        absurd (omega arith)

-- The parts of the number are in their ranges and put together again.
abbrev Parts : ℕ → ℕ → Type 0
Parts i h =
    (i % (34650 * 2 ^ h) / 2 ^ h < 34650)
    × (i % (34650 * 2 ^ h) % 2 ^ h * 2 ^ (11 - h) < 2048)
    × ((i / (34650 * 2 ^ h) * (34650 * 2 ^ 11)
            + (i % (34650 * 2 ^ h) / 2 ^ h * 2 ^ 11 + i % (34650 * 2 ^ h) % 2 ^ h * 2 ^ (11 - h)))
          / 2 ^ (11 - h)
        ≡ i)

parts : (i h : ℕ) → h ≤ 11 → Parts i h
parts i =
    up_to_11 (Parts i) (omega arith, omega arith, omega arith)
      (omega arith, omega arith, omega arith) (omega arith, omega arith, omega arith)
      (omega arith, omega arith, omega arith) (omega arith, omega arith, omega arith)
      (omega arith, omega arith, omega arith) (omega arith, omega arith, omega arith)
      (omega arith, omega arith, omega arith) (omega arith, omega arith, omega arith)
      (omega arith, omega arith, omega arith) (omega arith, omega arith, omega arith)
      (omega arith, omega arith, omega arith)

coord_h48_edges-zero :
    (c : Cube) (k h : ℕ)
    → coord_h48_edges c k 0 h
      ≡ (k * (34650 * 2 ^ 11) + (coord_esep c * 2 ^ 11 + coord_eo c)) / 2 ^ (11 - h)
unfolding coord_h48_edges h48_esize transform_edges trans_switch
coord_h48_edges-zero c k h = refl

module _ (crep : List Cube) (i h : ℕ) where
  esep_of : ℕ
  esep_of = i % (34650 * 2 ^ h) / 2 ^ h

  eo_of : ℕ
  eo_of = i % (34650 * 2 ^ h) % 2 ^ h * 2 ^ (11 - h)

  corner_of : List ℕ
  corner_of = (get_or crep (i / (34650 * 2 ^ h)) zero_cube).corner

  invcoord_h48_made :
      invcoord_h48 i crep h ≡ set_eo (record (invcoord_esep esep_of) { corner = corner_of }) eo_of
  unfolding invcoord_h48 h48_esize copy_corners esep_of eo_of corner_of
  invcoord_h48_made =
      ap
        (λ e.
          set_eo
            (record (invcoord_esep (i % (34650 * 2 ^ h) / 2 ^ h)) {
              corner = (get_or crep (i / (34650 * 2 ^ h)) zero_cube).corner;
            })
            (e * 2 ^ (11 - h)))
        (bit_and_low h (i % (34650 * 2 ^ h)))

  invcoord_h48_parts :
      h ≤ 11
      → (coord_esep (invcoord_h48 i crep h) ≡ i % (34650 * 2 ^ h) / 2 ^ h)
        × (coord_eo (invcoord_h48 i crep h) ≡ i % (34650 * 2 ^ h) % 2 ^ h * 2 ^ (11 - h))
  unfolding esep_of eo_of
  invcoord_h48_parts l =
      let (small, low, whole) = parts i h l in
      let (e, f) = coord_esep-set_eo_made esep_of eo_of corner_of small low in
      (ap coord_esep invcoord_h48_made ∙ e, ap coord_eo invcoord_h48_made ∙ f)

-- The edges of the cube that `invcoord_h48` makes of a number give the number back with its class and no
-- symmetry, whatever the representatives of the classes are, for a depth of flips `h` up to 11.
pub coord_h48_edges-invcoord_h48 :
    (crep : List Cube) (i h : ℕ)
    → h ≤ 11
    → coord_h48_edges (invcoord_h48 i crep h) (i / h48_esize h) 0 h ≡ i
unfolding h48_esize
coord_h48_edges-invcoord_h48 crep i h l =
    let (e, f) = invcoord_h48_parts crep i h l in
    let (small, low, whole) = parts i h l in
    coord_h48_edges-zero (invcoord_h48 i crep h) (i / (34650 * 2 ^ h)) h
    ∙ ap₂ (λ a b. (i / (34650 * 2 ^ h) * (34650 * 2 ^ 11) + (a * 2 ^ 11 + b)) / 2 ^ (11 - h)) e f
    ∙ whole

coord_cocsep-corner : (c d : Cube) → c.corner ≡ d.corner → coord_cocsep c ≡ coord_cocsep d
unfolding coord_cocsep coord_co coord_csep
coord_cocsep-corner c d e =
    ap (λ k. coord_co (record c { corner = k }) * 2 ^ 7 + coord_csep (record c { corner = k })) e

invcoord_h48_corner :
    (crep : List Cube) (i h : ℕ)
    → (invcoord_h48 i crep h).corner ≡ (get_or crep (i / h48_esize h) zero_cube).corner
unfolding invcoord_h48 h48_esize copy_corners
invcoord_h48_corner crep i h = refl

-- A number is the coordinate of the cube that `invcoord_h48` makes of it, for a depth of flips `h` up to
-- 11, when the table gives the representative of the number's class that class and no symmetry.
pub coord_h48-invcoord_h48 :
    (cocsepdata : List ℕ) (crep : List Cube) (i h : ℕ)
    → h ≤ 11
    → coclass (get_or cocsepdata (coord_cocsep (get_or crep (i / h48_esize h) zero_cube)) 0)
      ≡ i / h48_esize h
    → ttrep (get_or cocsepdata (coord_cocsep (get_or crep (i / h48_esize h) zero_cube)) 0) ≡ 0
    → coord_h48 (invcoord_h48 i crep h) cocsepdata h ≡ i
unfolding coord_h48
coord_h48-invcoord_h48 cocsepdata crep i h l class none =
    let same =
      coord_cocsep-corner (invcoord_h48 i crep h) (get_or crep (i / h48_esize h) zero_cube)
        (invcoord_h48_corner crep i h) in
    ap
      (λ k.
        coord_h48_edges (invcoord_h48 i crep h) (coclass (get_or cocsepdata k 0))
          (ttrep (get_or cocsepdata k 0)) h)
      same
    ∙ ap₂ (λ k t. coord_h48_edges (invcoord_h48 i crep h) k t h) class none
    ∙ coord_h48_edges-invcoord_h48 crep i h l
