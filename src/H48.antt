-- ===== src/H48.antt =====
-- The coordinate of the H48 tables: src/solvers/h48/coordinate.h and coordinate_types_macros.h. The table
-- of the classes of corners and the cubes that represent them are arguments.
pub mod Roundtrip
use h.Base.{ℕ, ◌+◌, ◌-◌, ◌*◌, ◌/◌, ◌%◌, ◌^◌, bit_and, List, get_or}
use h.Cube.{Cube, zero_cube}
use h.Transform.{transform_edges}
use h.Coordinates.{coord_eo, set_eo}
use h.Separation.{coord_esep, coord_cocsep, invcoord_esep, copy_corners}

abbrev pub comb_12_4 : ℕ
comb_12_4 = 495

abbrev pub comb_8_4 : ℕ
comb_8_4 = 70

unfoldable pub h48_esize : ℕ → ℕ
h48_esize h = comb_12_4 * comb_8_4 * 2 ^ h

abbrev pub coclass_mask : ℕ
coclass_mask = 0xFFFF0000

abbrev pub ttrep_mask : ℕ
ttrep_mask = 0xFF00

unfoldable pub coclass : ℕ → ℕ
coclass x = bit_and x coclass_mask / 2 ^ 16

unfoldable pub ttrep : ℕ → ℕ
ttrep x = bit_and x ttrep_mask / 2 ^ 8

unfoldable pub coord_h48_edges : Cube → ℕ → ℕ → ℕ → ℕ
unfolding transform_edges coord_esep coord_eo h48_esize
coord_h48_edges c coclass ttrep h =
    let d = transform_edges c ttrep in
    let edges = coord_esep d * 2 ^ 11 + coord_eo d in
    (coclass * h48_esize 11 + edges) / 2 ^ (11 - h)

unfoldable pub coord_h48 : Cube → List ℕ → ℕ → ℕ
unfolding coord_cocsep coclass ttrep coord_h48_edges
coord_h48 c cocsepdata h =
    let entry = get_or cocsepdata (coord_cocsep c) 0 in
    coord_h48_edges c (coclass entry) (ttrep entry) h

unfoldable pub invcoord_h48 : ℕ → List Cube → ℕ → Cube
unfolding h48_esize invcoord_esep copy_corners set_eo
invcoord_h48 i crep h =
    let coclass = i / h48_esize h in
    let ee = i % h48_esize h in
    let esep = ee / 2 ^ h in
    let eo = bit_and ee (2 ^ h - 1) * 2 ^ (11 - h) in
    set_eo (copy_corners (invcoord_esep esep) (get_or crep coclass zero_cube)) eo
