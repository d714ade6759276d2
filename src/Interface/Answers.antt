-- ===== src/Interface/Answers.antt =====
-- What the functions of src/nissy.c answer on the text of a cube.
use h.Base.{
  ℕ, ◌<◌, ◌≡◌, refl, sym, ap, ap₂, ◌∙◌, [], Bool, true, false, not, List, none, some, if◌then◌else◌,
  arith,
}
use h.Cube.Group.{IsCube}
use h.Oriented.{OrientedCube, isconsistent, zero_oriented_cube}
use h.Oriented.Consistent.{isconsistent-IsCube}
use h.CubeText.{readcube, writecube}
use h.CubeText.Roundtrip.{readcube-writecube}
use h.Solvable.{issolvable}
use h.Transform.{transform}
use h.Transform.Laws.{transform-IsCube}
use h.TransText.{applytrans, writetrans, applytrans-writetrans}
use h.Interface.{
  Code, nissy_error_invalid_cube, nissy_error_invalid_trans, nissy_warning_unsolvable, nissy_ok,
  write_result, result_of, nissy_applytrans,
}

result_of-some : (c : OrientedCube) (t : List ℕ) → writecube c 24 ≡ some t → result_of c ≡ t
unfolding result_of
result_of-some c t e = ap (λ o. elim o [ none ↦ [] | some text ↦ text ]) e

not_swap : (b : Bool) (x y : Code) → (if not b then x else y) ≡ (if b then y else x)
not_swap true x y = refl
not_swap false x y = refl

write_result_code :
    (c : OrientedCube)
    → write_result c ≡ (if issolvable c then nissy_ok else nissy_warning_unsolvable, result_of c)
unfolding write_result
write_result_code c =
    ap (λ k. (k, result_of c)) (not_swap (issolvable c) nissy_warning_unsolvable nissy_ok)

-- The text of a result is read back as the cube.
write_result_lem :
    (c : OrientedCube)
    → IsCube c.cube
    → c.orientation < 24
    → (text : List ℕ) × (write_result c
        ≡ (if issolvable c then nissy_ok else nissy_warning_unsolvable, text))
      × (readcube text ≡ c)
write_result_lem c hc ho =
    let (text, written, _, back) = readcube-writecube c 24 hc ho (omega arith) in
    (
      text,
      write_result_code c
          ∙ ap (λ t. (if issolvable c then nissy_ok else nissy_warning_unsolvable, t))
              (result_of-some c text written),
      back,
    )

pick : Bool → Bool → Code × List ℕ → Code × List ℕ
pick hc hd answer =
    if not hc
    then (nissy_error_invalid_cube, result_of zero_oriented_cube)
    else if not hd
    then (nissy_error_invalid_trans, result_of zero_oriented_cube)
    else answer

applytrans_answer :
    (text name : List ℕ) (c d : OrientedCube)
    → readcube text ≡ c
    → applytrans c name ≡ d
    → isconsistent c ≡ true
    → isconsistent d ≡ true
    → nissy_applytrans text name ≡ write_result d
unfolding nissy_applytrans pick
applytrans_answer text name c d read moved hc hd =
    ap
      (λ x.
        pick (isconsistent x) (isconsistent (applytrans x name)) (write_result (applytrans x name)))
      read
    ∙ ap (λ x. pick (isconsistent c) (isconsistent x) (write_result x)) moved
    ∙ ap₂ (λ a b. pick a b (write_result d)) hc hd

-- On the text of a cube of the puzzle with an orientation below 24 and the written name of a symmetry,
-- `nissy_applytrans` answers with a text that is read as the transformed cube with the same orientation, and warns
-- exactly when that is not solvable.
pub nissy_applytrans_lem :
    (text : List ℕ) (c : OrientedCube) (t : ℕ)
    → IsCube c.cube
    → c.orientation < 24
    → t < 48
    → writecube c 24 ≡ some text
    → (result : List ℕ) × (nissy_applytrans text (writetrans t) ≡ (
      if issolvable (record c { cube = transform c.cube t })
          then nissy_ok
          else nissy_warning_unsolvable,
      result,
    ))
      × (readcube result ≡ record c { cube = transform c.cube t })
nissy_applytrans_lem text c t hc ho ht written =
    let d : OrientedCube = record c { cube = transform c.cube t } in
    let hd : IsCube d.cube = transform-IsCube t ht hc in
    let (text', written', _, back) = readcube-writecube c 24 hc ho (omega arith) in
    let read : readcube text ≡ c =
      ap readcube (sym (result_of-some c text written) ∙ result_of-some c text' written') ∙ back in
    let (result, answer, read') = write_result_lem d hd ho in
    (
      result,
      applytrans_answer text (writetrans t) c d read (applytrans-writetrans c t ht)
            (isconsistent-IsCube c hc ho) (isconsistent-IsCube d hd ho)
          ∙ answer,
      read',
    )
