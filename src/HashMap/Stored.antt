-- ===== src/HashMap/Stored.antt =====
-- One slot of a map written by `insertmin`.
use h.Base.{
  ℕ, suc, ◌+◌, ◌^◌, ◌≤◌, ◌<◌, true, false, not, ◌&&◌, none, some, ◌≡◌, ◌≢◌, refl, sym, ap, ◌∙◌,
  ◌==◌, if◌then◌else◌, arith, of_bool, inl, inr, ℕ_discrete, get_or-set_self, get_or-set_ne, subst,
  ltb, length-set,
}
use h.HashMap.{
  HMap, map_unset, map_unset_val, entry_at, entry_key, entry_val, make_entry, hash, goes_on, value,
  store_min, insertmin,
}
use h.HashMap.Probe.{Finds, slot, slot-lt, Finds-unique, lookup-Finds}
use h.HashMap.Invariant.{
  IsMap, occupied, goes_on-key, goes_on-false, goes_on-true, goes_on-occupied, make_entry-ne_unset,
  entry_key-make_entry, entry_val-make_entry, occupied-set, IsMap-Finds,
}

pub value-Finds :
    (m : HMap) (y s : ℕ)
    → 0 < m.capacity
    → m.capacity < 2 ^ 64
    → Finds m y s
    → value m y ≡ some (entry_val (entry_at m s))
unfolding value
value-Finds m y s pos small f =
    ap (λ o. elim o [ none ↦ none | some i ↦ some (entry_val (entry_at m i)) ])
      (lookup-Finds m pos small y s f)

-- Writing the slot that the key was looked up in, with the hypotheses of `insertmin`.
module _ (m : HMap) (key val i : ℕ) (w : IsMap m) (found : Finds m key i)
    (room : m.n + 1 < m.capacity) (small_key : key < 2 ^ 40) (small_val : val < map_unset_val) where
  abbrev stored : HMap
  stored = store_min m key val i

  in_range : i < m.capacity
  in_range = omega (arith, ap (λ k. suc k) found.there, slot-lt m w.pos w.small key found.round)

  abbrev least : ℕ
  least = if ltb val (entry_val (entry_at m i)) then val else entry_val (entry_at m i)

  least-le : least ≤ val
  least-le = ground arith

  stored_self : entry_at stored i ≡ make_entry key least
  unfolding store_min
  stored_self =
      get_or-set_self m.table i (make_entry key least) map_unset (omega (arith, w.sized, in_range))

  stored_ne : (j : ℕ) → i ≢ j → entry_at stored j ≡ entry_at m j
  unfolding store_min
  stored_ne j ne = get_or-set_ne m.table i j (make_entry key least) map_unset ne

  stored_used : entry_at stored i ≢ map_unset
  stored_used e =
      make_entry-ne_unset key least small_key (omega (arith, least-le)) (sym stored_self ∙ e)

  stored-key : entry_key (entry_at stored i) ≡ key
  stored-key =
      ap entry_key stored_self ∙ entry_key-make_entry key least small_key (omega (arith, least-le))

  goes_on_ne : (y j : ℕ) → i ≢ j → goes_on stored y j ≡ goes_on m y j
  unfolding goes_on
  goes_on_ne y j ne = ap (λ e. not (e == map_unset) && not (entry_key e == y)) (stored_ne j ne)

  -- The slot of another key is not passed over if the key was free to take it.
  other_key : (y : ℕ) → goes_on m y i ≡ true → goes_on stored y i ≡ true
  other_key y go =
      let (used, ne) = goes_on-occupied m y i go in
      goes_on-true stored y i stored_used λ e. elim (goes_on-false m key i found.stops) [
        | inl free ↦ absurd (used free)
        | inr same ↦ absurd (ne (same ∙ sym stored-key ∙ e))
      ]

  still_goes : (y j : ℕ) → goes_on m y j ≡ true → goes_on stored y j ≡ true
  still_goes y j go = elim (ℕ_discrete i j) [
    | yes e ↦ ap (goes_on stored y) (sym e) ∙ other_key y (ap (goes_on m y) e ∙ go)
    | no ne ↦ goes_on_ne y j ne ∙ go
  ]

  Finds-stored : (y s : ℕ) → Finds m y s → goes_on stored y s ≡ false → Finds stored y s
  unfolding store_min hash
  Finds-stored y s f off = record {
    round = f.round;
    in_time = f.in_time;
    there = f.there;
    stops = off;
    before = λ l p. still_goes y (slot m y l) (f.before l p);
  }

  Finds-stored_ne : (y s : ℕ) → Finds m y s → i ≢ s → Finds stored y s
  Finds-stored_ne y s f ne = Finds-stored y s f (goes_on_ne y s ne ∙ f.stops)

  Finds-stored_self : Finds stored key i
  Finds-stored_self = Finds-stored key i found (goes_on-key stored key i stored-key)

  stored-paths :
      (j : ℕ)
      → j < m.capacity
      → entry_at stored j ≢ map_unset
      → Finds stored (entry_key (entry_at stored j)) j
  stored-paths j h used = elim (ℕ_discrete i j) [
    | yes e ↦
        subst (λ k. Finds stored (entry_key (entry_at stored k)) k) e
          (subst (λ k. Finds stored k i) (sym stored-key) Finds-stored_self)
    | no ne ↦
        subst (λ k. Finds stored k j) (ap entry_key (sym (stored_ne j ne)))
          (Finds-stored_ne (entry_key (entry_at m j)) j
            (w.paths j h (λ e. used (stored_ne j ne ∙ e))) ne)
  ]

  stored-counted : stored.n ≡ occupied stored.table
  unfolding store_min
  stored-counted =
      let one : of_bool (entry_at m i == map_unset) ≤ 1 = ground arith in
      omega (
        arith,
        one,
        w.counted,
        w.small,
        occupied-set m.table i (make_entry key least) (omega (arith, w.sized, in_range))
            (make_entry-ne_unset key least small_key (omega (arith, least-le))),
      )

  pub stored-IsMap : IsMap stored
  unfolding store_min
  stored-IsMap = record {
    sized = length-set m.table i (make_entry key least) ∙ w.sized;
    pos = w.pos;
    small = w.small;
    counted = stored-counted;
    paths = stored-paths;
  }

  pub stored-room : stored.n ≤ m.n + 1
  unfolding store_min
  stored-room =
      let one : of_bool (entry_at m i == map_unset) ≤ 1 = ground arith in
      omega (arith, one, w.small)

  pub stored-capacity : stored.capacity ≡ m.capacity
  unfolding store_min
  stored-capacity = refl

  stored-pos : 0 < stored.capacity
  unfolding store_min
  stored-pos = w.pos

  stored-small : stored.capacity < 2 ^ 64
  unfolding store_min
  stored-small = w.small

  pub value-stored_self : value stored key ≡ some least
  value-stored_self =
      value-Finds stored key i stored-pos stored-small Finds-stored_self
      ∙ ap (λ e. some (entry_val e)) stored_self
      ∙ ap some (entry_val-make_entry key least small_key (omega (arith, least-le)))

  -- Another key that stopped at the new slot found it free, and stops at a free slot again.
  was_free : (y : ℕ) → y ≢ key → goes_on m y i ≡ false → entry_at m i ≡ map_unset
  was_free y ne off = elim (goes_on-false m y i off) [
    | inl free ↦ free
    | inr its ↦ elim (goes_on-false m key i found.stops) [
      | inl free ↦ free
      | inr same ↦ absurd (ne (sym its ∙ same))
    ]
  ]

  stays_free : (y t : ℕ) → y ≢ key → Finds m y i → Finds stored y t → entry_at stored t ≡ map_unset
  stays_free y t ne f g = elim (ℕ_discrete (entry_at stored t) map_unset) [
    | yes free ↦ free
    | no used ↦ absurd (elim (goes_on-false stored y t g.stops) [
      | inl free ↦ used free
      | inr its ↦ elim (ℕ_discrete i t) [
        | yes e ↦ ne (sym its ∙ ap (λ k. entry_key (entry_at stored k)) (sym e) ∙ stored-key)
        | no apart ↦
            let here : entry_at stored t ≡ entry_at m t = stored_ne t apart in
            let bound : t < m.capacity = omega (
              arith,
              ap (λ k. suc k) g.there,
              stored-capacity,
              slot-lt stored stored-pos stored-small y g.round,
            ) in
            let path : Finds m y t =
              subst (λ k. Finds m k t) (ap entry_key (sym here) ∙ its)
                (w.paths t bound (λ e. used (here ∙ e))) in
            apart (Finds-unique m w.pos w.small y i t f path)
      ]
    ])
  ]

  -- Looking up another key stops at the same slot, or at a free one instead of the new one.
  pub value-stored_ne : (y : ℕ) → y ≢ key → value stored y ≡ value m y
  value-stored_ne y ne =
      let (s, f) = IsMap-Finds m y w (omega arith) in
      elim (ℕ_discrete i s) [
        | no apart ↦
            value-Finds stored y s stored-pos stored-small (Finds-stored_ne y s f apart)
            ∙ ap (λ e. some (entry_val e)) (stored_ne s apart)
            ∙ sym (value-Finds m y s w.pos w.small f)
        | yes e ↦
            let f' : Finds m y i = subst (Finds m y) (sym e) f in
            let (t, g) =
              IsMap-Finds stored y stored-IsMap (omega (arith, stored-room, stored-capacity)) in
            value-Finds stored y t stored-pos stored-small g
            ∙ ap (λ e. some (entry_val e)) (stays_free y t ne f' g ∙ sym (was_free y ne f'.stops))
            ∙ sym (value-Finds m y i w.pos w.small f')
      ]

  pub insertmin-stored : insertmin m key val ≡ some stored
  unfolding insertmin
  insertmin-stored =
      ap (λ o. elim o [ none ↦ none | some s ↦ some (store_min m key val s) ])
        (lookup-Finds m w.pos w.small key i found)
