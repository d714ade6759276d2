-- ===== src/Solutions/Bounds.antt =====
-- The buffer under `appendsolution` of src/solvers/solutions.h.
use h.Base.{
  ltb→lt, subst, ◌⊎◌, ℕ, ◌+◌, ◌-◌, ◌%◌, ◌^◌, ◌<◌, ◌≤◌, max, Bool, true, false, List, [], ◌∷◌, ◌++◌,
  Option, none, some, ◌≡◌, refl, sym, ap, ◌∙◌, ◌==◌, ltb, leb, if◌then◌else◌, length, length-append,
  arith, inl, inr,
}
use mathlib.Core.Option.{none-ne-some, some-injective}
use h.MoveText.Loop.{spaced}
use h.MoveText.Write.{writemoves}
use h.MoveText.Written.{writemoves_lem}
use h.Solutions.{
  SolutionMoves, SolutionList, appendchar, close, append_moves, appendnormal, appendinverse,
}

-- `l'` is `l` with text added, and no byte was written outside its size.
pub record Extends (l l' : SolutionList) : Type 0 where
  pub used : length l'.buf ≤ l'.size
  pub inside : l'.extent ≤ max l.extent l.size
  pub same_size : l'.size ≡ l.size
  pub same_nsols : l'.nsols ≡ l.nsols
  pub same_shortest : l'.shortest_sol ≡ l.shortest_sol
  pub added : List ℕ
  pub text : l'.buf ≡ l.buf ++ added

pub append_nil : (xs : List ℕ) → xs ≡ xs ++ []
append_nil [] = refl
append_nil (x ∷ xs) = ap (λ t. x ∷ t) (append_nil xs)

pub append_assoc : (xs ys zs : List ℕ) → (xs ++ ys) ++ zs ≡ xs ++ (ys ++ zs)
append_assoc [] ys zs = refl
append_assoc (x ∷ xs) ys zs = ap (λ t. x ∷ t) (append_assoc xs ys zs)

pub Extends-refl : (l : SolutionList) → length l.buf ≤ l.size → Extends l l
Extends-refl l h = record {
  used = h;
  inside = omega arith;
  same_size = refl;
  same_nsols = refl;
  same_shortest = refl;
  added = [];
  text = append_nil l.buf;
}

pub Extends-trans : {a b c : SolutionList} → Extends a b → Extends b c → Extends a c
Extends-trans {a} {b} {c} f g = record {
  used = g.used;
  inside = omega (arith, f.inside, g.inside, f.same_size);
  same_size = g.same_size ∙ f.same_size;
  same_nsols = g.same_nsols ∙ f.same_nsols;
  same_shortest = g.same_shortest ∙ f.same_shortest;
  added = f.added ++ g.added;
  text = g.text ∙ ap (λ t. t ++ g.added) f.text ∙ append_assoc a.buf f.added g.added;
}

-- A chain that gives a value: its first part does.
pub then_value :
    {A B : Type 0} (o : Option A) (f : A → Option B) (b : B)
    → (elim o [ none ↦ none | some a ↦ f a ]) ≡ some b
    → (a : A) × (o ≡ some a) × (f a ≡ some b)
then_value none f b e = absurd (none-ne-some b e)
then_value (some a) f b e = (a, refl, e)

pub if_value :
    {A : Type 0} (t : Bool) (x y : Option A) (b : A)
    → (if t then x else y) ≡ some b
    → ((t ≡ true) × (x ≡ some b)) ⊎ ((t ≡ false) × (y ≡ some b))
if_value true x y b e = inl (refl, e)
if_value false x y b e = inr (refl, e)

pub appendchar-Extends : (l l' : SolutionList) (c : ℕ) → appendchar l c ≡ some l' → Extends l l'
unfolding appendchar
appendchar-Extends l l' c e = elim (if_value (leb l.size (length l.buf)) none _ l' e) [
  | inl (full, wrong) ↦ absurd (none-ne-some l' wrong)
  | inr (room, right) ↦ subst (Extends l) (some-injective _ _ right) (record {
    used = ground (arith, length-append l.buf (c ∷ []));
    inside = ground (arith, room);
    same_size = refl;
    same_nsols = refl;
    same_shortest = refl;
    added = c ∷ [];
    text = refl;
  })
]

room_left :
    (size used n : ℕ)
    → used ≤ size
    → size < 2 ^ 64
    → n < (size + 2 ^ 64 - used) % 2 ^ 64
    → used + n < size
room_left size used n h big lt = omega arith

pub append_moves-Extends :
    (ms : List ℕ) (l l' : SolutionList)
    → l.size < 2 ^ 64
    → length l.buf ≤ l.size
    → append_moves ms l ≡ some l'
    → Extends l l'
unfolding append_moves close
append_moves-Extends ms l l' big h e =
    let (text, written_text, right) =
      then_value (writemoves ms ((l.size + 2 ^ 64 - length l.buf) % 2 ^ 64)) _ l' e in
    elim (if_value (ltb (length (spaced ms)) ((l.size + 2 ^ 64 - length l.buf) % 2 ^ 64))
      (some (spaced ms)) none text (sym (writemoves_lem ms _) ∙ written_text)) [
        | inr (full, wrong) ↦ absurd (none-ne-some text wrong)
        | inl (room, same) ↦
            let text_size : length (spaced ms) ≡ length text =
              ap length (some-injective _ _ same) in
            let below =
              room_left l.size (length l.buf) (length (spaced ms)) h big (ltb→lt _ _ room) in
            subst (Extends l) (some-injective _ _ right) (record {
              used = omega (arith, length-append l.buf text, text_size, below);
              inside = omega (arith, length-append l.buf text, text_size, below);
              same_size = refl;
              same_nsols = refl;
              same_shortest = refl;
              added = text;
              text = refl;
            })
      ]

module _ (sol : SolutionMoves) (l l' : SolutionList) (big : l.size < 2 ^ 64)
    (h : length l.buf ≤ l.size) where
  pub appendnormal-Extends : appendnormal sol l ≡ some l' → Extends l l'
  unfolding appendnormal
  appendnormal-Extends e =
      elim (if_value (length sol.moves == 0) (some l) (append_moves sol.moves l) l' e) [
        | inl (none_there, same) ↦ subst (Extends l) (some-injective _ _ same) (Extends-refl l h)
        | inr (some_there, right) ↦ append_moves-Extends sol.moves l l' big h right
      ]

  pub appendinverse-Extends : appendinverse sol l ≡ some l' → Extends l l'
  unfolding appendinverse
  appendinverse-Extends e = elim (if_value (length sol.premoves == 0) (some l) _ l' e) [
    | inl (none_there, same) ↦ subst (Extends l) (some-injective _ _ same) (Extends-refl l h)
    | inr (some_there, right) ↦
        let (start, e1, rest) = then_value (appendchar l 40) _ l' right in
        let (inside, e2, e3) = then_value (append_moves sol.premoves start) _ l' rest in
        let x1 : Extends l start = appendchar-Extends l start 40 e1 in
        let x2 : Extends start inside =
          append_moves-Extends sol.premoves start inside (omega (arith, x1.same_size)) x1.used e2 in
        Extends-trans x1 (Extends-trans x2 (appendchar-Extends inside l' 41 e3))
  ]
