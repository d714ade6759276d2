-- ===== src/MoveText/Tokens.antt =====
-- The names of the moves are read back, whatever text follows after a space.
use h.Base.{
  ℕ, ◌<◌, Bool, true, false, not, ◌&&◌, List, [], ◌∷◌, ◌++◌, Option, none, some, ◌==◌,
  if◌then◌else◌, get_or, ◌≡◌, refl, sym, ap, ◌∙◌, Bool-cases, all_below, all_below_sound, inl, inr,
  ==_iff,
}
use h.MoveText.{movestr, is_space, readmove, readmodifier, take_wide, take_modifier, read_token}
use h.Moves.{uint8_error}
use mathlib.Core.Option.{none-ne-some, some-injective}
use mathlib.Core.Bool.{true≢false}

-- The end of a text, or a text that starts with a space.
pub data Apart : List ℕ → Type 0 where
  at_end : Apart []
  at_space : {cs : List ℕ} → Apart (32 ∷ cs)

take_wide-append :
    (m : ℕ) (cs rest : List ℕ)
    → Apart rest
    → take_wide m (cs ++ rest) ≡ ((take_wide m cs).0, (take_wide m cs).1 ++ rest)
unfolding take_wide
take_wide-append m [] _ at_end = refl
take_wide-append m [] _ at_space = refl
take_wide-append m (c ∷ cs) rest h = elim (Bool-cases (c == 119)) [
  | inl e ↦ rw e refl
  | inr e ↦ rw e refl
]

take_modifier-append :
    (m : ℕ) (cs rest : List ℕ)
    → Apart rest
    → take_modifier m (cs ++ rest) ≡ ((take_modifier m cs).0, (take_modifier m cs).1 ++ rest)
unfolding take_modifier
take_modifier-append m [] _ at_end = refl
take_modifier-append m [] _ at_space = refl
take_modifier-append m (c ∷ cs) rest h = elim (Bool-cases (readmodifier c == 0)) [
  | inl e ↦ rw e refl
  | inr e ↦ rw e refl
]

read_token-letter :
    (c : ℕ) (cs : List ℕ)
    → (readmove c == uint8_error) ≡ false
    → read_token c cs
      ≡ some (take_modifier (take_wide (readmove c) cs).0 (take_wide (readmove c) cs).1)
unfolding read_token
read_token-letter c cs h =
    ap
      (λ t.
        if t
        then none
        else some (take_modifier (take_wide (readmove c) cs).0 (take_wide (readmove c) cs).1))
      h

read_token-none :
    (c : ℕ) (cs : List ℕ) → (readmove c == uint8_error) ≡ true → read_token c cs ≡ none
unfolding read_token
read_token-none c cs h =
    ap
      (λ t.
        if t
        then none
        else some (take_modifier (take_wide (readmove c) cs).0 (take_wide (readmove c) cs).1))
      h

-- A text that follows apart is not read.
pub read_token-append :
    (c m : ℕ) (cs zs rest : List ℕ)
    → Apart rest
    → read_token c cs ≡ some (m, zs)
    → read_token c (cs ++ rest) ≡ some (m, zs ++ rest)
read_token-append c m cs zs rest h e = elim (Bool-cases (readmove c == uint8_error)) [
  | inl wrong ↦ absurd (none-ne-some (m, zs) (sym (read_token-none c cs wrong) ∙ e))
  | inr right ↦
      let w : ℕ × List ℕ = take_wide (readmove c) cs in
      read_token-letter c (cs ++ rest) right
      ∙ ap (λ t. some (take_modifier t.0 t.1)) (take_wide-append (readmove c) cs rest h)
      ∙ ap some (take_modifier-append w.0 w.1 rest h)
      ∙ ap (λ t. some (t.0, t.1 ++ rest))
          (some-injective (take_modifier w.0 w.1) (m, zs) (sym (read_token-letter c cs right) ∙ e))
]

-- The name of a move: its letter, which is no space and no parenthesis, and the rest.
pub record Named (m : ℕ) : Type 0 where
  pub letter : ℕ
  pub tail : List ℕ
  pub spelled : get_or movestr m [] ≡ letter ∷ tail
  pub no_space : is_space letter ≡ false
  pub no_open : (letter == 40) ≡ false
  pub no_close : (letter == 41) ≡ false
  pub reads : read_token letter tail ≡ some (m, [])

reads_to : Option (ℕ × List ℕ) → ℕ → Bool
reads_to (some (n, [])) m = n == m
reads_to _ m = false

name_ok : List ℕ → ℕ → Bool
name_ok [] m = false
name_ok (c ∷ cs) m =
    not (is_space c) && (not (c == 40) && (not (c == 41) && reads_to (read_token c cs) m))

names_ok : all_below 54 (λ m. name_ok (get_or movestr m []) m) ≡ true
unfolding all_below name_ok reads_to read_token is_space
names_ok = refl

reads_to_sound : (o : Option (ℕ × List ℕ)) (m : ℕ) → reads_to o m ≡ true → o ≡ some (m, [])
unfolding reads_to
reads_to_sound none m h = absurd (true≢false (sym h))
reads_to_sound (some (n, [])) m h = ap (λ k. some (k, [])) ((==_iff n m).0 h)
reads_to_sound (some (n, c ∷ cs)) m h = absurd (true≢false (sym h))

both : (p q : Bool) → (p && q) ≡ true → (p ≡ true) × (q ≡ true)
both true q e = (refl, e)
both false q e = absurd (true≢false (sym e))

negated : (p : Bool) → not p ≡ true → p ≡ false
negated true e = absurd (true≢false (sym e))
negated false e = refl

name_ok_sound : (s : List ℕ) (m : ℕ) → get_or movestr m [] ≡ s → name_ok s m ≡ true → Named m
unfolding name_ok
name_ok_sound [] m e h = absurd (true≢false (sym h))
name_ok_sound (c ∷ cs) m e h =
    let (s, h1) =
      both (not (is_space c)) (not (c == 40) && (not (c == 41) && reads_to (read_token c cs) m))
        h in
    let (o, h2) = both (not (c == 40)) (not (c == 41) && reads_to (read_token c cs) m) h1 in
    let (p, h3) = both (not (c == 41)) (reads_to (read_token c cs) m) h2 in
    record {
      letter = c;
      tail = cs;
      spelled = e;
      no_space = negated (is_space c) s;
      no_open = negated (c == 40) o;
      no_close = negated (c == 41) p;
      reads = reads_to_sound (read_token c cs) m h3;
    }

-- Every one of the 54 moves has such a name.
pub movestr-Named : (m : ℕ) → m < 54 → Named m
movestr-Named m h =
    name_ok_sound (get_or movestr m []) m refl
      (all_below_sound 54 (λ k. name_ok (get_or movestr k []) k) m names_ok h)
