-- ===== src/Solutions/Rounds.antt =====
-- One solution and all of them: the rounds of `appendsolution` of src/solvers/solutions.h.
use h.Base.{
  suc, max, dec_lt, ◌⊎◌, ℕ, ◌+◌, ◌^◌, ◌<◌, ◌≤◌, Bool, true, false, ◌&&◌, List, [], ◌++◌, Option,
  none, some, ◌≡◌, refl, ap, ◌∙◌, ltb, leb, if◌then◌else◌, length, arith, inl, inr,
}
use h.Solutions.{
  SolutionMoves, SolutionList, close, appendchar, appendnormal, appendinverse, Round, written,
  no_room, stopped, count_solution, append_second, append_line, Appended, appended, buffer_size,
  unknown,
}
use h.Solutions.Bounds.{
  append_nil, append_assoc, Extends, Extends-trans, appendchar-Extends, appendnormal-Extends,
  appendinverse-Extends,
}

-- What a round leaves behind.
unfoldable pub RoundFrom : SolutionMoves → SolutionList → Round → Type 0
RoundFrom sol l no_room = Unit {0}
RoundFrom sol l (stopped l') = Extends l l'
RoundFrom sol l (written l') = (m : SolutionList) × Extends l m × (l' ≡ count_solution sol m)

round_of :
    {R : Type 0} (P : R → Type 0) (o : Option SolutionList) (d : R) (f : SolutionList → R)
    → P d
    → ((m : SolutionList) → o ≡ some m → P (f m))
    → P (elim o [ none ↦ d | some m ↦ f m ])
round_of P none d f p q = p
round_of P (some m) d f p q = q m refl

RoundFrom-trans :
    (sol : SolutionMoves) {a b : SolutionList} (r : Round)
    → Extends a b
    → RoundFrom sol b r
    → RoundFrom sol a r
unfolding RoundFrom
RoundFrom-trans sol no_room x y = tt
RoundFrom-trans sol (stopped l) x y = Extends-trans x y
RoundFrom-trans sol (written l) x (m, y, e) = (m, Extends-trans x y, e)

either : (t : Bool) {A : Type 0} (x y : A) (P : A → Type 0) → P x → P y → P (if t then x else y)
either true x y P p q = p
either false x y P p q = q

append_second-RoundFrom :
    (first : Bool) (sol : SolutionMoves) (l : SolutionList)
    → l.size < 2 ^ 64
    → length l.buf ≤ l.size
    → RoundFrom sol l (append_second first sol l)
unfolding append_second RoundFrom
append_second-RoundFrom first sol l big h =
    round_of (RoundFrom sol l) (if first then appendinverse sol l else appendnormal sol l) no_room _
      tt
      λ both e.
        let x : Extends l both =
          either first (appendinverse sol l) (appendnormal sol l)
            (λ o. o ≡ some both → Extends l both) (appendinverse-Extends sol l both big h)
            (appendnormal-Extends sol l both big h) e in
        round_of (RoundFrom sol l) (appendchar both 10) no_room _ tt
          λ line e'. (line, Extends-trans x (appendchar-Extends both line 10 e'), refl)

pub append_line-RoundFrom :
    (sol : SolutionMoves) (l : SolutionList)
    → l.size < 2 ^ 64
    → length l.buf ≤ l.size
    → RoundFrom sol l (append_line sol l)
unfolding append_line RoundFrom
append_line-RoundFrom sol l big h =
    let normal_first : Bool = leb (length sol.premoves) (length sol.moves) in
    round_of (RoundFrom sol l) (if normal_first then appendnormal sol l else appendinverse sol l)
      no_room _ tt
      λ first e.
        let x : Extends l first =
          either normal_first (appendnormal sol l) (appendinverse sol l)
            (λ o. o ≡ some first → Extends l first) (appendnormal-Extends sol l first big h)
            (appendinverse-Extends sol l first big h) e in
        let second : (m : SolutionList)
            → Extends l m
            → RoundFrom sol l (append_second normal_first sol m) =
          λ m y.
            RoundFrom-trans sol (append_second normal_first sol m) y
              (append_second-RoundFrom normal_first sol m (omega (arith, y.same_size)) y.used) in
        either (ltb 0 (length sol.moves) && ltb 0 (length sol.premoves)) _ _ (RoundFrom sol l)
          (round_of (RoundFrom sol l) (appendchar first 32) (stopped first) _ x
            λ space e'. second space (Extends-trans x (appendchar-Extends first space 32 e')))
          (second first x)

-- The list `l'` and the count `r` that `appendsolution` comes back with, from `l` after `k` solutions,
-- for at most `most_sols` solutions of at most `total` moves.
pub record Grows (most_sols total k : ℕ) (l : SolutionList) (r : ℕ) (l' : SolutionList)
    : Type 0 where
  pub used : length l'.buf ≤ l'.size
  pub reach :
      (l'.extent ≤ max l.extent l.size)
      ⊎ ((length l'.buf ≡ l'.size) × (l'.extent ≤ max l.extent (suc l.size)))
  pub zero_after : ((l'.closed ≡ true) × (length l'.buf < l'.extent)) ⊎ (r ≡ 0)
  pub same_size : l'.size ≡ l.size
  pub added : List ℕ
  pub text : l'.buf ≡ l.buf ++ added
  pub more : l.nsols ≤ l'.nsols
  pub most : (l'.nsols ≤ most_sols) ⊎ (l'.nsols ≡ l.nsols)
  pub counted : (r ≡ 0) ⊎ (l'.nsols + k ≡ l.nsols + r)
  pub shorter : l'.shortest_sol ≤ l.shortest_sol
  pub found : (0 < k → l.shortest_sol ≤ total) → 0 < r → l'.shortest_sol ≤ total

unfoldable pub GrowsTo : ℕ → ℕ → ℕ → SolutionList → Appended → Type 0
GrowsTo most_sols total k l (appended r l') = Grows most_sols total k l r l'
GrowsTo most_sols total k l buffer_size = Unit {0}
GrowsTo most_sols total k l unknown = Unit {0}

pub Grows-close :
    (most_sols total k : ℕ) (l : SolutionList)
    → length l.buf ≤ l.size
    → Grows most_sols total k l k (close l)
unfolding close
Grows-close most_sols total k l h = record {
  used = h;
  reach = elim (dec_lt (length l.buf) l.size) [
    | yes room ↦ inl (omega arith)
    | no full ↦ inr (omega (arith, full), omega (arith, full))
  ];
  zero_after = inl (refl, omega arith);
  same_size = refl;
  added = [];
  text = append_nil l.buf;
  more = omega arith;
  most = inr refl;
  counted = inr refl;
  shorter = omega arith;
  found = λ f p. f p;
}

-- A solution is written, then the rest.
pub GrowsTo-written :
    (most_sols total k : ℕ) (s : SolutionMoves) (l m : SolutionList) (a : Appended)
    → Extends l m
    → l.nsols < most_sols
    → length s.moves + length s.premoves ≤ total
    → GrowsTo most_sols total (k + 1) (count_solution s m) a
    → GrowsTo most_sols total k l a
unfolding GrowsTo count_solution
GrowsTo-written most_sols total k s l m (appended r l') x below small g = record {
  used = g.used;
  reach = elim (g.reach) [
    | inl e ↦ inl (omega (arith, e, x.inside, x.same_size))
    | inr (full, e) ↦ inr (full, omega (arith, e, x.inside, x.same_size))
  ];
  zero_after = g.zero_after;
  same_size = g.same_size ∙ x.same_size;
  added = x.added ++ g.added;
  text = g.text ∙ ap (λ t. t ++ g.added) x.text ∙ append_assoc l.buf x.added g.added;
  more = omega (arith, g.more, x.same_nsols);
  most = elim (g.most) [ inl e ↦ inl e | inr e ↦ inl (omega (arith, e, x.same_nsols)) ];
  counted = elim (g.counted) [ inl e ↦ inl e | inr e ↦ inr (omega (arith, e, x.same_nsols)) ];
  shorter = omega (arith, g.shorter, x.same_shortest);
  found = λ f p. g.found (λ q. omega arith) p;
}
GrowsTo-written most_sols total k s l m buffer_size x below small g = tt
GrowsTo-written most_sols total k s l m unknown x below small g = tt

pub GrowsTo-stopped :
    (most_sols total k : ℕ) (l l' : SolutionList)
    → Extends l l'
    → GrowsTo most_sols total k l (appended 0 l')
unfolding GrowsTo
GrowsTo-stopped most_sols total k l l' x = record {
  used = x.used;
  reach = inl x.inside;
  zero_after = inr refl;
  same_size = x.same_size;
  added = x.added;
  text = x.text;
  more = omega (arith, x.same_nsols);
  most = inr x.same_nsols;
  counted = inl refl;
  shorter = omega (arith, x.same_shortest);
  found = λ f p. absurd (omega arith);
}
