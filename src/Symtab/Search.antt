-- ===== src/Symtab/Search.antt =====
-- What the finder answers, call by call.
use mathlib.Core.Path.{subst}
use eel.Prelude.{
  ℕ, zero, suc, ◌<◌, ◌≡◌, ◌∙◌, refl, sym, ap, Bool, true, false, Option, none, some, List, [], ◌∷◌,
  arith, if◌then◌else◌,
}
use eel.Symtab.{
  Entry, Table, Finder, matches, following, Round, complete, again, tested, round, finder_go,
}
use eel.Symtab.Visits.{visits, IsFresh, IsDirected, IsRound, measure, round_at-IsRound}

-- The first table that passes, and those after it.
abbrev pub first : (Entry → Bool) → List Table → Option (Table × List Table)
first p [] = none
first p (t ∷ ts) = let rest = first p ts in if p t.entry then some (t, ts) else rest

-- The finder `g`, and the answer `hit`, are what the search of `ts` by `r` should give.
abbrev pub IsAnswer : Finder → Option (Table × List Table) → Option Table → Finder → Type 0
IsAnswer f none hit g = hit ≡ none
IsAnswer f (some (t, ts)) hit g =
    (hit ≡ some t) × (g.rules ≡ f.rules) × (visits g ≡ ts) × (measure g < measure f)

-- The search from `f` with the given fuel ends, and its answer is the first match.
abbrev pub Answers : ℕ → Finder → Type 0
Answers fuel f =
    (hit : Option Table) × (g : Finder) × (finder_go fuel f ≡ some (hit, g))
    × IsAnswer f (first (matches f.rules) (visits f)) hit g

IsAnswer-later :
    (f f' : Finder) (o : Option (Table × List Table)) (hit : Option Table) (g : Finder)
    → f'.rules ≡ f.rules
    → measure f' < measure f
    → IsAnswer f' o hit g
    → IsAnswer f o hit g
IsAnswer-later f f' none hit g e m a = a
IsAnswer-later f f' (some (t, ts)) hit g e m a = (a.0, a.1 ∙ e, a.2, omega (arith, m, a.3))

go_complete :
    (fuel : ℕ) (f g : Finder) → round f ≡ complete g → finder_go (suc fuel) f ≡ some (none, g)
unfolding finder_go
go_complete fuel f g e = rw (e, finder_go) refl

go_again : (fuel : ℕ) (f g : Finder) → round f ≡ again g → finder_go (suc fuel) f ≡ finder_go fuel g
unfolding finder_go
go_again fuel f g e = rw (e, finder_go) refl

go_tested :
    (fuel : ℕ) (f g : Finder) (hit : Bool) (st : Table)
    → round f ≡ tested hit st g
    → finder_go (suc fuel) f ≡ (if hit then some (some st, g) else finder_go fuel g)
unfolding finder_go
go_tested fuel f g hit st e = rw (e, finder_go) refl

pub first_hit :
    (p : Entry → Bool) (t : Table) (ts : List Table)
    → p t.entry ≡ true
    → first p (t ∷ ts) ≡ some (t, ts)
first_hit p t ts h = rw h refl

pub first_miss :
    (p : Entry → Bool) (t : Table) (ts : List Table)
    → p t.entry ≡ false
    → first p (t ∷ ts) ≡ first p ts
first_miss p t ts h = rw h refl

later :
    (fuel : ℕ) (f g : Finder) (ts : List Table)
    → g.rules ≡ f.rules
    → visits g ≡ ts
    → measure g < measure f
    → finder_go (suc fuel) f ≡ finder_go fuel g
    → first (matches f.rules) (visits f) ≡ first (matches f.rules) ts
    → Answers fuel g
    → Answers (suc fuel) f
later fuel f g ts e v m s l (hit, g', r, a) = (
  hit,
  g',
  s ∙ r,
  subst (λ o. IsAnswer f o hit g') (sym l)
      (subst (λ xs. IsAnswer f (first (matches f.rules) xs) hit g') v
        (subst (λ rules. IsAnswer f (first (matches rules) (visits g)) hit g') e
          (IsAnswer-later f g (first (matches g.rules) (visits g)) hit g' e m a))),
)

from_round :
    (fuel : ℕ)
    → ((g : Finder)
        → measure g < fuel
        → IsDirected g.rules
        → IsFresh g.rules (visits g)
        → Answers fuel g)
    → (f : Finder) (r : Round) → round f ≡ r
    → IsRound f r
    → measure f < suc fuel
    → IsDirected f.rules
    → IsFresh f.rules (visits f)
    → Answers (suc fuel) f
from_round fuel ih f (complete g) e v h one fresh = (
  none,
  g,
  go_complete fuel f g e,
  subst (λ ts. IsAnswer f (first (matches f.rules) ts) none g) (sym v) refl,
)
from_round fuel ih f (again g) e (s, v, m) h one fresh =
    later fuel f g (visits f) s v m (go_again fuel f g e) refl (
      ih g (omega (arith, m, h)) (subst IsDirected (sym s) one)
        (subst (λ rules. IsFresh rules (visits g)) (sym s) (subst (IsFresh f.rules) (sym v) fresh)))
from_round fuel ih f (tested true st g) e (s, v, b, m) h one fresh = (
  some st,
  g,
  go_tested fuel f g true st e,
  subst (λ o. IsAnswer f o (some st) g)
      (sym (ap (first (matches f.rules)) v ∙ first_hit (matches f.rules) st (visits g) (sym b)))
      (refl, s, refl, m),
)
from_round fuel ih f (tested false st g) e (s, v, b, m) h one fresh =
    later fuel f g (visits g) s refl m (go_tested fuel f g false st e)
      (ap (first (matches f.rules)) v ∙ first_miss (matches f.rules) st (visits g) (sym b))
      (ih g (omega (arith, m, h)) (subst IsDirected (sym s) one)
        (subst (λ rules. IsFresh rules (visits g)) (sym s) (subst (IsFresh f.rules) v fresh).1))

-- Enough fuel is more than the measure of the finder.
pub finder_go-Answers :
    (fuel : ℕ) (f : Finder)
    → measure f < fuel
    → IsDirected f.rules
    → IsFresh f.rules (visits f)
    → Answers fuel f
unfolding round
finder_go-Answers zero f h one fresh = absurd (omega (arith, h))
finder_go-Answers (suc fuel) f h one fresh =
    from_round fuel (finder_go-Answers fuel) f (round f) refl
      (round_at-IsRound f (following f) refl one fresh) h one fresh
