-- ===== src/Symtab/Enumerate.antt =====
-- Whole searches: all answers of a finder one after the other.
use mathlib.Core.Path.{subst}
use eel.Prelude.{
  ℕ, zero, suc, ◌<◌, ◌≡◌, ◌∙◌, refl, sym, ap, Bool, false, Option, none, some, List, [], ◌∷◌, arith,
  if◌then◌else◌, inl, inr, Bool-cases, length,
}
use eel.Symtab.{Entry, Table, Rules, Finder, matches, finder_go}
use eel.Symtab.Visits.{visits, IsFresh, IsDirected, measure}
use eel.Symtab.Search.{first, first_hit, first_miss, IsAnswer, finder_go-Answers}

-- Calls of `eel_finder_go` until it answers NULL, at most `calls` of them.
abbrev pub search_all : ℕ → ℕ → Finder → Option (List Table)
search_all zero fuel f = none
search_all (suc calls) fuel f = elim (finder_go fuel f) [
  | none ↦ none
  | some (none, g) ↦ some []
  | some (some t, g) ↦ elim (search_all calls fuel g) [ none ↦ none | some ts ↦ some (t ∷ ts) ]
]

abbrev pub keep : (Entry → Bool) → List Table → List Table
keep p [] = []
keep p (t ∷ ts) = let rest = keep p ts in if p t.entry then t ∷ rest else rest

-- How the kept tables go with the first of them.
abbrev pub IsSplit : Rules → (Entry → Bool) → List Table → Option (Table × List Table) → Type 0
IsSplit r p ts none = keep p ts ≡ []
IsSplit r p ts (some (t, rest)) =
    (keep p ts ≡ t ∷ keep p rest) × (length rest < length ts) × (IsFresh r ts → IsFresh r rest)

IsSplit-later :
    (r : Rules) (p : Entry → Bool) (t : Table) (ts : List Table) (o : Option (Table × List Table))
    → p t.entry ≡ false
    → IsSplit r p ts o
    → IsSplit r p (t ∷ ts) o
IsSplit-later r p t ts none h s = rw h s
IsSplit-later r p t ts (some (u, rest)) h s = (rw h s.0, omega (arith, s.1), λ fresh. s.2 fresh.1)

first-IsSplit : (r : Rules) (p : Entry → Bool) (ts : List Table) → IsSplit r p ts (first p ts)
first-IsSplit r p [] = refl
first-IsSplit r p (t ∷ ts) = elim (Bool-cases (p t.entry)) [
  | inl h ↦
      subst (IsSplit r p (t ∷ ts)) (sym (first_hit p t ts h))
        (rw h refl, omega arith, λ fresh. fresh.1)
  | inr h ↦
      subst (IsSplit r p (t ∷ ts)) (sym (first_miss p t ts h))
        (IsSplit-later r p t ts (first p ts) h (first-IsSplit r p ts))
]

answered_none :
    (calls fuel : ℕ) (f g : Finder)
    → finder_go fuel f ≡ some (none, g)
    → search_all (suc calls) fuel f ≡ some []
answered_none calls fuel f g e = rw (e, search_all) refl

answered_some :
    (calls fuel : ℕ) (f g : Finder) (t : Table) (ts : List Table)
    → finder_go fuel f ≡ some (some t, g)
    → search_all calls fuel g ≡ some ts
    → search_all (suc calls) fuel f ≡ some (t ∷ ts)
answered_some calls fuel f g t ts e h = rw (e, h, search_all) refl

-- What `search_all` should come to.
abbrev pub Collects : ℕ → ℕ → Finder → Type 0
Collects calls fuel f = search_all calls fuel f ≡ some (keep (matches f.rules) (visits f))

collect :
    (calls fuel : ℕ)
    → ((g : Finder)
        → length (visits g) < calls
        → measure g < fuel
        → IsDirected g.rules
        → IsFresh g.rules (visits g)
        → Collects calls fuel g)
    → (f : Finder) (o : Option (Table × List Table)) (hit : Option Table) (g : Finder)
    → IsSplit f.rules (matches f.rules) (visits f) o
    → IsAnswer f o hit g
    → finder_go fuel f ≡ some (hit, g)
    → length (visits f) < suc calls
    → measure f < fuel
    → IsDirected f.rules
    → IsFresh f.rules (visits f)
    → Collects (suc calls) fuel f
collect calls fuel ih f none hit g s a e l h one fresh =
    answered_none calls fuel f g (e ∙ ap (λ x. some (x, g)) a) ∙ ap (λ ts. some ts) (sym s)
collect calls fuel ih f (some (t, rest)) hit g (k, n, tail) (a, r, v, m) e l h one fresh =
    let rec : search_all calls fuel g ≡ some (keep (matches g.rules) (visits g)) =
      ih g (omega (arith, l, n, ap length v)) (omega (arith, m, h)) (subst IsDirected (sym r) one) (
        subst (λ rules. IsFresh rules (visits g)) (sym r)
          (subst (IsFresh f.rules) (sym v) (tail fresh))) in
    answered_some calls fuel f g t (keep (matches g.rules) (visits g)) (e ∙ ap (λ x. some (x, g)) a)
      rec
    ∙ ap (λ rules. some (t ∷ keep (matches rules) (visits g))) r
    ∙ ap (λ ts. some (t ∷ keep (matches f.rules) ts)) v
    ∙ ap (λ ts. some ts) (sym k)

-- A finder that does not go both up and down, and that does not find the table it started in below
-- that table where it goes down, is called until it answers NULL: its answers are exactly the symbols that match its
-- rules, each once, in the order of the search. A fuel above twice the number of symbols to be
-- tested and the number of parent tables is enough for each call.
pub search_all-keep :
    (calls fuel : ℕ) (f : Finder)
    → length (visits f) < calls
    → measure f < fuel
    → IsDirected f.rules
    → IsFresh f.rules (visits f)
    → search_all calls fuel f ≡ some (keep (matches f.rules) (visits f))
search_all-keep zero fuel f l h one fresh = absurd (omega (arith, l))
search_all-keep (suc calls) fuel f l h one fresh =
    let (hit, g, e, a) = finder_go-Answers fuel f h one fresh in
    collect calls fuel (search_all-keep calls fuel) f (first (matches f.rules) (visits f)) hit g
      (first-IsSplit f.rules (matches f.rules) (visits f)) a e l h one fresh
