-- ===== src/Symtab/Nesting.antt =====
-- The search for a symbol in the scopes around a place.
use mathlib.Core.List.{append-nil}
use eel.Prelude.{
  ℕ, ◌*◌, ◌<◌, ◌≡◌, ◌∙◌, refl, ap, Bool, true, false, Option, none, some, List, [], ◌∷◌, ◌++◌,
  arith, if◌then◌else◌, inl, inr, Bool-cases, length,
}
use eel.Symtab.{
  Entry, Symbol, null, node, Table, Parent, Rules, Finder, matches, descends, following, inside,
  finder_init, finder_go,
}
use eel.Symtab.Visits.{visits, all, pick, beyond, IsFresh, measure}
use eel.Symtab.Search.{first, IsAnswer, finder_go-Answers}

-- The symbols of a table, without those in them.
abbrev pub own_symbols : Symbol → List Table
own_symbols null = []
own_symbols (node e sub next) = record { entry = e; symbols = sub } ∷ own_symbols next

abbrev pub find_first : (Entry → Bool) → List Table → Option Table
find_first p [] = none
find_first p (t ∷ ts) = let rest = find_first p ts in if p t.entry then some t else rest

abbrev pub or_else : Option Table → Option Table → Option Table
or_else (some t) rest = some t
or_else none rest = rest

-- The answer of the innermost scope that has one.
abbrev pub innermost : (Entry → Bool) → Table → List Parent → Option Table
innermost p st [] = find_first p (own_symbols st.symbols)
innermost p st (q ∷ qs) =
    let outer = innermost p q.table qs in or_else (find_first p (own_symbols st.symbols)) outer

abbrev scopes : Table → List Parent → List Table
scopes st [] = own_symbols st.symbols
scopes st (q ∷ qs) = let outer = scopes q.table qs in own_symbols st.symbols ++ outer

all_flat : (d : Entry → Bool) (s : Symbol) → ((e : Entry) → d e ≡ false) → all d s ≡ own_symbols s
all_flat d null h = refl
all_flat d (node e sub next) h = rw (h e, all_flat d next h) refl

find_first-append :
    (p : Entry → Bool) (xs ys : List Table)
    → find_first p (xs ++ ys) ≡ or_else (find_first p xs) (find_first p ys)
find_first-append p [] ys = refl
find_first-append p (x ∷ xs) ys = elim (Bool-cases (p x.entry)) [
  | inl h ↦ rw h refl
  | inr h ↦ rw (h, find_first-append p xs ys) refl
]

find_first-scopes :
    (p : Entry → Bool) (st : Table) (ps : List Parent)
    → find_first p (scopes st ps) ≡ innermost p st ps
find_first-scopes p st [] = refl
find_first-scopes p st (q ∷ qs) =
    find_first-append p (own_symbols st.symbols) (scopes q.table qs)
    ∙ ap (or_else (find_first p (own_symbols st.symbols))) (find_first-scopes p q.table qs)

flat_rules : (r : Rules) (e : Entry) → r.down ≡ false → descends r e ≡ false
unfolding descends
flat_rules r e d = ground (arith, d)

pick_above :
    (up inner : Bool) (above after : List Table) → up ≡ true → pick up inner above after ≡ above
pick_above true inner above after u = refl
pick_above false inner above after u = absurd (ground (arith, u))

scopes-beyond :
    (r : Rules) (st : Table) (ps : List Parent)
    → r.up ≡ true
    → r.down ≡ false
    → all (descends r) st.symbols ++ beyond r st ps ≡ scopes st ps
scopes-beyond r st [] u d =
    append-nil (all (descends r) st.symbols)
    ∙ all_flat (descends r) st.symbols (λ e. flat_rules r e d)
scopes-beyond r st (q ∷ qs) u d =
    ap (λ ts. all (descends r) st.symbols ++ ts)
      (pick_above r.up (inside r st) (all (descends r) q.table.symbols ++ beyond r q.table qs)
          (all (descends r) q.after ++ beyond r q.table qs) u
        ∙ scopes-beyond r q.table qs u d)
    ∙ ap (λ ts. ts ++ scopes q.table qs) (all_flat (descends r) st.symbols (λ e. flat_rules r e d))

IsFresh-flat : (r : Rules) (ts : List Table) → r.down ≡ false → IsFresh r ts
IsFresh-flat r [] d = tt
IsFresh-flat r (t ∷ ts) d = (ground (arith, d), IsFresh-flat r ts d)

table_of : Option (Table × List Table) → Option Table
table_of none = none
table_of (some (t, ts)) = some t

table_of-first : (p : Entry → Bool) (ts : List Table) → table_of (first p ts) ≡ find_first p ts
unfolding table_of
table_of-first p [] = refl
table_of-first p (t ∷ ts) = elim (Bool-cases (p t.entry)) [
  | inl h ↦ rw h refl
  | inr h ↦ rw h (table_of-first p ts)
]

table_of-answer :
    (f : Finder) (o : Option (Table × List Table)) (hit : Option Table) (g : Finder)
    → IsAnswer f o hit g
    → hit ≡ table_of o
unfolding table_of
table_of-answer f none hit g a = a
table_of-answer f (some (t, ts)) hit g a = a.0

-- What `finder_init` makes of the rules.
abbrev pub started : Table → Rules → Rules
started st rules = record rules { start = st.entry.address }

-- A search that does not go down, over the symbols `ts`.
go_flat :
    (fuel : ℕ) (f : Finder) (ts : List Table)
    → f.rules.down ≡ false
    → measure f < fuel
    → visits f ≡ ts
    → (g : Finder) × (finder_go fuel f ≡ some (find_first (matches f.rules) ts, g))
go_flat fuel f ts d h v =
    let (hit, g, e, a) =
      finder_go-Answers fuel f h (λ q. absurd (ground (arith, q, d)))
        (IsFresh-flat f.rules (visits f) d) in
    let hits : hit ≡ find_first (matches f.rules) ts =
      table_of-answer f (first (matches f.rules) (visits f)) hit g a
      ∙ table_of-first (matches f.rules) (visits f)
      ∙ ap (find_first (matches f.rules)) v in
    (g, e ∙ ap (λ x. some (x, g)) hits)

-- A search upward from a table, and not downward, answers with the first symbol that matches in the
-- innermost of the table and the tables around it that has such a symbol, whatever stands in the
-- outer ones, and with NULL where none has. It ends with a fuel above twice the number of symbols in
-- these tables and the number of tables around.
pub finder_go-innermost :
    (fuel : ℕ) (st : Table) (ps : List Parent) (rules : Rules)
    → rules.up ≡ true
    → rules.down ≡ false
    → measure (finder_init st ps rules) < fuel
    → (g : Finder) × (finder_go fuel (finder_init st ps rules)
        ≡ some (innermost (matches (started st rules)) st ps, g))
unfolding finder_init following
finder_go-innermost fuel st ps rules u d h =
    let f : Finder = finder_init st ps rules in
    let (g, e) = go_flat fuel f (scopes st ps) d h (scopes-beyond f.rules st ps u d) in
    (g, e ∙ ap (λ x. some (x, g)) (find_first-scopes (matches f.rules) st ps))

visits_flat :
    (st : Table) (rules : Rules)
    → rules.down ≡ false
    → visits (finder_init st [] rules) ≡ own_symbols st.symbols
unfolding finder_init following
visits_flat st rules d =
    append-nil (all (descends (started st rules)) st.symbols)
    ∙ all_flat (descends (started st rules)) st.symbols (λ e. flat_rules (started st rules) e d)

-- A search in one table only.
pub finder_go_flat :
    (fuel : ℕ) (st : Table) (rules : Rules)
    → rules.down ≡ false
    → 2 * length (own_symbols st.symbols) < fuel
    → (g : Finder) × (finder_go fuel (finder_init st [] rules)
        ≡ some (find_first (matches (started st rules)) (own_symbols st.symbols), g))
unfolding finder_init following
finder_go_flat fuel st rules d h =
    go_flat fuel (finder_init st [] rules) (own_symbols st.symbols) d
      (omega (arith, h, ap length (visits_flat st rules d))) (visits_flat st rules d)
