-- ===== src/Symtab/Visits.antt =====
-- The order in which the finder tests symbols.
use eel.Prelude.{
  ℕ, ◌+◌, ◌*◌, ◌<◌, ◌≤◌, ◌≡◌, ◌∙◌, refl, sym, ap, Bool, true, false, not, ◌&&◌, List, [], ◌∷◌, ◌++◌,
  arith, ◌==◌, if◌then◌else◌, inl, inr, length,
}
use mathlib.Core.Path.{subst}
use mathlib.Core.List.{append_assoc}
use mathlib.Core.Logic.{◌⊎◌}
use eel.Symtab.{
  Entry, Symbol, null, node, Table, Parent, Rules, Finder, matches, descends, following, Round,
  complete, again, tested, at_end, turn, inside, go_on, round_at, is_null,
}

-- A symbol and those after it, each followed by the symbols in it where `d` says so.
abbrev pub all : (Entry → Bool) → Symbol → List Table
all d null = []
all d (node e sub next) =
    record { entry = e; symbols = sub } ∷ ((if d e then all d sub else []) ++ all d next)

abbrev pub pick : Bool → Bool → List Table → List Table → List Table
pick true inside above after = above
pick false true above after = after
pick false false above after = []

-- What is searched once the table `st` is done: upward, the tables around it from their beginning;
-- downward, until the search is back in the table it started in, what follows in each.
abbrev pub beyond : Rules → Table → List Parent → List Table
beyond r st [] = []
beyond r st (p ∷ ps) =
    let rest = beyond r p.table ps in
    pick r.up (inside r st) (all (descends r) p.table.symbols ++ rest)
      (all (descends r) p.after ++ rest)

-- All that a finder has yet to test, in order.
abbrev pub visits : Finder → List Table
visits f = all (descends f.rules) (following f) ++ beyond f.rules f.symtab f.parents

-- Where the search goes down, no symbol that is yet to be tested is the table it started in.
abbrev pub IsFresh : Rules → List Table → Type 0
IsFresh r [] = Unit
IsFresh r (t ∷ ts) = ((r.down && (t.entry.address == r.start)) ≡ false) × IsFresh r ts

abbrev pub measure : Finder → ℕ
measure f = 2 * length (visits f) + length f.parents

-- What a round of the search may do.
abbrev pub IsRound : Finder → Round → Type 0
IsRound f (complete g) = visits f ≡ []
IsRound f (again g) = (g.rules ≡ f.rules) × (visits g ≡ visits f) × (measure g < measure f)
IsRound f (tested hit st g) =
    (g.rules ≡ f.rules)
    × (visits f ≡ st ∷ visits g)
    × (hit ≡ matches f.rules st.entry)
    × (measure g < measure f)

visits_end :
    (f : Finder) (ps : List Parent)
    → f.parents ≡ ps
    → following f ≡ null
    → visits f ≡ beyond f.rules f.symtab ps
visits_end f ps e n =
    ap (λ s. all (descends f.rules) s ++ beyond f.rules f.symtab f.parents) n
    ∙ ap (beyond f.rules f.symtab) e

turn-IsRound :
    (up inner : Bool) (f : Finder) (p : Parent) (ps : List Parent)
    → f.parents ≡ p ∷ ps
    → visits f
      ≡ pick up inner
          (all (descends f.rules) p.table.symbols ++ beyond f.rules p.table ps)
          (all (descends f.rules) p.after ++ beyond f.rules p.table ps)
    → IsRound f (turn up inner f p ps)
unfolding turn following
turn-IsRound true inner f p ps e v = (refl, sym v, omega (arith, ap length v, ap length e))
turn-IsRound false true f p ps e v = (refl, sym v, omega (arith, ap length v, ap length e))
turn-IsRound false false f p ps e v = v

at_end-IsRound :
    (f : Finder) (ps : List Parent) → f.parents ≡ ps → following f ≡ null → IsRound f (at_end f ps)
unfolding at_end
at_end-IsRound f [] e n = visits_end f [] e n
at_end-IsRound f (p ∷ ps) e n =
    turn-IsRound f.rules.up (inside f.rules f.symtab) f p ps e (visits_end f (p ∷ ps) e n)

-- A rule against ESTF_UP together with ESTF_DOWN.
abbrev pub IsDirected : Rules → Type 0
IsDirected r = r.down ≡ true → r.up ≡ false

-- What is left after the symbol `e` with the symbols `sub` in it, and `next` behind it.
descends_down : (r : Rules) (e : Entry) → descends r e ≡ true → r.down ≡ true
unfolding descends
descends_down r e h = ground (arith, h)

deeper_descends :
    (sub : Symbol) (r : Rules) (e : Entry)
    → not (is_null sub) && descends r e ≡ true
    → descends r e ≡ true
deeper_descends sub r e h = ground (arith, h)

inside_of :
    (r : Rules) (e : Entry) (sub : Symbol)
    → r.down ≡ true
    → (r.down && (e.address == r.start)) ≡ false
    → inside r (record { entry = e; symbols = sub }) ≡ true
unfolding inside
inside_of r e sub h k = ground (arith, h, k)

left_after : Finder → Entry → Symbol → Symbol → List Table
left_after f e sub next =
    ((if descends f.rules e then all (descends f.rules) sub else []) ++ all (descends f.rules) next)
    ++ beyond f.rules f.symtab f.parents

into :
    (b up inner : Bool) (as' bs cs above : List Table)
    → b ≡ true
    → up ≡ false
    → inner ≡ true
    → as' ++ pick up inner above (bs ++ cs) ≡ ((if b then as' else []) ++ bs) ++ cs
into true false true as' bs cs above h k l = sym (append_assoc as' bs cs)
into true false false as' bs cs above h k l = absurd (ground (arith, l))
into true true inner as' bs cs above h k l = absurd (ground (arith, k))
into false up inner as' bs cs above h k l = absurd (ground (arith, h))

past :
    (b : Bool) (as' bs cs : List Table)
    → (b ≡ false) ⊎ (as' ≡ [])
    → bs ++ cs ≡ ((if b then as' else []) ++ bs) ++ cs
past false as' bs cs h = refl
past true as' bs cs (inl e) = absurd (ground (arith, e))
past true as' bs cs (inr e) = ap (λ l. (l ++ bs) ++ cs) (sym e)

visits-go_on :
    (deeper : Bool) (f : Finder) (e : Entry) (sub next : Symbol)
    → deeper ≡ (not (is_null sub) && descends f.rules e)
    → IsDirected f.rules
    → (f.rules.down && (e.address == f.rules.start)) ≡ false
    → visits (go_on deeper f (record { entry = e; symbols = sub }) next) ≡ left_after f e sub next
unfolding go_on following left_after is_null
visits-go_on true f e sub next d one fresh =
    let down : f.rules.down ≡ true =
      descends_down f.rules e (deeper_descends sub f.rules e (sym d)) in
    into (descends f.rules e) f.rules.up (inside f.rules (record { entry = e; symbols = sub }))
      (all (descends f.rules) sub) (all (descends f.rules) next) (beyond f.rules f.symtab f.parents)
      (all (descends f.rules) f.symtab.symbols ++ beyond f.rules f.symtab f.parents)
      (deeper_descends sub f.rules e (sym d)) (one down) (inside_of f.rules e sub down fresh)
visits-go_on false f e null next d one fresh =
    past (descends f.rules e) [] (all (descends f.rules) next) (beyond f.rules f.symtab f.parents)
      (inr refl)
visits-go_on false f e (node e' s n) next d one fresh =
    past (descends f.rules e) (all (descends f.rules) (node e' s n)) (all (descends f.rules) next)
      (beyond f.rules f.symtab f.parents) (inl (sym d))

rules-go_on :
    (deeper : Bool) (f : Finder) (st : Table) (after : Symbol)
    → ((go_on deeper f st after).rules ≡ f.rules)
      × (length (go_on deeper f st after).parents ≤ 1 + length f.parents)
unfolding go_on
rules-go_on true f st after = (refl, omega arith)
rules-go_on false f st after = (refl, omega arith)

visits_node :
    (f : Finder) (e : Entry) (sub next : Symbol)
    → following f ≡ node e sub next
    → visits f ≡ record { entry = e; symbols = sub } ∷ left_after f e sub next
unfolding left_after
visits_node f e sub next n =
    ap (λ s. all (descends f.rules) s ++ beyond f.rules f.symtab f.parents) n

-- A round from a symbol on.
node-IsRound :
    (f : Finder) (e : Entry) (sub next : Symbol)
    → following f ≡ node e sub next
    → IsDirected f.rules
    → IsFresh f.rules (visits f)
    → IsRound f (round_at f (node e sub next))
unfolding round_at
node-IsRound f e sub next n one fresh =
    let deeper : Bool = not (is_null sub) && descends f.rules e in
    let st : Table = record { entry = e; symbols = sub } in
    let away : IsFresh f.rules (st ∷ left_after f e sub next) =
      subst (IsFresh f.rules) (visits_node f e sub next n) fresh in
    let rest : visits (go_on deeper f st next) ≡ left_after f e sub next =
      visits-go_on deeper f e sub next refl one away.0 in
    let v : visits f ≡ st ∷ visits (go_on deeper f st next) =
      visits_node f e sub next n ∙ ap (λ ts. st ∷ ts) (sym rest) in
    (
      (rules-go_on deeper f st next).0,
      v,
      refl,
      omega (arith, ap length v, (rules-go_on deeper f st next).1),
    )

pub round_at-IsRound :
    (f : Finder) (s : Symbol)
    → following f ≡ s
    → IsDirected f.rules
    → IsFresh f.rules (visits f)
    → IsRound f (round_at f s)
unfolding round_at
round_at-IsRound f null n one fresh = at_end-IsRound f f.parents refl n
round_at-IsRound f (node e sub next) n one fresh = node-IsRound f e sub next n one fresh
