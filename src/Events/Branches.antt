-- ===== src/Events/Branches.antt =====
-- Conditional code as the parser compiles it: each branch in a context of its own that is pushed and
-- popped, then `eel_e_merge`.
use eel.Prelude.{
  ℕ, suc, ◌+◌, ◌-◌, ◌≤◌, ◌≡◌, refl, ap, ◌∙◌, Bool, true, false, ◌&&◌, ◌||◌, Bool-cases, inl, inr,
  leb, List, [], ◌∷◌, ◌++◌, ltb, ◌==◌, if◌then◌else◌, length, arith,
}
use eel.Events.{
  Cestate, eno, emaybe, eyes, rank, later, Cevlist, Context, CtxType, ectx_block, ereturn, eresult,
  etarget, max_reg, is_block, is_function, move_up, moves, peeled, hand_on, push, merge, test_break,
  e_break, bump_maybe, shallowest,
}
use eel.Events.Combine.{agree, cap}
use eel.Events.Merge.{IsMerged, merge-later}

-- The context after the branches `c` and `d` were popped into it, one after the other, and merged.
abbrev pub if_else : Context → Context → Context → Context
if_else c d previous = merge (hand_on d (hand_on c previous)) eyes

-- After one branch that may be skipped.
abbrev pub if_only : Context → Context → Context
if_only c previous = merge (hand_on c previous) emaybe

-- A branch: a conditional context that is no function's.
abbrev pub IsBranch : Context → Type 0
IsBranch c = (c.conditional ≡ true) × (is_function c.type ≡ false)

-- The events that a branch hands on: RETURN and RESULT, and the initializations where it is a block.
abbrev pub is_handed : CtxType → ℕ → Bool
is_handed type i = (i == ereturn) || ((i == eresult) || (is_block type && leb i max_reg))

-- What a branch hands on of an event.
abbrev pub handed : Context → ℕ → Cestate
handed c i = if is_handed c.type i then c.firstel.events i else eno

moves-is_handed :
    (type : CtxType) (i : ℕ) → IsMerged i → i ≤ etarget → moves type i ≡ is_handed type i
unfolding moves
moves-is_handed type i m b = elim (Bool-cases (is_block type)) [
  | inl e ↦ ground (arith, e, m, b)
  | inr e ↦ ground (arith, e, m, b)
]

peeled-handed :
    (c : Context) (i : ℕ)
    → IsMerged i
    → i ≤ etarget
    → (peeled c.type c.firstel).events i ≡ handed c i
peeled-handed c i m b =
    ap (λ t. if t then c.firstel.events i else eno) (moves-is_handed c.type i m b)

hand_on-branch :
    (c previous : Context)
    → IsBranch c
    → hand_on c previous
      ≡ record previous { lists = previous.lists ++ (peeled c.type c.firstel ∷ []) }
unfolding hand_on move_up
hand_on-branch c previous (cond, fn) = simp (fn, cond) refl

-- The branches as lists of events, for the context that has no others.
abbrev pub with_lists : Context → List Cevlist → Context
with_lists previous l = record previous { lists = l }

if_else-merge :
    (c d previous : Context)
    → IsBranch c
    → IsBranch d
    → previous.lists ≡ []
    → if_else c d previous
      ≡ merge (with_lists previous (peeled c.type c.firstel ∷ (peeled d.type d.firstel ∷ []))) eyes
if_else-merge c d previous h k l =
    ap (λ x. merge x eyes)
      (ap (hand_on d) (
          hand_on-branch c previous h
          ∙ ap (λ x. with_lists previous (x ++ (peeled c.type c.firstel ∷ []))) l)
        ∙ hand_on-branch d (with_lists previous (peeled c.type c.firstel ∷ [])) k)

if_only-merge :
    (c previous : Context)
    → IsBranch c
    → previous.lists ≡ []
    → if_only c previous ≡ merge (with_lists previous (peeled c.type c.firstel ∷ [])) emaybe
if_only-merge c previous h l =
    ap (λ x. merge x emaybe)
      (hand_on-branch c previous h
        ∙ ap (λ x. with_lists previous (x ++ (peeled c.type c.firstel ∷ []))) l)

cap-eyes : (s : Cestate) → cap eyes s ≡ s
cap-eyes eno = refl
cap-eyes emaybe = refl
cap-eyes eyes = refl

-- Let the branches be conditional contexts that are no function's, in a context without other event
-- lists, and take an event other than EXIT and TARGET. After `if` with `else`, the event is as certain
-- as it was before, or as it is where one of the two branches is taken, whichever is more; after `if`
-- without `else`, it is at most MAYBE by the branch. Here a branch counts for RETURN and RESULT and,
-- where it is a block, for the initializations of registers, and for no other event.
pub if_else_lem :
    (c d previous : Context) (i : ℕ)
    → IsBranch c
    → IsBranch d
    → IsMerged i
    → i ≤ etarget
    → previous.lists ≡ []
    → ((if_else c d previous).firstel.events i
        ≡ later (previous.firstel.events i) (agree (handed c i) (handed d i)))
      × ((if_only c previous).firstel.events i
          ≡ later (previous.firstel.events i) (cap emaybe (handed c i)))
if_else_lem c d previous i h k m b l = (both, one)
  where
    pc : Cevlist
    pc = peeled c.type c.firstel

    pd : Cevlist
    pd = peeled d.type d.firstel

    both :
        (if_else c d previous).firstel.events i
        ≡ later (previous.firstel.events i) (agree (handed c i) (handed d i))
    both = rw (if_else-merge c d previous h k l) (
        (merge-later (with_lists previous (pc ∷ (pd ∷ []))) eyes i pc (pd ∷ []) m refl).0
        ∙ ap (λ s. later (previous.firstel.events i) (cap eyes (agree s (pd.events i))))
            (peeled-handed c i m b)
        ∙ ap (λ s. later (previous.firstel.events i) (cap eyes (agree (handed c i) s)))
            (peeled-handed d i m b)
        ∙ ap (later (previous.firstel.events i)) (cap-eyes (agree (handed c i) (handed d i))))

    one :
        (if_only c previous).firstel.events i
        ≡ later (previous.firstel.events i) (cap emaybe (handed c i))
    one = rw (if_only-merge c previous h l) (
        (merge-later (with_lists previous (pc ∷ [])) emaybe i pc [] m refl).0
        ∙ ap (λ s. later (previous.firstel.events i) (cap emaybe s)) (peeled-handed c i m b))

-- Of breaks by at most one level, as `eel_e_move_up` leaves them, merging keeps nothing.
pub AllShallow : List Cevlist → Type 0
AllShallow [] = Unit
AllShallow (e ∷ es) = (e.breakto ≤ 1) × (e.maybe_breakto ≤ 1) × AllShallow es

bump_maybe-AllShallow : (es : List Cevlist) (m : ℕ) → AllShallow es → bump_maybe es m ≡ m
unfolding AllShallow bump_maybe
bump_maybe-AllShallow [] m h = refl
bump_maybe-AllShallow (e ∷ es) m (b, mb, h) =
    let b0 : e.breakto - 1 ≡ 0 = omega arith in
    let m0 : e.maybe_breakto - 1 ≡ 0 = omega arith in
    let low : ltb m 0 ≡ false = ground arith in
    rw (bump_maybe, b0, m0, low, low) (bump_maybe-AllShallow es m h)

shallowest-le : (es : List Cevlist) (s : ℕ) → shallowest es s ≤ s
unfolding shallowest
shallowest-le [] s = omega arith
shallowest-le (e ∷ es) s =
    let t = if ltb (e.breakto - 1) s then e.breakto - 1 else s in
    let le : t ≤ s = ground arith in omega (arith, shallowest-le es t)

shallowest-AllShallow :
    (e : Cevlist) (es : List Cevlist) (s : ℕ) → AllShallow (e ∷ es) → shallowest (e ∷ es) s ≡ 0
unfolding AllShallow shallowest
shallowest-AllShallow e es s (b, mb, h) =
    let t = if ltb (e.breakto - 1) s then e.breakto - 1 else s in
    let none_left : t ≡ 0 = ground arith in omega (arith, shallowest-le es t)

merge-breaks :
    (c : Context) (m : Cestate) (l : List Cevlist)
    → c.lists ≡ l
    → AllShallow l
    → ((merge c m).firstel.breakto ≡ c.firstel.breakto)
      × ((merge c m).firstel.maybe_breakto ≡ c.firstel.maybe_breakto)
unfolding merge
merge-breaks c m [] l h = rw (merge, l) (refl, refl)
merge-breaks c m (e ∷ es) l h =
    let some_lists : (suc (length es) == 0) ≡ false = ground arith in
    let flat = shallowest-AllShallow e es 0x7fff_ffff h in
    let low : ltb c.firstel.breakto 0 ≡ false = ground arith in
    let maybe = bump_maybe-AllShallow (e ∷ es) c.firstel.maybe_breakto h in
    (
      rw (merge, l, some_lists, flat, low) (and_false _ _ (ltb 1 (rank m))),
      rw (merge, l, some_lists) maybe,
    )
  where
    and_false : (a b : ℕ) (t : Bool) → (if t && false then a else b) ≡ b
    and_false a b true = refl
    and_false a b false = refl

test_break-cong :
    (e f : Cevlist)
    → e.breakto ≡ f.breakto
    → e.maybe_breakto ≡ f.maybe_breakto
    → test_break e ≡ test_break f
unfolding test_break
test_break-cong e f b m = rw (test_break, b, m) refl

-- A branch that breaks out of the context that it is in.
abbrev pub breaking : Context → Context
breaking previous = e_break (push ectx_block true false previous) previous.level

-- Where both branches of an `if` break out of the context around it, that context does not learn of it:
-- after the merge `test_break` answers what it did before. (`eel_e_move_up` takes a level off the break
-- of the branch, and `eel_e_merge` takes off another.) A break in the context itself is noticed.
pub test_break-if_else :
    (previous : Context)
    → previous.lists ≡ []
    → (test_break (if_else (breaking previous) (breaking previous) previous).firstel
        ≡ test_break previous.firstel)
      × (test_break (e_break previous previous.level).firstel ≡ eyes)
unfolding e_break test_break push AllShallow
test_break-if_else previous l =
    let n1 : previous.level + 1 - previous.level + 1 ≡ 2 = omega arith in
    let n2 : previous.level - previous.level + 1 ≡ 1 = omega arith in
    let b = breaking previous in
    let e = peeled b.type b.firstel in
    let one : e.breakto ≤ 1 = ground arith in
    let none_maybe : e.maybe_breakto ≤ 1 = omega arith in
    let same =
      merge-breaks (with_lists previous (e ∷ (e ∷ []))) eyes (e ∷ (e ∷ [])) refl
        (one, none_maybe, (one, none_maybe, tt)) in
    (
      rw (if_else-merge b b previous (refl, refl) (refl, refl) l) (
          test_break-cong (merge (with_lists previous (e ∷ (e ∷ []))) eyes).firstel previous.firstel
            same.0 same.1),
      ground arith,
    )
