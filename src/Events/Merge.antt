-- ===== src/Events/Merge.antt =====
-- `eel_e_merge`, and the executions of conditional code.
use eel.Prelude.{
  ℕ, suc, ◌≡◌, refl, Bool, true, false, ◌||◌, List, [], ◌∷◌, ◌++◌, ◌==◌, length, arith, map,
}
use eel.Events.{Cestate, eno, emaybe, eyes, later, Cevlist, Context, eexit, etarget, merge}
use eel.Events.Combine.{agree, combine, cap, process-combine}

-- Each element says of one execution whether the event occurred in it.
abbrev pub AllAre : Bool → List Bool → Type 0
AllAre b [] = Unit
AllAre b (x ∷ xs) = (x ≡ b) × AllAre b xs

-- A state is right about a set of executions.
abbrev pub Describes : Cestate → List Bool → Type 0
Describes eno xs = AllAre false xs
Describes emaybe xs = Unit
Describes eyes xs = AllAre true xs

-- Each branch's state of event `i` is right about the executions of that branch.
abbrev pub AllDescribe : ℕ → List Cevlist → List (List Bool) → Type 0
AllDescribe i [] [] = Unit
AllDescribe i (e ∷ es) (xs ∷ xss) = Describes (e.events i) xs × AllDescribe i es xss
AllDescribe i _ _ = ⊥

-- The executions of any of the branches.
abbrev pub any_branch : List (List Bool) → List Bool
any_branch [] = []
any_branch (xs ∷ xss) = xs ++ any_branch xss

-- First the code before, then a branch.
abbrev pub then_branch : List Bool → List Bool → List Bool
then_branch [] ys = []
then_branch (x ∷ xs) ys = map (λ y. x || y) ys ++ then_branch xs ys

-- The executions of the code with its branches: none of them is taken, perhaps one, or one.
abbrev pub executions : Cestate → List Bool → List Bool → List Bool
executions eno before branches = before
executions emaybe before branches = before ++ then_branch before branches
executions eyes before branches = then_branch before branches

AllAre-append : (b : Bool) (xs ys : List Bool) → AllAre b xs → AllAre b ys → AllAre b (xs ++ ys)
AllAre-append b [] ys h k = k
AllAre-append b (x ∷ xs) ys h k = (h.0, AllAre-append b xs ys h.1 k)

Describes-agree :
    (s t : Cestate) (xs ys : List Bool)
    → Describes s xs
    → Describes t ys
    → Describes (agree s t) (xs ++ ys)
Describes-agree eno eno xs ys h k = AllAre-append false xs ys h k
Describes-agree eno emaybe xs ys h k = tt
Describes-agree eno eyes xs ys h k = tt
Describes-agree emaybe eno xs ys h k = tt
Describes-agree emaybe emaybe xs ys h k = tt
Describes-agree emaybe eyes xs ys h k = tt
Describes-agree eyes eno xs ys h k = tt
Describes-agree eyes emaybe xs ys h k = tt
Describes-agree eyes eyes xs ys h k = AllAre-append true xs ys h k

append-nil : (b : Bool) (xs : List Bool) → AllAre b xs → AllAre b (xs ++ [])
append-nil b xs h = AllAre-append b xs [] h tt

Describes-nil : (s : Cestate) (xs : List Bool) → Describes s xs → Describes s (xs ++ [])
Describes-nil eno xs h = append-nil false xs h
Describes-nil emaybe xs h = tt
Describes-nil eyes xs h = append-nil true xs h

pub Describes-combine :
    (i : ℕ) (e : Cevlist) (es : List Cevlist) (xss : List (List Bool))
    → AllDescribe i (e ∷ es) xss
    → Describes (combine i e es) (any_branch xss)
Describes-combine i e [] (xs ∷ []) h = Describes-nil (e.events i) xs h.0
Describes-combine i e (e' ∷ es) (xs ∷ xss) h =
    Describes-agree (e.events i) (combine i e' es) xs (any_branch xss) h.0
      (Describes-combine i e' es xss h.1)
Describes-combine i e [] (xs ∷ (ys ∷ xss)) h = elim h.1 [ ]
Describes-combine i e es [] h = elim h [ ]

AllAre-map_or : (x b : Bool) (ys : List Bool) → AllAre b ys → AllAre (x || b) (map (λ y. x || y) ys)
AllAre-map_or x b [] h = tt
AllAre-map_or x b (y ∷ ys) h = (rw h.0 refl, AllAre-map_or x b ys h.1)

or_before : (ys : List Bool) → AllAre true (map (λ y. true || y) ys)
or_before [] = tt
or_before (y ∷ ys) = (refl, or_before ys)

-- An event that has occurred before has occurred.
then_branch-before : (xs ys : List Bool) → AllAre true xs → AllAre true (then_branch xs ys)
then_branch-before [] ys h = tt
then_branch-before (x ∷ xs) ys (e, h) = rw e (
    AllAre-append true (map (λ y. true || y) ys) (then_branch xs ys) (or_before ys)
      (then_branch-before xs ys h))

then_branch-after : (xs ys : List Bool) → AllAre true ys → AllAre true (then_branch xs ys)
then_branch-after [] ys h = tt
then_branch-after (true ∷ xs) ys h =
    AllAre-append true _ (then_branch xs ys) (or_before ys) (then_branch-after xs ys h)
then_branch-after (false ∷ xs) ys h =
    AllAre-append true _ (then_branch xs ys) (AllAre-map_or false true ys h)
      (then_branch-after xs ys h)

then_branch-never :
    (xs ys : List Bool) → AllAre false xs → AllAre false ys → AllAre false (then_branch xs ys)
then_branch-never [] ys h k = tt
then_branch-never (x ∷ xs) ys (e, h) k = rw e (
    AllAre-append false (map (λ y. false || y) ys) (then_branch xs ys)
      (AllAre-map_or false false ys k) (then_branch-never xs ys h k))

Describes-later :
    (s t : Cestate) (xs ys : List Bool)
    → Describes s xs
    → Describes t ys
    → Describes (later s t) (then_branch xs ys)
Describes-later eno eno xs ys h k = then_branch-never xs ys h k
Describes-later eno emaybe xs ys h k = tt
Describes-later eno eyes xs ys h k = then_branch-after xs ys k
Describes-later emaybe eno xs ys h k = tt
Describes-later emaybe emaybe xs ys h k = tt
Describes-later emaybe eyes xs ys h k = then_branch-after xs ys k
Describes-later eyes eno xs ys h k = then_branch-before xs ys h
Describes-later eyes emaybe xs ys h k = then_branch-before xs ys h
Describes-later eyes eyes xs ys h k = then_branch-before xs ys h

Describes-maybe :
    (s t : Cestate) (xs ys : List Bool)
    → Describes s xs
    → Describes t ys
    → Describes (later s (cap emaybe t)) (xs ++ then_branch xs ys)
Describes-maybe eno eno xs ys h k =
    AllAre-append false xs (then_branch xs ys) h (then_branch-never xs ys h k)
Describes-maybe eno emaybe xs ys h k = tt
Describes-maybe eno eyes xs ys h k = tt
Describes-maybe emaybe eno xs ys h k = tt
Describes-maybe emaybe emaybe xs ys h k = tt
Describes-maybe emaybe eyes xs ys h k = tt
Describes-maybe eyes eno xs ys h k =
    AllAre-append true xs (then_branch xs ys) h (then_branch-before xs ys h)
Describes-maybe eyes emaybe xs ys h k =
    AllAre-append true xs (then_branch xs ys) h (then_branch-before xs ys h)
Describes-maybe eyes eyes xs ys h k =
    AllAre-append true xs (then_branch xs ys) h (then_branch-before xs ys h)

Describes-executions :
    (m s t : Cestate) (xs ys : List Bool)
    → Describes s xs
    → Describes t ys
    → Describes (later s (cap m t)) (executions m xs ys)
Describes-executions eno s eno xs ys h k = ground (arith, h)
Describes-executions eno s emaybe xs ys h k = ground (arith, h)
Describes-executions eno s eyes xs ys h k = ground (arith, h)
Describes-executions emaybe s t xs ys h k = Describes-maybe s t xs ys h k
Describes-executions eyes s eno xs ys h k = Describes-later s eno xs ys h k
Describes-executions eyes s emaybe xs ys h k = Describes-later s emaybe xs ys h k
Describes-executions eyes s eyes xs ys h k = Describes-later s eyes xs ys h k

-- Events that merging is about: all but EXIT and TARGET.
abbrev pub IsMerged : ℕ → Type 0
IsMerged i = ((i == eexit) || (i == etarget)) ≡ false

-- Merging leaves the first list alone, with the greater of the state before and what is known where
-- one of the branches is taken, at most the modulator.
pub merge-later :
    (c : Context) (m : Cestate) (i : ℕ) (e : Cevlist) (es : List Cevlist)
    → IsMerged i
    → c.lists ≡ e ∷ es
    → ((merge c m).firstel.events i ≡ later (c.firstel.events i) (cap m (combine i e es)))
      × ((merge c m).lists ≡ [])
unfolding merge
merge-later c m i e es h l =
    let some_lists : (suc (length es) == 0) ≡ false = ground arith in
    (rw (l, some_lists, h, process-combine i e es m) refl, rw (l, some_lists) refl)

-- What `eel_e_merge` makes of an event is right about every execution: if the state before is right
-- about the executions of the code before, and that of each branch about those of the branch, then the
-- state after is right about the code before followed by a branch, or perhaps by none where the
-- modulator is MAYBE, or by none where it is NO.
pub merge-Describes :
    (c : Context) (m : Cestate) (i : ℕ) (e : Cevlist) (es : List Cevlist) (before : List Bool)
    (branches : List (List Bool))
    → IsMerged i
    → c.lists ≡ e ∷ es
    → Describes (c.firstel.events i) before
    → AllDescribe i (e ∷ es) branches
    → Describes ((merge c m).firstel.events i) (executions m before (any_branch branches))
merge-Describes c m i e es before branches h l d ds = rw ((merge-later c m i e es h l).0) (
    Describes-executions m (c.firstel.events i) (combine i e es) before (any_branch branches) d
      (Describes-combine i e es branches ds))
