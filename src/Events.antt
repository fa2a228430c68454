-- ===== src/Events.antt =====
-- Compile time events, src/core/eelc/ec_event.c and ec_event.h: what the compiler knows of exits,
-- results and initializations in the contexts that it is in, and how it merges the branches of
-- conditional code. Of src/core/eelc/ec_context.c, what pushing and popping do to events.
pub mod Combine
pub mod Merge
pub mod Scope
pub mod Branches
mod Examples
use eel.Prelude.{
  ℕ, zero, suc, ◌+◌, ◌-◌, ◌*◌, Bool, true, false, ◌&&◌, ◌||◌, List, [], ◌∷◌, ◌++◌, leb, ltb, ◌==◌,
  if◌then◌else◌, length,
}

-- `EEL_cestate`, with its numbers.
pub data Cestate : Type 0 where
  eno emaybe eyes : Cestate

abbrev pub rank : Cestate → ℕ
rank eno = 0
rank emaybe = 1
rank eyes = 2

-- `EEL_ENOT`
abbrev pub enot : Cestate → Cestate
enot eno = eyes
enot emaybe = emaybe
enot eyes = eno

-- The greater of two states; the first one where they are equal.
abbrev pub later : Cestate → Cestate → Cestate
later s t = if ltb (rank s) (rank t) then t else s

-- `EEL_cevents`: the numbers up to `max_reg` are the initializations of registers.
abbrev pub max_reg : ℕ
max_reg = 255

abbrev pub eexit : ℕ
eexit = 256

abbrev pub ereturn : ℕ
ereturn = 257

abbrev pub eresult : ℕ
eresult = 258

abbrev pub etarget : ℕ
etarget = 259

-- `EEL_cevlist`: the array of states as a function of the event's number.
pub record Cevlist : Type 0 where
  pub events : ℕ → Cestate
  pub breakto : ℕ
  pub maybe_breakto : ℕ

-- `EEL_ctxtypes`
pub data CtxType : Type 0 where
  ectx_block ectx_body ectx_module ectx_function : CtxType

-- What events need of `EEL_context`. There is always a first event list, since `context_init` opens
-- one; `lists` are the others, in their order. `is_xblock` says whether the function that is compiled
-- in the context is an XBLOCK.
pub record Context : Type 0 where
  pub type : CtxType
  pub conditional : Bool
  pub is_xblock : Bool
  pub level : ℕ
  pub firstel : Cevlist
  pub lists : List Cevlist

abbrev pub is_block : CtxType → Bool
is_block ectx_block = true
is_block _ = false

abbrev pub is_function : CtxType → Bool
is_function ectx_function = true
is_function _ = false

-- The list that `eel_e_open` links: `calloc` clears it.
abbrev pub new_list : Cevlist
new_list = record { events = λ _. eno; breakto = 0; maybe_breakto = 0 }

-- Whether an event leaves a conditional context (`eel_e_move_up`).
unfoldable pub moves : CtxType → ℕ → Bool
moves type i =
    if (i == eexit) || (i == etarget) then false else if leb i max_reg then is_block type else true

-- The event list as `eel_e_move_up` changes it, with one level peeled off the breaks.
abbrev pub peeled : CtxType → Cevlist → Cevlist
peeled type e = record {
  events = λ i. if moves type i then e.events i else eno;
  breakto = e.breakto - 1;
  maybe_breakto = e.maybe_breakto - 1;
}

-- `eel_e_move_up`: the list of `c` goes last in the previous context.
unfoldable pub move_up : Context → Context → Context
move_up c previous = record previous { lists = previous.lists ++ (peeled c.type c.firstel ∷ []) }

-- `eel_e_move_up_xblock`
unfoldable pub move_up_xblock : Context → Context → Context
move_up_xblock c previous =
    let e = c.firstel in
    let e' : Cevlist = record e {
      events = λ i. if (i == ereturn) || (i == eresult) then e.events i else eno;
    } in
    record previous { lists = previous.lists ++ (e' ∷ []) }

-- Whether an event leaves a context that is not conditional (`eel_e_merge_up`).
unfoldable pub merges_up : CtxType → ℕ → Bool
merges_up type i = if i == etarget then false else if leb i max_reg then is_block type else true

-- `eel_e_merge_up`
unfoldable pub merge_up : Context → Context → Context
merge_up c previous =
    let e = c.firstel in
    let pe = previous.firstel in
    record previous {
      firstel = record pe {
        events = λ i. if merges_up c.type i then later (pe.events i) (e.events i) else pe.events i;
      };
    }

-- The loop that sums the states of an event.
abbrev pub sum_states : ℕ → List Cevlist → ℕ
sum_states i [] = 0
sum_states i (e ∷ es) = rank (e.events i) + sum_states i es

-- "Process the result": the state of a sum over so many branches, at most the modulator.
unfoldable pub process : ℕ → ℕ → Cestate → Cestate
process branches sum modulator =
    let s = if sum == 0 then eno else if branches * 2 == sum then eyes else emaybe in
    if ltb (rank modulator) (rank s) then modulator else s

-- The loop over `breakto` and `maybe_breakto` of the branches, less one each, into the first list's
-- `maybe_breakto`. Where the source has -1 this has 0, which is not greater than anything either.
unfoldable pub bump_maybe : List Cevlist → ℕ → ℕ
bump_maybe [] m = m
bump_maybe (e ∷ es) m =
    let m1 = if ltb m (e.breakto - 1) then e.breakto - 1 else m in
    let m2 = if ltb m1 (e.maybe_breakto - 1) then e.maybe_breakto - 1 else m1 in bump_maybe es m2

-- `shallowest`, in the same loop; it starts at INT_MAX.
unfoldable pub shallowest : List Cevlist → ℕ → ℕ
shallowest [] s = s
shallowest (e ∷ es) s = shallowest es (if ltb (e.breakto - 1) s then e.breakto - 1 else s)

-- `eel_e_merge`
unfoldable pub merge : Context → Cestate → Context
merge c modulator =
    let e = c.firstel in
    let deepest = shallowest c.lists 0x7fff_ffff in
    let e' : Cevlist = record {
      events = λ i.
          if (i == eexit) || (i == etarget)
          then e.events i
          else later (e.events i) (process (length c.lists) (sum_states i c.lists) modulator);
      breakto = if ltb 1 (rank modulator) && ltb e.breakto deepest then deepest else e.breakto;
      maybe_breakto = bump_maybe c.lists e.maybe_breakto;
    } in
    if length c.lists == 0 then c else record c { firstel = e'; lists = [] }

-- The stack of contexts, the current one first.
abbrev pub Contexts : Type 0
Contexts = List Context

-- The loop of `test_ev`, with the result so far.
unfoldable pub test_loop : Contexts → ℕ → Cestate → Cestate
test_loop [] type result = result
test_loop (c ∷ cs) type result =
    let s = c.firstel.events type in
    let result' = later result s in
    let rest = test_loop cs type result' in
    if ltb (rank result) (rank s) && (rank s == 2)
    then result'
    else if is_function c.type
    then result'
    else rest

-- `test_ev`
unfoldable pub test_ev : Contexts → ℕ → Cestate
test_ev cs type = test_loop cs type eno

-- `test_break`
unfoldable pub test_break : Cevlist → Cestate
test_break e = if ltb 0 e.breakto then eyes else if ltb 0 e.maybe_breakto then emaybe else eno

-- `eel_test_exit` in the current context `c`.
unfoldable pub test_exit : Context → Contexts → Cestate
test_exit c cs =
    let ex = test_ev (c ∷ cs) eexit in
    let ret = test_ev (c ∷ cs) ereturn in
    let brk = test_break c.firstel in
    if rank (c.firstel.events etarget) == 2
    then eno
    else if rank ex == 2
    then eyes
    else if rank ret == 2
    then eyes
    else if rank brk == 2
    then eyes
    else if (rank ex == 0) && (rank ret == 0) && (rank brk == 0)
    then eno
    else emaybe

-- Errors that end the compilation.
pub data Fault : Type 0 where
  already_initialized out_of_range uncertain top_level : Fault

pub data Checked {ℓ} (A : Type ℓ) : Type ℓ where
  fine : A → Checked A
  fault : Fault → Checked A

-- Writes one state of an event list.
abbrev pub put : Cevlist → ℕ → Cestate → Cevlist
put e i s = record e { events = λ j. if j == i then s else e.events j }

-- `eel_e_exit`, `eel_e_return` and `eel_e_result` in the current context.
unfoldable pub e_exit : Context → Context
e_exit c = record c { firstel = put c.firstel eexit eyes }

unfoldable pub e_return : Context → Context
e_return c = record c { firstel = put c.firstel ereturn eyes }

unfoldable pub e_result : Context → Context
e_result c = record c { firstel = put c.firstel eresult eyes }

-- `eel_e_break` out of a context at level `to`, which is not above the current one.
unfoldable pub e_break : Context → ℕ → Context
e_break c to =
    let depth = c.level - to + 1 in
    let e = c.firstel in
    record c { firstel = record e { breakto = if ltb e.breakto depth then depth else e.breakto } }

-- `eel_e_target`
unfoldable pub e_target : Context → Cestate → Context
e_target c st = record c { firstel = put c.firstel etarget (later (c.firstel.events etarget) st) }

-- `eel_e_init` of a variable in register `location`.
unfoldable pub e_init : Context → Contexts → ℕ → Checked Context
e_init c cs location =
    if ltb 0 (rank (test_ev (c ∷ cs) location))
    then fault already_initialized
    else if ltb max_reg location
    then fault out_of_range
    else fine (record c { firstel = put c.firstel location eyes })

-- The inner loop of `eel_initializations`: the registers below `n`.
unfoldable pub count_yes : Cevlist → ℕ → Checked ℕ
count_yes e zero = fine 0
count_yes e (suc n) = elim (count_yes e n) [
  | fault f ↦ fault f
  | fine count ↦ elim (e.events n) [
    | eyes ↦ fine (count + 1)
    | emaybe ↦ fault uncertain
    | eno ↦ fine count
  ]
]

-- `eel_initializations`
unfoldable pub initializations : Contexts → Checked ℕ
initializations [] = fine 0
initializations (c ∷ cs) = elim (count_yes c.firstel (max_reg + 1)) [
  | fault f ↦ fault f
  | fine count ↦
      if is_function c.type
      then fine count
      else (elim (initializations cs) [ fault f ↦ fault f | fine more ↦ fine (count + more) ])
]

-- `eel_keep_variables`
abbrev pub keep_variables : Context → Bool
keep_variables c = is_block c.type

-- `eel_context_push`: the events and the level of the new context.
unfoldable pub push : CtxType → Bool → Bool → Context → Context
push type conditional is_xblock previous = record {
  type = type;
  conditional = conditional;
  is_xblock = is_xblock;
  level = previous.level + 1;
  firstel = new_list;
  lists = [];
}

-- What `eel_context_pop` hands on to the previous context.
unfoldable pub hand_on : Context → Context → Context
hand_on c previous =
    if is_function c.type
    then (if c.is_xblock then move_up_xblock c previous else previous)
    else if c.conditional
    then move_up c previous
    else merge_up c previous

-- `eel_context_pop`
unfoldable pub pop : Contexts → Checked Contexts
pop [] = fault top_level
pop (c ∷ []) = fault top_level
pop (c ∷ (previous ∷ cs)) = fine (hand_on c previous ∷ cs)
