-- ===== src/Events/Scope.antt =====
-- What is known in the function that is compiled: the tests, and what leaving a block keeps of it.
use eel.Prelude.{
  ℕ, ◌≡◌, ◌≢◌, ◌≤◌, refl, sym, ap, ◌∙◌, Bool, true, false, not, ◌&&◌, ◌||◌, leb, List, [], ◌∷◌, ltb,
  ◌==◌, if◌then◌else◌, arith, Bool-cases, inl, inr,
}
use eel.Events.{
  Cestate, eno, emaybe, eyes, rank, later, Cevlist, Context, Contexts, CtxType, eexit, ereturn,
  eresult, etarget, max_reg, is_block, is_function, merge_up, merges_up, move_up, move_up_xblock,
  put, hand_on, pop, fine, fault, test_loop, test_ev, test_break, test_exit, e_init,
  already_initialized,
}

later_assoc : (r s t : Cestate) → later (later r s) t ≡ later r (later s t)
later_assoc eno s t = ground arith
later_assoc emaybe s t = ground arith
later_assoc eyes s t = ground arith

-- The contexts of the function that is compiled: up to the first one that is a function's.
abbrev pub scope : Contexts → Contexts
scope [] = []
scope (c ∷ cs) = if is_function c.type then c ∷ [] else c ∷ scope cs

-- The greatest state of an event in any of the contexts.
abbrev pub highest : ℕ → Contexts → Cestate
highest i [] = eno
highest i (c ∷ cs) = later (c.firstel.events i) (highest i cs)

-- Once a state is YES, nothing is greater.
loop_step :
    (r s t : Cestate)
    → (if ltb (rank r) (rank s) && (rank s == 2) then later r s else later (later r s) t)
      ≡ later r (later s t)
loop_step eno s t = ground arith
loop_step emaybe s t = ground arith
loop_step eyes s t = ground arith

later-eno : (s : Cestate) → later s eno ≡ s
later-eno eno = refl
later-eno emaybe = refl
later-eno eyes = refl

if_same {ℓ} : {A : Type ℓ} (t : Bool) (a : A) → (if t then a else a) ≡ a
if_same true a = refl
if_same false a = refl

test_loop-highest :
    (cs : Contexts) (i : ℕ) (r : Cestate) → test_loop cs i r ≡ later r (highest i (scope cs))
unfolding test_loop
test_loop-highest [] i r = ground arith
test_loop-highest (c ∷ cs) i r = elim (Bool-cases (is_function c.type)) [
  | inl f ↦ rw (test_loop, f, if_same) (ap (later r) (sym (later-eno (c.firstel.events i))))
  | inr f ↦
      rw (test_loop, f, test_loop-highest cs i (later r (c.firstel.events i)))
        (loop_step r (c.firstel.events i) (highest i (scope cs)))
]

-- `test_ev` finds the greatest state of the event in the contexts of the function that is compiled, and
-- sees nothing of what is outside that function.
pub test_ev-highest : (cs : Contexts) (i : ℕ) → test_ev cs i ≡ highest i (scope cs)
unfolding test_ev
test_ev-highest cs i = test_loop-highest cs i eno ∙ eno-later (highest i (scope cs))
  where
    eno-later : (s : Cestate) → later eno s ≡ s
    eno-later eno = refl
    eno-later emaybe = refl
    eno-later eyes = refl

exits :
    (ex ret brk : Cestate)
    → (if rank ex == 2
        then eyes
        else if rank ret == 2
        then eyes
        else if rank brk == 2
        then eyes
        else if (rank ex == 0) && (rank ret == 0) && (rank brk == 0)
        then eno
        else emaybe)
      ≡ later ex (later ret brk)
exits eno eno brk = ground arith
exits eno emaybe brk = ground arith
exits eno eyes brk = ground arith
exits emaybe eno brk = ground arith
exits emaybe emaybe brk = ground arith
exits emaybe eyes brk = ground arith
exits eyes ret brk = ground arith

-- `eel_test_exit` answers NO where somebody certainly jumps to here; otherwise the greatest of what is
-- known of EXIT, of RETURN and of a break out of the current context. A jump to here that is only
-- possible changes nothing.
pub test_exit-highest :
    (c : Context) (cs : Contexts)
    → test_exit c cs ≡ (
        if rank (c.firstel.events etarget) == 2
        then eno
        else later
            (highest eexit (scope (c ∷ cs)))
            (later (highest ereturn (scope (c ∷ cs))) (test_break c.firstel)))
unfolding test_exit
test_exit-highest c cs =
    rw (test_exit, test_ev-highest (c ∷ cs) eexit, test_ev-highest (c ∷ cs) ereturn)
      (ap (λ x. if rank (c.firstel.events etarget) == 2 then eno else x)
        (exits (highest eexit (scope (c ∷ cs))) (highest ereturn (scope (c ∷ cs)))
          (test_break c.firstel)))

later_comm : (s t : Cestate) → later s t ≡ later t s
later_comm eno t = ground arith
later_comm emaybe t = ground arith
later_comm eyes t = ground arith

later_swap : (p c s : Cestate) → later (later p c) s ≡ later c (later p s)
later_swap p c s = rw (later_comm p c) (later_assoc c p s)

-- The events that leave a context that is not conditional: EXIT, RETURN and RESULT, and the
-- initializations where it is a block.
abbrev pub is_passed : CtxType → ℕ → Bool
is_passed type i =
    (i == eexit) || ((i == ereturn) || ((i == eresult) || (is_block type && leb i max_reg)))

merges_up-is_passed : (type : CtxType) (i : ℕ) → i ≤ etarget → merges_up type i ≡ is_passed type i
unfolding merges_up
merges_up-is_passed type i b = elim (Bool-cases (is_block type)) [
  | inl e ↦ ground (arith, e, b)
  | inr e ↦ ground (arith, e, b)
]

-- Whether what is known of an event in context `c` stays known when the context is left.
abbrev pub keeps : Context → ℕ → Bool
keeps c i = not (is_function c.type) && not c.conditional && is_passed c.type i

-- What is known outside the context, within the function.
abbrev pub outside : ℕ → Context → Contexts → Cestate
outside i c cs = if is_function c.type then eno else highest i (scope cs)

highest-scope :
    (i : ℕ) (c : Context) (cs : Contexts)
    → highest i (scope (c ∷ cs)) ≡ later (c.firstel.events i) (outside i c cs)
highest-scope i c cs = elim (Bool-cases (is_function c.type)) [
  | inl f ↦ rw f refl
  | inr f ↦ rw f refl
]

pub test_ev-cons :
    (i : ℕ) (c : Context) (cs : Contexts)
    → test_ev (c ∷ cs) i ≡ later (c.firstel.events i) (outside i c cs)
test_ev-cons i c cs = test_ev-highest (c ∷ cs) i ∙ highest-scope i c cs

lists-test_ev :
    (i : ℕ) (p : Context) (cs : Contexts) (l : List Cevlist)
    → test_ev (record p { lists = l } ∷ cs) i ≡ test_ev (p ∷ cs) i
lists-test_ev i p cs l = test_ev-cons i (record p { lists = l }) cs ∙ sym (test_ev-cons i p cs)

merge_up-test_ev :
    (i : ℕ) (c p : Context) (cs : Contexts)
    → is_function c.type ≡ false
    → i ≤ etarget
    → test_ev (merge_up c p ∷ cs) i
      ≡ (if is_passed c.type i then test_ev (c ∷ (p ∷ cs)) i else test_ev (p ∷ cs) i)
unfolding merge_up
merge_up-test_ev i c p cs f b = elim (Bool-cases (is_passed c.type i)) [
  | inl m ↦
      rw
        (
          m,
          test_ev-cons i (merge_up c p) cs,
          merges_up-is_passed c.type i b,
          m,
          test_ev-cons i c (p ∷ cs),
          f,
          highest-scope i p cs,
        )
        (later_swap (p.firstel.events i) (c.firstel.events i) (outside i p cs))
  | inr m ↦
      rw (m, test_ev-cons i (merge_up c p) cs, merges_up-is_passed c.type i b, m)
        (sym (test_ev-cons i p cs))
]

-- Leaving a context that is neither conditional nor a function's, with `previous` outside it, drops
-- nothing of what is known of EXIT, RETURN and RESULT and, where the context is a block, of the
-- initializations of registers; of all other events, and of any event where the context is
-- conditional or a function's, only what is known outside it remains.
pub pop-test_ev :
    (c previous : Context) (cs : Contexts) (i : ℕ)
    → i ≤ etarget
    → (pop (c ∷ (previous ∷ cs)) ≡ fine (hand_on c previous ∷ cs))
      × (test_ev (hand_on c previous ∷ cs) i
          ≡ (if keeps c i then test_ev (c ∷ (previous ∷ cs)) i else test_ev (previous ∷ cs) i))
unfolding pop hand_on move_up move_up_xblock
pop-test_ev c previous cs i b = (refl, after)
  where
    after :
        test_ev (hand_on c previous ∷ cs) i
        ≡ (if keeps c i then test_ev (c ∷ (previous ∷ cs)) i else test_ev (previous ∷ cs) i)
    after = elim (Bool-cases (is_function c.type)) [
      | inl f ↦ elim (Bool-cases c.is_xblock) [
        | inl x ↦ rw (hand_on, f, x) (lists-test_ev i previous cs _)
        | inr x ↦ rw (hand_on, f, x) refl
      ]
      | inr f ↦ elim (Bool-cases c.conditional) [
        | inl x ↦ rw (hand_on, f, x) (lists-test_ev i previous cs _)
        | inr x ↦ simp (f, x) (merge_up-test_ev i c previous cs f b)
      ]
    ]

-- The context after its variable in register `r` was initialized.
abbrev pub initialized : Context → ℕ → Context
initialized c r = record c { firstel = put c.firstel r eyes }

e_init-fine :
    (c c' : Context) (cs : Contexts) (r : ℕ) → e_init c cs r ≡ fine c' → c' ≡ initialized c r
unfolding e_init
e_init-fine c c' cs r h = ground arith

later-eyes : (s : Cestate) → later eyes s ≡ eyes
later-eyes eno = refl
later-eyes emaybe = refl
later-eyes eyes = refl

initialized-test_ev :
    (c : Context) (cs : Contexts) (r : ℕ) → test_ev (initialized c r ∷ cs) r ≡ eyes
initialized-test_ev c cs r =
    let same : (r == r) ≡ true = ground arith in
    rw (test_ev-cons r (initialized c r) cs, same) (later-eyes (outside r c cs))

-- After `eel_e_init` the variable counts as initialized, its initialization is refused from then on,
-- and nothing is changed for any other event.
pub e_init-test_ev :
    (c c' : Context) (cs : Contexts) (r : ℕ)
    → e_init c cs r ≡ fine c'
    → (test_ev (c' ∷ cs) r ≡ eyes)
      × (e_init c' cs r ≡ fault already_initialized)
      × ((i : ℕ) → i ≢ r → test_ev (c' ∷ cs) i ≡ test_ev (c ∷ cs) i)
unfolding e_init
e_init-test_ev c c' cs r h =
    let known = initialized-test_ev c cs r in
    rw (e_init-fine c c' cs r h) (known, rw (e_init, known) refl, others)
  where
    others : (i : ℕ) → i ≢ r → test_ev (initialized c r ∷ cs) i ≡ test_ev (c ∷ cs) i
    others i n =
        let other : (i == r) ≡ false = ground arith in
        rw (test_ev-cons i (initialized c r) cs, other) (sym (test_ev-cons i c cs))
