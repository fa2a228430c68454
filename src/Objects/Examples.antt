-- ===== src/Objects/Examples.antt =====
-- A run with two weak references to one object, and a table that is given up.
use eel.Prelude.{
  zero, suc, ℕ, ◌≡◌, ◌≢◌, refl, true, false, none, some, [], ◌∷◌, arith, ◌==◌, if◌then◌else◌,
}
use eel.Objects.{
  nil, obj_ref, weak_ref, Store, update, refs_of, size_of, assign, attach, relocate, detach,
  remove_ref, shrink, set_index, member,
}
use eel.Objects.Owning.{v_clone, v_move, v_receive, v_disown, release, Classes}
use eel.Objects.Wiring.{IsWired}
use eel.Objects.Room.{IsRoomy}
use eel.Objects.Runs.{Steps, clone, move, drop, start, next, initial, Steps-IsWired, Steps-IsRoomy}
use eel.Objects.Counts.{IsCounted, occurs, v_receive-IsCounted}
use eel.Objects.Destroy.{orphan, v_disown-IsCounted, v_disown_destroys}

-- The weak reference at place 1 to object 7 is new, the one at place 2 a clone of it; the first is
-- detached, so that the second takes its index.
abbrev one : Store
one = v_clone true initial 1 (weak_ref none 7)

abbrev two : Store
two = v_clone true one 2 (weak_ref (some 0) 7)

abbrev three : Store
three = detach two 1 0 7

run_three : Steps initial three
unfolding v_clone attach assign update refs_of size_of
run_three =
    next
      (next (next start (clone true 1 (weak_ref none 7) (ground arith) (ground arith)))
        (clone true 2 (weak_ref (some 0) 7) (ground arith) (ground arith)))
      (drop 1 0 7 (ground arith))

-- The second reference moves to place 5.
abbrev four : Store
four = assign (relocate (assign three 5 (weak_ref (some 0) 7)) 5 0 7) 2 nil

three_at : three.cells 2 ≡ weak_ref (some 0) 7
unfolding v_clone attach assign update refs_of size_of detach remove_ref shrink set_index
three_at = ground arith

three_moved :
    v_move three 5 (weak_ref (some 0) 7)
    ≡ some (relocate (assign three 5 (weak_ref (some 0) 7)) 5 0 7)
unfolding v_move v_clone attach assign update refs_of size_of detach remove_ref shrink
three_moved = ground arith

run_four : Steps initial four
unfolding v_clone attach assign update refs_of size_of detach remove_ref shrink set_index
run_four = next run_three (move 5 2 (ground arith) (ground arith) (rw three_at three_moved))

Steps-IsWired_example : IsWired four
Steps-IsWired_example = Steps-IsWired run_four

Steps-IsRoomy_example : IsRoomy four
Steps-IsRoomy_example = Steps-IsRoomy run_four

-- A class whose destructor agrees and gives up nothing; its object is 3.
abbrev obliging : Classes
obliging = record { destructor = λ o s. (false, s); class_object = λ o. 3 }

-- Place 1 and the limbo list hold object 7.
abbrev held : Store
held = record {
  cells = λ a. if a == 1 then obj_ref 7 else (if a == 2 then weak_ref (some 0) 7 else nil);
  weakrefs = λ o. if o == 7 then some (record { size = 4; refs = 2 ∷ [] }) else none;
  refcount = λ o. if o == 7 then 2 else 0;
  limbo = 7 ∷ [];
}

held-IsCounted : IsCounted held (1 ∷ [])
unfolding member
held-IsCounted o = ground arith

-- Nothing is in limbo yet.
abbrev given : Store
given = record held { limbo = []; refcount = λ o. if o == 7 then 1 else 0 }

given-IsCounted : IsCounted given (1 ∷ [])
unfolding member
given-IsCounted o = ground arith

v_receive-IsCounted_example :
    IsCounted (v_receive given 1) []
    × (occurs 7 (v_receive given 1).limbo ≡ 1)
    × ((p : ℕ) → p ≢ 7 → occurs p (v_receive given 1).limbo ≡ occurs p given.limbo)
v_receive-IsCounted_example =
    v_receive-IsCounted given 1 7 [] given-IsCounted refl (λ p. omega arith)

v_disown-IsCounted_example :
    (t : Store) × (v_disown obliging 1 held 1 ≡ some t) × IsCounted t [] × (t.limbo ≡ 7 ∷ [])
unfolding member
v_disown-IsCounted_example =
    v_disown-IsCounted obliging 0 held 1 7 [] held-IsCounted refl (omega arith)

-- Place 1 alone holds object 7; its class object 3 has two owners.
abbrev alone : Store
alone = record {
  cells = λ a.
      if a == 1
      then obj_ref 7
      else (if a == 2
          then weak_ref (some 0) 7
          else (if a == 8 then obj_ref 3 else (if a == 9 then obj_ref 3 else nil)));
  weakrefs = λ o. if o == 7 then some (record { size = 4; refs = 2 ∷ [] }) else none;
  refcount = λ o. if o == 7 then 1 else (if o == 3 then 2 else 0);
  limbo = [];
}

alone-IsCounted : IsCounted alone (1 ∷ (8 ∷ (9 ∷ [])))
unfolding member
alone-IsCounted o = ground arith

alone-IsWired : IsWired (orphan alone 7)
unfolding refs_of release
alone-IsWired a o zero = ground arith
alone-IsWired a o (suc i) = ground arith

v_disown_destroys_example :
    (t : Store) × (v_disown obliging 2 alone 1 ≡ some t)
    × IsWired t
    × ((a i : ℕ) → t.cells a ≢ weak_ref (some i) 7)
unfolding member release update
v_disown_destroys_example =
    v_disown_destroys obliging 0 alone 1 7 (8 ∷ (9 ∷ [])) alone-IsCounted refl refl refl
      alone-IsWired (omega arith)
