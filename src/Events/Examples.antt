-- ===== src/Events/Examples.antt =====
-- The theorems on events, in a function whose body is being compiled.
use eel.Prelude.{◌≡◌, refl, true, false, arith, [], ◌∷◌, if◌then◌else◌}
use eel.Events.{
  emaybe, eyes, Context, ectx_block, ectx_function, new_list, push, pop, hand_on, merge, later,
  fine, test_ev,
}
use eel.Events.Combine.{agree, cap}
use eel.Events.Merge.{Describes, executions, any_branch, merge-Describes}
use eel.Events.Scope.{keeps, initialized, pop-test_ev}
use eel.Events.Branches.{if_else, if_only, handed, if_else_lem}

abbrev fun : Context
fun = record {
  type = ectx_function;
  conditional = false;
  is_xblock = false;
  level = 1;
  firstel = new_list;
  lists = [];
}

-- A block in which register 4 is set, and the branches of an `if`.
abbrev inner : Context
inner = initialized (push ectx_block false false fun) 4

abbrev branch : Context
branch = initialized (push ectx_block true false fun) 4

abbrev other : Context
other = push ectx_block true false fun

-- One of two branches sets register 4.
abbrev branched : Context
branched = record fun { lists = branch.firstel ∷ (other.firstel ∷ []) }

merge-Describes_example :
    Describes
      ((merge branched eyes).firstel.events 4)
      (executions eyes (false ∷ []) (any_branch ((true ∷ []) ∷ ((false ∷ []) ∷ []))))
unfolding push
merge-Describes_example =
    merge-Describes branched eyes 4 branch.firstel (other.firstel ∷ []) (false ∷ [])
      ((true ∷ []) ∷ ((false ∷ []) ∷ [])) refl refl (refl, tt) ((refl, tt), ((refl, tt), tt))

pop-test_ev_example :
    (pop (inner ∷ (fun ∷ [])) ≡ fine (hand_on inner fun ∷ []))
    × (test_ev (hand_on inner fun ∷ []) 4
        ≡ (if keeps inner 4 then test_ev (inner ∷ (fun ∷ [])) 4 else test_ev (fun ∷ []) 4))
pop-test_ev_example = pop-test_ev inner fun [] 4 (omega arith)

if_else_lem_example :
    ((if_else branch other fun).firstel.events 4
      ≡ later (fun.firstel.events 4) (agree (handed branch 4) (handed other 4)))
    × ((if_only branch fun).firstel.events 4
        ≡ later (fun.firstel.events 4) (cap emaybe (handed branch 4)))
unfolding push
if_else_lem_example =
    if_else_lem branch other fun 4 (refl, refl) (refl, refl) refl (omega arith) refl
