-- ===== src/Objects/Destroy.antt =====
-- Giving up the ownership of an object: when it is destroyed, and what becomes of the weak
-- references to it.
use eel.Prelude.{
  ℕ, suc, ◌+◌, ◌-◌, ◌<◌, ◌≡◌, ◌≢◌, ◌∙◌, refl, false, Option, some, List, ◌∷◌, arith, ◌==◌,
  if◌then◌else◌,
}
use eel.Objects.{obj_ref, weak_ref, Store, update, kill_weakrefs}
use eel.Objects.Owning.{release, unlink, Classes, o_destruct, o_disown, v_disown}
use eel.Objects.Counts.{IsCounted, strong, in_list}
use eel.Objects.Wiring.{IsWired, kill_weakrefs-IsWired, kill_weakrefs_clears}

release_at :
    (s : Store) (o p : ℕ)
    → (release s o).refcount p ≡ (if p == o then s.refcount o - 1 else s.refcount p)
unfolding release update
release_at s o p = refl

release-IsCounted :
    (s : Store) (v o : ℕ) (owners : List ℕ)
    → IsCounted s (v ∷ owners)
    → s.cells v ≡ obj_ref o
    → IsCounted (release s o) owners
unfolding release update
release-IsCounted s v o owners h e p = ground (arith, e, h p, h o)

o_disown_kept :
    (cs : Classes) (fuel : ℕ) (s : Store) (o : ℕ)
    → 1 < s.refcount o
    → o_disown cs (suc fuel) s o ≡ some (release s o)
unfolding o_disown release update
o_disown_kept cs fuel s o h = ground arith

-- The object without owners: unlinked from limbo, and with a count of 0.
abbrev pub orphan : Store → ℕ → Store
orphan s o = record (release s o) { limbo = unlink o s.limbo }

o_disown_last :
    (cs : Classes) (fuel : ℕ) (s : Store) (o : ℕ)
    → s.refcount o ≡ 1
    → o_disown cs (suc fuel) s o ≡ o_destruct cs (o_disown cs fuel) (orphan s o) o
unfolding o_disown release update
o_disown_last cs fuel s o h = ground (arith, h)

v_disown_strong :
    (cs : Classes) (fuel : ℕ) (s : Store) (v o : ℕ)
    → s.cells v ≡ obj_ref o
    → v_disown cs fuel s v ≡ o_disown cs fuel s o
unfolding v_disown
v_disown_strong cs fuel s v o e = ground (arith, e)

-- An owner gives up its strong reference to an object that another owner or the limbo list still
-- holds: `eel_v_disown_nz` returns, destroys nothing and leaves limbo alone, and the counts are right
-- for the owners that remain.
pub v_disown-IsCounted :
    (cs : Classes) (fuel : ℕ) (s : Store) (v o : ℕ) (owners : List ℕ)
    → IsCounted s (v ∷ owners)
    → s.cells v ≡ obj_ref o
    → 0 < strong o s.cells owners + in_list o s.limbo
    → (t : Store) × (v_disown cs (suc fuel) s v ≡ some t) × IsCounted t owners × (t.limbo ≡ s.limbo)
unfolding v_disown
v_disown-IsCounted cs fuel s v o owners h e k = (
  release s o,
  v_disown_strong cs (suc fuel) s v o e ∙ o_disown_kept cs fuel s o (ground (arith, e, h o, k)),
  release-IsCounted s v o owners h e,
  refl,
)

-- Where the destructor does not refuse, the weak references are cleared and the class is disowned.
o_destruct_agrees :
    (cs : Classes) (d : Store → ℕ → Option Store) (s : Store) (o : ℕ)
    → (cs.destructor o s).0 ≡ false
    → o_destruct cs d s o ≡ d (kill_weakrefs (cs.destructor o s).1 o) (cs.class_object o)
unfolding o_destruct
o_destruct_agrees cs d s o r = ground (arith, r)

kept :
    (cs : Classes) (s : Store) (o : ℕ)
    → 1 < (cs.destructor o (orphan s o)).1.refcount (cs.class_object o)
    → 1 < (kill_weakrefs (cs.destructor o (orphan s o)).1 o).refcount (cs.class_object o)
unfolding kill_weakrefs
kept cs s o c = c

-- The last owner gives up its reference to an object that is not in limbo. Where the class's
-- destructor agrees and leaves the weak references wired, and the class object has another owner,
-- `eel_v_disown_nz` returns, with a fuel of 2 or more, and no weak reference to the object is left,
-- while all others stay wired.
pub v_disown_destroys :
    (cs : Classes) (fuel : ℕ) (s : Store) (v o : ℕ) (owners : List ℕ)
    → IsCounted s (v ∷ owners)
    → s.cells v ≡ obj_ref o
    → strong o s.cells owners + in_list o s.limbo ≡ 0
    → (cs.destructor o (orphan s o)).0 ≡ false
    → IsWired (cs.destructor o (orphan s o)).1
    → 1 < (cs.destructor o (orphan s o)).1.refcount (cs.class_object o)
    → (t : Store) × (v_disown cs (suc (suc fuel)) s v ≡ some t)
      × IsWired t
      × ((a i : ℕ) → t.cells a ≢ weak_ref (some i) o)
unfolding release kill_weakrefs
v_disown_destroys cs fuel s v o owners h e k r w c =
    let gone : Store = kill_weakrefs (cs.destructor o (orphan s o)).1 o in
    (
      release gone (cs.class_object o),
      v_disown_strong cs (suc (suc fuel)) s v o e
          ∙ o_disown_last cs (suc fuel) s o (ground (arith, e, h o, k))
          ∙ o_destruct_agrees cs (o_disown cs (suc fuel)) (orphan s o) o r
          ∙ o_disown_kept cs fuel gone (cs.class_object o) (kept cs s o c),
      kill_weakrefs-IsWired (cs.destructor o (orphan s o)).1 o w,
      λ a i. kill_weakrefs_clears (cs.destructor o (orphan s o)).1 o a i w,
    )
