-- ===== src/Objects/Owning.antt =====
-- Copying and moving values, the limbo of a function, and giving up references until an object is
-- destroyed: src/core/e_object.h and e_object.c.
use eel.Prelude.{
  ℕ, zero, suc, ◌-◌, Bool, Option, none, some, List, [], ◌∷◌, ◌==◌, if◌then◌else◌, ltb, length,
}
use eel.Objects.{
  Cell, nil, other, refs_of, obj_ref, weak_ref, Store, update, own, assign, attach, detach,
  relocate, kill_weakrefs, member,
}

-- `eel_v_clone` of the value `from` to the place `value`.
unfoldable pub v_clone : Bool → Store → ℕ → Cell → Store
unfolding assign own attach
v_clone memory s value (obj_ref o) = own (assign s value (obj_ref o)) o
v_clone memory s value (weak_ref i o) = attach memory (assign s value (weak_ref i o)) value o
v_clone memory s value c = assign s value c

-- `eel_v_copy`
unfoldable pub v_copy : Bool → Store → ℕ → Cell → Store
unfolding assign own attach
v_copy memory s value (obj_ref o) = own (assign s value (obj_ref o)) o
v_copy memory s value (weak_ref none o) = attach memory (assign s value (weak_ref none o)) value o
v_copy memory s value (weak_ref (some i) o) = own (assign s value (obj_ref o)) o
v_copy memory s value c = assign s value c

-- `eel_v_move`. Where `eel_weakref_relocate` writes an entry that the vector does not have, such as
-- `refs[-1]` for a weak reference that is not wired, what follows is undefined: `none`.
unfoldable pub v_move : Store → ℕ → Cell → Option Store
unfolding assign relocate refs_of
v_move s value (weak_ref none o) = none
v_move s value (weak_ref (some i) o) =
    if ltb i (length (refs_of (s.weakrefs o)))
    then some (relocate (assign s value (weak_ref (some i) o)) value i o)
    else none
v_move s value c = some (assign s value c)

-- `eel_v_qcopy`
unfoldable pub v_qcopy : Store → ℕ → Cell → Store
unfolding assign
v_qcopy s value (weak_ref i o) = assign s value (obj_ref o)
v_qcopy s value c = assign s value c

-- EEL_IS_OBJREF, with the object.
unfoldable pub referent : Cell → Option ℕ
referent (obj_ref o) = some o
referent (weak_ref i o) = some o
referent c = none

-- `eel_limbo_unlink`
unfoldable pub unlink : ℕ → List ℕ → List ℕ
unlink o [] = []
unlink o (p ∷ ps) = let rest = unlink o ps in if p == o then ps else p ∷ rest

-- `eel_in_limbo`
unfoldable pub in_limbo : Store → ℕ → Bool
unfolding member
in_limbo s o = member o s.limbo

-- `eel_o_limbo`
unfoldable pub o_limbo : Store → ℕ → Store
o_limbo s o = record s { limbo = o ∷ s.limbo }

-- `eel_v_limbo`
unfoldable pub v_limbo : Store → ℕ → Store
unfolding referent o_limbo
v_limbo s v = elim (referent (s.cells v)) [ none ↦ s | some o ↦ o_limbo s o ]

-- `--o->refcount`
unfoldable pub release : Store → ℕ → Store
unfolding update
release s o = record s { refcount = update s.refcount o (s.refcount o - 1) }

-- `eel_v_receive`
unfoldable pub v_receive : Store → ℕ → Store
unfolding referent in_limbo release o_limbo
v_receive s v = elim (referent (s.cells v)) [
  | none ↦ s
  | some o ↦ if in_limbo s o then release s o else o_limbo s o
]

-- `eel_v_grab`
unfoldable pub v_grab : Store → ℕ → Store
unfolding referent in_limbo own o_limbo
v_grab s v = elim (referent (s.cells v)) [
  | none ↦ s
  | some o ↦ if in_limbo s o then s else o_limbo (own s o) o
]

-- What the classes do when they destroy an object: their DESTRUCT changes the store, and may refuse.
-- `class_object` is `classes[object->classid]`.
pub record Classes : Type 0 where
  pub destructor : ℕ → Store → Bool × Store
  pub class_object : ℕ → ℕ

-- `eel_o__destruct` and `eel_o_free`, with `eel_o_disown_nz` for the class object.
unfoldable pub o_destruct : Classes → (Store → ℕ → Option Store) → Store → ℕ → Option Store
unfolding kill_weakrefs
o_destruct cs disown_class s o =
    let answer : Bool × Store = cs.destructor o s in
    if answer.0 then some answer.1 else disown_class (kill_weakrefs answer.1 o) (cs.class_object o)

-- `eel_o_disown_nz` with `eel_o__dispose`. The fuel bounds the chain from an object to its class
-- object and on to the class of that; `none` is running out of it.
unfoldable pub o_disown : Classes → ℕ → Store → ℕ → Option Store
unfolding release unlink o_destruct
o_disown cs zero s o = none
o_disown cs (suc fuel) s o =
    let released : Store = release s o in
    let disposed : Option Store =
      o_destruct cs (o_disown cs fuel) (record released { limbo = unlink o s.limbo }) o in
    if released.refcount o == 0 then disposed else some released

-- `eel_v_disown_nz` of the value at `v`; for a weak reference that is not wired, which must not be
-- disowned, it is undefined, and `none` as well.
unfoldable pub v_disown : Classes → ℕ → Store → ℕ → Option Store
unfolding o_disown detach
v_disown cs fuel s v = elim (s.cells v) [
  | nil ↦ some s
  | other n ↦ some s
  | obj_ref o ↦ o_disown cs fuel s o
  | weak_ref none o ↦ none
  | weak_ref (some i) o ↦ some (detach s v i o)
]
