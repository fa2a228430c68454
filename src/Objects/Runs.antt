-- ===== src/Objects/Runs.antt =====
-- Sequences of operations on weak references: copying, moving, overwriting and detaching values,
-- and destroying objects.
use eel.Prelude.{ℕ, ◌≡◌, ◌≢◌, refl, sym, Bool, true, false, inl, inr, none, some, [], arith}
use mathlib.Core.Path.{subst}
use mathlib.Core.Option.{some-injective, none-ne-some}
use eel.Objects.{
  Cell, nil, other, obj_ref, weak_ref, Store, refs_of, own, attach, assign, detach, kill_weakrefs,
}
use eel.Objects.Owning.{v_clone, v_copy, v_move}
use eel.Objects.Refs.{get_elem?-length}
use eel.Objects.Room.{
  IsRoomy, attach-IsRoomy, detach-IsRoomy, relocate-IsRoomy, kill_weakrefs-IsRoomy,
}
use eel.Objects.Wiring.{IsWired, IsFree, detach-IsWired, kill_weakrefs-IsWired}
use eel.Objects.Steps.{
  IsLoose, attach_denied, v_move_wired, assign-IsWired, v_clone-IsWired, v_copy-IsWired,
  v_move-IsWired,
}

-- One operation; `memory` tells whether there is memory for a longer vector. A place is written,
-- brutally, only where no wired weak reference stands; a wired weak reference is cloned only where
-- there is memory, and an unwired one is not moved.
pub data Step : Store → Store → Type 0 where
  clone :
      {s : Store} (memory : Bool) (value : ℕ) (c : Cell)
      → IsFree s value
      → (memory ≡ false → IsLoose c)
      → Step s (v_clone memory s value c)
  copy :
      {s : Store} (memory : Bool) (value : ℕ) (c : Cell)
      → IsFree s value
      → Step s (v_copy memory s value c)
  move :
      {s t : Store} (value from : ℕ)
      → IsFree s value
      → value ≢ from
      → v_move s value (s.cells from) ≡ some t
      → Step s (assign t from nil)
  write :
      {s : Store} (value : ℕ) (c : Cell) → IsFree s value → IsLoose c → Step s (assign s value c)
  drop : {s : Store} (v i o : ℕ) → s.cells v ≡ weak_ref (some i) o → Step s (detach s v i o)
  kill : {s : Store} (o : ℕ) → Step s (kill_weakrefs s o)

pub data Steps (s : Store) : Store → Type 0 where
  start : Steps s s
  next : {t u : Store} → Steps s t → Step t u → Steps s u

-- No object is referred to weakly.
abbrev pub initial : Store
initial = record { cells = λ a. nil; weakrefs = λ o. none; refcount = λ o. 0; limbo = [] }

attach_any-IsRoomy :
    (memory : Bool) (s : Store) (v o : ℕ) → IsRoomy s → IsRoomy (attach memory s v o)
unfolding own
attach_any-IsRoomy true s v o h = attach-IsRoomy s v o h
attach_any-IsRoomy false s v o h = elim (attach_denied s v o) [
  | inl e ↦ subst (λ t. IsRoomy t) (sym e) (attach-IsRoomy s v o h)
  | inr e ↦ subst (λ t. IsRoomy t) (sym e) h
]

v_clone-IsRoomy :
    (memory : Bool) (s : Store) (value : ℕ) (c : Cell)
    → IsRoomy s
    → IsRoomy (v_clone memory s value c)
unfolding v_clone own assign
v_clone-IsRoomy memory s value nil h = h
v_clone-IsRoomy memory s value (other n) h = h
v_clone-IsRoomy memory s value (obj_ref o) h = h
v_clone-IsRoomy memory s value (weak_ref i o) h =
    attach_any-IsRoomy memory (assign s value (weak_ref i o)) value o h

v_copy-IsRoomy :
    (memory : Bool) (s : Store) (value : ℕ) (c : Cell)
    → IsRoomy s
    → IsRoomy (v_copy memory s value c)
unfolding v_copy own assign
v_copy-IsRoomy memory s value nil h = h
v_copy-IsRoomy memory s value (other n) h = h
v_copy-IsRoomy memory s value (obj_ref o) h = h
v_copy-IsRoomy memory s value (weak_ref none o) h =
    attach_any-IsRoomy memory (assign s value (weak_ref none o)) value o h
v_copy-IsRoomy memory s value (weak_ref (some i) o) h = h

v_move-IsRoomy :
    (s t : Store) (value from : ℕ) (c : Cell)
    → IsRoomy s
    → v_move s value c ≡ some t
    → IsRoomy (assign t from nil)
unfolding v_move assign
v_move-IsRoomy s t value from nil h m = subst (λ u. IsRoomy u) (some-injective _ _ m) h
v_move-IsRoomy s t value from (other n) h m = subst (λ u. IsRoomy u) (some-injective _ _ m) h
v_move-IsRoomy s t value from (obj_ref o) h m = subst (λ u. IsRoomy u) (some-injective _ _ m) h
v_move-IsRoomy s t value from (weak_ref none o) h m = absurd (none-ne-some t m)
v_move-IsRoomy s t value from (weak_ref (some i) o) h m =
    subst (λ u. IsRoomy u) (v_move_wired s t value i o m)
      (relocate-IsRoomy (assign s value (weak_ref (some i) o)) value i o h)

step-IsWired : {s t : Store} → Step s t → IsWired s → IsWired t
step-IsWired {s} (clone memory value c f l) w = v_clone-IsWired memory s value c l w f
step-IsWired {s} (copy memory value c f) w = v_copy-IsWired memory s value c w f
step-IsWired {s} (move {t = t} value from f n m) w =
    v_move-IsWired s t value from (s.cells from) w f n refl m
step-IsWired {s} (write value c f l) w = assign-IsWired s value c w f l
step-IsWired {s} (drop v i o e) w = detach-IsWired s v i o w e
step-IsWired {s} (kill o) w = kill_weakrefs-IsWired s o w

step-IsRoomy : {s t : Store} → Step s t → IsWired s → IsRoomy s → IsRoomy t
unfolding assign
step-IsRoomy {s} (clone memory value c f l) w h = v_clone-IsRoomy memory s value c h
step-IsRoomy {s} (copy memory value c f) w h = v_copy-IsRoomy memory s value c h
step-IsRoomy {s} (move {t = t} value from f n m) w h =
    v_move-IsRoomy s t value from (s.cells from) h m
step-IsRoomy {s} (write value c f l) w h = h
step-IsRoomy {s} (drop v i o e) w h =
    detach-IsRoomy s v i o h (get_elem?-length (refs_of (s.weakrefs o)) i ((w v o i).1 e))
step-IsRoomy {s} (kill o) w h = kill_weakrefs-IsRoomy s o h

-- Let values be copied, cloned, moved, overwritten and detached, and the weak references to objects
-- be killed, in any order from a store without weak references, with or without memory, where no
-- wired weak reference is overwritten, written directly, or cloned without memory, only wired ones
-- are detached, and values are moved to other places, unwired weak references not at all. Then the
-- weak references and the vectors of back pointers agree: entry i of the vector of an object points
-- at a value exactly where that value is the weak reference number i to the object.
pub Steps-IsWired : {t : Store} → Steps initial t → IsWired t
unfolding refs_of
Steps-IsWired start a o i = ground arith
Steps-IsWired (next r s) a o i = step-IsWired s (Steps-IsWired r) a o i

-- Let values be copied, cloned, moved, overwritten and detached, and the weak references to objects
-- be killed, in any order from a store without weak references, with or without memory, where no
-- wired weak reference is overwritten, written directly, or cloned without memory, only wired ones
-- are detached, and values are moved to other places, unwired weak references not at all. Then the
-- vector of an object that has one holds a reference, so that an object whose last wired weak
-- reference is gone holds no memory for them; the vector has room for its entries, and above the
-- minimal size of 4 at least half of the room, rounded down, is in use.
pub Steps-IsRoomy : {t : Store} → Steps initial t → IsRoomy t
Steps-IsRoomy start o = tt
Steps-IsRoomy (next r s) o = step-IsRoomy s (Steps-IsWired r) (Steps-IsRoomy r) o
