-- ===== src/Objects.antt =====
-- Weak references and reference counts, src/core/e_object.h and e_object.c: the vector of back
-- pointers of an object, copying and moving values between places, the limbo of a function, and
-- the destruction of objects. It is compiled with EEL_HYPER_AGGRESSIVE_MM and without
-- EEL_VM_CHECKING and EEL_CLEAN_COPY.
pub mod Owning
pub mod Refs
pub mod Steps
pub mod Room
pub mod Runs
pub mod Counts
pub mod Destroy
mod Examples
pub mod Wiring
use eel.Prelude.{
  ℕ, zero, suc, ◌+◌, ◌-◌, ◌*◌, ◌/◌, Bool, true, false, Option, none, some, List, [], ◌∷◌, ◌++◌, ltb,
  ◌==◌, ◌&&◌, if◌then◌else◌, length, get_elem?, get_or, set, take,
}
use eel.Resize.{calcresize}

-- An `EEL_value` at a place in memory. A weak reference that is not wired has the index -1, here
-- `none`. Values that refer to no object are `other`.
pub data Cell : Type 0 where
  nil : Cell
  other : ℕ → Cell
  obj_ref : ℕ → Cell
  weak_ref : Option ℕ → ℕ → Cell

-- `EEL_weakrefs`: the first `nrefs` entries of `refs`, which are addresses of values.
pub record Weakrefs : Type 0 where
  pub size : ℕ
  pub refs : List ℕ

-- The values by their address, the fields `weakrefs` and `refcount` of the objects by theirs, and
-- the limbo list of the function that runs.
pub record Store : Type 0 where
  pub cells : ℕ → Cell
  pub weakrefs : ℕ → Option Weakrefs
  pub refcount : ℕ → ℕ
  pub limbo : List ℕ

module _ {ℓ} {A : Type ℓ} where
  unfoldable pub update : (ℕ → A) → ℕ → A → ℕ → A
  update f i v j = if j == i then v else f j

abbrev pub wr_minsize : ℕ
wr_minsize = 4

unfoldable pub refs_of : Option Weakrefs → List ℕ
refs_of none = []
refs_of (some wr) = wr.refs

unfoldable pub size_of : Option Weakrefs → ℕ
size_of none = 0
size_of (some wr) = wr.size

-- `eel_o_own`
unfoldable pub own : Store → ℕ → Store
unfolding update
own s o = record s { refcount = update s.refcount o (s.refcount o + 1) }

-- `eel_weakref_attach` of the value at `v`, a weak reference to `o`. `memory` tells whether `realloc` succeeds.
unfoldable pub attach : Bool → Store → ℕ → ℕ → Store
unfolding update refs_of size_of own
attach memory s v o =
    let refs : List ℕ = refs_of (s.weakrefs o) in
    let size : ℕ = size_of (s.weakrefs o) in
    let grows : Bool = ltb size (length refs + 1) in
    let newsize : ℕ = if grows then calcresize wr_minsize size (length refs + 1) else size in
    let wired : Store = record s {
      weakrefs = update s.weakrefs o (some (record { size = newsize; refs = refs ++ v ∷ [] }));
      cells = update s.cells v (weak_ref (some (length refs)) o);
    } in
    if grows then (if memory then wired else own s o) else wired

-- `objref.index = index`, for a weak reference.
unfoldable pub set_index : Cell → ℕ → Cell
set_index (weak_ref i o) index = weak_ref (some index) o
set_index c index = c

-- "Replace this ref with the last in the vector", and `--nrefs`.
unfoldable pub remove_ref : List ℕ → ℕ → List ℕ
remove_ref refs i =
    let n : ℕ = length refs in
    take (n - 1) (if ltb i n then set refs i (get_or refs (n - 1) 0) else refs)

-- What `eel__weakref_detach` makes of a vector of `n` references after the removal; the size is
-- halved before `realloc` is called, whether it succeeds or not.
unfoldable pub shrink : ℕ → List ℕ → Option Weakrefs
shrink size refs =
    if ltb (length refs) (size / 2) && ltb wr_minsize size
    then some (record { size = size / 2; refs = refs })
    else (if length refs == 0 then none else some (record { size = size; refs = refs }))

-- `eel__weakref_detach` of the value at `v`, the weak reference `i` to `o`.
unfoldable pub detach : Store → ℕ → ℕ → ℕ → Store
unfolding update refs_of size_of remove_ref shrink set_index
detach s v i o =
    let refs : List ℕ = refs_of (s.weakrefs o) in
    let last : ℕ = get_or refs (length refs - 1) 0 in
    let moved : ℕ → Cell =
      if ltb i (length refs) then update s.cells last (set_index (s.cells last) i) else s.cells in
    record s {
      weakrefs = update s.weakrefs o (shrink (size_of (s.weakrefs o)) (remove_ref refs i));
      cells = update moved v nil;
    }

unfoldable pub map_refs : (List ℕ → List ℕ) → Option Weakrefs → Option Weakrefs
map_refs f none = none
map_refs f (some wr) = some (record wr { refs = f wr.refs })

-- `eel_weakref_relocate` of the weak reference `i` to `o`, which now stands at `to`.
unfoldable pub relocate : Store → ℕ → ℕ → ℕ → Store
unfolding update map_refs
relocate s to i o = record s {
  weakrefs = update s.weakrefs o (map_refs (λ refs. set refs i to) (s.weakrefs o));
}

-- The loop of `eel_kill_weakrefs`.
unfoldable pub clear_refs : List ℕ → (ℕ → Cell) → ℕ → Cell
unfolding update
clear_refs [] cells = cells
clear_refs (v ∷ vs) cells = clear_refs vs (update cells v nil)

-- `eel_kill_weakrefs`
unfoldable pub kill_weakrefs : Store → ℕ → Store
unfolding update refs_of clear_refs
kill_weakrefs s o = record s {
  weakrefs = update s.weakrefs o none;
  cells = clear_refs (refs_of (s.weakrefs o)) s.cells;
}

-- `*value = *from`
unfoldable pub assign : Store → ℕ → Cell → Store
unfolding update
assign s to c = record s { cells = update s.cells to c }

unfoldable pub member : ℕ → List ℕ → Bool
member o [] = false
member o (p ∷ ps) = if p == o then true else member o ps
