-- ===== src/Objects/Steps.antt =====
-- The operations on values, and any sequence of them, with respect to the wiring of weak references.
use eel.Prelude.{
  ℕ, ◌<◌, ◌≡◌, ◌≢◌, ◌∙◌, refl, sym, ap, ◌+◌, ◌⊎◌, Bool, Bool-cases, inl, inr, ltb, true, false,
  Option, none, some, List, [], arith, ◌==◌, ◌&&◌, if◌then◌else◌, length, get_elem?, set,
}
use mathlib.Core.Path.{subst}
use mathlib.Core.Option.{some-injective, none-ne-some}
use eel.Objects.{
  Cell, nil, other, obj_ref, weak_ref, Weakrefs, Store, update, refs_of, size_of, own, assign,
  attach, attach, relocate, map_refs,
}
use eel.Objects.Owning.{v_clone, v_copy, v_move}
use eel.Objects.Refs.{get_elem?-length, get_elem?-set, get_elem?_of_if}
use eel.Objects.Wiring.{IsWired, IsFree, attach-IsWired}

-- The value is no wired weak reference.
abbrev pub IsLoose : Cell → Type 0
IsLoose c = (o i : ℕ) → c ≢ weak_ref (some i) o

pub assign-IsWired :
    (s : Store) (to : ℕ) (c : Cell) → IsWired s → IsFree s to → IsLoose c → IsWired (assign s to c)
unfolding assign update
assign-IsWired s to c w f l a o i = ground (arith, w a o i, f o i, l o i)

assign_at :
    (s : Store) (v : ℕ) (c : Cell) (a : ℕ)
    → (assign s v c).cells a ≡ (if a == v then c else s.cells a)
unfolding assign update
assign_at s v c a = refl

refs_of-map_refs :
    (f : List ℕ → List ℕ) (m : Option Weakrefs) → f [] ≡ [] → refs_of (map_refs f m) ≡ f (refs_of m)
unfolding refs_of map_refs
refs_of-map_refs f none e = sym e
refs_of-map_refs f (some wr) e = refl

refs_of-relocate :
    (s : Store) (to i o p : ℕ)
    → refs_of ((relocate s to i o).weakrefs p)
      ≡ (if p == o then set (refs_of (s.weakrefs o)) i to else refs_of (s.weakrefs p))
unfolding relocate update
refs_of-relocate s to i o p =
    ground (arith, refs_of-map_refs (λ refs. set refs i to) (s.weakrefs o) refl)

-- Where the place is written before the reference is attached, what stood there does not matter.
attach-assign-IsWired :
    (s : Store) (v o : ℕ) (c : Cell)
    → IsWired s
    → IsFree s v
    → IsWired (attach true (assign s v c) v o)
unfolding attach assign update
attach-assign-IsWired s v o c w f a p i = ground (arith, attach-IsWired s v o w f a p i)

-- Where there is no memory for a longer vector, the object is owned and nothing is attached.
pub attach_denied :
    (s : Store) (v o : ℕ)
    → (attach false s v o ≡ attach true s v o) ⊎ (attach false s v o ≡ own s o)
unfolding attach
attach_denied s v o =
    elim (Bool-cases (ltb (size_of (s.weakrefs o)) (length (refs_of (s.weakrefs o)) + 1))) [
      | inl grows ↦ inr (rw (attach, grows) refl)
      | inr room ↦ inl (rw (attach, room) refl)
    ]

own-IsWired : (s : Store) (o : ℕ) → IsWired s → IsWired (own s o)
unfolding own
own-IsWired s o w = w

-- With or without memory, where what is written before is no wired weak reference.
attach_loose-IsWired :
    (memory : Bool) (s : Store) (v o : ℕ) (c : Cell)
    → IsWired s
    → IsFree s v
    → IsLoose c
    → IsWired (attach memory (assign s v c) v o)
attach_loose-IsWired true s v o c w f l = attach-assign-IsWired s v o c w f
attach_loose-IsWired false s v o c w f l = elim (attach_denied (assign s v c) v o) [
  | inl e ↦ subst (λ t. IsWired t) (sym e) (attach-assign-IsWired s v o c w f)
  | inr e ↦
      subst (λ t. IsWired t) (sym e) (own-IsWired (assign s v c) o (assign-IsWired s v c w f l))
]

pub v_clone-IsWired :
    (memory : Bool) (s : Store) (value : ℕ) (c : Cell)
    → (memory ≡ false → IsLoose c)
    → IsWired s
    → IsFree s value
    → IsWired (v_clone memory s value c)
unfolding v_clone own
v_clone-IsWired memory s value nil l w f = assign-IsWired s value nil w f (ground arith)
v_clone-IsWired memory s value (other n) l w f = assign-IsWired s value (other n) w f (ground arith)
v_clone-IsWired memory s value (obj_ref o) l w f =
    assign-IsWired s value (obj_ref o) w f (ground arith)
v_clone-IsWired true s value (weak_ref i o) l w f =
    attach-assign-IsWired s value o (weak_ref i o) w f
v_clone-IsWired false s value (weak_ref i o) l w f =
    attach_loose-IsWired false s value o (weak_ref i o) w f (l refl)

pub v_copy-IsWired :
    (memory : Bool) (s : Store) (value : ℕ) (c : Cell)
    → IsWired s
    → IsFree s value
    → IsWired (v_copy memory s value c)
unfolding v_copy own
v_copy-IsWired memory s value nil w f = assign-IsWired s value nil w f (ground arith)
v_copy-IsWired memory s value (other n) w f = assign-IsWired s value (other n) w f (ground arith)
v_copy-IsWired memory s value (obj_ref o) w f =
    assign-IsWired s value (obj_ref o) w f (ground arith)
v_copy-IsWired memory s value (weak_ref none o) w f =
    attach_loose-IsWired memory s value o (weak_ref none o) w f (ground arith)
v_copy-IsWired memory s value (weak_ref (some i) o) w f =
    assign-IsWired s value (obj_ref o) w f (ground arith)

-- A loose value that moves.
move_loose :
    (s : Store) (value from : ℕ) (c : Cell)
    → IsWired s
    → IsFree s value
    → s.cells from ≡ c
    → IsLoose c
    → IsWired (assign (assign s value c) from nil)
move_loose s value from c w f e l =
    let free : IsFree (assign s value c) from =
      λ o i q. ground (arith, q, e, l o i, assign_at s value c from) in
    assign-IsWired (assign s value c) from nil (assign-IsWired s value c w f l) free (ground arith)

get-relocate :
    (s : Store) (to i o p j : ℕ)
    → i < length (refs_of (s.weakrefs o))
    → get_elem? (refs_of ((relocate s to i o).weakrefs p)) j
      ≡ (if p == o && j == i then some to else get_elem? (refs_of (s.weakrefs p)) j)
unfolding relocate update
get-relocate s to i o p j h =
    ap (λ xs. get_elem? xs j) (refs_of-relocate s to i o p)
    ∙ get_elem?_of_if (p == o) (set (refs_of (s.weakrefs o)) i to) (refs_of (s.weakrefs p)) j
    ∙ ground (arith, get_elem?-set (refs_of (s.weakrefs o)) i to j h)

cells-relocate : (s : Store) (to i o a : ℕ) → (relocate s to i o).cells a ≡ s.cells a
unfolding relocate
cells-relocate s to i o a = refl

move-IsWired :
    (s : Store) (value from i o : ℕ)
    → IsWired s
    → IsFree s value
    → value ≢ from
    → s.cells from ≡ weak_ref (some i) o
    → IsWired (assign (relocate (assign s value (weak_ref (some i) o)) value i o) from nil)
unfolding assign update
move-IsWired s value from i o w f n e a p j =
    let b : i < length (refs_of (s.weakrefs o)) =
      get_elem?-length (refs_of (s.weakrefs o)) i ((w from o i).1 e) in
    ground (
      arith,
      n,
      e,
      w a p j,
      cells-relocate (assign s value (weak_ref (some i) o)) value i o a,
      w from p j,
      w from o i,
      f p j,
      get-relocate (assign s value (weak_ref (some i) o)) value i o p j b,
    )

-- A move that is defined, of a wired weak reference.
pub v_move_wired :
    (s t : Store) (value i o : ℕ)
    → v_move s value (weak_ref (some i) o) ≡ some t
    → relocate (assign s value (weak_ref (some i) o)) value i o ≡ t
unfolding v_move
v_move_wired s t value i o e = elim (Bool-cases (ltb i (length (refs_of (s.weakrefs o))))) [
  | inl k ↦ ground (arith, e, k)
  | inr k ↦ ground (arith, e, k)
]

-- In a wired store a move is defined for every value but an unwired weak reference.
pub v_move_defined :
    (s : Store) (value from : ℕ) (c : Cell)
    → IsWired s
    → s.cells from ≡ c
    → ((o : ℕ) → c ≢ weak_ref none o)
    → (t : Store) × (v_move s value c ≡ some t)
unfolding v_move
v_move_defined s value from nil w e u = (_, refl)
v_move_defined s value from (other k) w e u = (_, refl)
v_move_defined s value from (obj_ref o) w e u = (_, refl)
v_move_defined s value from (weak_ref none o) w e u = absurd (u o refl)
v_move_defined s value from (weak_ref (some i) o) w e u =
    let b : i < length (refs_of (s.weakrefs o)) =
      get_elem?-length (refs_of (s.weakrefs o)) i ((w from o i).1 e) in
    (relocate (assign s value (weak_ref (some i) o)) value i o, ground (arith, b))

-- A move, after which the old place holds nothing.
pub v_move-IsWired :
    (s t : Store) (value from : ℕ) (c : Cell)
    → IsWired s
    → IsFree s value
    → value ≢ from
    → s.cells from ≡ c
    → v_move s value c ≡ some t
    → IsWired (assign t from nil)
unfolding v_move
v_move-IsWired s t value from nil w f n e m =
    subst (λ u. IsWired (assign u from nil)) (some-injective _ _ m)
      (move_loose s value from nil w f e (ground arith))
v_move-IsWired s t value from (other k) w f n e m =
    subst (λ u. IsWired (assign u from nil)) (some-injective _ _ m)
      (move_loose s value from (other k) w f e (ground arith))
v_move-IsWired s t value from (obj_ref o) w f n e m =
    subst (λ u. IsWired (assign u from nil)) (some-injective _ _ m)
      (move_loose s value from (obj_ref o) w f e (ground arith))
v_move-IsWired s t value from (weak_ref none o) w f n e m = absurd (none-ne-some t m)
v_move-IsWired s t value from (weak_ref (some i) o) w f n e m =
    subst (λ u. IsWired (assign u from nil)) (v_move_wired s t value i o m)
      (move-IsWired s value from i o w f n e)
