-- ===== src/Objects/Wiring.antt =====
-- Weak references and the vectors of back pointers agree.
use eel.Prelude.{
  ℕ, zero, suc, ◌-◌, ◌<◌, ◌≡◌, ◌≢◌, ◌↔◌, ◌∙◌, refl, ap, true, none, some, List, [], ◌∷◌, ◌++◌,
  arith, ◌==◌, Bool-cases, ◌&&◌, inl, inr, if◌then◌else◌, length, get_elem?, get_or,
}
use eel.Objects.Refs.{
  get_elem?-length, get_elem?-get_or, get_elem?_of_if, get_elem?-append, get_elem?-remove_ref,
}
use eel.Objects.{
  Cell, nil, weak_ref, Store, update, refs_of, size_of, attach, attach, remove_ref, shrink, detach,
  set_index, clear_refs, kill_weakrefs, member,
}

-- Entry `i` of the vector of `o` points at `a` exactly where the value at `a` is the weak reference
-- number `i` to `o`.
abbrev pub IsWired : Store → Type 0
IsWired s =
    (a o i : ℕ)
    → (get_elem? (refs_of (s.weakrefs o)) i ≡ some a) ↔ (s.cells a ≡ weak_ref (some i) o)

-- No wired weak reference stands at `a`.
abbrev pub IsFree : Store → ℕ → Type 0
IsFree s a = (o i : ℕ) → s.cells a ≢ weak_ref (some i) o

refs_of-attach :
    (s : Store) (v o p : ℕ)
    → refs_of ((attach true s v o).weakrefs p)
      ≡ (if p == o then refs_of (s.weakrefs o) ++ v ∷ [] else refs_of (s.weakrefs p))
unfolding attach update refs_of
refs_of-attach s v o p = ground arith

cells-attach :
    (s : Store) (v o a : ℕ)
    → (attach true s v o).cells a
      ≡ (if a == v then weak_ref (some (length (refs_of (s.weakrefs o)))) o else s.cells a)
unfolding attach update
cells-attach s v o a = ground arith

get-attach :
    (s : Store) (v o p i : ℕ)
    → get_elem? (refs_of ((attach true s v o).weakrefs p)) i ≡ (
        if p == o && i == length (refs_of (s.weakrefs o))
        then some v
        else get_elem? (refs_of (s.weakrefs p)) i)
get-attach s v o p i =
    ap (λ xs. get_elem? xs i) (refs_of-attach s v o p)
    ∙ get_elem?_of_if (p == o) (refs_of (s.weakrefs o) ++ v ∷ []) (refs_of (s.weakrefs p)) i
    ∙ ground (arith, get_elem?-append (refs_of (s.weakrefs o)) v i)

pub attach-IsWired : (s : Store) (v o : ℕ) → IsWired s → IsFree s v → IsWired (attach true s v o)
attach-IsWired s v o w f a p i = ground (
  arith,
  w a p i,
  w v p i,
  f p i,
  get-attach s v o p i,
  cells-attach s v o a,
  get_elem?-length (refs_of (s.weakrefs p)) i {x = a},
)

refs_of-shrink : (size : ℕ) (refs : List ℕ) → refs_of (shrink size refs) ≡ refs
unfolding shrink refs_of
refs_of-shrink size [] = ground arith
refs_of-shrink size (v ∷ vs) = ground arith

refs_of-detach :
    (s : Store) (v i o p : ℕ)
    → refs_of ((detach s v i o).weakrefs p)
      ≡ (if p == o then remove_ref (refs_of (s.weakrefs o)) i else refs_of (s.weakrefs p))
unfolding detach update
refs_of-detach s v i o p =
    ground (arith, refs_of-shrink (size_of (s.weakrefs o)) (remove_ref (refs_of (s.weakrefs o)) i))

get-detach :
    (s : Store) (v i o p j : ℕ)
    → get_elem? (refs_of ((detach s v i o).weakrefs p)) j ≡ (
        if p == o
        then get_elem? (remove_ref (refs_of (s.weakrefs o)) i) j
        else get_elem? (refs_of (s.weakrefs p)) j)
get-detach s v i o p j =
    ap (λ xs. get_elem? xs j) (refs_of-detach s v i o p)
    ∙ get_elem?_of_if (p == o) (remove_ref (refs_of (s.weakrefs o)) i) (refs_of (s.weakrefs p)) j

last_of : Store → ℕ → ℕ
last_of s o = get_or (refs_of (s.weakrefs o)) (length (refs_of (s.weakrefs o)) - 1) 0

-- The last entry of a vector points at a weak reference that knows its place.
cells-last_of :
    (s : Store) (v i o : ℕ)
    → IsWired s
    → s.cells v ≡ weak_ref (some i) o
    → (i < length (refs_of (s.weakrefs o)))
      × (s.cells (last_of s o) ≡ weak_ref (some (length (refs_of (s.weakrefs o)) - 1)) o)
unfolding last_of
cells-last_of s v i o w e =
    let b : i < length (refs_of (s.weakrefs o)) =
      get_elem?-length (refs_of (s.weakrefs o)) i ((w v o i).1 e) in
    (
      b,
      (w (last_of s o) o (length (refs_of (s.weakrefs o)) - 1)).0 (
          get_elem?-get_or (refs_of (s.weakrefs o)) (length (refs_of (s.weakrefs o)) - 1)
            (omega (arith, b))),
    )

-- What is at `a` after a wired reference was detached.
cells-detach :
    (s : Store) (v i o a : ℕ)
    → IsWired s
    → s.cells v ≡ weak_ref (some i) o
    → (detach s v i o).cells a
      ≡ (if a == v then nil else (if a == last_of s o then weak_ref (some i) o else s.cells a))
unfolding detach update set_index last_of
cells-detach s v i o a w e = ground (arith, cells-last_of s v i o w e)

pub detach-IsWired :
    (s : Store) (v i o : ℕ) → IsWired s → s.cells v ≡ weak_ref (some i) o → IsWired (detach s v i o)
unfolding last_of
detach-IsWired s v i o w e a p j = ground (
  arith,
  e,
  get-detach s v i o p j,
  cells-detach s v i o a w e,
  cells-last_of s v i o w e,
  get_elem?-remove_ref (refs_of (s.weakrefs o)) i j (cells-last_of s v i o w e).0,
  get_elem?-length (refs_of (s.weakrefs o)) j {x = a},
  w a p j,
  w v o i,
  w v o j,
  w (last_of s o) p j,
)

member_at : (v : ℕ) (vs : List ℕ) → member v vs ≡ true → (i : ℕ) × (get_elem? vs i ≡ some v)
unfolding member
member_at v [] e = absurd (ground (arith, e))
member_at v (x ∷ xs) e = elim (Bool-cases (x == v)) [
  | inl q ↦ (0, ground (arith, q))
  | inr q ↦
      let at : (i : ℕ) × (get_elem? xs i ≡ some v) = member_at v xs (ground (arith, q, e)) in
      (suc at.0, at.1)
]

at_member : (v : ℕ) (vs : List ℕ) (i : ℕ) → get_elem? vs i ≡ some v → member v vs ≡ true
unfolding member
at_member v [] i e = absurd (ground (arith, e))
at_member v (x ∷ xs) zero e = ground (arith, e)
at_member v (x ∷ xs) (suc i) e = ground (arith, at_member v xs i e)

clear_refs-member :
    (vs : List ℕ) (cells : ℕ → Cell) (a : ℕ)
    → clear_refs vs cells a ≡ (if member a vs then nil else cells a)
unfolding clear_refs update member
clear_refs-member [] cells a = refl
clear_refs-member (v ∷ vs) cells a = clear_refs-member vs (update cells v nil) a ∙ ground arith

get-kill_weakrefs :
    (s : Store) (o p i : ℕ)
    → get_elem? (refs_of ((kill_weakrefs s o).weakrefs p)) i
      ≡ (if p == o then none else get_elem? (refs_of (s.weakrefs p)) i)
unfolding kill_weakrefs update refs_of
get-kill_weakrefs s o p i = elim (Bool-cases (p == o)) [ inl e ↦ rw e refl | inr e ↦ rw e refl ]

pub kill_weakrefs-IsWired : (s : Store) (o : ℕ) → IsWired s → IsWired (kill_weakrefs s o)
unfolding kill_weakrefs
kill_weakrefs-IsWired s o w a p i = elim (Bool-cases (member a (refs_of (s.weakrefs o)))) [
  | inl e ↦
      let at : (k : ℕ) × (get_elem? (refs_of (s.weakrefs o)) k ≡ some a) =
        member_at a (refs_of (s.weakrefs o)) e in
      ground (
        arith,
        e,
        w a o at.0,
        at.1,
        w a p i,
        get-kill_weakrefs s o p i,
        clear_refs-member (refs_of (s.weakrefs o)) s.cells a,
      )
  | inr e ↦ ground (
    arith,
    e,
    w a o i,
    w a p i,
    at_member a (refs_of (s.weakrefs o)) i,
    get-kill_weakrefs s o p i,
    clear_refs-member (refs_of (s.weakrefs o)) s.cells a,
  )
]

-- After `eel_kill_weakrefs` no weak reference to the object is left.
pub kill_weakrefs_clears :
    (s : Store) (o a i : ℕ) → IsWired s → (kill_weakrefs s o).cells a ≢ weak_ref (some i) o
unfolding kill_weakrefs
kill_weakrefs_clears s o a i w e = ground (
  arith,
  e,
  w a o i,
  at_member a (refs_of (s.weakrefs o)) i,
  clear_refs-member (refs_of (s.weakrefs o)) s.cells a,
)
