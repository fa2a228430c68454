-- ===== src/Objects/Room.antt =====
-- The memory that a vector of back pointers takes.
use eel.Prelude.{
  ℕ, zero, suc, ◌+◌, ◌*◌, ◌/◌, ◌<◌, ◌≤◌, ◌≡◌, refl, true, Option, none, some, List, [], ◌∷◌, ◌++◌,
  arith, Bool-cases, inl, inr, ltb, ◌==◌, ◌&&◌, if◌then◌else◌, length, length-append, set,
  length-set,
}
use eel.Resize.{grow, calcresize}
use eel.Objects.{
  Weakrefs, Store, update, refs_of, size_of, attach, detach, shrink, remove_ref, relocate, map_refs,
  kill_weakrefs, wr_minsize,
}
use eel.Objects.Refs.{length-remove_ref}

-- A vector that is there has an entry, room for all of its entries, and, above the minimal size, at
-- least half of its room in use.
abbrev pub IsSnug : Option Weakrefs → Type 0
IsSnug none = Unit
IsSnug (some wr) =
    (0 < length wr.refs)
    × (length wr.refs ≤ wr.size)
    × (wr_minsize < wr.size → wr.size / 2 ≤ length wr.refs)

grow_done : (base requested fuel n : ℕ) → requested ≤ n → grow base requested fuel n ≡ n
unfolding grow
grow_done base requested zero n h = refl
grow_done base requested (suc fuel) n h = ground arith

-- The next size of a full vector.
calcresize_full :
    (n : ℕ) → calcresize wr_minsize n (n + 1) ≡ (if n == 0 then wr_minsize else n * 3 / 2 + 4)
unfolding calcresize grow
calcresize_full zero = refl
calcresize_full (suc n) = ground (arith, grow_done 4 (suc n + 1) (suc n) (suc n * 3 / 2 + 4))

grown_IsSnug :
    (n : ℕ) (refs : List ℕ)
    → length refs ≡ n + 1
    → IsSnug (some (record { size = calcresize wr_minsize n (n + 1); refs = refs }))
grown_IsSnug n refs e = ground (arith, e, calcresize_full n)

-- One more entry for the vector `m`, with the size that `eel_weakref_attach` gives it.
abbrev pub with_ref : Option Weakrefs → ℕ → Weakrefs
with_ref m v = record {
  size =
      if ltb (size_of m) (length (refs_of m) + 1)
      then calcresize wr_minsize (size_of m) (length (refs_of m) + 1)
      else size_of m;
  refs = refs_of m ++ v ∷ [];
}

with_ref-IsSnug : (m : Option Weakrefs) (v : ℕ) → IsSnug m → IsSnug (some (with_ref m v))
unfolding refs_of size_of
with_ref-IsSnug none v h = grown_IsSnug 0 (v ∷ []) refl
with_ref-IsSnug (some wr) v h = elim (Bool-cases (ltb wr.size (length wr.refs + 1))) [
  | inl e ↦
      ground (arith, e, h, length-append wr.refs (v ∷ []), grown_IsSnug wr.size (wr.refs ++ v ∷ []))
  | inr e ↦ ground (arith, e, h, length-append wr.refs (v ∷ []))
]

shrink-IsSnug :
    (size : ℕ) (refs : List ℕ)
    → length refs + 1 ≤ size
    → (wr_minsize < size → size / 2 ≤ length refs + 1)
    → IsSnug (shrink size refs)
unfolding shrink
shrink-IsSnug size refs h k =
    elim (Bool-cases (ltb (length refs) (size / 2) && ltb wr_minsize size)) [
      | inl e ↦ rw e (ground (arith, e, h, k))
      | inr e ↦ elim (Bool-cases (length refs == 0)) [
        | inl z ↦ rw (e, z) tt
        | inr z ↦ rw (e, z) (ground (arith, e, z, h, k))
      ]
    ]

pub IsSnug-update :
    (f : ℕ → Option Weakrefs) (o : ℕ) (m : Option Weakrefs)
    → ((p : ℕ) → IsSnug (f p))
    → IsSnug m
    → (p : ℕ) → IsSnug (update f o m p)
unfolding update
IsSnug-update f o m h k p = elim (Bool-cases (p == o)) [ inl e ↦ rw e k | inr e ↦ rw e (h p) ]

-- Every vector of the store is snug.
abbrev pub IsRoomy : Store → Type 0
IsRoomy s = (o : ℕ) → IsSnug (s.weakrefs o)

weakrefs-attach :
    (s : Store) (v o p : ℕ)
    → (attach true s v o).weakrefs p ≡ update s.weakrefs o (some (with_ref (s.weakrefs o) v)) p
unfolding attach
weakrefs-attach s v o p = ground arith

pub attach-IsRoomy : (s : Store) (v o : ℕ) → IsRoomy s → IsRoomy (attach true s v o)
attach-IsRoomy s v o h p = rw (weakrefs-attach s v o p) (
    IsSnug-update s.weakrefs o (some (with_ref (s.weakrefs o) v)) h
      (with_ref-IsSnug (s.weakrefs o) v (h o)) p)

room :
    (m : Option Weakrefs) (i : ℕ)
    → IsSnug m
    → i < length (refs_of m)
    → (length (remove_ref (refs_of m) i) + 1 ≤ size_of m)
      × (wr_minsize < size_of m → size_of m / 2 ≤ length (remove_ref (refs_of m) i) + 1)
unfolding refs_of size_of
room none i h l = absurd (omega (arith, l))
room (some wr) i h l = ground (arith, h, l, length-remove_ref wr.refs i)

pub detach-IsRoomy :
    (s : Store) (v i o : ℕ)
    → IsRoomy s
    → i < length (refs_of (s.weakrefs o))
    → IsRoomy (detach s v i o)
unfolding detach
detach-IsRoomy s v i o h l =
    let r : (length (remove_ref (refs_of (s.weakrefs o)) i) + 1 ≤ size_of (s.weakrefs o))
        × (wr_minsize < size_of (s.weakrefs o)
            → size_of (s.weakrefs o) / 2 ≤ length (remove_ref (refs_of (s.weakrefs o)) i) + 1) =
      room (s.weakrefs o) i (h o) l in
    IsSnug-update s.weakrefs o
      (shrink (size_of (s.weakrefs o)) (remove_ref (refs_of (s.weakrefs o)) i)) h
      (shrink-IsSnug (size_of (s.weakrefs o)) (remove_ref (refs_of (s.weakrefs o)) i) r.0 r.1)

map_refs-IsSnug :
    (m : Option Weakrefs) (i to : ℕ) → IsSnug m → IsSnug (map_refs (λ refs. set refs i to) m)
unfolding map_refs
map_refs-IsSnug none i to h = tt
map_refs-IsSnug (some wr) i to h = ground (arith, h, length-set wr.refs i to)

pub relocate-IsRoomy : (s : Store) (to i o : ℕ) → IsRoomy s → IsRoomy (relocate s to i o)
unfolding relocate
relocate-IsRoomy s to i o h =
    IsSnug-update s.weakrefs o (map_refs (λ refs. set refs i to) (s.weakrefs o)) h
      (map_refs-IsSnug (s.weakrefs o) i to (h o))

pub kill_weakrefs-IsRoomy : (s : Store) (o : ℕ) → IsRoomy s → IsRoomy (kill_weakrefs s o)
unfolding kill_weakrefs
kill_weakrefs-IsRoomy s o h = IsSnug-update s.weakrefs o none h tt
