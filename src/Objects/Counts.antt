-- ===== src/Objects/Counts.antt =====
-- The reference count of an object, its owners and the limbo list.
use eel.Prelude.{
  ℕ, ◌+◌, ◌≡◌, ◌≢◌, ◌≤◌, ◌<◌, Bool-cases, inl, inr, refl, ap, true, false, none, some, List, [],
  ◌∷◌, arith, ◌==◌, if◌then◌else◌,
}
use eel.Objects.{Cell, nil, other, obj_ref, weak_ref, Store, update, own, assign, attach, member}
use eel.Objects.Owning.{v_clone, v_copy, v_receive, v_grab, referent, in_limbo, o_limbo, release}

-- 1 for a strong reference to `o`.
abbrev pub refers : ℕ → Cell → ℕ
refers o (obj_ref p) = if p == o then 1 else 0
refers o c = 0

-- How many of the places `owners` refer to `o` strongly.
abbrev pub strong : ℕ → (ℕ → Cell) → List ℕ → ℕ
strong o cells [] = 0
strong o cells (a ∷ as') = refers o (cells a) + strong o cells as'

abbrev pub in_list : ℕ → List ℕ → ℕ
in_list o ps = if member o ps then 1 else 0

-- The count of each object is the number of the owners that refer to it, and one more where it is in
-- limbo.
abbrev pub IsCounted : Store → List ℕ → Type 0
IsCounted s owners = (o : ℕ) → s.refcount o ≡ strong o s.cells owners + in_list o s.limbo

-- Writing a place that is no owner changes no number of owners.
strong_frame :
    (old new : ℕ → Cell) (value o : ℕ) (owners : List ℕ)
    → ((a : ℕ) → (a == value) ≡ false → new a ≡ old a)
    → member value owners ≡ false
    → strong o new owners ≡ strong o old owners
unfolding member
strong_frame old new value o [] h n = refl
strong_frame old new value o (a ∷ as') h n =
    ground (arith, h a, n, strong_frame old new value o as' h)

-- A place becomes an owner, of what it then refers to.
add_owner :
    (s t : Store) (value : ℕ) (owners : List ℕ)
    → ((o : ℕ) → t.refcount o ≡ s.refcount o + refers o (t.cells value))
    → ((a : ℕ) → (a == value) ≡ false → t.cells a ≡ s.cells a)
    → t.limbo ≡ s.limbo
    → IsCounted s owners
    → member value owners ≡ false
    → IsCounted t (value ∷ owners)
add_owner s t value owners r c l h n o =
    omega (arith, r o, strong_frame s.cells t.cells value o owners c n, h o, ap (in_list o) l)

v_clone_refcount :
    (s : Store) (value : ℕ) (c : Cell) (o : ℕ)
    → (v_clone true s value c).refcount o
      ≡ s.refcount o + refers o ((v_clone true s value c).cells value)
unfolding v_clone own assign attach update
v_clone_refcount s value nil o = ground arith
v_clone_refcount s value (other n) o = ground arith
v_clone_refcount s value (obj_ref p) o = ground arith
v_clone_refcount s value (weak_ref i p) o = ground arith

v_clone_frame :
    (s : Store) (value : ℕ) (c : Cell) (a : ℕ)
    → (a == value) ≡ false
    → (v_clone true s value c).cells a ≡ s.cells a
unfolding v_clone own assign attach update
v_clone_frame s value nil a e = ground (arith, e)
v_clone_frame s value (other n) a e = ground (arith, e)
v_clone_frame s value (obj_ref p) a e = ground (arith, e)
v_clone_frame s value (weak_ref i p) a e = ground (arith, e)

v_clone_limbo : (s : Store) (value : ℕ) (c : Cell) → (v_clone true s value c).limbo ≡ s.limbo
unfolding v_clone own assign attach update
v_clone_limbo s value nil = ground arith
v_clone_limbo s value (other n) = ground arith
v_clone_limbo s value (obj_ref p) = ground arith
v_clone_limbo s value (weak_ref i p) = ground arith

v_copy_refcount :
    (s : Store) (value : ℕ) (c : Cell) (o : ℕ)
    → (v_copy true s value c).refcount o
      ≡ s.refcount o + refers o ((v_copy true s value c).cells value)
unfolding v_copy own assign attach update
v_copy_refcount s value nil o = ground arith
v_copy_refcount s value (other n) o = ground arith
v_copy_refcount s value (obj_ref p) o = ground arith
v_copy_refcount s value (weak_ref none p) o = ground arith
v_copy_refcount s value (weak_ref (some i) p) o = ground arith

v_copy_frame :
    (s : Store) (value : ℕ) (c : Cell) (a : ℕ)
    → (a == value) ≡ false
    → (v_copy true s value c).cells a ≡ s.cells a
unfolding v_copy own assign attach update
v_copy_frame s value nil a e = ground (arith, e)
v_copy_frame s value (other n) a e = ground (arith, e)
v_copy_frame s value (obj_ref p) a e = ground (arith, e)
v_copy_frame s value (weak_ref none p) a e = ground (arith, e)
v_copy_frame s value (weak_ref (some i) p) a e = ground (arith, e)

v_copy_limbo : (s : Store) (value : ℕ) (c : Cell) → (v_copy true s value c).limbo ≡ s.limbo
unfolding v_copy own assign attach update
v_copy_limbo s value nil = ground arith
v_copy_limbo s value (other n) = ground arith
v_copy_limbo s value (obj_ref p) = ground arith
v_copy_limbo s value (weak_ref none p) = ground arith
v_copy_limbo s value (weak_ref (some i) p) = ground arith

-- `eel_v_clone` makes the new place an owner, and the counts stay right.
pub v_clone-IsCounted :
    (s : Store) (value : ℕ) (c : Cell) (owners : List ℕ)
    → IsCounted s owners
    → member value owners ≡ false
    → IsCounted (v_clone true s value c) (value ∷ owners)
v_clone-IsCounted s value c owners h n =
    add_owner s (v_clone true s value c) value owners (v_clone_refcount s value c)
      (v_clone_frame s value c) (v_clone_limbo s value c) h n

pub v_copy-IsCounted :
    (s : Store) (value : ℕ) (c : Cell) (owners : List ℕ)
    → IsCounted s owners
    → member value owners ≡ false
    → IsCounted (v_copy true s value c) (value ∷ owners)
v_copy-IsCounted s value c owners h n =
    add_owner s (v_copy true s value c) value owners (v_copy_refcount s value c)
      (v_copy_frame s value c) (v_copy_limbo s value c) h n

-- How often `o` is in a list of objects.
abbrev pub occurs : ℕ → List ℕ → ℕ
occurs o [] = 0
occurs o (p ∷ ps) = let rest = occurs o ps in if p == o then rest + 1 else rest

occurs-member : (o : ℕ) (ps : List ℕ) → member o ps ≡ false → occurs o ps ≡ 0
unfolding member
occurs-member o [] h = refl
occurs-member o (p ∷ ps) h = ground (arith, h, occurs-member o ps)

member-occurs : (o : ℕ) (ps : List ℕ) → member o ps ≡ true → 0 < occurs o ps
unfolding member
member-occurs o [] h = ground (arith, h)
member-occurs o (p ∷ ps) h = ground (arith, h, member-occurs o ps)

v_receive_counts :
    (s : Store) (v o : ℕ) (owners : List ℕ)
    → IsCounted s (v ∷ owners)
    → s.cells v ≡ obj_ref o
    → IsCounted (v_receive s v) owners
unfolding v_receive referent in_limbo release o_limbo member update
v_receive_counts s v o owners h e p = ground (arith, e, h p, h o)

v_receive_limbo :
    (s : Store) (v o : ℕ)
    → s.cells v ≡ obj_ref o
    → (v_receive s v).limbo ≡ (if member o s.limbo then s.limbo else o ∷ s.limbo)
unfolding v_receive referent in_limbo release o_limbo
v_receive_limbo s v o e = ground (arith, e)

-- `eel_v_receive` of a strong reference that came with an ownership of its object, where the counts
-- are right and no object is in limbo more than once: the place is no owner any longer, and the
-- counts stay right; the object is in limbo exactly once, and every other object as often as before.
pub v_receive-IsCounted :
    (s : Store) (v o : ℕ) (owners : List ℕ)
    → IsCounted s (v ∷ owners)
    → s.cells v ≡ obj_ref o
    → ((p : ℕ) → occurs p s.limbo ≤ 1)
    → IsCounted (v_receive s v) owners
      × (occurs o (v_receive s v).limbo ≡ 1)
      × ((p : ℕ) → p ≢ o → occurs p (v_receive s v).limbo ≡ occurs p s.limbo)
v_receive-IsCounted s v o owners h e once = (
  v_receive_counts s v o owners h e,
  elim (Bool-cases (member o s.limbo)) [
    | inl m ↦ rw (v_receive_limbo s v o e, m) (omega (arith, once o, member-occurs o s.limbo m))
    | inr m ↦ rw (v_receive_limbo s v o e, m) (ground (arith, occurs-member o s.limbo m))
  ],
  λ p n. elim (Bool-cases (member o s.limbo)) [
    | inl m ↦ rw (v_receive_limbo s v o e, m) refl
    | inr m ↦ rw (v_receive_limbo s v o e, m) (ground (arith, n))
  ],
)

pub v_grab-IsCounted :
    (s : Store) (v : ℕ) (owners : List ℕ) → IsCounted s owners → IsCounted (v_grab s v) owners
unfolding v_grab referent in_limbo own o_limbo member update
v_grab-IsCounted s v owners h p = ground (arith, h p)
