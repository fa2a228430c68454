-- ===== src/Casts/Generic.antt =====
-- `generic_indexable_cast` of src/core/e_cast.c, and `eel_cast` of e_cast.h.
use mathlib.Core.List.{append-nil, append_assoc}
use eel.Prelude.{
  ℕ, zero, suc, ◌≡◌, ◌∙◌, refl, sym, ap, ◌||◌, Option, none, some, List, [], ◌∷◌, ◌++◌, arith, ◌==◌,
  if◌then◌else◌, length, length-append,
}
use eel.Exceptions.{Result, ok, exception, xwrongtype, xmemory}
use eel.Casts.{Caster, Casters, entry}

-- What the class of the new object offers to the cast: its constructor without operands, and its
-- SETINDEX.
pub record Target {ℓ} (S V : Type ℓ) : Type ℓ where
  pub construct : Result S
  pub setindex : S → ℕ → V → Result S

-- What the class of the object that is cast offers: LENGTH, and GETINDEX, whose result owns what it
-- refers to.
pub record Origin {ℓ} (V : Type ℓ) : Type ℓ where
  pub length_of : Result ℕ
  pub getindex : ℕ → Result V

-- What happens to ownerships: GETINDEX gave a value, `eel_v_disown_nz(&tmp)`, and
-- `eel_o_disown_nz(o2)`.
pub data Event {ℓ} (V : Type ℓ) : Type ℓ where
  got : V → Event V
  disowned : V → Event V
  dropped : Event V

module _ {ℓ} {S V : Type ℓ} (o : Origin V) (t : Target S V) where
  -- The loop of `generic_indexable_cast`, with `count` items to go from index `i` on.
  unfoldable pub copy_items : ℕ → ℕ → S → Result S × List (Event V)
  copy_items zero i s = (ok s, [])
  copy_items (suc count) i s = elim (o.getindex i) [
    | exception x ↦ (exception x, dropped ∷ [])
    | ok v ↦ elim (t.setindex s i v) [
      | exception x ↦ (exception x, got v ∷ (dropped ∷ []))
      | ok s' ↦ let (r, log) = copy_items count (suc i) s' in (r, got v ∷ (disowned v ∷ log))
    ]
  ]

  unfoldable pub indexable_cast : Result S × List (Event V)
  unfolding copy_items
  indexable_cast = elim o.length_of [
    | exception x ↦ (exception x, [])
    | ok maxi ↦ elim t.construct [ exception x ↦ (exception x, []) | ok s ↦ copy_items maxi 0 s ]
  ]

-- What the cast relies on in the class of the new object: a new one is empty, and setting the index
-- behind the last item adds an item.
pub record IsGrowing {ℓ} {S V : Type ℓ} (t : Target S V) : Type ℓ where
  pub contents : S → List V
  pub start : S
  pub construct_ok : t.construct ≡ ok start
  pub start_empty : contents start ≡ []
  pub add : S → V → S
  pub setindex_ok : (s : S) (v : V) → t.setindex s (length (contents s)) v ≡ ok (add s v)
  pub contents-add : (s : S) (v : V) → contents (add s v) ≡ contents s ++ v ∷ []

module _ {ℓ} {V : Type ℓ} (o : Origin V) where
  -- GETINDEX gives these values from index `i` on.
  abbrev pub Reads : ℕ → List V → Type ℓ
  Reads i [] = Unit
  Reads i (v ∷ vs) = (o.getindex i ≡ ok v) × Reads (suc i) vs

abbrev pub each_disowned {ℓ} : {V : Type ℓ} → List V → List (Event V)
each_disowned [] = []
each_disowned (v ∷ vs) = got v ∷ (disowned v ∷ each_disowned vs)

module _ {ℓ} {S V : Type ℓ} (o : Origin V) (t : Target S V) (g : IsGrowing t) where
  copied : List V → ℕ → S → S
  copied [] i s = s
  copied (v ∷ vs) i s = copied vs (suc i) (g.add s v)

  copy_step :
      (count i : ℕ) (s s' : S) (v : V) (r : Result S × List (Event V))
      → o.getindex i ≡ ok v
      → t.setindex s i v ≡ ok s'
      → copy_items o t count (suc i) s' ≡ r
      → copy_items o t (suc count) i s ≡ (r.0, got v ∷ (disowned v ∷ r.1))
  unfolding copy_items
  copy_step count i s s' v r a b c = ground (arith, a, b, c)

  copy_items_lem :
      (vs : List V) (i : ℕ) (s : S)
      → length (g.contents s) ≡ i
      → Reads o i vs
      → (copy_items o t (length vs) i s ≡ (ok (copied vs i s), each_disowned vs))
        × (g.contents (copied vs i s) ≡ g.contents s ++ vs)
  unfolding copy_items copied
  copy_items_lem [] i s l reads = (refl, sym (append-nil (g.contents s)))
  copy_items_lem (v ∷ vs) i s l (read, reads) =
      let more : length (g.contents (g.add s v)) ≡ suc i =
        omega (arith, l, ap length (g.contents-add s v), length-append (g.contents s) (v ∷ [])) in
      let (e, c) = copy_items_lem vs (suc i) (g.add s v) more reads in
      (
        copy_step (length vs) i s (g.add s v) v
            (ok (copied vs (suc i) (g.add s v)), each_disowned vs) read
            (ap (λ n. t.setindex s n v) (sym l) ∙ g.setindex_ok s v) e,
        c ∙ ap (λ xs. xs ++ vs) (g.contents-add s v) ∙ append_assoc (g.contents s) (v ∷ []) vs,
      )

  begun :
      (n : ℕ) (s : S)
      → o.length_of ≡ ok n
      → t.construct ≡ ok s
      → indexable_cast o t ≡ copy_items o t n 0 s
  unfolding indexable_cast
  begun n s a b = ground (arith, a, b)

  -- Where LENGTH gives the number of items, GETINDEX each of them, and the new object takes items at
  -- its end, `generic_indexable_cast` succeeds: the new object holds exactly the items, in order, and
  -- each reference that GETINDEX gave is given up again.
  pub indexable_cast_lem :
      (vs : List V)
      → o.length_of ≡ ok (length vs)
      → Reads o 0 vs
      → (s : S) × (indexable_cast o t ≡ (ok s, each_disowned vs)) × (g.contents s ≡ vs)
  indexable_cast_lem vs l reads =
      let (e, c) = copy_items_lem vs 0 g.start (ap length g.start_empty) reads in
      (
        copied vs 0 g.start,
        begun (length vs) g.start l g.construct_ok ∙ e,
        c ∙ ap (λ xs. xs ++ vs) g.start_empty,
      )

-- EEL_CSTRING and EEL_CDSTRING
abbrev pub string_class : ℕ
string_class = 10

abbrev pub dstring_class : ℕ
dstring_class = 11

-- What `eel_cast` calls: a cast of the matrix, `eel_v_stringrep`, which fails with NULL, and
-- `eel_ps_new` and `eel_ds_new`.
pub record Calls {ℓ} (V : Type ℓ) : Type ℓ where
  pub call : Caster → Result V
  pub stringrep : Option (List ℕ)
  pub ps_new : List ℕ → Option V
  pub ds_new : List ℕ → Option V

module _ {ℓ} {V : Type ℓ} (calls : Calls V) where
  -- The string that stands for a value that has no cast to strings.
  unfoldable pub string_of : ℕ → Result V
  string_of cid = elim calls.stringrep [
    | none ↦ exception xwrongtype
    | some text ↦ elim (if cid == string_class then calls.ps_new text else calls.ds_new text) [
      | none ↦ exception xmemory
      | some v ↦ ok v
    ]
  ]

  -- `eel_cast` from a value of class `from` to class `cid`.
  unfoldable pub cast : Casters → ℕ → ℕ → Result V
  unfolding entry string_of
  cast es from cid = elim (calls.call (entry es from cid)) [
    | ok v ↦ ok v
    | exception x ↦
        if cid == string_class || cid == dstring_class then string_of cid else exception x
  ]
