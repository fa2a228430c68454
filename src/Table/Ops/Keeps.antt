-- ===== src/Table/Ops/Keeps.antt =====
-- The other operations on tables keep the invariant, and the length tells what they did.
use eel.Prelude.{
  ℕ, suc, ◌+◌, ◌-◌, ◌≤◌, ◌≡◌, ◌⊎◌, inl, inr, Bool, true, none, some, List, [], ◌∷◌, ◌++◌, arith,
  length, get_or, length-set, Option-cases,
}
use eel.Exceptions.{ok}
use eel.Value.{Value, Effect, World, v_copy, v_disown, v2hash}
use eel.Shift.Laws.{remove_at}
use eel.Shift.Gap.{length-remove_at, get_or-remove_at, length-insert_at}
use eel.Table.{Item, Table, blank, setsize}
use eel.Table.Find.{hit, miss, find}
use eel.Table.Find.Locate.{Found-cases, find-hit, find-Parts}
use eel.Table.Ops.{
  replace_value, setindex, delete, insert, insert_items, construct_pairs, construct,
}
use eel.Table.Ops.Sound.{outcome_cases, add_item_lem, delete_at_lem, setsize_covers, setsize_total}
use eel.Table.Ops.Order.{
  IsValid, empty-IsValid, setindex_cases, setindex-IsValid, add_item-IsValid, remove_at-IsSorted,
}

module _ (w : World) (realloc : ℕ → Bool) where
  -- A successful `t__setindex` on a valid table adds one item if the key is missing, and none if it is
  -- there.
  pub length-setindex :
      (t : Table) (key value : Value) {t' : Table} {log : List Effect}
      → IsValid w t
      → setindex w realloc t key value ≡ (ok t', log)
      → ((i : ℕ) × (find w t.items key (v2hash w key) ≡ hit i) × (length t'.items ≡ length t.items))
        ⊎ ((p : ℕ) × (find w t.items key (v2hash w key) ≡ miss p)
            × (length t'.items ≡ length t.items + 1))
  unfolding replace_value
  length-setindex t key value v e = elim (setindex_cases w realloc t key value e) [
    | inl (i, f, r) ↦ inl (
      i,
      f,
      ground (
        arith,
        length-set t.items i (record (get_or t.items i blank) { value = (v_copy value).0 }),
      ),
    )
    | inr (p, f, r) ↦
        let parts = find-Parts w t.items key (v2hash w key) v.sorted p f in
        let (items, room, log) =
          add_item_lem w realloc t p key value (v2hash w key) parts.inside r in
        inr (p, f, rw items (length-insert_at t.items p _))
  ]

  -- A successful `t_insert` on a valid table leaves a valid table.
  pub insert-IsValid :
      (t : Table) (key value : Value) {t' : Table} {log : List Effect}
      → IsValid w t
      → insert w realloc t key value ≡ (ok t', log)
      → IsValid w t'
  unfolding insert
  insert-IsValid t key value {log = log} v e =
      elim (Found-cases (find w t.items key (v2hash w key))) [
        | inl (i, f) ↦ absurd (ground arith)
        | inr (p, f) ↦
            add_item-IsValid w realloc t p key value {log = log} v
              (find-Parts w t.items key (v2hash w key) v.sorted p f) (ground arith)
      ]

  -- What `t_delete` did when it deleted one item, if memory can be given back.
  pub delete_cases :
      (t : Table) (key : Value) {t' : Table} {log : List Effect}
      → IsValid w t
      → ((k : ℕ) → realloc k ≡ true)
      → delete w realloc t (some key) none ≡ (ok t', log)
      → (i : ℕ) × (find w t.items key (v2hash w key) ≡ hit i)
        × (t'.items ≡ remove_at t.items i)
        × (length t.items - 1 ≤ t'.asize)
        × (log ≡ (let ti = get_or t.items i blank in v_disown ti.key ++ v_disown ti.value))
  unfolding delete
  delete_cases t key v good e = elim (Found-cases (find w t.items key (v2hash w key))) [
    | inr (p, f) ↦ absurd (ground arith)
    | inl (i, f) ↦ elim (Option-cases (setsize realloc t (length t.items - 1))) [
      | inl failed ↦ absurd (setsize_total realloc t (length t.items - 1) good failed)
      | inr (n, done) ↦
          let here = find-hit w t.items key (v2hash w key) v.sorted f in
          (
            i,
            f,
            ground (arith, delete_at_lem w realloc t i here.0 done),
            ground (
              arith,
              delete_at_lem w realloc t i here.0 done,
              setsize_covers realloc t (length t.items - 1) done,
            ),
            ground arith,
          )
    ]
  ]

  -- Where memory can always be given back, a successful `t_delete` of a key from a valid table leaves
  -- a valid table with one item less.
  pub delete-IsValid :
      (t : Table) (key : Value) {t' : Table} {log : List Effect}
      → IsValid w t
      → ((k : ℕ) → realloc k ≡ true)
      → delete w realloc t (some key) none ≡ (ok t', log)
      → IsValid w t' × (length t'.items + 1 ≡ length t.items)
  delete-IsValid t key {t'} v good e =
      let (i, f, items, room, log) = delete_cases t key v good e in
      let (lt, fits) = find-hit w t.items key (v2hash w key) v.sorted f in
      (
        record {
          sorted = rw items (remove_at-IsSorted t.items i lt v.sorted);
          room = rw items (omega (arith, length-remove_at t.items i lt));
          stamped = rw items (λ j q. ground (
            arith,
            length-remove_at t.items i lt,
            get_or-remove_at t.items i j blank,
            v.stamped j,
            v.stamped (suc j),
          ));
        },
        rw items (length-remove_at t.items i lt),
      )

  -- Inserting the items of another table, as `t_add` and `t_ipadd` do, leaves a valid table valid, also
  -- where it stops at an exception.
  pub insert_items-IsValid :
      (t : Table) (src : List Item) → IsValid w t → IsValid w (insert_items w realloc t src).1
  unfolding insert_items
  insert_items-IsValid t [] v = v
  insert_items-IsValid t (ti ∷ rest) v =
      elim (outcome_cases (setindex w realloc t ti.key ti.value)) [
        | inl (t', log, e) ↦
            rw (e, insert_items)
              (insert_items-IsValid t' rest (setindex-IsValid w realloc t ti.key ti.value v e))
        | inr (x, log, e) ↦ rw (e, insert_items) v
      ]

  construct_pairs-IsValid :
      (t : Table) (initv : List Value) {t' : Table}
      → IsValid w t
      → (construct_pairs w realloc t initv).0 ≡ ok t'
      → IsValid w t'
  unfolding construct_pairs
  construct_pairs-IsValid t [] v e = let same : t ≡ _ = ground arith in rw same at v
  construct_pairs-IsValid t (odd ∷ []) v e = let same : t ≡ _ = ground arith in rw same at v
  construct_pairs-IsValid t (key ∷ (value ∷ rest)) v e =
      elim (outcome_cases (setindex w realloc t key value)) [
        | inl (t', log, d) ↦
            construct_pairs-IsValid t' rest (setindex-IsValid w realloc t key value v d)
              (ground arith)
        | inr (x, log, d) ↦ absurd (ground arith)
      ]

  -- A table that `t_construct` makes of keys and values in turn is valid.
  pub construct-IsValid :
      (alloc : Bool) (initv : List Value) {t : Table}
      → (construct w realloc alloc initv).0 ≡ ok t
      → IsValid w t
  unfolding construct
  construct-IsValid alloc initv e =
      construct_pairs-IsValid (record { items = []; asize = 0 }) initv (empty-IsValid w 0)
        (ground arith)
