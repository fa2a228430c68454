-- ===== src/Table/Ops/Failure.antt =====
-- The operations on tables that take many steps, adding a table and constructing one, and what
-- they leave behind when a step fails.
use eel.Prelude.{ℕ, ◌+◌, ◌≡◌, inl, inr, refl, Bool, none, some, List, [], ◌∷◌, ◌++◌, arith}
use eel.Exceptions.{Xno, Result, ok, exception}
use eel.Value.{Value, nil, Effect, World}
use eel.Value.Copy.{owns, disowns, owns-append, disowns-append}
use eel.Table.{Item, Table}
use eel.Table.Ops.{
  add_item, setindex, insert_items, construct_pairs, construct, disown_items, clone, add,
}
use eel.Table.Ops.Sound.{outcome_cases}
use eel.Table.Ops.Order.{IsValid, empty-IsValid, setindex-IsValid}
use eel.Table.Ops.Clone.{clone_lem}
use eel.Table.Ops.Balance.{refs, disown_items_balance, setindex_balance}

module _ (w : World) (realloc : ℕ → Bool) where
  -- Where setting an index fails nothing was owned or disowned.
  pub setindex-exception :
      (t : Table) (key value : Value) {x : Xno} {log : List Effect}
      → setindex w realloc t key value ≡ (exception x, log)
      → log ≡ []
  unfolding setindex add_item
  setindex-exception t key value e = ground arith

  insert_items-ok :
      (t : Table) (ti : Item) (rest : List Item) (t' : Table) (log : List Effect)
      → setindex w realloc t ti.key ti.value ≡ (ok t', log)
      → insert_items w realloc t (ti ∷ rest)
        ≡ (let (x, t'', log') = insert_items w realloc t' rest in (x, t'', log ++ log'))
  unfolding insert_items
  insert_items-ok t ti rest t' log e = ground arith

  insert_items-exception :
      (t : Table) (ti : Item) (rest : List Item) (x : Xno) (log : List Effect)
      → setindex w realloc t ti.key ti.value ≡ (exception x, log)
      → insert_items w realloc t (ti ∷ rest) ≡ (some x, t, log)
  unfolding insert_items
  insert_items-exception t ti rest x log e = ground arith

  insert_items-nil : (t : Table) → insert_items w realloc t [] ≡ (none, t, [])
  unfolding insert_items
  insert_items-nil t = refl

  -- For each object, inserting items into a valid table one by one, to the end or to an exception: the
  -- strong references held before and those taken are as many as those held after and those given up.
  pub insert_items_balance :
      (o : ℕ) (t : Table) (src : List Item)
      → IsValid w t
      → refs o t.items + owns o (insert_items w realloc t src).2
        ≡ refs o (insert_items w realloc t src).1.items + disowns o (insert_items w realloc t src).2
  insert_items_balance o t [] v = rw insert_items-nil
  insert_items_balance o t (ti ∷ rest) v =
      elim (outcome_cases (setindex w realloc t ti.key ti.value)) [
        | inl (t', log, e) ↦ rw (insert_items-ok t ti rest t' log e) (
            omega (
              arith,
              insert_items_balance o t' rest (setindex-IsValid w realloc t ti.key ti.value v e),
              setindex_balance o w realloc t ti.key ti.value v e,
              owns-append o log (insert_items w realloc t' rest).2,
              disowns-append o log (insert_items w realloc t' rest).2,
            ))
        | inr (x, log, e) ↦
            rw (insert_items-exception t ti rest x log e, setindex-exception t ti.key ti.value e)
      ]

  -- What a table operation that returns a table, or an exception and no table, has left to refer.
  abbrev pub kept : ℕ → Result Table → ℕ
  kept o (ok t) = refs o t.items
  kept o (exception x) = 0

  construct_pairs-ok :
      (t : Table) (key value : Value) (rest : List Value) (t' : Table) (log : List Effect)
      → setindex w realloc t key value ≡ (ok t', log)
      → construct_pairs w realloc t (key ∷ (value ∷ rest))
        ≡ (let (r, log') = construct_pairs w realloc t' rest in (r, log ++ log'))
  unfolding construct_pairs
  construct_pairs-ok t key value rest t' log e = ground arith

  construct_pairs-exception :
      (t : Table) (key value : Value) (rest : List Value) (x : Xno) (log : List Effect)
      → setindex w realloc t key value ≡ (exception x, log)
      → construct_pairs w realloc t (key ∷ (value ∷ rest))
        ≡ (exception x, log ++ disown_items t.items)
  unfolding construct_pairs
  construct_pairs-exception t key value rest x log e = ground arith

  construct_pairs-short :
      (t : Table) (v : Value)
      → (construct_pairs w realloc t [] ≡ (ok t, []))
        × (construct_pairs w realloc t (v ∷ []) ≡ (ok t, []))
  unfolding construct_pairs
  construct_pairs-short t v = (refl, refl)

  construct_pairs_balance :
      (o : ℕ) (t : Table) (initv : List Value)
      → IsValid w t
      → refs o t.items + owns o (construct_pairs w realloc t initv).1
        ≡ kept o (construct_pairs w realloc t initv).0
          + disowns o (construct_pairs w realloc t initv).1
  construct_pairs_balance o t [] v = rw ((construct_pairs-short t nil).0)
  construct_pairs_balance o t (odd ∷ []) v = rw ((construct_pairs-short t odd).1)
  construct_pairs_balance o t (key ∷ (value ∷ rest)) v =
      elim (outcome_cases (setindex w realloc t key value)) [
        | inl (t', log, e) ↦ rw (construct_pairs-ok t key value rest t' log e) (
            omega (
              arith,
              construct_pairs_balance o t' rest (setindex-IsValid w realloc t key value v e),
              setindex_balance o w realloc t key value v e,
              owns-append o log (construct_pairs w realloc t' rest).1,
              disowns-append o log (construct_pairs w realloc t' rest).1,
            ))
        | inr (x, log, e) ↦
            rw
              (construct_pairs-exception t key value rest x log e, setindex-exception t key value e)
              (omega (arith, disown_items_balance o t.items))
      ]

  -- For each object, `t_construct` has taken as many references as the new table holds and as it gave
  -- up; where it fails it has given up all that it took.
  pub construct_balance :
      (o : ℕ) (alloc : Bool) (initv : List Value)
      → owns o (construct w realloc alloc initv).1
        ≡ kept o (construct w realloc alloc initv).0 + disowns o (construct w realloc alloc initv).1
  unfolding construct
  construct_balance o alloc initv = ground (
    arith,
    construct_pairs_balance o (record { items = []; asize = 0 }) initv (empty-IsValid w 0),
  )

  -- Where `t_add` on a valid table fails after its copy was made, it has taken more references than it
  -- gave up, by those that the items of the copy hold, although it returns no table.
  pub add_leak :
      (o : ℕ) (alloc : Bool) (malloc : ℕ → Bool) (t src copy : Table) {x : Xno}
      → IsValid w t
      → (clone alloc malloc t).0 ≡ ok copy
      → (insert_items w realloc copy src.items).0 ≡ some x
      → ((add w realloc alloc malloc t (some src)).0 ≡ exception x)
        × (owns o (add w realloc alloc malloc t (some src)).1
            ≡ refs o (insert_items w realloc copy src.items).1.items
              + disowns o (add w realloc alloc malloc t (some src)).1)
  unfolding add
  add_leak o alloc malloc t src copy v made failed =
      let log = (clone alloc malloc t).1 in
      let (valid, size, balance) =
        clone_lem w alloc malloc t {t' = copy} {log = log} v (ground arith) in
      ground (
        arith,
        balance o,
        insert_items_balance o copy src.items valid,
        owns-append o log (insert_items w realloc copy src.items).2,
        disowns-append o log (insert_items w realloc copy src.items).2,
      )
