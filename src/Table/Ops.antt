-- ===== src/Table/Ops.antt =====
-- The operations on tables: the metamethods, the constructor and the copying of src/core/e_table.c.
-- An operation is given `w`, what it asks of the objects, and `realloc` and `malloc`, for which
-- sizes the host's memory manager succeeds. `insert_items` reads the items of its source before it
-- writes, so it does not cover a table that is added to itself.
pub mod Sound
pub mod Order
pub mod Keeps
pub mod Lookup
pub mod Balance
pub mod Clone
pub mod Failure
pub mod Total
mod Examples
use eel.Prelude.{
  ℕ, ◌-◌, ◌%◌, Bool, ◌&&◌, Option, none, some, List, [], ◌∷◌, ◌++◌, ◌==◌, if◌then◌else◌, length,
  get_elem?, get_or, set, take,
}
use eel.Prelude.Int.{pos}
use eel.Exceptions.{Xno, Result, ok, exception, xmemory, xwrongindex, xwrongtype, xneedeven}
use eel.Value.{Value, boolean, integer, Effect, v_copy, v_clone, v_qcopy, v_disown, World, v2hash}
use eel.Shift.{shift_down}
use eel.Table.{Item, Table, blank, setsize, insert_item}
use eel.Table.Find.{hit, miss, find}

-- Disowning the keys and values of all items, as `t_destruct` and `t_delete` do.
pub disown_items : List Item → List Effect
disown_items [] = []
disown_items (ti ∷ rest) = v_disown ti.key ++ (v_disown ti.value ++ disown_items rest)

clone_items : List Item → List Item × List Effect
clone_items [] = ([], [])
clone_items (ti ∷ rest) =
    let (k, log) = v_clone ti.key in
    let (v, log') = v_clone ti.value in
    let (items, log'') = clone_items rest in
    (record { hash = ti.hash; key = k; value = v } ∷ items, log ++ (log' ++ log''))

-- `t__clone`, where `malloc` says whether there is memory for so many items.
pub clone : Bool → (ℕ → Bool) → Table → Result Table × List Effect
clone alloc malloc t =
    if alloc && malloc (length t.items)
    then (let (items, log) = clone_items t.items in
        (ok (record { items = items; asize = length t.items }), log))
    else (exception xmemory, [])

module _ (w : World) (realloc : ℕ → Bool) where
  -- `insert_item` as its callers read it.
  pub add_item : Table → ℕ → Value → Value → ℕ → Result Table × List Effect
  add_item t at key value h = elim (insert_item realloc t at key value h) [
    | none ↦ (exception xmemory, [])
    | some (t', log) ↦ (ok t', log)
  ]

  -- The value of an item is disowned before the new one is copied over it.
  pub replace_value : Table → ℕ → Value → Table × List Effect
  replace_value t at value =
      let ti = get_or t.items at blank in
      let (v, log) = v_copy value in
      (record t { items = set t.items at (record ti { value = v }) }, v_disown ti.value ++ log)

  -- `t__setindex`
  pub setindex : Table → Value → Value → Result Table × List Effect
  unfolding add_item replace_value
  setindex t key value = elim (find w t.items key (v2hash w key)) [
    | hit at ↦ let (t', log) = replace_value t at value in (ok t', log)
    | miss at ↦ add_item t at key value (v2hash w key)
  ]

  -- `t_getindex`
  pub getindex : Table → Value → Result Value × List Effect
  getindex t key = elim (find w t.items key (v2hash w key)) [
    | hit at ↦ let ti = get_or t.items at blank in let (v, log) = v_copy ti.value in (ok v, log)
    | miss at ↦ (exception xwrongindex, [])
  ]

  -- `eel_table_get`, which gives no ownership.
  pub table_get : Table → Value → Result Value
  table_get t key = elim (find w t.items key (v2hash w key)) [
    | hit at ↦ let ti = get_or t.items at blank in ok (v_qcopy ti.value)
    | miss at ↦ exception xwrongindex
  ]

  -- `t_in`
  pub is_in : Table → Value → Value
  is_in t key = elim (find w t.items key (v2hash w key)) [
    | hit at ↦ integer (pos at)
    | miss at ↦ boolean (pos 0)
  ]

  -- `t_insert`
  pub insert : Table → Value → Value → Result Table × List Effect
  unfolding add_item
  insert t key value = elim (find w t.items key (v2hash w key)) [
    | hit at ↦ (exception xwrongindex, [])
    | miss at ↦ add_item t at key value (v2hash w key)
  ]

  -- What `t_delete` does to the array once the item is found. Where the memory manager refuses to
  -- shrink the block, the length stays, and the last item is there twice.
  pub delete_at : Table → ℕ → Table
  delete_at t at =
      let moved = shift_down blank t.items at (length t.items - 1 - at) in
      elim (setsize realloc t (length t.items - 1)) [
        | none ↦ record t { items = moved }
        | some n ↦ record { items = take (length t.items - 1) moved; asize = n }
      ]

  -- `t_delete`: a key to delete one item, or none for all; a count is refused.
  pub delete : Table → Option Value → Option Value → Result Table × List Effect
  unfolding disown_items delete_at
  delete t key (some count) = (exception xwrongindex, [])
  delete t none none = (
    elim (setsize realloc t 0) [ none ↦ ok t | some n ↦ ok (record { items = []; asize = n }) ],
    disown_items t.items,
  )
  delete t (some key) none = elim (find w t.items key (v2hash w key)) [
    | miss at ↦ (exception xwrongindex, [])
    | hit at ↦
        let ti = get_or t.items at blank in
        (ok (delete_at t at), v_disown ti.key ++ v_disown ti.value)
  ]

  -- `insert_items`, from the items that are left. It stops at the first exception, with the table as
  -- it is then.
  pub insert_items : Table → List Item → Option Xno × Table × List Effect
  insert_items t [] = (none, t, [])
  insert_items t (ti ∷ rest) =
      let (r, log) = setindex t ti.key ti.value in
      elim r [
        | exception x ↦ (some x, t, log)
        | ok t' ↦ let (x, t'', log') = insert_items t' rest in (x, t'', log ++ log')
      ]

  -- The loop of `t_construct` over the initializers, with its way out on an exception, `t_destruct`.
  pub construct_pairs : Table → List Value → Result Table × List Effect
  construct_pairs t [] = (ok t, [])
  construct_pairs t (odd ∷ []) = (ok t, [])
  construct_pairs t (key ∷ (value ∷ rest)) =
      let (r, log) = setindex t key value in
      elim r [
        | exception x ↦ (exception x, log ++ disown_items t.items)
        | ok t' ↦ let (r', log') = construct_pairs t' rest in (r', log ++ log')
      ]

  -- `t_construct`, where `alloc` says whether the object itself is allocated.
  pub construct : Bool → List Value → Result Table × List Effect
  construct alloc initv =
      if alloc
      then (if length initv % 2 == 0
          then construct_pairs (record { items = []; asize = 0 }) initv
          else (exception xneedeven, []))
      else (exception xmemory, [])

  -- `t_add`: a copy of the table with the items of the operand, `none` where that is no table. On an
  -- exception the copy is freed, and its items are not disowned.
  pub add : Bool → (ℕ → Bool) → Table → Option Table → Result Table × List Effect
  add alloc malloc t none = (exception xwrongtype, [])
  add alloc malloc t (some src) =
      let (r, log) = clone alloc malloc t in
      elim r [
        | exception x ↦ (exception xmemory, log)
        | ok copy ↦
            let (x, t', log') = insert_items copy src.items in
            (elim x [ none ↦ ok t' | some e ↦ exception e ], log ++ log')
      ]

  -- `t_ipadd`: the same in place. The table keeps what was inserted before an exception.
  pub ipadd : Table → Option Table → Option Xno × Table × List Effect
  ipadd t none = (some xwrongtype, t, [])
  ipadd t (some src) = insert_items t src.items

-- `eel_table_get_item`, at an index that is not negative.
pub get_item : Table → ℕ → Option Item
get_item t i = get_elem? t.items i
