-- ===== src/Table/Ops/Balance.antt =====
-- Ownership: what a table operation owns and disowns makes up for the change in what the items
-- refer to.
use eel.Prelude.{
  ℕ, zero, suc, ◌+◌, ◌<◌, ◌≡◌, inl, inr, Bool, true, none, some, List, [], ◌∷◌, ◌++◌, arith, length,
  get_or, set,
}
use eel.Exceptions.{ok}
use eel.Value.{Value, Effect, World, v_copy, v_disown, v2hash}
use eel.Value.Copy.{
  strong, owns, disowns, owns-append, disowns-append, v_copy_balance, v_disown_balance,
}
use eel.Shift.Laws.{insert_at, remove_at}
use eel.Table.{Item, Table, blank}
use eel.Table.Find.Locate.{find-hit, find-Parts}
use eel.Table.Ops.{replace_value, setindex, delete, disown_items}
use eel.Table.Ops.Sound.{new_item, add_item_lem}
use eel.Table.Ops.Keeps.{delete_cases}
use eel.Table.Ops.Order.{IsValid, setindex_cases}

module _ (o : ℕ) where
  abbrev pub item_refs : Item → ℕ
  item_refs ti = strong o ti.key + strong o ti.value

  -- How often the items refer to `o` strongly.
  abbrev pub refs : List Item → ℕ
  refs [] = 0
  refs (ti ∷ rest) = item_refs ti + refs rest

  refs-insert_at :
      (xs : List Item) (p : ℕ) (x : Item) → refs (insert_at xs p x) ≡ refs xs + item_refs x
  refs-insert_at xs zero x = omega arith
  refs-insert_at [] (suc p) x = omega arith
  refs-insert_at (y ∷ xs) (suc p) x = omega (arith, refs-insert_at xs p x)

  refs-remove_at :
      (xs : List Item) (i : ℕ)
      → i < length xs
      → refs (remove_at xs i) + item_refs (get_or xs i blank) ≡ refs xs
  refs-remove_at [] i h = absurd (omega arith)
  refs-remove_at (x ∷ xs) zero h = omega arith
  refs-remove_at (x ∷ xs) (suc i) h = omega (arith, refs-remove_at xs i (omega arith))

  refs-set :
      (xs : List Item) (i : ℕ) (x : Item)
      → i < length xs
      → refs (set xs i x) + item_refs (get_or xs i blank) ≡ refs xs + item_refs x
  refs-set [] i x h = absurd (omega arith)
  refs-set (y ∷ xs) zero x h = omega arith
  refs-set (y ∷ xs) (suc i) x h = omega (arith, refs-set xs i x (omega arith))

  -- Disowning all items gives up every reference that they hold.
  pub disown_items_balance :
      (xs : List Item) → (disowns o (disown_items xs) ≡ refs xs) × (owns o (disown_items xs) ≡ 0)
  unfolding disown_items
  disown_items_balance [] = omega arith
  disown_items_balance (ti ∷ rest) = omega (
    arith,
    disown_items_balance rest,
    owns-append o (v_disown ti.key) (v_disown ti.value ++ disown_items rest),
    owns-append o (v_disown ti.value) (disown_items rest),
    disowns-append o (v_disown ti.key) (v_disown ti.value ++ disown_items rest),
    disowns-append o (v_disown ti.value) (disown_items rest),
    v_disown_balance o ti.key,
    v_disown_balance o ti.value,
  )

  module _ (w : World) (realloc : ℕ → Bool) where
    -- For each object, in a successful `t__setindex` on a valid table: the strong references that the
    -- items held before and those taken are as many as those held after and those given up.
    pub setindex_balance :
        (t : Table) (key value : Value) {t' : Table} {log : List Effect}
        → IsValid w t
        → setindex w realloc t key value ≡ (ok t', log)
        → refs t.items + owns o log ≡ refs t'.items + disowns o log
    unfolding replace_value
    setindex_balance t key value {t'} {log} v e = elim (setindex_cases w realloc t key value e) [
      | inl (i, f, r) ↦
          let ti = get_or t.items i blank in
          let x : Item = record ti { value = (v_copy value).0 } in
          let here = find-hit w t.items key (v2hash w key) v.sorted f in
          let items : t'.items ≡ set t.items i x = ground arith in
          let trace : log ≡ v_disown ti.value ++ (v_copy value).1 = ground arith in
          rw (items, trace)
            (omega (
              arith,
              refs-set t.items i x here.0,
              owns-append o (v_disown ti.value) (v_copy value).1,
              disowns-append o (v_disown ti.value) (v_copy value).1,
              v_disown_balance o ti.value,
              v_copy_balance o value,
            ))
      | inr (p, f, r) ↦
          let parts = find-Parts w t.items key (v2hash w key) v.sorted p f in
          let (items, room, trace) =
            add_item_lem w realloc t p key value (v2hash w key) parts.inside r in
          rw (items, trace)
            (omega (
              arith,
              refs-insert_at t.items p (new_item key value (v2hash w key)),
              owns-append o (v_copy key).1 (v_copy value).1,
              disowns-append o (v_copy key).1 (v_copy value).1,
              v_copy_balance o key,
              v_copy_balance o value,
            ))
    ]

    -- The same count for a successful `t_delete` of a key, where memory can always be given back.
    pub delete_balance :
        (t : Table) (key : Value) {t' : Table} {log : List Effect}
        → IsValid w t
        → ((k : ℕ) → realloc k ≡ true)
        → delete w realloc t (some key) none ≡ (ok t', log)
        → refs t.items + owns o log ≡ refs t'.items + disowns o log
    delete_balance t key v good e =
        let (i, f, items, room, trace) = delete_cases w realloc t key v good e in
        let here = find-hit w t.items key (v2hash w key) v.sorted f in
        let ti = get_or t.items i blank in
        rw (items, trace)
          (omega (
            arith,
            refs-remove_at t.items i here.0,
            owns-append o (v_disown ti.key) (v_disown ti.value),
            disowns-append o (v_disown ti.key) (v_disown ti.value),
            v_disown_balance o ti.key,
            v_disown_balance o ti.value,
          ))
