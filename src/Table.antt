-- ===== src/Table.antt =====
-- The table class, src/core/e_table.c: an array of items in the order of their hash codes, with the
-- lookup, the metamethods and the constructor over it. An operation returns its result, an
-- exception included, and the log of the calls on the object layer that it made.
-- `t->items[0 .. t->length)` is the list `items`; `realloc` says for which sizes the host's memory
-- manager succeeds. The back pointers that `eel_weakref_relocate` keeps up to date are not modelled.
pub mod Find
pub mod Ops
use eel.Prelude.{
  ℕ, zero, suc, ◌+◌, ◌-◌, Bool, Option, none, some, List, [], ◌∷◌, ◌++◌, ◌==◌, if◌then◌else◌,
  length, get_or, set, take,
}
use eel.Resize.{calcresize}
use eel.Value.{Value, Value.nil, Effect, v_copy}
use eel.Shift.{shift_up, shift_down}

pub record Item : Type 0 where
  pub hash : ℕ
  pub key : Value
  pub value : Value

pub record Table : Type 0 where
  pub items : List Item
  pub asize : ℕ

-- What an array slot holds before it is written.
abbrev pub blank : Item
blank = record { hash = 0; key = nil; value = nil }

abbrev pub size_base : ℕ
size_base = 4

-- `t_setsize`: the new allocation, or `none` for the -1 of a failed reallocation.
unfoldable pub setsize : (ℕ → Bool) → Table → ℕ → Option ℕ
setsize realloc t newlength =
    let n = calcresize size_base t.asize newlength in
    if n == t.asize
    then some n
    else (if realloc n then some n else (if newlength == 0 then some 0 else none))

-- `insert_item`, with the length after the call.
unfoldable pub insert_item :
    (ℕ → Bool) → Table → ℕ → Value → Value → ℕ → Option (Table × List Effect)
insert_item realloc t at key value h = elim (setsize realloc t (length t.items + 1)) [
  | none ↦ none
  | some n ↦
      let (k, own_key) = v_copy key in
      let (v, own_value) = v_copy value in
      some (
        record {
          items =
              set (shift_up blank (t.items ++ blank ∷ []) at (length t.items)) at
                (record { hash = h; key = k; value = v });
          asize = n;
        },
        own_key ++ own_value,
      )
]
