-- ===== src/Table/Ops/Lookup.antt =====
-- What a table holds under a key, before and after an operation.
use eel.Prelude.{
  ℕ, zero, suc, ◌+◌, ◌≤◌, ◌<◌, ◌≡◌, inl, inr, refl, Bool, true, false, Option, none, some, List, [],
  ◌∷◌, arith, length, get_or, set, Bool-cases, if◌then◌else◌,
}
use eel.Exceptions.{Result, ok, exception, xwrongindex}
use eel.Value.{Value, Effect, World, v_copy, v2hash}
use eel.Shift.Laws.{insert_at, remove_at}
use eel.Table.{Item, Table, blank}
use eel.Table.Find.{hash_of, key_match, find}
use eel.Table.Find.Locate.{is_for, first_match, find-first_match, Found-cases, find-hit, find-Parts}
use eel.Table.Ops.{replace_value, setindex, getindex, delete}
use eel.Table.Ops.Sound.{new_item, add_item_lem}
use eel.Table.Ops.Keeps.{delete_cases}
use eel.Table.Ops.Order.{IsValid, setindex_cases}

-- The value of the first item for a key, by a walk over all items.
pub lookup : World → Value → List Item → Option Value
lookup w key [] = none
lookup w key (ti ∷ rest) =
    let next = lookup w key rest in if is_for w key (v2hash w key) ti then some ti.value else next

-- No item is for both keys.
abbrev pub Apart : World → Value → Value → Type 0
Apart w key other =
    (ti : Item) → is_for w key (v2hash w key) ti ≡ true → is_for w other (v2hash w other) ti ≡ false

-- A stored copy of the key matches the key. It fails for a real that is not equal to itself.
abbrev pub FindsItself : World → Value → Type 0
FindsItself w key = key_match w (v_copy key).0 key ≡ true

abbrev value_at : List Item → ℕ → Value
value_at xs k = let ti = get_or xs k blank in ti.value

abbrev set_value : List Item → ℕ → Value → List Item
set_value xs k v = set xs k (record (get_or xs k blank) { value = v })

module _ (w : World) (key : Value) where
  -- `lookup` reads the item that `first_match` finds, also after a new value is put there.
  lookup-first_match :
      (xs : List Item) (i m : ℕ)
      → first_match w key (v2hash w key) xs i ≡ some m
      → (k : ℕ) × (m ≡ i + k)
        × (lookup w key xs ≡ some (value_at xs k))
        × ((v : Value) → lookup w key (set_value xs k v) ≡ some v)
  unfolding lookup first_match
  lookup-first_match [] i m e = cc
  lookup-first_match (x ∷ xs) i m e = elim (Bool-cases (is_for w key (v2hash w key) x)) [
    | inl here ↦ (0, ground arith, ground arith, λ v. ground arith)
    | inr there ↦
        let (k, at, old, new) = lookup-first_match xs (i + 1) m (ground arith) in
        (suc k, omega arith, ground arith, λ v. ground (arith, new v))
  ]

  lookup-none :
      (xs : List Item) (i : ℕ)
      → first_match w key (v2hash w key) xs i ≡ none
      → lookup w key xs ≡ none
  unfolding lookup first_match
  lookup-none [] i e = refl
  lookup-none (x ∷ xs) i e = ground (arith, lookup-none xs (i + 1))

  lookup-set_value :
      (xs : List Item) (k : ℕ) (v : Value)
      → is_for w key (v2hash w key) (get_or xs k blank) ≡ false
      → lookup w key (set_value xs k v) ≡ lookup w key xs
  unfolding lookup
  lookup-set_value [] k v e = refl
  lookup-set_value (x ∷ xs) zero v e = ground arith
  lookup-set_value (x ∷ xs) (suc k) v e = ground (arith, lookup-set_value xs k v)

  lookup-insert_at_ne :
      (xs : List Item) (p : ℕ) (x : Item)
      → is_for w key (v2hash w key) x ≡ false
      → lookup w key (insert_at xs p x) ≡ lookup w key xs
  unfolding lookup
  lookup-insert_at_ne xs zero x e = ground arith
  lookup-insert_at_ne [] (suc p) x e = ground arith
  lookup-insert_at_ne (y ∷ xs) (suc p) x e = ground (arith, lookup-insert_at_ne xs p x)

  lookup-insert_at_self :
      (xs : List Item) (p : ℕ) (x : Item)
      → p ≤ length xs
      → ((j : ℕ) → j < p → hash_of xs j < v2hash w key)
      → is_for w key (v2hash w key) x ≡ true
      → lookup w key (insert_at xs p x) ≡ some x.value
  unfolding lookup
  lookup-insert_at_self xs zero x h below e = ground arith
  lookup-insert_at_self [] (suc p) x h below e = absurd (omega arith)
  lookup-insert_at_self (y ∷ xs) (suc p) x h below e = ground (
    arith,
    below 0 (omega arith),
    lookup-insert_at_self xs p x (omega arith) (λ j q. below (suc j) (omega arith)) e,
  )

  lookup-remove_at :
      (xs : List Item) (k : ℕ)
      → is_for w key (v2hash w key) (get_or xs k blank) ≡ false
      → lookup w key (remove_at xs k) ≡ lookup w key xs
  unfolding lookup
  lookup-remove_at [] k e = refl
  lookup-remove_at (x ∷ xs) zero e = ground arith
  lookup-remove_at (x ∷ xs) (suc k) e = ground (arith, lookup-remove_at xs k)

-- What `t_getindex` returns for what is found.
abbrev pub read : Option Value → Result Value
read none = exception xwrongindex
read (some v) = ok (v_copy v).0

module _ (w : World) (realloc : ℕ → Bool) where
  -- On a valid table `t_getindex` returns a copy of the value that a walk over all items finds
  -- first, and the exception for a wrong index if there is none.
  pub getindex-lookup :
      (t : Table) (key : Value)
      → IsValid w t
      → (getindex w realloc t key).0 ≡ read (lookup w key t.items)
  unfolding getindex
  getindex-lookup t key v = elim (Found-cases (find w t.items key (v2hash w key))) [
    | inl (i, f) ↦
        let found : first_match w key (v2hash w key) t.items 0 ≡ some i =
          ground (arith, find-first_match w t.items key (v2hash w key) v.sorted) in
        let (k, at, old, new) = lookup-first_match w key t.items 0 i found in
        let same : i ≡ k = omega arith in ground (arith, f, old, same)
    | inr (p, f) ↦
        let missing : first_match w key (v2hash w key) t.items 0 ≡ none =
          ground (arith, find-first_match w t.items key (v2hash w key) v.sorted) in
        ground (arith, f, lookup-none w key t.items 0 missing)
  ]

  -- Both effects of `t__setindex` on a lookup.
  lookup-setindex :
      (t : Table) (key value : Value) {t' : Table} {log : List Effect}
      → IsValid w t
      → FindsItself w key
      → setindex w realloc t key value ≡ (ok t', log)
      → (lookup w key t'.items ≡ some (v_copy value).0)
        × ((other : Value) → Apart w key other → lookup w other t'.items ≡ lookup w other t.items)
  unfolding replace_value
  lookup-setindex t key value {t'} v self e = elim (setindex_cases w realloc t key value e) [
    | inl (i, f, r) ↦
        let items : t'.items ≡ set_value t.items i (v_copy value).0 = ground arith in
        let here = find-hit w t.items key (v2hash w key) v.sorted f in
        let found : first_match w key (v2hash w key) t.items 0 ≡ some i =
          ground (arith, find-first_match w t.items key (v2hash w key) v.sorted) in
        let (k, at, old, new) = lookup-first_match w key t.items 0 i found in
        let same : i ≡ k = omega arith in
        (
          rw (items, same) (new (v_copy value).0),
          λ other apart. rw items (
              lookup-set_value w other t.items i (v_copy value).0
                (apart (get_or t.items i blank) here.1)),
        )
    | inr (p, f, r) ↦
        let parts = find-Parts w t.items key (v2hash w key) v.sorted p f in
        let x = new_item key value (v2hash w key) in
        let (items, room, log) =
          add_item_lem w realloc t p key value (v2hash w key) parts.inside r in
        (
          rw items
              (lookup-insert_at_self w key t.items p x parts.inside parts.below (ground arith)),
          λ other apart.
              rw items (lookup-insert_at_ne w other t.items p x (apart x (ground arith))),
        )
  ]

  -- After a successful `t__setindex` on a valid table, of a key that finds itself, a lookup of the
  -- key gives the copy of the value.
  pub lookup-setindex_self :
      (t : Table) (key value : Value) {t' : Table} {log : List Effect}
      → IsValid w t
      → FindsItself w key
      → setindex w realloc t key value ≡ (ok t', log)
      → lookup w key t'.items ≡ some (v_copy value).0
  lookup-setindex_self t key value v self e = (lookup-setindex t key value v self e).0

  -- After a successful `t__setindex` on a valid table, of a key that finds itself, a lookup of any
  -- other key, apart from it, gives what it gave before.
  pub lookup-setindex_other :
      (t : Table) (key value other : Value) {t' : Table} {log : List Effect}
      → IsValid w t
      → FindsItself w key
      → Apart w key other
      → setindex w realloc t key value ≡ (ok t', log)
      → lookup w other t'.items ≡ lookup w other t.items
  lookup-setindex_other t key value other v self apart e =
      (lookup-setindex t key value v self e).1 other apart

  -- Where memory can always be given back, a successful `t_delete` of a key from a valid table leaves
  -- a lookup of any other key, apart from it, as it was.
  pub lookup-delete :
      (t : Table) (key other : Value) {t' : Table} {log : List Effect}
      → IsValid w t
      → ((k : ℕ) → realloc k ≡ true)
      → Apart w key other
      → delete w realloc t (some key) none ≡ (ok t', log)
      → lookup w other t'.items ≡ lookup w other t.items
  lookup-delete t key other v good apart e =
      let (i, f, items, room, log) = delete_cases w realloc t key v good e in
      let here = find-hit w t.items key (v2hash w key) v.sorted f in
      rw items (lookup-remove_at w other t.items i (apart (get_or t.items i blank) here.1))
