-- ===== src/Table/Ops/Order.antt =====
-- The invariant of tables: the items in the order of their hash codes, each with the code of its
-- key, in a block that holds them. The operations keep it.
use eel.Prelude.{
  ℕ, suc, ◌-◌, ◌≤◌, ◌<◌, ◌≡◌, ◌⊎◌, inl, inr, refl, ap, Bool, List, [], arith, length, get_or, set,
  length-set,
}
use eel.Exceptions.{ok}
use eel.Value.{Value, Effect, World, v_copy, v2hash}
use eel.Value.Copy.{v2hash-v_copy}
use eel.Shift.Laws.{insert_at, remove_at}
use eel.Shift.Gap.{
  length-insert_at, length-remove_at, get_or-insert_at, get_or-remove_at, get_or-set,
}
use eel.Table.{Item, Table, blank}
use eel.Table.Find.{hit, miss, hash_of, key_of, find}
use eel.Table.Find.Sorted.{IsSorted, Parts}
use eel.Table.Find.Locate.{Found-cases, find-hit, find-Parts}
use eel.Table.Ops.{add_item, replace_value, setindex}
use eel.Table.Ops.Sound.{new_item, add_item_lem}

pub insert_at-IsSorted :
    (xs : List Item) (p : ℕ) (x : Item)
    → IsSorted xs
    → Parts xs x.hash p
    → IsSorted (insert_at xs p x)
insert_at-IsSorted xs p x s parts i j le lt = ground (
  arith,
  length-insert_at xs p x,
  get_or-insert_at xs p x i blank parts.inside,
  get_or-insert_at xs p x j blank parts.inside,
  parts.below i,
  parts.above (j - 1),
  s i j,
  s i (j - 1),
  s (i - 1) (j - 1),
)

pub remove_at-IsSorted :
    (xs : List Item) (p : ℕ) → p < length xs → IsSorted xs → IsSorted (remove_at xs p)
remove_at-IsSorted xs p h s i j le lt = ground (
  arith,
  length-remove_at xs p h,
  get_or-remove_at xs p i blank,
  get_or-remove_at xs p j blank,
  s i j,
  s i (suc j),
  s (suc i) (suc j),
)

pub set-IsSorted :
    (xs : List Item) (p : ℕ) (x : Item)
    → p < length xs
    → x.hash ≡ hash_of xs p
    → IsSorted xs
    → IsSorted (set xs p x)
set-IsSorted xs p x h e s i j le lt =
    ground
      (arith, length-set xs p x, get_or-set xs p i x blank h, get_or-set xs p j x blank h, s i j)

-- The state of a table between two operations.
pub record IsValid (w : World) (t : Table) : Type 0 where
  pub sorted : IsSorted t.items
  pub room : length t.items ≤ t.asize
  pub stamped : (j : ℕ) → j < length t.items → hash_of t.items j ≡ v2hash w (key_of t.items j)

pub empty-IsValid : (w : World) (n : ℕ) → IsValid w (record { items = []; asize = n })
empty-IsValid w n = record {
  sorted = λ i j p q. absurd (omega arith);
  room = omega arith;
  stamped = λ j p. absurd (omega arith);
}

module _ (w : World) (realloc : ℕ → Bool) where
  -- The two ways through `t__setindex` when it succeeds.
  pub setindex_cases :
      (t : Table) (key value : Value) {t' : Table} {log : List Effect}
      → setindex w realloc t key value ≡ (ok t', log)
      → ((i : ℕ) × (find w t.items key (v2hash w key) ≡ hit i)
          × (replace_value w realloc t i value ≡ (t', log)))
        ⊎ ((p : ℕ) × (find w t.items key (v2hash w key) ≡ miss p)
            × (add_item w realloc t p key value (v2hash w key) ≡ (ok t', log)))
  unfolding setindex
  setindex_cases t key value {t'} {log} e = elim (Found-cases (find w t.items key (v2hash w key))) [
    | inl (i, f) ↦ inl (i, f, ground arith)
    | inr (p, f) ↦ inr (p, f, ground arith)
  ]

  pub add_item-IsValid :
      (t : Table) (p : ℕ) (key value : Value) {t' : Table} {log : List Effect}
      → IsValid w t
      → Parts t.items (v2hash w key) p
      → add_item w realloc t p key value (v2hash w key) ≡ (ok t', log)
      → IsValid w t'
  add_item-IsValid t p key value {t'} v parts e =
      let x = new_item key value (v2hash w key) in
      let (items, room, log) = add_item_lem w realloc t p key value (v2hash w key) parts.inside e in
      record {
        sorted = rw items (insert_at-IsSorted t.items p x v.sorted parts);
        room = rw items (omega (arith, length-insert_at t.items p x));
        stamped = rw items (λ j lt. ground (
          arith,
          length-insert_at t.items p x,
          get_or-insert_at t.items p x j blank parts.inside,
          v.stamped j,
          v.stamped (j - 1),
          v2hash-v_copy w key,
        ));
      }

  replace_value-IsValid :
      (t : Table) (i : ℕ) (value : Value)
      → IsValid w t
      → i < length t.items
      → IsValid w (replace_value w realloc t i value).0
  unfolding replace_value
  replace_value-IsValid t i value v lt =
      let x : Item = record (get_or t.items i blank) { value = (v_copy value).0 } in
      record {
        sorted = set-IsSorted t.items i x lt refl v.sorted;
        room = omega (arith, length-set t.items i x, v.room);
        stamped = λ j q.
            ground (arith, length-set t.items i x, get_or-set t.items i j x blank lt, v.stamped j);
      }

  -- A successful `t__setindex` on a valid table leaves a valid table, whether the key was there or
  -- not.
  pub setindex-IsValid :
      (t : Table) (key value : Value) {t' : Table} {log : List Effect}
      → IsValid w t
      → setindex w realloc t key value ≡ (ok t', log)
      → IsValid w t'
  setindex-IsValid t key value {t'} v e = elim (setindex_cases t key value e) [
    | inl (i, f, r) ↦
        let here = find-hit w t.items key (v2hash w key) v.sorted f in
        let same : (replace_value w realloc t i value).0 ≡ t' = ap (λ p. p.0) r in
        rw same at (replace_value-IsValid t i value v here.0)
    | inr (p, f, r) ↦
        add_item-IsValid t p key value v (find-Parts w t.items key (v2hash w key) v.sorted p f) r
  ]
