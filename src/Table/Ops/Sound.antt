-- ===== src/Table/Ops/Sound.antt =====
-- The moving and resizing under the table operations, told by lists.
use eel.Prelude.{
  ℕ, ◌+◌, ◌-◌, ◌≤◌, ◌<◌, ◌≡◌, ◌≢◌, ◌⊎◌, refl, Bool, true, none, some, List, ◌++◌, arith, length,
  Option-cases, inl, inr,
}
use eel.Resize.{calcresize}
use eel.Resize.Bounds.{calcresize_covers}
use eel.Exceptions.{Xno, Result, ok, exception}
use eel.Value.{Value, Effect, World, v_copy}
use eel.Shift.Laws.{insert_at, remove_at, set-shift_up, remove-shift_down}
use eel.Table.{Item, Table, blank, size_base, setsize, insert_item}
use eel.Table.Ops.{add_item, delete_at}

-- To split on the outcome of an operation and keep the equation.
pub outcome_cases {ℓ} :
    {A : Type ℓ} (o : Result A × List Effect)
    → ((a : A) × (log : List Effect) × (o ≡ (ok a, log)))
      ⊎ ((x : Xno) × (log : List Effect) × (o ≡ (exception x, log)))
outcome_cases (ok a, log) = inl (a, log, refl)
outcome_cases (exception x, log) = inr (x, log, refl)

module _ (realloc : ℕ → Bool) where
  -- A resize that succeeds leaves room for the new length.
  pub setsize_covers : (t : Table) (n : ℕ) {m : ℕ} → setsize realloc t n ≡ some m → n ≤ m
  unfolding setsize
  setsize_covers t n e = ground (arith, calcresize_covers size_base t.asize n)

  -- Where the memory manager succeeds, so does the resize.
  pub setsize_total :
      (t : Table) (n : ℕ) → ((k : ℕ) → realloc k ≡ true) → setsize realloc t n ≢ none
  unfolding setsize
  setsize_total t n good = ground (arith, good (calcresize size_base t.asize n))

  pub setsize-zero : (t : Table) → setsize realloc t 0 ≢ none
  unfolding setsize
  setsize-zero t = ground arith

-- The item that `insert_item` writes.
abbrev pub new_item : Value → Value → ℕ → Item
new_item key value h = record { hash = h; key = (v_copy key).0; value = (v_copy value).0 }

module _ (w : World) (realloc : ℕ → Bool) where
  -- Adding an item inserts it at its place and owns what its copies refer to, or changes nothing.
  pub add_item_lem :
      (t : Table) (at : ℕ) (key value : Value) (h : ℕ) {t' : Table} {log : List Effect}
      → at ≤ length t.items
      → add_item w realloc t at key value h ≡ (ok t', log)
      → (t'.items ≡ insert_at t.items at (new_item key value h))
        × (length t.items + 1 ≤ t'.asize)
        × (log ≡ (v_copy key).1 ++ (v_copy value).1)
  unfolding add_item insert_item
  add_item_lem t at key value h p e = elim (Option-cases (setsize realloc t (length t.items + 1))) [
    | inl failed ↦ absurd (ground arith)
    | inr (n, done) ↦ ground (
      arith,
      set-shift_up blank t.items at (new_item key value h) p,
      setsize_covers realloc t (length t.items + 1) done,
    )
  ]

  -- Where the block can be shrunk, deleting at an index removes the item there.
  pub delete_at_lem :
      (t : Table) (at : ℕ) {n : ℕ}
      → at < length t.items
      → setsize realloc t (length t.items - 1) ≡ some n
      → delete_at w realloc t at ≡ record { items = remove_at t.items at; asize = n }
  unfolding delete_at
  delete_at_lem t at p e = ground (arith, remove-shift_down blank t.items at p)
