-- ===== src/Table/Ops/Clone.antt =====
-- `t__clone`: a clone of a table is a table of its own.
use eel.Prelude.{ℕ, zero, suc, ◌≡◌, refl, Bool, List, [], ◌∷◌, ◌++◌, arith, length}
use eel.Exceptions.{ok}
use eel.Value.{Effect, World, v_clone, v2hash}
use eel.Value.Copy.{owns, disowns, owns-append, disowns-append, v_clone_balance, v2hash-v_clone}
use eel.Table.{Item, Table}
use eel.Table.Find.{hash_of, key_of}
use eel.Table.Ops.{clone_items, clone}
use eel.Table.Ops.Order.{IsValid}
use eel.Table.Ops.Balance.{refs}

module _ (w : World) where
  clone_items_lem :
      (o : ℕ) (xs : List Item)
      → (owns o (clone_items xs).1 ≡ refs o (clone_items xs).0)
        × (disowns o (clone_items xs).1 ≡ 0)
        × (length (clone_items xs).0 ≡ length xs)
  unfolding clone_items
  clone_items_lem o [] = omega arith
  clone_items_lem o (ti ∷ rest) = omega (
    arith,
    clone_items_lem o rest,
    owns-append o (v_clone ti.key).1 ((v_clone ti.value).1 ++ (clone_items rest).1),
    owns-append o (v_clone ti.value).1 (clone_items rest).1,
    disowns-append o (v_clone ti.key).1 ((v_clone ti.value).1 ++ (clone_items rest).1),
    disowns-append o (v_clone ti.value).1 (clone_items rest).1,
    v_clone_balance o ti.key,
    v_clone_balance o ti.value,
  )

  hash_of-clone_items :
      (xs : List Item) (j : ℕ)
      → (hash_of (clone_items xs).0 j ≡ hash_of xs j)
        × (v2hash w (key_of (clone_items xs).0 j) ≡ v2hash w (key_of xs j))
  unfolding clone_items
  hash_of-clone_items [] j = (refl, refl)
  hash_of-clone_items (ti ∷ rest) zero = (refl, v2hash-v_clone w ti.key)
  hash_of-clone_items (ti ∷ rest) (suc j) = hash_of-clone_items rest j

  clone_items-IsValid :
      (t : Table)
      → IsValid w t
      → IsValid w (record { items = (clone_items t.items).0; asize = length t.items })
  clone_items-IsValid t v = record {
    sorted = λ i j le lt. omega (
      arith,
      hash_of-clone_items t.items i,
      hash_of-clone_items t.items j,
      clone_items_lem 0 t.items,
      v.sorted i j le (omega (arith, clone_items_lem 0 t.items)),
    );
    room = omega (arith, clone_items_lem 0 t.items);
    stamped = λ j lt. omega (
      arith,
      hash_of-clone_items t.items j,
      v.stamped j (omega (arith, clone_items_lem 0 t.items)),
    );
  }

  -- A clone of a valid table is valid and has as many items, and it owns one reference for each
  -- strong reference that it holds.
  pub clone_lem :
      (alloc : Bool) (malloc : ℕ → Bool) (t : Table) {t' : Table} {log : List Effect}
      → IsValid w t
      → clone alloc malloc t ≡ (ok t', log)
      → IsValid w t'
        × (length t'.items ≡ length t.items)
        × ((o : ℕ) → (owns o log ≡ refs o t'.items) × (disowns o log ≡ 0))
  unfolding clone
  clone_lem alloc malloc t {t'} {log} v e =
      let items : t'.items ≡ (clone_items t.items).0 = ground arith in
      let same : record { items = (clone_items t.items).0; asize = length t.items } ≡ t' =
        ground arith in
      let trace : log ≡ (clone_items t.items).1 = ground arith in
      (
        rw same at (clone_items-IsValid t v),
        rw items (clone_items_lem 0 t.items).2,
        λ o. rw (items, trace) (omega (arith, clone_items_lem o t.items)),
      )
