-- ===== src/Table/Ops/Total.antt =====
-- When the operations on tables succeed.
use eel.Prelude.{
  ℕ, ◌+◌, ◌≡◌, ◌⊎◌, inl, inr, refl, Bool, true, none, some, List, [], arith, length, get_or,
}
use eel.Exceptions.{ok, exception, xwrongindex}
use eel.Value.{Value, Effect, World, v2hash, v_copy}
use eel.Table.{Table, blank, insert_item}
use eel.Table.Find.{find}
use eel.Table.Find.Locate.{Found-cases}
use eel.Table.Ops.{setindex, add_item, delete, delete_at, getindex}
use eel.Table.Ops.Sound.{outcome_cases, setsize_total}

module _ (w : World) (realloc : ℕ → Bool) where
  -- Where memory can always be had, `t__setindex` succeeds with every key.
  pub setindex_total :
      (t : Table) (key value : Value)
      → ((k : ℕ) → realloc k ≡ true)
      → (t' : Table) × (log : List Effect) × (setindex w realloc t key value ≡ (ok t', log))
  unfolding setindex add_item insert_item
  setindex_total t key value good = elim (outcome_cases (setindex w realloc t key value)) [
    | inl done ↦ done
    | inr (x, log, failed) ↦ elim (Found-cases (find w t.items key (v2hash w key))) [
      | inl (i, f) ↦ absurd (ground arith)
      | inr (p, f) ↦ absurd (ground (arith, setsize_total realloc t (length t.items + 1) good))
    ]
  ]

  -- A key that `t_getindex` reads can be deleted, and one that it does not find gives the same
  -- exception to both.
  pub delete-getindex :
      (t : Table) (key : Value)
      → (((v : Value) × ((getindex w realloc t key).0 ≡ ok v))
          × ((t' : Table) × ((delete w realloc t (some key) none).0 ≡ ok t')))
        ⊎ (((getindex w realloc t key).0 ≡ exception xwrongindex)
            × (delete w realloc t (some key) none ≡ (exception xwrongindex, [])))
  unfolding getindex delete
  delete-getindex t key = elim (Found-cases (find w t.items key (v2hash w key))) [
    | inl (i, f) ↦ inl (
      ((v_copy (let ti = get_or t.items i blank in ti.value)).0, rw (getindex, f) refl),
      (delete_at w realloc t i, rw (delete, f) refl),
    )
    | inr (p, f) ↦ inr (rw (getindex, f) refl, rw (delete, f) refl)
  ]
