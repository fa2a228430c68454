-- ===== src/Casts.antt =====
-- The matrix of casts between classes, src/core/e_cast.c and e_cast.h: its extension for new classes,
-- registering casts, and casting by it.
pub mod Matrix
pub mod Generic
pub mod Register
mod Examples
pub mod Order
use eel.Prelude.{
  ℕ, zero, suc, ◌+◌, ◌-◌, ◌*◌, ◌/◌, Bool, true, false, not, ◌&&◌, Option, none, some, ltb, leb,
  ◌==◌, if◌then◌else◌,
}

-- An `EEL_cast_cb`: the two of this file, or one that a class registers.
pub data Caster : Type 0 where
  cast_not_implemented : Caster
  generic_indexable_cast : Caster
  cast_cb : ℕ → Caster

-- A block of casts. Writes past its end are not modelled.
abbrev pub Block : Type 0
Block = ℕ → Caster

-- The fields `casters` and `castersdim` of `EEL_state`; `casters` is `none` for NULL.
pub record Casters : Type 0 where
  pub casters : Option Block
  pub castersdim : ℕ

unfoldable pub write : Block → ℕ → Caster → Block
write nc i c j = if j == i then c else nc j

-- `count` entries from `at` on become `cast_not_implemented`.
unfoldable pub fill : ℕ → ℕ → Block → Block
unfolding write
fill zero at nc = nc
fill (suc count) at nc = fill count (suc at) (write nc at cast_not_implemented)

-- `count` entries of `old` from `from` on are copied to the entries from `at` on.
unfoldable pub copy_row : Block → ℕ → ℕ → ℕ → Block → Block
unfolding write
copy_row old zero at from nc = nc
copy_row old (suc count) at from nc =
    copy_row old count (suc at) (suc from) (write nc at (old from))

-- A loop over `count` rows from row `y` on.
unfoldable pub for_rows : (ℕ → Block → Block) → ℕ → ℕ → Block → Block
for_rows body zero y nc = nc
for_rows body (suc count) y nc = for_rows body count (suc y) (body y nc)

-- The last two loops of `eel_realloc_cast_matrix`, where there is an old matrix.
unfoldable pub copy_rows : Option Block → ℕ → ℕ → Block → Block
unfolding for_rows copy_row
copy_rows none dim newdim nc = nc
copy_rows (some old) dim newdim nc =
    for_rows (λ y. copy_row old dim (y * newdim) (y * dim)) dim 0 nc

-- The loops of `eel_realloc_cast_matrix`, on a new block with any contents.
unfoldable pub extended : Casters → ℕ → Block → Block
unfolding for_rows fill copy_rows
extended es newdim nc = copy_rows es.casters es.castersdim newdim (
    for_rows (λ y. fill es.castersdim (y * newdim)) (newdim - es.castersdim) es.castersdim
      (for_rows (λ y. fill (newdim - es.castersdim) (y * newdim + es.castersdim)) newdim 0 nc))

-- `(newdim + 3) & 0xfffffffc`
unfoldable pub round_up : ℕ → ℕ
round_up newdim = (newdim + 3) / 4 * 4

-- `eel_realloc_cast_matrix`. `memory` is the block that `eel_malloc` gives, if it gives one;
-- `none` is -1.
unfoldable pub realloc_cast_matrix : Option Block → Casters → ℕ → Option Casters
unfolding round_up extended
realloc_cast_matrix memory es newdim =
    if leb (round_up newdim) es.castersdim then some es else (elim memory [
      | none ↦ none
      | some nc ↦ some (record {
        casters = some (extended es (round_up newdim) nc);
        castersdim = round_up newdim;
      })
    ])

-- `casters[y * castersdim + x]`
unfoldable pub entry : Casters → ℕ → ℕ → Caster
entry es y x = elim es.casters [ none ↦ cast_not_implemented | some c ↦ c (y * es.castersdim + x) ]

-- A class ID, or one of the wildcards EEL_CANY and EEL_CINDEXABLE.
pub data Classes : Type 0 where
  any : Classes
  indexable : Classes
  class : ℕ → Classes

-- `switch(from)` and `switch(to)`: whether the loops of `set_multiple_casts` go on with class `c`, which
-- has the metamethod in question or not.
unfoldable pub passes : Classes → Bool → Bool
passes any has = true
passes indexable has = has
passes (class c) has = false

unfoldable pub is_not_implemented : Caster → Bool
is_not_implemented cast_not_implemented = true
is_not_implemented c = false

-- The inner loop of `set_multiple_casts`, over `count` entries from `at` on, which belong to the
-- classes from `x` on.
unfoldable pub set_row : (ℕ → Bool) → Caster → ℕ → ℕ → ℕ → Block → Block
unfolding write is_not_implemented
set_row to cb zero x at nc = nc
set_row to cb (suc count) x at nc =
    set_row to cb count (suc x) (suc at)
      (if to x && is_not_implemented (nc at) then write nc at cb else nc)

-- `set_multiple_casts`. `has_get` and `has_set` are `has_mm` of EEL_MM_GETINDEX and EEL_MM_SETINDEX.
unfoldable pub set_multiple_casts :
    (ℕ → Bool) → (ℕ → Bool) → ℕ → Classes → Classes → Caster → Block → Block
unfolding passes set_row for_rows
set_multiple_casts has_get has_set dim from to cb nc =
    for_rows
      (λ y nc'.
        let row = set_row (λ x. passes to (has_set x)) cb dim 0 (y * dim) nc' in
        if passes from (has_get y) then row else nc')
      dim 0 nc

-- The entries that `eel_set_casts` leaves.
unfoldable pub set_block : (ℕ → Bool) → (ℕ → Bool) → ℕ → Classes → Classes → Caster → Block → Block
unfolding set_multiple_casts write
set_block has_get has_set dim (class from) (class to) cb nc = write nc (from * dim + to) cb
set_block has_get has_set dim from to cb nc = set_multiple_casts has_get has_set dim from to cb nc

-- `eel_set_casts`; without a matrix there is no class either.
unfoldable pub set_casts : (ℕ → Bool) → (ℕ → Bool) → Classes → Classes → Caster → Casters → Casters
unfolding set_block
set_casts has_get has_set from to cb es = elim es.casters [
  | none ↦ es
  | some nc ↦ record es { casters = some (set_block has_get has_set es.castersdim from to cb nc) }
]
