-- ===== src/Array/Delete.antt =====
-- Deleting from an array: a_delete of src/core/e_array.c, with eel_get_delete_range of
-- src/core/e_object.h.
pub mod Range
use eel.Prelude.{
  ℕ, zero, suc, ◌+◌, ◌-◌, Bool, true, false, Option, none, some, List, [], ◌∷◌, ◌++◌, ◌==◌, ltb,
  if◌then◌else◌, length, get_or, set, take, drop,
}
use eel.Prelude.Int.{ℤ, pos, negsuc, ◌+ℤ◌, ◌-ℤ◌, ltb_ℤ, sub_ℕ, pos_part}
use eel.Operate.Words.{add, sub}
use eel.Exceptions.{Xno, Result, ok, exception, xwrongtype, xlowindex, xwrongindex, xhighindex}
use eel.Value.{Value, nil, boolean, integer, class_id, real, obj_ref, weak_ref, Effect, v_disown}
use eel.Array.{Array, setsize, index_of}

-- The checks of `eel_get_delete_range`, once it has both ends.
unfoldable pub check_range : ℤ → ℤ → ℕ → Result (ℤ × ℤ)
check_range i0 i1 length =
    if ltb_ℤ i0 (pos 0)
    then exception xlowindex
    else if ltb_ℤ i1 i0
    then exception xwrongindex
    else if ltb_ℤ (pos length) i1
    then exception xhighindex
    else ok (i0, i1)

-- `*i1`, computed in `int`, which wraps around. For a real count the sum is a `double` that is cast to
-- `int`: that is `real_end`, of the index and the bits of the count.
unfoldable pub range_end : (ℤ → ℕ → ℤ) → ℤ → Value → Option ℤ
range_end real_end i0 (boolean n) = some (sub (add i0 n) (pos 1))
range_end real_end i0 (integer n) = some (sub (add i0 n) (pos 1))
range_end real_end i0 (class_id n) = some (sub (add i0 n) (pos 1))
range_end real_end i0 (real pad bits) = some (real_end i0 bits)
range_end real_end i0 v = none

-- `eel_get_delete_range`; an operand is `none` where the pointer is null.
unfoldable pub get_delete_range :
    (ℕ → ℤ) → (ℤ → ℕ → ℤ) → Option Value → Option Value → ℕ → Result (ℤ × ℤ)
unfolding index_of range_end
get_delete_range floor real_end none op2 length = ok (pos 0, sub_ℕ length 1)
get_delete_range floor real_end (some op1) none length = elim (index_of floor op1) [
  | none ↦ exception xwrongtype
  | some i0 ↦ check_range i0 i0 length
]
get_delete_range floor real_end (some op1) (some op2) length = elim (index_of floor op1) [
  | none ↦ exception xwrongtype
  | some i0 ↦ elim (range_end real_end i0 op2) [
    | none ↦ exception xwrongtype
    | some i1 ↦ check_range i0 i1 length
  ]
]

-- The place of the first value with `o` in the field `objref`, from `i` on.
unfoldable pub find_ref : (Value → ℕ) → ℕ → ℕ → List Value → Option ℕ
find_ref objref o i [] = none
find_ref objref o i (v ∷ rest) =
    let next = find_ref objref o (i + 1) rest in if objref v == o then some i else next

-- What is to be deleted: an object by its address, or a range.
unfoldable pub delete_range :
    (Value → ℕ) → (ℕ → ℤ) → (ℤ → ℕ → ℤ) → Array → Option Value → Option Value → Result (ℤ × ℤ)
delete_range objref floor real_end a none op2 =
    get_delete_range floor real_end none op2 (length a.values)
delete_range objref floor real_end a (some (obj_ref o)) op2 = elim (find_ref objref o 0 a.values) [
  | none ↦ exception xwrongindex
  | some i ↦ ok (pos i, pos i)
]
delete_range objref floor real_end a (some (weak_ref wired o)) op2 =
    elim (find_ref objref o 0 a.values) [
      | none ↦ exception xwrongindex
      | some i ↦ ok (pos i, pos i)
    ]
delete_range objref floor real_end a (some op1) op2 =
    get_delete_range floor real_end (some op1) op2 (length a.values)

-- The loop that disowns `n` values from `i` on.
unfoldable pub disown_range : ℕ → ℕ → List Value → List Effect
disown_range zero i values = []
disown_range (suc n) i values = v_disown (get_or values i nil) ++ disown_range n (i + 1) values

-- The loop that moves `n` values from `from` on to `to`.
unfoldable pub move_down : ℕ → ℕ → ℕ → List Value → List Value
move_down zero to from values = values
move_down (suc n) to from values =
    move_down n (to + 1) (from + 1) (set values to (get_or values from nil))

-- A deletion is refused, or made; where the range goes behind the last value, the loop disowns what
-- stands behind it, which is a stale value or no memory of the array, and what follows is undefined.
pub data Deletion : Type 0 where
  refused : Xno → Deletion
  deleted : Array → List Effect → Deletion
  overruns : Deletion

-- The loops of `a_delete`, and the new length and size. That `a_setsize` can fail is not looked at.
unfoldable pub delete_values : (ℕ → Bool) → Array → ℕ → ℕ → Deletion
delete_values realloc a i0 n =
    let len = length a.values in
    let moved = move_down (len - (i0 + n)) i0 (i0 + n) a.values in
    let a' : Array = record a { values = take (len - n) moved } in
    let size : ℕ = elim (setsize realloc a' (len - n)) [ none ↦ a.maxlength | some m ↦ m ] in
    if ltb len (i0 + n)
    then overruns
    else deleted (record a' { maxlength = size }) (disown_range n i0 a.values)

-- `a_delete`
unfoldable pub delete :
    (Value → ℕ)
    → (ℕ → ℤ)
    → (ℤ → ℕ → ℤ)
    → (ℕ → Bool)
    → Array
    → Option Value
    → Option Value
    → Deletion
unfolding delete_range delete_values
delete objref floor real_end realloc a op1 op2 =
    elim (delete_range objref floor real_end a op1 op2) [
      | exception x ↦ refused x
      | ok r ↦ delete_values realloc a (pos_part r.0) (pos_part (r.1 +ℤ pos 1 -ℤ r.0))
    ]
