-- ===== src/Shift.antt =====
-- The loops that move the elements of a C array by one place, as `insert_item` and `t_delete` of
-- src/core/e_table.c and `a_insert` of src/core/e_array.c have them.
pub mod Laws
pub mod Gap
use eel.Prelude.{ℕ, zero, suc, List, ltb, if◌then◌else◌, get_or, set}

module _ {ℓ} {A : Type ℓ} (blank : A) where
  -- for(i = length - 1; i > pos; --i) a[i] = a[i - 1];
  unfoldable pub shift_up : List A → ℕ → ℕ → List A
  shift_up slots at zero = slots
  shift_up slots at (suc i) =
      let rest = shift_up (set slots (suc i) (get_or slots i blank)) at i in
      if ltb at (suc i) then rest else slots

  -- for(i = pos; i < length - 1; ++i) a[i] = a[i + 1]; the counter is the number of rounds left.
  unfoldable pub shift_down : List A → ℕ → ℕ → List A
  shift_down slots i zero = slots
  shift_down slots i (suc n) = shift_down (set slots i (get_or slots (suc i) blank)) (suc i) n
