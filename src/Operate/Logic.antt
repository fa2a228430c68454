-- ===== src/Operate/Logic.antt =====
-- The boolean operators, `eel_op_and`, `eel_op_or` and `eel_op_xor` of src/core/e_operate.h.
pub mod Laws
use eel.Prelude.{ℕ, Bool, true, false, not, ◌&&◌, ◌||◌, Option, none, some}
use eel.Prelude.Int.{ℤ, pos, negsuc}
use eel.Value.{Value, boolean}
use eel.Operate.{
  Machine, Answer, answer, truth, nonzero, Kind, k_nil, k_real, k_integer, k_boolean, k_class_id,
  and_op, or_op, xor_op, mk2types, int_v, real_v, op_fallback,
}

-- bool ^ bool
unfoldable pub differ : Bool → Bool → Bool
differ true b = not b
differ false b = b

module _ (m : Machine) where
  -- The truth of an operand that a case takes for a value of the type.
  unfoldable pub truth_as : Kind → Value → Bool
  unfolding int_v real_v nonzero
  truth_as k_nil v = false
  truth_as k_real v = not (m.real_zero (real_v m v))
  truth_as k v = nonzero (int_v m v)

  unfoldable pub op_and : Value → Value → Answer
  unfolding answer truth op_fallback mk2types truth_as
  op_and left right = elim (mk2types left right) [
    | none ↦ op_fallback m left and_op right
    | some (a, b) ↦ answer (boolean (truth (truth_as a left && truth_as b right)))
  ]

  unfoldable pub op_or : Value → Value → Answer
  unfolding answer truth op_fallback mk2types truth_as
  op_or left right = elim (mk2types left right) [
    | none ↦ op_fallback m left or_op right
    | some (a, b) ↦ answer (boolean (truth (truth_as a left || truth_as b right)))
  ]

  unfoldable pub op_xor : Value → Value → Answer
  unfolding answer truth op_fallback mk2types truth_as differ
  op_xor left right = elim (mk2types left right) [
    | none ↦ op_fallback m left xor_op right
    | some (a, b) ↦ answer (boolean (truth (differ (truth_as a left) (truth_as b right))))
  ]
