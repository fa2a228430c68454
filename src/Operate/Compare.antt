-- ===== src/Operate/Compare.antt =====
-- The comparisons and the selectors, `eel_op_eq` to `eel_op_le`, `eel_op_max` and `eel_op_min` of
-- src/core/e_operate.h.
pub mod Laws
use eel.Prelude.{ℕ, ◌==◌, Bool, true, false, not, ◌&&◌, Option, none, some, if◌then◌else◌}
use eel.Prelude.Int.{ℤ, pos, negsuc, ltb_ℤ, neg_part, pos_part}
use eel.Exceptions.{ok, exception}
use eel.Value.{Value, boolean, v_copy}
use eel.Operate.{
  Machine, Answer, answer, truth, nonzero, Kind, k_nil, k_real, k_integer, k_boolean, k_class_id,
  eq_op, gt_op, ge_op, mk2types, int_v, real_v, set_int_v, op_fallback,
}

abbrev pub eq_ℤ : ℤ → ℤ → Bool
eq_ℤ a b = (pos_part a == pos_part b) && (neg_part a == neg_part b)

module _ (m : Machine) where
  -- The cases of EQ: values of different types are not equal, but for an integer and a real.
  unfoldable pub eq_as : Kind → Kind → Value → Value → Bool
  unfolding int_v real_v
  eq_as k_nil k_nil left right = true
  eq_as k_real k_real left right = m.real_eq (real_v m left) (real_v m right)
  eq_as k_real k_integer left right = m.real_eq (real_v m left) (m.of_int (int_v m right))
  eq_as k_integer k_real left right = m.real_eq (m.of_int (int_v m left)) (real_v m right)
  eq_as k_integer k_integer left right = eq_ℤ (int_v m left) (int_v m right)
  eq_as k_boolean k_boolean left right = eq_ℤ (int_v m left) (int_v m right)
  eq_as k_class_id k_class_id left right = eq_ℤ (int_v m left) (int_v m right)
  eq_as a b left right = false

  unfoldable pub op_eq : Value → Value → Answer
  unfolding answer truth op_fallback mk2types eq_as
  op_eq left right = elim (mk2types left right) [
    | none ↦ op_fallback m left eq_op right
    | some (a, b) ↦ answer (boolean (truth (eq_as a b left right)))
  ]

  -- result->integer.v = !result->integer.v, unless there was an exception.
  unfoldable pub negate : Answer → Answer
  unfolding set_int_v int_v truth nonzero
  negate (ok (v, e)) = ok (set_int_v m v (truth (not (nonzero (int_v m v)))), e)
  negate (exception x) = exception x

  unfoldable pub op_ne : Value → Value → Answer
  unfolding op_eq negate
  op_ne left right = negate (op_eq left right)

  unfoldable pub gt_as : Kind → Kind → Value → Value → Bool
  unfolding int_v real_v
  gt_as k_nil b left right = false
  gt_as a k_nil left right = true
  gt_as k_real k_real left right = m.real_gt (real_v m left) (real_v m right)
  gt_as k_real b left right = m.real_gt (real_v m left) (m.of_int (int_v m right))
  gt_as a k_real left right = m.real_gt (m.of_int (int_v m left)) (real_v m right)
  gt_as a b left right = ltb_ℤ (int_v m right) (int_v m left)

  unfoldable pub op_gt : Value → Value → Answer
  unfolding answer truth op_fallback mk2types gt_as
  op_gt left right = elim (mk2types left right) [
    | none ↦ op_fallback m left gt_op right
    | some (a, b) ↦ answer (boolean (truth (gt_as a b left right)))
  ]

  unfoldable pub ge_as : Kind → Kind → Value → Value → Bool
  unfolding int_v real_v
  ge_as a k_nil left right = true
  ge_as k_nil b left right = false
  ge_as k_real k_real left right = m.real_ge (real_v m left) (real_v m right)
  ge_as k_real b left right = m.real_ge (real_v m left) (m.of_int (int_v m right))
  ge_as a k_real left right = m.real_ge (m.of_int (int_v m left)) (real_v m right)
  ge_as a b left right = not (ltb_ℤ (int_v m left) (int_v m right))

  unfoldable pub op_ge : Value → Value → Answer
  unfolding answer truth op_fallback mk2types ge_as
  op_ge left right = elim (mk2types left right) [
    | none ↦ op_fallback m left ge_op right
    | some (a, b) ↦ answer (boolean (truth (ge_as a b left right)))
  ]

  unfoldable pub op_lt : Value → Value → Answer
  unfolding op_ge negate
  op_lt left right = negate (op_ge left right)

  unfoldable pub op_le : Value → Value → Answer
  unfolding op_gt negate
  op_le left right = negate (op_gt left right)

  unfoldable pub op_max : Value → Value → Answer
  unfolding op_ge int_v nonzero v_copy
  op_max left right = elim (op_ge left right) [
    | exception x ↦ exception x
    | ok (r, e) ↦ ok (if nonzero (int_v m r) then v_copy left else v_copy right)
  ]

  unfoldable pub op_min : Value → Value → Answer
  unfolding op_ge int_v nonzero v_copy
  op_min left right = elim (op_ge left right) [
    | exception x ↦ exception x
    | ok (r, e) ↦ ok (if nonzero (int_v m r) then v_copy right else v_copy left)
  ]
