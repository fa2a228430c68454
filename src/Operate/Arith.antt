-- ===== src/Operate/Arith.antt =====
-- Arithmetic, `eel_op_power` to `eel_op_add` of src/core/e_operate.h.
pub mod Laws
use eel.Prelude.{ℕ, Bool, true, false, not, Option, none, some, ◌&&◌, if◌then◌else◌}
use eel.Prelude.Int.{ℤ, pos, negsuc}
use eel.Exceptions.{exception, xdivbyzero}
use eel.Value.{Value, nil, real, integer}
use eel.Operate.{
  Machine, Answer, answer, nonzero, Kind, k_nil, k_real, k_integer, k_boolean, k_class_id, power_op,
  mod_op, div_op, mul_op, sub_op, add_op, mk2types, int_v, real_v, op_fallback,
}
use eel.Operate.Compare.{eq_ℤ}
use eel.Operate.Words.{add, sub, mul, neg, quot, rem}

-- INT_MIN by -1
unfoldable pub overflows : ℤ → ℤ → Bool
overflows a b = eq_ℤ a (negsuc 0x7fff_ffff) && eq_ℤ b (negsuc 0)

module _ (m : Machine) where
  unfoldable pub real_answer : ℕ → Answer
  unfolding answer
  real_answer bits = answer (real m.padding bits)

  -- A number as a double, which C makes of the integer of a mixed pair.
  unfoldable pub double_as : Kind → Value → ℕ
  unfolding int_v real_v
  double_as k_real v = real_v m v
  double_as k v = m.of_int (int_v m v)

  -- if(!right->...v)
  unfoldable pub zero_as : Kind → Value → Bool
  unfolding int_v real_v nonzero
  zero_as k_real v = m.real_zero (real_v m v)
  zero_as k v = not (nonzero (int_v m v))

  unfoldable pub power_as : Kind → Kind → Value → Value → Answer
  unfolding answer real_answer double_as int_v real_v
  power_as k_nil b left right = answer nil
  power_as a k_nil left right = answer (integer (pos 1))
  power_as k_real b left right = real_answer (m.pow (real_v m left) (double_as b right))
  power_as a k_real left right = real_answer (m.pow (double_as a left) (real_v m right))
  power_as a b left right =
      answer (integer (m.floor (m.pow (m.of_int (int_v m left)) (m.of_int (int_v m right)))))

  unfoldable pub op_power : Value → Value → Answer
  unfolding mk2types op_fallback power_as
  op_power left right = elim (mk2types left right) [
    | none ↦ op_fallback m left power_op right
    | some (a, b) ↦ power_as a b left right
  ]

  unfoldable pub mod_as : Kind → Kind → Value → Value → Answer
  unfolding answer real_answer double_as int_v real_v zero_as overflows rem
  mod_as a k_nil left right = exception xdivbyzero
  mod_as k_nil b left right = if zero_as b right then exception xdivbyzero else answer nil
  mod_as k_real b left right =
      if zero_as b right
      then exception xdivbyzero
      else real_answer (m.fmod (real_v m left) (double_as b right))
  mod_as a k_real left right =
      if zero_as k_real right
      then exception xdivbyzero
      else real_answer (m.fmod (double_as a left) (real_v m right))
  mod_as a b left right =
      if zero_as b right
      then exception xdivbyzero
      else answer (
          integer (
            if overflows (int_v m left) (int_v m right)
            then m.div_overflow
            else rem (int_v m left) (int_v m right)))

  unfoldable pub op_mod : Value → Value → Answer
  unfolding mk2types op_fallback mod_as
  op_mod left right = elim (mk2types left right) [
    | none ↦ op_fallback m left mod_op right
    | some (a, b) ↦ mod_as a b left right
  ]

  -- EEL_PASCAL_IDIV is defined: a quotient of integers is a real, unless the divisor is a boolean.
  unfoldable pub div_as : Kind → Kind → Value → Value → Answer
  unfolding answer real_answer double_as int_v real_v zero_as overflows quot
  div_as a k_nil left right = exception xdivbyzero
  div_as k_nil b left right = if zero_as b right then exception xdivbyzero else answer nil
  div_as k_real b left right =
      if zero_as b right
      then exception xdivbyzero
      else real_answer (m.real_div (real_v m left) (double_as b right))
  div_as a k_boolean left right =
      if zero_as k_boolean right
      then exception xdivbyzero
      else answer (
          integer (
            if overflows (int_v m left) (int_v m right)
            then m.div_overflow
            else quot (int_v m left) (int_v m right)))
  div_as a b left right =
      if zero_as b right
      then exception xdivbyzero
      else real_answer (m.real_div (double_as a left) (double_as b right))

  unfoldable pub op_div : Value → Value → Answer
  unfolding mk2types op_fallback div_as
  op_div left right = elim (mk2types left right) [
    | none ↦ op_fallback m left div_op right
    | some (a, b) ↦ div_as a b left right
  ]

  unfoldable pub mul_as : Kind → Kind → Value → Value → Answer
  unfolding answer real_answer double_as int_v real_v mul
  mul_as k_nil b left right = answer nil
  mul_as a k_nil left right = answer nil
  mul_as k_real b left right = real_answer (m.real_mul (real_v m left) (double_as b right))
  mul_as a k_real left right = real_answer (m.real_mul (double_as a left) (real_v m right))
  mul_as a b left right = answer (integer (mul (int_v m left) (int_v m right)))

  unfoldable pub op_mul : Value → Value → Answer
  unfolding mk2types op_fallback mul_as
  op_mul left right = elim (mk2types left right) [
    | none ↦ op_fallback m left mul_op right
    | some (a, b) ↦ mul_as a b left right
  ]

  unfoldable pub sub_as : Kind → Kind → Value → Value → Answer
  unfolding answer real_answer double_as int_v real_v sub neg
  sub_as k_nil k_nil left right = answer nil
  sub_as k_nil k_real left right = real_answer (m.real_neg (real_v m right))
  sub_as k_nil b left right = answer (integer (neg (int_v m right)))
  sub_as k_real k_nil left right = real_answer (real_v m left)
  sub_as a k_nil left right = answer (integer (int_v m left))
  sub_as k_real b left right = real_answer (m.real_sub (real_v m left) (double_as b right))
  sub_as a k_real left right = real_answer (m.real_sub (double_as a left) (real_v m right))
  sub_as a b left right = answer (integer (sub (int_v m left) (int_v m right)))

  unfoldable pub op_sub : Value → Value → Answer
  unfolding mk2types op_fallback sub_as
  op_sub left right = elim (mk2types left right) [
    | none ↦ op_fallback m left sub_op right
    | some (a, b) ↦ sub_as a b left right
  ]

  -- An integer that is added to nil is negated, as in the subtraction.
  unfoldable pub add_as : Kind → Kind → Value → Value → Answer
  unfolding answer real_answer double_as int_v real_v add neg
  add_as k_nil k_nil left right = answer nil
  add_as k_nil k_real left right = real_answer (real_v m right)
  add_as k_nil b left right = answer (integer (neg (int_v m right)))
  add_as k_real k_nil left right = real_answer (real_v m left)
  add_as a k_nil left right = answer (integer (int_v m left))
  add_as k_real b left right = real_answer (m.real_add (real_v m left) (double_as b right))
  add_as a k_real left right = real_answer (m.real_add (double_as a left) (real_v m right))
  add_as a b left right = answer (integer (add (int_v m left) (int_v m right)))

  unfoldable pub op_add : Value → Value → Answer
  unfolding mk2types op_fallback add_as
  op_add left right = elim (mk2types left right) [
    | none ↦ op_fallback m left add_op right
    | some (a, b) ↦ add_as a b left right
  ]
