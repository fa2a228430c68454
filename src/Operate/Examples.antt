-- ===== src/Operate/Examples.antt =====
-- A floating point unit of small whole numbers, and the theorems on the operators at it.
use eel.Prelude.{ℕ, ◌+◌, ◌-◌, ◌*◌, ◌/◌, ◌%◌, ◌==◌, ◌≡◌, ◌↔◌, refl, true, not, ltb, arith}
use eel.Prelude.Int.{pos, pos_part}
use eel.Exceptions.{exception, xnotimplemented, xdivbyzero}
use eel.Value.{Value, real, integer, referent}
use eel.Operate.{Machine}
use eel.Operate.Arith.{op_div, op_mod}
use eel.Operate.Arith.Laws.{is_zero, op_div-zero}

abbrev machine : Machine
machine = record {
  real_gt = λ a b. ltb b a;
  real_ge = λ a b. not (ltb a b);
  real_eq = λ a b. a == b;
  real_zero = λ a. a == 0;
  real_add = λ a b. a + b;
  real_sub = λ a b. a - b;
  real_mul = λ a b. a * b;
  real_div = λ a b. a / b;
  fmod = λ a b. a % b;
  pow = λ a b. a;
  real_neg = λ a. a;
  of_int = pos_part;
  floor = pos;
  trunc = pos;
  bad_shl = λ v n. v;
  bad_shr = λ v n. v;
  bad_shift = λ v. v;
  metamethod = λ o mm v. exception xnotimplemented;
  cast = λ v c. exception xnotimplemented;
  class_of = λ o. pos 8;
  stale_int = λ v. pos 0;
  stale_real = λ v. 0;
  poke_int = λ v n. v;
  padding = 0;
  div_overflow = pos 0;
}

total : (a b : ℕ) → machine.real_gt a b ≡ not (machine.real_ge b a)
total a b = ground arith

strict : (a b : ℕ) → machine.real_gt a b ≡ true → machine.real_ge a b ≡ true
strict a b h = ground arith

abbrev two : Value
two = integer (pos 2)

abbrev half : Value
half = real 0 3

op_div-zero_example :
    ((op_div machine two half ≡ exception xdivbyzero) ↔ (is_zero machine half ≡ true))
    × ((op_mod machine two half ≡ exception xdivbyzero) ↔ (is_zero machine half ≡ true))
unfolding referent
op_div-zero_example = op_div-zero machine two half refl refl
