-- ===== src/Operate/Dispatch.antt =====
-- The choice of an operator by its code, `eel__operate` and `eel__ipoperate` of
-- src/core/e_operate.h.
use eel.Prelude.{true, none, some}
use eel.Exceptions.{exception, xcantinplace, xnotimplemented}
use eel.Value.{Value, referent}
use eel.Operate.{
  Machine, Answer, Operator, power_op, mod_op, div_op, mul_op, sub_op, add_op, band_op, bor_op,
  bxor_op, shl_op, shr_op, rol_op, ror_op, brev_op, and_op, or_op, xor_op, eq_op, ne_op, gt_op,
  ge_op, lt_op, le_op, max_op, min_op, object_op, op_fallback,
}
use eel.Operate.Logic.{op_and, op_or, op_xor}
use eel.Operate.Compare.{op_eq, op_ne, op_gt, op_ge, op_lt, op_le, op_max, op_min}
use eel.Operate.Arith.{op_power, op_mod, op_div, op_mul, op_sub, op_add}
use eel.Operate.Bits.{op_band, op_bor, op_bxor, op_shl, op_shr, op_rol, op_ror, op_brev}

module _ (m : Machine) where
  -- `old` is what `*result` held before.
  unfoldable pub operate : Value → Value → Operator → Value → Answer
  unfolding op_power op_mod op_div op_mul op_sub op_add op_band op_bor op_bxor op_shl op_shr op_rol
      op_ror op_brev op_and op_or op_xor op_eq op_ne op_gt op_ge op_lt op_le op_max op_min
      op_fallback
  operate old left power_op right = op_power m left right
  operate old left mod_op right = op_mod m left right
  operate old left div_op right = op_div m left right
  operate old left mul_op right = op_mul m left right
  operate old left sub_op right = op_sub m left right
  operate old left add_op right = op_add m left right
  operate old left band_op right = op_band m left right
  operate old left bor_op right = op_bor m left right
  operate old left bxor_op right = op_bxor m left right
  operate old left shl_op right = op_shl m old left right
  operate old left shr_op right = op_shr m old left right
  operate old left rol_op right = op_rol m left right
  operate old left ror_op right = op_ror m left right
  operate old left brev_op right = op_brev m left right
  operate old left and_op right = op_and m left right
  operate old left or_op right = op_or m left right
  operate old left xor_op right = op_xor m left right
  operate old left eq_op right = op_eq m left right
  operate old left ne_op right = op_ne m left right
  operate old left gt_op right = op_gt m left right
  operate old left ge_op right = op_ge m left right
  operate old left lt_op right = op_lt m left right
  operate old left le_op right = op_le m left right
  operate old left min_op right = op_min m left right
  operate old left max_op right = op_max m left right
  operate old left binop right = op_fallback m left binop right

  unfoldable pub ipoperate : Value → Operator → Value → Answer
  unfolding object_op
  ipoperate left binop right = elim (referent left) [
    | some o ↦ object_op m o left binop right true
    | none ↦ elim (referent right) [
      | some o ↦ exception xnotimplemented
      | none ↦ exception xcantinplace
    ]
  ]
