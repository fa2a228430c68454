-- ===== src/Operate.antt =====
-- The operators of the language on values, src/core/e_operate.h, and on objects,
-- src/core/e_operate.c: what both need, the choice of a case by the operands' types, and the
-- operators on objects.
pub mod Words
pub mod Logic
pub mod Compare
pub mod Arith
pub mod Bits
pub mod Unary
pub mod Dispatch
mod Examples
use eel.Prelude.{
  ℕ, zero, suc, ◌+◌, ◌*◌, ◌/◌, ◌%◌, Bool, true, false, not, Option, none, some, List, [], ltb,
  if◌then◌else◌,
}
use eel.Prelude.Int.{ℤ, pos, negsuc, ltb_ℤ}
use eel.Exceptions.{Xno, Result, ok, exception, xnotimplemented, xcantinplace}
use eel.Value.{
  Value, nil, real, integer, boolean, class_id, obj_ref, weak_ref, referent, v_copy, Effect,
}

-- EEL_operators
pub data Operator : Type 0 where
  assign_op wkassn_op : Operator
  power_op mod_op div_op mul_op sub_op add_op : Operator
  vpower_op vmod_op vdiv_op vmul_op vsub_op vadd_op : Operator
  band_op bor_op bxor_op shl_op shr_op rol_op ror_op brev_op : Operator
  and_op or_op xor_op eq_op ne_op gt_op ge_op lt_op le_op in_op : Operator
  max_op min_op : Operator
  neg_op castr_op casti_op castb_op typeof_op sizeof_op clone_op : Operator
  not_op bnot_op : Operator

-- The metamethods of a class that the operators call: the ones of an arithmetic operator are told
-- apart by whether the object is the right operand, and by whether it is changed in place.
pub data Mm : Type 0 where
  in_mm eq_mm compare_mm length_mm : Mm
  arith_mm : Operator → Bool → Bool → Mm

-- The operators that have metamethods of their own.
unfoldable pub arithmetic : Operator → Bool
arithmetic power_op = true
arithmetic mod_op = true
arithmetic div_op = true
arithmetic sub_op = true
arithmetic mul_op = true
arithmetic add_op = true
arithmetic vpower_op = true
arithmetic vmod_op = true
arithmetic vdiv_op = true
arithmetic vsub_op = true
arithmetic vmul_op = true
arithmetic vadd_op = true
arithmetic op = false

-- A result with the calls on the object layer that copying made, or an exception.
abbrev pub Answer : Type 0
Answer = Result (Value × List Effect)

unfoldable pub answer : Value → Answer
answer v = ok (v, [])

-- int to EEL_integer, of a C truth value.
unfoldable pub truth : Bool → ℤ
truth true = pos 1
truth false = pos 0

-- n != 0
unfoldable pub nonzero : ℤ → Bool
nonzero (pos zero) = false
nonzero n = true

-- What the operators take from elsewhere: the floating point unit and the C library on the bits of
-- doubles, the metamethods of an object's class with what they leave in `*result`, the result of
-- `eel_cast` on an object, what a field of the union holds when the value has another type and what
-- a write to it then makes of the value, the padding of a real that is made, and what the
-- processor does where an integer division overflows or a shift is by too many bits.
pub record Machine : Type 0 where
  pub real_gt : ℕ → ℕ → Bool
  pub real_ge : ℕ → ℕ → Bool
  pub real_eq : ℕ → ℕ → Bool
  pub real_zero : ℕ → Bool
  pub real_add : ℕ → ℕ → ℕ
  pub real_sub : ℕ → ℕ → ℕ
  pub real_mul : ℕ → ℕ → ℕ
  pub real_div : ℕ → ℕ → ℕ
  pub fmod : ℕ → ℕ → ℕ
  pub pow : ℕ → ℕ → ℕ
  pub real_neg : ℕ → ℕ
  pub of_int : ℤ → ℕ
  pub floor : ℕ → ℤ
  pub trunc : ℕ → ℤ
  pub bad_shl : ℤ → ℤ → ℤ
  pub bad_shr : ℤ → ℤ → ℤ
  pub bad_shift : ℕ → ℕ
  pub metamethod : ℕ → Mm → Value → Result Value
  pub cast : Value → ℤ → Answer
  pub class_of : ℕ → ℤ
  pub stale_int : Value → ℤ
  pub stale_real : Value → ℕ
  pub poke_int : Value → ℤ → Value
  pub padding : ℕ
  pub div_overflow : ℤ

-- `v->classid`
unfoldable pub classid : Value → ℕ
classid nil = 0
classid (real pad bits) = 1
classid (integer n) = 2
classid (boolean n) = 3
classid (class_id n) = 4
classid (obj_ref o) = 5
classid (weak_ref w o) = 6

-- The value types, up to EEL_CLASTVALUE.
pub data Kind : Type 0 where
  k_nil k_real k_integer k_boolean k_class_id : Kind

unfoldable pub kind : ℕ → Kind
kind zero = k_nil
kind (suc zero) = k_real
kind (suc (suc zero)) = k_integer
kind (suc (suc (suc zero))) = k_boolean
kind n = k_class_id

-- switch(EEL_MK2TYPES(left->classid, right->classid)): the pair of types whose case label is the
-- number, or `none` where no case with two value types has it.
unfoldable pub mk2types : Value → Value → Option (Kind × Kind)
unfolding classid kind
mk2types l r =
    let n = classid l * 5 + classid r in
    if ltb n 25 then some (kind (n / 5), kind (n % 5)) else none

module _ (m : Machine) where
  -- v->integer.v
  unfoldable pub int_v : Value → ℤ
  int_v (integer n) = n
  int_v (boolean n) = n
  int_v (class_id n) = n
  int_v v = m.stale_int v

  -- v->real.v
  unfoldable pub real_v : Value → ℕ
  real_v (real pad bits) = bits
  real_v v = m.stale_real v

  -- v->integer.v = n
  unfoldable pub set_int_v : Value → ℤ → Value
  set_int_v (integer a) n = integer n
  set_int_v (boolean a) n = boolean n
  set_int_v (class_id a) n = class_id n
  set_int_v v n = m.poke_int v n

  -- `eel_test_nz`, as a truth value.
  unfoldable pub test_nz : Value → Bool
  test_nz nil = false
  test_nz (real pad bits) = not (m.real_zero bits)
  test_nz (integer n) = nonzero n
  test_nz (boolean n) = nonzero n
  test_nz (class_id n) = true
  test_nz (obj_ref o) = true
  test_nz (weak_ref w o) = true

  -- A metamethod's answer, after `after` on `*result`.
  unfoldable pub call : ℕ → Mm → Value → (Value → Value) → Answer
  unfolding answer
  call o mm arg after = elim (m.metamethod o mm arg) [
    | ok v ↦ answer (after v)
    | exception x ↦ exception x
  ]

  -- The comparisons that cannot be done in place.
  unfoldable pub comparison : ℕ → Mm → Value → Bool → (Value → Value) → Answer
  unfolding call
  comparison o mm arg inplace after =
      if inplace then exception xcantinplace else call o mm arg after

  -- The smaller or the larger of two values, by the sign of the object's answer. After an exception
  -- the code also copies one of them into a result that nobody reads; that is left out.
  unfoldable pub select : ℕ → Value → Value → Bool → (ℤ → Bool) → Answer
  unfolding int_v
  select o left right inplace first =
      if inplace then exception xcantinplace else (elim (m.metamethod o compare_mm right) [
        | ok v ↦ ok (if first (int_v v) then v_copy left else v_copy right)
        | exception x ↦ exception x
      ])

  -- `eel_op_in` of e_operate.c: an index becomes `true`.
  unfoldable pub op_in : ℕ → Value → Answer
  unfolding call
  op_in o v = call o in_mm v (λ r. elim r [ integer n ↦ boolean (pos 1) | other ↦ other ])

  -- `eel_object_op` for the object `o` that `left` refers to. The cases AND and XOR have no `break`:
  -- AND goes on into OR, XOR into EQ, and each sets the whole result again.
  unfoldable pub object_op : ℕ → Value → Operator → Value → Bool → Answer
  unfolding answer truth int_v set_int_v comparison select op_in
  object_op o left and_op right inplace = answer (boolean (pos 1))
  object_op o left or_op right inplace = answer (boolean (pos 1))
  object_op o left xor_op right inplace = comparison o eq_mm right inplace (λ r. r)
  object_op o left eq_op right inplace = comparison o eq_mm right inplace (λ r. r)
  object_op o left ne_op right inplace =
      comparison o eq_mm right inplace (λ r. set_int_v r (truth (not (nonzero (int_v r)))))
  object_op o left gt_op right inplace =
      comparison o compare_mm right inplace (λ r. boolean (truth (ltb_ℤ (pos 0) (int_v r))))
  object_op o left ge_op right inplace =
      comparison o compare_mm right inplace (λ r. boolean (truth (not (ltb_ℤ (int_v r) (pos 0)))))
  object_op o left lt_op right inplace =
      comparison o compare_mm right inplace (λ r. boolean (truth (ltb_ℤ (int_v r) (pos 0))))
  object_op o left le_op right inplace =
      comparison o compare_mm right inplace (λ r. boolean (truth (not (ltb_ℤ (pos 0) (int_v r)))))
  object_op o left in_op right inplace =
      if inplace
      then exception xcantinplace
      else (elim (referent right) [ none ↦ answer (boolean (pos 0)) | some p ↦ op_in p left ])
  object_op o left min_op right inplace = select o left right inplace (λ c. not (ltb_ℤ (pos 0) c))
  object_op o left max_op right inplace = select o left right inplace (λ c. not (ltb_ℤ c (pos 0)))
  object_op o left binop right inplace =
      if arithmetic binop
      then call o (arith_mm binop false inplace) right (λ r. r)
      else exception xnotimplemented

  -- `eel_object_rop` for the object `o` that `left`, the right operand of the source, refers to.
  -- AND and XOR go on into the next case here too.
  unfoldable pub object_rop : ℕ → Value → Operator → Value → Bool → Answer
  unfolding answer truth int_v set_int_v comparison select op_in
  object_rop o left and_op right inplace = answer (boolean (pos 1))
  object_rop o left or_op right inplace = answer (boolean (pos 1))
  object_rop o left xor_op right inplace = comparison o eq_mm right inplace (λ r. r)
  object_rop o left eq_op right inplace = comparison o eq_mm right inplace (λ r. r)
  object_rop o left ne_op right inplace =
      comparison o eq_mm right inplace (λ r. set_int_v r (truth (not (nonzero (int_v r)))))
  object_rop o left min_op right inplace = select o left right inplace (λ c. not (ltb_ℤ (pos 0) c))
  object_rop o left max_op right inplace = select o left right inplace (λ c. not (ltb_ℤ c (pos 0)))
  object_rop o left gt_op right inplace =
      comparison o compare_mm right inplace (λ r. boolean (truth (ltb_ℤ (int_v r) (pos 0))))
  object_rop o left ge_op right inplace =
      comparison o compare_mm right inplace (λ r. boolean (truth (not (ltb_ℤ (pos 0) (int_v r)))))
  object_rop o left lt_op right inplace =
      comparison o compare_mm right inplace (λ r. boolean (truth (ltb_ℤ (pos 0) (int_v r))))
  object_rop o left le_op right inplace =
      comparison o compare_mm right inplace (λ r. boolean (truth (not (ltb_ℤ (int_v r) (pos 0)))))
  object_rop o left in_op right inplace = if inplace then exception xcantinplace else op_in o right
  object_rop o left binop right inplace =
      if arithmetic binop
      then call o (arith_mm binop true inplace) right (λ r. r)
      else exception xnotimplemented

  -- `eel__op_fallback`
  unfoldable pub op_fallback : Value → Operator → Value → Answer
  unfolding object_op object_rop
  op_fallback left binop right = elim (referent left) [
    | some o ↦ object_op o left binop right false
    | none ↦ elim (referent right) [
      | some o ↦ object_rop o right binop left false
      | none ↦ exception xnotimplemented
    ]
  ]
