-- ===== src/Operate/Unary.antt =====
-- The unary operators, `eel_op_neg` to `eel_op_bnot` of src/core/e_operate.h, and `eel_unop`.
use eel.Prelude.{◌-◌, not}
use eel.Prelude.Int.{pos}
use eel.Exceptions.{exception, xwrongtype, xnotimplemented}
use eel.Value.{
  Value, nil, real, integer, boolean, class_id, obj_ref, weak_ref, v_qcopy, to_word, word,
}
use eel.Operate.{
  Machine, Answer, answer, truth, nonzero, Operator, neg_op, castr_op, casti_op, castb_op,
  typeof_op, sizeof_op, clone_op, not_op, bnot_op, call, length_mm,
}
use eel.Operate.Words.{neg, of_word}

module _ (m : Machine) where
  unfoldable pub op_neg : Value → Answer
  unfolding answer neg
  op_neg (real pad bits) = answer (real m.padding (m.real_neg bits))
  op_neg (integer n) = answer (integer (neg n))
  op_neg (boolean n) = answer (integer (neg n))
  op_neg (obj_ref o) = exception xnotimplemented
  op_neg (weak_ref w o) = exception xnotimplemented
  op_neg v = exception xwrongtype

  unfoldable pub op_castr : Value → Answer
  unfolding answer nonzero truth
  op_castr nil = answer (real m.padding (m.of_int (pos 0)))
  op_castr (real pad bits) = answer (real m.padding bits)
  op_castr (integer n) = answer (real m.padding (m.of_int n))
  op_castr (class_id n) = answer (real m.padding (m.of_int n))
  op_castr (boolean n) = answer (real m.padding (m.of_int (truth (nonzero n))))
  op_castr v = m.cast v (pos 1)

  unfoldable pub op_casti : Value → Answer
  unfolding answer
  op_casti nil = answer (integer (pos 0))
  op_casti (real pad bits) = answer (integer (m.floor bits))
  op_casti (integer n) = answer (integer n)
  op_casti (boolean n) = answer (integer n)
  op_casti (class_id n) = answer (integer n)
  op_casti v = m.cast v (pos 2)

  unfoldable pub op_castb : Value → Answer
  unfolding answer nonzero truth
  op_castb nil = answer (boolean (pos 0))
  op_castb (real pad bits) = answer (boolean (truth (not (m.real_zero bits))))
  op_castb (integer n) = answer (boolean (truth (nonzero n)))
  op_castb (class_id n) = answer (boolean (truth (nonzero n)))
  op_castb (boolean n) = answer (boolean n)
  op_castb v = m.cast v (pos 3)

  unfoldable pub op_typeof : Value → Answer
  unfolding answer
  op_typeof nil = answer nil
  op_typeof (real pad bits) = answer (class_id (pos 1))
  op_typeof (integer n) = answer (class_id (pos 2))
  op_typeof (boolean n) = answer (class_id (pos 3))
  op_typeof (class_id n) = answer (class_id (pos 4))
  op_typeof (obj_ref o) = answer (class_id (m.class_of o))
  op_typeof (weak_ref w o) = answer (class_id (m.class_of o))

  unfoldable pub op_sizeof : Value → Answer
  unfolding answer call
  op_sizeof (obj_ref o) = call m o length_mm nil (λ r. r)
  op_sizeof (weak_ref w o) = call m o length_mm nil (λ r. r)
  op_sizeof v = answer (integer (pos 1))

  unfoldable pub op_clone : Value → Answer
  unfolding answer v_qcopy
  op_clone (obj_ref o) = m.cast (obj_ref o) (m.class_of o)
  op_clone (weak_ref w o) = m.cast (weak_ref w o) (m.class_of o)
  op_clone v = answer (v_qcopy v)

  -- The negation of a real is a real, and that of an integer an integer.
  unfoldable pub op_not : Value → Answer
  unfolding answer nonzero truth
  op_not nil = answer (boolean (pos 1))
  op_not (real pad bits) = answer (real m.padding (m.of_int (truth (m.real_zero bits))))
  op_not (integer n) = answer (integer (truth (not (nonzero n))))
  op_not (boolean n) = answer (boolean (truth (not (nonzero n))))
  op_not v = answer (boolean (pos 0))

  unfoldable pub op_bnot : Value → Answer
  unfolding answer of_word to_word
  op_bnot (integer n) = answer (integer (of_word (word - 1 - to_word n)))
  op_bnot v = exception xwrongtype

  unfoldable pub unop : Operator → Value → Answer
  unfolding op_neg op_castr op_casti op_castb op_typeof op_sizeof op_clone op_not op_bnot
  unop neg_op right = op_neg right
  unop castr_op right = op_castr right
  unop casti_op right = op_casti right
  unop castb_op right = op_castb right
  unop typeof_op right = op_typeof right
  unop sizeof_op right = op_sizeof right
  unop clone_op right = op_clone right
  unop not_op right = op_not right
  unop bnot_op right = op_bnot right
  unop op right = exception xnotimplemented
