-- ===== src/Operate/Logic/Laws.antt =====
-- What the boolean operators compute, and which case of a binary operator is chosen.
use eel.Prelude.{
  ℕ, zero, suc, ◌+◌, ◌*◌, ◌/◌, ◌%◌, ltb, ◌<◌, ◌≡◌, ◌≢◌, refl, true, ◌&&◌, ◌||◌, none, some, arith,
}
use eel.Prelude.Int.{pos, negsuc}
use eel.Value.{Value, nil, real, integer, boolean, class_id, obj_ref, weak_ref, referent}
use eel.Operate.{Machine, answer, truth, nonzero, kind, classid, mk2types, int_v, real_v, test_nz}
use eel.Operate.Compare.{op_eq}
use eel.Operate.Logic.{differ, truth_as, op_and, op_or, op_xor}

-- A value that is no reference to an object, and is no class ID 0.
abbrev pub IsPlain : Value → Type 0
IsPlain v = (referent v ≡ none) × (v ≢ class_id (pos 0))

classid_small : (v : Value) → referent v ≡ none → classid v < 5
unfolding classid referent
classid_small nil p = omega arith
classid_small (real pad bits) p = omega arith
classid_small (integer n) p = omega arith
classid_small (boolean n) p = omega arith
classid_small (class_id n) p = omega arith
classid_small (obj_ref o) p = ground arith
classid_small (weak_ref w o) p = ground arith

pub mk2types-plain :
    (l r : Value)
    → referent l ≡ none
    → referent r ≡ none
    → mk2types l r ≡ some (kind (classid l), kind (classid r))
unfolding mk2types
mk2types-plain l r p q =
    let a = classid_small l p in
    let b = classid_small r q in
    let below : ltb (classid l * 5 + classid r) 25 ≡ true = ground arith in
    let first : (classid l * 5 + classid r) / 5 ≡ classid l = omega arith in
    let second : (classid l * 5 + classid r) % 5 ≡ classid r = omega arith in
    rw (below, first, second) refl

module _ (m : Machine) where
  truth_as-test_nz : (v : Value) → IsPlain v → truth_as m (kind (classid v)) v ≡ test_nz m v
  unfolding truth_as test_nz referent classid kind int_v real_v nonzero
  truth_as-test_nz nil p = refl
  truth_as-test_nz (real pad bits) p = refl
  truth_as-test_nz (integer n) p = refl
  truth_as-test_nz (boolean n) p = refl
  truth_as-test_nz (class_id (pos zero)) p = absurd (p.1 refl)
  truth_as-test_nz (class_id (pos (suc n))) p = refl
  truth_as-test_nz (class_id (negsuc n)) p = refl
  truth_as-test_nz (obj_ref o) p = ground arith
  truth_as-test_nz (weak_ref w o) p = ground arith

  -- On two values that are no references to objects, and no class ID 0, the operators `and`, `or` and
  -- `xor` give the boolean of the connective on what `eel_test_nz` says of each.
  pub op_and-test_nz :
      (l r : Value)
      → IsPlain l
      → IsPlain r
      → (op_and m l r ≡ answer (boolean (truth (test_nz m l && test_nz m r))))
        × (op_or m l r ≡ answer (boolean (truth (test_nz m l || test_nz m r))))
        × (op_xor m l r ≡ answer (boolean (truth (differ (test_nz m l) (test_nz m r)))))
  unfolding op_and op_or op_xor
  op_and-test_nz l r p q =
      let t = mk2types-plain l r p.0 q.0 in
      let a = truth_as-test_nz l p in
      let b = truth_as-test_nz r q in
      (rw (op_and, t, a, b) refl, rw (op_or, t, a, b) refl, rw (op_xor, t, a, b) refl)

mk2types_object_left : (o : ℕ) (v : Value) → mk2types (obj_ref o) v ≡ none
unfolding mk2types classid
mk2types_object_left o v = ground arith

-- With an object on the left `and` is true for every right operand, also for nil, and `xor` gives
-- what `==` gives.
pub op_and-object :
    (m : Machine) (o : ℕ) (v : Value)
    → (op_and m (obj_ref o) v ≡ answer (boolean (pos 1)))
      × (op_xor m (obj_ref o) v ≡ op_eq m (obj_ref o) v)
unfolding op_and answer referent op_xor op_eq
op_and-object m o v =
    let t = mk2types_object_left o v in (rw (op_and, t) refl, rw (op_xor, op_eq, t) refl)
