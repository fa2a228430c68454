-- ===== src/Operate/Compare/Laws.antt =====
-- The comparisons of values as an order, and the selectors.
use eel.Prelude.{
  ℕ, ◌≡◌, ◌⊎◌, refl, sym, Bool, true, false, not, none, arith, ◌∙◌, ap, Bool-cases, inl, inr,
}
use eel.Prelude.Int.{ℤ, pos, ltb_ℤ}
use eel.Exceptions.{ok}
use eel.Value.{Value, boolean, referent, v_copy}
use eel.Operate.{
  Machine, answer, truth, Kind, k_nil, k_real, k_integer, k_boolean, k_class_id, kind, classid,
  int_v, real_v,
}
use eel.Operate.Compare.{gt_as, ge_as, negate, op_gt, op_ge, op_lt, op_le, op_max, op_min}
use eel.Operate.Logic.Laws.{mk2types-plain}

not-not : (b : Bool) → not (not b) ≡ b
not-not true = refl
not-not false = refl

int_strict : (a b : ℤ) → ltb_ℤ b a ≡ true → not (ltb_ℤ a b) ≡ true
int_strict a b h = ground arith

larger :
    (m : Machine) (l r : Value)
    → referent l ≡ none
    → referent r ≡ none
    → ge_as m (kind (classid l)) (kind (classid r)) l r ≡ true
    → (op_max m l r ≡ ok (v_copy l))
      × (op_min m l r ≡ ok (v_copy r))
      × (op_ge m l r ≡ answer (boolean (pos 1)))
unfolding op_max op_min op_ge answer
larger m l r p q e =
    let t = mk2types-plain l r p q in
    (rw (op_max, op_ge, t, e) refl, rw (op_min, op_ge, t, e) refl, rw (op_ge, t, e) refl)

smaller :
    (m : Machine) (l r : Value)
    → referent l ≡ none
    → referent r ≡ none
    → ge_as m (kind (classid l)) (kind (classid r)) l r ≡ false
    → ge_as m (kind (classid r)) (kind (classid l)) r l ≡ true
    → (op_max m l r ≡ ok (v_copy r))
      × (op_min m l r ≡ ok (v_copy l))
      × (op_ge m r l ≡ answer (boolean (pos 1)))
unfolding op_max op_min op_ge answer
smaller m l r p q e f =
    let t = mk2types-plain l r p q in
    let u = mk2types-plain r l q p in
    (rw (op_max, op_ge, t, e) refl, rw (op_min, op_ge, t, e) refl, rw (op_ge, u, f) refl)

module _ (m : Machine) (total : (a b : ℕ) → m.real_gt a b ≡ not (m.real_ge b a)) where
  gt_as-ge_as : (a b : Kind) (l r : Value) → gt_as m a b l r ≡ not (ge_as m b a r l)
  unfolding gt_as ge_as
  gt_as-ge_as k_nil k_nil l r = refl
  gt_as-ge_as k_nil k_real l r = refl
  gt_as-ge_as k_nil k_integer l r = refl
  gt_as-ge_as k_nil k_boolean l r = refl
  gt_as-ge_as k_nil k_class_id l r = refl
  gt_as-ge_as k_real k_nil l r = refl
  gt_as-ge_as k_real k_real l r = total (real_v m l) (real_v m r)
  gt_as-ge_as k_real k_integer l r = total (real_v m l) (m.of_int (int_v m r))
  gt_as-ge_as k_real k_boolean l r = total (real_v m l) (m.of_int (int_v m r))
  gt_as-ge_as k_real k_class_id l r = total (real_v m l) (m.of_int (int_v m r))
  gt_as-ge_as k_integer k_nil l r = refl
  gt_as-ge_as k_integer k_real l r = total (m.of_int (int_v m l)) (real_v m r)
  gt_as-ge_as k_integer k_integer l r = sym (not-not (ltb_ℤ (int_v m r) (int_v m l)))
  gt_as-ge_as k_integer k_boolean l r = sym (not-not (ltb_ℤ (int_v m r) (int_v m l)))
  gt_as-ge_as k_integer k_class_id l r = sym (not-not (ltb_ℤ (int_v m r) (int_v m l)))
  gt_as-ge_as k_boolean k_nil l r = refl
  gt_as-ge_as k_boolean k_real l r = total (m.of_int (int_v m l)) (real_v m r)
  gt_as-ge_as k_boolean k_integer l r = sym (not-not (ltb_ℤ (int_v m r) (int_v m l)))
  gt_as-ge_as k_boolean k_boolean l r = sym (not-not (ltb_ℤ (int_v m r) (int_v m l)))
  gt_as-ge_as k_boolean k_class_id l r = sym (not-not (ltb_ℤ (int_v m r) (int_v m l)))
  gt_as-ge_as k_class_id k_nil l r = refl
  gt_as-ge_as k_class_id k_real l r = total (m.of_int (int_v m l)) (real_v m r)
  gt_as-ge_as k_class_id k_integer l r = sym (not-not (ltb_ℤ (int_v m r) (int_v m l)))
  gt_as-ge_as k_class_id k_boolean l r = sym (not-not (ltb_ℤ (int_v m r) (int_v m l)))
  gt_as-ge_as k_class_id k_class_id l r = sym (not-not (ltb_ℤ (int_v m r) (int_v m l)))

  negate-truth :
      (b : Bool) → negate m (answer (boolean (truth b))) ≡ answer (boolean (truth (not b)))
  unfolding negate answer
  negate-truth true = refl
  negate-truth false = refl

  -- Where the machine's > on doubles is the negation of its >= the other way round, as it is without
  -- NaN, `<` on two values that are no references is `>` with the operands exchanged, and `<=` is
  -- `>=` with the operands exchanged.
  pub op_lt-op_gt :
      (l r : Value)
      → referent l ≡ none
      → referent r ≡ none
      → (op_lt m l r ≡ op_gt m r l) × (op_le m l r ≡ op_ge m r l)
  unfolding op_lt op_gt op_le
  op_lt-op_gt l r p q =
      let t = mk2types-plain l r p q in
      let u = mk2types-plain r l q p in
      let a = kind (classid l) in
      let b = kind (classid r) in
      (
        rw (op_lt, op_ge, op_gt, t, u, negate-truth (ge_as m a b l r), gt_as-ge_as b a r l) refl,
        rw
            (
              op_le,
              op_ge,
              op_gt,
              t,
              u,
              negate-truth (gt_as m a b l r),
              gt_as-ge_as a b l r,
              not-not (ge_as m b a r l),
            )
            refl,
      )

  module _ (strict : (a b : ℕ) → m.real_gt a b ≡ true → m.real_ge a b ≡ true) where
    gt_as→ge_as : (a b : Kind) (l r : Value) → gt_as m a b l r ≡ true → ge_as m a b l r ≡ true
    unfolding gt_as ge_as
    gt_as→ge_as k_nil k_nil l r h = refl
    gt_as→ge_as k_nil k_real l r h = ground arith
    gt_as→ge_as k_nil k_integer l r h = ground arith
    gt_as→ge_as k_nil k_boolean l r h = ground arith
    gt_as→ge_as k_nil k_class_id l r h = ground arith
    gt_as→ge_as k_real k_nil l r h = refl
    gt_as→ge_as k_real k_real l r h = strict (real_v m l) (real_v m r) h
    gt_as→ge_as k_real k_integer l r h = strict (real_v m l) (m.of_int (int_v m r)) h
    gt_as→ge_as k_real k_boolean l r h = strict (real_v m l) (m.of_int (int_v m r)) h
    gt_as→ge_as k_real k_class_id l r h = strict (real_v m l) (m.of_int (int_v m r)) h
    gt_as→ge_as k_integer k_nil l r h = refl
    gt_as→ge_as k_integer k_real l r h = strict (m.of_int (int_v m l)) (real_v m r) h
    gt_as→ge_as k_integer k_integer l r h = int_strict (int_v m l) (int_v m r) h
    gt_as→ge_as k_integer k_boolean l r h = int_strict (int_v m l) (int_v m r) h
    gt_as→ge_as k_integer k_class_id l r h = int_strict (int_v m l) (int_v m r) h
    gt_as→ge_as k_boolean k_nil l r h = refl
    gt_as→ge_as k_boolean k_real l r h = strict (m.of_int (int_v m l)) (real_v m r) h
    gt_as→ge_as k_boolean k_integer l r h = int_strict (int_v m l) (int_v m r) h
    gt_as→ge_as k_boolean k_boolean l r h = int_strict (int_v m l) (int_v m r) h
    gt_as→ge_as k_boolean k_class_id l r h = int_strict (int_v m l) (int_v m r) h
    gt_as→ge_as k_class_id k_nil l r h = refl
    gt_as→ge_as k_class_id k_real l r h = strict (m.of_int (int_v m l)) (real_v m r) h
    gt_as→ge_as k_class_id k_integer l r h = int_strict (int_v m l) (int_v m r) h
    gt_as→ge_as k_class_id k_boolean l r h = int_strict (int_v m l) (int_v m r) h
    gt_as→ge_as k_class_id k_class_id l r h = int_strict (int_v m l) (int_v m r) h

    -- Where besides > on doubles implies >=, the maximum and the minimum of two values that are no
    -- references are copies of the two values, in one order or the other, and `>=` holds of the
    -- maximum and the minimum.
    pub op_max-op_min :
        (l r : Value)
        → referent l ≡ none
        → referent r ≡ none
        → (a : Value) × (b : Value) × (((a ≡ l) × (b ≡ r)) ⊎ ((a ≡ r) × (b ≡ l)))
          × (op_max m l r ≡ ok (v_copy a))
          × (op_min m l r ≡ ok (v_copy b))
          × (op_ge m a b ≡ answer (boolean (pos 1)))
    op_max-op_min l r p q = elim (Bool-cases (ge_as m (kind (classid l)) (kind (classid r)) l r)) [
      | inl ge ↦ let x = larger m l r p q ge in (l, r, inl (refl, refl), x.0, x.1, x.2)
      | inr lt ↦
          let gt = gt_as-ge_as (kind (classid r)) (kind (classid l)) r l ∙ ap not lt in
          let x = smaller m l r p q lt (gt_as→ge_as (kind (classid r)) (kind (classid l)) r l gt) in
          (r, l, inr (refl, refl), x.0, x.1, x.2)
    ]
