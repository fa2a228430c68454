-- ===== src/Operate/Arith/Laws.antt =====
-- Division by zero, sums and differences, and an object on the right of a number.
use eel.Prelude.{ℕ, ◌≡◌, ◌↔◌, refl, Bool, true, false, not, none, arith, if◌then◌else◌}
use eel.Prelude.Int.{ℤ, pos}
use eel.Exceptions.{exception, xdivbyzero}
use eel.Value.{Value, nil, real, integer, boolean, class_id, obj_ref, weak_ref, referent}
use eel.Operate.{Machine, answer, nonzero}
use eel.Operate.Arith.{op_power, op_mod, op_div, op_mul, op_sub, op_add}
use eel.Operate.Words.{IsInt, add, sub-add}

module _ (m : Machine) where
  -- nil, and the numbers equal to 0.
  unfoldable pub is_zero : Value → Bool
  is_zero nil = true
  is_zero (real pad bits) = m.real_zero bits
  is_zero (integer n) = not (nonzero n)
  is_zero (boolean n) = not (nonzero n)
  is_zero (class_id n) = not (nonzero n)
  is_zero v = false

  div_lem :
      (l r : Value)
      → referent l ≡ none
      → referent r ≡ none
      → (v : Value) × (op_div m l r ≡ (if is_zero r then exception xdivbyzero else answer v))
  unfolding op_div is_zero referent
  div_lem nil nil p q = (nil, refl)
  div_lem nil (real pad' bits') p q = (_, refl)
  div_lem nil (integer k) p q = (_, refl)
  div_lem nil (boolean k) p q = (_, refl)
  div_lem nil (class_id k) p q = (_, refl)
  div_lem nil (obj_ref o) p q = absurd (ground arith)
  div_lem nil (weak_ref w o) p q = absurd (ground arith)
  div_lem (real pad bits) nil p q = (nil, refl)
  div_lem (real pad bits) (real pad' bits') p q = (_, refl)
  div_lem (real pad bits) (integer k) p q = (_, refl)
  div_lem (real pad bits) (boolean k) p q = (_, refl)
  div_lem (real pad bits) (class_id k) p q = (_, refl)
  div_lem (real pad bits) (obj_ref o) p q = absurd (ground arith)
  div_lem (real pad bits) (weak_ref w o) p q = absurd (ground arith)
  div_lem (integer n) nil p q = (nil, refl)
  div_lem (integer n) (real pad' bits') p q = (_, refl)
  div_lem (integer n) (integer k) p q = (_, refl)
  div_lem (integer n) (boolean k) p q = (_, refl)
  div_lem (integer n) (class_id k) p q = (_, refl)
  div_lem (integer n) (obj_ref o) p q = absurd (ground arith)
  div_lem (integer n) (weak_ref w o) p q = absurd (ground arith)
  div_lem (boolean n) nil p q = (nil, refl)
  div_lem (boolean n) (real pad' bits') p q = (_, refl)
  div_lem (boolean n) (integer k) p q = (_, refl)
  div_lem (boolean n) (boolean k) p q = (_, refl)
  div_lem (boolean n) (class_id k) p q = (_, refl)
  div_lem (boolean n) (obj_ref o) p q = absurd (ground arith)
  div_lem (boolean n) (weak_ref w o) p q = absurd (ground arith)
  div_lem (class_id n) nil p q = (nil, refl)
  div_lem (class_id n) (real pad' bits') p q = (_, refl)
  div_lem (class_id n) (integer k) p q = (_, refl)
  div_lem (class_id n) (boolean k) p q = (_, refl)
  div_lem (class_id n) (class_id k) p q = (_, refl)
  div_lem (class_id n) (obj_ref o) p q = absurd (ground arith)
  div_lem (class_id n) (weak_ref w o) p q = absurd (ground arith)
  div_lem (obj_ref o) r p q = absurd (ground arith)
  div_lem (weak_ref w o) r p q = absurd (ground arith)

  mod_lem :
      (l r : Value)
      → referent l ≡ none
      → referent r ≡ none
      → (v : Value) × (op_mod m l r ≡ (if is_zero r then exception xdivbyzero else answer v))
  unfolding op_mod is_zero referent
  mod_lem nil nil p q = (nil, refl)
  mod_lem nil (real pad' bits') p q = (_, refl)
  mod_lem nil (integer k) p q = (_, refl)
  mod_lem nil (boolean k) p q = (_, refl)
  mod_lem nil (class_id k) p q = (_, refl)
  mod_lem nil (obj_ref o) p q = absurd (ground arith)
  mod_lem nil (weak_ref w o) p q = absurd (ground arith)
  mod_lem (real pad bits) nil p q = (nil, refl)
  mod_lem (real pad bits) (real pad' bits') p q = (_, refl)
  mod_lem (real pad bits) (integer k) p q = (_, refl)
  mod_lem (real pad bits) (boolean k) p q = (_, refl)
  mod_lem (real pad bits) (class_id k) p q = (_, refl)
  mod_lem (real pad bits) (obj_ref o) p q = absurd (ground arith)
  mod_lem (real pad bits) (weak_ref w o) p q = absurd (ground arith)
  mod_lem (integer n) nil p q = (nil, refl)
  mod_lem (integer n) (real pad' bits') p q = (_, refl)
  mod_lem (integer n) (integer k) p q = (_, refl)
  mod_lem (integer n) (boolean k) p q = (_, refl)
  mod_lem (integer n) (class_id k) p q = (_, refl)
  mod_lem (integer n) (obj_ref o) p q = absurd (ground arith)
  mod_lem (integer n) (weak_ref w o) p q = absurd (ground arith)
  mod_lem (boolean n) nil p q = (nil, refl)
  mod_lem (boolean n) (real pad' bits') p q = (_, refl)
  mod_lem (boolean n) (integer k) p q = (_, refl)
  mod_lem (boolean n) (boolean k) p q = (_, refl)
  mod_lem (boolean n) (class_id k) p q = (_, refl)
  mod_lem (boolean n) (obj_ref o) p q = absurd (ground arith)
  mod_lem (boolean n) (weak_ref w o) p q = absurd (ground arith)
  mod_lem (class_id n) nil p q = (nil, refl)
  mod_lem (class_id n) (real pad' bits') p q = (_, refl)
  mod_lem (class_id n) (integer k) p q = (_, refl)
  mod_lem (class_id n) (boolean k) p q = (_, refl)
  mod_lem (class_id n) (class_id k) p q = (_, refl)
  mod_lem (class_id n) (obj_ref o) p q = absurd (ground arith)
  mod_lem (class_id n) (weak_ref w o) p q = absurd (ground arith)
  mod_lem (obj_ref o) r p q = absurd (ground arith)
  mod_lem (weak_ref w o) r p q = absurd (ground arith)

  if_zero :
      (c : Bool) (v : Value)
      → ((if c then exception xdivbyzero else answer v) ≡ exception xdivbyzero) ↔ (c ≡ true)
  unfolding answer
  if_zero true v = (λ _. refl, λ _. refl)
  if_zero false v = (λ e. ground arith, λ e. ground arith)

  -- On two values that are no references, division raises XDIVBYZERO just where the right operand is
  -- nil or equal to 0, and so does the remainder.
  pub op_div-zero :
      (l r : Value)
      → referent l ≡ none
      → referent r ≡ none
      → ((op_div m l r ≡ exception xdivbyzero) ↔ (is_zero r ≡ true))
        × ((op_mod m l r ≡ exception xdivbyzero) ↔ (is_zero r ≡ true))
  op_div-zero l r p q =
      let (v, e) = div_lem l r p q in
      let (u, f) = mod_lem l r p q in (rw e (if_zero (is_zero r) v), rw f (if_zero (is_zero r) u))

  -- Adding a 32-bit integer and any integer gives an integer from which subtracting the second gives
  -- the first back, also where the sum wraps around.
  pub op_sub-op_add :
      (a b : ℤ)
      → IsInt a
      → (c : ℤ) × (op_add m (integer a) (integer b) ≡ answer (integer c))
        × (op_sub m (integer c) (integer b) ≡ answer (integer a))
  unfolding op_add op_sub
  op_sub-op_add a b h = (add a b, refl, rw (sub-add a b h) refl)

  -- nil plus an integer is nil minus the integer, but the integer plus nil is the integer.
  pub op_add-nil :
      (n : ℤ)
      → (op_add m nil (integer n) ≡ op_sub m nil (integer n))
        × (op_add m (integer n) nil ≡ answer (integer n))
  unfolding op_add op_sub
  op_add-nil n = (refl, refl)

  -- With an integer on the left and an object on the right no metamethod is called: +, - give the
  -- integer, * gives nil, / and % raise XDIVBYZERO and ** gives 1.
  pub integer-object_lem :
      (n : ℤ) (o : ℕ)
      → (op_add m (integer n) (obj_ref o) ≡ answer (integer n))
        × (op_sub m (integer n) (obj_ref o) ≡ answer (integer n))
        × (op_mul m (integer n) (obj_ref o) ≡ answer nil)
        × (op_div m (integer n) (obj_ref o) ≡ exception xdivbyzero)
        × (op_mod m (integer n) (obj_ref o) ≡ exception xdivbyzero)
        × (op_power m (integer n) (obj_ref o) ≡ answer (integer (pos 1)))
  unfolding op_add op_sub op_mul op_div op_mod op_power
  integer-object_lem n o = (refl, refl, refl, refl, refl, refl)
