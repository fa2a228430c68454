-- ===== src/Operate/Bits.antt =====
-- The bit operators, `eel_op_band` to `eel_op_brev` of src/core/e_operate.h.
use Prim.Native.Nat.{bit_and, bit_or, bit_xor}
use eel.Prelude.{
  ℕ, ◌-◌, ◌*◌, ◌/◌, ◌%◌, ◌^◌, Bool, not, ◌&&◌, ◌||◌, Option, none, some, ltb, if◌then◌else◌,
}
use eel.Prelude.Int.{ℤ, pos, negsuc, ltb_ℤ}
use eel.Exceptions.{exception, xhighvalue, xlowvalue}
use eel.Value.{Value, integer, boolean, to_word, word}
use eel.Operate.{
  Machine, Answer, answer, truth, nonzero, Kind, k_real, k_integer, k_boolean, band_op, bor_op,
  bxor_op, shl_op, shr_op, rol_op, ror_op, brev_op, mk2types, int_v, real_v, set_int_v, op_fallback,
}
use eel.Operate.Words.{neg, of_word}

-- The cases that &, | and ^ share: a boolean beside an integer counts as 0 or -1.
unfoldable pub bitwise : (ℕ → ℕ → ℕ) → (Bool → Bool → Bool) → Kind → Kind → ℤ → ℤ → Option Value
unfolding to_word of_word neg truth nonzero
bitwise f g k_integer k_integer a b = some (integer (of_word (f (to_word a) (to_word b))))
bitwise f g k_integer k_boolean a b = some (integer (of_word (f (to_word a) (to_word (neg b)))))
bitwise f g k_boolean k_integer a b = some (integer (of_word (f (to_word (neg a)) (to_word b))))
bitwise f g k_boolean k_boolean a b = some (boolean (truth (g (nonzero a) (nonzero b))))
bitwise f g k l a b = none

module _ (m : Machine) where
  unfoldable pub op_band : Value → Value → Answer
  unfolding answer op_fallback mk2types int_v bitwise
  op_band left right = elim (mk2types left right) [
    | none ↦ op_fallback m left band_op right
    | some (a, b) ↦ elim (bitwise bit_and (λ x y. x && y) a b (int_v m left) (int_v m right)) [
      | some v ↦ answer v
      | none ↦ op_fallback m left band_op right
    ]
  ]

  unfoldable pub op_bor : Value → Value → Answer
  unfolding answer op_fallback mk2types int_v bitwise
  op_bor left right = elim (mk2types left right) [
    | none ↦ op_fallback m left bor_op right
    | some (a, b) ↦ elim (bitwise bit_or (λ x y. x || y) a b (int_v m left) (int_v m right)) [
      | some v ↦ answer v
      | none ↦ op_fallback m left bor_op right
    ]
  ]

  -- v << n of an `int`
  unfoldable pub shl : ℤ → ℤ → ℤ
  unfolding of_word to_word
  shl v n =
      if not (ltb_ℤ n (pos 0)) && ltb_ℤ n (pos 32)
      then of_word (to_word v * 2 ^ to_word n % word)
      else m.bad_shl v n

  -- v >> n of an `int`, which keeps the sign.
  unfoldable pub shr : ℤ → ℤ → ℤ
  unfolding to_word
  shr v n =
      if not (ltb_ℤ n (pos 0)) && ltb_ℤ n (pos 32)
      then elim v [ pos a ↦ pos (a / 2 ^ to_word n) | negsuc a ↦ negsuc (a / 2 ^ to_word n) ]
      else m.bad_shr v n

  -- The cases of a shift. A real that is shifted by an integer leaves the type in `*result` as it
  -- was: `old` is what `*result` held before.
  unfoldable pub shift_as : (ℤ → ℤ → ℤ) → Value → Kind → Kind → Value → Value → Option Value
  unfolding int_v real_v set_int_v
  shift_as f old k_real k_integer left right =
      some (set_int_v m old (f (m.trunc (real_v m left)) (int_v m right)))
  shift_as f old k_real k_boolean left right =
      some (set_int_v m old (f (m.trunc (real_v m left)) (int_v m right)))
  shift_as f old k_integer k_real left right =
      some (integer (f (int_v m left) (m.trunc (real_v m right))))
  shift_as f old k_boolean k_real left right =
      some (integer (f (int_v m left) (m.trunc (real_v m right))))
  shift_as f old k_real k_real left right =
      some (integer (f (m.trunc (real_v m left)) (m.trunc (real_v m right))))
  shift_as f old k_integer k_integer left right = some (integer (f (int_v m left) (int_v m right)))
  shift_as f old k_integer k_boolean left right = some (integer (f (int_v m left) (int_v m right)))
  shift_as f old k_boolean k_integer left right = some (integer (f (int_v m left) (int_v m right)))
  shift_as f old a b left right = none

  unfoldable pub op_shl : Value → Value → Value → Answer
  unfolding answer op_fallback mk2types shift_as shl
  op_shl old left right = elim (mk2types left right) [
    | none ↦ op_fallback m left shl_op right
    | some (a, b) ↦ elim (shift_as shl old a b left right) [
      | some v ↦ answer v
      | none ↦ op_fallback m left shl_op right
    ]
  ]

  unfoldable pub op_shr : Value → Value → Value → Answer
  unfolding answer op_fallback mk2types shift_as shr
  op_shr old left right = elim (mk2types left right) [
    | none ↦ op_fallback m left shr_op right
    | some (a, b) ↦ elim (shift_as shr old a b left right) [
      | some v ↦ answer v
      | none ↦ op_fallback m left shr_op right
    ]
  ]

  -- v << n and v >> n of an `unsigned int`, for n up to 32.
  unfoldable pub ushl : ℕ → ℕ → ℕ
  ushl v n = if ltb n 32 then v * 2 ^ n % word else m.bad_shift v

  unfoldable pub ushr : ℕ → ℕ → ℕ
  ushr v n = if ltb n 32 then v / 2 ^ n else m.bad_shift v

  -- (v << sh) | (v >> (32 - sh)), where sh = n & 31.
  unfoldable pub rotate_left : ℤ → ℤ → ℤ
  unfolding of_word to_word ushl ushr
  rotate_left v n =
      of_word (bit_or (ushl (to_word v) (to_word n % 32)) (ushr (to_word v) (32 - to_word n % 32)))

  unfoldable pub rotate_right : ℤ → ℤ → ℤ
  unfolding of_word to_word ushl ushr
  rotate_right v n =
      of_word (bit_or (ushr (to_word v) (to_word n % 32)) (ushl (to_word v) (32 - to_word n % 32)))

  unfoldable pub rotate_as : (ℤ → ℤ → ℤ) → Kind → Kind → ℤ → ℤ → Option Value
  rotate_as f k_integer k_integer a b = some (integer (f a b))
  rotate_as f k_integer k_boolean a b = some (integer (f a b))
  rotate_as f k_boolean k_integer a b = some (integer (f a b))
  rotate_as f k l a b = none

  unfoldable pub op_rol : Value → Value → Answer
  unfolding answer op_fallback mk2types int_v rotate_as rotate_left
  op_rol left right = elim (mk2types left right) [
    | none ↦ op_fallback m left rol_op right
    | some (a, b) ↦ elim (rotate_as rotate_left a b (int_v m left) (int_v m right)) [
      | some v ↦ answer v
      | none ↦ op_fallback m left rol_op right
    ]
  ]

  unfoldable pub op_ror : Value → Value → Answer
  unfolding answer op_fallback mk2types int_v rotate_as rotate_right
  op_ror left right = elim (mk2types left right) [
    | none ↦ op_fallback m left ror_op right
    | some (a, b) ↦ elim (rotate_as rotate_right a b (int_v m left) (int_v m right)) [
      | some v ↦ answer v
      | none ↦ op_fallback m left ror_op right
    ]
  ]

  unfoldable pub op_bxor : Value → Value → Answer
  unfolding answer op_fallback mk2types int_v bitwise
  op_bxor left right = elim (mk2types left right) [
    | none ↦ op_fallback m left bxor_op right
    | some (k_boolean, k_boolean) ↦
        answer (boolean (of_word (bit_xor (to_word (int_v m left)) (to_word (int_v m right)))))
    | some (a, b) ↦ elim (bitwise bit_xor (λ x y. x) a b (int_v m left) (int_v m right)) [
      | some v ↦ answer v
      | none ↦ op_fallback m left bxor_op right
    ]
  ]

  -- Adjacent groups of `n` bits change places: `low` is the mask of the lower group of each pair,
  -- `high` that of the upper.
  unfoldable pub swap_groups : ℕ → ℕ → ℕ → ℕ → ℕ
  swap_groups low high n v = bit_or (bit_and v low * 2 ^ n % word) (bit_and v high / 2 ^ n)

  unfoldable pub reverse_word : ℕ → ℕ
  unfolding swap_groups
  reverse_word v = swap_groups 0x55555555 0xaaaaaaaa 1 (
      swap_groups 0x33333333 0xcccccccc 2 (
        swap_groups 0x0f0f0f0f 0xf0f0f0f0 4
          (swap_groups 0x00ff00ff 0xff00ff00 8 (bit_or (v * 2 ^ 16 % word) (v / 2 ^ 16)))))

  unfoldable pub reverse_bits : ℤ → ℤ → Answer
  unfolding answer of_word to_word reverse_word ushr
  reverse_bits v n =
      if ltb_ℤ (pos 32) n
      then exception xhighvalue
      else (if ltb_ℤ n (pos 0)
          then exception xlowvalue
          else answer (integer (of_word (ushr (reverse_word (to_word v)) (32 - to_word n)))))

  unfoldable pub op_brev : Value → Value → Answer
  unfolding op_fallback mk2types int_v reverse_bits
  op_brev left right = elim (mk2types left right) [
    | some (k_integer, k_integer) ↦ reverse_bits (int_v m left) (int_v m right)
    | some (k_boolean, k_integer) ↦ reverse_bits (int_v m left) (int_v m right)
    | other ↦ op_fallback m left brev_op right
  ]
