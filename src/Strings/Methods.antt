-- ===== src/Strings/Methods.antt =====
-- Methods that strings and dynamic strings share: s_getindex, s_in, s_length, s_compare and s_eq of
-- src/core/e_string.c with their likes in src/core/e_dstring.c, and eel_s_char_in of e_string.h.
use eel.Prelude.{
  ℕ, suc, ◌-◌, ◌%◌, ◌≡◌, ◌↔◌, ap, inl, inr, Bool-cases, Bool, true, false, not, ◌&&◌, Option, none,
  some, List, [], ◌∷◌, arith, ltb, ◌==◌, if◌then◌else◌, length, get_or,
}
use eel.Prelude.Int.{ℤ, pos, negsuc}
use eel.Exceptions.{Result, ok, exception, xwrongtype, xlowindex, xhighindex, xnotimplemented}
use eel.Strings.{s_str_in, s_cmp}
use eel.Strings.Search.{s_cmp_lem}

-- A string, or a dynamic string: its address and bytes.
pub record Text : Type 0 where
  pub dynamic : Bool
  pub address : ℕ
  pub bytes : List ℕ

-- An operand: no object, of which the number is taken if it has one, a text, or another object.
pub data Operand : Type 0 where
  plain : Option ℤ → Operand
  text : Text → Operand
  object : Operand

unfoldable pub same_kind : Text → Text → Bool
same_kind a b = if a.dynamic then b.dynamic else not b.dynamic

-- "Same instance!"
unfoldable pub same_instance : Text → Text → Bool
unfolding same_kind
same_instance a b = same_kind a b && a.address == b.address

-- `s_compare` and `ds_compare`
unfoldable pub compare_text : Text → Text → ℤ
unfolding same_instance
compare_text a b =
    if same_instance a b
    then pos 0
    else (if ltb (length b.bytes) (length a.bytes)
        then pos 1
        else (if ltb (length a.bytes) (length b.bytes)
            then negsuc 0
            else s_cmp a.bytes b.bytes (length b.bytes)))

unfoldable pub compare_with : Text → Operand → Result ℤ
unfolding compare_text
compare_with a (plain n) = exception xwrongtype
compare_with a (text b) = ok (compare_text a b)
compare_with a object = exception xnotimplemented

unfoldable pub is_zero : ℤ → Bool
is_zero (pos n) = n == 0
is_zero (negsuc n) = false

-- `s_eq` and `ds_eq`: two of one kind are equal only as the same instance.
unfoldable pub eq_with : Text → Operand → Bool
unfolding same_kind compare_text is_zero
eq_with a (plain n) = false
eq_with a (text b) = if same_kind a b then a.address == b.address else is_zero (compare_text a b)
eq_with a object = false

-- `eel_s_char_in`: the first place of a byte, from place `i` on; `none` is the Boolean false.
unfoldable pub char_in : ℕ → ℕ → List ℕ → Option ℕ
char_in c i [] = none
char_in c i (x ∷ xs) = let rest = char_in c (suc i) xs in if x == c then some i else rest

-- The byte of an `int`, as `memchr` takes it.
unfoldable pub low_byte : ℤ → ℕ
low_byte (pos n) = n % 256
low_byte (negsuc n) = 255 - n % 256

-- `s_in` and `ds_in`; the inner `none` is the Boolean false.
unfoldable pub in_text : Text → Operand → Result (Option ℕ)
unfolding char_in low_byte same_instance
in_text a (plain none) = exception xwrongtype
in_text a (plain (some c)) = ok (char_in (low_byte c) 0 a.bytes)
in_text a (text b) = ok (if same_instance a b then some 0 else s_str_in a.bytes b.bytes)
in_text a object = exception xwrongtype

-- `s_getindex` and `ds_getindex`, by the index once it is an `int`.
unfoldable pub getindex : Text → Option ℤ → Result ℤ
getindex a none = exception xwrongtype
getindex a (some (negsuc n)) = exception xlowindex
getindex a (some (pos i)) =
    if ltb i (length a.bytes) then ok (pos (get_or a.bytes i 0 % 256)) else exception xhighindex

-- What is at one address is one text.
abbrev pub IsOneText : Text → Text → Type 0
IsOneText a b = same_instance a b ≡ true → a.bytes ≡ b.bytes

same_instance_sym : (a b : Text) → same_instance a b ≡ same_instance b a
unfolding same_instance same_kind
same_instance_sym a b = ground arith

-- Comparing gives 0 just for texts with the same bytes, whether strings or dynamic strings, and
-- exchanging the two exchanges the signs, where one address holds one text.
pub compare_text_lem :
    (a b : Text)
    → IsOneText a b
    → ((compare_text a b ≡ pos 0) ↔ (a.bytes ≡ b.bytes))
      × ((compare_text a b ≡ pos 1) ↔ (compare_text b a ≡ negsuc 0))
unfolding compare_text
compare_text_lem a b one = elim (Bool-cases (same_instance a b)) [
  | inl e ↦ ground (arith, e, one e, same_instance_sym a b)
  | inr e ↦ elim (Bool-cases (length a.bytes == length b.bytes)) [
    | inl l ↦
        let q : length a.bytes ≡ length b.bytes = ground (arith, l) in
        ground (
          arith,
          e,
          l,
          q,
          same_instance_sym a b,
          s_cmp_lem a.bytes b.bytes q,
          ap (s_cmp a.bytes b.bytes) q,
          ap (s_cmp b.bytes a.bytes) q,
        )
    | inr l ↦ ground (arith, e, l, same_instance_sym a b, λ (p : a.bytes ≡ b.bytes). ap length p)
  ]
]
