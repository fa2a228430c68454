-- ===== src/Value.antt =====
-- The values that the language computes with: `EEL_value` of include/EEL_value.h, the copying of
-- values in src/core/e_object.h, and the hash codes of src/core/e_util.h.
pub mod Copy
use Prim.Native.Nat.{bit_xor}
use eel.Prelude.{
  ℕ, ◌+◌, ◌-◌, ◌*◌, ◌/◌, ◌%◌, ◌^◌, Bool, true, false, Option, none, some, List, [], ◌∷◌, ◌==◌,
  if◌then◌else◌,
}
use eel.Prelude.Int.{ℤ, pos, negsuc}

-- An object is known by its address. A real is its 64-bit pattern, beside the four bytes between
-- the class ID and the number, which the language never sets but the hash code reads. A weak
-- reference is wired once its target knows of it. EEL_CILLEGAL is no value.
pub data Value : Type 0 where
  nil : Value
  real : ℕ → ℕ → Value
  integer : ℤ → Value
  boolean : ℤ → Value
  class_id : ℤ → Value
  obj_ref : ℕ → Value
  weak_ref : Bool → ℕ → Value

-- The calls on the object layer that an operation makes, in order: `eel_o_own`,
-- `eel_o_disown_nz`, `eel_weakref_attach` and `eel__weakref_detach`.
pub data Effect : Type 0 where
  own disown attach detach : ℕ → Effect

-- EEL_IS_OBJREF, with the object that is referred to.
unfoldable pub referent : Value → Option ℕ
referent (obj_ref o) = some o
referent (weak_ref w o) = some o
referent v = none

-- `eel_v_copy`: a wired weak reference becomes a strong one, an unwired one is attached.
unfoldable pub v_copy : Value → Value × List Effect
v_copy (obj_ref o) = (obj_ref o, own o ∷ [])
v_copy (weak_ref false o) = (weak_ref true o, attach o ∷ [])
v_copy (weak_ref true o) = (obj_ref o, own o ∷ [])
v_copy v = (v, [])

-- `eel_v_clone`: every weak reference becomes a new, wired one.
unfoldable pub v_clone : Value → Value × List Effect
v_clone (obj_ref o) = (obj_ref o, own o ∷ [])
v_clone (weak_ref w o) = (weak_ref true o, attach o ∷ [])
v_clone v = (v, [])

-- `eel_v_qcopy`: a copy without ownership; weak references read as strong ones.
unfoldable pub v_qcopy : Value → Value
v_qcopy (weak_ref w o) = obj_ref o
v_qcopy v = v

-- `eel_v_disown_nz`
unfoldable pub v_disown : Value → List Effect
v_disown (obj_ref o) = disown o ∷ []
v_disown (weak_ref w o) = detach o ∷ []
v_disown v = []

abbrev pub word : ℕ
word = 2 ^ 32

-- The bit pattern of an `int`.
unfoldable pub to_word : ℤ → ℕ
to_word (pos n) = n % word
to_word (negsuc n) = (word - 1) - n % word

abbrev pub hash_seed : ℕ
hash_seed = 1315423911

-- One round of the hash of a byte string, or of the words of an address.
unfoldable pub hash_round : ℕ → ℕ → ℕ
hash_round hash x = bit_xor hash ((hash * 32 % word + x + hash / 4) % word)

-- What the table and the operators ask of the objects and of the floating point unit: an object's
-- class is a string or not, a string's stored hash code, the COMPARE metamethod of an object
-- (`none` is an exception), and `==` on doubles.
pub record World : Type 0 where
  pub is_string : ℕ → Bool
  pub string_hash : ℕ → ℕ
  pub compare_mm : ℕ → Value → Option ℤ
  pub real_eq : ℕ → ℕ → Bool

-- The pointer itself, low word first.
unfoldable pub object_hash : World → ℕ → ℕ
unfolding hash_round
object_hash w o =
    if w.is_string o
    then w.string_hash o
    else hash_round (hash_round hash_seed (o % word)) (o / word % word)

-- `eel_v2hash`. For a real it reads the two words at `&v->real`, which are the class ID (1) and
-- the padding.
unfoldable pub v2hash : World → Value → ℕ
unfolding object_hash to_word
v2hash w nil = hash_seed
v2hash w (real pad bits) = bit_xor hash_seed (42422421131 + bit_xor 1 pad) % word
v2hash w (integer n) = bit_xor (hash_seed * 4 % word) (to_word n)
v2hash w (boolean n) = bit_xor (hash_seed * 8 % word) (to_word n)
v2hash w (class_id n) = bit_xor (hash_seed * 16 % word) (to_word n)
v2hash w (obj_ref o) = object_hash w o
v2hash w (weak_ref wired o) = object_hash w o
