-- ===== src/Table/Find/Keys.antt =====
-- When a stored key matches a key.
use eel.Prelude.{ℕ, ◌≡◌, true, arith}
use eel.Prelude.Int.{ℤ, pos, negsuc}
use eel.Value.{Value, nil, real, integer, boolean, class_id, obj_ref, weak_ref, World, v_copy}
use eel.Table.Find.{key_match}

-- The stored copy of a key matches the key, where the machine calls each double equal to itself.
pub key_match-v_copy :
    (w : World) (key : Value)
    → ((bits : ℕ) → w.real_eq bits bits ≡ true)
    → key_match w (v_copy key).0 key ≡ true
unfolding key_match v_copy
key_match-v_copy w nil r = ground arith
key_match-v_copy w (real pad bits) r = r bits
key_match-v_copy w (integer (pos n)) r = ground arith
key_match-v_copy w (integer (negsuc n)) r = ground arith
key_match-v_copy w (boolean (pos n)) r = ground arith
key_match-v_copy w (boolean (negsuc n)) r = ground arith
key_match-v_copy w (class_id (pos n)) r = ground arith
key_match-v_copy w (class_id (negsuc n)) r = ground arith
key_match-v_copy w (obj_ref o) r = ground arith
key_match-v_copy w (weak_ref wired o) r = ground arith

-- Only the same integer matches an integer.
pub integer_match :
    (w : World) (stored : Value) (n : ℤ)
    → key_match w stored (integer n) ≡ true
    → stored ≡ integer n
unfolding key_match
integer_match w stored n e = ground arith
