-- ===== src/Array/Examples.antt =====
-- Arrays run on concrete indexes, and the theorems at them.
use eel.Prelude.{ℕ, ◌≡◌, refl, Bool, true, some, arith, [], ◌∷◌}
use eel.Prelude.Int.{ℤ, pos}
use eel.Exceptions.{ok}
use eel.Resize.{grow, calcresize}
use eel.Shift.{shift_up}
use eel.Value.{Value, nil, integer, obj_ref, own, v_copy, v_disown}
use eel.Array.{Array, setsize, index_of, set_index, insert}
use eel.Array.Delete.{delete}
use eel.Array.Delete.Range.{Deletes, delete-Deletes}

abbrev memory : ℕ → Bool
memory n = true

-- No real count is used.
abbrev nowhere : ℤ → ℕ → ℤ
nowhere i bits = i

abbrev address : Value → ℕ
address (obj_ref o) = o
address v = 0

abbrev small : Array
small = record { values = integer (pos 5) ∷ (obj_ref 7 ∷ []); maxlength = 8 }

abbrev grown : Array
grown = record { values = integer (pos 5) ∷ (obj_ref 7 ∷ (nil ∷ (obj_ref 9 ∷ []))); maxlength = 8 }

abbrev wider : Array
wider = record { values = integer (pos 5) ∷ (obj_ref 9 ∷ (obj_ref 7 ∷ [])); maxlength = 8 }

-- Writing two places behind the end.
set-three : set_index memory small 3 (obj_ref 9) ≡ (ok grown, own 9 ∷ [])
unfolding set_index setsize calcresize grow v_copy v_disown
set-three = refl

insert-one : insert pos memory small (integer (pos 1)) (obj_ref 9) ≡ some (ok wider, own 9 ∷ [])
unfolding insert index_of setsize calcresize grow shift_up v_copy
insert-one = refl

-- Two of the values of `grown`, from the second on.
delete-Deletes_example :
    Deletes grown 1 2
      (delete address pos nowhere memory grown (some (integer (pos 1))) (some (integer (pos 2))))
delete-Deletes_example =
    delete-Deletes address pos nowhere memory grown 1 1 (omega arith) (omega arith)
