-- ===== src/Dstring/Examples.antt =====
-- A string of three bytes in a buffer of four.
use eel.Prelude.{◌+◌, ◌-◌, ◌≡◌, refl, true, arith, ◌==◌, leb, ltb, ◌&&◌, if◌then◌else◌}
use eel.Exceptions.{ok}
use eel.Dstring.{Dstring, Bytes, Memory, insert_at, delete_range, write_bytes}
use eel.Dstring.Laws.{IsValid, Holds, write_bytes-Holds}
use eel.Dstring.Edits.{delete_range-insert_at}

abbrev memory : Memory
memory = record { grants = λ n. true; junk = λ j. 7 }

abbrev three : Dstring
three = record { buffer = λ j. if j == 3 then 0 else 65 + j; length = 3; maxlength = 4 }

abbrev two_bytes : Bytes
two_bytes = record { at = λ j. 97 + j; count = 2 }

three-IsValid : IsValid three
three-IsValid = (omega arith, refl)

delete_range-insert_at_example :
    (d : Dstring) × (insert_at memory three 1 two_bytes ≡ ok d)
    × Holds (delete_range memory d 1 2) 3 three.buffer
delete_range-insert_at_example =
    delete_range-insert_at memory three 1 two_bytes (λ n. refl) three-IsValid (omega arith)
      (omega arith)

write_bytes-Holds_example :
    (d : Dstring) × (write_bytes memory three 5 two_bytes ≡ ok d)
    × Holds d 7 (λ j.
      if leb 5 j && ltb j 7 then two_bytes.at (j - 5) else (if ltb j 3 then three.buffer j else 0))
write_bytes-Holds_example = write_bytes-Holds memory three 5 two_bytes (λ n. refl) three-IsValid
