-- ===== src/Sfifo/Examples.antt =====
-- A FIFO of four bytes, written and read round its end, and the theorems at it.
use eel.Prelude.{
  ℕ, ◌*◌, ◌^◌, ◌≤◌, ◌<◌, ◌≡◌, ◌⊎◌, refl, Bool, true, some, List, [], ◌∷◌, ◌++◌, length, min, take,
  replicate, arith,
}
use eel.Sfifo.{Fifo, opened, init, used, space, read, write}
use eel.Sfifo.Init.{init_opens}
use eel.Sfifo.Inv.{IsValid}
use eel.Sfifo.Refine.{contents, write-contents}
use eel.Sfifo.Read.{read-contents}

abbrev bytes : List ℕ
bytes = 1 ∷ (2 ∷ (3 ∷ (4 ∷ [])))

-- Two bytes are used, the last of the storage and the first.
abbrev wrapped : Fifo
wrapped = record { buffer = some bytes; size = 4; readpos = 3; writepos = 1 }

wrapped-IsValid : IsValid wrapped bytes
wrapped-IsValid =
    (refl, refl, omega arith, omega arith, (2 ^ 30, omega arith), omega arith, omega arith)

abbrev memory : ℕ → Bool
memory n = true

-- Two bytes are offered to a FIFO with a place for one.
write_run :
    write wrapped (9 ∷ (8 ∷ []))
    ≡ (some 1, record wrapped { buffer = some (1 ∷ (9 ∷ (3 ∷ (4 ∷ [])))); writepos = 2 })
unfolding write space used
write_run = refl

read_run : read wrapped 7 ≡ (some (4 ∷ (1 ∷ [])), record wrapped { readpos = 1 })
unfolding read used
read_run = refl

init_opens_example :
    (i : ℕ) × (i ≤ 30)
    × (init memory 0 5
        ≡ opened (record {
          buffer = some (replicate (2 ^ i) 0);
          size = 2 ^ i;
          readpos = 0;
          writepos = 0;
        }))
    × (5 < 2 ^ i)
    × ((i ≡ 0) ⊎ (2 ^ i ≤ 2 * 5))
init_opens_example = init_opens memory 0 5 (omega arith) (λ n. refl)

write-contents_example :
    (f' : Fifo) × (bytes' : List ℕ) × (write wrapped (9 ∷ (8 ∷ []))
      ≡ (some (min (space wrapped) 2), f'))
    × IsValid f' bytes'
    × (contents f' ≡ contents wrapped ++ take (min (space wrapped) 2) (9 ∷ (8 ∷ [])))
write-contents_example = write-contents wrapped bytes (9 ∷ (8 ∷ [])) wrapped-IsValid

read-contents_example :
    (out : List ℕ) × (f' : Fifo) × (read wrapped 7 ≡ (some out, f'))
    × (length out ≡ min (used wrapped) 7)
    × IsValid f' bytes
    × (contents wrapped ≡ out ++ contents f')
read-contents_example = read-contents wrapped bytes 7 wrapped-IsValid
