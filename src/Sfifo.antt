-- ===== src/Sfifo.antt =====
-- The lock-free byte FIFO, src/eelium/sfifo.c and sfifo.h, with one reader and one writer: between
-- two calls the positions are those that the calls left. The functions for the kernel and the
-- spinning ones, which wait for the other side, are left out.
pub mod Init
pub mod Window
pub mod Inv
pub mod Store
pub mod Refine
pub mod Read
mod Examples
use eel.Prelude.{
  ℕ, zero, suc, ◌+◌, ◌-◌, ◌*◌, ◌%◌, ◌^◌, Bool, Option, none, some, List, [], ◌++◌, ◌||◌, leb, ltb,
  if◌then◌else◌, length, take, drop, replicate, min,
}

-- `buffer` is `none` where the pointer is null.
pub record Fifo : Type 0 where
  pub buffer : Option (List ℕ)
  pub size : ℕ
  pub readpos : ℕ
  pub writepos : ℕ

-- for(f->size = 1; f->size <= size; f->size <<= 1): `f->size` is an `int`, kept as its bit pattern,
-- where a pattern from 2 ^ 31 on is a negative number. `none` means that the fuel ran out.
pub sizing : ℕ → ℕ → ℕ → Option ℕ
sizing zero size s = none
sizing (suc fuel) size s =
    let rest = sizing fuel size (s * 2 % 2 ^ 32) in
    if leb (2 ^ 31) s || leb s size then rest else some s

pub data InitError : Type 0 where
  einval enomem hangs : InitError

pub data InitResult : Type 0 where
  failed : InitError → InitResult
  opened : Fifo → InitResult

-- `sfifo_init` for a size that is not negative, where `malloc` says whether there is so much memory.
-- What is in fresh memory is not known: `junk`. The fuel of 31 rounds is enough for each size with
-- which the loop ends (`Init`).
pub init : (ℕ → Bool) → ℕ → ℕ → InitResult
unfolding sizing
init malloc junk size = if ltb 0x7fff_ffff size then failed einval else (elim (sizing 31 size 1) [
  | none ↦ failed hangs
  | some s ↦
      if malloc s
      then opened (record { buffer = some (replicate s junk); size = s; readpos = 0; writepos = 0 })
      else failed enomem
])

-- `sfifo_flush`
pub flush : Fifo → Fifo
flush f = record f { readpos = 0; writepos = 0 }

-- `sfifo_used`: the difference as an `int`, masked by `size - 1`; the size is a power of two.
unfoldable pub used : Fifo → ℕ
used f = (f.writepos + 2 ^ 32 - f.readpos) % 2 ^ 32 % f.size

-- `sfifo_space`
unfoldable pub space : Fifo → ℕ
unfolding used
space f = f.size - 1 - used f

-- memcpy(buffer + at, src, length of src)
abbrev pub copy_to : List ℕ → ℕ → List ℕ → List ℕ
copy_to buffer at src = take at buffer ++ (src ++ drop (at + length src) buffer)

-- memcpy(dst, buffer + at, count)
abbrev pub copy_from : List ℕ → ℕ → ℕ → List ℕ
copy_from buffer at count = take count (drop at buffer)

-- `sfifo_write` of the bytes of `src`, with the number of bytes written; `none` is -ENODEV.
unfoldable pub write : Fifo → List ℕ → Option ℕ × Fifo
write f src = elim f.buffer [
  | none ↦ (none, f)
  | some buffer ↦
      let total = min (space f) (length src) in
      let i = f.writepos in
      if ltb f.size (i + total)
      then (
        some total,
        record f {
          buffer = some (
              copy_to (copy_to buffer i (take (f.size - i) src)) 0
                (take (total - (f.size - i)) (drop (f.size - i) src)));
          writepos = total - (f.size - i);
        },
      )
      else (
        some total,
        record f { buffer = some (copy_to buffer i (take total src)); writepos = i + total },
      )
]

-- `sfifo_read` of at most `len` bytes, with the bytes read; `none` is -ENODEV.
unfoldable pub read : Fifo → ℕ → Option (List ℕ) × Fifo
read f len = elim f.buffer [
  | none ↦ (none, f)
  | some buffer ↦
      let total = min (used f) len in
      let i = f.readpos in
      if ltb f.size (i + total)
      then (
        some (copy_from buffer i (f.size - i) ++ copy_from buffer 0 (total - (f.size - i))),
        record f { readpos = total - (f.size - i) },
      )
      else (some (copy_from buffer i total), record f { readpos = i + total })
]
