-- ===== src/Bio.antt =====
-- Buffered source input, src/core/eelc/ec_bio.c and ec_bio.h: reading and stepping back, seeking, and
-- the count of lines and columns with its cache. Num has the parser of numbers.
pub mod Lines
pub mod Num
pub mod Uses
mod Examples
use eel.Prelude.{
  ℕ, zero, suc, ◌+◌, ◌-◌, ◌%◌, Option, none, some, List, [], ◌∷◌, leb, ltb, ◌==◌, if◌then◌else◌,
  length, take, drop, get_or,
}
use eel.Prelude.Int.{ℤ, pos, negsuc, ◌+ℤ◌, sub_ℕ}

-- `len` is the length of the buffer, which the object does not own.
pub record Bio : Type 0 where
  pub buffer : List ℕ
  pub place : ℕ
  pub lcc_pos : ℕ
  pub lcc_line : ℕ
  pub lcc_col : ℕ

-- `eel_bio_open`, where `calloc` gives memory.
abbrev pub open_bio : List ℕ → Bio
open_bio buffer = record {
  buffer = buffer;
  place = 0;
  lcc_pos = length buffer + 1;
  lcc_line = 0;
  lcc_col = 0;
}

-- `eel_bio_last`: `none` is -1.
unfoldable pub last : Bio → Option ℕ
last b = if b.place == 0 then none else some (get_or b.buffer (b.place - 1) 0)

-- `eel_bio_getchar`
unfoldable pub getchar : Bio → Option ℕ × Bio
getchar b =
    if ltb b.place (length b.buffer)
    then (some (get_or b.buffer b.place 0), record b { place = b.place + 1 })
    else (none, b)

-- `eel_bio_ungetc`
unfoldable pub ungetc : Bio → Bio
ungetc b = record b { place = b.place - 1 }

-- `eel_bio_seek_set`, with the new position.
unfoldable pub seek_set : Bio → ℤ → ℕ × Bio
seek_set b (negsuc n) = (0, record b { place = 0 })
seek_set b (pos n) =
    let p = if ltb (length b.buffer) n then length b.buffer else n in (p, record b { place = p })

-- `eel_bio_seek`
unfoldable pub seek : Bio → ℤ → ℕ × Bio
seek b offset = seek_set b (pos b.place +ℤ offset)

-- `eel_bio_seek_end`
unfoldable pub seek_end : Bio → ℕ → ℕ × Bio
seek_end b offset = seek_set b (sub_ℕ (length b.buffer) offset)

-- `eel_bio_read`: the bytes that are copied, as many as it returns.
unfoldable pub read : Bio → ℕ → List ℕ × Bio
read b count =
    let n = if ltb (length b.buffer) (b.place + count) then length b.buffer - b.place else count in
    (take n (drop b.place b.buffer), record b { place = b.place + n })

-- The `switch` of `eel_bio_linecount`, on a line and a column, which do not wrap around here: that takes
-- a text of some 2 ^ 28 bytes.
unfoldable pub advance : ℕ → ℕ × ℕ → ℕ → ℕ × ℕ
advance tab (l, c) ch =
    if ch == 10
    then (l + 1, 1)
    else if ch == 9
    then (l, c + (tab + 1) - (c + (tab + 1)) % tab)
    else (let at' : ℕ × ℕ = if leb ch 8 then (l + ch, 1) else (l, c) in
        if leb 32 ch then (at'.0, at'.1 + 1) else at')

-- The loop of `eel_bio_linecount` over `n` bytes.
unfoldable pub count : ℕ → List ℕ → ℕ → ℕ × ℕ → ℕ × ℕ
count tab bytes zero at = at
count tab [] (suc n) at = at
count tab (ch ∷ bytes) (suc n) at = count tab bytes n (advance tab at ch)

-- From position `p`, which has the line and column `at`, to `to`: both are stored in the cache.
unfoldable pub count_on : Bio → ℕ → ℕ → ℕ → ℕ × ℕ → Option (ℕ × ℕ) × Bio
count_on b tab to p at =
    let at' = count tab (drop p b.buffer) (to - p) at in
    (some at', record b { lcc_pos = p + (to - p); lcc_line = at'.0; lcc_col = at'.1 })

-- `eel_bio_linecount`: `none` is the result -1, which leaves `*line` and `*col` alone.
unfoldable pub linecount : Bio → ℤ → ℕ → Option (ℕ × ℕ) × Bio
unfolding count_on
linecount b (negsuc n) tab = (none, b)
linecount b (pos to) tab =
    if leb b.lcc_pos to
    then (if ltb (length b.buffer) to
        then (none, b)
        else count_on b tab to b.lcc_pos (b.lcc_line, b.lcc_col))
    else count_on b tab to 0 (1, 1)
