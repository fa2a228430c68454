-- ===== src/Dstring.antt =====
-- Dynamic strings, src/core/e_dstring.c: a buffer with room for more bytes than are in use, and a
-- byte 0 behind those. A string that is inserted into itself, or added to itself in place, is left out.
pub mod Laws
pub mod Edits
mod Examples
use eel.Prelude.{
  ℕ, zero, suc, ◌+◌, ◌-◌, ◌*◌, ◌<◌, Bool, true, false, not, ◌&&◌, Option, none, some, ltb, leb,
  ◌==◌, min, if◌then◌else◌,
}
use eel.Prelude.Int.{ℤ, pos, negsuc}
use eel.Exceptions.{
  Result, ok, exception, xmemory, xlowindex, xhighindex, xwrongindex, xwrongtype, xconstructor,
}
use eel.Resize.{calcresize}
use eel.Value.{Value}
use eel.Array.{index_of}

-- `EEL_dstring`. Of `buffer` the first `maxlength` bytes are there.
pub record Dstring : Type 0 where
  pub buffer : ℕ → ℕ
  pub length : ℕ
  pub maxlength : ℕ

-- Bytes that are read only: the buffer and length of a string, or one character.
pub record Bytes : Type 0 where
  pub at : ℕ → ℕ
  pub count : ℕ

abbrev pub dstring_sizebase : ℕ
dstring_sizebase = 32

-- `memset(buffer + at, value, count)`
unfoldable pub memset : (ℕ → ℕ) → ℕ → ℕ → ℕ → ℕ → ℕ
memset buffer at value count j = if leb at j && ltb j (at + count) then value else buffer j

-- `memcpy(buffer + at, from, count)`; `memmove` within a buffer is the same with `from` read before.
unfoldable pub memcpy : (ℕ → ℕ) → ℕ → (ℕ → ℕ) → ℕ → ℕ → ℕ
memcpy buffer at from count j = if leb at j && ltb j (at + count) then from (j - at) else buffer j

-- `buffer[at] = value`
unfoldable pub store : (ℕ → ℕ) → ℕ → ℕ → ℕ → ℕ
store buffer at value j = if j == at then value else buffer j

-- The memory manager: which sizes can be had, and what is in memory that was not written.
pub record Memory : Type 0 where
  pub grants : ℕ → Bool
  pub junk : ℕ → ℕ

module _ (m : Memory) where
  -- `ds_setsize`
  unfoldable pub setsize : Dstring → ℕ → Option Dstring
  setsize ds newsize =
      let n : ℕ = calcresize dstring_sizebase ds.maxlength newsize in
      if n == ds.maxlength
      then some ds
      else (if m.grants n
          then some (record ds {
            buffer = λ j. if ltb j (min ds.maxlength n) then ds.buffer j else m.junk j;
            maxlength = n;
          })
          else none)

  -- `ds_nnew` of bytes, where there is memory for the object.
  unfoldable pub nnew : Bytes → Result Dstring
  unfolding memcpy store
  nnew s =
      if m.grants (s.count + 1)
      then ok (record {
        buffer = store (memcpy m.junk 0 s.at s.count) s.count 0;
        length = s.count;
        maxlength = s.count + 1;
      })
      else exception xconstructor

  -- `ds_set_index`; `value` is the byte of `eel_v2l`.
  unfoldable pub set_index : Dstring → ℕ → ℕ → Result Dstring
  unfolding setsize memset store
  set_index ds i value =
      if leb ds.length i
      then (elim (setsize ds (i + 2)) [
        | none ↦ exception xmemory
        | some d ↦ ok (record d {
          buffer = store (memset d.buffer (d.length + 1) 0 (d.maxlength - d.length - 1)) i value;
          length = i + 1;
        })
      ])
      else ok (record ds { buffer = store ds.buffer i value })

  -- `ds_setindex`
  unfoldable pub setindex : (ℕ → ℤ) → Dstring → Value → ℕ → Result Dstring
  unfolding set_index
  setindex floor ds op1 value = elim (index_of floor op1) [
    | none ↦ exception xwrongtype
    | some i ↦ elim i [ pos n ↦ set_index ds n value | negsuc n ↦ exception xlowindex ]
  ]

  -- `eel_ds_write`
  unfoldable pub write_bytes : Dstring → ℕ → Bytes → Result Dstring
  unfolding setsize memset memcpy
  write_bytes ds at s =
      if leb ds.length (at + s.count)
      then (elim (setsize ds (at + s.count + 1)) [
        | none ↦ exception xmemory
        | some d ↦ ok (record d {
          buffer = memcpy (memset d.buffer d.length 0 (d.maxlength - d.length)) at s.at s.count;
          length = at + s.count;
        })
      ])
      else ok (record ds { buffer = memcpy ds.buffer at s.at s.count })

  -- `ds_insert` at index `i`, from where it has the bytes.
  unfoldable pub insert_at : Dstring → ℕ → Bytes → Result Dstring
  unfolding setsize memcpy
  insert_at ds i s = elim (setsize ds (ds.length + s.count + i + 1)) [
    | none ↦ exception xmemory
    | some d ↦
        let moved : ℕ → ℕ =
          if leb i d.length
          then memcpy d.buffer (i + s.count) (λ j. d.buffer (i + j)) (d.length - i + 1)
          else d.buffer in
        ok (record d { buffer = memcpy moved i s.at s.count; length = d.length + s.count })
  ]

  -- `ds_delete` of the bytes from `i0` to `i1`, from where it has the range. That `ds_setsize` can
  -- fail is not looked at.
  unfoldable pub delete_range : Dstring → ℕ → ℕ → Dstring
  unfolding setsize memcpy
  delete_range ds i0 i1 =
      let moved : Dstring = record ds {
        buffer = memcpy ds.buffer i0 (λ j. ds.buffer (i1 + 1 + j)) (ds.length - i1);
        length = ds.length - (i1 - i0 + 1);
      } in
      elim (setsize moved (moved.length + 1)) [ none ↦ moved | some d ↦ d ]

  -- `ds_copy` of `count` bytes from `start` on, both from `eel_v2l`.
  unfoldable pub copy : Dstring → ℤ → ℤ → Result Dstring
  unfolding nnew
  copy ds (negsuc start) count = exception xlowindex
  copy ds (pos start) (negsuc count) =
      if ltb ds.length start then exception xhighindex else exception xwrongindex
  copy ds (pos start) (pos count) =
      if ltb ds.length start
      then exception xhighindex
      else (if ltb ds.length (start + count)
          then exception xhighindex
          else nnew (record { at = λ j. ds.buffer (start + j); count = count }))

  -- `ds_add`
  unfoldable pub add : Dstring → Bytes → Result Dstring
  unfolding memcpy store
  add ds s =
      if m.grants (ds.length + s.count + 1)
      then ok (record {
        buffer =
            store (memcpy (memcpy m.junk 0 ds.buffer ds.length) ds.length s.at s.count)
              (ds.length + s.count) 0;
        length = ds.length + s.count;
        maxlength = ds.length + s.count + 1;
      })
      else exception xmemory

  -- `ds_ipadd` of a string.
  unfoldable pub ipadd : Dstring → Bytes → Result Dstring
  unfolding setsize memcpy store
  ipadd ds s = elim (setsize ds (ds.length + s.count + 1)) [
    | none ↦ exception xmemory
    | some d ↦ ok (record d {
      buffer = store (memcpy d.buffer d.length s.at s.count) (d.length + s.count) 0;
      length = d.length + s.count;
    })
  ]
