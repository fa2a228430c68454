-- ===== src/Dstring/Edits.antt =====
-- Inserting into a dynamic string and deleting from it.
use mathlib.Core.Path.{subst}
use eel.Prelude.{
  leb→le, ℕ, ◌+◌, ◌-◌, ◌<◌, ◌≤◌, ◌≡◌, ◌∙◌, sym, ap, inl, inr, Bool-cases, some, ltb, leb, arith,
  if◌then◌else◌,
}
use eel.Exceptions.{ok}
use eel.Dstring.{Dstring, Bytes, Memory, memcpy, setsize, insert_at, delete_range}
use eel.Dstring.Laws.{IsValid, IsGenerous, setsize-IsResized, Holds}

-- Bytes put into the string at index `i`; those behind move up.
pub insert_at-Holds :
    (m : Memory) (ds : Dstring) (i : ℕ) (s : Bytes)
    → IsGenerous m
    → IsValid ds
    → i ≤ ds.length
    → (d : Dstring) × (insert_at m ds i s ≡ ok d)
      × Holds d (ds.length + s.count) (λ j.
        if ltb j i
        then ds.buffer j
        else (if ltb j (i + s.count) then s.at (j - i) else ds.buffer (j - s.count)))
unfolding insert_at memcpy
insert_at-Holds m ds i s g v le =
    let (d, e, r) = setsize-IsResized m ds (ds.length + s.count + i + 1) g in
    let moved : ℕ → ℕ = memcpy d.buffer (i + s.count) (λ j. d.buffer (i + j)) (d.length - i + 1) in
    let end : i + (d.length + s.count - (i + s.count)) ≡ ds.length = omega (arith, le, r.1) in
    (
      record d { buffer = memcpy moved i s.at s.count; length = d.length + s.count },
      ground (arith, e, le, r.1),
      (
        (omega (arith, r.0, r.1), ground (arith, le, r.0, r.1, v, ap d.buffer end, r.2 ds.length)),
        omega (arith, r.1),
        λ j h. elim (Bool-cases (leb (i + s.count) j)) [
          | inl c ↦
              let back : i + (j - (i + s.count)) ≡ j - s.count =
                omega (arith, leb→le (i + s.count) j c) in
              ground (arith, c, h, le, v.0, r.1, ap d.buffer back, r.2 (j - s.count))
          | inr c ↦ ground (arith, c, h, le, v.0, r.1, r.2 j)
        ],
      ),
    )

delete_resized :
    (m : Memory) (ds d : Dstring) (i0 i1 : ℕ)
    → setsize m
        (record ds {
          buffer = memcpy ds.buffer i0 (λ j. ds.buffer (i1 + 1 + j)) (ds.length - i1);
          length = ds.length - (i1 - i0 + 1);
        })
        (ds.length - (i1 - i0 + 1) + 1)
      ≡ some d
    → delete_range m ds i0 i1 ≡ d
unfolding delete_range
delete_resized m ds d i0 i1 e = ground (arith, e)

-- The bytes from `i0` to `i1` go, and those behind move down.
pub delete_range-Holds :
    (m : Memory) (ds : Dstring) (i0 i1 : ℕ)
    → IsGenerous m
    → IsValid ds
    → i0 ≤ i1
    → i1 < ds.length
    → Holds
        (delete_range m ds i0 i1)
        (ds.length - (i1 - i0 + 1))
        (λ j. if ltb j i0 then ds.buffer j else ds.buffer (j + (i1 - i0 + 1)))
unfolding memcpy
delete_range-Holds m ds i0 i1 g v a b =
    let moved : Dstring = record ds {
      buffer = memcpy ds.buffer i0 (λ j. ds.buffer (i1 + 1 + j)) (ds.length - i1);
      length = ds.length - (i1 - i0 + 1);
    } in
    let (d, e, r) = setsize-IsResized m moved (moved.length + 1) g in
    let end : i1 + 1 + (moved.length - i0) ≡ ds.length = omega (arith, a, b) in
    subst
      (λ x.
        Holds x (ds.length - (i1 - i0 + 1))
          (λ j. if ltb j i0 then ds.buffer j else ds.buffer (j + (i1 - i0 + 1))))
      (sym (delete_resized m ds d i0 i1 e))
      (
        (
          omega (arith, r.0, r.1),
          ap d.buffer r.1
              ∙ r.2 moved.length (omega (arith, v.0)) (omega arith)
              ∙ ground (arith, a, b, v, ap ds.buffer end),
        ),
        r.1,
        λ j h. r.2 j (omega (arith, h, v.0)) (omega (arith, h)) ∙ elim (Bool-cases (ltb j i0)) [
          | inl c ↦ ground (arith, c, a, b, h)
          | inr c ↦
              let on : i0 ≤ j → i1 + 1 + (j - i0) ≡ j + (i1 - i0 + 1) = λ l. omega (arith, l, a) in
              ground (arith, c, a, b, h, ap ds.buffer (on (ground (arith, c))))
        ],
      )

-- Deleting the bytes that `ds_insert` put into a string, one or more at an index up to its length,
-- gives back a string of the same length with the same bytes, terminated by a byte 0, where every
-- request for memory is granted.
pub delete_range-insert_at :
    (m : Memory) (ds : Dstring) (i : ℕ) (s : Bytes)
    → IsGenerous m
    → IsValid ds
    → i ≤ ds.length
    → 0 < s.count
    → (d : Dstring) × (insert_at m ds i s ≡ ok d)
      × Holds (delete_range m d i (i + s.count - 1)) ds.length ds.buffer
delete_range-insert_at m ds i s g v le p =
    let (d, e, (valid, l, bytes)) = insert_at-Holds m ds i s g v le in
    let (valid', l', bytes') =
      delete_range-Holds m d i (i + s.count - 1) g valid (omega (arith, p))
        (omega (arith, p, le, l)) in
    (
      d,
      e,
      (
        valid',
        l' ∙ omega (arith, p, l, le),
        λ j h. bytes' j (omega (arith, p, l, le, h)) ∙ elim (Bool-cases (ltb j i)) [
          | inl c ↦ ground (arith, c, bytes j, le, h)
          | inr c ↦
              let shift : j + (i + s.count - 1 - i + 1) ≡ j + s.count = omega (arith, p) in
              let back : j + s.count - s.count ≡ j = omega arith in
              ground (arith, c, ap d.buffer shift, ap ds.buffer back, bytes (j + s.count), le, h)
        ],
      ),
    )
