-- ===== src/Dstring/Laws.antt =====
-- The bytes of a dynamic string after each operation, where there is memory.
use eel.Prelude.{
  ℕ, ◌+◌, ◌-◌, ◌<◌, ◌≤◌, ◌≡◌, refl, ap, inl, inr, Bool-cases, true, ◌&&◌, some, ltb, leb, ◌==◌,
  ==_iff, min, arith, if◌then◌else◌,
}
use eel.Exceptions.{ok}
use eel.Resize.{calcresize}
use eel.Resize.Bounds.{calcresize_covers}
use eel.Dstring.{
  Dstring, Bytes, Memory, dstring_sizebase, memset, memcpy, store, setsize, set_index, write_bytes,
  ipadd,
}

-- The bytes in use are followed by a byte 0 in the buffer.
abbrev pub IsValid : Dstring → Type 0
IsValid ds = (ds.length < ds.maxlength) × (ds.buffer ds.length ≡ 0)

-- Every request for memory is granted.
abbrev pub IsGenerous : Memory → Type 0
IsGenerous m = (n : ℕ) → m.grants n ≡ true

-- `d` has room for `newsize` bytes, and holds what `ds` holds as far as both reach.
abbrev pub IsResized : Dstring → ℕ → Dstring → Type 0
IsResized ds newsize d =
    (newsize ≤ d.maxlength)
    × (d.length ≡ ds.length)
    × ((j : ℕ) → j < ds.maxlength → j < newsize → d.buffer j ≡ ds.buffer j)

pub setsize-IsResized :
    (m : Memory) (ds : Dstring) (newsize : ℕ)
    → IsGenerous m
    → (d : Dstring) × (setsize m ds newsize ≡ some d) × IsResized ds newsize d
unfolding setsize
setsize-IsResized m ds newsize g =
    let n : ℕ = calcresize dstring_sizebase ds.maxlength newsize in
    let c : newsize ≤ n = calcresize_covers dstring_sizebase ds.maxlength newsize (omega arith) in
    elim (Bool-cases (n == ds.maxlength)) [
      | inl e ↦ (
        ds,
        ground (arith, e),
        (omega (arith, c, (==_iff n ds.maxlength).0 e), refl, λ j h k. refl),
      )
      | inr e ↦ (
        record ds {
          buffer = λ j. if ltb j (min ds.maxlength n) then ds.buffer j else m.junk j;
          maxlength = n;
        },
        ground (arith, e, g n),
        (c, refl, λ j h k. ground (arith, h, k, c)),
      )
    ]

-- The string `d` is terminated, has `n` bytes, and they are those of `bytes`.
abbrev pub Holds : Dstring → ℕ → (ℕ → ℕ) → Type 0
Holds d n bytes = IsValid d × (d.length ≡ n) × ((j : ℕ) → j < n → d.buffer j ≡ bytes j)

-- Setting a byte inside the string changes that byte; behind its end the string grows to the new
-- byte, with bytes 0 in between.
pub set_index-Holds :
    (m : Memory) (ds : Dstring) (i value : ℕ)
    → IsGenerous m
    → IsValid ds
    → (d : Dstring) × (set_index m ds i value ≡ ok d)
      × Holds d
          (if leb ds.length i then i + 1 else ds.length)
          (λ j. if j == i then value else (if ltb j ds.length then ds.buffer j else 0))
unfolding set_index memset store
set_index-Holds m ds i value g v = elim (Bool-cases (leb ds.length i)) [
  | inl e ↦
      let (d, s, r) = setsize-IsResized m ds (i + 2) g in
      (
        record d {
          buffer = store (memset d.buffer (d.length + 1) 0 (d.maxlength - d.length - 1)) i value;
          length = i + 1;
        },
        ground (arith, e, s),
        (
          (omega (arith, r.0), ground (arith, e, v, r)),
          ground (arith, e),
          λ j h. ground (arith, e, v, r.0, r.1, r.2 j, h),
        ),
      )
  | inr e ↦ (
    record ds { buffer = store ds.buffer i value },
    ground (arith, e),
    ((v.0, ground (arith, e, v)), ground (arith, e), λ j h. ground (arith, e, h)),
  )
]

-- Bytes put behind the end.
pub ipadd-Holds :
    (m : Memory) (ds : Dstring) (s : Bytes)
    → IsGenerous m
    → IsValid ds
    → (d : Dstring) × (ipadd m ds s ≡ ok d)
      × Holds d
          (ds.length + s.count)
          (λ j. if ltb j ds.length then ds.buffer j else s.at (j - ds.length))
unfolding ipadd memcpy store
ipadd-Holds m ds s g v =
    let (d, e, r) = setsize-IsResized m ds (ds.length + s.count + 1) g in
    (
      record d {
        buffer = store (memcpy d.buffer d.length s.at s.count) (d.length + s.count) 0;
        length = d.length + s.count;
      },
      ground (arith, e),
      (
        (omega (arith, r.0, r.1), ground arith),
        omega (arith, r.1),
        λ j h. ground (arith, h, v.0, r.0, r.1, r.2 j, ap (λ n. s.at (j - n)) r.1),
      ),
    )

-- `eel_ds_write` puts the bytes at their place, whether that is inside the string, reaches over its
-- end or lies behind it; the string then ends after them unless it was longer, and bytes 0 fill
-- what lies between. It stays terminated, where every request for memory is granted.
pub write_bytes-Holds :
    (m : Memory) (ds : Dstring) (at : ℕ) (s : Bytes)
    → IsGenerous m
    → IsValid ds
    → (d : Dstring) × (write_bytes m ds at s ≡ ok d)
      × Holds d (if leb ds.length (at + s.count) then at + s.count else ds.length) (λ j.
        if leb at j && ltb j (at + s.count)
        then s.at (j - at)
        else (if ltb j ds.length then ds.buffer j else 0))
unfolding write_bytes memset memcpy
write_bytes-Holds m ds at s g v = elim (Bool-cases (leb ds.length (at + s.count))) [
  | inl c ↦
      let (d, e, r) = setsize-IsResized m ds (at + s.count + 1) g in
      (
        record d {
          buffer = memcpy (memset d.buffer d.length 0 (d.maxlength - d.length)) at s.at s.count;
          length = at + s.count;
        },
        ground (arith, c, e),
        (
          (omega (arith, r.0), ground (arith, c, r.0, r.1)),
          ground (arith, c),
          λ j h. ground (arith, c, h, v.0, r.0, r.1, r.2 j),
        ),
      )
  | inr c ↦ (
    record ds { buffer = memcpy ds.buffer at s.at s.count },
    ground (arith, c),
    ((v.0, ground (arith, c, v)), ground (arith, c), λ j h. ground (arith, c, h)),
  )
]
