-- ===== src/Sfifo/Read.antt =====
-- Reading a FIFO, as an operation on the list of bytes that it holds.
use eel.Prelude.{
  ℕ, ◌+◌, ◌-◌, ◌≤◌, ◌<◌, ◌≡◌, inl, inr, refl, sym, ap, ◌∙◌, some, List, ◌++◌, arith, ltb, length,
  if◌then◌else◌, min, Bool-cases,
}
use eel.Sfifo.{Fifo, used, copy_from, read}
use eel.Sfifo.Inv.{IsValid, used-Way, Way-unique}
use eel.Sfifo.Window.{
  window, window-append, window-past, window-back, copy_from-window, length-window,
}
use eel.Sfifo.Refine.{contents, contents_lem}

-- The bytes that a read takes from the storage, in two parts where they go past the end.
fetched :
    (bytes : List ℕ) (size i total : ℕ)
    → length bytes ≡ size
    → i ≤ size
    → total < size
    → (if ltb size (i + total)
        then copy_from bytes i (size - i) ++ copy_from bytes 0 (total - (size - i))
        else copy_from bytes i total)
      ≡ window bytes size i total
fetched bytes size i total l ile small = elim (Bool-cases (ltb size (i + total))) [
  | inl past ↦
      let over : size < i + total = ground arith in
      let split : total ≡ size - i + (total - (size - i)) = omega arith in
      rw
        (
          past,
          copy_from-window bytes size i (size - i) l (omega arith),
          copy_from-window bytes size 0 (total - (size - i)) l (omega arith),
        )
        (sym (
          ap (window bytes size i) split
          ∙ window-past bytes size i (size - i) (total - (size - i)) (omega arith) (omega arith)))
  | inr fits ↦ rw fits (copy_from-window bytes size i total l (ground arith))
]

module _ (f : Fifo) (bytes : List ℕ) (total : ℕ) where
  abbrev rest : Fifo
  rest = record f {
    readpos =
        if ltb f.size (f.readpos + total) then total - (f.size - f.readpos) else f.readpos + total;
  }

  rest-IsValid : IsValid f bytes → total ≤ used f → IsValid rest bytes
  rest-IsValid (b, l, pos, small, div, rle, wle) fits =
      let v : IsValid f bytes = (b, l, pos, small, div, rle, wle) in
      let way = used-Way f bytes v in (b, l, pos, small, div, ground arith, wle)

  rest-used : IsValid f bytes → total ≤ used f → used rest + total ≡ used f
  rest-used v fits =
      let (lt, way) = used-Way f bytes v in
      let (b, l, pos, small, div, rle, wle) = v in
      let v' = rest-IsValid v fits in
      let e =
        Way-unique f.size rest.readpos f.writepos (used rest) (used f - total) v'.5 wle
          (used-Way rest bytes v') (omega arith, ground arith) in
      omega arith

  rest-contents :
      IsValid f bytes
      → total ≤ used f
      → contents f ≡ window bytes f.size f.readpos total ++ contents rest
  rest-contents v fits =
      let (lt, way) = used-Way f bytes v in
      let (b, l, pos, small, div, rle, wle) = v in
      let split : used f ≡ total + used rest = omega (arith, rest-used v fits) in
      contents_lem f bytes b
      ∙ ap (window bytes f.size f.readpos) split
      ∙ window-append bytes f.size f.readpos total (used rest)
      ∙ rw
          (
            window-back bytes f.size f.readpos total (used rest) rle (omega arith),
            contents_lem rest bytes b,
          )
          refl

read_lem :
    (f : Fifo) (bytes : List ℕ) (len : ℕ)
    → IsValid f bytes
    → read f len
      ≡ (some (window bytes f.size f.readpos (min (used f) len)), rest f bytes (min (used f) len))
unfolding read used
read_lem f bytes len v =
    let (lt, way) = used-Way f bytes v in
    let n = min (used f) len in
    rw (v.0, sym (fetched bytes f.size f.readpos n v.1 v.5 (omega arith)))
      (elim (Bool-cases (ltb f.size (f.readpos + n))) [
        | inl past ↦ rw past refl
        | inr fits ↦ rw fits refl
      ])

-- Reading a valid FIFO returns its oldest bytes, as many as are asked for or else all, and leaves a
-- valid FIFO with the others, on the same storage.
pub read-contents :
    (f : Fifo) (bytes : List ℕ) (len : ℕ)
    → IsValid f bytes
    → (out : List ℕ) × (f' : Fifo) × (read f len ≡ (some out, f'))
      × (length out ≡ min (used f) len)
      × IsValid f' bytes
      × (contents f ≡ out ++ contents f')
read-contents f bytes len v =
    let n = min (used f) len in
    let fits : n ≤ used f = omega arith in
    (
      window bytes f.size f.readpos n,
      rest f bytes n,
      read_lem f bytes len v,
      length-window bytes f.size f.readpos n,
      rest-IsValid f bytes n v fits,
      rest-contents f bytes n v fits,
    )
