-- ===== src/Sfifo/Refine.antt =====
-- Reading and writing a FIFO, as operations on the list of bytes that it holds.
use eel.Prelude.{
  ℕ, ◌+◌, ◌-◌, ◌≤◌, ◌<◌, ◌≡◌, inl, inr, refl, ap, ◌∙◌, Option, none, some, List, [], ◌++◌, arith,
  ltb, length, take, if◌then◌else◌, min, Bool-cases,
}
use eel.Sfifo.{Fifo, used, space, write}
use eel.Sfifo.Inv.{IsValid, Way, used-Way, used-space, Way-unique}
use eel.Sfifo.Store.{stored, get_or-stored, length-stored}
use eel.Sfifo.Window.{around, window, window-append, window-same, window-take}

-- The bytes that a FIFO holds, the oldest first.
abbrev pub contents : Fifo → List ℕ
contents f = elim f.buffer [ none ↦ [] | some bytes ↦ window bytes f.size f.readpos (used f) ]

-- What is in the storage and stays, and what is put in.
module _ (size : ℕ) (bytes : List ℕ) (r w u total : ℕ) (src : List ℕ) where
  window-kept :
      length bytes ≡ size
      → r ≤ size
      → w ≤ size
      → Way size r w u
      → u + total < size
      → total ≤ length src
      → window (stored size bytes w total src) size r u ≡ window bytes size r u
  window-kept l rle wle way room has =
      window-same bytes (stored size bytes w total src) size r u (λ j p q.
        let g =
          get_or-stored size bytes w total src (around size j) l wle (omega arith) has
            (ground arith) in
        rw g (ground arith))

  window-put :
      length bytes ≡ size
      → r ≤ size
      → w ≤ size
      → Way size r w u
      → u + total < size
      → total ≤ length src
      → window (stored size bytes w total src) size (r + u) total ≡ take total src
  window-put l rle wle way room has =
      window-take (stored size bytes w total src) src size (r + u) total has (λ k p.
        let g =
          get_or-stored size bytes w total src (around size (r + u + k)) l wle (omega arith) has
            (ground arith) in
        rw g (ground arith))

write_lem :
    (f : Fifo) (bytes src : List ℕ)
    → f.buffer ≡ some bytes
    → write f src ≡ (
      some (min (space f) (length src)),
      record f {
        buffer = some (stored f.size bytes f.writepos (min (space f) (length src)) src);
        writepos =
            if ltb f.size (f.writepos + min (space f) (length src))
            then min (space f) (length src) - (f.size - f.writepos)
            else f.writepos + min (space f) (length src);
      },
    )
unfolding write stored space
write_lem f bytes src e =
    rw e (elim (Bool-cases (ltb f.size (f.writepos + min (space f) (length src)))) [
      | inl past ↦ rw past refl
      | inr fits ↦ rw fits refl
    ])

-- The read position stays, the write position goes on.
wrote-IsValid :
    (f : Fifo) (bytes src : List ℕ) (total : ℕ)
    → IsValid f bytes
    → total ≤ space f
    → total ≤ length src
    → IsValid
        (record f {
          buffer = some (stored f.size bytes f.writepos total src);
          writepos =
              if ltb f.size (f.writepos + total)
              then total - (f.size - f.writepos)
              else f.writepos + total;
        })
        (stored f.size bytes f.writepos total src)
wrote-IsValid f bytes src total (b, l, pos, small, div, rle, wle) fits has =
    let v : IsValid f bytes = (b, l, pos, small, div, rle, wle) in
    let room = used-space f bytes v in
    (
      refl,
      length-stored f.size bytes f.writepos total src l wle (omega arith) has,
      pos,
      small,
      div,
      rle,
      ground arith,
    )

pub contents_lem :
    (f : Fifo) (bytes : List ℕ)
    → f.buffer ≡ some bytes
    → contents f ≡ window bytes f.size f.readpos (used f)
contents_lem f bytes e =
    ap
      (λ (b : Option (List ℕ)). elim b [
        | none ↦ []
        | some bytes ↦ window bytes f.size f.readpos (used f)
      ])
      e

module _ (f : Fifo) (bytes src : List ℕ) (total : ℕ) where
  abbrev wrote : Fifo
  wrote = record f {
    buffer = some (stored f.size bytes f.writepos total src);
    writepos =
        if ltb f.size (f.writepos + total)
        then total - (f.size - f.writepos)
        else f.writepos + total;
  }

  wrote-used : IsValid f bytes → total ≤ space f → total ≤ length src → used wrote ≡ used f + total
  wrote-used v fits has =
      let room = used-space f bytes v in
      let (lt, way) = used-Way f bytes v in
      let (b, l, pos, small, div, rle, wle) = v in
      let v' = wrote-IsValid f bytes src total v fits has in
      let way' = used-Way wrote (stored f.size bytes f.writepos total src) v' in
      Way-unique f.size f.readpos wrote.writepos (used wrote) (used f + total) rle v'.6 way'
        (omega arith, ground arith)

  wrote-contents :
      IsValid f bytes
      → total ≤ space f
      → total ≤ length src
      → contents wrote ≡ contents f ++ take total src
  wrote-contents v fits has =
      let room = used-space f bytes v in
      let way = used-Way f bytes v in
      let (b, l, pos, small, div, rle, wle) = v in
      let k =
        window-kept f.size bytes f.readpos f.writepos (used f) total src l rle wle way (omega arith)
          has in
      let p =
        window-put f.size bytes f.readpos f.writepos (used f) total src l rle wle way (omega arith)
          has in
      ap (window (stored f.size bytes f.writepos total src) f.size f.readpos)
        (wrote-used v fits has)
      ∙ window-append (stored f.size bytes f.writepos total src) f.size f.readpos (used f) total
      ∙ rw (k, p, contents_lem f bytes b) refl

-- Writing to a valid FIFO appends the first bytes of the source to its contents, as many as there is
-- space for or else all, returns their number and leaves a valid FIFO.
pub write-contents :
    (f : Fifo) (bytes src : List ℕ)
    → IsValid f bytes
    → (f' : Fifo) × (bytes' : List ℕ) × (write f src ≡ (some (min (space f) (length src)), f'))
      × IsValid f' bytes'
      × (contents f' ≡ contents f ++ take (min (space f) (length src)) src)
write-contents f bytes src v =
    let n = min (space f) (length src) in
    let (fits, has) : (n ≤ space f) × (n ≤ length src) = (omega arith, omega arith) in
    (
      wrote f bytes src n,
      stored f.size bytes f.writepos n src,
      write_lem f bytes src v.0,
      wrote-IsValid f bytes src n v fits has,
      wrote-contents f bytes src n v fits has,
    )
