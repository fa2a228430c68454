-- ===== src/Sfifo/Store.antt =====
-- The storage of a ring after a write that may go past the end.
use eel.Prelude.{
  ℕ, ◌+◌, ◌-◌, ◌≤◌, ◌<◌, ◌≡◌, inl, inr, List, arith, ltb, length, get_or, take, drop, length-take,
  length-drop, if◌then◌else◌, Bool-cases,
}
use eel.Sfifo.{copy_to}
use eel.Sfifo.Window.{get_or-take, get_or-drop, get_or-copy_to, length-copy_to}

-- The storage after the first `total` bytes of `src` have been put in from `i` on, in two parts
-- where they go past the end.
unfoldable pub stored : ℕ → List ℕ → ℕ → ℕ → List ℕ → List ℕ
stored size bytes i total src =
    if ltb size (i + total)
    then copy_to (copy_to bytes i (take (size - i) src)) 0
        (take (total - (size - i)) (drop (size - i) src))
    else copy_to bytes i (take total src)

module _ (size : ℕ) (bytes : List ℕ) (i total : ℕ) (src : List ℕ) where
  length-first :
      i ≤ size → size < i + total → total ≤ length src → length (take (size - i) src) ≡ size - i
  length-first ile past has = omega (arith, length-take (size - i) src)

  length-second :
      i ≤ size
      → size < i + total
      → total ≤ length src
      → length (take (total - (size - i)) (drop (size - i) src)) ≡ total - (size - i)
  length-second ile past has =
      omega
        (arith, length-take (total - (size - i)) (drop (size - i) src), length-drop (size - i) src)

  pub length-stored :
      length bytes ≡ size
      → i ≤ size
      → total < size
      → total ≤ length src
      → length (stored size bytes i total src) ≡ size
  unfolding stored
  length-stored l ile small has = elim (Bool-cases (ltb size (i + total))) [
    | inl past ↦
        let over : size < i + total = ground arith in
        let n = length-first ile over has in
        let m = length-second ile over has in
        let k = length-copy_to bytes (take (size - i) src) i (omega arith) in
        let k' =
          length-copy_to (copy_to bytes i (take (size - i) src))
            (take (total - (size - i)) (drop (size - i) src)) 0 (omega arith) in
        rw (past, k', k) l
    | inr fits ↦
        let under : i + total ≤ size = ground arith in
        let n : length (take total src) ≡ total = omega (arith, length-take total src) in
        rw (fits, length-copy_to bytes (take total src) i (omega arith)) l
  ]

  pub get_or-stored :
      (j : ℕ)
      → length bytes ≡ size
      → i ≤ size
      → total < size
      → total ≤ length src
      → j < size
      → get_or (stored size bytes i total src) j 0 ≡ (
          if ltb j i
          then (if ltb (j + size) (i + total)
              then get_or src (j + size - i) 0
              else get_or bytes j 0)
          else (if ltb j (i + total) then get_or src (j - i) 0 else get_or bytes j 0))
  unfolding stored
  get_or-stored j l ile small has lt = elim (Bool-cases (ltb size (i + total))) [
    | inl past ↦
        let over : size < i + total = ground arith in
        let n = length-first ile over has in
        let m = length-second ile over has in
        let k = length-copy_to bytes (take (size - i) src) i (omega arith) in
        let first = get_or-copy_to bytes (take (size - i) src) i j (omega arith) in
        let second =
          get_or-copy_to (copy_to bytes i (take (size - i) src))
            (take (total - (size - i)) (drop (size - i) src)) 0 j (omega arith) in
        rw (past, second, first)
          (ground (
            arith,
            n,
            m,
            get_or-take (size - i) src (j - i),
            get_or-take (total - (size - i)) (drop (size - i) src) j,
            get_or-drop (size - i) src j,
          ))
    | inr fits ↦
        let n : length (take total src) ≡ total = omega (arith, length-take total src) in
        rw fits (
          ground
            (arith, n, get_or-copy_to bytes (take total src) i j, get_or-take total src (j - i)))
  ]
