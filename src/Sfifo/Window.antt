-- ===== src/Sfifo/Window.antt =====
-- A stretch of bytes of a ring, and how copying into the ring changes it.
use eel.Prelude.{
  ℕ, zero, suc, ◌+◌, ◌-◌, ◌*◌, ◌≤◌, ◌<◌, ◌≡◌, refl, sym, ap, List, [], ◌∷◌, ◌++◌, arith, ltb,
  if◌then◌else◌, length, get_or, take, drop, length-take, length-drop, length-append, Bool-cases,
  inl, inr, ◌∙◌,
}
use eel.Sfifo.{copy_to, copy_from}

-- Going round at `size`, for positions below twice that.
abbrev pub around : ℕ → ℕ → ℕ
around size h = if ltb h size then h else h - size

-- The `n` bytes from position `h` on.
abbrev pub window : List ℕ → ℕ → ℕ → ℕ → List ℕ
window bytes size h zero = []
window bytes size h (suc n) = get_or bytes (around size h) 0 ∷ window bytes size (h + 1) n

module _ (bytes : List ℕ) (size : ℕ) where
  pub length-window : (h n : ℕ) → length (window bytes size h n) ≡ n
  length-window h zero = refl
  length-window h (suc n) = ap suc (length-window (h + 1) n)

  pub window-append :
      (h m n : ℕ)
      → window bytes size h (m + n) ≡ window bytes size h m ++ window bytes size (h + m) n
  window-append h zero n =
      let e : 0 + n ≡ n = omega arith in let k : h + 0 ≡ h = omega arith in rw (e, k) refl
  window-append h (suc m) n =
      let e : suc m + n ≡ suc (m + n) = omega arith in
      let k : h + 1 + m ≡ h + suc m = omega arith in
      rw e (
        ap (λ (r : List ℕ). get_or bytes (around size h) 0 ∷ r)
          (rw (window-append (h + 1) m n, k) refl))

  -- Past the end the ring begins anew.
  pub window-around :
      (h n : ℕ)
      → size ≤ h
      → h + n ≤ 2 * size
      → window bytes size h n ≡ window bytes size (h - size) n
  window-around h zero le fits = refl
  window-around h (suc n) le fits =
      let e : h + 1 - size ≡ h - size + 1 = omega arith in
      ground (arith, window-around (h + 1) n (omega arith) (omega arith), e)

  -- A stretch up to the end, and on from the beginning.
  pub window-past :
      (i n m : ℕ)
      → i + n ≡ size
      → m ≤ size
      → window bytes size i (n + m) ≡ window bytes size i n ++ window bytes size 0 m
  window-past i n m e le =
      let begin : size - size ≡ 0 = omega arith in
      window-append i n m ∙ rw (e, window-around size m (omega arith) (omega arith), begin) refl

  -- A position past the end, brought back as the code does.
  pub window-back :
      (i n m : ℕ)
      → i ≤ size
      → n + m < size
      → window bytes size (i + n) m
        ≡ window bytes size (if ltb size (i + n) then n - (size - i) else i + n) m
  window-back i n m le small = elim (Bool-cases (ltb size (i + n))) [
    | inl past ↦
        let over : size < i + n = ground arith in
        let e : i + n - size ≡ n - (size - i) = omega arith in
        rw past (window-around (i + n) m (omega arith) (omega arith) ∙ rw e refl)
    | inr fits ↦ rw fits refl
  ]

take-drop-suc :
    (xs : List ℕ) (i n : ℕ)
    → i < length xs
    → take (suc n) (drop i xs) ≡ get_or xs i 0 ∷ take n (drop (suc i) xs)
take-drop-suc [] i n h = absurd (omega arith)
take-drop-suc (x ∷ xs) zero n h = refl
take-drop-suc (x ∷ xs) (suc i) n h = take-drop-suc xs i n (omega arith)

-- Copying from the storage reads a stretch of the ring, if it does not go past the end.
pub copy_from-window :
    (bytes : List ℕ) (size i n : ℕ)
    → length bytes ≡ size
    → i + n ≤ size
    → copy_from bytes i n ≡ window bytes size i n
copy_from-window bytes size i zero e h = refl
copy_from-window bytes size i (suc n) e h =
    let s : suc i ≡ i + 1 = omega arith in
    ground (
      arith,
      take-drop-suc bytes i n (omega arith),
      copy_from-window bytes size (i + 1) n e (omega arith),
      s,
    )

pub get_or-append :
    (xs ys : List ℕ) (j : ℕ)
    → get_or (xs ++ ys) j 0
      ≡ (if ltb j (length xs) then get_or xs j 0 else get_or ys (j - length xs) 0)
get_or-append [] ys j = let e : j - 0 ≡ j = omega arith in ground (arith, e)
get_or-append (x ∷ xs) ys zero = ground arith
get_or-append (x ∷ xs) ys (suc j) = ground (arith, get_or-append xs ys j)

pub get_or-take : (n : ℕ) (xs : List ℕ) (j : ℕ) → j < n → get_or (take n xs) j 0 ≡ get_or xs j 0
get_or-take zero xs j h = absurd (omega arith)
get_or-take (suc n) [] j h = refl
get_or-take (suc n) (x ∷ xs) zero h = refl
get_or-take (suc n) (x ∷ xs) (suc j) h = get_or-take n xs j (omega arith)

pub get_or-drop : (n : ℕ) (xs : List ℕ) (j : ℕ) → get_or (drop n xs) j 0 ≡ get_or xs (n + j) 0
get_or-drop zero xs j = let e : 0 + j ≡ j = omega arith in rw e
get_or-drop (suc n) [] j = refl
get_or-drop (suc n) (x ∷ xs) j =
    let e : suc n + j ≡ suc (n + j) = omega arith in rw e (get_or-drop n xs j)

-- Reading storage after a copy into it.
pub get_or-copy_to :
    (bytes src : List ℕ) (at j : ℕ)
    → at + length src ≤ length bytes
    → get_or (copy_to bytes at src) j 0 ≡ (
        if ltb j at
        then get_or bytes j 0
        else (if ltb j (at + length src) then get_or src (j - at) 0 else get_or bytes j 0))
get_or-copy_to bytes src at j h = ground (
  arith,
  get_or-append (take at bytes) (src ++ drop (at + length src) bytes) j,
  get_or-append src (drop (at + length src) bytes) (j - at),
  get_or-take at bytes j,
  get_or-drop (at + length src) bytes (j - at - length src),
  length-take at bytes,
)

pub length-copy_to :
    (bytes src : List ℕ) (at : ℕ)
    → at + length src ≤ length bytes
    → length (copy_to bytes at src) ≡ length bytes
length-copy_to bytes src at h = omega (
  arith,
  length-append (take at bytes) (src ++ drop (at + length src) bytes),
  length-append src (drop (at + length src) bytes),
  length-take at bytes,
  length-drop (at + length src) bytes,
)

-- Two rings with the same bytes along a stretch.
pub window-same :
    (bytes bytes' : List ℕ) (size h n : ℕ)
    → ((j : ℕ)
        → h ≤ j
        → j < h + n
        → get_or bytes' (around size j) 0 ≡ get_or bytes (around size j) 0)
    → window bytes' size h n ≡ window bytes size h n
window-same bytes bytes' size h zero same = refl
window-same bytes bytes' size h (suc n) same = ground (
  arith,
  same h (omega arith) (omega arith),
  window-same bytes bytes' size (h + 1) n (λ j p q. same j (omega arith) (omega arith)),
)

-- A ring that holds the bytes of `src` along a stretch.
pub window-take :
    (bytes src : List ℕ) (size h n : ℕ)
    → n ≤ length src
    → ((k : ℕ) → k < n → get_or bytes (around size (h + k)) 0 ≡ get_or src k 0)
    → window bytes size h n ≡ take n src
window-take bytes src size h zero le same = refl
window-take bytes [] size h (suc n) le same = absurd (omega arith)
window-take bytes (x ∷ src) size h (suc n) le same =
    let first = same 0 (omega arith) in
    let e : h + 0 ≡ h = omega arith in
    rw
      (
        window-take bytes src size (h + 1) n (omega arith) (λ k p.
            let s = same (suc k) (omega arith) in
            let m : h + suc k ≡ h + 1 + k = omega arith in rw m at s),
        sym (rw e at first),
      )
      refl
