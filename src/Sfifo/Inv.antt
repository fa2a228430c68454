-- ===== src/Sfifo/Inv.antt =====
-- What every call leaves of a FIFO that `sfifo_init` opened, and what `sfifo_used` then counts.
use eel.Prelude.{
  ℕ, zero, suc, ◌+◌, ◌-◌, ◌*◌, ◌%◌, ◌^◌, ◌≤◌, ◌<◌, ◌≡◌, ◌⊎◌, inl, inr, some, List, arith, leb, ltb,
  length, Bool-cases,
}
use native.Mathlib.Nat.{mod_self, mod-eq_of_lt, add-mul-mod_self_right}
use eel.Sfifo.{Fifo, used, space}

-- The storage has `size` bytes, `size` is a divisor of 2 ^ 32, and both positions are in the storage
-- or at its end.
abbrev pub IsValid : Fifo → List ℕ → Type 0
IsValid f bytes =
    (f.buffer ≡ some bytes)
    × (length bytes ≡ f.size)
    × (0 < f.size)
    × (f.size ≤ 2 ^ 30)
    × ((q : ℕ) × (q * f.size ≡ 2 ^ 32))
    × (f.readpos ≤ f.size)
    × (f.writepos ≤ f.size)

-- The way from `r` round to `w`.
abbrev pub Way : ℕ → ℕ → ℕ → ℕ → Type 0
Way size r w u = (u < size) × ((r + u ≡ w) ⊎ ((r + u ≡ w + size) ⊎ (r + u + size ≡ w)))

Way-forward :
    (size r w : ℕ)
    → 0 < size
    → size ≤ 2 ^ 30
    → r ≤ w
    → w ≤ size
    → Way size r w ((w + 2 ^ 32 - r) % 2 ^ 32 % size)
Way-forward size r w pos small le fits =
    let e : (w + 2 ^ 32 - r) % 2 ^ 32 ≡ w - r = omega arith in
    rw e (elim (Bool-cases (ltb (w - r) size)) [
      | inl lt ↦
          let lt' : w - r < size = ground arith in rw (mod-eq_of_lt lt') (lt', inl (omega arith))
      | inr ge ↦
          let same : w - r ≡ size = ground arith in
          rw (same, mod_self size) (pos, inr (inr (omega arith)))
    ])

Way-back :
    (size r w q : ℕ)
    → q * size ≡ 2 ^ 32
    → w < r
    → r ≤ size
    → Way size r w ((w + 2 ^ 32 - r) % 2 ^ 32 % size)
Way-back size r w zero e lt fits = absurd (omega arith)
Way-back size r w (suc q) e lt fits =
    let small : (w + 2 ^ 32 - r) % 2 ^ 32 ≡ w + 2 ^ 32 - r = omega arith in
    let m : (w + 2 ^ 32 - r) ≡ w + size - r + q * size = omega arith in
    let lt' : w + size - r < size = omega arith in
    rw (small, m, add-mul-mod_self_right (w + size - r) q size, mod-eq_of_lt lt')
      (lt', inr (inl (omega arith)))

-- `sfifo_used` counts the bytes from the read position round to the write position.
pub used-Way :
    (f : Fifo) (bytes : List ℕ) → IsValid f bytes → Way f.size f.readpos f.writepos (used f)
unfolding used
used-Way f bytes (b, l, pos, small, (q, e), rle, wle) =
    elim (Bool-cases (leb f.readpos f.writepos)) [
      | inl le ↦ Way-forward f.size f.readpos f.writepos pos small (ground arith) wle
      | inr lt ↦ Way-back f.size f.readpos f.writepos q e (ground arith) rle
    ]

-- In a valid FIFO the bytes in use and the space make up the storage, but for one byte.
pub used-space : (f : Fifo) (bytes : List ℕ) → IsValid f bytes → used f + space f + 1 ≡ f.size
unfolding space
used-space f bytes v = let (lt, w) = used-Way f bytes v in omega arith

-- There is only one way round from one position to another.
pub Way-unique : (size r w u v : ℕ) → r ≤ size → w ≤ size → Way size r w u → Way size r w v → u ≡ v
Way-unique size r w u v rle wle (h, a) (k, b) = ground arith
