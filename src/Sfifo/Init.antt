-- ===== src/Sfifo/Init.antt =====
-- `sfifo_init`: the size that it chooses, and the sizes with which it does not return.
use eel.Prelude.{
  ℕ, zero, suc, ◌*◌, ◌%◌, ◌^◌, ◌≤◌, ◌<◌, ◌≡◌, ◌⊎◌, inl, inr, refl, Bool, true, none, some, arith,
  leb, ap, ◌∙◌, Bool-cases, replicate,
}
use native.Mathlib.Nat.{pow-suc, one-le-pow}
use eel.Sfifo.{sizing, failed, opened, hangs, init}

two_pow_suc : (s n : ℕ) → s * 2 ^ suc n ≡ s * 2 * 2 ^ n
two_pow_suc s n = omega (arith, pow-suc 2 n, ap (λ (p : ℕ). s * p) (pow-suc 2 n))

start_small : (s d : ℕ) → s * 2 ^ d ≡ 2 ^ 30 → s ≤ 2 ^ 30
start_small s d e = let one = one-le-pow d 2 (omega arith) in grind arith

module _ (fuel size s : ℕ) where
  sizing-again :
      (2 ^ 31 ≤ s) ⊎ (s ≤ size) → sizing (suc fuel) size s ≡ sizing fuel size (s * 2 % 2 ^ 32)
  unfolding sizing
  sizing-again h = ground arith

  sizing-stop : s < 2 ^ 31 → size < s → sizing (suc fuel) size s ≡ some s
  unfolding sizing
  sizing-stop h k = ground arith

-- The loop, started at `s`, ends with a power of two times `s`.
abbrev Ends : ℕ → ℕ → ℕ → Type 0
Ends size d s =
    (i : ℕ) × (i ≤ d)
    × (sizing (suc d) size s ≡ some (s * 2 ^ i))
    × (size < s * 2 ^ i)
    × ((i ≡ 0) ⊎ (s * 2 ^ i ≤ 2 * size))

Ends-now : (size d s : ℕ) → s ≤ 2 ^ 30 → size < s → Ends size d s
Ends-now size d s top over = (
  0,
  omega arith,
  rw (sizing-stop d size s (omega arith) over) (ap some (omega arith)),
  omega arith,
  inl refl,
)

Ends-double : (size d s : ℕ) → s < 2 ^ 30 → s ≤ size → Ends size d (s * 2) → Ends size (suc d) s
Ends-double size d s top low (i, le, ends, enough, tight) =
    let fits : s * 2 % 2 ^ 32 ≡ s * 2 = omega arith in
    (
      suc i,
      omega arith,
      rw (sizing-again (suc d) size s (inr low), fits, ends, two_pow_suc s i),
      omega (arith, two_pow_suc s i),
      inr (double i tight),
    )
  where
    double : (i : ℕ) → (i ≡ 0) ⊎ (s * 2 * 2 ^ i ≤ 2 * size) → s * 2 ^ suc i ≤ 2 * size
    double zero t = omega arith
    double (suc i) (inl z) = absurd (omega arith)
    double (suc i) (inr t) = omega (arith, two_pow_suc s (suc i))

sizing-Ends : (size d s : ℕ) → size < 2 ^ 30 → s * 2 ^ d ≡ 2 ^ 30 → Ends size d s
sizing-Ends size zero s small e = Ends-now size 0 s (omega arith) (omega arith)
sizing-Ends size (suc d) s small e = elim (Bool-cases (leb s size)) [
  | inl again ↦
      let low : s ≤ size = ground arith in
      Ends-double size d s (omega arith) low
        (sizing-Ends size d (s * 2) small (omega (arith, two_pow_suc s d)))
  | inr done ↦ Ends-now size (suc d) s (start_small s (suc d) e) (ground arith)
]

-- The states of the loop with a size from 2 ^ 30 on.
abbrev Stuck : ℕ → Type 0
Stuck s = (s ≡ 0) ⊎ ((s ≡ 2 ^ 31) ⊎ ((i : ℕ) × (s * 2 ^ i ≡ 2 ^ 30)))

Stuck-double : (s : ℕ) → Stuck s → Stuck (s * 2 % 2 ^ 32)
Stuck-double s (inl e) = inl (rw e)
Stuck-double s (inr (inl e)) = inl (rw e)
Stuck-double s (inr (inr (zero, e))) = inr (inl (omega arith))
Stuck-double s (inr (inr (suc i, e))) =
    let top = start_small s (suc i) e in
    let fits : s * 2 % 2 ^ 32 ≡ s * 2 = omega arith in
    inr (inr (i, rw fits (omega (arith, two_pow_suc s i))))

Stuck-again : (s size : ℕ) → 2 ^ 30 ≤ size → Stuck s → (2 ^ 31 ≤ s) ⊎ (s ≤ size)
Stuck-again s size big (inl e) = inr (omega arith)
Stuck-again s size big (inr (inl e)) = inl (omega arith)
Stuck-again s size big (inr (inr (i, e))) = inr (omega (arith, start_small s i e))

-- Whatever number of rounds it is given, the loop that looks for a sufficient power of two does not
-- end with a size from 2 ^ 30 on.
pub sizing_hangs : (size fuel : ℕ) → 2 ^ 30 ≤ size → sizing fuel size 1 ≡ none
sizing_hangs size fuel big = stuck_hangs fuel 1 (inr (inr (30, omega arith)))
  where
    stuck_hangs : (fuel s : ℕ) → Stuck s → sizing fuel size s ≡ none
    stuck_hangs zero s st = unfold sizing in refl
    stuck_hangs (suc fuel) s st =
        sizing-again fuel size s (Stuck-again s size big st)
        ∙ stuck_hangs fuel (s * 2 % 2 ^ 32) (Stuck-double s st)

-- For a size below 2 ^ 30, and with memory, `sfifo_init` opens an empty FIFO: its size is a power of
-- two, above the size asked for and at most twice that (or 1), and its buffer has that size.
pub init_opens :
    (malloc : ℕ → Bool) (junk size : ℕ)
    → size < 2 ^ 30
    → ((n : ℕ) → malloc n ≡ true)
    → (i : ℕ) × (i ≤ 30)
      × (init malloc junk size
          ≡ opened (record {
            buffer = some (replicate (2 ^ i) junk);
            size = 2 ^ i;
            readpos = 0;
            writepos = 0;
          }))
      × (size < 2 ^ i)
      × ((i ≡ 0) ⊎ (2 ^ i ≤ 2 * size))
unfolding init
init_opens malloc junk size small good = from_loop (sizing-Ends size 30 1 small (omega arith))
  where
    from_loop :
        Ends size 30 1
        → (i : ℕ) × (i ≤ 30)
          × (init malloc junk size
              ≡ opened (record {
                buffer = some (replicate (2 ^ i) junk);
                size = 2 ^ i;
                readpos = 0;
                writepos = 0;
              }))
          × (size < 2 ^ i)
          × ((i ≡ 0) ⊎ (2 ^ i ≤ 2 * size))
    from_loop (i, le, ends, enough, tight) =
        let one : 1 * 2 ^ i ≡ 2 ^ i = omega arith in
        (i, le, ground (arith, ends, one, good (2 ^ i)), omega arith, rw one at tight)

-- For a size from 2 ^ 30 on that the guard lets pass, `sfifo_init` comes to the loop that does not
-- end.
pub init_hangs :
    (malloc : ℕ → Bool) (junk size : ℕ)
    → 2 ^ 30 ≤ size
    → size < 2 ^ 31
    → init malloc junk size ≡ failed hangs
unfolding init
init_hangs malloc junk size big int = ground (arith, sizing_hangs size 31 big)
