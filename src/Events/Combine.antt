-- ===== src/Events/Combine.antt =====
-- The sum of the states of branches in `eel_e_merge`, and what is known of several branches.
use eel.Prelude.{ℕ, suc, ◌+◌, ◌*◌, ◌<◌, ◌≡◌, List, [], ◌∷◌, ltb, if◌then◌else◌, length, arith}
use eel.Events.{Cestate, eno, emaybe, eyes, rank, Cevlist, sum_states, process}

-- What is known where either of two branches is taken.
abbrev pub agree : Cestate → Cestate → Cestate
agree eyes eyes = eyes
agree eno eno = eno
agree _ _ = emaybe

-- What is known where one of several branches is taken.
abbrev pub combine : ℕ → Cevlist → List Cevlist → Cestate
combine i e [] = e.events i
combine i e (e' ∷ es) = agree (e.events i) (combine i e' es)

-- At most the modulator.
abbrev pub cap : Cestate → Cestate → Cestate
cap modulator s = if ltb (rank modulator) (rank s) then modulator else s

-- What the sum over `n` branches is.
abbrev pub Sums : Cestate → ℕ → ℕ → Type 0
Sums eno n sum = sum ≡ 0
Sums eyes n sum = sum ≡ n * 2
Sums emaybe n sum = (0 < sum) × (sum < n * 2)

Sums-agree :
    (s t : Cestate) (n sum : ℕ) → 0 < n → Sums t n sum → Sums (agree s t) (suc n) (rank s + sum)
Sums-agree eno eno n sum p h = omega arith
Sums-agree eno emaybe n sum p h = omega arith
Sums-agree eno eyes n sum p h = omega arith
Sums-agree emaybe eno n sum p h = omega arith
Sums-agree emaybe emaybe n sum p h = omega arith
Sums-agree emaybe eyes n sum p h = omega arith
Sums-agree eyes eno n sum p h = omega arith
Sums-agree eyes emaybe n sum p h = omega arith
Sums-agree eyes eyes n sum p h = omega arith

Sums-rank : (s : Cestate) → Sums s 1 (rank s + 0)
Sums-rank eno = omega arith
Sums-rank emaybe = omega arith
Sums-rank eyes = omega arith

Sums-combine :
    (i : ℕ) (e : Cevlist) (es : List Cevlist)
    → Sums (combine i e es) (length (e ∷ es)) (sum_states i (e ∷ es))
Sums-combine i e [] = Sums-rank (e.events i)
Sums-combine i e (e' ∷ es) =
    Sums-agree (e.events i) (combine i e' es) (length (e' ∷ es)) (sum_states i (e' ∷ es))
      (omega arith) (Sums-combine i e' es)

process-Sums : (s m : Cestate) (n sum : ℕ) → 0 < n → Sums s n sum → process n sum m ≡ cap m s
unfolding process
process-Sums eno m n sum p h = ground arith
process-Sums emaybe m n sum p h = ground arith
process-Sums eyes m n sum p h = ground arith

-- The sum of the states, compared with twice the number of the branches, gives what is known where
-- one of the branches is taken, at most the modulator.
pub process-combine :
    (i : ℕ) (e : Cevlist) (es : List Cevlist) (m : Cestate)
    → process (length (e ∷ es)) (sum_states i (e ∷ es)) m ≡ cap m (combine i e es)
process-combine i e es m =
    process-Sums (combine i e es) m (length (e ∷ es)) (sum_states i (e ∷ es)) (omega arith)
      (Sums-combine i e es)
