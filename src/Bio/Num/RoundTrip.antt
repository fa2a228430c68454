-- ===== src/Bio/Num/RoundTrip.antt =====
-- Whole numbers written with a prefix for the base, and `eel_bio_read_num`.
use eel.Prelude.{
  ℕ, zero, suc, ◌+◌, ◌-◌, ◌*◌, ◌/◌, ◌%◌, ◌^◌, ◌≤◌, ◌<◌, ◌≡◌, ◌≢◌, refl, ap, ◌∙◌, inl, inr, Bool,
  true, false, Option, none, some, List, [], ◌∷◌, ◌++◌, ltb, ◌==◌, if◌then◌else◌, arith, length,
  Bool-cases,
}
use native.Mathlib.Nat.{add-zero, mul_comm, one-mul, mul-one, div-lt_self, div-add-mod, mod-lt}
use eel.Bio.{Bio, last, getchar, ungetc}
use eel.Bio.Num.{
  Fpu, parsed, figure_of, skip, last_is, parse_num, base_switch, read_base, Part, integer_part,
  fraction_part, exponent_part, parts, read_num, bio_read_num,
}
use eel.Bio.Num.Figures.{
  IsExact, AllBelow, value, text, At, At-last, At-skip, At-getchar, length-text, ahead,
  parse_loop_lem,
}

-- The figures of a number, the last one being its remainder. A number needs at most `fuel` of them.
unfoldable pub figures : ℕ → ℕ → ℕ → List ℕ
figures zero base n = []
figures (suc fuel) base n =
    let rest = figures fuel base (n / base) in
    if ltb n base then n ∷ [] else rest ++ (n % base ∷ [])

value-append :
    (base v : ℕ) (fs : List ℕ) (f : ℕ) → value base v (fs ++ (f ∷ [])) ≡ value base v fs * base + f
value-append base v [] f = refl
value-append base v (g ∷ fs) f = value-append base (v * base + g) fs f

AllBelow-append :
    (base : ℕ) (fs : List ℕ) (f : ℕ) → AllBelow base fs → f < base → AllBelow base (fs ++ (f ∷ []))
AllBelow-append base [] f h lt = (lt, tt)
AllBelow-append base (g ∷ fs) f h lt = (h.0, AllBelow-append base fs f h.1 lt)

pub value-figures : (fuel base n : ℕ) → 2 ≤ base → n < fuel → value base 0 (figures fuel base n) ≡ n
unfolding figures
value-figures zero base n h lt = absurd (omega arith)
value-figures (suc fuel) base n h lt = elim (Bool-cases (ltb n base)) [
  | inl small ↦ rw (figures, small) (omega arith)
  | inr big ↦
      let le : base ≤ n = ground arith in
      let shrinks : n / base < n = div-lt_self (omega arith) (omega arith) in
      let ih = value-figures fuel base (n / base) h (omega arith) in
      rw (figures, big)
        (value-append base 0 (figures fuel base (n / base)) (n % base)
          ∙ rw ih (ap (λ m. m + n % base) (mul_comm (n / base) base) ∙ div-add-mod n base))
]

pub AllBelow-figures : (fuel base n : ℕ) → 2 ≤ base → AllBelow base (figures fuel base n)
unfolding figures
AllBelow-figures zero base n h = tt
AllBelow-figures (suc fuel) base n h = elim (Bool-cases (ltb n base)) [
  | inl small ↦ rw (figures, small) (ground arith)
  | inr big ↦
      rw (figures, big)
        (AllBelow-append base _ (n % base) (AllBelow-figures fuel base (n / base) h)
          (mod-lt n (omega arith)))
]

-- The base that a letter after 0 stands for.
abbrev pub base_of : ℕ → Option ℕ
base_of letter =
    if letter == 118
    then some 20
    else if letter == 120
    then some 16
    else if letter == 111
    then some 8
    else if letter == 113
    then some 4
    else if letter == 98
    then some 2
    else none

base_switch-base_of :
    (fuel letter base : ℕ) (b : Bio)
    → base_of letter ≡ some base
    → (base_switch fuel letter b ≡ parsed base (skip b)) × (2 ≤ base) × (base ≤ 36)
unfolding base_switch
base_switch-base_of fuel letter base b h = ground arith

-- A character that ends a numeral, and its fraction and exponent with it.
abbrev pub Ends : ℕ → Type 0
Ends c = (figure_of c ≡ none) × (c ≢ 46) × (c ≢ 64)

-- `pow` of the C library gives 1 for an exponent of 0.
abbrev pub HasPowZero : Fpu → Type 0
HasPowZero fpu = (base : ℕ) → fpu.pow (fpu.of_int base) (fpu.of_int 0) ≡ fpu.of_int 1

last_is-some : (b : Bio) (c d : ℕ) → last b ≡ some c → last_is b d ≡ (c == d)
last_is-some b c d e = rw (last_is, e) refl

text-head :
    (capital : Bool) (fs : List ℕ) (c base p : ℕ) (more : List ℕ) (b : Bio)
    → AllBelow base fs
    → base ≤ 36
    → c ≢ 46
    → At b p (text capital fs (c ∷ more))
    → last_is b 46 ≡ false
text-head capital [] c base p more b below le h at =
    last_is-some b c 46 (At-last b p c more at) ∙ ground arith
text-head true (f ∷ fs) c base p more b (lt, below) le h at =
    last_is-some b _ 46 (At-last b p _ _ at) ∙ ground arith
text-head false (f ∷ fs) c base p more b (lt, below) le h at =
    last_is-some b _ 46 (At-last b p _ _ at) ∙ ground arith

module _ (fpu : Fpu) (base c : ℕ) (b : Bio) (e : last b ≡ some c) (ends : Ends c) where
  exponent_part-none : (fuel : ℕ) → exponent_part fpu fuel base b ≡ parsed (fpu.of_int 0) b
  unfolding exponent_part
  exponent_part-none fuel =
      let (f, d, a) = ends in
      rw
        (
          exponent_part,
          last_is-some b c 101 e,
          last_is-some b c 69 e,
          last_is-some b c 112 e,
          last_is-some b c 80 e,
          last_is-some b c 64 e,
        )
        (ground arith)

  fraction_part-none :
      (fuel : ℕ) (part : Part)
      → part.has_dot ≡ false
      → fraction_part fpu fuel base part b
        ≡ parsed (record part { value = fpu.add part.value (fpu.of_int 0) }) b
  unfolding fraction_part
  fraction_part-none fuel part h =
      let no_dot : (c == 46) ≡ false = ground arith in
      rw (fraction_part, last_is-some b c 46 e, no_dot, h) refl

module _ (fpu : Fpu) (exact : IsExact fpu) (pow_zero : HasPowZero fpu) (capital : Bool) (base c : ℕ)
    (more : List ℕ) (le : base ≤ 36) (ends : Ends c) (fs : List ℕ) (below : AllBelow base fs)
    (small : value base 0 fs ≤ 2 ^ 53) (fuel : ℕ) (lt : length fs < fuel) where
  integer_part-figures :
      (p : ℕ) (b : Bio)
      → At b p (text capital fs (c ∷ more))
      → integer_part fpu fuel base true b
        ≡ parsed
            (record { has_integer = true; has_dot = false; value = fpu.of_int (value base 0 fs) })
            (ahead b (length fs))
  unfolding integer_part parse_num
  integer_part-figures p b at =
      let loop =
        parse_loop_lem fpu exact capital base le c more ends.0 fs fuel 0 0 p b lt below small at in
      let enough : ltb (0 + length fs) 0 ≡ false = ground arith in
      let no_dot = text-head capital fs c base p more b below le ends.1 at in
      rw (integer_part, no_dot, parse_num, loop.0, enough) refl

  parts-figures :
      (p : ℕ) (b : Bio)
      → At b p (text capital fs (c ∷ more))
      → parts fpu fuel base true b
        ≡ parsed (false, fpu.of_int (value base 0 fs)) (ahead b (length fs))
  unfolding parts
  parts-figures p b at =
      let loop =
        parse_loop_lem fpu exact capital base le c more ends.0 fs fuel 0 0 p b lt below small at in
      let l = At-last (ahead b (length fs)) (p + length fs) c more loop.1 in
      let n = value base 0 fs in
      let part : Part = record { has_integer = true; has_dot = false; value = fpu.of_int n } in
      let plus = exact.1 n 0 (omega arith) in
      let times1 = exact.0 1 n (omega arith) in
      let times2 = exact.0 n 1 (omega arith) in
      rw
        (
          parts,
          integer_part-figures p b at,
          fraction_part-none fpu base c (ahead b (length fs)) l ends fuel part refl,
          exponent_part-none fpu base c (ahead b (length fs)) l ends fuel,
          plus,
          add-zero n,
          times1,
          one-mul n,
          pow_zero base,
          times2,
          mul-one n,
        )
        refl

  read_num-figures :
      (letter p : ℕ) (b : Bio)
      → base_of letter ≡ some base
      → At b p (48 ∷ letter ∷ text capital fs (c ∷ more))
      → read_num fpu fuel b ≡ parsed (false, fpu.of_int (value base 0 fs)) (ahead b (2 + length fs))
  unfolding read_num read_base
  read_num-figures letter p b h at =
      let (g1, at1) = At-getchar b p 48 letter (text capital fs (c ∷ more)) at in
      let (g2, at2) =
        At-skip (ahead b 1) (suc p) letter (text capital fs (c ∷ more)) at1
          (length-text capital fs c more) in
      let (switch, two, most) = base_switch-base_of fuel letter base (ahead b 1) h in
      let fits : ltb 36 base ≡ false = ground arith in
      let c1 : (getchar b).0 ≡ some letter = ap (λ x. x.0) g1 in
      let b1 : skip b ≡ ahead b 1 = ap (λ x. x.1) g1 in
      let n1 : b.place + 1 + 1 + length fs ≡ b.place + (2 + length fs) = omega arith in
      rw
        (
          read_num,
          At-last b p 48 _ at,
          read_base,
          c1,
          b1,
          switch,
          g2,
          fits,
          parts-figures (suc (suc p)) (ahead (ahead b 1) 1) at2,
        )
        (rw n1 refl)

-- A whole number up to 2 ^ 53 that is written with the prefix of its base, in small or in capital
-- letters, and followed by a character that cannot belong to it, is read back by `eel_bio_read_num` as
-- that number, as a whole number, with the read position at the following character; provided that
-- the floating point unit is exact on whole numbers up to 2 ^ 53 and `pow` gives 1 for exponent 0.
pub bio_read_num-figures :
    (fpu : Fpu)
    → IsExact fpu
    → HasPowZero fpu
    → (capital : Bool) (letter base n c : ℕ) (more : List ℕ) (fuel p : ℕ) (b : Bio)
    → base_of letter ≡ some base
    → n ≤ 2 ^ 53
    → Ends c
    → length (figures (suc n) base n) < fuel
    → At b p (48 ∷ letter ∷ text capital (figures (suc n) base n) (c ∷ more))
    → bio_read_num fpu fuel b
      ≡ parsed (false, fpu.of_int n) (ahead b (1 + length (figures (suc n) base n)))
unfolding bio_read_num ungetc
bio_read_num-figures fpu exact pow_zero capital letter base n c more fuel p b h small ends lt at =
    let (_, two, most) = base_switch-base_of fuel letter base b h in
    let v = value-figures (suc n) base n two (omega arith) in
    let fs = figures (suc n) base n in
    let below = AllBelow-figures (suc n) base n two in
    let read =
      read_num-figures fpu exact pow_zero capital base c more most ends fs below (rw v small) fuel
        lt letter p b h at in
    let n1 : b.place + (2 + length fs) - 1 ≡ b.place + (1 + length fs) = omega arith in
    rw (read, ungetc, n1, v) refl
