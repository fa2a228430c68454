-- ===== src/Bio/Num.antt =====
-- Numbers in the source text: getfigure, parse_num, read_num and eel_bio_read_num of
-- src/core/eelc/ec_bio.c.
pub mod Moves
pub mod Total
pub mod Figures
pub mod RoundTrip
use eel.Prelude.{
  ℕ, zero, suc, ◌+◌, ◌-◌, ◌*◌, ◌%◌, ◌^◌, Bool, true, false, not, ◌&&◌, ◌||◌, Option, none, some,
  List, leb, ltb, ◌==◌, if◌then◌else◌,
}
use eel.Prelude.Int.{pos}
use eel.Exceptions.{Xno, xnonumber, xbadbase, xbigbase, xbadinteger, xbadexponent}
use eel.Bio.{Bio, last, getchar, ungetc, seek_set}

-- Doubles are their bits. The floating point unit and `pow` of the C library are not in the source.
pub record Fpu : Type 0 where
  pub of_int : ℕ → ℕ
  pub minus_one : ℕ
  pub add : ℕ → ℕ → ℕ
  pub mul : ℕ → ℕ → ℕ
  pub div : ℕ → ℕ → ℕ
  pub pow : ℕ → ℕ → ℕ

-- What a routine comes to: a loop that does not end, an exception, or a value; with the input as it
-- leaves it.
pub data Parsed {ℓ} (A : Type ℓ) : Type ℓ where
  hangs : Parsed A
  failed : Xno → Bio → Parsed A
  parsed : A → Bio → Parsed A

abbrev pub and_then {ℓ κ} : {A : Type ℓ} {B : Type κ} → Parsed A → (A → Bio → Parsed B) → Parsed B
and_then hangs k = hangs
and_then (failed x b) k = failed x b
and_then (parsed a b) k = k a b

-- `IS_NUM`
abbrev pub is_num : ℕ → Bool
is_num c = leb 48 c && leb c 57

abbrev pub figure_of : ℕ → Option ℕ
figure_of c =
    if is_num c
    then some (c - 48)
    else if ltb c 65
    then none
    else (let c = if leb 97 c then c - 32 else c in if ltb 90 c then none else some (c - 65 + 10))

-- `getfigure`: `none` is a negative result.
unfoldable pub getfigure : Bio → Option ℕ
getfigure b = elim (last b) [ none ↦ none | some c ↦ figure_of c ]

-- `getchar`, its result dropped.
abbrev pub skip : Bio → Bio
skip b = (getchar b).1

-- Whether the last character is `c`.
abbrev pub last_is : Bio → ℕ → Bool
last_is b c = elim (last b) [ none ↦ false | some d ↦ d == c ]

module _ (fpu : Fpu) where
  -- The loop of `parse_num`, with the figures so far and their value, on fuel.
  unfoldable pub parse_loop : ℕ → ℕ → ℕ → ℕ → Bio → Parsed (ℕ × ℕ)
  parse_loop zero base figures v b = hangs
  parse_loop (suc fuel) base figures v b = elim (getfigure b) [
    | none ↦ parsed (figures, v) b
    | some f ↦
        let rest =
          parse_loop fuel base (figures + 1) (fpu.add (fpu.mul v (fpu.of_int base)) (fpu.of_int f))
            (skip b) in
        if leb base f then parsed (figures, v) b else rest
  ]

  -- `parse_num`: the number of figures, and `*v`.
  unfoldable pub parse_num : ℕ → ℕ → Bio → Parsed (ℕ × ℕ)
  parse_num fuel base b = parse_loop fuel base 0 (fpu.of_int 0) b

-- The loop of case 'n' in `read_num`; the base is an `int`, kept as its bit pattern.
unfoldable pub base_loop : ℕ → ℕ → Bio → Parsed ℕ
base_loop zero base b = hangs
base_loop (suc fuel) base b =
    let (r, b') = getchar b in
    elim r [
      | none ↦ failed xbadbase b'
      | some c ↦
          let rest = base_loop fuel ((base * 10 + (c - 48)) % 2 ^ 32) b' in
          if c == 41
          then parsed base (skip b')
          else if not (is_num c)
          then failed xbadbase b'
          else rest
    ]

-- Case 'n': any base.
unfoldable pub any_base : ℕ → Bio → Parsed ℕ
any_base fuel b =
    let (r, b') = getchar b in
    if (elim r [ none ↦ false | some c ↦ c == 40 ])
    then and_then (base_loop fuel 0 b')
        (λ base b. if leb (2 ^ 31) base || ltb base 2 then failed xbadbase b else parsed base b)
    else failed xbadbase b'

-- Case 'd': decimal or, with another 'd', duodecimal.
unfoldable pub decimal_base : Bio → Parsed ℕ
decimal_base b =
    let (r, b') = getchar b in
    elim r [
      | none ↦ failed xnonumber b'
      | some c ↦ if c == 100 then parsed 12 (skip b') else parsed 10 b'
    ]

-- The `switch` on the character after a 0.
unfoldable pub base_switch : ℕ → ℕ → Bio → Parsed ℕ
base_switch fuel c b =
    if c == 118
    then parsed 20 (skip b)
    else if c == 120
    then parsed 16 (skip b)
    else if c == 100
    then decimal_base b
    else if c == 111
    then parsed 8 (skip b)
    else if c == 113
    then parsed 4 (skip b)
    else if c == 98
    then parsed 2 (skip b)
    else if c == 110
    then any_base fuel b
    else parsed 10 (ungetc b)

-- The base, once a 0 was the last character: `none` where the text ends there, which is the number 0.
unfoldable pub read_base : ℕ → Bio → Parsed (Option ℕ)
read_base fuel b =
    let (r, b') = getchar b in
    elim r [
      | none ↦ parsed none b'
      | some c ↦
          and_then (base_switch fuel c b')
            (λ base b. if ltb 36 base then failed xbigbase b else parsed (some base) b)
    ]

-- Back to the start after a failure, and one step back after a number.
abbrev pub settle {ℓ} : {A : Type ℓ} → Bio → Parsed A → Parsed A
settle b hangs = hangs
settle b (failed x c) = failed x (seek_set c (pos b.place)).1
settle b (parsed v c) = parsed v (ungetc c)

-- What the parts of a number leave behind: `has_integer`, `has_dot`, and the value so far.
pub record Part : Type 0 where
  pub has_integer : Bool
  pub has_dot : Bool
  pub value : ℕ

module _ (fpu : Fpu) where
  -- "Integer part"
  unfoldable pub integer_part : ℕ → ℕ → Bool → Bio → Parsed Part
  integer_part fuel base has_integer b =
      if last_is b 46
      then parsed (record { has_integer = has_integer; has_dot = true; value = fpu.of_int 0 }) b
      else and_then (parse_num fpu fuel base b) (λ r b.
        if ltb r.0 (if has_integer then 0 else 1)
        then failed xbadinteger b
        else parsed (record { has_integer = true; has_dot = false; value = r.1 }) b)

  -- `f`, divided by the base to the number of its figures, if there are any.
  abbrev pub scale : ℕ → ℕ × ℕ → ℕ
  scale base r = if r.0 == 0 then r.1 else fpu.div r.1 (fpu.pow (fpu.of_int base) (fpu.of_int r.0))

  -- "Fraction part", and the check that a dot does not stand alone: the value is `i + f`.
  unfoldable pub fraction_part : ℕ → ℕ → Part → Bio → Parsed Part
  fraction_part fuel base part b =
      if last_is b 46
      then and_then (parse_num fpu fuel base (skip b)) (λ r b.
        if part.has_integer || ltb 0 r.0
        then parsed (record part { has_dot = true; value = fpu.add part.value (scale base r) }) b
        else failed xnonumber b)
      else if part.has_dot && not part.has_integer
      then failed xnonumber b
      else parsed (record part { value = fpu.add part.value (fpu.of_int 0) }) b

  -- The sign and the figures after the mark of an exponent.
  unfoldable pub exponent : ℕ → ℕ → Bio → Parsed ℕ
  exponent fuel base b =
      let (r, b') = getchar b in
      elim r [
        | none ↦ failed xbadexponent b'
        | some c ↦
            let esign = if c == 45 then fpu.minus_one else fpu.of_int 1 in
            and_then (parse_num fpu fuel base (if (c == 45) || (c == 43) then skip b' else b'))
              (λ r b. if r.0 == 0 then failed xbadexponent b else parsed (fpu.mul r.1 esign) b)
      ]

  -- "Exponent part": the exponent is 0 where there is none.
  unfoldable pub exponent_part : ℕ → ℕ → Bio → Parsed ℕ
  exponent_part fuel base b =
      if last_is b 101 || last_is b 69 || last_is b 112 || last_is b 80 || last_is b 64
      then exponent fuel base b
      else parsed (fpu.of_int 0) b

  -- All three parts; whether the number is real (EEL_XREALNUMBER), and its value.
  unfoldable pub parts : ℕ → ℕ → Bool → Bio → Parsed (Bool × ℕ)
  parts fuel base has_integer b = and_then (integer_part fuel base has_integer b) (λ i b.
      and_then (fraction_part fuel base i b) (λ f b. and_then (exponent_part fuel base b) (λ e b.
        parsed (f.has_dot, fpu.mul (fpu.mul (fpu.of_int 1) f.value) (fpu.pow (fpu.of_int base) e))
          b)))

  -- `read_num` once the base is known, after a 0.
  abbrev pub after_base : ℕ → Option ℕ → Bio → Parsed (Bool × ℕ)
  after_base fuel none b = parsed (false, fpu.of_int 0) b
  after_base fuel (some base) b = parts fuel base true b

  -- `read_num`
  unfoldable pub read_num : ℕ → Bio → Parsed (Bool × ℕ)
  read_num fuel b = elim (last b) [
    | none ↦ failed xnonumber b
    | some c ↦
        if not (is_num c) && not (c == 46)
        then failed xnonumber b
        else if c == 48
        then and_then (read_base fuel b) (after_base fuel)
        else parts fuel 10 false b
  ]

  -- `eel_bio_read_num`
  unfoldable pub bio_read_num : ℕ → Bio → Parsed (Bool × ℕ)
  bio_read_num fuel b = settle b (read_num fuel b)
