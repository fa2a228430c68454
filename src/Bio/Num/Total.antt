-- ===== src/Bio/Num/Total.antt =====
-- The loops of `eel_bio_read_num`: whether they end, and what happens at the end of the buffer.
use eel.Prelude.{
  ℕ, zero, suc, ◌+◌, ◌-◌, ◌*◌, ◌%◌, ◌^◌, ◌≤◌, ◌<◌, ◌≡◌, ◌≢◌, refl, ap, ◌∙◌, inl, inr, Bool, true,
  false, not, ◌&&◌, ◌||◌, Option, none, some, leb, ltb, ◌==◌, if◌then◌else◌, arith, length, get_or,
  Bool-cases, Option-cases,
}
use eel.Bio.{Bio, last, getchar, ungetc}
use eel.Bio.Num.{
  is_num, Fpu, Parsed, hangs, failed, parsed, and_then, figure_of, getfigure, skip, last_is,
  parse_loop, parse_num, base_loop, any_base, decimal_base, base_switch, read_base, Part,
  integer_part, fraction_part, exponent, exponent_part, parts, after_base, read_num, settle,
  bio_read_num,
}

-- The position is in the buffer, whose last byte cannot be a figure of any number, and there is fuel
-- for every byte.
abbrev pub IsClosed : ℕ → Bio → Type 0
IsClosed fuel b =
    (b.place ≤ length b.buffer)
    × (figure_of (get_or b.buffer (length b.buffer - 1) 0) ≡ none)
    × (length b.buffer < fuel)

-- A result, and an input on which the next routine also has a result.
abbrev pub Returns {ℓ} : {A : Type ℓ} → ℕ → Parsed A → Type 0
Returns fuel hangs = ⊥
Returns fuel (failed x b) = Unit
Returns fuel (parsed a b) = IsClosed fuel b

Returns-and_then {ℓ κ} :
    {A : Type ℓ} {B : Type κ} (fuel : ℕ) (m : Parsed A) (k : A → Bio → Parsed B)
    → Returns fuel m
    → ((a : A) (b : Bio) → IsClosed fuel b → Returns fuel (k a b))
    → Returns fuel (and_then m k)
Returns-and_then fuel hangs k h next = elim h [ ]
Returns-and_then fuel (failed x b) k h next = tt
Returns-and_then fuel (parsed a b) k h next = next a b h

Returns-if {ℓ} :
    {A : Type ℓ} (fuel : ℕ) (t : Bool) (m n : Parsed A)
    → Returns fuel m
    → Returns fuel n
    → Returns fuel (if t then m else n)
Returns-if fuel true m n h k = h
Returns-if fuel false m n h k = k

getfigure-end :
    (b : Bio)
    → figure_of (get_or b.buffer (length b.buffer - 1) 0) ≡ none
    → b.place ≡ length b.buffer
    → getfigure b ≡ none
unfolding getfigure last
getfigure-end b h e = elim (Bool-cases (b.place == 0)) [
  | inl start ↦ rw (getfigure, last, start) refl
  | inr inside ↦ rw (getfigure, last, inside, e) h
]

IsClosed-skip : (fuel : ℕ) (b : Bio) → IsClosed fuel b → IsClosed fuel (skip b)
unfolding getchar
IsClosed-skip fuel b h = ground arith

IsClosed-ungetc : (fuel : ℕ) (b : Bio) → IsClosed fuel b → IsClosed fuel (ungetc b)
unfolding ungetc
IsClosed-ungetc fuel b h = ground arith

-- Before the end, a step consumes a byte.
skip_moves :
    (b : Bio) (n : ℕ)
    → b.place < length b.buffer
    → length b.buffer - b.place < suc n
    → length (skip b).buffer - (skip b).place < n
unfolding getchar
skip_moves b n h le = ground arith

getchar-some : (b : Bio) (c : ℕ) → (getchar b).0 ≡ some c → b.place < length b.buffer
unfolding getchar
getchar-some b c e = ground arith

skip-buffer : (b : Bio) (n : ℕ) → length b.buffer < n → length (skip b).buffer < n
unfolding getchar
skip-buffer b n h = ground arith

skip-short : (b : Bio) (n : ℕ) → length b.buffer < n → length (skip b).buffer - (skip b).place < n
skip-short b n h = omega (arith, skip-buffer b n h)

module _ (fpu : Fpu) (top : ℕ) where
  Returns-parse_loop :
      (fuel base figures v : ℕ) (b : Bio)
      → IsClosed top b
      → length b.buffer - b.place < fuel
      → Returns top (parse_loop fpu fuel base figures v b)
  unfolding parse_loop
  Returns-parse_loop zero base figures v b h lt = absurd (omega arith)
  Returns-parse_loop (suc fuel) base figures v b h lt = elim (Option-cases (getfigure b)) [
    | inl e ↦ rw (parse_loop, e) h
    | inr (f, e) ↦
        let before : b.place < length b.buffer = ground (arith, getfigure-end b h.1) in
        rw (parse_loop, e)
          (Returns-if top (leb base f) _ _ h (
            Returns-parse_loop fuel base (figures + 1) _ (skip b) (IsClosed-skip top b h)
              (skip_moves b fuel before lt)))
  ]

  Returns-parse_num :
      (fuel base : ℕ) (b : Bio)
      → IsClosed top b
      → length b.buffer < fuel
      → Returns top (parse_num fpu fuel base b)
  unfolding parse_num
  Returns-parse_num fuel base b h lt =
      Returns-parse_loop fuel base 0 (fpu.of_int 0) b h (omega arith)

module _ (top : ℕ) where
  Returns-base_loop :
      (n base : ℕ) (b : Bio)
      → IsClosed top b
      → length b.buffer - b.place < n
      → Returns top (base_loop n base b)
  unfolding base_loop
  Returns-base_loop zero base b h lt = absurd (omega arith)
  Returns-base_loop (suc n) base b h lt =
      let h1 = IsClosed-skip top b h in
      let h2 = IsClosed-skip top (skip b) h1 in
      elim (Option-cases (getchar b).0) [
        | inl e ↦ rw (base_loop, e) tt
        | inr (d, e) ↦
            let before : b.place < length b.buffer = getchar-some b d e in
            let rec =
              Returns-base_loop n ((base * 10 + (d - 48)) % 2 ^ 32) (skip b) h1
                (skip_moves b n before lt) in
            rw (base_loop, e)
              (Returns-if top (d == 41) _ _ h2 (Returns-if top (not (is_num d)) _ _ tt rec))
      ]

  Returns-any_base :
      (fuel : ℕ) (b : Bio) → IsClosed top b → length b.buffer < fuel → Returns top (any_base fuel b)
  unfolding any_base
  Returns-any_base fuel b h lt =
      let h1 = IsClosed-skip top b h in
      let rec =
        Returns-and_then top (base_loop fuel 0 (skip b)) _
          (Returns-base_loop fuel 0 (skip b) h1 (skip-short b fuel lt))
          (λ base d p. Returns-if top (leb (2 ^ 31) base || ltb base 2) _ _ tt p) in
      elim (Option-cases (getchar b).0) [
        | inl e ↦ rw (any_base, e) tt
        | inr (d, e) ↦ rw (any_base, e) (Returns-if top (d == 40) _ _ rec tt)
      ]

  Returns-decimal_base : (b : Bio) → IsClosed top b → Returns top (decimal_base b)
  unfolding decimal_base
  Returns-decimal_base b h =
      let h1 = IsClosed-skip top b h in
      let h2 = IsClosed-skip top (skip b) h1 in
      elim (Option-cases (getchar b).0) [
        | inl e ↦ rw (decimal_base, e) tt
        | inr (d, e) ↦ rw (decimal_base, e) (Returns-if top (d == 100) _ _ h2 h1)
      ]

  Returns-base_switch :
      (fuel ch : ℕ) (b : Bio)
      → IsClosed top b
      → length b.buffer < fuel
      → Returns top (base_switch fuel ch b)
  unfolding base_switch
  Returns-base_switch fuel ch b h lt = ground (
    arith,
    IsClosed-skip top b h,
    IsClosed-ungetc top b h,
    Returns-decimal_base b h,
    Returns-any_base fuel b h lt,
  )

  Returns-read_base :
      (fuel : ℕ) (b : Bio)
      → IsClosed top b
      → length b.buffer < fuel
      → Returns top (read_base fuel b)
  unfolding read_base
  Returns-read_base fuel b h lt =
      let h1 = IsClosed-skip top b h in
      elim (Option-cases (getchar b).0) [
        | inl e ↦ rw (read_base, e) h1
        | inr (d, e) ↦
            rw (read_base, e)
              (Returns-and_then top (base_switch fuel d (skip b)) _
                (Returns-base_switch fuel d (skip b) h1 (skip-buffer b fuel lt))
                (λ base c p. Returns-if top (ltb 36 base) _ _ tt p))
      ]

module _ (fpu : Fpu) (fuel base : ℕ) where
  Returns-integer_part :
      (has_integer : Bool) (b : Bio)
      → IsClosed fuel b
      → Returns fuel (integer_part fpu fuel base has_integer b)
  unfolding integer_part
  Returns-integer_part has_integer b h =
      let num =
        Returns-and_then fuel (parse_num fpu fuel base b) _
          (Returns-parse_num fpu fuel fuel base b h h.2)
          (λ r c p. Returns-if fuel (ltb r.0 (if has_integer then 0 else 1)) _ _ tt p) in
      elim (Bool-cases (last_is b 46)) [
        | inl dot ↦ rw (integer_part, dot) h
        | inr e ↦ rw (integer_part, e) num
      ]

  Returns-fraction_part :
      (part : Part) (b : Bio) → IsClosed fuel b → Returns fuel (fraction_part fpu fuel base part b)
  unfolding fraction_part
  Returns-fraction_part part b h =
      let h1 = IsClosed-skip fuel b h in
      let num =
        Returns-and_then fuel (parse_num fpu fuel base (skip b)) _
          (Returns-parse_num fpu fuel fuel base (skip b) h1 h1.2)
          (λ r c p. Returns-if fuel (part.has_integer || ltb 0 r.0) _ _ p tt) in
      elim (Bool-cases (last_is b 46)) [
        | inl dot ↦ rw (fraction_part, dot) num
        | inr e ↦
            rw (fraction_part, e) (Returns-if fuel (part.has_dot && not part.has_integer) _ _ tt h)
      ]

  Returns-exponent : (b : Bio) → IsClosed fuel b → Returns fuel (exponent fpu fuel base b)
  unfolding exponent
  Returns-exponent b h =
      let h1 = IsClosed-skip fuel b h in
      let h2 = IsClosed-skip fuel (skip b) h1 in
      let after : (d : ℕ)
          → IsClosed fuel (if (d == 45) || (d == 43) then skip (skip b) else skip b) =
        λ d. ground (arith, h1, h2) in
      elim (Option-cases (getchar b).0) [
        | inl e ↦ rw (exponent, e) tt
        | inr (d, e) ↦
            rw (exponent, e)
              (Returns-and_then fuel (parse_num fpu fuel base _) _
                (Returns-parse_num fpu fuel fuel base _ (after d) (after d).2)
                (λ r c p. Returns-if fuel (r.0 == 0) _ _ tt p))
      ]

  Returns-exponent_part : (b : Bio) → IsClosed fuel b → Returns fuel (exponent_part fpu fuel base b)
  unfolding exponent_part
  Returns-exponent_part b h = ground (arith, Returns-exponent b h)

  Returns-parts :
      (has_integer : Bool) (b : Bio)
      → IsClosed fuel b
      → Returns fuel (parts fpu fuel base has_integer b)
  unfolding parts
  Returns-parts has_integer b h =
      Returns-and_then fuel (integer_part fpu fuel base has_integer b) _
        (Returns-integer_part has_integer b h)
        (λ i c h.
          Returns-and_then fuel (fraction_part fpu fuel base i c) _ (Returns-fraction_part i c h)
            (λ f c h.
              Returns-and_then fuel (exponent_part fpu fuel base c) _ (Returns-exponent_part c h)
                (λ e c h. h)))

module _ (fpu : Fpu) where
  Returns-after_base :
      (fuel : ℕ) (r : Option ℕ) (b : Bio) → IsClosed fuel b → Returns fuel (after_base fpu fuel r b)
  Returns-after_base fuel none b h = h
  Returns-after_base fuel (some base) b h = Returns-parts fpu fuel base true b h

  pub Returns-read_num : (fuel : ℕ) (b : Bio) → IsClosed fuel b → Returns fuel (read_num fpu fuel b)
  unfolding read_num
  Returns-read_num fuel b h =
      let zero_first =
        Returns-and_then fuel (read_base fuel b) (after_base fpu fuel)
          (Returns-read_base fuel fuel b h h.2) (Returns-after_base fuel) in
      elim (Option-cases (last b)) [
        | inl e ↦ rw (read_num, e) tt
        | inr (d, e) ↦
            rw (read_num, e)
              (Returns-if fuel (not (is_num d) && not (d == 46)) _ _ tt
                (Returns-if fuel (d == 48) _ _ zero_first (Returns-parts fpu fuel 10 false b h)))
      ]

settle-ne-hangs {ℓ} :
    {A : Type ℓ} (fuel : ℕ) (b : Bio) (r : Parsed A) → Returns fuel r → settle b r ≢ hangs
settle-ne-hangs fuel b hangs h = elim h [ ]
settle-ne-hangs fuel b (failed x c) h = ground arith
settle-ne-hangs fuel b (parsed v c) h = ground arith

-- `eel_bio_read_num` returns, with a number or an exception, if the buffer's last byte is neither a
-- figure nor a letter: the loops need no more rounds than the buffer has bytes.
pub bio_read_num-ne-hangs :
    (fpu : Fpu) (fuel : ℕ) (b : Bio)
    → b.place ≤ length b.buffer
    → figure_of (get_or b.buffer (length b.buffer - 1) 0) ≡ none
    → length b.buffer < fuel
    → bio_read_num fpu fuel b ≢ hangs
unfolding bio_read_num
bio_read_num-ne-hangs fpu fuel b h c lt =
    settle-ne-hangs fuel b (read_num fpu fuel b) (Returns-read_num fpu fuel b (h, c, lt))

-- At the end of the buffer nothing is consumed.
skip-end : (b : Bio) → b.place ≡ length b.buffer → skip b ≡ b
unfolding getchar
skip-end b e =
    let out : ltb b.place (length b.buffer) ≡ false = ground arith in rw (skip, getchar, out) refl

parse_loop-hangs :
    (fpu : Fpu) (fuel base figures v f : ℕ) (b : Bio)
    → b.place ≡ length b.buffer
    → getfigure b ≡ some f
    → f < base
    → parse_loop fpu fuel base figures v b ≡ hangs
unfolding parse_loop
parse_loop-hangs fpu zero base figures v f b e g lt = refl
parse_loop-hangs fpu (suc fuel) base figures v f b e g lt =
    let more : leb base f ≡ false = ground arith in
    rw (parse_loop, g, more, skip-end b e)
      (parse_loop-hangs fpu fuel base (figures + 1) _ f b e g lt)

-- At the end of the buffer `eel_bio_getchar` does not step on, so where the last byte is a figure of
-- the base the loop of `parse_num` reads it over and over, however long it is left to run.
pub parse_num-hangs :
    (fpu : Fpu) (fuel base f : ℕ) (b : Bio)
    → b.place ≡ length b.buffer
    → getfigure b ≡ some f
    → f < base
    → parse_num fpu fuel base b ≡ hangs
unfolding parse_num
parse_num-hangs fpu fuel base f b e g lt =
    parse_loop-hangs fpu fuel base 0 (fpu.of_int 0) f b e g lt

getchar-end : (b : Bio) → b.place ≡ length b.buffer → (getchar b).0 ≡ none
unfolding getchar
getchar-end b e = ground arith

last-pos : (b : Bio) (c : ℕ) → last b ≡ some c → 0 < b.place
unfolding last
last-pos b c e = ground arith

-- After a step back the last character is read again, and the position is what it was.
pub getchar-ungetc :
    (b : Bio) → 0 < b.place → b.place ≤ length b.buffer → getchar (ungetc b) ≡ (last b, b)
unfolding getchar ungetc last
getchar-ungetc b h le =
    let inside : ltb (b.place - 1) (length b.buffer) ≡ true = ground arith in
    let back : b.place - 1 + 1 ≡ b.place = omega arith in
    let away : (b.place == 0) ≡ false = ground arith in
    rw (getchar, ungetc, inside, back, last, away) refl

-- A zero that ends the buffer is a number, and is then stepped back over: the next character that is
-- read is that zero again, which leads back to where the number was found.
pub bio_read_num-zero_end :
    (fpu : Fpu) (fuel : ℕ) (b : Bio)
    → b.place ≡ length b.buffer
    → last b ≡ some 48
    → (bio_read_num fpu fuel b ≡ parsed (false, fpu.of_int 0) (ungetc b))
      × ((getchar (ungetc b)).0 ≡ some 48)
      × ((getchar (ungetc b)).1 ≡ b)
unfolding bio_read_num read_num read_base
bio_read_num-zero_end fpu fuel b e l =
    let c = getchar-end b e in
    let back = getchar-ungetc b (last-pos b 48 l) (omega arith) in
    (
      rw (bio_read_num, read_num, l, read_base, c, skip-end b e) refl,
      ap (λ x. x.0) back ∙ l,
      ap (λ x. x.1) back,
    )
