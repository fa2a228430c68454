-- ===== src/Bio/Num/Moves.antt =====
-- What parsing a number changes of the input (src/core/eelc/ec_bio.c).
use eel.Prelude.{
  ℕ, zero, suc, ◌+◌, ◌-◌, ◌*◌, ◌%◌, ◌^◌, ◌≤◌, ◌≡◌, refl, inl, inr, Bool, true, false, not, ◌&&◌,
  ◌||◌, Option, none, some, leb, ltb, ◌==◌, if◌then◌else◌, arith, length, Bool-cases, Option-cases,
}
use eel.Bio.{Bio, last, getchar, ungetc, seek_set}
use eel.Bio.Num.{
  is_num, Fpu, Parsed, hangs, failed, parsed, and_then, getfigure, skip, last_is, parse_loop,
  parse_num, base_loop, any_base, decimal_base, base_switch, read_base, Part, integer_part,
  fraction_part, exponent, exponent_part, parts, after_base, read_num, settle, bio_read_num,
}

-- `c` is `b` at some position in the buffer.
abbrev pub Moved : Bio → Bio → Type 0
Moved b c =
    (c.place ≤ length b.buffer)
    × (c.buffer ≡ b.buffer)
    × (c.lcc_pos ≡ b.lcc_pos)
    × (c.lcc_line ≡ b.lcc_line)
    × (c.lcc_col ≡ b.lcc_col)

-- What holds of the input that a routine leaves.
abbrev pub Leaves {ℓ} : {A : Type ℓ} → (Bio → Type 0) → Parsed A → Type 0
Leaves P hangs = Unit
Leaves P (failed x b) = P b
Leaves P (parsed a b) = P b

pub Leaves-and_then {ℓ κ} :
    {A : Type ℓ} {B : Type κ} (P : Bio → Type 0) (m : Parsed A) (k : A → Bio → Parsed B)
    → Leaves P m
    → ((a : A) (b : Bio) → P b → Leaves P (k a b))
    → Leaves P (and_then m k)
Leaves-and_then P hangs k h next = tt
Leaves-and_then P (failed x b) k h next = h
Leaves-and_then P (parsed a b) k h next = next a b h

Leaves-if {ℓ} :
    {A : Type ℓ} (P : Bio → Type 0) (t : Bool) (m n : Parsed A)
    → Leaves P m
    → Leaves P n
    → Leaves P (if t then m else n)
Leaves-if P true m n h k = h
Leaves-if P false m n h k = k

pub Moved-getchar : (b c : Bio) → Moved b c → Moved b (getchar c).1
unfolding getchar
Moved-getchar b c h = ground arith

pub Moved-ungetc : (b c : Bio) → Moved b c → Moved b (ungetc c)
unfolding ungetc
Moved-ungetc b c h = ground arith

module _ (b : Bio) where
  pub Leaves-base_loop : (n base : ℕ) (c : Bio) → Moved b c → Leaves (Moved b) (base_loop n base c)
  unfolding base_loop
  Leaves-base_loop zero base c h = tt
  Leaves-base_loop (suc n) base c h =
      let h1 = Moved-getchar b c h in
      let h2 = Moved-getchar b (skip c) h1 in
      let rec = λ (v : ℕ). Leaves-base_loop n v (skip c) h1 in
      elim (Option-cases (getchar c).0) [
        | inl e ↦ rw (base_loop, e) h1
        | inr (d, e) ↦ rw (base_loop, e) (ground (arith, rec ((base * 10 + (d - 48)) % 2 ^ 32)))
      ]

module _ (b : Bio) (fpu : Fpu) where
  pub Leaves-parse_loop :
      (fuel base figures v : ℕ) (c : Bio)
      → Moved b c
      → Leaves (Moved b) (parse_loop fpu fuel base figures v c)
  unfolding parse_loop
  Leaves-parse_loop zero base figures v c h = tt
  Leaves-parse_loop (suc fuel) base figures v c h =
      let rec =
        λ (v : ℕ). Leaves-parse_loop fuel base (figures + 1) v (skip c) (Moved-getchar b c h) in
      elim (Option-cases (getfigure c)) [
        | inl e ↦ rw (Leaves, parse_loop, e) h
        | inr (f, e) ↦
            rw (Leaves, parse_loop, e)
              (elim (Bool-cases (leb base f)) [ inl out ↦ rw out h | inr more ↦ rw more (rec _) ])
      ]

  pub Leaves-parse_num :
      (fuel base : ℕ) (c : Bio) → Moved b c → Leaves (Moved b) (parse_num fpu fuel base c)
  unfolding parse_num
  Leaves-parse_num fuel base c h = Leaves-parse_loop fuel base 0 (fpu.of_int 0) c h

module _ (b : Bio) where
  Leaves-any_base : (fuel : ℕ) (c : Bio) → Moved b c → Leaves (Moved b) (any_base fuel c)
  unfolding any_base
  Leaves-any_base fuel c h =
      let h1 = Moved-getchar b c h in
      let rec =
        Leaves-and_then (Moved b) (base_loop fuel 0 (skip c)) _
          (Leaves-base_loop b fuel 0 (skip c) h1)
          (λ base d p. Leaves-if (Moved b) (leb (2 ^ 31) base || ltb base 2) _ _ p p) in
      elim (Option-cases (getchar c).0) [
        | inl e ↦ rw (any_base, e) h1
        | inr (d, e) ↦ rw (any_base, e) (Leaves-if (Moved b) (d == 40) _ _ rec h1)
      ]

  Leaves-decimal_base : (c : Bio) → Moved b c → Leaves (Moved b) (decimal_base c)
  unfolding decimal_base
  Leaves-decimal_base c h =
      let h1 = Moved-getchar b c h in
      let h2 = Moved-getchar b (skip c) h1 in
      elim (Option-cases (getchar c).0) [
        | inl e ↦ rw (decimal_base, e) h1
        | inr (d, e) ↦ rw (decimal_base, e) (ground arith)
      ]

  Leaves-base_switch :
      (fuel ch : ℕ) (c : Bio) → Moved b c → Leaves (Moved b) (base_switch fuel ch c)
  unfolding base_switch
  Leaves-base_switch fuel ch c h = ground (
    arith,
    Moved-getchar b c h,
    Moved-ungetc b c h,
    Leaves-decimal_base c h,
    Leaves-any_base fuel c h,
  )

  pub Leaves-read_base : (fuel : ℕ) (c : Bio) → Moved b c → Leaves (Moved b) (read_base fuel c)
  unfolding read_base
  Leaves-read_base fuel c h =
      let h1 = Moved-getchar b c h in
      elim (Option-cases (getchar c).0) [
        | inl e ↦ rw (read_base, e) h1
        | inr (d, e) ↦
            rw (read_base, e)
              (Leaves-and_then (Moved b) (base_switch fuel d (skip c)) _
                (Leaves-base_switch fuel d (skip c) h1)
                (λ base c p. Leaves-if (Moved b) (ltb 36 base) _ _ p p))
      ]

module _ (b : Bio) (fpu : Fpu) (fuel base : ℕ) where
  Leaves-integer_part :
      (has_integer : Bool) (c : Bio)
      → Moved b c
      → Leaves (Moved b) (integer_part fpu fuel base has_integer c)
  unfolding integer_part
  Leaves-integer_part has_integer c h =
      let num =
        Leaves-and_then (Moved b) (parse_num fpu fuel base c) _
          (Leaves-parse_num b fpu fuel base c h)
          (λ r c p. Leaves-if (Moved b) (ltb r.0 (if has_integer then 0 else 1)) _ _ p p) in
      elim (Bool-cases (last_is c 46)) [
        | inl dot ↦ rw (integer_part, dot) h
        | inr e ↦ rw (integer_part, e) num
      ]

  Leaves-fraction_part :
      (part : Part) (c : Bio) → Moved b c → Leaves (Moved b) (fraction_part fpu fuel base part c)
  unfolding fraction_part
  Leaves-fraction_part part c h =
      let num =
        Leaves-and_then (Moved b) (parse_num fpu fuel base (skip c)) _
          (Leaves-parse_num b fpu fuel base (skip c) (Moved-getchar b c h))
          (λ r c p. Leaves-if (Moved b) (part.has_integer || ltb 0 r.0) _ _ p p) in
      elim (Bool-cases (last_is c 46)) [
        | inl dot ↦ rw (fraction_part, dot) num
        | inr e ↦
            rw (fraction_part, e)
              (Leaves-if (Moved b) (part.has_dot && not part.has_integer) _ _ h h)
      ]

  Leaves-exponent : (c : Bio) → Moved b c → Leaves (Moved b) (exponent fpu fuel base c)
  unfolding exponent
  Leaves-exponent c h =
      let h1 = Moved-getchar b c h in
      let h2 = Moved-getchar b (skip c) h1 in
      let after : (d : ℕ) → Moved b (if (d == 45) || (d == 43) then skip (skip c) else skip c) =
        λ d. ground (arith, h1, h2) in
      elim (Option-cases (getchar c).0) [
        | inl e ↦ rw (exponent, e) h1
        | inr (d, e) ↦
            rw (exponent, e)
              (Leaves-and_then (Moved b) (parse_num fpu fuel base _) _
                (Leaves-parse_num b fpu fuel base _ (after d))
                (λ r c p. Leaves-if (Moved b) (r.0 == 0) _ _ p p))
      ]

  Leaves-exponent_part : (c : Bio) → Moved b c → Leaves (Moved b) (exponent_part fpu fuel base c)
  unfolding exponent_part
  Leaves-exponent_part c h = ground (arith, Leaves-exponent c h)

  pub Leaves-parts :
      (has_integer : Bool) (c : Bio)
      → Moved b c
      → Leaves (Moved b) (parts fpu fuel base has_integer c)
  unfolding parts
  Leaves-parts has_integer c h =
      Leaves-and_then (Moved b) (integer_part fpu fuel base has_integer c) _
        (Leaves-integer_part has_integer c h)
        (λ i c h.
          Leaves-and_then (Moved b) (fraction_part fpu fuel base i c) _ (Leaves-fraction_part i c h)
            (λ f c h.
              Leaves-and_then (Moved b) (exponent_part fpu fuel base c) _ (Leaves-exponent_part c h)
                (λ e c h. h)))

module _ (b : Bio) (fpu : Fpu) where
  Leaves-after_base :
      (fuel : ℕ) (r : Option ℕ) (c : Bio) → Moved b c → Leaves (Moved b) (after_base fpu fuel r c)
  Leaves-after_base fuel none c h = h
  Leaves-after_base fuel (some base) c h = Leaves-parts b fpu fuel base true c h

  -- `read_num` changes at most the position.
  pub Leaves-read_num : (fuel : ℕ) (c : Bio) → Moved b c → Leaves (Moved b) (read_num fpu fuel c)
  unfolding read_num
  Leaves-read_num fuel c h =
      let zero_first =
        Leaves-and_then (Moved b) (read_base fuel c) (after_base fpu fuel)
          (Leaves-read_base b fuel c h) (Leaves-after_base fuel) in
      elim (Option-cases (last c)) [
        | inl e ↦ rw (read_num, e) h
        | inr (d, e) ↦
            rw (read_num, e)
              (Leaves-if (Moved b) (not (is_num d) && not (d == 46)) _ _ h (
                Leaves-if (Moved b) (d == 48) _ _ zero_first
                  (Leaves-parts b fpu fuel 10 false c h)))
      ]

-- A result that is not a failure, or a failure that leaves the input as it was.
abbrev pub Restores {ℓ} : {A : Type ℓ} → Bio → Parsed A → Type 0
Restores b hangs = Unit
Restores b (failed x c) = c ≡ b
Restores b (parsed a c) = Moved b c

Restores-settle {ℓ} :
    {A : Type ℓ} (b : Bio) (r : Parsed A)
    → b.place ≤ length b.buffer
    → Leaves (Moved b) r
    → Restores b (settle b r)
unfolding seek_set
Restores-settle b hangs h m = tt
Restores-settle b (failed x c) h (_, e, e1, e2, e3) =
    let inside : ltb (length b.buffer) b.place ≡ false = ground arith in
    rw (e, inside, e1, e2, e3) refl
Restores-settle b (parsed v c) h m = Moved-ungetc b c m

-- When `eel_bio_read_num` fails, for whatever reason, the input is exactly what it was; when it
-- succeeds, only the position has changed, which is in the buffer.
pub bio_read_num-Restores :
    (fpu : Fpu) (fuel : ℕ) (b : Bio)
    → b.place ≤ length b.buffer
    → Restores b (bio_read_num fpu fuel b)
unfolding bio_read_num
bio_read_num-Restores fpu fuel b h =
    Restores-settle b (read_num fpu fuel b) h
      (Leaves-read_num b fpu fuel b (h, refl, refl, refl, refl))
