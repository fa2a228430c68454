-- ===== src/Bio/Num/Figures.antt =====
-- Numerals, the texts of numbers in a base, as `parse_num` reads them.
use eel.Prelude.{
  ℕ, zero, suc, ◌+◌, ◌-◌, ◌*◌, ◌^◌, ◌≤◌, ◌<◌, ◌≡◌, refl, Bool, true, false, none, some, List, [],
  ◌∷◌, ◌++◌, map, leb, ltb, ◌==◌, if◌then◌else◌, arith, length, get_or, drop,
}
use native.Mathlib.Nat.{add_assoc, add-zero}
use eel.Bio.{Bio, last, getchar}
use eel.Bio.Num.{Fpu, parsed, figure_of, getfigure, skip, parse_loop}

-- The character of a figure, its letters being capitals or not.
abbrev pub char_of : Bool → ℕ → ℕ
char_of capital f = if ltb f 10 then 48 + f else if capital then 55 + f else 87 + f

pub figure_of-char_of : (capital : Bool) (f : ℕ) → f < 36 → figure_of (char_of capital f) ≡ some f
figure_of-char_of true f h = ground arith
figure_of-char_of false f h = ground arith

-- The value of a numeral, the first figure counting most.
abbrev pub value : ℕ → ℕ → List ℕ → ℕ
value base v [] = v
value base v (f ∷ fs) = value base (v * base + f) fs

abbrev pub AllBelow : ℕ → List ℕ → Type 0
AllBelow base [] = Unit
AllBelow base (f ∷ fs) = (f < base) × AllBelow base fs

pub le-value : (base v : ℕ) (fs : List ℕ) → 0 < base → v ≤ value base v fs
le-value base v [] h = omega arith
le-value base v (f ∷ fs) h =
    let more = le-value base (v * base + f) fs h in
    let times : v ≤ v * base = grind arith in omega arith

-- The floating point unit computes exactly with whole numbers up to 2 ^ 53.
abbrev pub IsExact : Fpu → Type 0
IsExact fpu =
    ((a b : ℕ) → a * b ≤ 2 ^ 53 → fpu.mul (fpu.of_int a) (fpu.of_int b) ≡ fpu.of_int (a * b))
    × ((a b : ℕ) → a + b ≤ 2 ^ 53 → fpu.add (fpu.of_int a) (fpu.of_int b) ≡ fpu.of_int (a + b))

-- `p` is the place of the last character that was read, and `text` goes on from there.
abbrev pub At : Bio → ℕ → List ℕ → Type 0
At b p text = (b.place ≡ suc p) × (drop p b.buffer ≡ text)

get_or-drop : (l : List ℕ) (p d x : ℕ) (xs : List ℕ) → drop p l ≡ x ∷ xs → get_or l p d ≡ x
get_or-drop [] zero d x xs e = absurd (ground arith)
get_or-drop [] (suc p) d x xs e = absurd (ground arith)
get_or-drop (y ∷ l) zero d x xs e = ground arith
get_or-drop (y ∷ l) (suc p) d x xs e = get_or-drop l p d x xs e

drop-suc : (l : List ℕ) (p x : ℕ) (xs : List ℕ) → drop p l ≡ x ∷ xs → drop (suc p) l ≡ xs
drop-suc [] zero x xs e = absurd (ground arith)
drop-suc [] (suc p) x xs e = absurd (ground arith)
drop-suc (y ∷ l) zero x xs e = ground arith
drop-suc (y ∷ l) (suc p) x xs e = drop-suc l p x xs e

drop-lt : (l : List ℕ) (p x : ℕ) (xs : List ℕ) → drop p l ≡ x ∷ xs → p < length l
drop-lt [] zero x xs e = absurd (ground arith)
drop-lt [] (suc p) x xs e = absurd (ground arith)
drop-lt (y ∷ l) zero x xs e = omega arith
drop-lt (y ∷ l) (suc p) x xs e = omega (arith, drop-lt l p x xs e)

pub At-last : (b : Bio) (p x : ℕ) (xs : List ℕ) → At b p (x ∷ xs) → last b ≡ some x
unfolding last
At-last b p x xs (e, t) =
    let s : suc p - 1 ≡ p = omega arith in
    let z : (suc p == 0) ≡ false = ground arith in
    rw (e, z, s, get_or-drop b.buffer p 0 x xs t) refl

-- Reading on.
abbrev pub ahead : Bio → ℕ → Bio
ahead b n = record b { place = b.place + n }

pub At-getchar :
    (b : Bio) (p x y : ℕ) (ys : List ℕ)
    → At b p (x ∷ y ∷ ys)
    → (getchar b ≡ (some y, ahead b 1)) × At (ahead b 1) (suc p) (y ∷ ys)
unfolding getchar
At-getchar b p x y ys (e, t) =
    let t' = drop-suc b.buffer p x (y ∷ ys) t in
    let inside : ltb (suc p) (length b.buffer) ≡ true =
      ground (arith, drop-lt b.buffer (suc p) y ys t') in
    (rw (e, inside, get_or-drop b.buffer (suc p) 0 y ys t') refl, (omega arith, t'))

pub At-getfigure : (b : Bio) (p x : ℕ) (xs : List ℕ) → At b p (x ∷ xs) → getfigure b ≡ figure_of x
unfolding getfigure
At-getfigure b p x xs h = rw (getfigure, At-last b p x xs h) refl

pub ahead-add : (b : Bio) (n m : ℕ) → ahead (ahead b n) m ≡ ahead b (n + m)
ahead-add b n m = rw (add_assoc b.place n m) refl

-- The text of the figures, with what follows.
abbrev pub text : Bool → List ℕ → List ℕ → List ℕ
text capital fs rest = map (char_of capital) fs ++ rest

pub At-skip :
    (b : Bio) (p x : ℕ) (rest : List ℕ)
    → At b p (x ∷ rest)
    → 0 < length rest
    → (skip b ≡ ahead b 1) × At (ahead b 1) (suc p) rest
At-skip b p x [] h lt = absurd (omega arith)
At-skip b p x (y ∷ ys) h lt = let (e, h') = At-getchar b p x y ys h in (rw (skip, e) refl, h')

pub length-text :
    (capital : Bool) (fs : List ℕ) (c : ℕ) (more : List ℕ) → 0 < length (text capital fs (c ∷ more))
length-text capital [] c more = omega arith
length-text capital (f ∷ fs) c more = omega arith

-- Numerals of a base, before a character that is no figure.
module _ (fpu : Fpu) (exact : IsExact fpu) (capital : Bool) (base : ℕ) (le : base ≤ 36) (c : ℕ)
    (more : List ℕ) (stop : figure_of c ≡ none) where
  pub parse_loop_lem :
      (fs : List ℕ) (fuel figures v p : ℕ) (b : Bio)
      → length fs < fuel
      → AllBelow base fs
      → value base v fs ≤ 2 ^ 53
      → At b p (text capital fs (c ∷ more))
      → (parse_loop fpu fuel base figures (fpu.of_int v) b
          ≡ parsed (figures + length fs, fpu.of_int (value base v fs)) (ahead b (length fs)))
        × At (ahead b (length fs)) (p + length fs) (c ∷ more)
  unfolding parse_loop
  parse_loop_lem fs zero figures v p b lt below small h = absurd (omega arith)
  parse_loop_lem [] (suc fuel) figures v p b lt below small (e, t) = (
    rw (parse_loop, At-getfigure b p c more (e, t), stop, add-zero figures, add-zero b.place) refl,
    (omega arith, rw (add-zero p) t),
  )
  parse_loop_lem (f ∷ fs) (suc fuel) figures v p b lt (fits, below) small h =
      let (go, h') =
        At-skip b p (char_of capital f) (text capital fs (c ∷ more)) h
          (length-text capital fs c more) in
      let rec =
        parse_loop_lem fs fuel (figures + 1) (v * base + f) (suc p) (ahead b 1) (omega arith) below
          small h' in
      let grows = le-value base (v * base + f) fs (omega arith) in
      let inside : leb base f ≡ false = ground arith in
      let known = figure_of-char_of capital f (omega arith) in
      let s1 : suc p + length fs ≡ p + suc (length fs) = omega arith in
      let s2 : figures + 1 + length fs ≡ figures + suc (length fs) = omega arith in
      let s3 : 1 + length fs ≡ suc (length fs) = omega arith in
      let a1 = ahead-add b 1 (length fs) in
      let times = exact.0 v base (omega arith) in
      let plus = exact.1 (v * base) f (omega arith) in
      (
        rw (parse_loop, At-getfigure b p _ _ h, known, inside, go, times, plus, rec.0)
            (rw (s2, a1, s3) refl),
        (omega arith, rw (← s1) rec.1.1),
      )
