-- ===== src/Operate/Words.antt =====
-- 32-bit integers: `EEL_integer`, whose sums, differences and products wrap around.
use eel.Prelude.{
  ℕ, zero, suc, ◌+◌, ◌-◌, ◌*◌, ◌%◌, ◌/◌, ◌^◌, ◌≤◌, ◌<◌, ◌≡◌, arith, ltb, if◌then◌else◌,
}
use eel.Prelude.Int.{ℤ, pos, negsuc, pos_part, neg_part}
use eel.Value.{to_word, word}

-- The integer whose bit pattern is a word.
unfoldable pub of_word : ℕ → ℤ
of_word w = if ltb w (2 ^ 31) then pos w else negsuc (word - 1 - w)

unfoldable pub add : ℤ → ℤ → ℤ
unfolding to_word of_word
add a b = of_word ((to_word a + to_word b) % word)

unfoldable pub sub : ℤ → ℤ → ℤ
unfolding to_word of_word
sub a b = of_word ((to_word a + word - to_word b) % word)

unfoldable pub mul : ℤ → ℤ → ℤ
unfolding to_word of_word
mul a b = of_word (to_word a * to_word b % word)

unfoldable pub neg : ℤ → ℤ
unfolding to_word of_word
neg a = of_word ((word - to_word a) % word)

-- The negative of a number.
unfoldable pub minus : ℕ → ℤ
minus zero = pos 0
minus (suc n) = negsuc n

-- Division towards zero, and its remainder, which has the sign of the left operand.
unfoldable pub quot : ℤ → ℤ → ℤ
unfolding minus
quot (pos a) (pos b) = pos (a / b)
quot (pos a) (negsuc b) = minus (a / suc b)
quot (negsuc a) (pos b) = minus (suc a / b)
quot (negsuc a) (negsuc b) = pos (suc a / suc b)

unfoldable pub rem : ℤ → ℤ → ℤ
unfolding minus
rem (pos a) b = pos (a % (pos_part b + neg_part b))
rem (negsuc a) b = minus (suc a % (pos_part b + neg_part b))

-- An integer that 32 bits hold.
abbrev pub IsInt : ℤ → Type 0
IsInt n = (pos_part n < 2 ^ 31) × (neg_part n ≤ 2 ^ 31)

pub of_word-to_word : (n : ℤ) → IsInt n → of_word (to_word n) ≡ n
unfolding of_word to_word
of_word-to_word n h = ground arith

pub to_word-of_word : (w : ℕ) → w < 2 ^ 32 → to_word (of_word w) ≡ w
unfolding of_word to_word
to_word-of_word w h = ground arith

pub to_word_small : (n : ℤ) → to_word n < 2 ^ 32
unfolding to_word
to_word_small n = ground arith

-- Taking off what was added gives the integer back, overflows included.
pub sub-add : (a b : ℤ) → IsInt a → sub (add a b) b ≡ a
unfolding sub add
sub-add a b h =
    let e = to_word-of_word ((to_word a + to_word b) % word) (omega arith) in
    let r : (((to_word a + to_word b) % word + word - to_word b) % word ≡ to_word a) =
      omega (arith, to_word_small a, to_word_small b) in
    rw (e, r) (of_word-to_word a h)
