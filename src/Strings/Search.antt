-- ===== src/Strings/Search.antt =====
-- The searches in e_string.h that strings and dynamic strings share.
use eel.Prelude.{
  ℕ, zero, suc, ◌+◌, ◌-◌, ◌<◌, ◌≡◌, refl, sym, ap, ◌∙◌, inl, inr, true, false, Option, none, some,
  List, [], ◌∷◌, leb, length, drop, arith, Bool-cases, ◌↔◌,
}
use eel.Prelude.Int.{pos, negsuc}
use eel.Strings.{starts, str_in_loop, s_str_in, s_cmp}

-- `str2` begins at position `i` of `str`.
abbrev pub At : List ℕ → List ℕ → ℕ → Type 0
At str str2 i = starts str2 (drop i str) ≡ true

drop-drop : (n : ℕ) (str : List ℕ) → drop n (drop 1 str) ≡ drop (suc n) str
drop-drop zero [] = refl
drop-drop (suc n) [] = refl
drop-drop n (x ∷ str) = refl

-- No position before `n` is one where `str2` begins.
abbrev pub NoneBefore : ℕ → List ℕ → List ℕ → Type 0
NoneBefore n str str2 = (k : ℕ) → k < n → starts str2 (drop k str) ≡ false

NoneBefore-suc :
    (n : ℕ) (str str2 : List ℕ)
    → starts str2 str ≡ false
    → NoneBefore n (drop 1 str) str2
    → NoneBefore (suc n) str str2
NoneBefore-suc n str str2 e h zero lt = e
NoneBefore-suc n str str2 e h (suc k) lt =
    ap (starts str2) (sym (drop-drop k str)) ∙ h k (omega arith)

loop_hit :
    (rounds i : ℕ) (str str2 : List ℕ)
    → starts str2 str ≡ true
    → str_in_loop (suc rounds) i str str2 ≡ some i
unfolding str_in_loop
loop_hit rounds i str str2 e = rw (str_in_loop, e) refl

loop_miss :
    (rounds i : ℕ) (str str2 : List ℕ)
    → starts str2 str ≡ false
    → str_in_loop (suc rounds) i str str2 ≡ str_in_loop rounds (i + 1) (drop 1 str) str2
unfolding str_in_loop
loop_miss rounds i str str2 e = rw (str_in_loop, e) refl

-- The first of the positions that the loop tries, `i` being the number of the first.
abbrev pub Finds : ℕ → ℕ → List ℕ → List ℕ → ℕ → Type 0
Finds rounds i str str2 j =
    (d : ℕ) × (j ≡ i + d) × (d < rounds) × At str str2 d × NoneBefore d str str2

str_in_loop-Finds :
    (rounds i : ℕ) (str str2 : List ℕ) (j : ℕ)
    → str_in_loop rounds i str str2 ≡ some j
    → Finds rounds i str str2 j
unfolding str_in_loop
str_in_loop-Finds zero i str str2 j e = absurd (ground (arith, e))
str_in_loop-Finds (suc rounds) i str str2 j e = elim (Bool-cases (starts str2 str)) [
  | inl hit ↦
      let same : i ≡ j = ground (arith, sym (loop_hit rounds i str str2 hit) ∙ e) in
      (0, omega arith, omega arith, hit, λ k lt. absurd (omega arith))
  | inr miss ↦
      let (d, at, lt, found, first) =
        str_in_loop-Finds rounds (i + 1) (drop 1 str) str2 j
          (sym (loop_miss rounds i str str2 miss) ∙ e) in
      (
        suc d,
        omega arith,
        omega arith,
        ap (starts str2) (sym (drop-drop d str)) ∙ found,
        NoneBefore-suc d str str2 miss first,
      )
]

str_in_loop-NoneBefore :
    (rounds i : ℕ) (str str2 : List ℕ)
    → str_in_loop rounds i str str2 ≡ none
    → NoneBefore rounds str str2
str_in_loop-NoneBefore zero i str str2 e = λ k lt. absurd (omega arith)
str_in_loop-NoneBefore (suc rounds) i str str2 e = elim (Bool-cases (starts str2 str)) [
  | inl hit ↦ absurd (ground (arith, sym (loop_hit rounds i str str2 hit) ∙ e))
  | inr miss ↦ NoneBefore-suc rounds str str2 miss (
      str_in_loop-NoneBefore rounds (i + 1) (drop 1 str) str2
        (sym (loop_miss rounds i str str2 miss) ∙ e))
]

-- What a search for `str2` answers: the first position where it begins, or that there is none, as far
-- as `str2` ends before the last character of `str`.
abbrev pub Answers : List ℕ → List ℕ → Option ℕ → Type 0
Answers str str2 (some j) = (j + length str2 < length str) × At str str2 j × NoneBefore j str str2
Answers str str2 none = NoneBefore (length str - length str2) str str2

-- `eel_s_str_in` finds the first place where the one string begins in the other, but of the places
-- that it tries the last one is left out: an occurrence that ends where the other string ends is
-- never found.
pub s_str_in-Answers : (str str2 : List ℕ) → Answers str str2 (s_str_in str str2)
unfolding s_str_in
s_str_in-Answers str str2 = elim (Bool-cases (leb (length str2) (length str))) [
  | inl fits ↦
      rw (s_str_in, fits) (answers (str_in_loop (length str - length str2) 0 str str2) refl)
  | inr long ↦ rw (s_str_in, long) (λ k lt. absurd (ground arith))
]
  where
    answers :
        (r : Option ℕ) → str_in_loop (length str - length str2) 0 str str2 ≡ r → Answers str str2 r
    answers none e = str_in_loop-NoneBefore (length str - length str2) 0 str str2 e
    answers (some j) e =
        let (d, at, lt, found, first) =
          str_in_loop-Finds (length str - length str2) 0 str str2 j e in
        let same : d ≡ j = omega arith in (omega arith, rw (← same) found, rw (← same) first)

-- A string is not found in itself.
pub s_str_in_self : (str : List ℕ) → s_str_in str str ≡ none
unfolding s_str_in str_in_loop
s_str_in_self str =
    let fits : leb (length str) (length str) ≡ true = ground arith in
    let rounds : length str - length str ≡ 0 = omega arith in rw (fits, rounds) refl

-- `eel_s_cmp` over the whole of two strings of one length is 0 just for equal strings, and exchanging
-- the strings exchanges the sign.
pub s_cmp_lem :
    (a b : List ℕ)
    → length a ≡ length b
    → ((s_cmp a b (length a) ≡ pos 0) ↔ (a ≡ b))
      × ((s_cmp a b (length a) ≡ pos 1) ↔ (s_cmp b a (length a) ≡ negsuc 0))
unfolding s_cmp
s_cmp_lem [] [] e = ground arith
s_cmp_lem [] (y ∷ b) e = absurd (omega (arith, e))
s_cmp_lem (x ∷ a) [] e = absurd (omega (arith, e))
s_cmp_lem (x ∷ a) (y ∷ b) e = let rec = s_cmp_lem a b (omega (arith, e)) in ground (arith, rec)
