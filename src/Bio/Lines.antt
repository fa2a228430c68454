-- ===== src/Bio/Lines.antt =====
-- The cache of `eel_bio_linecount`, and counting lines and columns from the start.
use eel.Prelude.{
  ℕ, zero, suc, ◌+◌, ◌-◌, ◌%◌, ◌≤◌, ◌<◌, ◌≡◌, refl, ap, ◌∙◌, ◌⊎◌, inl, inr, false, Option, none,
  some, List, [], ◌∷◌, leb, ltb, ◌==◌, if◌then◌else◌, length, drop, arith, Bool-cases,
}
use native.Mathlib.Nat.{zero-add, suc-add, mod-lt, mod_self, mod-eq_of_lt, add-mod_right, suc-mod}
use eel.Prelude.Int.{ℤ, pos, negsuc}
use eel.Bio.{Bio, advance, count, count_on, linecount}

-- The line and column of a position: counted from the start of the buffer.
abbrev pub place_of : ℕ → List ℕ → ℕ → ℕ × ℕ
place_of tab bytes p = count tab bytes p (1, 1)

-- The position is in the buffer, and the cache, unless it is empty, holds what a count from the start
-- finds.
abbrev pub IsValid : ℕ → Bio → Type 0
IsValid tab b =
    (b.place ≤ length b.buffer)
    × ((b.lcc_pos ≡ length b.buffer + 1)
        ⊎ ((b.lcc_pos ≤ length b.buffer)
            × ((b.lcc_line, b.lcc_col) ≡ place_of tab b.buffer b.lcc_pos)))

-- A count may stop and go on from there.
pub count-count :
    (tab : ℕ) (bytes : List ℕ) (n m : ℕ) (at : ℕ × ℕ)
    → n ≤ length bytes
    → count tab (drop n bytes) m (count tab bytes n at) ≡ count tab bytes (n + m) at
unfolding count
count-count tab bytes zero m at h = rw zero-add refl
count-count tab [] (suc n) m at h = absurd (omega arith)
count-count tab (ch ∷ bytes) (suc n) m at h =
    rw suc-add (count-count tab bytes n m (advance tab at ch) (omega arith))

-- Counting from the cache comes to the same as counting from the start.
pub count_on_cache :
    (tab : ℕ) (b : Bio) (to : ℕ)
    → IsValid tab b
    → b.lcc_pos ≤ to
    → to ≤ length b.buffer
    → count tab (drop b.lcc_pos b.buffer) (to - b.lcc_pos) (b.lcc_line, b.lcc_col)
      ≡ place_of tab b.buffer to
count_on_cache tab b to (_, inl empty) le fits = absurd (omega arith)
count_on_cache tab b to (_, inr (h, e)) le fits =
    let s : b.lcc_pos + (to - b.lcc_pos) ≡ to = omega arith in
    rw e (count-count tab b.buffer b.lcc_pos (to - b.lcc_pos) (1, 1) h ∙ rw s refl)

-- A count that comes to the line and column of `to` is the answer, and is kept.
pub count_on-IsValid :
    (tab : ℕ) (b : Bio) (to p : ℕ) (at : ℕ × ℕ)
    → b.place ≤ length b.buffer
    → p ≤ to
    → to ≤ length b.buffer
    → count tab (drop p b.buffer) (to - p) at ≡ place_of tab b.buffer to
    → ((count_on b tab to p at).0 ≡ some (place_of tab b.buffer to))
      × IsValid tab (count_on b tab to p at).1
unfolding count_on
count_on-IsValid tab b to p at h le fits e =
    let s : p + (to - p) ≡ to = omega arith in (ap some e, (h, inr (rw s (fits, e))))

-- What `eel_bio_linecount` should answer: a position outside the buffer is refused.
abbrev pub place_at : ℕ → List ℕ → ℤ → Option (ℕ × ℕ)
place_at tab buffer (negsuc n) = none
place_at tab buffer (pos p) = if ltb (length buffer) p then none else some (place_of tab buffer p)

-- `eel_bio_linecount` answers, from its cache or not, what a count from the start does, and refuses
-- the positions outside the buffer.
pub linecount-IsValid :
    (tab : ℕ) (b : Bio) (p : ℤ)
    → IsValid tab b
    → ((linecount b p tab).0 ≡ place_at tab b.buffer p) × IsValid tab (linecount b p tab).1
unfolding linecount
linecount-IsValid tab b (negsuc n) h = (refl, h)
linecount-IsValid tab b (pos p) h = elim (Bool-cases (leb b.lcc_pos p)) [
  | inl from_cache ↦ elim (Bool-cases (ltb (length b.buffer) p)) [
    | inl outside ↦ rw (from_cache, outside) (refl, h)
    | inr inside ↦
        let le : b.lcc_pos ≤ p = ground arith in
        let fits : p ≤ length b.buffer = ground arith in
        rw (from_cache, inside)
          (count_on-IsValid tab b p b.lcc_pos (b.lcc_line, b.lcc_col) h.0 le fits
            (count_on_cache tab b p h le fits))
  ]
  | inr from_start ↦
      let fits : p ≤ length b.buffer = ground arith in
      let inside : ltb (length b.buffer) p ≡ false = ground arith in
      let all : p - 0 ≡ p = omega arith in
      rw (from_start, inside)
        (count_on-IsValid tab b p 0 (1, 1) h.0 (omega arith) fits (rw all refl))
]

-- The next higher multiple of `tab`.
abbrev pub next_stop : ℕ → ℕ → ℕ
next_stop tab c = c + (tab - c % tab)

-- A tab leads to the next higher multiple of the tab size, unless the column is one short of it:
-- then it leads a whole tab further.
pub advance-next_stop :
    (tab l c : ℕ)
    → 0 < tab
    → advance tab (l, c) 9 ≡ (l, next_stop tab c + (if c % tab + 1 == tab then tab else 0))
unfolding advance
advance-next_stop tab l c h =
    let lt = mod-lt c h in
    let shift : c + (tab + 1) ≡ suc c + tab = omega arith in
    let m : (c + (tab + 1)) % tab ≡ suc (c % tab) % tab =
      rw shift (add-mod_right (suc c) tab) ∙ suc-mod c tab in
    elim (Bool-cases (c % tab + 1 == tab)) [
      | inl short ↦
          let e : suc (c % tab) ≡ tab = ground arith in
          let none_left : (c + (tab + 1)) % tab ≡ 0 = m ∙ rw e (mod_self tab) in
          rw (short, none_left) (ap (λ x. (l, x)) (omega arith))
      | inr e ↦
          let below : suc (c % tab) < tab = ground arith in
          let left : (c + (tab + 1)) % tab ≡ suc (c % tab) = m ∙ mod-eq_of_lt below in
          rw (e, left) (ap (λ x. (l, x)) (omega arith))
    ]
