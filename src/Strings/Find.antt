-- ===== src/Strings/Find.antt =====
-- `ps_find` on the entries of a bucket, and the comparison of strings.
use eel.Prelude.{
  ℕ, zero, suc, ◌≡◌, ◌≢◌, refl, sym, ap, ◌∙◌, ◌⊎◌, inl, inr, true, false, none, some, List, [], ◌∷◌,
  ◌==◌, length, arith, Bool-cases,
}
use mathlib.Core.Path.{subst}
use eel.Strings.{Pstring, hashmem, strncmp_eq, scan, bucket_of}

-- No byte is 0, as in every string of C.
abbrev pub NoNul : List ℕ → Type 0
NoNul [] = Unit
NoNul (c ∷ cs) = (c ≢ 0) × NoNul cs

pub strncmp_eq_refl : (s : List ℕ) (n : ℕ) → strncmp_eq s s n ≡ true
unfolding strncmp_eq
strncmp_eq_refl s zero = refl
strncmp_eq_refl [] (suc n) = refl
strncmp_eq_refl (x ∷ s) (suc n) =
    let same : (x == x) ≡ true = ground arith in
    let rec = strncmp_eq_refl s n in rw (strncmp_eq, same, rec) (ground arith)

strncmp_eq_sound :
    (a b : List ℕ) → NoNul a → length a ≡ length b → strncmp_eq a b (length b) ≡ true → a ≡ b
unfolding strncmp_eq
strncmp_eq_sound [] [] h l e = refl
strncmp_eq_sound [] (y ∷ b) h l e = absurd (omega (arith, l))
strncmp_eq_sound (x ∷ a) [] h l e = absurd (omega (arith, l))
strncmp_eq_sound (x ∷ a) (y ∷ b) (nz, h) l e =
    let rec = strncmp_eq_sound a b h (omega (arith, l)) in
    elim (Bool-cases (x == y)) [
      | inl same ↦
          let e' : x ≡ y = ground arith in
          let nonzero : (x == 0) ≡ false = ground arith in rw (e', rec (ground (arith, e))) refl
      | inr differ ↦ absurd (ground (arith, e))
    ]

-- No entry has this text.
abbrev pub Fresh : List ℕ → List Pstring → Type 0
Fresh s [] = Unit
Fresh s (ps ∷ rest) = (ps.buffer ≢ s) × Fresh s rest

abbrev pub In : Pstring → List Pstring → Type 0
In p [] = ⊥
In p (ps ∷ rest) = (ps ≡ p) ⊎ In p rest

-- The entries of bucket `b`: each has the hash code of its text, which leads to this bucket, no two
-- have the same text, and no text has a byte 0.
abbrev pub Bucket : ℕ → List Pstring → Type 0
Bucket b [] = Unit
Bucket b (ps ∷ rest) =
    (ps.hash ≡ hashmem ps.buffer)
    × (bucket_of ps.hash ≡ b)
    × NoNul ps.buffer
    × Fresh ps.buffer rest
    × Bucket b rest

-- At an entry with the text the scan stops, and any other entry it passes.
pub scan_cases :
    (s : List ℕ) (ps : Pstring) (rest : List Pstring)
    → ps.hash ≡ hashmem ps.buffer
    → NoNul ps.buffer
    → ((ps.buffer ≡ s) × (scan (hashmem s) s (ps ∷ rest) ≡ some ps))
      ⊎ ((ps.buffer ≢ s) × (scan (hashmem s) s (ps ∷ rest) ≡ scan (hashmem s) s rest))
unfolding scan
scan_cases s ps rest h nn = elim (Bool-cases (ps.hash == hashmem s)) [
  | inr differ ↦ inr (λ e. different differ (h ∙ ap hashmem e), rw (scan, differ) refl)
  | inl same ↦ elim (Bool-cases (length ps.buffer == length s)) [
    | inr differ ↦ inr (λ e. different differ (ap length e), rw (scan, same, differ) refl)
    | inl long ↦ elim (Bool-cases (strncmp_eq ps.buffer s (length s))) [
      | inl equal ↦ inl (
        strncmp_eq_sound ps.buffer s nn (ground (arith, long)) equal,
        rw (scan, same, long, equal) refl,
      )
      | inr differ ↦ inr (
        λ e. unequal (ap (λ x. strncmp_eq x s (length s)) e) differ,
        rw (scan, same, long, differ) refl,
      )
    ]
  ]
]
  where
    different : {a b : ℕ} → (a == b) ≡ false → a ≢ b
    different f e = ground arith

    unequal :
        strncmp_eq ps.buffer s (length s) ≡ strncmp_eq s s (length s)
        → strncmp_eq ps.buffer s (length s) ≡ false
        → ⊥
    unequal e f = ground (arith, e, f, strncmp_eq_refl s (length s))

pub scan_sound :
    (b : ℕ) (l : List Pstring) (s : List ℕ) (p : Pstring)
    → Bucket b l
    → scan (hashmem s) s l ≡ some p
    → (p.buffer ≡ s) × In p l
unfolding scan
scan_sound b [] s p h e = absurd (ground (arith, e))
scan_sound b (ps ∷ rest) s p (hh, hb, nn, fresh, good) e = elim (scan_cases s ps rest hh nn) [
  | inl (t, found) ↦
      let same : ps ≡ p = ground (arith, e, found) in (ap (λ x. x.buffer) (sym same) ∙ t, inl same)
  | inr (t, passed) ↦ let (u, i) = scan_sound b rest s p good (sym passed ∙ e) in (u, inr i)
]

pub scan-none :
    (b : ℕ) (l : List Pstring) (s : List ℕ) → Bucket b l → scan (hashmem s) s l ≡ none → Fresh s l
scan-none b [] s h e = tt
scan-none b (ps ∷ rest) s (hh, hb, nn, fresh, good) e = elim (scan_cases s ps rest hh nn) [
  | inl (t, found) ↦ absurd (ground (arith, e, found))
  | inr (t, passed) ↦ (t, scan-none b rest s good (sym passed ∙ e))
]

Fresh-In : (s : List ℕ) (l : List Pstring) (p : Pstring) → Fresh s l → In p l → p.buffer ≢ s
Fresh-In s [] p f i = elim i [ ]
Fresh-In s (ps ∷ rest) p (f, fs) i = elim i [
  | inl e ↦ λ t. f (ap (λ x. x.buffer) e ∙ t)
  | inr i ↦ Fresh-In s rest p fs i
]

-- Every entry is found by its text.
pub scan-In :
    (b : ℕ) (l : List Pstring) (p : Pstring)
    → Bucket b l
    → In p l
    → scan (hashmem p.buffer) p.buffer l ≡ some p
scan-In b [] p h i = elim i [ ]
scan-In b (ps ∷ rest) p (hh, hb, nn, fresh, good) i = elim (scan_cases p.buffer ps rest hh nn) [
  | inl (t, found) ↦ elim i [
    | inl e ↦ found ∙ ap some e
    | inr j ↦ absurd (Fresh-In ps.buffer rest p fresh j (sym t))
  ]
  | inr (t, passed) ↦ elim i [
    | inl e ↦ absurd (t (ap (λ x. x.buffer) e))
    | inr j ↦ passed ∙ scan-In b rest p good j
  ]
]

pub In-Bucket :
    (b : ℕ) (l : List Pstring) (p : Pstring)
    → Bucket b l
    → In p l
    → (p.hash ≡ hashmem p.buffer) × (bucket_of (hashmem p.buffer) ≡ b)
In-Bucket b [] p h i = elim i [ ]
In-Bucket b (ps ∷ rest) p (hh, hb, nn, fresh, good) i = elim i [
  | inl e ↦
      subst (λ x. (x.hash ≡ hashmem x.buffer) × (bucket_of (hashmem x.buffer) ≡ b)) e
        (hh, ap bucket_of (sym hh) ∙ hb)
  | inr j ↦ In-Bucket b rest p good j
]
