-- ===== src/Registry/Fill.antt =====
-- The check of the definitions in `eel_x_register`, and the entries that it fills in.
use eel.Prelude.{
  ℕ, ◌-◌, ◌≤◌, ◌<◌, ◌≡◌, ◌≢◌, refl, sym, ◌∙◌, ◌⊎◌, inl, inr, Bool, true, false, not, ◌||◌, none,
  some, List, [], ◌∷◌, ltb, if◌then◌else◌, length, get_elem?, set, arith, Bool-cases, Option-cases,
  get_elem?-set_self, get_elem?-set_ne, length-set,
}
use eel.Prelude.Int.{pos, pos_part, ltb_ℤ}
use eel.Exceptions.{ok, exception, xbadxcode, xneedname}
use mathlib.Core.Path.{subst}
use eel.Registry.{Xdef, Xentry, exception_max, verify, fill}

abbrev pub In : Xdef → List Xdef → Type 0
In d [] = ⊥
In d (xd ∷ rest) = (xd ≡ d) ⊎ In d rest

abbrev pub code_of : Xdef → ℕ
code_of d = pos_part d.code

-- No definition has this code.
abbrev pub Free : ℕ → List Xdef → Type 0
Free c [] = Unit
Free c (xd ∷ rest) = (code_of xd ≢ c) × Free c rest

-- No two definitions have the same code.
abbrev pub Distinct : List Xdef → Type 0
Distinct [] = Unit
Distinct (xd ∷ rest) = Free (code_of xd) rest × Distinct rest

-- Every code is between the least and the greatest one.
abbrev pub Within : ℕ → ℕ → List Xdef → Type 0
Within least most [] = Unit
Within least most (xd ∷ rest) =
    (least ≤ code_of xd)
    × (code_of xd ≤ most)
    × (0 < code_of xd)
    × (code_of xd ≤ exception_max)
    × Within least most rest

abbrev pub entry_of : Xdef → Xentry
entry_of d = record { name = d.name; description = d.description }

fill_other :
    (least most c : ℕ) (defs : List Xdef) (es : List Xentry)
    → least ≤ c
    → Within least most defs
    → Free c defs
    → get_elem? (fill least defs es) (c - least) ≡ get_elem? es (c - least)
unfolding fill
fill_other least most c [] es le w f = refl
fill_other least most c (xd ∷ rest) es le (lo, hi, p, m, w) (ne, f) =
    let away : (code_of xd - least) ≢ (c - least) = λ e. ne (omega (arith, e)) in
    fill_other least most c rest (set es (code_of xd - least) (entry_of xd)) le w f
    ∙ get_elem?-set_ne es (entry_of xd) away

length-fill :
    (least : ℕ) (defs : List Xdef) (es : List Xentry) → length (fill least defs es) ≡ length es
unfolding fill
length-fill least [] es = refl
length-fill least (xd ∷ rest) es =
    length-fill least rest (set es (code_of xd - least) (entry_of xd))
    ∙ length-set es (code_of xd - least) (entry_of xd)

-- The entry at a definition's code, less the least code, is the definition's.
pub fill-In :
    (least most : ℕ) (defs : List Xdef) (es : List Xentry) (d : Xdef)
    → Within least most defs
    → Distinct defs
    → most - least < length es
    → In d defs
    → get_elem? (fill least defs es) (code_of d - least) ≡ some (entry_of d)
unfolding fill
fill-In least most [] es d w distinct room i = elim i [ ]
fill-In least most (xd ∷ rest) es d (lo, hi, p, m, w) (free, distinct) room i =
    let at = code_of xd - least in
    let es' = set es at (entry_of xd) in
    let long = length-set es at (entry_of xd) in
    elim i [
      | inl e ↦
          subst (λ x. get_elem? (fill least rest es') (code_of x - least) ≡ some (entry_of x)) e
            (fill_other least most (code_of xd) rest es' lo w free
              ∙ get_elem?-set_self es at (entry_of xd) (omega arith))
      | inr j ↦ fill-In least most rest es' d w distinct (omega (arith, long)) j
    ]

-- The test of a code.
abbrev pub bad_code : Xdef → Bool
bad_code xd = not (ltb_ℤ (pos 0) xd.code) || ltb exception_max (code_of xd)

-- The ways through one round of the check.
module _ (xd : Xdef) (rest : List Xdef) (lo hi : ℕ) where
  verify_unnamed : xd.name ≡ none → verify (xd ∷ rest) lo hi ≡ exception xbadxcode
  unfolding verify
  verify_unnamed e = rw (verify, e) refl

  verify_bad :
      (t : List ℕ)
      → xd.name ≡ some t
      → bad_code xd ≡ true
      → verify (xd ∷ rest) lo hi ≡ exception xneedname
  unfolding verify
  verify_bad t e b = rw (verify, e, b) refl

  verify_pass :
      (t : List ℕ)
      → xd.name ≡ some t
      → bad_code xd ≡ false
      → verify (xd ∷ rest) lo hi
        ≡ verify rest
            (if ltb (code_of xd) lo then code_of xd else lo)
            (if ltb hi (code_of xd) then code_of xd else hi)
  unfolding verify
  verify_pass t e b = rw (verify, e, b) refl

-- What passed the check: the least and the greatest code enclose all codes, which are in range.
pub verify-Within :
    (defs : List Xdef) (lo hi least most : ℕ)
    → verify defs lo hi ≡ ok (least, most)
    → Within least most defs × (least ≤ lo) × (hi ≤ most)
unfolding verify
verify-Within [] lo hi least most e = (tt, ground (arith, e), ground (arith, e))
verify-Within (xd ∷ rest) lo hi least most e = elim (Option-cases xd.name) [
  | inl n ↦ absurd (ground (arith, sym (verify_unnamed xd rest lo hi n) ∙ e))
  | inr (t, n) ↦ elim (Bool-cases (bad_code xd)) [
    | inl b ↦ absurd (ground (arith, sym (verify_bad xd rest lo hi t n b) ∙ e))
    | inr b ↦
        let c = code_of xd in
        let (w, below, above) =
          verify-Within rest (if ltb c lo then c else lo) (if ltb hi c then c else hi) least most
            (sym (verify_pass xd rest lo hi t n b) ∙ e) in
        (
          (ground (arith, below), ground (arith, above), code_pos xd b, code_max xd b, w),
          ground (arith, below),
          ground (arith, above),
        )
  ]
]
  where
    code_pos : (xd : Xdef) → bad_code xd ≡ false → 0 < code_of xd
    code_pos xd b = ground (arith, b)

    code_max : (xd : Xdef) → bad_code xd ≡ false → code_of xd ≤ exception_max
    code_max xd b = ground (arith, b)
