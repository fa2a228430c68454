-- ===== src/Registry/Lookup.antt =====
-- Looking up the exceptions that `eel_x_register` registered.
use eel.Prelude.{
  ℕ, zero, suc, ◌+◌, ◌-◌, ◌*◌, ◌/◌, ◌%◌, ◌^◌, ◌≤◌, ◌<◌, ◌≡◌, refl, sym, ap, ◌∙◌, inl, inr, Bool,
  true, false, none, some, List, [], ◌∷◌, ltb, ◌==◌, if◌then◌else◌, length, get_elem?, replicate,
  arith, Bool-cases, Option-cases, length-replicate,
}
use mathlib.Core.Path.{subst}
use eel.Exceptions.{ok, xmemory, xnofreeblocks, xfewargs, xwidexrange}
use eel.Registry.{
  Xdef, Xentry, Xblock, Registry, exception_max, exception_blocks, verify, fill, free_block, create,
  register, already_registered, Registration, based, refused, get_xentry,
}
use eel.Registry.Fill.{In, code_of, Distinct, Within, entry_of, fill-In, verify-Within}

free_block_lem :
    (n i j : ℕ) (reg : Registry)
    → free_block n i reg ≡ some j
    → (i ≤ j) × (j < i + n) × (reg j ≡ none)
unfolding free_block
free_block_lem zero i j reg e = absurd (ground (arith, e))
free_block_lem (suc n) i j reg e = elim (Option-cases (reg i)) [
  | inl f ↦
      let same : i ≡ j = ground (arith, sym (here n f) ∙ e) in
      (omega arith, omega arith, subst (λ k. reg k ≡ none) same f)
  | inr (xb, f) ↦
      let (lo, hi, free) = free_block_lem n (i + 1) j reg (sym (there n xb f) ∙ e) in
      (omega arith, omega arith, free)
]
  where
    here : (n : ℕ) → reg i ≡ none → free_block (suc n) i reg ≡ some i
    here n f = rw (free_block, f) refl

    there :
        (n : ℕ) (xb : Xblock)
        → reg i ≡ some xb
        → free_block (suc n) i reg ≡ free_block n (i + 1) reg
    there n xb f = rw (free_block, f) refl

abbrev pub blank_entry : Xentry
blank_entry = record { name = none; description = none }

-- The entries of a new block.
abbrev pub entries_of : List Xdef → ℕ → ℕ → List Xentry
entries_of defs least most = fill least defs (replicate (most - least + 1) blank_entry)

-- The registry with a block put in place `j`.
abbrev pub with_block : Registry → ℕ → ℕ → List Xentry → Registry
with_block reg j least es =
    λ k. if k == j then some (record { base = j * 2 ^ 24 - least; entries = es }) else reg k

create-with_block :
    (memory : Bool) (reg reg' : Registry) (defs : List Xdef) (least most base : ℕ)
    → create memory reg defs least most ≡ based base reg'
    → (j : ℕ) × (free_block 127 1 reg ≡ some j)
      × (base ≡ j * 2 ^ 24 - least)
      × (reg' ≡ with_block reg j least (entries_of defs least most))
unfolding create
create-with_block memory reg reg' defs least most base e = elim (Bool-cases memory) [
  | inr no_memory ↦ absurd (ground (arith, sym (create_fails no_memory) ∙ e))
  | inl m ↦ elim (Option-cases (free_block 127 1 reg)) [
    | inl full ↦ absurd (ground (arith, sym (create_full m full) ∙ e))
    | inr (j, f) ↦
        let same = sym (create_puts m j f) ∙ e in
        (j, f, sym (ap base_of same), sym (ap (registry_of reg) same))
  ]
]
  where
    base_of : Registration → ℕ
    base_of (based b r) = b
    base_of _ = 0

    registry_of : Registry → Registration → Registry
    registry_of d (based b r) = r
    registry_of d _ = d

    create_fails : memory ≡ false → create memory reg defs least most ≡ refused xmemory
    create_fails m = rw (create, m) refl

    create_full :
        memory ≡ true
        → free_block 127 1 reg ≡ none
        → create memory reg defs least most ≡ refused xnofreeblocks
    create_full m f = rw (create, m, f) refl

    create_puts :
        memory ≡ true
        → (j : ℕ) → free_block 127 1 reg ≡ some j
        → create memory reg defs least most
          ≡ based (j * 2 ^ 24 - least) (with_block reg j least (entries_of defs least most))
    create_puts m j f = rw (create, m, f) refl

get_xentry-with_block :
    (reg : Registry) (j least c : ℕ) (es : List Xentry)
    → j < exception_blocks
    → least ≤ c
    → 0 < j
    → c ≤ exception_max
    → get_xentry (with_block reg j least es) (j * 2 ^ 24 - least + c) ≡ get_elem? es (c - least)
unfolding get_xentry
get_xentry-with_block reg j least c es top le p small =
    let d : (j * 2 ^ 24 - least + c) / 2 ^ 24 ≡ j = omega arith in
    let m : (j * 2 ^ 24 - least + c) % 2 ^ 24 ≡ c - least = omega arith in
    let inside : ltb j exception_blocks ≡ true = ground arith in
    let same : (j == j) ≡ true = ground arith in rw (get_xentry, d, inside, same, m) refl

get_xentry-other :
    (reg : Registry) (j least x : ℕ) (es : List Xentry) (e : Xentry)
    → reg j ≡ none
    → get_xentry reg x ≡ some e
    → get_xentry (with_block reg j least es) x ≡ some e
unfolding get_xentry
get_xentry-other reg j least x es e free h = elim (Bool-cases (x / 2 ^ 24 == j)) [
  | inl there ↦ absurd (ground (arith, sym (nothing (ground arith)) ∙ h))
  | inr away ↦ rw (get_xentry, away) h
]
  where
    nothing : x / 2 ^ 24 ≡ j → get_xentry reg x ≡ none
    nothing at = elim (Bool-cases (ltb (x / 2 ^ 24) exception_blocks)) [
      | inl t ↦ rw (get_xentry, t, at, free) refl
      | inr t ↦ rw (get_xentry, t) refl
    ]

module _ (memory : Bool) (reg : Registry) (defs : List Xdef) (least most : ℕ)
    (v : verify defs 0x7fff_ffff 0 ≡ ok (least, most))
    (new : already_registered 127 1 reg defs least most ≡ some 0) where
  register_few : (length defs == 0) ≡ true → register memory reg defs ≡ refused xfewargs
  unfolding register
  register_few n = rw (register, v, n) refl

  register_wide :
      (length defs == 0) ≡ false
      → ltb exception_max (most - least) ≡ true
      → register memory reg defs ≡ refused xwidexrange
  unfolding register
  register_wide n w = rw (register, v, n, w) refl

  register_new :
      (length defs == 0) ≡ false
      → ltb exception_max (most - least) ≡ false
      → register memory reg defs ≡ create memory reg defs least most
  unfolding register
  register_new n w = rw (register, v, n, w, new) refl

  register-create :
      (base : ℕ) (reg' : Registry)
      → register memory reg defs ≡ based base reg'
      → create memory reg defs least most ≡ based base reg'
  register-create base reg' r = elim (Bool-cases (length defs == 0)) [
    | inl n ↦ absurd (ground (arith, sym (register_few n) ∙ r))
    | inr n ↦ elim (Bool-cases (ltb exception_max (most - least))) [
      | inl w ↦ absurd (ground (arith, sym (register_wide n w) ∙ r))
      | inr w ↦ sym (register_new n w) ∙ r
    ]
  ]

Within-In :
    (least most : ℕ) (defs : List Xdef) (d : Xdef)
    → Within least most defs
    → In d defs
    → (least ≤ code_of d) × (code_of d ≤ exception_max)
Within-In least most [] d w i = elim i [ ]
Within-In least most (xd ∷ rest) d (lo, hi, p, m, w) i = elim i [
  | inl e ↦ subst (λ x. (least ≤ code_of x) × (code_of x ≤ exception_max)) e (lo, m)
  | inr j ↦ Within-In least most rest d w j
]

-- Where a new block was registered under a base, each of its definitions, their codes being all
-- different, is looked up by the base plus its code; and what could be looked up before gives the same
-- as before.
pub register-get_xentry :
    (memory : Bool) (reg reg' : Registry) (defs : List Xdef) (least most base : ℕ)
    → verify defs 0x7fff_ffff 0 ≡ ok (least, most)
    → already_registered 127 1 reg defs least most ≡ some 0
    → Distinct defs
    → register memory reg defs ≡ based base reg'
    → ((d : Xdef) → In d defs → get_xentry reg' (base + code_of d) ≡ some (entry_of d))
      × ((x : ℕ) (e : Xentry) → get_xentry reg x ≡ some e → get_xentry reg' x ≡ some e)
register-get_xentry memory reg reg' defs least most base v new distinct r =
    let made = register-create memory reg defs least most v new base reg' r in
    let (j, f, b, s) = create-with_block memory reg reg' defs least most base made in
    let (lo, hi, free) = free_block_lem 127 1 j reg f in
    let (w, _, _) = verify-Within defs 0x7fff_ffff 0 least most v in
    let es = entries_of defs least most in
    let room = length-replicate (most - least + 1) blank_entry in
    (
      λ d i.
          let (le, small) = Within-In least most defs d w i in
          rw (b, s)
            (get_xentry-with_block reg j least (code_of d) es (omega arith) le (omega arith) small
              ∙ fill-In least most defs (replicate (most - least + 1) blank_entry) d w distinct
                  (omega (arith, room)) i),
      λ x e h. rw s (get_xentry-other reg j least x es e free h),
    )
