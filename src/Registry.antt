-- ===== src/Registry.antt =====
-- The registry of exceptions, src/core/e_exceptions.c and e_exceptions.h: blocks of exception codes that
-- modules register, and looking up names and descriptions.
pub mod Fill
pub mod Lookup
mod Examples
use eel.Prelude.{
  ℕ, zero, suc, ◌+◌, ◌-◌, ◌*◌, ◌/◌, ◌%◌, ◌^◌, Bool, true, false, not, ◌&&◌, ◌||◌, Option, none,
  some, List, [], ◌∷◌, ltb, ◌==◌, if◌then◌else◌, length, get_elem?, set, replicate, min,
}
use eel.Prelude.Int.{ℤ, pos, pos_part, ltb_ℤ}
use eel.Exceptions.{
  Xno, Result, ok, exception, xbadxcode, xneedname, xfewargs, xwidexrange, xmemory, xnofreeblocks,
}

-- A string of C, `none` where the pointer is null.
abbrev pub Text : Type 0
Text = Option (List ℕ)

-- `EEL_xdef`
pub record Xdef : Type 0 where
  pub code : ℤ
  pub name : Text
  pub description : Text

-- `EEL_xentry`
pub record Xentry : Type 0 where
  pub name : Text
  pub description : Text

-- `EEL_xblock`; `nentries` is the length of `entries`.
pub record Xblock : Type 0 where
  pub base : ℕ
  pub entries : List Xentry

abbrev pub exception_bits : ℕ
exception_bits = 24

abbrev pub exception_max : ℕ
exception_max = 2 ^ 24 - 1

abbrev pub exception_blocks : ℕ
exception_blocks = 128

-- `e_x_registry`
abbrev pub Registry : Type 0
Registry = ℕ → Option Xblock

-- `get_xentry` of a code that is not negative; `none` for each of its errors.
unfoldable pub get_xentry : Registry → ℕ → Option Xentry
get_xentry reg x =
    if ltb (x / 2 ^ 24) exception_blocks
    then (elim (reg (x / 2 ^ 24)) [ none ↦ none | some xb ↦ get_elem? xb.entries (x % 2 ^ 24) ])
    else none

-- `eel_x_name`: `none` for the texts that say that there is no such exception, or no name.
unfoldable pub x_name : Registry → ℕ → Text
x_name reg x = elim (get_xentry reg x) [ none ↦ none | some xe ↦ xe.name ]

-- `eel_x_description`: the name where there is no description.
unfoldable pub x_description : Registry → ℕ → Text
x_description reg x = elim (get_xentry reg x) [
  | none ↦ none
  | some xe ↦ elim xe.description [ none ↦ xe.name | some d ↦ some d ]
]

-- "Count and verify the entries", with the least and the greatest code so far. The greatest starts at
-- a negative number in the source; the codes that are compared with it are all above 0.
unfoldable pub verify : List Xdef → ℕ → ℕ → Result (ℕ × ℕ)
verify [] least most = ok (least, most)
verify (xd ∷ rest) least most =
    let c = pos_part xd.code in
    let next = verify rest (if ltb c least then c else least) (if ltb most c then c else most) in
    elim xd.name [
      | none ↦ exception xbadxcode
      | some n ↦
          if not (ltb_ℤ (pos 0) xd.code) || ltb exception_max c then exception xneedname else next
    ]

-- Whether strcmp of two strings is 0.
abbrev pub same_text : List ℕ → List ℕ → Bool
same_text [] [] = true
same_text (x ∷ xs) (y ∷ ys) = if x == y then same_text xs ys else false
same_text _ _ = false

-- The loop of `already_registered` over the definitions: entry `j` is compared with definition `j`.
-- `none` where a pointer is null or an entry is behind the last one, which is undefined.
unfoldable pub same_names : List Xentry → List Xdef → Option Bool
same_names es [] = some true
same_names [] (xd ∷ rest) = none
same_names (e ∷ es) (xd ∷ rest) =
    let next = same_names es rest in
    elim e.name [
      | none ↦ none
      | some n ↦ elim xd.name [ none ↦ none | some m ↦ if same_text n m then next else some false ]
    ]

-- The loop of `already_registered` over the blocks from `i` on: 0 where no block matches.
unfoldable pub already_registered : ℕ → ℕ → Registry → List Xdef → ℕ → ℕ → Option ℕ
already_registered zero i reg defs least most = some 0
already_registered (suc n) i reg defs least most =
    let next = already_registered n (i + 1) reg defs least most in
    elim (reg i) [
      | none ↦ next
      | some xb ↦
          if not (length xb.entries == most - least + 1) || not (xb.base == i * 2 ^ 24 - least)
          then next
          else (elim (same_names xb.entries defs) [
            | none ↦ none
            | some same ↦ if same then some i else next
          ])
    ]

-- The loop that fills in the entries.
unfoldable pub fill : ℕ → List Xdef → List Xentry → List Xentry
fill least [] es = es
fill least (xd ∷ rest) es =
    fill least rest
      (set es (pos_part xd.code - least) (record { name = xd.name; description = xd.description }))

-- The loop that looks for a free block, from `i` on.
unfoldable pub free_block : ℕ → ℕ → Registry → Option ℕ
free_block zero i reg = none
free_block (suc n) i reg =
    let next = free_block n (i + 1) reg in elim (reg i) [ none ↦ some i | some xb ↦ next ]

-- What `eel_x_register` comes to: the base and the registry, a negative code, or undefined behaviour.
pub data Registration : Type 0 where
  based : ℕ → Registry → Registration
  refused : Xno → Registration
  undefined : Registration

-- "Create and fill in exception block", and install it.
unfoldable pub create : Bool → Registry → List Xdef → ℕ → ℕ → Registration
create memory reg defs least most =
    let blank : Xentry = record { name = none; description = none } in
    let es = fill least defs (replicate (most - least + 1) blank) in
    if memory
    then (elim (free_block 127 1 reg) [
      | none ↦ refused xnofreeblocks
      | some i ↦
          based (i * 2 ^ 24 - least) (λ j.
            if j == i then some (record { base = i * 2 ^ 24 - least; entries = es }) else reg j)
    ])
    else refused xmemory

-- `eel_x_register`; `memory` says whether there is memory for the block and the texts.
unfoldable pub register : Bool → Registry → List Xdef → Registration
register memory reg defs = elim (verify defs 0x7fff_ffff 0) [
  | exception x ↦ refused x
  | ok r ↦
      if length defs == 0
      then refused xfewargs
      else if ltb exception_max (r.1 - r.0)
      then refused xwidexrange
      else (elim (already_registered 127 1 reg defs r.0 r.1) [
        | none ↦ undefined
        | some zero ↦ create memory reg defs r.0 r.1
        | some (suc i) ↦ elim (reg (suc i)) [ none ↦ undefined | some xb ↦ based xb.base reg ]
      ])
]
