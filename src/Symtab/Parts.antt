-- ===== src/Symtab/Parts.antt =====
-- Names with several parts, and symbols that were added.
use mathlib.Core.List.{append-nil, append_assoc}
use eel.Prelude.{
  ℕ, ◌+◌, ◌<◌, ◌≤◌, ◌≡◌, ◌∙◌, sym, ap, false, Option, none, some, List, [], ◌∷◌, ◌++◌, arith, ◌==◌,
  length, length-append,
}
use eel.Symtab.{Table, matches}
use eel.Symtab.Nesting.{own_symbols, find_first}
use eel.Symtab.Names.{part_rules, overflow, fits, buf_size, dot, find_from, find_symbol}

-- The symbols that a dotted name leads through; `name_of` gives the pooled string of each part.
abbrev pub walk : (List ℕ → ℕ) → Option Table → List (List ℕ) → Option Table
walk name_of scope [] = scope
walk name_of none (part ∷ parts) = walk name_of none parts
walk name_of (some t) (part ∷ parts) =
    walk name_of (find_first (matches (part_rules (name_of part))) (own_symbols t.symbols)) parts

-- The parts of a name with dots between them.
abbrev pub dotted : List ℕ → List (List ℕ) → List ℕ
dotted part [] = part
dotted part (next ∷ parts) = let rest = dotted next parts in part ++ dot ∷ rest

abbrev pub IsUndotted : List ℕ → Type 0
IsUndotted [] = Unit
IsUndotted (c ∷ cs) = ((c == dot) ≡ false) × IsUndotted cs

-- A part without a dot that fits the buffer.
abbrev pub IsPart : List ℕ → Type 0
IsPart part = IsUndotted part × (length part < buf_size)

-- Parts that the pool has strings for.
abbrev pub AreParts : (List ℕ → Option ℕ) → (List ℕ → ℕ) → List (List ℕ) → Type 0
AreParts ps_new name_of [] = Unit
AreParts ps_new name_of (part ∷ parts) =
    IsPart part × (ps_new part ≡ some (name_of part)) × AreParts ps_new name_of parts

from_char :
    (ps_new : List ℕ → Option ℕ) (scope : Option Table) (buf : List ℕ) (c : ℕ) (name : List ℕ)
    → (c == dot) ≡ false
    → length buf < buf_size
    → find_from ps_new scope buf (c ∷ name) ≡ find_from ps_new scope (buf ++ c ∷ []) name
unfolding find_from
from_char ps_new scope buf c name e l = ground (arith, e, l)

-- Reading one part into the buffer.
find_from_part :
    (ps_new : List ℕ → Option ℕ) (scope : Option Table) (buf part rest : List ℕ)
    → IsUndotted part
    → length buf + length part ≤ buf_size
    → find_from ps_new scope buf (part ++ rest) ≡ find_from ps_new scope (buf ++ part) rest
find_from_part ps_new scope buf [] rest u l =
    ap (λ b. find_from ps_new scope b rest) (sym (append-nil buf))
find_from_part ps_new scope buf (c ∷ part) rest u l =
    from_char ps_new scope buf c (part ++ rest) u.0 (omega (arith, l))
    ∙ find_from_part ps_new scope (buf ++ c ∷ []) part rest u.1
        (omega (arith, l, length-append buf (c ∷ [])))
    ∙ ap (λ b. find_from ps_new scope b rest) (append_assoc buf (c ∷ []) part)

-- A name of exactly 128 bytes without a dot passes the test for names that are too long, and the
-- byte 0 that ends it is written past the end of the buffer.
pub find_symbol-overflow :
    (ps_new : List ℕ → Option ℕ) (root scope : Table) (part : List ℕ)
    → IsUndotted part
    → length part ≡ buf_size
    → find_symbol ps_new root (some scope) part ≡ overflow
unfolding find_symbol find_from fits
find_symbol-overflow ps_new root scope part u l =
    ap (find_from ps_new (some scope) []) (sym (append-nil part))
    ∙ find_from_part ps_new (some scope) [] part [] u (omega (arith, l))
    ∙ ground (arith, l)
