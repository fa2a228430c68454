-- ===== src/Symtab/Examples.antt =====
-- A table with two variables of one name in nested scopes, and a module with a function.
use eel.Prelude.{
  ℕ, zero, suc, ◌+◌, ◌^◌, ◌≡◌, refl, Bool, true, false, Option, none, some, List, [], ◌∷◌, arith,
  replicate,
}
use eel.Symtab.{
  Entry, null, node, Table, Parent, Rules, Finder, matches, descends, following, finder_init,
  finder_go,
}
use eel.Symtab.Visits.{visits}
use eel.Symtab.Enumerate.{search_all, keep, search_all-keep}
use eel.Symtab.Nesting.{or_else, innermost, started, finder_go-innermost}
use eel.Symtab.Names.{s_add, s_find, overflow, find_symbol}
use eel.Symtab.Parts.{find_symbol-overflow, IsUndotted}
use eel.Symtab.Adding.{fresh_symbol, added, s_find-s_add}

abbrev entry_of : ℕ → ℕ → ℕ → Entry
entry_of address name type = record {
  address = address;
  name = some name;
  type = type;
  uvlevel = 0;
}

-- The module 5 at address 11 with the function 6 in it, then the variable 7.
abbrev root_table : Table
root_table = record {
  entry = record { address = 10; name = none; type = 5; uvlevel = 0 };
  symbols =
      node (entry_of 11 5 8) (node (entry_of 12 6 9) null null) (node (entry_of 13 7 2) null null);
}

-- A body in it, with another variable 7.
abbrev body : Table
body = record { entry = entry_of 14 8 4; symbols = node (entry_of 15 7 2) null null }

abbrev named : Bool → Bool → Rules
named up down = record {
  start = 10;
  name = some 7;
  types = 2 ^ 2 + 2 ^ 8;
  by_name = true;
  by_types = true;
  up = up;
  down = down;
}

abbrev downward : Finder
downward = record { rules = named false true; symtab = root_table; parents = []; symbol = none }

search_all-keep_example :
    search_all 4 7 downward ≡ some (keep (matches downward.rules) (visits downward))
unfolding following descends
search_all-keep_example =
    search_all-keep 4 7 downward (omega arith) (omega arith) (λ e. refl) (ground arith)

abbrev around : List Parent
around = record { table = root_table; after = null } ∷ []

finder_go-innermost_example :
    (g : Finder) × (finder_go 9 (finder_init body around (named true false))
      ≡ some (innermost (matches (started body (named true false))) body around, g))
unfolding finder_init following descends
finder_go-innermost_example =
    finder_go-innermost 9 body around (named true false) refl refl (omega arith)

-- A name is pooled under its first byte; for the empty one there is no string.
abbrev first_byte : List ℕ → ℕ
first_byte [] = 0
first_byte (c ∷ cs) = c

abbrev pooled : List ℕ → Option ℕ
pooled [] = none
pooled (c ∷ cs) = some c

long_name-IsUndotted : (n : ℕ) → IsUndotted (replicate n 97)
long_name-IsUndotted zero = tt
long_name-IsUndotted (suc n) = (refl, long_name-IsUndotted n)

find_symbol-overflow_example :
    find_symbol pooled root_table (some root_table) (replicate 128 97) ≡ overflow
find_symbol-overflow_example =
    find_symbol-overflow pooled root_table root_table (replicate 128 97) (long_name-IsUndotted 128)
      refl

s_find-s_add_example :
    s_find (s_add root_table 16 (some 9) 2).symbols 9 2
    ≡ or_else (s_find root_table.symbols 9 2) (fresh_symbol (added root_table 16 (some 9) 2) 9 2)
s_find-s_add_example = s_find-s_add root_table 16 (some 9) 2 9 2
