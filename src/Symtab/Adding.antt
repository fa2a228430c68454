-- ===== src/Symtab/Adding.antt =====
-- Finding symbols after one was added.
use eel.Prelude.{
  ℕ, ◌+◌, ◌≡◌, refl, Bool, ◌&&◌, Option, none, some, ◌==◌, if◌then◌else◌, inl, inr, Bool-cases,
}
use eel.Symtab.{Entry, Symbol, null, node, Table, same_name}
use eel.Symtab.Nesting.{or_else}
use eel.Symtab.Names.{s_link, s_add, s_find, function_type}

abbrev pub fits_name : Entry → ℕ → ℕ → Bool
fits_name e name type = e.type == type && same_name e.name name

-- A new symbol without symbols in it.
abbrev pub fresh_symbol : Entry → ℕ → ℕ → Option Table
fresh_symbol e name type =
    if fits_name e name type then some (record { entry = e; symbols = null }) else none

s_find-s_link :
    (s : Symbol) (e : Entry) (name type : ℕ)
    → s_find (s_link s e) name type ≡ or_else (s_find s name type) (fresh_symbol e name type)
unfolding s_find s_link
s_find-s_link null e name type = refl
s_find-s_link (node f sub next) e name type = elim (Bool-cases (fits_name f name type)) [
  | inl h ↦ rw h refl
  | inr h ↦ rw (h, s_find-s_link next e name type) refl
]

-- What `eel_s_add` says of the new symbol.
abbrev pub added : Table → ℕ → Option ℕ → ℕ → Entry
added t address name type = record {
  address = address;
  name = name;
  type = type;
  uvlevel = if type == function_type then t.entry.uvlevel + 1 else t.entry.uvlevel;
}

-- After `eel_s_add`, `eel_s_find` answers for every name and type what it answered before, where it
-- found a symbol, and otherwise the new symbol if it has that name and type: a new symbol hides none
-- that was there before.
pub s_find-s_add :
    (t : Table) (address : ℕ) (new : Option ℕ) (new_type name type : ℕ)
    → s_find (s_add t address new new_type).symbols name type
      ≡ or_else (s_find t.symbols name type) (fresh_symbol (added t address new new_type) name type)
unfolding s_add
s_find-s_add t address new new_type name type =
    s_find-s_link t.symbols (added t address new new_type) name type
