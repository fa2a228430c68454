-- ===== src/Symtab/Names.antt =====
-- Adding a symbol to a table, and looking names up in it: eel_s_add and eel_s_find of
-- src/core/eelc/ec_symtab.c, and eel_find_symbol of src/core/e_util.c.
use eel.Prelude.{
  ℕ, suc, ◌+◌, ◌*◌, ◌^◌, true, false, ◌&&◌, Option, none, some, List, [], ◌∷◌, ◌++◌, ltb, ◌==◌,
  if◌then◌else◌, length,
}
use eel.Symtab.{Entry, Symbol, null, node, Table, Rules, Finder, finder_init, finder_go, same_name}

abbrev pub function_type : ℕ
function_type = 9

-- `eel_s_link`: at the end of the table.
unfoldable pub s_link : Symbol → Entry → Symbol
s_link null e = node e null null
s_link (node f sub next) e = node f sub (s_link next e)

-- `eel_s_add` to the table `parent`, of a symbol at a new address; the name is a pooled string or NULL.
unfoldable pub s_add : Table → ℕ → Option ℕ → ℕ → Table
unfolding s_link
s_add parent address name type = record parent {
  symbols = s_link parent.symbols (record {
    address = address;
    name = name;
    type = type;
    uvlevel = if type == function_type then parent.entry.uvlevel + 1 else parent.entry.uvlevel;
  });
}

-- `eel_s_find`, by the pooled name.
unfoldable pub s_find : Symbol → ℕ → ℕ → Option Table
unfolding same_name
s_find null name type = none
s_find (node e sub next) name type =
    let rest = s_find next name type in
    if e.type == type && same_name e.name name
    then some (record { entry = e; symbols = sub })
    else rest

-- The mask of `eel_find_symbol`: keywords, variables, constants, classes, modules, functions and
-- operators.
abbrev pub found_types : ℕ
found_types = 2 ^ 1 + 2 ^ 2 + 2 ^ 6 + 2 ^ 7 + 2 ^ 8 + 2 ^ 9 + 2 ^ 10

unfoldable pub width : Symbol → ℕ
width null = 0
width (node e sub next) = suc (width next)

-- The rules for one part of a name, which is a pooled string.
unfoldable pub part_rules : ℕ → Rules
part_rules name = record {
  start = 0;
  name = some name;
  types = found_types;
  by_name = true;
  by_types = true;
  up = false;
  down = false;
}

unfoldable pub answer : Option (Option Table × Finder) → Option Table
answer none = none
answer (some (hit, g)) = hit

-- "case 0", "case '.'": one part of the name, in `scope`. The fuel is above twice the number of
-- symbols in the table.
unfoldable pub find_part : Option Table → ℕ → Option Table
unfolding width part_rules answer finder_init finder_go
find_part none name = none
find_part (some scope) name =
    answer (finder_go (2 * width scope.symbols + 1) (finder_init scope [] (part_rules name)))

-- What `eel_find_symbol` comes to: a pointer, the error "Too long object or field name", a write
-- past the end of `buf`, or `eel_o_disown_nz` of NULL, where the pool had no string for a part.
pub data Found : Type 0 where
  found : Option Table → Found
  too_long : Found
  overflow : Found
  null_name : Found

abbrev pub buf_size : ℕ
buf_size = 128

abbrev pub dot : ℕ
dot = 46

-- `buf[i] = 0`, where `buf` has room for it.
unfoldable pub fits : List ℕ → Found → Found
fits buf rest = if ltb (length buf) buf_size then rest else overflow

-- The loop of `eel_find_symbol`, with what `buf` holds and what is left of the name. `ps_new` gives the
-- pooled string.
unfoldable pub find_from : (List ℕ → Option ℕ) → Option Table → List ℕ → List ℕ → Found
unfolding find_part fits
find_from ps_new scope buf [] =
    fits buf (elim (ps_new buf) [ none ↦ null_name | some n ↦ found (find_part scope n) ])
find_from ps_new scope buf (c ∷ name) =
    let next : Found = elim (ps_new buf) [
      | none ↦ null_name
      | some n ↦ find_from ps_new (find_part scope n) [] name
    ] in
    let longer = find_from ps_new scope (buf ++ c ∷ []) name in
    if c == dot then fits buf next else (if ltb (length buf) buf_size then longer else too_long)

-- `eel_find_symbol` in `scope`, which is NULL for the root table.
unfoldable pub find_symbol : (List ℕ → Option ℕ) → Table → Option Table → List ℕ → Found
unfolding find_from
find_symbol ps_new root none name = find_from ps_new (some root) [] name
find_symbol ps_new root (some scope) name = find_from ps_new (some scope) [] name
