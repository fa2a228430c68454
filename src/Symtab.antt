-- ===== src/Symtab.antt =====
-- The symbol table of the compiler, src/core/eelc/ec_symtab.c and ec_symtab.h: adding symbols, the
-- finder that searches a table, the tables around it or those in it, and `eel_find_symbol` of
-- src/core/e_util.c.
pub mod Visits
pub mod Enumerate
pub mod Nesting
pub mod Adding
mod Examples
pub mod Parts
pub mod Names
pub mod Search
use eel.Prelude.{
  ℕ, zero, suc, ◌+◌, ◌-◌, ◌*◌, ◌/◌, ◌%◌, ◌^◌, Bool, true, false, not, ◌&&◌, ◌||◌, Option, none,
  some, List, [], ◌∷◌, ◌++◌, ◌==◌, if◌then◌else◌,
}

-- What a symbol says of itself: where it is, its name (a pooled string, known by its address), its
-- type as a number of `EEL_symtypes`, and its nesting level.
pub record Entry : Type 0 where
  pub address : ℕ
  pub name : Option ℕ
  pub type : ℕ
  pub uvlevel : ℕ

-- A pointer to an `EEL_symbol`, with what its fields `symbols` and `next` lead to.
pub data Symbol : Type 0 where
  null : Symbol
  node : Entry → Symbol → Symbol → Symbol

-- A symbol that is used as a table, or as an answer: `next` is left out.
pub record Table : Type 0 where
  pub entry : Entry
  pub symbols : Symbol

-- The field `parent` of a table: the table around it, and what follows in that after it.
pub record Parent : Type 0 where
  pub table : Table
  pub after : Symbol

-- What to search for and where: fields of `EEL_finder` that a search does not change. Of `start` the
-- address is used; the flags ESTF_NAME, ESTF_TYPES, ESTF_UP and ESTF_DOWN are one Boolean each.
pub record Rules : Type 0 where
  pub start : ℕ
  pub name : Option ℕ
  pub types : ℕ
  pub by_name : Bool
  pub by_types : Bool
  pub up : Bool
  pub down : Bool

-- `EEL_finder`, with the parents of `symtab` from the inside out. Of `symbol`, which is `none` for
-- NULL, the field `next` is used.
pub record Finder : Type 0 where
  pub rules : Rules
  pub symtab : Table
  pub parents : List Parent
  pub symbol : Option Symbol

-- All bits of an `int`.
abbrev pub all_types : ℕ
all_types = 2 ^ 32 - 1

-- `eel_finder_init`, with the rules that its callers set afterwards.
unfoldable pub finder_init : Table → List Parent → Rules → Finder
finder_init st parents rules = record {
  rules = record rules { start = st.entry.address };
  symtab = st;
  parents = parents;
  symbol = none;
}

-- `(1 << type) & types`
unfoldable pub in_types : ℕ → ℕ → Bool
in_types type types = types / 2 ^ type % 2 == 1

unfoldable pub same_name : Option ℕ → ℕ → Bool
same_name none n = false
same_name (some m) n = m == n

unfoldable pub name_matches : Option ℕ → Option ℕ → Bool
unfolding same_name
name_matches wanted name = elim wanted [ none ↦ true | some n ↦ same_name name n ]

-- "Check for match"
unfoldable pub matches : Rules → Entry → Bool
unfolding in_types name_matches
matches r e =
    (not r.by_name || name_matches r.name e.name) && (not r.by_types || in_types e.type r.types)

-- "Check for downward recursion", for a symbol that has symbols.
unfoldable pub descends : Rules → Entry → Bool
unfolding in_types
descends r e = r.down && (not r.by_types || in_types e.type r.types)

-- "Next", or "First".
unfoldable pub following : Finder → Symbol
following f = elim f.symbol [ none ↦ f.symtab.symbols | some next ↦ next ]

-- What one round of the loop of `eel_finder_go` comes to.
pub data Round : Type 0 where
  complete : Finder → Round
  again : Finder → Round
  tested : Bool → Table → Finder → Round

-- On to the parent table, or the end of the search, by whether the search goes up and whether it is
-- inside a table below the one it started in.
unfoldable pub turn : Bool → Bool → Finder → Parent → List Parent → Round
turn true inside f p ps = again (record f { symtab = p.table; parents = ps; symbol = none })
turn false true f p ps = again (record f { symtab = p.table; parents = ps; symbol = some p.after })
turn false false f p ps = complete (record f { symbol = none })

-- Downward recursion is on, and `f->symtab` is not `f->start`.
unfoldable pub inside : Rules → Table → Bool
inside r st = r.down && not (st.entry.address == r.start)

-- "Check for upward recursion or completion". A table without parent is the end of every search.
unfoldable pub at_end : Finder → List Parent → Round
unfolding turn inside
at_end f [] = complete (record f { symbol = none })
at_end f (p ∷ ps) = turn f.rules.up (inside f.rules f.symtab) f p ps

-- Past a symbol that was tested: "Recursing down", or on in the same table.
unfoldable pub go_on : Bool → Finder → Table → Symbol → Finder
go_on true f st after = record f {
  symtab = st;
  parents = record { table = f.symtab; after = after } ∷ f.parents;
  symbol = none;
}
go_on false f st after = record f { symbol = some after }

unfoldable pub is_null : Symbol → Bool
is_null null = true
is_null (node e sub next) = false

unfoldable pub round_at : Finder → Symbol → Round
unfolding at_end matches descends go_on is_null
round_at f null = at_end f f.parents
round_at f (node e sub next) =
    tested (matches f.rules e) (record { entry = e; symbols = sub })
      (go_on (not (is_null sub) && descends f.rules e) f (record { entry = e; symbols = sub }) next)

unfoldable pub round : Finder → Round
unfolding following round_at
round f = round_at f (following f)

-- The loop of `eel_finder_go`. Without a match it returns `none` for the symbol; the fuel bounds the
-- rounds, and `none` for the whole is running out of it.
unfoldable pub finder_go : ℕ → Finder → Option (Option Table × Finder)
unfolding round
finder_go zero f = none
finder_go (suc fuel) f = elim (round f) [
  | complete g ↦ some (none, g)
  | again g ↦ finder_go fuel g
  | tested hit st g ↦ let rest = finder_go fuel g in if hit then some (some st, g) else rest
]
