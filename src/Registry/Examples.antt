-- ===== src/Registry/Examples.antt =====
-- A registration of two exceptions whose codes leave a gap.
use eel.Prelude.{
  ℕ, ◌+◌, ◌-◌, ◌^◌, ◌≡◌, refl, true, none, some, List, [], ◌∷◌, arith, ◌==◌, if◌then◌else◌,
}
use eel.Prelude.Int.{pos}
use eel.Registry.{
  Xdef, Xentry, Registry, register, create, verify, already_registered, free_block, fill,
  get_xentry,
}
use eel.Registry.Fill.{In, code_of, entry_of}
use eel.Registry.Lookup.{with_block, entries_of, register-get_xentry}

abbrev first_def : Xdef
first_def = record { code = pos 3; name = some (65 ∷ []); description = none }

abbrev second_def : Xdef
second_def = record { code = pos 1; name = some (66 ∷ []); description = none }

abbrev defs : List Xdef
defs = first_def ∷ (second_def ∷ [])

-- Only the block of the core exceptions is there.
abbrev core : Registry
core = λ i. if i == 0 then some (record { base = 0; entries = [] }) else none

abbrev after : Registry
after = with_block core 1 1 (entries_of defs 1 3)

register-get_xentry_example :
    ((d : Xdef) → In d defs → get_xentry after (2 ^ 24 - 1 + code_of d) ≡ some (entry_of d))
    × ((x : ℕ) (e : Xentry) → get_xentry core x ≡ some e → get_xentry after x ≡ some e)
unfolding register create verify already_registered free_block fill
register-get_xentry_example =
    register-get_xentry true core after defs 1 3 (2 ^ 24 - 1) refl refl
      (((λ e. omega (arith, e)), tt), (tt, tt)) refl
