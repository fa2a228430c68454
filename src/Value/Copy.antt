-- ===== src/Value/Copy.antt =====
-- Ownership: what copying and disowning a value does to the count of an object's references.
use eel.Prelude.{ℕ, ◌+◌, List, [], ◌∷◌, ◌++◌, ◌≡◌, arith, ◌==◌, if◌then◌else◌}
use eel.Value.{
  Value, obj_ref, Effect, own, disown, attach, detach, v_copy, v_clone, v_disown, World, v2hash,
}

module _ (o : ℕ) where
  -- 1 for a strong reference to `o`.
  abbrev pub strong : Value → ℕ
  strong (obj_ref p) = if p == o then 1 else 0
  strong v = 0

  -- How often a log takes, and gives up, ownership of `o`.
  abbrev pub owns : List Effect → ℕ
  owns [] = 0
  owns (own p ∷ es) = (if p == o then 1 else 0) + owns es
  owns (e ∷ es) = owns es

  abbrev pub disowns : List Effect → ℕ
  disowns [] = 0
  disowns (disown p ∷ es) = (if p == o then 1 else 0) + disowns es
  disowns (e ∷ es) = disowns es

  pub owns-append : (es fs : List Effect) → owns (es ++ fs) ≡ owns es + owns fs
  owns-append [] fs = ground arith
  owns-append (own p ∷ es) fs = ground (arith, owns-append es fs)
  owns-append (disown p ∷ es) fs = ground (arith, owns-append es fs)
  owns-append (attach p ∷ es) fs = ground (arith, owns-append es fs)
  owns-append (detach p ∷ es) fs = ground (arith, owns-append es fs)

  pub disowns-append : (es fs : List Effect) → disowns (es ++ fs) ≡ disowns es + disowns fs
  disowns-append [] fs = ground arith
  disowns-append (own p ∷ es) fs = ground (arith, disowns-append es fs)
  disowns-append (disown p ∷ es) fs = ground (arith, disowns-append es fs)
  disowns-append (attach p ∷ es) fs = ground (arith, disowns-append es fs)
  disowns-append (detach p ∷ es) fs = ground (arith, disowns-append es fs)

  -- A copy, and a clone, own exactly what they refer to strongly.
  pub v_copy_balance :
      (v : Value) → (owns (v_copy v).1 ≡ strong (v_copy v).0) × (disowns (v_copy v).1 ≡ 0)
  unfolding v_copy
  v_copy_balance v = ground arith

  pub v_clone_balance :
      (v : Value) → (owns (v_clone v).1 ≡ strong (v_clone v).0) × (disowns (v_clone v).1 ≡ 0)
  unfolding v_clone
  v_clone_balance v = ground arith

  pub v_disown_balance : (v : Value) → (disowns (v_disown v) ≡ strong v) × (owns (v_disown v) ≡ 0)
  unfolding v_disown
  v_disown_balance v = ground arith

-- `eel_v2hash` gives the same code for a value and for its copy.
pub v2hash-v_copy : (w : World) (v : Value) → v2hash w (v_copy v).0 ≡ v2hash w v
unfolding v2hash v_copy
v2hash-v_copy w v = ground arith

pub v2hash-v_clone : (w : World) (v : Value) → v2hash w (v_clone v).0 ≡ v2hash w v
unfolding v2hash v_clone
v2hash-v_clone w v = ground arith
