-- ===== src/Examples.antt =====
-- The theorems on values, moving loops and sizes of blocks, at concrete inputs.
use eel.Prelude.{ℕ, true, false, none, List, [], ◌∷◌}
use eel.Value.{World}

abbrev world : World
world = record {
  is_string = λ o. false;
  string_hash = λ o. 0;
  compare_mm = λ o v. none;
  real_eq = λ a b. true;
}

abbrev three : List ℕ
three = 5 ∷ (6 ∷ (7 ∷ []))
