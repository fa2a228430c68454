-- ===== src/Table/Find/Sorted.antt =====
-- The order of the items.
use eel.Prelude.{ℕ, suc, ◌≤◌, ◌<◌, List, ◌∷◌, arith, length}
use eel.Table.{Item}
use eel.Table.Find.{hash_of}

-- The hash codes do not fall.
abbrev pub IsSorted : List Item → Type 0
IsSorted items = (i j : ℕ) → i ≤ j → j < length items → hash_of items i ≤ hash_of items j

-- `p` parts the items with smaller hash codes from the others.
pub record Parts (items : List Item) (h p : ℕ) : Type 0 where
  pub inside : p ≤ length items
  pub below : (j : ℕ) → j < p → hash_of items j < h
  pub above : (j : ℕ) → p ≤ j → j < length items → h ≤ hash_of items j

pub IsSorted-tail : (x : Item) (xs : List Item) → IsSorted (x ∷ xs) → IsSorted xs
IsSorted-tail x xs s i j p q = s (suc i) (suc j) (omega arith) (omega arith)
