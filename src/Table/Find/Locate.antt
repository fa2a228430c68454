-- ===== src/Table/Find/Locate.antt =====
-- `t__find` against a plain walk over all items.
use eel.Prelude.{
  ℕ, zero, suc, ◌+◌, ◌≤◌, ◌<◌, ◌≡◌, ◌≢◌, ◌⊎◌, refl, sym, ◌∙◌, Bool, true, ◌&&◌, Option, none, some,
  List, [], ◌∷◌, arith, length, get_or, drop, ◌==◌, Bool-cases, inl, inr, if◌then◌else◌,
}
use eel.Value.{Value, World}
use eel.Table.{Item, blank}
use eel.Table.Find.{Found, hit, miss, hash_of, key_match, scan, find_in, find, locate}
use eel.Table.Find.Sorted.{IsSorted, Parts, IsSorted-tail}
use eel.Table.Find.Search.{Locates, locate-Locates}

-- An item that a key finds: the same hash code, and keys that match.
abbrev pub is_for : World → Value → ℕ → Item → Bool
is_for w key h ti = (ti.hash == h) && key_match w ti.key key

-- The index of the first such item, counted from `i`.
unfoldable pub first_match : World → Value → ℕ → List Item → ℕ → Option ℕ
first_match w key h [] i = none
first_match w key h (ti ∷ rest) i =
    let next = first_match w key h rest (i + 1) in if is_for w key h ti then some i else next

abbrev pub index : Found → Option ℕ
index (hit i) = some i
index (miss p) = none

module _ (w : World) (key : Value) (h : ℕ) where
  first_match-none :
      (xs : List Item) (i : ℕ)
      → ((j : ℕ) → j < length xs → hash_of xs j ≢ h)
      → first_match w key h xs i ≡ none
  unfolding first_match
  first_match-none [] i a = refl
  first_match-none (x ∷ xs) i a =
      ground
        (arith, a 0 (omega arith), first_match-none xs (i + 1) (λ j p. a (suc j) (omega arith)))

  scan-first_match :
      (xs : List Item) (i : ℕ)
      → IsSorted xs
      → ((j : ℕ) → j < length xs → h ≤ hash_of xs j)
      → scan w key h xs i ≡ first_match w key h xs i
  unfolding scan first_match
  scan-first_match [] i s a = refl
  scan-first_match (x ∷ xs) i s a = elim (Bool-cases (x.hash == h)) [
    | inl same ↦ rw (same) (
        rw (scan-first_match xs (i + 1) (IsSorted-tail x xs s) (λ j p. a (suc j) (omega arith)))
          (ground arith))
    | inr other ↦ rw (other) (
        sym' (
          first_match-none xs (i + 1)
            (λ j p. ground (arith, a 0 (omega arith), s 0 (suc j) (omega arith) (omega arith)))))
  ]
    where
      sym' : {a : Option ℕ} → a ≡ none → none ≡ a
      sym' e = cc

  first_match-drop :
      (xs : List Item) (p i : ℕ)
      → p ≤ length xs
      → ((j : ℕ) → j < p → hash_of xs j < h)
      → first_match w key h xs i ≡ first_match w key h (drop p xs) (i + p)
  unfolding first_match
  first_match-drop xs zero i q a = let e : i + 0 ≡ i = omega arith in rw e
  first_match-drop [] (suc p) i q a = absurd (omega arith)
  first_match-drop (x ∷ xs) (suc p) i q a =
      let e : i + suc p ≡ (i + 1) + p = omega arith in
      rw e (
        ground (
          arith,
          a 0 (omega arith),
          first_match-drop xs p (i + 1) (omega arith) (λ j r. a (suc j) (omega arith)),
        ))

IsSorted-drop : (xs : List Item) (p : ℕ) → IsSorted xs → IsSorted (drop p xs)
IsSorted-drop xs zero s = s
IsSorted-drop [] (suc p) s = s
IsSorted-drop (x ∷ xs) (suc p) s = IsSorted-drop xs p (IsSorted-tail x xs s)

above-drop :
    (h : ℕ) (xs : List Item) (p : ℕ)
    → ((j : ℕ) → p ≤ j → j < length xs → h ≤ hash_of xs j)
    → (j : ℕ) → j < length (drop p xs)
    → h ≤ hash_of (drop p xs) j
above-drop h xs zero a j q = a j (omega arith) q
above-drop h [] (suc p) a j q = absurd (omega arith)
above-drop h (x ∷ xs) (suc p) a j q =
    above-drop h xs p (λ k r t. a (suc k) (omega arith) (omega arith)) j q

over-drop :
    (h : ℕ) (xs : List Item) (p : ℕ)
    → ((j : ℕ) → p ≤ j → j < length xs → h < hash_of xs j)
    → (j : ℕ) → j < length (drop p xs)
    → hash_of (drop p xs) j ≢ h
over-drop h xs zero a j q = omega (arith, a j (omega arith) q)
over-drop h [] (suc p) a j q = absurd (omega arith)
over-drop h (x ∷ xs) (suc p) a j q =
    over-drop h xs p (λ k r t. a (suc k) (omega arith) (omega arith)) j q

module _ (w : World) (items : List Item) (key : Value) (h : ℕ) (sorted : IsSorted items) where
  first_match-skip :
      (p : ℕ) → Parts items h p → first_match w key h items 0 ≡ first_match w key h (drop p items) p
  first_match-skip p parts =
      let e : 0 + p ≡ p = omega arith in
      rw e at (first_match-drop w key h items p 0 parts.inside parts.below)

  find_in-first_match :
      (r : Found)
      → Locates items h r
      → index (find_in w items key h r) ≡ first_match w key h items 0
  unfolding find_in
  find_in-first_match (miss p) (parts, over) = sym (
      first_match-skip p parts
      ∙ first_match-none w key h (drop p items) p (over-drop h items p over))
  find_in-first_match (hit first) (parts, lt, e) = ground (
    arith,
    first_match-skip first parts,
    scan-first_match w key h (drop first items) first (IsSorted-drop items first sorted)
        (above-drop h items first parts.above),
  )

  -- On items in the order of their hash codes `t__find`, with its binary search and its stop at the
  -- end of the group, finds the item that a walk over all items finds first, or none as it does.
  pub find-first_match : index (find w items key h) ≡ first_match w key h items 0
  unfolding find
  find-first_match = find_in-first_match (locate items h) (locate-Locates items h sorted)

  find_in-Parts :
      (r : Found) (p : ℕ) → Locates items h r → find_in w items key h r ≡ miss p → Parts items h p
  unfolding find_in
  find_in-Parts (miss q) p (parts, over) e = let e' : q ≡ p = ground arith in rw e' at parts
  find_in-Parts (hit first) p (parts, lt, same) e =
      let e' : first ≡ p = ground arith in rw e' at parts

  -- Where there is none it returns the place of the first item with the hash code, or the only place
  -- where one keeps the order.
  pub find-Parts : (p : ℕ) → find w items key h ≡ miss p → Parts items h p
  unfolding find
  find-Parts p = find_in-Parts (locate items h) p (locate-Locates items h sorted)

-- A hit of the walk is an item with the hash code and a matching key.
pub first_match-is_for :
    (w : World) (key : Value) (h : ℕ) (xs : List Item) (i n : ℕ)
    → first_match w key h xs i ≡ some n
    → (k : ℕ) × (n ≡ i + k) × (k < length xs) × (is_for w key h (get_or xs k blank) ≡ true)
unfolding first_match
first_match-is_for w key h [] i n e = cc
first_match-is_for w key h (x ∷ xs) i n e = elim (Bool-cases (is_for w key h x)) [
  | inl here ↦ (0, ground arith, omega arith, here)
  | inr there ↦
      let (k, at, lt, fits) = first_match-is_for w key h xs (i + 1) n (rw there at e) in
      (suc k, omega arith, omega arith, fits)
]

-- To split on an answer and keep the equation.
pub Found-cases : (r : Found) → ((i : ℕ) × (r ≡ hit i)) ⊎ ((p : ℕ) × (r ≡ miss p))
Found-cases (hit i) = inl (i, refl)
Found-cases (miss p) = inr (p, refl)

pub find-hit :
    (w : World) (items : List Item) (key : Value) (h : ℕ) {i : ℕ}
    → IsSorted items
    → find w items key h ≡ hit i
    → (i < length items) × (is_for w key h (get_or items i blank) ≡ true)
find-hit w items key h {i} s e =
    let found : first_match w key h items 0 ≡ some i =
      ground (arith, find-first_match w items key h s) in
    let (k, at, lt, fits) = first_match-is_for w key h items 0 i found in
    let same : i ≡ k = omega arith in rw same (lt, fits)
