-- ===== src/Table/Find/Search.antt =====
-- The binary search, the linear search and the way back to the head of a group of items.
use eel.Prelude.{
  ℕ, zero, suc, ◌+◌, ◌/◌, ◌≤◌, ◌<◌, ◌≡◌, List, [], ◌∷◌, arith, length, ltb, ◌==◌, Bool-cases, inl,
  inr,
}
use eel.Table.{Item}
use eel.Table.Find.{
  Found, hit, miss, hash_of, binary_loop, binary_find, linear_find, back_up, locate,
}
use eel.Table.Find.Sorted.{IsSorted, Parts, IsSorted-tail}

-- What a binary search may say: an item with the hash code, or a place with only smaller codes
-- before it and only greater ones behind.
abbrev pub Answers : List Item → ℕ → Found → Type 0
Answers items h (hit i) = (i < length items) × (hash_of items i ≡ h)
Answers items h (miss p) =
    (p ≤ length items)
    × ((j : ℕ) → j < p → hash_of items j < h)
    × ((j : ℕ) → p ≤ j → j < length items → h < hash_of items j)

module _ (items : List Item) (h : ℕ) (sorted : IsSorted items) where
  record Inv (low high : ℕ) : Type 0 where
    ordered : low ≤ high
    inside : high ≤ length items
    below : (j : ℕ) → j < low → hash_of items j < h
    above : (j : ℕ) → high ≤ j → j < length items → h < hash_of items j

  lower-Inv :
      (low high mid : ℕ)
      → Inv low high
      → low ≤ mid
      → mid < high
      → h < hash_of items mid
      → Inv low mid
  lower-Inv low high mid inv a b c = record {
    ordered = a;
    inside = omega (arith, inv.inside);
    below = inv.below;
    above = λ j p q. omega (arith, sorted mid j p q);
  }

  upper-Inv :
      (low high mid : ℕ)
      → Inv low high
      → low ≤ mid
      → mid < high
      → hash_of items mid < h
      → Inv (mid + 1) high
  upper-Inv low high mid inv a b c = record {
    ordered = omega arith;
    inside = inv.inside;
    below = λ j p. omega (arith, sorted j mid (omega arith) (omega (arith, inv.inside)));
    above = inv.above;
  }

  stop-Answers :
      (low high : ℕ) → high ≤ low → Inv low high → Answers items h (miss ((low + high) / 2))
  stop-Answers low high le inv = (
    omega (arith, inv.inside),
    λ j p. inv.below j (omega arith),
    λ j p q. inv.above j (omega arith) q,
  )

  loop-Answers :
      (fuel low high : ℕ)
      → high ≤ low + fuel
      → Inv low high
      → Answers items h (binary_loop items h fuel low high)
  unfolding binary_loop
  loop-Answers zero low high f inv = stop-Answers low high (omega arith) inv
  loop-Answers (suc fuel) low high f inv = elim (Bool-cases (ltb low high)) [
    | inr e ↦ rw e (stop-Answers low high (ground arith) inv)
    | inl e ↦ rw e (elim (Bool-cases (ltb h (hash_of items ((low + high) / 2)))) [
      | inl l ↦ rw l (
          loop-Answers fuel low ((low + high) / 2) (ground arith) (
            lower-Inv low high ((low + high) / 2) inv (ground arith) (ground arith) (ground arith)))
      | inr nl ↦ rw nl (elim (Bool-cases (ltb (hash_of items ((low + high) / 2)) h)) [
        | inl u ↦ rw u (
            loop-Answers fuel ((low + high) / 2 + 1) high (ground arith) (
              upper-Inv low high ((low + high) / 2) inv (ground arith) (ground arith)
                (ground arith)))
        | inr nu ↦ rw nu (ground (arith, inv.inside))
      ])
    ])
  ]

  binary_find-Answers : Answers items h (binary_find items h)
  unfolding binary_find
  binary_find-Answers = loop-Answers (length items) 0 (length items) (omega arith) (record {
    ordered = omega arith;
    inside = omega arith;
    below = λ j p. absurd (omega arith);
    above = λ j p q. absurd (omega arith);
  })

  -- From any item of a group `back_up` comes to its first item.
  pub back_up-Parts :
      (first : ℕ)
      → first < length items
      → hash_of items first ≡ h
      → Parts items h (back_up items h first)
        × (back_up items h first < length items)
        × (hash_of items (back_up items h first) ≡ h)
  unfolding back_up
  back_up-Parts zero lt e = (
    record {
      inside = omega arith;
      below = λ j p. absurd (omega arith);
      above = λ j p q. omega (arith, sorted 0 j p q);
    },
    lt,
    e,
  )
  back_up-Parts (suc first) lt e = elim (Bool-cases (hash_of items first == h)) [
    | inl same ↦ rw same (back_up-Parts first (omega arith) (ground arith))
    | inr other ↦ rw other (
      record {
        inside = omega arith;
        below = λ j p.
            ground (arith, sorted j first (omega arith), sorted first (suc first) (omega arith));
        above = λ j p q. omega (arith, sorted (suc first) j p q);
      },
      lt,
      e,
    )
  ]

-- What the search for a hash code may say: the first item with it, or the only place that keeps the
-- order.
abbrev pub Locates : List Item → ℕ → Found → Type 0
Locates items h (hit p) = Parts items h p × (p < length items) × (hash_of items p ≡ h)
Locates items h (miss p) =
    Parts items h p × ((j : ℕ) → p ≤ j → j < length items → h < hash_of items j)

-- The same of a search that starts counting at `first`.
abbrev LocatesFrom : List Item → ℕ → ℕ → Found → Type 0
LocatesFrom items h first (hit p) = (k : ℕ) × (p ≡ first + k) × Locates items h (hit k)
LocatesFrom items h first (miss p) = (k : ℕ) × (p ≡ first + k) × Locates items h (miss k)

Parts-cons :
    (x : Item) (xs : List Item) (h p : ℕ) → x.hash < h → Parts xs h p → Parts (x ∷ xs) h (suc p)
Parts-cons x xs h p lt parts = record {
  inside = omega (arith, parts.inside);
  below = lows;
  above = highs;
}
  where
    lows : (j : ℕ) → j < suc p → hash_of (x ∷ xs) j < h
    lows zero q = lt
    lows (suc j) q = parts.below j (omega arith)

    highs : (j : ℕ) → suc p ≤ j → j < length (x ∷ xs) → h ≤ hash_of (x ∷ xs) j
    highs zero q r = absurd (omega arith)
    highs (suc j) q r = parts.above j (omega arith) (omega arith)

step-LocatesFrom :
    (x : Item) (xs : List Item) (h first : ℕ) (r : Found)
    → x.hash < h
    → LocatesFrom xs h (first + 1) r
    → LocatesFrom (x ∷ xs) h first r
step-LocatesFrom x xs h first (hit p) lt (k, e, (parts, inside, same)) =
    (suc k, omega arith, (Parts-cons x xs h k lt parts, omega arith, same))
step-LocatesFrom x xs h first (miss p) lt (k, e, (parts, over)) =
    (suc k, omega arith, (Parts-cons x xs h k lt parts, highs))
  where
    highs : (j : ℕ) → suc k ≤ j → j < length (x ∷ xs) → h < hash_of (x ∷ xs) j
    highs zero q r = absurd (omega arith)
    highs (suc j) q r = over j (omega arith) (omega arith)

head-Parts :
    (x : Item) (xs : List Item) (h : ℕ) → IsSorted (x ∷ xs) → h ≤ x.hash → Parts (x ∷ xs) h 0
head-Parts x xs h s le = record {
  inside = omega arith;
  below = λ j p. absurd (omega arith);
  above = λ j p q. omega (arith, s 0 j (omega arith) q);
}

linear-LocatesFrom :
    (items : List Item) (h first : ℕ)
    → IsSorted items
    → LocatesFrom items h first (linear_find items h first)
unfolding linear_find
linear-LocatesFrom [] h first s = (
  0,
  omega arith,
  (
    record {
      inside = omega arith;
      below = λ j p. absurd (omega arith);
      above = λ j p q. absurd (omega arith);
    },
    λ j p q. absurd (omega arith),
  ),
)
linear-LocatesFrom (x ∷ xs) h first s = elim (Bool-cases (ltb x.hash h)) [
  | inl less ↦ rw less (
      step-LocatesFrom x xs h first _ (ground arith)
        (linear-LocatesFrom xs h (first + 1) (IsSorted-tail x xs s)))
  | inr not_less ↦ rw not_less (elim (Bool-cases (ltb h x.hash)) [
    | inl more ↦ rw more (
      0,
      omega arith,
      (head-Parts x xs h s (ground arith), λ j p q. ground (arith, s 0 j (omega arith) q)),
    )
    | inr equal ↦
        rw equal (0, omega arith, (head-Parts x xs h s (ground arith), omega arith, ground arith))
  ])
]

-- On items in the order of their hash codes the search of `t__find`, binary or linear, finds the
-- first item with the hash code, or else the place where one keeps the order.
pub locate-Locates : (items : List Item) (h : ℕ) → IsSorted items → Locates items h (locate items h)
unfolding locate
locate-Locates items h s = elim (Bool-cases (ltb (length items) 10)) [
  | inl few ↦ rw few (from_zero (linear_find items h 0) (linear-LocatesFrom items h 0 s))
  | inr many ↦ rw many (backed (binary_find items h) (binary_find-Answers items h s))
]
  where
    from_zero : (r : Found) → LocatesFrom items h 0 r → Locates items h r
    from_zero (hit p) (k, e, l) = let e' : p ≡ k = omega arith in rw e' l
    from_zero (miss p) (k, e, l) = let e' : p ≡ k = omega arith in rw e' l

    backed :
        (r : Found)
        → Answers items h r
        → Locates items h
            (elim r as (λ _. Found) [ hit first ↦ hit (back_up items h first) | miss at ↦ miss at ])
    backed (hit first) (lt, e) = back_up-Parts items h s first lt e
    backed (miss p) (inside, below, above) = (
      record { inside = inside; below = below; above = λ j q r. omega (arith, above j q r) },
      above,
    )
