-- ===== src/Casts/Matrix.antt =====
-- The entries of the matrix of casts after it was extended.
use native.Mathlib.Nat.{mul-le-mul_right}
use eel.Prelude.{
  ℕ, zero, suc, ◌+◌, ◌-◌, ◌*◌, ◌<◌, ◌≤◌, ◌≡◌, ◌∙◌, refl, ap, inl, inr, Bool-cases, false, ◌&&◌,
  Option, none, some, ltb, leb, ◌==◌, ==_iff, arith, if◌then◌else◌,
}
use eel.Casts.{
  Caster, cast_not_implemented, Block, Casters, write, fill, copy_row, for_rows, copy_rows,
  extended, round_up, realloc_cast_matrix, entry,
}

-- Row `y` ends before row `r` begins.
pub row_end : (D y r : ℕ) → y < r → y * D + D ≤ r * D
row_end D y r h = omega (arith, mul-le-mul_right {m = suc y} {n = r} D h)

-- The body of a loop over rows changes row `y` only, entry by entry as `g` says.
abbrev pub IsRowwise : ℕ → (ℕ → Block → Block) → (ℕ → ℕ → Caster → Caster) → Type 0
IsRowwise D body g =
    (y r x : ℕ) (nc : Block)
    → x < D
    → body y nc (r * D + x) ≡ (if r == y then g r x (nc (r * D + x)) else nc (r * D + x))

pub for_rows_lem :
    (D : ℕ) (body : ℕ → Block → Block) (g : ℕ → ℕ → Caster → Caster)
    → IsRowwise D body g
    → (count y : ℕ) (nc : Block) (r x : ℕ) → x < D
    → for_rows body count y nc (r * D + x)
      ≡ (if leb y r && ltb r (y + count) then g r x (nc (r * D + x)) else nc (r * D + x))
unfolding for_rows
for_rows_lem D body g w zero y nc r x l = ground arith
for_rows_lem D body g w (suc count) y nc r x l =
    for_rows_lem D body g w count (suc y) (body y nc) r x l ∙ ground (arith, w y r x nc l)

fill_lem :
    (count at : ℕ) (nc : Block) (j : ℕ)
    → fill count at nc j ≡ (if leb at j && ltb j (at + count) then cast_not_implemented else nc j)
unfolding fill write
fill_lem zero at nc j = ground arith
fill_lem (suc count) at nc j =
    fill_lem count (suc at) (write nc at cast_not_implemented) j ∙ ground arith

copy_row_lem :
    (old : Block) (count at from : ℕ) (nc : Block) (j k : ℕ)
    → (at ≤ j → from + j ≡ k + at)
    → copy_row old count at from nc j ≡ (if leb at j && ltb j (at + count) then old k else nc j)
unfolding copy_row write
copy_row_lem old zero at from nc j k e = ground arith
copy_row_lem old (suc count) at from nc j k e =
    copy_row_lem old count (suc at) (suc from) (write nc at (old from)) j k
      (λ h. omega (arith, h, e (omega (arith, h))))
    ∙ elim (Bool-cases (j == at)) [
      | inl q ↦
          let p : j ≡ at = (==_iff j at).0 q in
          let f : from ≡ k = omega (arith, p, e (omega (arith, p))) in ground (arith, q, ap old f)
      | inr q ↦ ground (arith, q)
    ]

module _ (D d : ℕ) (le : d ≤ D) where
  right_IsRowwise :
      IsRowwise D
        (λ y. fill (D - d) (y * D + d))
        (λ r x c. if leb d x then cast_not_implemented else c)
  right_IsRowwise y r x nc l =
      fill_lem (D - d) (y * D + d) nc (r * D + x)
      ∙ ground (arith, le, row_end D y r, row_end D r y, l)

  bottom_IsRowwise :
      IsRowwise D (λ y. fill d (y * D)) (λ r x c. if ltb x d then cast_not_implemented else c)
  bottom_IsRowwise y r x nc l =
      fill_lem d (y * D) nc (r * D + x) ∙ ground (arith, le, row_end D y r, row_end D r y, l)

  copied_IsRowwise :
      (old : Block)
      → IsRowwise D
          (λ y. copy_row old d (y * D) (y * d))
          (λ r x c. if ltb x d then old (r * d + x) else c)
  copied_IsRowwise old y r x nc l =
      copy_row_lem old d (y * D) (y * d) nc (r * D + x) (y * d + (r * D + x - y * D))
        (λ h. omega (arith, h))
      ∙ elim (Bool-cases (r == y)) [
        | inl q ↦
            let p : r ≡ y = (==_iff r y).0 q in
            let k : y * d + (r * D + x - y * D) ≡ r * d + x =
              omega (arith, ap (λ n. n * D) p, ap (λ n. n * d) p) in
            ground (arith, le, l, q, ap (λ n. n * D) p, ap old k)
        | inr q ↦ ground (arith, le, l, q, row_end D y r, row_end D r y)
      ]

  -- The new block after the first two loops.
  filled : Block → Block
  filled nc =
      for_rows (λ y. fill d (y * D)) (D - d) d (for_rows (λ y. fill (D - d) (y * D + d)) D 0 nc)

  filled_lem :
      (nc : Block) (r x : ℕ)
      → r < D
      → x < D
      → (ltb r d && ltb x d) ≡ false
      → filled nc (r * D + x) ≡ cast_not_implemented
  unfolding filled
  filled_lem nc r x h l o =
      for_rows_lem D (λ y. fill d (y * D)) (λ r x c. if ltb x d then cast_not_implemented else c)
        bottom_IsRowwise (D - d) d (for_rows (λ y. fill (D - d) (y * D + d)) D 0 nc) r x l
      ∙ ground (
        arith,
        h,
        l,
        o,
        le,
        for_rows_lem D (λ y. fill (D - d) (y * D + d))
            (λ r x c. if leb d x then cast_not_implemented else c) right_IsRowwise D 0 nc r x l,
      )

  -- An entry of the new matrix: the old one, or not implemented.
  extended-none :
      (nc : Block) (r x : ℕ)
      → r < D
      → x < D
      → d ≡ 0
      → extended (record { casters = none; castersdim = d }) D nc (r * D + x) ≡ cast_not_implemented
  unfolding extended copy_rows filled
  extended-none nc r x h l z = filled_lem nc r x h l (ground (arith, z))

  extended-some :
      (old : Block) (nc : Block) (r x : ℕ)
      → r < D
      → x < D
      → extended (record { casters = some old; castersdim = d }) D nc (r * D + x)
        ≡ (if ltb r d && ltb x d then old (r * d + x) else cast_not_implemented)
  unfolding extended copy_rows filled
  extended-some old nc r x h l =
      for_rows_lem D (λ y. copy_row old d (y * D) (y * d))
        (λ r x c. if ltb x d then old (r * d + x) else c) (copied_IsRowwise old) d 0 (filled nc) r x
        l
      ∙ ground (arith, h, l, le, filled_lem nc r x h l)

-- Where there is no matrix its dimension is 0.
abbrev pub IsMatrix : Casters → Type 0
IsMatrix es = es.casters ≡ none → es.castersdim ≡ 0

extended_entry :
    (c : Option Block) (d D : ℕ) (nc : Block) (r x : ℕ)
    → (c ≡ none → d ≡ 0)
    → d ≤ D
    → r < D
    → x < D
    → entry
        (record {
          casters = some (extended (record { casters = c; castersdim = d }) D nc);
          castersdim = D;
        })
        r
        x
      ≡ (if ltb r d && ltb x d
          then entry (record { casters = c; castersdim = d }) r x
          else cast_not_implemented)
unfolding entry
extended_entry none d D nc r x m le h l =
    extended-none D d le nc r x h l (m refl) ∙ ground (arith, m refl)
extended_entry (some old) d D nc r x m le h l = extended-some D d le old nc r x h l

-- What `eel_realloc_cast_matrix` gives: room for the classes asked for, the casts that were there,
-- and `cast_not_implemented` for all pairs with a new class.
abbrev pub Extends : Casters → ℕ → Casters → Type 0
Extends es newdim t =
    (newdim ≤ t.castersdim)
    × (es.castersdim ≤ t.castersdim)
    × ((r x : ℕ)
        → r < t.castersdim
        → x < t.castersdim
        → entry t r x ≡ (
            if ltb r es.castersdim && ltb x es.castersdim
            then entry es r x
            else cast_not_implemented))

-- Where there is memory, whatever the new block holds, `eel_realloc_cast_matrix` returns a matrix
-- with room for the classes asked for, which is no smaller than the one before; every cast that was
-- there is found at its pair of classes, and every pair with a class that was not there has
-- `cast_not_implemented`, so that no entry is left as the block came.
pub realloc_cast_matrix-Extends :
    (nc : Block) (es : Casters) (newdim : ℕ)
    → IsMatrix es
    → (t : Casters) × (realloc_cast_matrix (some nc) es newdim ≡ some t) × Extends es newdim t
unfolding realloc_cast_matrix round_up
realloc_cast_matrix-Extends nc es newdim m =
    elim (Bool-cases (leb (round_up newdim) es.castersdim)) [
      | inl e ↦ (es, rw e refl, (ground (arith, e), omega arith, λ r x h l. ground (arith, h, l)))
      | inr e ↦ (
        record { casters = some (extended es (round_up newdim) nc); castersdim = round_up newdim },
        rw e refl,
        (
          omega arith,
          ground (arith, e),
          λ r x h l.
              extended_entry es.casters es.castersdim (round_up newdim) nc r x m (ground (arith, e))
                h l,
        ),
      )
    ]
