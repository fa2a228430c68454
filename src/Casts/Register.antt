-- ===== src/Casts/Register.antt =====
-- Which entries registering a cast changes.
use eel.Prelude.{
  ℕ, zero, suc, ◌+◌, ◌-◌, ◌*◌, ◌<◌, ◌≤◌, ◌≡◌, ◌∙◌, refl, ap, inl, inr, Bool-cases, Bool, true,
  false, ◌&&◌, Option, none, some, ltb, leb, ◌==◌, ==_iff, arith, if◌then◌else◌,
}
use eel.Casts.{
  Caster, Block, Casters, write, set_row, set_multiple_casts, set_block, passes, is_not_implemented,
  Classes, any, indexable, class, entry, set_casts,
}
use eel.Casts.Matrix.{IsMatrix, IsRowwise, for_rows_lem, row_end}

set_row_lem :
    (to : ℕ → Bool) (cb : Caster) (count x at : ℕ) (nc : Block) (j k : ℕ)
    → (at ≤ j → x + j ≡ k + at)
    → set_row to cb count x at nc j
      ≡ (if leb at j && ltb j (at + count) && to k && is_not_implemented (nc j) then cb else nc j)
unfolding set_row write
set_row_lem to cb zero x at nc j k e = ground arith
set_row_lem to cb (suc count) x at nc j k e =
    set_row_lem to cb count (suc x) (suc at)
      (if to x && is_not_implemented (nc at) then write nc at cb else nc) j k
      (λ h. omega (arith, h, e (omega (arith, h))))
    ∙ elim (Bool-cases (j == at)) [
      | inl q ↦
          let p : j ≡ at = (==_iff j at).0 q in
          let f : x ≡ k = omega (arith, p, e (omega (arith, p))) in
          ground (arith, q, ap to f, ap nc p)
      | inr q ↦ ground (arith, q)
    ]

if_at : (b : Bool) (f g : Block) (j : ℕ) → (if b then f else g) j ≡ (if b then f j else g j)
if_at true f g j = refl
if_at false f g j = refl

-- What registering the cast `cb` for wildcards makes of the entry for `r` and `x`.
abbrev pub wildcard : (ℕ → Bool) → (ℕ → Bool) → Classes → Classes → Caster → ℕ → ℕ → Caster → Caster
wildcard has_get has_set from to cb r x c =
    if passes from (has_get r) && passes to (has_set x) && is_not_implemented c then cb else c

module _ (has_get has_set : ℕ → Bool) (dim : ℕ) (from to : Classes) (cb : Caster) where
  row_IsRowwise :
      IsRowwise dim
        (λ y nc'.
          let row = set_row (λ x. passes to (has_set x)) cb dim 0 (y * dim) nc' in
          if passes from (has_get y) then row else nc')
        (wildcard has_get has_set from to cb)
  row_IsRowwise y r x nc l = elim (Bool-cases (r == y)) [
    | inl q ↦
        let p : r ≡ y = (==_iff r y).0 q in
        if_at (passes from (has_get y)) (set_row (λ x. passes to (has_set x)) cb dim 0 (y * dim) nc)
          nc (r * dim + x)
        ∙ ground (
          arith,
          l,
          q,
          ap has_get p,
          ap (λ n. n * dim) p,
          set_row_lem (λ x. passes to (has_set x)) cb dim 0 (y * dim) nc (r * dim + x) x
              (λ h. omega (arith, ap (λ n. n * dim) p)),
        )
    | inr q ↦
        if_at (passes from (has_get y)) (set_row (λ x. passes to (has_set x)) cb dim 0 (y * dim) nc)
          nc (r * dim + x)
        ∙ ground (
          arith,
          l,
          q,
          row_end dim y r,
          row_end dim r y,
          set_row_lem (λ x. passes to (has_set x)) cb dim 0 (y * dim) nc (r * dim + x)
              (r * dim + x - y * dim) (λ h. omega (arith, h)),
        )
  ]

  set_multiple_casts_lem :
      (nc : Block) (r x : ℕ)
      → r < dim
      → x < dim
      → set_multiple_casts has_get has_set dim from to cb nc (r * dim + x)
        ≡ (wildcard has_get has_set from to cb) r x (nc (r * dim + x))
  unfolding set_multiple_casts
  set_multiple_casts_lem nc r x h l =
      for_rows_lem dim
        (λ y nc'.
          let row = set_row (λ x. passes to (has_set x)) cb dim 0 (y * dim) nc' in
          if passes from (has_get y) then row else nc')
        (wildcard has_get has_set from to cb) row_IsRowwise dim 0 nc r x l
      ∙ ground (arith, h)

-- What `eel_set_casts` makes of the cast from class `r` to class `x`: between two classes the new
-- cast replaces any other; with a wildcard it takes the place of `cast_not_implemented` only, and
-- only if both of `from` and `to` are wildcards that the classes pass.
abbrev pub registered :
    (ℕ → Bool) → (ℕ → Bool) → Classes → Classes → Caster → ℕ → ℕ → Caster → Caster
registered has_get has_set (class a) (class b) cb r x c = if r == a && x == b then cb else c
registered has_get has_set from to cb r x c = wildcard has_get has_set from to cb r x c

-- A wildcard, or a class that there is.
abbrev pub IsKnown : ℕ → Classes → Type 0
IsKnown dim (class c) = c < dim
IsKnown dim k = Unit

module _ (has_get has_set : ℕ → Bool) where
  write_lem :
      (dim a b : ℕ) (cb : Caster) (nc : Block) (r x : ℕ)
      → b < dim
      → x < dim
      → write nc (a * dim + b) cb (r * dim + x)
        ≡ (if r == a && x == b then cb else nc (r * dim + x))
  unfolding write
  write_lem dim a b cb nc r x h l = ground (arith, h, l, row_end dim a r, row_end dim r a)

  set_block_lem :
      (dim : ℕ) (from to : Classes) (cb : Caster) (nc : Block) (r x : ℕ)
      → IsKnown dim from
      → IsKnown dim to
      → r < dim
      → x < dim
      → set_block has_get has_set dim from to cb nc (r * dim + x)
        ≡ registered has_get has_set from to cb r x (nc (r * dim + x))
  unfolding set_block
  set_block_lem dim (class a) (class b) cb nc r x f t h l = write_lem dim a b cb nc r x t l
  set_block_lem dim (class a) any cb nc r x f t h l =
      set_multiple_casts_lem has_get has_set dim (class a) any cb nc r x h l
  set_block_lem dim (class a) indexable cb nc r x f t h l =
      set_multiple_casts_lem has_get has_set dim (class a) indexable cb nc r x h l
  set_block_lem dim any to cb nc r x f t h l =
      set_multiple_casts_lem has_get has_set dim any to cb nc r x h l
  set_block_lem dim indexable to cb nc r x f t h l =
      set_multiple_casts_lem has_get has_set dim indexable to cb nc r x h l

  entry-set_casts_at :
      (m : Option Block) (dim : ℕ) (from to : Classes) (cb : Caster) (r x : ℕ)
      → (m ≡ none → dim ≡ 0)
      → IsKnown dim from
      → IsKnown dim to
      → r < dim
      → x < dim
      → entry (set_casts has_get has_set from to cb (record { casters = m; castersdim = dim })) r x
        ≡ registered has_get has_set from to cb r x
            (entry (record { casters = m; castersdim = dim }) r x)
  unfolding set_casts entry
  entry-set_casts_at none dim from to cb r x m f t h l = absurd (omega (arith, m refl, h))
  entry-set_casts_at (some nc) dim from to cb r x m f t h l =
      set_block_lem dim from to cb nc r x f t h l

  -- After `eel_set_casts` for wildcards or classes that there are, each cast between two classes that
  -- there are is as follows: between two named classes the new cast is set for that pair and no
  -- other; with a wildcard it is set for the pairs that pass and had no cast, and no cast that was
  -- there changes.
  pub entry-set_casts :
      (es : Casters) (from to : Classes) (cb : Caster) (r x : ℕ)
      → IsMatrix es
      → IsKnown es.castersdim from
      → IsKnown es.castersdim to
      → r < es.castersdim
      → x < es.castersdim
      → entry (set_casts has_get has_set from to cb es) r x
        ≡ registered has_get has_set from to cb r x (entry es r x)
  entry-set_casts es from to cb r x m f t h l =
      entry-set_casts_at es.casters es.castersdim from to cb r x m f t h l
