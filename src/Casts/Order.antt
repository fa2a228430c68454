-- ===== src/Casts/Order.antt =====
-- Registering casts in different orders.
use mathlib.Core.Path.{subst}
use eel.Prelude.{
  ℕ, ◌<◌, ◌≡◌, ◌∙◌, refl, sym, ap, inl, inr, Bool-cases, Bool, true, false, ◌&&◌, Option, none,
  some, ◌==◌, arith,
}
use eel.Casts.{
  Caster, Block, Casters, is_not_implemented, Classes, any, indexable, class, entry, set_casts,
}
use eel.Casts.Matrix.{IsMatrix}
use eel.Casts.Register.{registered, wildcard, IsKnown, entry-set_casts}

-- At least one of the two is a wildcard.
abbrev pub IsWild : Classes → Classes → Type 0
IsWild (class a) (class b) = false ≡ true
IsWild from to = Unit

module _ (has_get has_set : ℕ → Bool) where
  castersdim-set_casts :
      (from to : Classes) (cb : Caster) (m : Option Block) (dim : ℕ)
      → (set_casts has_get has_set from to cb (record { casters = m; castersdim = dim })).castersdim
        ≡ dim
  unfolding set_casts
  castersdim-set_casts from to cb none dim = refl
  castersdim-set_casts from to cb (some nc) dim = refl

  set_casts-IsMatrix :
      (from to : Classes) (cb : Caster) (m : Option Block) (dim : ℕ)
      → IsMatrix (record { casters = m; castersdim = dim })
      → IsMatrix (set_casts has_get has_set from to cb (record { casters = m; castersdim = dim }))
  unfolding set_casts
  set_casts-IsMatrix from to cb none dim h = h
  set_casts-IsMatrix from to cb (some nc) dim h = λ e. absurd (ground (arith, e))

  registered_wild :
      (from to : Classes) (cb : Caster) (r x : ℕ) (c : Caster)
      → IsWild from to
      → registered has_get has_set from to cb r x c ≡ wildcard has_get has_set from to cb r x c
  registered_wild (class a) (class b) cb r x c w = absurd (ground (arith, w))
  registered_wild (class a) any cb r x c w = refl
  registered_wild (class a) indexable cb r x c w = refl
  registered_wild any to cb r x c w = refl
  registered_wild indexable to cb r x c w = refl

  -- The cast between two classes after it was registered and then casts for a wildcard, and the
  -- other way round.
  registered_commutes :
      (from to : Classes) (a b : ℕ) (cb special : Caster) (r x : ℕ) (c : Caster)
      → is_not_implemented special ≡ false
      → wildcard has_get has_set from to cb r x
          (registered has_get has_set (class a) (class b) special r x c)
        ≡ registered has_get has_set
            (class a)
            (class b)
            special
            r
            x
            (wildcard has_get has_set from to cb r x c)
  registered_commutes from to a b cb special r x c s = elim (Bool-cases (r == a && x == b)) [
    | inl e ↦ ground (arith, e, s)
    | inr e ↦ ground (arith, e, s)
  ]

  -- Registering a cast between two classes that there are, which is not `cast_not_implemented`
  -- itself, and registering one with a wildcard give the same matrix in either order: the cast from
  -- any class to any other is the same.
  pub set_casts-set_casts :
      (m : Option Block) (dim : ℕ) (from to : Classes) (a b : ℕ) (cb special : Caster) (r x : ℕ)
      → IsMatrix (record { casters = m; castersdim = dim })
      → IsWild from to
      → IsKnown dim from
      → IsKnown dim to
      → a < dim
      → b < dim
      → is_not_implemented special ≡ false
      → r < dim
      → x < dim
      → entry
          (set_casts has_get has_set from to cb (
            set_casts has_get has_set
              (class a)
              (class b)
              special
              (record { casters = m; castersdim = dim })))
          r
          x
        ≡ entry
            (set_casts has_get has_set
              (class a)
              (class b)
              special
              (set_casts has_get has_set from to cb (record { casters = m; castersdim = dim })))
            r
            x
  set_casts-set_casts m dim from to a b cb special r x i w f t h k s l n =
      let es : Casters = record { casters = m; castersdim = dim } in
      let one : Casters = set_casts has_get has_set (class a) (class b) special es in
      let two : Casters = set_casts has_get has_set from to cb es in
      let d1 : dim ≡ one.castersdim =
        sym (castersdim-set_casts (class a) (class b) special m dim) in
      let d2 : dim ≡ two.castersdim = sym (castersdim-set_casts from to cb m dim) in
      entry-set_casts has_get has_set one from to cb r x
        (set_casts-IsMatrix (class a) (class b) special m dim i) (subst (λ d. IsKnown d from) d1 f)
        (subst (λ d. IsKnown d to) d1 t) (omega (arith, l, d1)) (omega (arith, n, d1))
      ∙ registered_wild from to cb r x (entry one r x) w
      ∙ ap (wildcard has_get has_set from to cb r x)
          (entry-set_casts has_get has_set es (class a) (class b) special r x i h k l n)
      ∙ registered_commutes from to a b cb special r x (entry es r x) s
      ∙ ap (registered has_get has_set (class a) (class b) special r x) (
          sym (registered_wild from to cb r x (entry es r x) w)
          ∙ sym (entry-set_casts has_get has_set es from to cb r x i f t l n))
      ∙ sym (
          entry-set_casts has_get has_set two (class a) (class b) special r x
            (set_casts-IsMatrix from to cb m dim i) (omega (arith, h, d2)) (omega (arith, k, d2))
            (omega (arith, l, d2)) (omega (arith, n, d2)))
