-- ===== src/Shift/Gap.antt =====
-- Reading a list into which an element was inserted, or from which one was removed.
use eel.Prelude.{
  ℕ, zero, suc, ◌+◌, ◌-◌, ◌≤◌, ◌<◌, ◌≡◌, List, [], ◌∷◌, arith, length, get_or, set, ltb, ◌==◌,
  if◌then◌else◌,
}
use eel.Shift.Laws.{insert_at, remove_at}

module _ {ℓ} {A : Type ℓ} where
  pub length-insert_at : (xs : List A) (p : ℕ) (x : A) → length (insert_at xs p x) ≡ length xs + 1
  length-insert_at xs zero x = omega arith
  length-insert_at [] (suc p) x = omega arith
  length-insert_at (y ∷ xs) (suc p) x = omega (arith, length-insert_at xs p x)

  pub length-remove_at :
      (xs : List A) (p : ℕ) → p < length xs → length (remove_at xs p) + 1 ≡ length xs
  length-remove_at [] p h = absurd (omega arith)
  length-remove_at (y ∷ xs) zero h = omega arith
  length-remove_at (y ∷ xs) (suc p) h = omega (arith, length-remove_at xs p (omega arith))

  pub get_or-insert_at :
      (xs : List A) (p : ℕ) (x : A) (j : ℕ) (d : A)
      → p ≤ length xs
      → get_or (insert_at xs p x) j d
        ≡ (if ltb j p then get_or xs j d else (if j == p then x else get_or xs (j - 1) d))
  get_or-insert_at xs zero x zero d h = ground arith
  get_or-insert_at xs zero x (suc j) d h =
      let e : suc j - 1 ≡ j = omega arith in rw e (ground arith)
  get_or-insert_at [] (suc p) x j d h = absurd (omega arith)
  get_or-insert_at (y ∷ xs) (suc p) x zero d h = ground arith
  get_or-insert_at (y ∷ xs) (suc p) x (suc zero) d h = ground (arith, get_or-insert_at xs p x 0 d)
  get_or-insert_at (y ∷ xs) (suc p) x (suc (suc j)) d h =
      let e : suc (suc j) - 1 ≡ suc (suc j - 1) = omega arith in
      rw e (ground (arith, get_or-insert_at xs p x (suc j) d))

  pub get_or-remove_at :
      (xs : List A) (p j : ℕ) (d : A)
      → get_or (remove_at xs p) j d ≡ (if ltb j p then get_or xs j d else get_or xs (suc j) d)
  get_or-remove_at [] p j d = ground arith
  get_or-remove_at (y ∷ xs) zero j d = ground arith
  get_or-remove_at (y ∷ xs) (suc p) zero d = ground arith
  get_or-remove_at (y ∷ xs) (suc p) (suc j) d = ground (arith, get_or-remove_at xs p j d)

  pub get_or-set :
      (xs : List A) (i j : ℕ) (v d : A)
      → i < length xs
      → get_or (set xs i v) j d ≡ (if j == i then v else get_or xs j d)
  get_or-set [] i j v d h = absurd (omega arith)
  get_or-set (x ∷ xs) zero zero v d h = ground arith
  get_or-set (x ∷ xs) zero (suc j) v d h = ground arith
  get_or-set (x ∷ xs) (suc i) zero v d h = ground arith
  get_or-set (x ∷ xs) (suc i) (suc j) v d h = ground (arith, get_or-set xs i j v d)
