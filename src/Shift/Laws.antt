-- ===== src/Shift/Laws.antt =====
-- The moving loops open, or close, a gap in a list.
use eel.Prelude.{
  ℕ, zero, suc, ◌+◌, ◌-◌, ◌≤◌, ◌<◌, ◌≡◌, refl, ap, List, [], ◌∷◌, ◌++◌, arith, length, get_or, set,
  take,
}
use eel.Shift.{shift_up, shift_down}

module _ {ℓ} {A : Type ℓ} where
  -- `x` before the element at `i`.
  abbrev pub insert_at : List A → ℕ → A → List A
  insert_at xs zero x = x ∷ xs
  insert_at [] (suc i) x = x ∷ []
  insert_at (y ∷ xs) (suc i) x = y ∷ insert_at xs i x

  abbrev pub remove_at : List A → ℕ → List A
  remove_at [] i = []
  remove_at (y ∷ xs) zero = xs
  remove_at (y ∷ xs) (suc i) = y ∷ remove_at xs i

module _ {ℓ} {A : Type ℓ} (blank : A) where
  shift_up-zero :
      (y : A) (zs : List A) (i : ℕ)
      → shift_up blank (y ∷ zs) 0 (suc i) ≡ y ∷ set (shift_up blank zs 0 i) 0 y
  unfolding shift_up
  shift_up-zero y zs zero = refl
  shift_up-zero y zs (suc j) =
      ground (arith, shift_up-zero y (set zs (suc j) (get_or zs j blank)) j)

  shift_up-suc :
      (y : A) (zs : List A) (p i : ℕ)
      → shift_up blank (y ∷ zs) (suc p) (suc i) ≡ y ∷ shift_up blank zs p i
  unfolding shift_up
  shift_up-suc y zs p zero = ground arith
  shift_up-suc y zs p (suc j) =
      ground (arith, shift_up-suc y (set zs (suc j) (get_or zs j blank)) p j)

  -- With one more slot at the end, and `p` at most the length, moving the elements from `p` on up by
  -- one place and writing `x` at `p` inserts `x` there.
  pub set-shift_up :
      (xs : List A) (p : ℕ) (x : A)
      → p ≤ length xs
      → set (shift_up blank (xs ++ blank ∷ []) p (length xs)) p x ≡ insert_at xs p x
  set-shift_up [] zero x h = unfold shift_up in refl
  set-shift_up [] (suc p) x h = absurd (omega arith)
  set-shift_up (y ∷ ys) zero x h =
      rw (shift_up-zero y (ys ++ blank ∷ []) (length ys))
        (ap (λ l. x ∷ l) (set-shift_up ys zero y (omega arith)))
  set-shift_up (y ∷ ys) (suc p) x h =
      rw (shift_up-suc y (ys ++ blank ∷ []) p (length ys))
        (ap (λ l. y ∷ l) (set-shift_up ys p x (omega arith)))

  shift_down-suc :
      (y : A) (zs : List A) (i n : ℕ)
      → shift_down blank (y ∷ zs) (suc i) n ≡ y ∷ shift_down blank zs i n
  unfolding shift_down
  shift_down-suc y zs i zero = refl
  shift_down-suc y zs i (suc n) = shift_down-suc y (set zs i (get_or zs (suc i) blank)) (suc i) n

  -- Moving the elements above `i` down by one place and dropping the last removes the one at `i`.
  pub take-shift_down :
      (y : A) (ys : List A) (i n : ℕ)
      → i + n ≡ length ys
      → take (length ys) (shift_down blank (y ∷ ys) i n) ≡ remove_at (y ∷ ys) i
  unfolding shift_down
  take-shift_down y [] zero n h = refl
  take-shift_down y [] (suc i) n h = absurd (omega arith)
  take-shift_down y (z ∷ zs) zero zero h = absurd (omega arith)
  take-shift_down y (z ∷ zs) zero (suc n) h =
      rw (shift_down-suc z (z ∷ zs) 0 n)
        (ap (λ l. z ∷ l) (take-shift_down z zs zero n (omega arith)))
  take-shift_down y (z ∷ zs) (suc i) n h =
      rw (shift_down-suc y (z ∷ zs) i n) (ap (λ l. y ∷ l) (take-shift_down z zs i n (omega arith)))

  -- Moving the elements above `i` down by one place, with the number of rounds that the C code has,
  -- and dropping the last slot removes the element at `i`.
  pub remove-shift_down :
      (xs : List A) (i : ℕ)
      → i < length xs
      → take (length xs - 1) (shift_down blank xs i (length xs - 1 - i)) ≡ remove_at xs i
  remove-shift_down [] i h = absurd (omega arith)
  remove-shift_down (y ∷ ys) i h =
      let e : suc (length ys) - 1 ≡ length ys = omega arith in
      rw e (take-shift_down y ys i (length ys - i) (omega arith))
