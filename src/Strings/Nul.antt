-- ===== src/Strings/Nul.antt =====
-- Strings with a byte 0, which `strncmp` does not look behind.
use eel.Prelude.{
  ℕ, zero, suc, ◌≡◌, refl, ap, true, none, some, List, [], ◌∷◌, ◌++◌, length, length-append, take,
  arith,
}
use eel.Strings.{Pool, hashmem, strncmp_eq, ps_find, ps_push, made, nnew}
use eel.Strings.Making.{entry, nnew_added, ps_push-confuses}

take-append : (n : ℕ) (xs ys : List ℕ) → length xs ≡ n → take n (xs ++ ys) ≡ xs
take-append zero [] ys e = refl
take-append zero (x ∷ xs) ys e = absurd (omega (arith, e))
take-append (suc n) [] ys e = absurd (omega (arith, e))
take-append (suc n) (x ∷ xs) ys e = ap (λ l. x ∷ l) (take-append n xs ys (omega (arith, e)))

hashmem-nul :
    (pre x y : List ℕ) → length pre ≡ 31 → hashmem (0 ∷ (pre ++ x)) ≡ hashmem (0 ∷ (pre ++ y))
unfolding hashmem
hashmem-nul pre x y e = rw (take-append 31 pre x e, take-append 31 pre y e) refl

-- The pool confuses strings: where a string begins with a byte 0, and is added to the pool, any string
-- of the same length that has the same first 32 bytes is then taken for it, whatever follows.
pub nnew-nul :
    (pool : Pool) (pre x y : List ℕ) (o : ℕ)
    → length pre ≡ 31
    → length x ≡ length y
    → ps_find pool (0 ∷ (pre ++ x)) ≡ none
    → (after : Pool) × (nnew pool (0 ∷ (pre ++ x)) (some o) true ≡ made (some o) after)
      × (ps_find after (0 ∷ (pre ++ y)) ≡ some (entry o (0 ∷ (pre ++ x))))
unfolding strncmp_eq
nnew-nul pool pre x y o e l h =
    let long : length (pre ++ x) ≡ length (pre ++ y) =
      omega (arith, l, length-append pre x, length-append pre y) in
    (
      ps_push pool (entry o (0 ∷ (pre ++ x))),
      nnew_added pool (0 ∷ (pre ++ x)) o h,
      ps_push-confuses pool o (0 ∷ (pre ++ x)) (0 ∷ (pre ++ y)) (hashmem-nul pre x y e)
          (ap suc long) refl,
    )
