-- ===== src/Array/Delete/Range.antt =====
-- The values of an array before and after `a_delete`.
use eel.Prelude.{
  ℕ, zero, suc, ◌+◌, ◌-◌, ◌≤◌, ◌<◌, ◌≡◌, refl, sym, ap, ◌∙◌, Bool, some, List, [], ◌∷◌, ◌++◌, ltb,
  ◌⊎◌, ◌^◌, if◌then◌else◌, length, get_or, set, take, drop, length-set, arith, Bool-cases, inl, inr,
}
use mathlib.Core.List.{append-nil, append_assoc}
use native.Mathlib.Nat.{suc-add}
use eel.Prelude.Int.{ℤ, pos, negsuc, ◌+ℤ◌, ◌-ℤ◌, pos_part}
use eel.Operate.Words.{of_word, add, sub}
use eel.Exceptions.{Result, ok, exception, xhighindex, xwrongindex}
use eel.Value.{to_word, Value, nil, integer, Effect, v_disown}
use eel.Array.{Array, index_of}
use eel.Array.Delete.{
  check_range, range_end, get_delete_range, delete_range, disown_range, move_down, Deletion,
  refused, deleted, overruns, delete_values, delete,
}

-- The calls that disown values in turn.
abbrev pub disown_list : List Value → List Effect
disown_list [] = []
disown_list (v ∷ rest) = v_disown v ++ disown_list rest

drop-get_or : (i : ℕ) (l : List Value) → i < length l → drop i l ≡ get_or l i nil ∷ drop (i + 1) l
drop-get_or zero [] h = absurd (omega arith)
drop-get_or (suc i) [] h = absurd (omega arith)
drop-get_or zero (v ∷ l) h = refl
drop-get_or (suc i) (v ∷ l) h = rw suc-add (drop-get_or i l (omega arith))

drop-set : (i j : ℕ) (l : List Value) (v : Value) → i < j → drop j (set l i v) ≡ drop j l
drop-set i j [] v h = refl
drop-set i zero (x ∷ l) v h = absurd (omega arith)
drop-set zero (suc j) (x ∷ l) v h = refl
drop-set (suc i) (suc j) (x ∷ l) v h = drop-set i j l v (omega arith)

take-set :
    (i : ℕ) (l : List Value) (v : Value)
    → i < length l
    → take (i + 1) (set l i v) ≡ take i l ++ (v ∷ [])
take-set zero [] v h = absurd (omega arith)
take-set (suc i) [] v h = absurd (omega arith)
take-set zero (x ∷ l) v h = refl
take-set (suc i) (x ∷ l) v h = rw suc-add (ap (λ t. x ∷ t) (take-set i l v (omega arith)))

drop-length : (l : List Value) (n : ℕ) → length l ≤ n → drop n l ≡ []
drop-length [] zero h = refl
drop-length [] (suc n) h = refl
drop-length (x ∷ l) zero h = absurd (omega arith)
drop-length (x ∷ l) (suc n) h = drop-length l n (omega arith)

-- The moved values close up with those before them.
move_down_lem :
    (n to from : ℕ) (l : List Value)
    → to < from
    → from + n ≡ length l
    → take (to + n) (move_down n to from l) ≡ take to l ++ drop from l
unfolding move_down
move_down_lem zero to from l lt e =
    let z : to + 0 ≡ to = omega arith in
    rw (z, drop-length l from (omega arith)) (sym (append-nil (take to l)))
move_down_lem (suc n) to from l lt e =
    let x = get_or l from nil in
    let l' = set l to x in
    let ih =
      move_down_lem n (to + 1) (from + 1) l' (omega arith) (omega (arith, length-set l to x)) in
    let s : to + 1 + n ≡ to + suc n = omega arith in
    let before = take-set to l x (omega arith) in
    let after = drop-set to (from + 1) l x (omega arith) in
    let first = drop-get_or from l (omega arith) in
    rw (← s) (
      ih
      ∙ (rw (before, after) (append_assoc (take to l) (x ∷ []) (drop (from + 1) l))
          ∙ ap (λ t. take to l ++ t) (sym first)))

disown_range_lem :
    (n i : ℕ) (l : List Value)
    → i + n ≤ length l
    → disown_range n i l ≡ disown_list (take n (drop i l))
unfolding disown_range
disown_range_lem zero i l h = refl
disown_range_lem (suc n) i l h =
    rw (drop-get_or i l (omega arith))
      (ap (λ t. v_disown (get_or l i nil) ++ t) (disown_range_lem n (i + 1) l (omega arith)))

-- What a deletion of the `n` values from `i` on comes to: the other values in their order, and the
-- deleted ones disowned, each once and in order; or a refusal; or a loop that goes one place
-- behind the last value.
abbrev pub Deletes : Array → ℕ → ℕ → Deletion → Type 0
Deletes a i n (deleted a' log) =
    (i + n ≤ length a.values)
    × (a'.values ≡ take i a.values ++ drop (i + n) a.values)
    × (log ≡ disown_list (take n (drop i a.values)))
Deletes a i n (refused x) =
    ((length a.values + 1 < i + n) × (i + n ≤ 2 ^ 31) × (x ≡ xhighindex))
    ⊎ ((2 ^ 31 < i + n) × (x ≡ xwrongindex))
Deletes a i n overruns = i + n ≡ length a.values + 1

pub delete_values-Deletes :
    (realloc : ℕ → Bool) (a : Array) (i n : ℕ)
    → 0 < n
    → i + n ≤ length a.values + 1
    → Deletes a i n (delete_values realloc a i n)
unfolding delete_values
delete_values-Deletes realloc a i n some_values le =
    elim (Bool-cases (ltb (length a.values) (i + n))) [
      | inl out ↦ simp (delete_values, out) (ground (arith, out))
      | inr inside ↦
          let fits : i + n ≤ length a.values = ground (arith, inside) in
          let count : i + (length a.values - (i + n)) ≡ length a.values - n = omega arith in
          simp (delete_values, inside)
            (
              fits,
              ap (λ k. take k (move_down (length a.values - (i + n)) i (i + n) a.values))
                    (sym count)
                  ∙ move_down_lem (length a.values - (i + n)) i (i + n) a.values (omega arith)
                      (omega arith),
              disown_range_lem n i a.values fits,
            )
    ]

-- The last index as an `int`.
abbrev pub end_of : ℕ → ℕ → ℤ
end_of i n = if ltb (i + n) (2 ^ 31) then pos (i + n) else negsuc (2 ^ 32 - 1 - (i + n))

range_end_lem :
    (i n : ℕ) → i < 2 ^ 31 → suc n < 2 ^ 31 → sub (add (pos i) (pos (suc n))) (pos 1) ≡ end_of i n
unfolding add sub to_word of_word
range_end_lem i n hi hn = ground (arith, hi, hn)

range_count : (i n : ℕ) → pos_part (pos (i + n) +ℤ pos 1 -ℤ pos i) ≡ suc n
unfolding ◌+ℤ◌ ◌-ℤ◌
range_count i n = ground arith

-- What the checks answer for a range that starts at an index which is not negative.
abbrev pub checked : ℕ → ℕ → ℕ → Result (ℤ × ℤ)
checked i n len =
    if ltb (i + n) (2 ^ 31)
    then (if ltb len (i + n) then exception xhighindex else ok (pos i, pos (i + n)))
    else exception xwrongindex

check_range_lem :
    (i n len : ℕ)
    → i < 2 ^ 31
    → suc n < 2 ^ 31
    → check_range (pos i) (end_of i n) len ≡ checked i n len
unfolding check_range
check_range_lem i n len hi hn = ground (arith, hi, hn)

module _ (objref : Value → ℕ) (floor : ℕ → ℤ) (real_end : ℤ → ℕ → ℤ) (a : Array) (i n : ℕ) where
  delete_range_lem :
      i < 2 ^ 31
      → suc n < 2 ^ 31
      → delete_range objref floor real_end a (some (integer (pos i))) (some (integer (pos (suc n))))
        ≡ checked i n (length a.values)
  unfolding delete_range get_delete_range index_of range_end
  delete_range_lem hi hn =
      ap (λ e. check_range (pos i) e (length a.values)) (range_end_lem i n hi hn)
      ∙ check_range_lem i n (length a.values) hi hn

-- `delete(a, i, n)` with an `int` index that is not negative and a count of at least one removes
-- exactly the values from the index on, and disowns each of them once; or it refuses the range: as
-- too high where it goes two or more places behind the last value, as wrong where its last index
-- wraps around to a negative `int`. A range that goes just one place behind the last value is not
-- refused, and the loop disowns what stands there.
pub delete-Deletes :
    (objref : Value → ℕ) (floor : ℕ → ℤ) (real_end : ℤ → ℕ → ℤ) (realloc : ℕ → Bool) (a : Array)
    (i n : ℕ)
    → i < 2 ^ 31
    → suc n < 2 ^ 31
    → Deletes a i (suc n) (
        delete objref floor real_end realloc a
          (some (integer (pos i)))
          (some (integer (pos (suc n)))))
unfolding delete
delete-Deletes objref floor real_end realloc a i n hi hn =
    elim (Bool-cases (ltb (i + n) (2 ^ 31))) [
      | inr wraps ↦
          rw (delete, delete_range_lem objref floor real_end a i n hi hn, wraps)
            (inr (ground (arith, wraps), refl))
      | inl inside ↦ elim (Bool-cases (ltb (length a.values) (i + n))) [
        | inl high ↦
            rw (delete, delete_range_lem objref floor real_end a i n hi hn, inside, high)
              (inl (ground (arith, high), ground (arith, inside), refl))
        | inr low ↦
            rw
              (
                delete,
                delete_range_lem objref floor real_end a i n hi hn,
                inside,
                low,
                range_count i n,
              )
              (delete_values-Deletes realloc a i (suc n) (omega arith) (ground (arith, low)))
      ]
    ]
