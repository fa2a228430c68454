-- ===== src/Array/Laws.antt =====
-- What an array holds after writing or inserting.
use eel.Prelude.{
  ℕ, zero, suc, ◌+◌, ◌-◌, ◌≤◌, ◌<◌, ◌≡◌, refl, Bool, false, some, List, [], ◌∷◌, ◌++◌, arith, ltb,
  ◌==◌, length, get_or, set, replicate, length-set, length-append, length-replicate, if◌then◌else◌,
  Bool-cases, Option-cases, inl, inr,
}
use eel.Prelude.Int.{ℤ, pos}
use eel.Exceptions.{ok}
use eel.Resize.Bounds.{calcresize_covers}
use eel.Value.{Value, nil, integer, Effect, v_copy}
use eel.Shift.{shift_up}
use eel.Shift.Laws.{insert_at, set-shift_up}
use eel.Shift.Gap.{get_or-set, length-insert_at}
use eel.Array.{Array, setsize, index_of, set_index, insert}

get_or-replicate : (n j : ℕ) → get_or (replicate n nil) j nil ≡ nil
get_or-replicate zero j = refl
get_or-replicate (suc n) zero = refl
get_or-replicate (suc n) (suc j) = get_or-replicate n j

get_or-append :
    (xs ys : List Value) (j : ℕ)
    → get_or (xs ++ ys) j nil
      ≡ (if ltb j (length xs) then get_or xs j nil else get_or ys (j - length xs) nil)
get_or-append [] ys j = let e : j - 0 ≡ j = omega arith in ground (arith, e)
get_or-append (x ∷ xs) ys zero = ground arith
get_or-append (x ∷ xs) ys (suc j) = ground (arith, get_or-append xs ys j)

-- The elements after a write behind the end.
get_or-grown :
    (xs : List Value) (i j : ℕ) (v : Value)
    → length xs ≤ i
    → get_or (xs ++ (replicate (i - length xs) nil ++ v ∷ [])) j nil ≡ (
        if ltb j (length xs)
        then get_or xs j nil
        else (if ltb j i then nil else get_or (v ∷ []) (j - i) nil))
get_or-grown xs i j v h = ground (
  arith,
  get_or-append xs (replicate (i - length xs) nil ++ v ∷ []) j,
  get_or-append (replicate (i - length xs) nil) (v ∷ []) (j - length xs),
  get_or-replicate (i - length xs) (j - length xs),
  length-replicate (i - length xs) nil,
)

get_or-single : (v : Value) (n : ℕ) → get_or (v ∷ []) n nil ≡ (if n == 0 then v else nil)
get_or-single v zero = refl
get_or-single v (suc n) = ground arith

get_or_past : (xs : List Value) (j : ℕ) → length xs ≤ j → get_or xs j nil ≡ nil
get_or_past [] j h = refl
get_or_past (x ∷ xs) zero h = absurd (omega arith)
get_or_past (x ∷ xs) (suc j) h = get_or_past xs j (omega arith)

-- The elements fit in the block.
abbrev pub IsValid : Array → Type 0
IsValid a = length a.values ≤ a.maxlength

setsize_covers :
    (realloc : ℕ → Bool) (a : Array) (n : ℕ) {m : ℕ} → setsize realloc a n ≡ some m → n ≤ m
unfolding setsize
setsize_covers realloc a n e = ground (arith, calcresize_covers 8 a.maxlength n (omega arith))

-- Writing at an index of a valid array, within it or behind its end, leaves a valid array: at the
-- index it holds the copy of the value, elsewhere what it held, and nil where it held nothing.
pub set_index_lem :
    (realloc : ℕ → Bool) (a : Array) (i j : ℕ) (op2 : Value) {a' : Array} {log : List Effect}
    → IsValid a
    → set_index realloc a i op2 ≡ (ok a', log)
    → IsValid a'
      × (length a'.values ≡ (if ltb i (length a.values) then length a.values else i + 1))
      × (get_or a'.values j nil ≡ (if j == i then (v_copy op2).0 else get_or a.values j nil))
unfolding set_index
set_index_lem realloc a i j op2 {a'} valid e = elim (Bool-cases (ltb i (length a.values))) [
  | inl inside ↦
      let v = (v_copy op2).0 in
      let lt : i < length a.values = ground arith in
      let values : a'.values ≡ set a.values i v = ground arith in
      let room : a'.maxlength ≡ a.maxlength = ground arith in
      (
        rw values (omega (arith, length-set a.values i v)),
        rw values (ground (arith, length-set a.values i v)),
        rw values (ground (arith, get_or-set a.values i j v nil lt)),
      )
  | inr behind ↦ elim (Option-cases (setsize realloc a (i + 1))) [
    | inl failed ↦ absurd (ground arith)
    | inr (m, done) ↦
        let v = (v_copy op2).0 in
        let le : length a.values ≤ i = ground arith in
        let values : a'.values ≡ a.values ++ (replicate (i - length a.values) nil ++ v ∷ []) =
          ground arith in
        let room : a'.maxlength ≡ m = ground arith in
        let size : length (a.values ++ (replicate (i - length a.values) nil ++ v ∷ [])) ≡ i + 1 =
          omega (
            arith,
            length-append a.values (replicate (i - length a.values) nil ++ v ∷ []),
            length-append (replicate (i - length a.values) nil) (v ∷ []),
            length-replicate (i - length a.values) nil,
          ) in
        (
          rw values (omega (arith, setsize_covers realloc a (i + 1) done)),
          rw values (ground arith),
          rw values (
              ground (
                arith,
                get_or-grown a.values i j v le,
                get_or-single v (j - i),
                get_or_past a.values j,
              )),
        )
  ]
]

-- Inserting at an index up to the length, where it succeeds, leaves a valid array: the copy of the
-- value stands before the element that was at the index.
pub insert_lem :
    (floor : ℕ → ℤ) (realloc : ℕ → Bool) (a : Array) (i : ℕ) (op2 : Value) {a' : Array}
    {log : List Effect}
    → i ≤ length a.values
    → insert floor realloc a (integer (pos i)) op2 ≡ some (ok a', log)
    → IsValid a' × (a'.values ≡ insert_at a.values i (v_copy op2).0)
unfolding insert index_of
insert_lem floor realloc a i op2 {a'} le e =
    elim (Option-cases (setsize realloc a (length a.values + 1))) [
      | inl failed ↦ absurd (ground arith)
      | inr (m, done) ↦
          let v = (v_copy op2).0 in
          let inside : ltb (length a.values) i ≡ false = ground arith in
          let values : a'.values
              ≡ set (shift_up nil (a.values ++ nil ∷ []) i (length a.values)) i v =
            ground arith in
          let room : a'.maxlength ≡ m = ground arith in
          let items = set-shift_up nil a.values i v le in
          (
            rw (values, items)
                (omega (
                  arith,
                  length-insert_at a.values i v,
                  setsize_covers realloc a (length a.values + 1) done,
                )),
            rw (values, items) refl,
          )
    ]
