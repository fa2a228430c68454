-- ===== src/Objects/Refs.antt =====
-- The entries of a vector of back pointers after adding and removing one.
use eel.Prelude.{
  ℕ, zero, suc, ◌-◌, ◌<◌, ◌≡◌, refl, ◌∙◌, Bool, true, false, none, some, List, [], ◌∷◌, ◌++◌, ltb,
  arith, ◌==◌, if◌then◌else◌, length, get_elem?, get_or, set, take, length-set, length-take,
}
use eel.Objects.{remove_ref}

pub get_elem?-length : (xs : List ℕ) (i : ℕ) {x : ℕ} → get_elem? xs i ≡ some x → i < length xs
get_elem?-length [] i h = absurd (ground (arith, h))
get_elem?-length (y ∷ xs) zero h = omega arith
get_elem?-length (y ∷ xs) (suc i) h = omega (arith, get_elem?-length xs i h)

pub get_elem?-get_or : (xs : List ℕ) (i : ℕ) → i < length xs → get_elem? xs i ≡ some (get_or xs i 0)
get_elem?-get_or [] i h = absurd (omega (arith, h))
get_elem?-get_or (x ∷ xs) zero h = refl
get_elem?-get_or (x ∷ xs) (suc i) h = get_elem?-get_or xs i (omega (arith, h))

pub get_elem?-append :
    (xs : List ℕ) (v i : ℕ)
    → get_elem? (xs ++ v ∷ []) i ≡ (if i == length xs then some v else get_elem? xs i)
get_elem?-append [] v zero = refl
get_elem?-append [] v (suc i) = ground arith
get_elem?-append (x ∷ xs) v zero = ground arith
get_elem?-append (x ∷ xs) v (suc i) = get_elem?-append xs v i ∙ ground arith

pub get_elem?-set :
    (xs : List ℕ) (i v j : ℕ)
    → i < length xs
    → get_elem? (set xs i v) j ≡ (if j == i then some v else get_elem? xs j)
get_elem?-set [] i v j h = absurd (omega (arith, h))
get_elem?-set (x ∷ xs) zero v zero h = refl
get_elem?-set (x ∷ xs) zero v (suc j) h = ground arith
get_elem?-set (x ∷ xs) (suc i) v zero h = ground arith
get_elem?-set (x ∷ xs) (suc i) v (suc j) h =
    get_elem?-set xs i v j (omega (arith, h)) ∙ ground arith

get_elem?-take :
    (n : ℕ) (xs : List ℕ) (j : ℕ)
    → get_elem? (take n xs) j ≡ (if ltb j n then get_elem? xs j else none)
get_elem?-take zero xs j = ground arith
get_elem?-take (suc n) [] j = ground arith
get_elem?-take (suc n) (x ∷ xs) zero = ground arith
get_elem?-take (suc n) (x ∷ xs) (suc j) = get_elem?-take n xs j ∙ ground arith

pub get_elem?-remove_ref :
    (refs : List ℕ) (i j : ℕ)
    → i < length refs
    → get_elem? (remove_ref refs i) j ≡ (
        if ltb j (length refs - 1)
        then (if j == i then some (get_or refs (length refs - 1) 0) else get_elem? refs j)
        else none)
unfolding remove_ref
get_elem?-remove_ref refs i j h = ground (
  arith,
  get_elem?-take (length refs - 1) (set refs i (get_or refs (length refs - 1) 0)) j,
  get_elem?-set refs i (get_or refs (length refs - 1) 0) j h,
)

pub length-remove_ref : (refs : List ℕ) (i : ℕ) → length (remove_ref refs i) ≡ length refs - 1
unfolding remove_ref
length-remove_ref refs i = ground (
  arith,
  length-take (length refs - 1) (set refs i (get_or refs (length refs - 1) 0)),
  length-take (length refs - 1) refs,
  length-set refs i (get_or refs (length refs - 1) 0),
)

pub get_elem?_of_if :
    (b : Bool) (xs ys : List ℕ) (i : ℕ)
    → get_elem? (if b then xs else ys) i ≡ (if b then get_elem? xs i else get_elem? ys i)
get_elem?_of_if true xs ys i = refl
get_elem?_of_if false xs ys i = refl
