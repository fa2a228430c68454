-- ===== src/Array.antt =====
-- The array class, src/core/e_array.c: reading, writing and inserting by index, construction, cloning
-- and adding an element. `a->values[0 .. a->length)` is the list `values`; an operation returns its
-- result, an exception included, and the log of the calls on the object layer that it made. Delete
-- has the deletion of a range. The back pointers of weak references are not modelled.
pub mod Laws
pub mod Delete
mod Examples
use eel.Prelude.{
  ℕ, ◌+◌, ◌-◌, Bool, ◌&&◌, Option, none, some, List, [], ◌∷◌, ◌++◌, ◌==◌, ltb, if◌then◌else◌,
  length, get_or, set, replicate,
}
use eel.Prelude.Int.{ℤ, pos, negsuc}
use eel.Exceptions.{Result, ok, exception, xmemory, xwrongtype, xlowindex, xhighindex}
use eel.Resize.{calcresize}
use eel.Shift.{shift_up}
use eel.Value.{Value, nil, real, integer, boolean, class_id, Effect, v_copy, v_clone, v_disown}

pub record Array : Type 0 where
  pub values : List Value
  pub maxlength : ℕ

abbrev pub array_sizebase : ℕ
array_sizebase = 8

-- `a_setsize`: the new `maxlength`, or `none` for the -1 of a failed reallocation.
unfoldable pub setsize : (ℕ → Bool) → Array → ℕ → Option ℕ
setsize realloc a newsize =
    let n = calcresize array_sizebase a.maxlength newsize in
    if n == a.maxlength
    then some n
    else (if realloc n then some n else (if newsize == 0 then some 0 else none))

-- The cast of an index to an `int`, where `floor` is that of the C library.
unfoldable pub index_of : (ℕ → ℤ) → Value → Option ℤ
index_of floor (boolean n) = some n
index_of floor (integer n) = some n
index_of floor (class_id n) = some n
index_of floor (real pad bits) = some (floor bits)
index_of floor v = none

-- The copies, or clones, of values in turn, with the calls that they made.
unfoldable pub copy_all : (Value → Value × List Effect) → List Value → List Value × List Effect
copy_all copy [] = ([], [])
copy_all copy (v ∷ rest) =
    let (v', log) = copy v in let (rest', log') = copy_all copy rest in (v' ∷ rest', log ++ log')

-- `a_construct`, where `alloc` and `malloc` say whether there is memory for the object and the block.
unfoldable pub construct : Bool → (ℕ → Bool) → List Value → Result Array × List Effect
unfolding copy_all v_copy
construct alloc malloc initv =
    let size = (if length initv == 0 then array_sizebase else length initv) in
    if alloc && malloc size
    then (let (values, log) = copy_all v_copy initv in
        (ok (record { values = values; maxlength = size }), log))
    else (exception xmemory, [])

-- `a__clone`
unfoldable pub clone : Bool → (ℕ → Bool) → Array → Result Array × List Effect
unfolding copy_all v_clone
clone alloc malloc a =
    if alloc && malloc (length a.values)
    then (let (values, log) = copy_all v_clone a.values in
        (ok (record { values = values; maxlength = length a.values }), log))
    else (exception xmemory, [])

-- `a_getindex`
unfoldable pub getindex : (ℕ → ℤ) → Array → Value → Result Value × List Effect
unfolding index_of v_copy
getindex floor a op1 = elim (index_of floor op1) [
  | none ↦ (exception xwrongtype, [])
  | some (negsuc n) ↦ (exception xlowindex, [])
  | some (pos i) ↦
      if ltb i (length a.values)
      then (let (v, log) = v_copy (get_or a.values i nil) in (ok v, log))
      else (exception xhighindex, [])
]

-- `a_set_index`: behind the end the array grows, and what is skipped is nil; an element that is
-- there is disowned first.
unfoldable pub set_index : (ℕ → Bool) → Array → ℕ → Value → Result Array × List Effect
unfolding setsize v_copy v_disown
set_index realloc a i op2 =
    let (v, log) = v_copy op2 in
    if ltb i (length a.values)
    then (ok (record a { values = set a.values i v }), v_disown (get_or a.values i nil) ++ log)
    else (elim (setsize realloc a (i + 1)) [
      | none ↦ (exception xmemory, [])
      | some m ↦ (
        ok (record {
          values = a.values ++ (replicate (i - length a.values) nil ++ v ∷ []);
          maxlength = m;
        }),
        log,
      )
    ])

-- `a_setindex`
unfoldable pub setindex : (ℕ → ℤ) → (ℕ → Bool) → Array → Value → Value → Result Array × List Effect
unfolding index_of set_index
setindex floor realloc a op1 op2 = elim (index_of floor op1) [
  | none ↦ (exception xwrongtype, [])
  | some (negsuc n) ↦ (exception xlowindex, [])
  | some (pos i) ↦ set_index realloc a i op2
]

-- `a_insert`. The code does not ask whether the index is at most the length: past that it writes
-- behind the elements, and perhaps behind the block, for which there is no result here.
unfoldable pub insert :
    (ℕ → ℤ) → (ℕ → Bool) → Array → Value → Value → Option (Result Array × List Effect)
unfolding index_of setsize v_copy shift_up
insert floor realloc a op1 op2 = elim (index_of floor op1) [
  | none ↦ some (exception xwrongtype, [])
  | some (negsuc n) ↦ some (exception xlowindex, [])
  | some (pos i) ↦ elim (setsize realloc a (length a.values + 1)) [
    | none ↦ some (exception xmemory, [])
    | some m ↦
        let (v, log) = v_copy op2 in
        if ltb (length a.values) i
        then none
        else some (
          ok (record {
            values = set (shift_up nil (a.values ++ nil ∷ []) i (length a.values)) i v;
            maxlength = m;
          }),
          log,
        )
  ]
]

-- `a_ipadd`: an element more at the end.
unfoldable pub ipadd : (ℕ → Bool) → Array → Value → Result Array × List Effect
unfolding set_index
ipadd realloc a op1 = set_index realloc a (length a.values) op1

-- `a_add`: the same on a clone. On an exception the clone is freed, and its elements are not
-- disowned.
unfoldable pub add : Bool → (ℕ → Bool) → (ℕ → Bool) → Array → Value → Result Array × List Effect
unfolding clone set_index
add alloc malloc realloc a op1 =
    let (r, log) = clone alloc malloc a in
    elim r [
      | exception x ↦ (exception xmemory, log)
      | ok copy ↦
          let (r', log') = set_index realloc copy (length copy.values) op1 in (r', log ++ log')
    ]
