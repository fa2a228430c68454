-- ===== src/Table/Find.antt =====
-- Looking for a key: `t__binary_find` and `t__find` of src/core/e_table.c.
pub mod Search
pub mod Sorted
pub mod Locate
pub mod Keys
use eel.Prelude.{
  ℕ, zero, suc, ◌+◌, ◌-◌, ◌/◌, Bool, true, false, ◌&&◌, Option, none, some, List, [], ◌∷◌, ◌==◌,
  ltb, if◌then◌else◌, length, get_or, drop,
}
use eel.Prelude.Int.{ℤ, pos, negsuc, pos_part, neg_part}
use eel.Value.{Value, nil, real, integer, boolean, class_id, obj_ref, weak_ref, World, referent}
use eel.Table.{Item, Table, blank}

-- The `int` that the C functions return: an index, or the complement of the place to insert at.
pub data Found : Type 0 where
  hit miss : ℕ → Found

abbrev pub hash_of : List Item → ℕ → ℕ
hash_of items i = let ti = get_or items i blank in ti.hash

abbrev pub key_of : List Item → ℕ → Value
key_of items i = let ti = get_or items i blank in ti.key

-- `t__binary_find` on items[low .. high), where the C code keeps the last index, `high - 1`. The
-- fuel bounds the rounds; `Search` shows that the size is enough.
unfoldable pub binary_loop : List Item → ℕ → ℕ → ℕ → ℕ → Found
binary_loop items h zero low high = miss ((low + high) / 2)
binary_loop items h (suc fuel) low high =
    let mid = (low + high) / 2 in
    let lower = binary_loop items h fuel low mid in
    let upper = binary_loop items h fuel (mid + 1) high in
    if ltb low high
    then (if ltb h (hash_of items mid)
        then lower
        else (if ltb (hash_of items mid) h then upper else hit mid))
    else miss ((low + high) / 2)

unfoldable pub binary_find : List Item → ℕ → Found
unfolding binary_loop
binary_find items h = binary_loop items h (length items) 0 (length items)

-- The loop of `t__find` for tables of less than ten items, on the items from `first` on.
unfoldable pub linear_find : List Item → ℕ → ℕ → Found
linear_find [] h first = miss first
linear_find (ti ∷ rest) h first =
    let next = linear_find rest h (first + 1) in
    if ltb ti.hash h then next else (if ltb h ti.hash then miss first else hit first)

-- while((first > 0) && (ti[first - 1].hash == h)) --first;
unfoldable pub back_up : List Item → ℕ → ℕ → ℕ
back_up items h zero = zero
back_up items h (suc first) =
    let rest = back_up items h first in if hash_of items first == h then rest else suc first

-- The first item with the hash code, or where one would go.
unfoldable pub locate : List Item → ℕ → Found
unfolding binary_find linear_find back_up
locate items h =
    if ltb (length items) 10 then linear_find items h 0 else (elim (binary_find items h) [
      | hit first ↦ hit (back_up items h first)
      | miss at ↦ miss at
    ])

abbrev int_eq : ℤ → ℤ → Bool
int_eq a b = (pos_part a == pos_part b) && (neg_part a == neg_part b)

-- Whether a stored key is the object `o`.
abbrev refers : Value → ℕ → Bool
refers stored o = elim (referent stored) [ none ↦ false | some p ↦ p == o ]

-- Whether a stored key is the same object, or one that its COMPARE metamethod calls equal to `key`.
unfoldable pub compares : World → Value → Value → ℕ → Bool
compares w stored key o = elim (referent stored) [
  | none ↦ false
  | some p ↦
      if p == o
      then true
      else (elim (w.compare_mm p key) [ none ↦ false | some v ↦ int_eq v (pos 0) ])
]

-- The comparison of a stored key with the key that is looked for: strings by their address, as
-- they are pooled, and the cases of the generic scan.
unfoldable pub key_match : World → Value → Value → Bool
unfolding compares referent
key_match w nil nil = true
key_match w (real pad a) (real pad' b) = w.real_eq a b
key_match w (integer a) (integer b) = int_eq a b
key_match w (boolean a) (boolean b) = int_eq a b
key_match w (class_id a) (class_id b) = int_eq a b
key_match w stored (obj_ref o) =
    if w.is_string o then refers stored o else compares w stored (obj_ref o) o
key_match w stored (weak_ref wired o) =
    if w.is_string o then refers stored o else compares w stored (weak_ref wired o) o
key_match w stored key = false

-- for(i = first; (i < t->length) && (ti[i].hash == h); ++i): the items from `i` on.
unfoldable pub scan : World → Value → ℕ → List Item → ℕ → Option ℕ
scan w key h [] i = none
scan w key h (ti ∷ rest) i =
    let next = scan w key h rest (i + 1) in
    if ti.hash == h then (if key_match w ti.key key then some i else next) else none

-- What `t__find` does with the answer of the search for the hash code.
unfoldable pub find_in : World → List Item → Value → ℕ → Found → Found
unfolding scan
find_in w items key h (miss at) = miss at
find_in w items key h (hit first) = elim (scan w key h (drop first items) first) [
  | some i ↦ hit i
  | none ↦ miss first
]

-- `t__find`
unfoldable pub find : World → List Item → Value → ℕ → Found
unfolding locate find_in
find w items key h = find_in w items key h (locate items h)
