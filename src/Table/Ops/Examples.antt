-- ===== src/Table/Ops/Examples.antt =====
-- Tables run on concrete keys, and the theorems at them.
use eel.Prelude.{
  ℕ, ◌+◌, ◌≡◌, refl, arith, ◌==◌, Bool, true, false, none, some, List, [], ◌∷◌, length,
}
use eel.Prelude.Int.{pos}
use eel.Exceptions.{ok, xmemory}
use eel.Value.{
  Value, integer, obj_ref, own, disown, World, v2hash, to_word, v_copy, v_clone, v_disown,
}
use eel.Resize.{grow, calcresize}
use eel.Shift.{shift_up, shift_down}
use eel.Table.{Item, Table, setsize, insert_item}
use eel.Table.Find.{find, find_in, scan, locate, linear_find, key_match}
use eel.Table.Ops.{
  add_item, replace_value, setindex, getindex, delete, delete_at, insert, insert_items, construct,
  construct_pairs, clone, clone_items,
}
use eel.Value.Copy.{owns, disowns}
use eel.Table.Find.Locate.{index, first_match, find-first_match}
use eel.Table.Ops.Order.{IsValid, empty-IsValid, setindex-IsValid}
use eel.Table.Ops.Keeps.{delete-IsValid, construct-IsValid}
use eel.Table.Ops.Lookup.{
  lookup, Apart, FindsItself, read, getindex-lookup, lookup-setindex_self, lookup-setindex_other,
  lookup-delete,
}
use eel.Table.Ops.Balance.{refs, setindex_balance}

-- No object is a string or can be compared, and doubles are compared by their bits.
abbrev world : World
world = record {
  is_string = λ o. false;
  string_hash = λ o. 0;
  compare_mm = λ o v. none;
  real_eq = λ a b. a == b;
}

abbrev memory : ℕ → Bool
memory n = true

abbrev empty : Table
empty = record { items = []; asize = 0 }

abbrev one : Value
one = integer (pos 1)

abbrev two : Value
two = integer (pos 2)

abbrev hash_one : ℕ
hash_one = 966728349

abbrev hash_two : ℕ
hash_two = 966728350

abbrev item_one : Item
item_one = record { hash = hash_one; key = one; value = obj_ref 7 }

abbrev item_two : Item
item_two = record { hash = hash_two; key = two; value = integer (pos 20) }

abbrev table1 : Table
table1 = record { items = item_one ∷ []; asize = 4 }

abbrev table2 : Table
table2 = record { items = item_one ∷ (item_two ∷ []); asize = 4 }

-- Allocation that fails for every new size.
abbrev no_memory : ℕ → Bool
no_memory n = false

abbrev other_object : Table
other_object = record {
  items = record { hash = hash_one; key = one; value = obj_ref 9 } ∷ (item_two ∷ []);
  asize = 4;
}

-- The runs that the theorems are applied to.
set_one : setindex world memory empty one (obj_ref 7) ≡ (ok table1, own 7 ∷ [])
unfolding setindex add_item insert_item setsize calcresize grow shift_up v_copy find find_in locate
    linear_find v2hash to_word replace_value scan key_match v_disown
set_one = refl

set_two : setindex world memory table1 two (integer (pos 20)) ≡ (ok table2, [])
unfolding setindex add_item insert_item setsize calcresize grow shift_up v_copy find find_in locate
    linear_find v2hash to_word replace_value scan key_match v_disown
set_two = refl

replace_one : setindex world memory table2 one (integer (pos 5)) ≡ (
  ok (record table2 { items = record item_one { value = integer (pos 5) } ∷ (item_two ∷ []) }),
  disown 7 ∷ [],
)
unfolding setindex add_item insert_item setsize calcresize grow shift_up v_copy find find_in locate
    linear_find v2hash to_word replace_value scan key_match v_disown
replace_one = refl

insert-two : insert world memory table1 two (integer (pos 20)) ≡ (ok table2, [])
unfolding insert setindex add_item insert_item setsize calcresize grow shift_up v_copy find find_in
    locate linear_find v2hash to_word replace_value scan key_match v_disown
insert-two = refl

delete-one :
    delete world memory table2 (some one) none
    ≡ (ok (record { items = item_two ∷ []; asize = 4 }), disown 7 ∷ [])
unfolding delete delete_at shift_down setindex add_item insert_item setsize calcresize grow shift_up
    v_copy find find_in locate linear_find v2hash to_word replace_value scan key_match v_disown
delete-one = refl

abbrev initializers : List Value
initializers = one ∷ (obj_ref 7 ∷ (two ∷ (integer (pos 20) ∷ [])))

construct_two : (construct world memory true initializers).0 ≡ ok table2
unfolding construct construct_pairs setindex add_item insert_item setsize calcresize grow shift_up
    v_copy find find_in locate linear_find v2hash to_word replace_value scan key_match v_disown
construct_two = refl

clone_one :
    clone true memory table1 ≡ (ok (record { items = item_one ∷ []; asize = 1 }), own 7 ∷ [])
unfolding clone clone_items v_clone
clone_one = refl

add_fails :
    (insert_items world no_memory
      (record { items = item_one ∷ []; asize = 1 })
      other_object.items).0
    ≡ some xmemory
unfolding insert_items setindex add_item insert_item setsize calcresize grow shift_up v_copy find
    find_in locate linear_find v2hash to_word replace_value scan key_match v_disown
add_fails = refl

table1-IsValid : IsValid world table1
table1-IsValid = setindex-IsValid world memory empty one (obj_ref 7) (empty-IsValid world 0) set_one

table2-IsValid : IsValid world table2
table2-IsValid = setindex-IsValid world memory table1 two (integer (pos 20)) table1-IsValid set_two

finds_two : FindsItself world two
unfolding key_match v_copy
finds_two = refl

hashes : (v2hash world one ≡ hash_one) × (v2hash world two ≡ hash_two)
unfolding v2hash to_word
hashes = (refl, refl)

two-Apart : Apart world two one
two-Apart ti e = let (a, b) = hashes in ground arith

one-Apart : Apart world one two
one-Apart ti e = let (a, b) = hashes in ground arith

getindex-lookup_example :
    (getindex world memory table2 two).0 ≡ read (lookup world two table2.items)
getindex-lookup_example = getindex-lookup world memory table2 two table2-IsValid

lookup-setindex_self_example : lookup world two table2.items ≡ some (v_copy (integer (pos 20))).0
lookup-setindex_self_example =
    lookup-setindex_self world memory table1 two (integer (pos 20)) table1-IsValid finds_two set_two

lookup-setindex_other_example : lookup world one table2.items ≡ lookup world one table1.items
lookup-setindex_other_example =
    lookup-setindex_other world memory table1 two (integer (pos 20)) one table1-IsValid finds_two
      two-Apart set_two

lookup-delete_example : lookup world two (item_two ∷ []) ≡ lookup world two table2.items
lookup-delete_example =
    lookup-delete world memory table2 one two table2-IsValid (λ k. refl) one-Apart delete-one

find-first_match_example :
    index (find world table2.items two hash_two) ≡ first_match world two hash_two table2.items 0
find-first_match_example = find-first_match world table2.items two hash_two table2-IsValid.sorted

setindex-IsValid_example :
    IsValid world
      (record table2 { items = record item_one { value = integer (pos 5) } ∷ (item_two ∷ []) })
setindex-IsValid_example =
    setindex-IsValid world memory table2 one (integer (pos 5)) table2-IsValid replace_one

delete-IsValid_example :
    IsValid world (record { items = item_two ∷ []; asize = 4 })
    × (length (item_two ∷ []) + 1 ≡ length table2.items)
delete-IsValid_example =
    delete-IsValid world memory table2 one table2-IsValid (λ k. refl) delete-one

construct-IsValid_example : IsValid world table2
construct-IsValid_example = construct-IsValid world memory true initializers construct_two

setindex_balance_example :
    refs 7 table2.items + owns 7 (disown 7 ∷ [])
    ≡ refs 7 (record item_one { value = integer (pos 5) } ∷ (item_two ∷ []))
      + disowns 7 (disown 7 ∷ [])
setindex_balance_example =
    setindex_balance 7 world memory table2 one (integer (pos 5)) table2-IsValid replace_one
