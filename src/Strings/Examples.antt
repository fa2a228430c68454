-- ===== src/Strings/Examples.antt =====
-- The theorems on strings, on small pools.
use eel.Prelude.Int.{pos, negsuc}
use eel.Strings.Methods.{Text, compare_text, same_instance, same_kind, compare_text_lem}
use eel.Prelude.{ℕ, ◌≡◌, ◌↔◌, refl, inl, true, false, none, some, List, [], ◌∷◌, arith, ◌==◌}
use eel.Strings.{Pool, ps_open, ps_find, ps_push, s_str_in, hashmem, bucket_of, scan}
use eel.Strings.Find.{NoNul, In}
use eel.Strings.Making.{entry, nnew_added}
use eel.Strings.Intern.{Reaches, opened, next, by_nnew, ps_find_unique}
use eel.Strings.Search.{Answers, s_str_in-Answers}

-- "ab"
abbrev ab : List ℕ
ab = 97 ∷ 98 ∷ []

ab-NoNul : NoNul ab
ab-NoNul = (λ e. omega (arith, e), ((λ e. omega (arith, e)), tt))

-- The pool with "ab" as object 8.
abbrev pool : Pool
pool = ps_push ps_open (entry 8 ab)

absent : ps_find ps_open ab ≡ none
unfolding ps_find scan
absent = refl

pool-Reaches : Reaches pool
pool-Reaches =
    next opened (by_nnew ab (some 8) true (some 8) ab-NoNul (nnew_added ps_open ab 8 absent))

abbrev home : ℕ
home = bucket_of (hashmem ab)

entry-In : In (entry 8 ab) (pool.strings home)
unfolding ps_push
entry-In = let here : (home == bucket_of (hashmem ab)) ≡ true = ground arith in rw here (inl refl)

ps_find_unique_example :
    (ps_find pool ab ≡ some (entry 8 ab))
    × (ab ≡ ab → entry 8 ab ≡ entry 8 ab)
    × ((s : List ℕ) → ps_find pool s ≡ some (entry 8 ab) → ab ≡ s)
ps_find_unique_example =
    ps_find_unique home home (entry 8 ab) (entry 8 ab) pool-Reaches entry-In entry-In

abbrev full : Pool
full = record ps_open { scache = 1 ∷ 2 ∷ []; scache_size = 2; scache_max = 1 }

s_str_in-Answers_example : Answers (99 ∷ 97 ∷ 98 ∷ []) ab (s_str_in (99 ∷ 97 ∷ 98 ∷ []) ab)
s_str_in-Answers_example = s_str_in-Answers (99 ∷ 97 ∷ 98 ∷ []) ab

abbrev word_text : Text
word_text = record { dynamic = false; address = 3; bytes = 65 ∷ (66 ∷ []) }

abbrev other_text : Text
other_text = record { dynamic = true; address = 4; bytes = 65 ∷ (67 ∷ []) }

compare_text_lem_example :
    ((compare_text word_text other_text ≡ pos 0) ↔ (word_text.bytes ≡ other_text.bytes))
    × ((compare_text word_text other_text ≡ pos 1) ↔ (compare_text other_text word_text ≡ negsuc 0))
unfolding same_instance same_kind
compare_text_lem_example = compare_text_lem word_text other_text (ground arith)
