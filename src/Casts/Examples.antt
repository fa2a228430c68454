-- ===== src/Casts/Examples.antt =====
-- A matrix that is made and extended, casts for two classes, and a list that is cast to a list.
use eel.Prelude.{
  ℕ, ◌+◌, ◌≡◌, refl, Bool, true, some, List, [], ◌∷◌, ◌++◌, arith, ◌==◌, ltb, if◌then◌else◌, length,
}
use eel.Exceptions.{ok, exception, xwrongindex}
use eel.Casts.{
  cast_not_implemented, generic_indexable_cast, cast_cb, Casters, entry, indexable, class,
  realloc_cast_matrix, set_casts, is_not_implemented,
}
use eel.Casts.Matrix.{Extends, realloc_cast_matrix-Extends}
use eel.Casts.Register.{registered, entry-set_casts}
use eel.Casts.Order.{set_casts-set_casts}
use eel.Casts.Generic.{Target, Origin, IsGrowing, indexable_cast, each_disowned, indexable_cast_lem}

-- Two classes, of which class 1 casts to class 0.
abbrev small : Casters
small = record {
  casters = some (λ i. if i == 2 then cast_cb 5 else cast_not_implemented);
  castersdim = 2;
}

realloc_cast_matrix-Extends_example :
    (t : Casters) × (realloc_cast_matrix (some (λ i. cast_cb 9)) small 5 ≡ some t)
    × Extends small 5 t
realloc_cast_matrix-Extends_example =
    realloc_cast_matrix-Extends (λ i. cast_cb 9) small 5 (λ e. absurd (ground (arith, e)))

-- Both classes can be indexed.
abbrev every : ℕ → Bool
every c = true

entry-set_casts_example :
    entry (set_casts every every indexable indexable generic_indexable_cast small) 1 0
    ≡ registered every every indexable indexable generic_indexable_cast 1 0 (entry small 1 0)
entry-set_casts_example =
    entry-set_casts every every small indexable indexable generic_indexable_cast 1 0
      (λ e. absurd (ground (arith, e))) tt tt (omega arith) (omega arith)

set_casts-set_casts_example :
    entry
      (set_casts every every indexable indexable generic_indexable_cast
        (set_casts every every (class 0) (class 1) (cast_cb 7) small))
      0
      1
    ≡ entry
        (set_casts every every
          (class 0)
          (class 1)
          (cast_cb 7)
          (set_casts every every indexable indexable generic_indexable_cast small))
        0
        1
unfolding is_not_implemented
set_casts-set_casts_example =
    set_casts-set_casts every every small.casters 2 indexable indexable 0 1 generic_indexable_cast
      (cast_cb 7) 0 1 (λ e. absurd (ground (arith, e))) tt tt tt (omega arith) (omega arith) refl
      (omega arith) (omega arith)

-- The object with the items 4 and 5, and lists as targets.
abbrev pair : Origin ℕ
pair = record {
  length_of = ok 2;
  getindex = λ i. if ltb i 2 then ok (i + 4) else exception xwrongindex;
}

abbrev lists : Target (List ℕ) ℕ
lists = record {
  construct = ok [];
  setindex = λ s i v. if i == length s then ok (s ++ v ∷ []) else exception xwrongindex;
}

lists-IsGrowing : IsGrowing lists
lists-IsGrowing = record {
  contents = λ s. s;
  start = [];
  construct_ok = refl;
  start_empty = refl;
  add = λ s v. s ++ v ∷ [];
  setindex_ok = λ s v. ground arith;
  contents-add = λ s v. refl;
}

indexable_cast_lem_example :
    (s : List ℕ) × (indexable_cast pair lists ≡ (ok s, each_disowned (4 ∷ (5 ∷ []))))
    × (lists-IsGrowing.contents s ≡ 4 ∷ (5 ∷ []))
indexable_cast_lem_example =
    indexable_cast_lem pair lists lists-IsGrowing (4 ∷ (5 ∷ [])) refl (refl, (refl, tt))
