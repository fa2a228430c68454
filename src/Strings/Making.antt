-- ===== src/Strings/Making.antt =====
-- The ways through `eel_ps_nnew`, and what they do to looking a string up.
use eel.Prelude.{
  ℕ, ◌+◌, ◌-◌, ◌≡◌, refl, sym, ap, ◌∙◌, inl, inr, Bool, true, false, Option, none, some, List, [],
  ◌∷◌, ◌==◌, length, arith, Bool-cases, Option-cases,
}
use mathlib.Core.Path.{subst}
use eel.Strings.{
  Pstring, Pool, hashmem, bucket_of, strncmp_eq, scan, ps_find, ps_push, set_refcount, count_refs,
  ps_resurrect, Made, made, damaged, nnew, ps_open, unlink_cached,
}
use eel.Strings.Find.{strncmp_eq_refl, NoNul, scan-none}
use eel.Strings.Valid.{IsValid}

-- The entry that `nnew` makes.
abbrev pub entry : ℕ → List ℕ → Pstring
entry o s = record { object = o; refcount = 1; buffer = s; hash = hashmem s }

pub ps_push-IsValid :
    (pool : Pool) (s : List ℕ) (o : ℕ)
    → NoNul s
    → IsValid pool
    → ps_find pool s ≡ none
    → IsValid (ps_push pool (entry o s))
unfolding ps_push ps_find
ps_push-IsValid pool s o nn h e b = elim (Bool-cases (b == bucket_of (hashmem s))) [
  | inl here ↦
      let same : bucket_of (hashmem s) ≡ b = ground arith in
      let fresh =
        scan-none b (pool.strings b) s (h b)
          (subst (λ x. scan (hashmem s) s (pool.strings x) ≡ none) same e) in
      rw here (refl, same, nn, fresh, h b)
  | inr away ↦ rw away (h b)
]

-- The object that an entry is for.
abbrev pub object_of : Option Pstring → Option ℕ
object_of none = none
object_of (some ps) = some ps.object

scan-set_refcount :
    (o n hash : ℕ) (s : List ℕ) (l : List Pstring)
    → object_of (scan hash s (set_refcount o n l)) ≡ object_of (scan hash s l)
unfolding scan
scan-set_refcount o n hash s [] = refl
scan-set_refcount o n hash s (ps ∷ rest) =
    let rec = scan-set_refcount o n hash s rest in
    elim (Bool-cases (ps.object == o)) [
      | inl e ↦ simp e (ground (arith, rec))
      | inr e ↦ simp e (ground (arith, rec))
    ]

count_refs-ps_find :
    (pool : Pool) (o n : ℕ) (s : List ℕ)
    → object_of (ps_find (count_refs pool o n) s) ≡ object_of (ps_find pool s)
unfolding count_refs ps_find
count_refs-ps_find pool o n s =
    scan-set_refcount o n (hashmem s) s (pool.strings (bucket_of (hashmem s)))

pub ps_resurrect-ps_find :
    (pool : Pool) (ps : Pstring) (s : List ℕ)
    → object_of (ps_find (ps_resurrect pool ps) s) ≡ object_of (ps_find pool s)
unfolding ps_resurrect ps_find
ps_resurrect-ps_find pool ps s = elim (Bool-cases (ps.refcount == 0)) [
  | inl e ↦
      simp (ps_resurrect, e)
        (count_refs-ps_find
          (record pool {
            scache = unlink_cached ps.object pool.scache;
            scache_size = pool.scache_size - 1;
          })
          ps.object (ps.refcount + 1) s)
  | inr e ↦ simp (ps_resurrect, e) (count_refs-ps_find pool ps.object (ps.refcount + 1) s)
]

-- What is at the head of the bucket is found by any text that the tests take for it.
pub ps_push-confuses :
    (pool : Pool) (o : ℕ) (s t : List ℕ)
    → hashmem s ≡ hashmem t
    → length s ≡ length t
    → strncmp_eq s t (length t) ≡ true
    → ps_find (ps_push pool (entry o s)) t ≡ some (entry o s)
unfolding ps_push ps_find scan
ps_push-confuses pool o s t h l e =
    let here : (bucket_of (hashmem t) == bucket_of (hashmem s)) ≡ true = ground arith in
    let same : (hashmem s == hashmem t) ≡ true = ground arith in
    let long : (length s == length t) ≡ true = ground arith in rw (here, same, long, e) refl

pub ps_push-ps_find :
    (pool : Pool) (o : ℕ) (s : List ℕ) → ps_find (ps_push pool (entry o s)) s ≡ some (entry o s)
ps_push-ps_find pool o s = ps_push-confuses pool o s s refl refl (strncmp_eq_refl s (length s))

abbrev result_of : Made → Option ℕ
result_of (made r after) = r
result_of damaged = none

abbrev pool_of : Made → Pool
pool_of (made r after) = after
pool_of damaged = ps_open

-- The ways through `eel_ps_nnew` that keep the pool in order: the text is there, there is no memory
-- for an object, or the text is added.
pub data Ways (pool : Pool) (s : List ℕ) (r : Option ℕ) (after : Pool) : Type 0 where
  present :
      (p : Pstring)
      → ps_find pool s ≡ some p
      → some p.object ≡ r
      → ps_resurrect pool p ≡ after
      → Ways pool s r after
  no_object : none ≡ r → pool ≡ after → Ways pool s r after
  added :
      (o : ℕ)
      → ps_find pool s ≡ none
      → some o ≡ r
      → ps_push pool (entry o s) ≡ after
      → Ways pool s r after

module _ (pool : Pool) (s : List ℕ) where
  pub nnew_found :
      (alloc : Option ℕ) (malloc : Bool) (p : Pstring)
      → ps_find pool s ≡ some p
      → nnew pool s alloc malloc ≡ made (some p.object) (ps_resurrect pool p)
  unfolding nnew
  nnew_found alloc malloc p e = rw (nnew, e) refl

  nnew_no_object :
      (malloc : Bool) → ps_find pool s ≡ none → nnew pool s none malloc ≡ made none pool
  unfolding nnew
  nnew_no_object malloc e = rw (nnew, e) refl

  pub nnew_added :
      (o : ℕ)
      → ps_find pool s ≡ none
      → nnew pool s (some o) true ≡ made (some o) (ps_push pool (entry o s))
  unfolding nnew
  nnew_added o e = rw (nnew, e) refl

  -- Without memory for the buffer of a new text the pool is damaged.
  pub nnew_no_buffer : (o : ℕ) → ps_find pool s ≡ none → nnew pool s (some o) false ≡ damaged
  unfolding nnew
  nnew_no_buffer o e = rw (nnew, e) refl

  pub nnew_ways :
      (alloc : Option ℕ) (malloc : Bool) (r : Option ℕ) (after : Pool)
      → nnew pool s alloc malloc ≡ made r after
      → Ways pool s r after
  nnew_ways alloc malloc r after h = elim (Option-cases (ps_find pool s)) [
    | inr (p, e) ↦
        let run = sym (nnew_found alloc malloc p e) ∙ h in
        present p e (ap result_of run) (ap pool_of run)
    | inl e ↦ missing alloc malloc e h
  ]
    where
      missing :
          (alloc : Option ℕ) (malloc : Bool)
          → ps_find pool s ≡ none
          → nnew pool s alloc malloc ≡ made r after
          → Ways pool s r after
      missing none malloc e h =
          let run = sym (nnew_no_object malloc e) ∙ h in
          no_object (ap result_of run) (ap pool_of run)
      missing (some o) true e h =
          let run = sym (nnew_added o e) ∙ h in added o e (ap result_of run) (ap pool_of run)
      missing (some o) false e h = absurd (ground (arith, sym (nnew_no_buffer o e) ∙ h))
