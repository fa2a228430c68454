-- ===== src/Strings/Intern.antt =====
-- Making strings with `eel_ps_nnew`, and looking them up.
use eel.Prelude.{ℕ, ◌≡◌, sym, ap, ◌∙◌, inl, inr, Bool, Option, some, List, arith, Option-cases}
use mathlib.Core.Path.{subst}
use mathlib.Core.Option.{none-ne-some}
use eel.Strings.{
  Pstring, Pool, hashmem, bucket_of, ps_find, ps_resurrect, disown, made, nnew, ps_open,
}
use eel.Strings.Find.{NoNul, In, In-Bucket, scan-In, scan_sound}
use eel.Strings.Valid.{IsValid, ps_resurrect-IsValid, disown-IsValid}
use eel.Strings.Making.{
  object_of, ps_push-IsValid, ps_resurrect-ps_find, ps_push-ps_find, Ways, present, no_object,
  added, nnew_found, nnew_ways,
}

-- `eel_ps_nnew` keeps each text in one place, whether it finds the text, adds it or has no object.
pub nnew-IsValid :
    (pool after : Pool) (s : List ℕ) (r : Option ℕ)
    → NoNul s
    → IsValid pool
    → Ways pool s r after
    → IsValid after
nnew-IsValid pool after s r nn h (present p e q a) =
    subst (λ x. IsValid x) a (ps_resurrect-IsValid pool p h)
nnew-IsValid pool after s r nn h (no_object q a) = subst (λ x. IsValid x) a h
nnew-IsValid pool after s r nn h (added o e q a) =
    subst (λ x. IsValid x) a (ps_push-IsValid pool s o nn h e)

nnew-ps_find :
    (pool after : Pool) (s : List ℕ) (o : ℕ)
    → Ways pool s (some o) after
    → object_of (ps_find after s) ≡ some o
nnew-ps_find pool after s o (present p e q a) =
    subst (λ x. object_of (ps_find x s) ≡ some o) a
      (ps_resurrect-ps_find pool p s ∙ ap object_of e ∙ q)
nnew-ps_find pool after s o (no_object q a) = absurd (none-ne-some o q)
nnew-ps_find pool after s o (added o' e q a) =
    subst (λ x. object_of (ps_find x s) ≡ some o) a (ap object_of (ps_push-ps_find pool o' s) ∙ q)

nnew-object_of :
    (pool : Pool) (s : List ℕ) (alloc : Option ℕ) (malloc : Bool) (o : ℕ)
    → object_of (ps_find pool s) ≡ some o
    → (after : Pool) × (nnew pool s alloc malloc ≡ made (some o) after)
nnew-object_of pool s alloc malloc o h = elim (Option-cases (ps_find pool s)) [
  | inr (p, e) ↦ (
    ps_resurrect pool p,
    nnew_found pool s alloc malloc p e
        ∙ ap (λ x. made x (ps_resurrect pool p)) (sym (ap object_of e) ∙ h),
  )
  | inl e ↦ absurd (none-ne-some o (sym (ap object_of e) ∙ h))
]

-- Making a string that was just made gives the same object again, and needs no memory for it.
pub nnew-nnew :
    (pool after : Pool) (s : List ℕ) (alloc alloc' : Option ℕ) (malloc malloc' : Bool) (o : ℕ)
    → nnew pool s alloc malloc ≡ made (some o) after
    → (later : Pool) × (nnew after s alloc' malloc' ≡ made (some o) later)
nnew-nnew pool after s alloc alloc' malloc malloc' o h =
    nnew-object_of after s alloc' malloc' o
      (nnew-ps_find pool after s o (nnew_ways pool s alloc malloc (some o) after h))

-- One call on the pool that does not damage it; the strings of C have no byte 0.
pub data Call (pool : Pool) (after : Pool) : Type 0 where
  by_nnew :
      (s : List ℕ) (alloc : Option ℕ) (malloc : Bool) (r : Option ℕ)
      → NoNul s
      → nnew pool s alloc malloc ≡ made r after
      → Call pool after
  by_disown : (ps : Pstring) → disown pool ps ≡ after → Call pool after

pub data Reaches : Pool → Type 0 where
  opened : Reaches ps_open
  next : {pool after : Pool} → Reaches pool → Call pool after → Reaches after

pub Reaches-IsValid : {pool : Pool} → Reaches pool → IsValid pool
Reaches-IsValid opened = λ b. tt
Reaches-IsValid (next {pool} {after} r (by_nnew s alloc malloc q nn e)) =
    nnew-IsValid pool after s q nn (Reaches-IsValid r) (nnew_ways pool s alloc malloc q after e)
Reaches-IsValid (next {pool} r (by_disown ps e)) =
    subst (λ x. IsValid x) e (disown-IsValid pool ps (Reaches-IsValid r))

find-In :
    (pool : Pool) (b : ℕ) (p : Pstring)
    → IsValid pool
    → In p (pool.strings b)
    → ps_find pool p.buffer ≡ some p
unfolding ps_find
find-In pool b p h i =
    let home = (In-Bucket b (pool.strings b) p (h b) i).1 in
    rw home (scan-In b (pool.strings b) p (h b) i)

-- Whatever strings without a byte 0 were made and given up since the pool was opened, as long as no
-- buffer for a new string was refused: two entries with the same text are one entry, so that comparing addresses compares strings, and looking the text up
-- finds it; what is found by looking up a text has that text.
pub ps_find_unique :
    {pool : Pool} (b c : ℕ) (p q : Pstring)
    → Reaches pool
    → In p (pool.strings b)
    → In q (pool.strings c)
    → (ps_find pool p.buffer ≡ some p)
      × (p.buffer ≡ q.buffer → p ≡ q)
      × ((s : List ℕ) → ps_find pool s ≡ some p → p.buffer ≡ s)
unfolding ps_find
ps_find_unique {pool} b c p q r i j =
    let h = Reaches-IsValid r in let found = find-In pool b p h i in (found, same, text)
  where
    same : p.buffer ≡ q.buffer → p ≡ q
    same e =
        let h = Reaches-IsValid r in
        let found_p = find-In pool b p h i in
        let found_q = find-In pool c q h j in
        ground (arith, sym found_p ∙ (ap (ps_find pool) e ∙ found_q))

    text : (s : List ℕ) → ps_find pool s ≡ some p → p.buffer ≡ s
    text s e =
        let b = bucket_of (hashmem s) in
        (scan_sound b (pool.strings b) s p (Reaches-IsValid r b) e).0
