-- ===== src/Strings/Valid.antt =====
-- The invariant of the pool, and the operations on entries and on the cache.
use eel.Prelude.{ℕ, ◌+◌, ◌-◌, inl, inr, List, [], ◌∷◌, ltb, ◌==◌, Bool-cases}
use eel.Strings.{
  Pstring, Pool, ps_unlink, without, set_refcount, count_refs, ps_resurrect, ps_cache, disown,
}
use eel.Strings.Find.{Fresh, Bucket}

-- Each entry is in the bucket of its hash code, each text is there once, and no text has a byte 0.
abbrev pub IsValid : Pool → Type 0
IsValid pool = (b : ℕ) → Bucket b (pool.strings b)

Fresh-without : (o : ℕ) (s : List ℕ) (l : List Pstring) → Fresh s l → Fresh s (without o l)
Fresh-without o s [] h = tt
Fresh-without o s (ps ∷ rest) (h, hs) = elim (Bool-cases (ps.object == o)) [
  | inl e ↦ rw e (Fresh-without o s rest hs)
  | inr e ↦ rw e (h, Fresh-without o s rest hs)
]

Bucket-without : (o b : ℕ) (l : List Pstring) → Bucket b l → Bucket b (without o l)
Bucket-without o b [] h = tt
Bucket-without o b (ps ∷ rest) (hh, hb, nn, fresh, good) = elim (Bool-cases (ps.object == o)) [
  | inl e ↦ simp e (Bucket-without o b rest good)
  | inr e ↦ simp e (hh, hb, nn, Fresh-without o ps.buffer rest fresh, Bucket-without o b rest good)
]

Fresh-set_refcount :
    (o n : ℕ) (s : List ℕ) (l : List Pstring) → Fresh s l → Fresh s (set_refcount o n l)
Fresh-set_refcount o n s [] h = tt
Fresh-set_refcount o n s (ps ∷ rest) (h, hs) = elim (Bool-cases (ps.object == o)) [
  | inl e ↦ simp e (h, Fresh-set_refcount o n s rest hs)
  | inr e ↦ simp e (h, Fresh-set_refcount o n s rest hs)
]

Bucket-set_refcount : (o n b : ℕ) (l : List Pstring) → Bucket b l → Bucket b (set_refcount o n l)
Bucket-set_refcount o n b [] h = tt
Bucket-set_refcount o n b (ps ∷ rest) (hh, hb, nn, fresh, good) =
    let fresh' = Fresh-set_refcount o n ps.buffer rest fresh in
    let good' = Bucket-set_refcount o n b rest good in
    elim (Bool-cases (ps.object == o)) [
      | inl e ↦ simp e (hh, hb, nn, fresh', good')
      | inr e ↦ simp e (hh, hb, nn, fresh', good')
    ]

ps_unlink-IsValid : (pool : Pool) (o : ℕ) → IsValid pool → IsValid (ps_unlink pool o)
unfolding ps_unlink
ps_unlink-IsValid pool o h b = Bucket-without o b (pool.strings b) (h b)

count_refs-IsValid : (pool : Pool) (o n : ℕ) → IsValid pool → IsValid (count_refs pool o n)
unfolding count_refs
count_refs-IsValid pool o n h b = Bucket-set_refcount o n b (pool.strings b) (h b)

pub ps_cache-IsValid : (pool : Pool) (o : ℕ) → IsValid pool → IsValid (ps_cache pool o)
unfolding ps_cache
ps_cache-IsValid pool o h = elim (Bool-cases (ltb pool.scache_max pool.scache_size)) [
  | inl full ↦ rw (ps_cache, full) (ps_unlink-IsValid (record pool { scache = _ }) _ h)
  | inr room ↦ rw (ps_cache, room) h
]

pub ps_resurrect-IsValid :
    (pool : Pool) (ps : Pstring) → IsValid pool → IsValid (ps_resurrect pool ps)
unfolding ps_resurrect
ps_resurrect-IsValid pool ps h = elim (Bool-cases (ps.refcount == 0)) [
  | inl dead ↦
      rw (ps_resurrect, dead)
        (count_refs-IsValid (record pool { scache = _; scache_size = _ }) ps.object
          (ps.refcount + 1) h)
  | inr alive ↦ rw (ps_resurrect, alive) (count_refs-IsValid pool ps.object (ps.refcount + 1) h)
]

pub disown-IsValid : (pool : Pool) (ps : Pstring) → IsValid pool → IsValid (disown pool ps)
unfolding disown
disown-IsValid pool ps h =
    let counted = count_refs-IsValid pool ps.object (ps.refcount - 1) h in
    elim (Bool-cases (ps.refcount - 1 == 0)) [
      | inl dead ↦ rw (disown, dead) (ps_cache-IsValid _ ps.object counted)
      | inr alive ↦ rw (disown, alive) counted
    ]
