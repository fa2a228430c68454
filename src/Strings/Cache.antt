-- ===== src/Strings/Cache.antt =====
-- The cache of strings that nobody owns: `ps_cache` and its count.
use eel.Prelude.{
  ℕ, suc, ◌+◌, ◌≤◌, ◌≡◌, refl, ap, true, inl, inr, List, [], ◌∷◌, ltb, ◌==◌, if◌then◌else◌, length,
  arith, Bool-cases,
}
use eel.Strings.{Pool, unlink_cached, oldest, ps_cache, ps_unlink}

unlink_cached-oldest :
    (o : ℕ) (xs : List ℕ) → length (unlink_cached (oldest o xs) (o ∷ xs)) ≡ length xs
unlink_cached-oldest o [] = let same : (o == o) ≡ true = ground arith in rw same refl
unlink_cached-oldest o (x ∷ xs) = elim (Bool-cases (o == oldest x xs)) [
  | inl e ↦ rw e refl
  | inr e ↦ rw e (ap suc (unlink_cached-oldest x xs))
]

-- The count of the cache is right, and at most one more than its limit.
abbrev pub IsCounted : Pool → Type 0
IsCounted pool = (length pool.scache ≡ pool.scache_size) × (pool.scache_size ≤ pool.scache_max + 1)

-- `ps_cache` keeps the count right, and lets the cache grow to one string more than the limit: then
-- the oldest string goes, and the count stays.
pub ps_cache-IsCounted :
    (pool : Pool) (o : ℕ)
    → IsCounted pool
    → IsCounted (ps_cache pool o)
      × ((ps_cache pool o).scache_size ≡ (
          if ltb pool.scache_max pool.scache_size
          then pool.scache_max + 1
          else pool.scache_size + 1))
unfolding ps_cache ps_unlink
ps_cache-IsCounted pool o (e, le) = elim (Bool-cases (ltb pool.scache_max pool.scache_size)) [
  | inl full ↦
      let n = unlink_cached-oldest o pool.scache in
      simp (ps_cache, full) ((rw n e, le), ground (arith, full))
  | inr room ↦ simp (ps_cache, room) ((omega (arith, e), ground (arith, room)), refl)
]
