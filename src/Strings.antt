-- ===== src/Strings.antt =====
-- The string pool of src/core/e_string.c: all strings in a hash table with one object for each, the
-- strings that nobody owns in a cache. Search has the inline searches of e_string.h.
pub mod Find
pub mod Valid
pub mod Making
pub mod Intern
pub mod Nul
pub mod Cache
pub mod Search
pub mod Methods
mod Examples
use eel.Prelude.{
  ℕ, zero, suc, ◌+◌, ◌-◌, ◌%◌, Bool, true, false, not, Option, none, some, List, [], ◌∷◌, ltb, ◌==◌,
  if◌then◌else◌, length, take, drop, leb,
}
use eel.Prelude.Int.{ℤ, pos, negsuc}
use eel.Value.{hash_seed, hash_round}

-- `EEL_string` with the address and the reference count of its object. The links to the neighbours
-- are the place in the list of the bucket.
pub record Pstring : Type 0 where
  pub object : ℕ
  pub refcount : ℕ
  pub buffer : List ℕ
  pub hash : ℕ

-- The pool in `EEL_vm_private`: the buckets, and the cache with its newest string first.
pub record Pool : Type 0 where
  pub strings : ℕ → List Pstring
  pub scache : List ℕ
  pub scache_size : ℕ
  pub scache_max : ℕ

abbrev pub ps_tablesize : ℕ
ps_tablesize = 256

-- A `char` as a number of 32 bits: it has a sign.
abbrev pub char_word : ℕ → ℕ
char_word c = if ltb c 128 then c else c + 0xffff_ff00

abbrev pub hash_bytes : ℕ → List ℕ → ℕ
hash_bytes hash [] = hash
hash_bytes hash (c ∷ cs) = hash_bytes (hash_round hash (char_word c)) cs

-- `eel_hashmem`: of the first 32 bytes.
unfoldable pub hashmem : List ℕ → ℕ
hashmem s = hash_bytes hash_seed (take 32 s)

-- Whether strncmp(a, b, n) is 0. A buffer ends in a 0.
unfoldable pub strncmp_eq : List ℕ → List ℕ → ℕ → Bool
strncmp_eq a b zero = true
strncmp_eq [] [] (suc n) = true
strncmp_eq [] (y ∷ b) (suc n) = y == 0
strncmp_eq (x ∷ a) [] (suc n) = x == 0
strncmp_eq (x ∷ a) (y ∷ b) (suc n) =
    let rest = strncmp_eq a b n in if not (x == y) then false else if x == 0 then true else rest

-- The loop of `ps_find` along a bucket.
unfoldable pub scan : ℕ → List ℕ → List Pstring → Option Pstring
scan hash s [] = none
scan hash s (ps ∷ rest) =
    let next = scan hash s rest in
    if not (ps.hash == hash)
    then next
    else if not (length ps.buffer == length s)
    then next
    else if strncmp_eq ps.buffer s (length s)
    then some ps
    else next

-- `HASH2BUCKET`
abbrev pub bucket_of : ℕ → ℕ
bucket_of hash = hash % ps_tablesize

-- `ps_find` and `eel_ps_find`
unfoldable pub ps_find : Pool → List ℕ → Option Pstring
ps_find pool s = scan (hashmem s) s (pool.strings (bucket_of (hashmem s)))

-- `ps_push`, at the head of a bucket.
unfoldable pub ps_push : Pool → Pstring → Pool
ps_push pool ps = record pool {
  strings = λ i. if i == bucket_of ps.hash then ps ∷ pool.strings i else pool.strings i;
}

abbrev pub without : ℕ → List Pstring → List Pstring
without o [] = []
without o (ps ∷ rest) = if ps.object == o then without o rest else ps ∷ without o rest

-- `ps_unlink`, "from whatever bucket it's in". Every object of the pool has its hash and its links
-- set (`nnew`), so that the neighbours that the source joins are those in the list of its bucket.
unfoldable pub ps_unlink : Pool → ℕ → Pool
ps_unlink pool o = record pool { strings = λ i. without o (pool.strings i) }

-- The reference count of an object.
abbrev pub set_refcount : ℕ → ℕ → List Pstring → List Pstring
set_refcount o n [] = []
set_refcount o n (ps ∷ rest) =
    (if ps.object == o then record ps { refcount = n } else ps) ∷ set_refcount o n rest

unfoldable pub count_refs : Pool → ℕ → ℕ → Pool
count_refs pool o n = record pool { strings = λ i. set_refcount o n (pool.strings i) }

abbrev pub unlink_cached : ℕ → List ℕ → List ℕ
unlink_cached o [] = []
unlink_cached o (x ∷ xs) = if x == o then xs else x ∷ unlink_cached o xs

-- `ps_resurrect`
unfoldable pub ps_resurrect : Pool → Pstring → Pool
ps_resurrect pool ps =
    let pool' : Pool =
      if ps.refcount == 0
      then record pool {
        scache = unlink_cached ps.object pool.scache;
        scache_size = pool.scache_size - 1;
      }
      else pool in
    count_refs pool' ps.object (ps.refcount + 1)

-- `scache_last`
abbrev pub oldest : ℕ → List ℕ → ℕ
oldest o [] = o
oldest o (x ∷ xs) = oldest x xs

-- `ps_cache`, which keeps the object; `really_destruct` of the oldest one where there are too many.
unfoldable pub ps_cache : Pool → ℕ → Pool
ps_cache pool o =
    let last = oldest o pool.scache in
    if ltb pool.scache_max pool.scache_size
    then ps_unlink (record pool { scache = unlink_cached last (o ∷ pool.scache) }) last
    else record pool { scache = o ∷ pool.scache; scache_size = pool.scache_size + 1 }

-- `eel_o_disown_nz` on a string, which the pool holds as `ps`.
unfoldable pub disown : Pool → Pstring → Pool
disown pool ps =
    let pool' = count_refs pool ps.object (ps.refcount - 1) in
    if ps.refcount - 1 == 0 then ps_cache pool' ps.object else pool'

-- What `eel_ps_nnew` comes to: the object or NULL, and the pool; or a damaged pool, where an object
-- went into the cache whose hash, links and buffer were never set, but are used when it leaves it.
pub data Made : Type 0 where
  made : Option ℕ → Pool → Made
  damaged : Made

-- `eel_ps_nnew`. `alloc` is what `eel_o_alloc` gives, with one reference, and `malloc` says whether
-- there is memory for the buffer; where there is none, the source disowns the object as it is.
unfoldable pub nnew : Pool → List ℕ → Option ℕ → Bool → Made
nnew pool s alloc malloc = elim (ps_find pool s) [
  | some ps ↦ made (some ps.object) (ps_resurrect pool ps)
  | none ↦ elim alloc [
    | none ↦ made none pool
    | some o ↦
        if malloc
        then made (some o)
            (ps_push pool (record { object = o; refcount = 1; buffer = s; hash = hashmem s }))
        else damaged
  ]
]

-- `eel_ps_nnew_grab`, which takes over the buffer.
unfoldable pub nnew_grab : Pool → List ℕ → Option ℕ → Made
unfolding nnew
nnew_grab pool s alloc = nnew pool s alloc true

-- `eel_ps_open`, where there is memory for the table.
abbrev pub ps_open : Pool
ps_open = record { strings = λ _. []; scache = []; scache_size = 0; scache_max = 100 }

-- The inner loop of `eel_s_str_in`: whether it reaches the end of `str2`.
abbrev pub starts : List ℕ → List ℕ → Bool
starts [] str = true
starts (y ∷ str2) [] = false
starts (y ∷ str2) (x ∷ str) = if x == y then starts str2 str else false

-- The outer loop, from position `i` on, with the rounds that are left.
unfoldable pub str_in_loop : ℕ → ℕ → List ℕ → List ℕ → Option ℕ
str_in_loop zero i str str2 = none
str_in_loop (suc rounds) i str str2 =
    let next = str_in_loop rounds (i + 1) (drop 1 str) str2 in
    if starts str2 str then some i else next

-- `eel_s_str_in`: `none` is the Boolean false.
unfoldable pub s_str_in : List ℕ → List ℕ → Option ℕ
s_str_in str str2 =
    if leb (length str2) (length str)
    then str_in_loop (length str - length str2) 0 str str2
    else none

-- `eel_s_cmp` over `length` bytes: the sign of its result.
unfoldable pub s_cmp : List ℕ → List ℕ → ℕ → ℤ
s_cmp a b zero = pos 0
s_cmp [] b (suc n) = pos 0
s_cmp (x ∷ a) [] (suc n) = pos 0
s_cmp (x ∷ a) (y ∷ b) (suc n) =
    let rest = s_cmp a b n in if x == y then rest else if ltb y x then pos 1 else negsuc 0
