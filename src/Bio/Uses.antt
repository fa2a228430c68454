-- ===== src/Bio/Uses.antt =====
-- Any use of an input object, from `eel_bio_open` on, as a sequence of calls.
use eel.Prelude.{ℕ, ◌≤◌, ◌≡◌, refl, inl, Bool, List, arith, length, ◌∙◌}
use mathlib.Core.Path.{subst}
use eel.Prelude.Int.{ℤ, pos, negsuc, ◌+ℤ◌, sub_ℕ}
use eel.Exceptions.{Xno}
use eel.Bio.{Bio, open_bio, getchar, ungetc, seek_set, seek, seek_end, read, linecount, count_on}
use eel.Bio.Lines.{IsValid, place_at, linecount-IsValid}
use eel.Bio.Num.{Fpu, failed, parsed, bio_read_num}
use eel.Bio.Num.Moves.{Moved, Restores, Moved-getchar, Moved-ungetc, bio_read_num-Restores}

-- One call. `eel_bio_read_num` may also not return: then there is no step.
pub data Call (tab : ℕ) (fpu : Fpu) (b : Bio) : Bio → Type 0 where
  by_getchar : Call tab fpu b (getchar b).1
  by_ungetc : Call tab fpu b (ungetc b)
  by_seek_set : (offset : ℤ) → Call tab fpu b (seek_set b offset).1
  by_seek : (offset : ℤ) → Call tab fpu b (seek b offset).1
  by_seek_end : (offset : ℕ) → Call tab fpu b (seek_end b offset).1
  by_read : (count : ℕ) → Call tab fpu b (read b count).1
  by_number :
      (fuel : ℕ) {v : Bool × ℕ} {c : Bio} → bio_read_num fpu fuel b ≡ parsed v c → Call tab fpu b c
  by_no_number :
      (fuel : ℕ) {x : Xno} {c : Bio} → bio_read_num fpu fuel b ≡ failed x c → Call tab fpu b c
  by_linecount : (p : ℤ) → Call tab fpu b (linecount b p tab).1

pub data Reaches (tab : ℕ) (fpu : Fpu) (b : Bio) : Bio → Type 0 where
  here : Reaches tab fpu b b
  next : {c d : Bio} → Reaches tab fpu b c → Call tab fpu c d → Reaches tab fpu b d

-- A valid object on this buffer.
abbrev pub IsOn : ℕ → List ℕ → Bio → Type 0
IsOn tab buffer b = (b.buffer ≡ buffer) × IsValid tab b

Moved-IsOn :
    (tab : ℕ) (buffer : List ℕ) (b c : Bio) → Moved b c → IsOn tab buffer b → IsOn tab buffer c
Moved-IsOn tab buffer b c (le, e, e1, e2, e3) (h, (_, cache)) =
    (e ∙ h, (rw e le, rw (e, e1, e2, e3) cache))

Moved-refl : (b : Bio) → b.place ≤ length b.buffer → Moved b b
Moved-refl b h = (h, refl, refl, refl, refl)

Moved-seek_set : (b : Bio) (offset : ℤ) → Moved b (seek_set b offset).1
unfolding seek_set
Moved-seek_set b (negsuc n) = (omega arith, refl, refl, refl, refl)
Moved-seek_set b (pos n) = ground arith

Moved-read : (b : Bio) (n : ℕ) → b.place ≤ length b.buffer → Moved b (read b n).1
unfolding read
Moved-read b n h = ground arith

linecount-buffer : (tab : ℕ) (b : Bio) (p : ℤ) → (linecount b p tab).1.buffer ≡ b.buffer
unfolding linecount count_on
linecount-buffer tab b (negsuc n) = refl
linecount-buffer tab b (pos n) = ground arith

pub Call-IsOn :
    (tab : ℕ) (fpu : Fpu) (buffer : List ℕ) (b : Bio) {c : Bio}
    → Call tab fpu b c
    → IsOn tab buffer b
    → IsOn tab buffer c
unfolding seek seek_end
Call-IsOn tab fpu buffer b by_getchar h =
    Moved-IsOn tab buffer b _ (Moved-getchar b b (Moved-refl b h.1.0)) h
Call-IsOn tab fpu buffer b by_ungetc h =
    Moved-IsOn tab buffer b _ (Moved-ungetc b b (Moved-refl b h.1.0)) h
Call-IsOn tab fpu buffer b (by_seek_set offset) h =
    Moved-IsOn tab buffer b _ (Moved-seek_set b offset) h
Call-IsOn tab fpu buffer b (by_seek offset) h =
    Moved-IsOn tab buffer b _ (Moved-seek_set b (pos b.place +ℤ offset)) h
Call-IsOn tab fpu buffer b (by_seek_end offset) h =
    Moved-IsOn tab buffer b _ (Moved-seek_set b (sub_ℕ (length b.buffer) offset)) h
Call-IsOn tab fpu buffer b (by_read n) h = Moved-IsOn tab buffer b _ (Moved-read b n h.1.0) h
Call-IsOn tab fpu buffer b (by_number fuel {v} {c} e) h =
    Moved-IsOn tab buffer b c (subst (Restores b) e (bio_read_num-Restores fpu fuel b h.1.0)) h
Call-IsOn tab fpu buffer b (by_no_number fuel {x} {c} e) h =
    rw (subst (Restores b) e (bio_read_num-Restores fpu fuel b h.1.0)) h
Call-IsOn tab fpu buffer b (by_linecount p) h =
    (linecount-buffer tab b p ∙ h.0, (linecount-IsValid tab b p h.1).1)

pub Reaches-IsOn :
    (tab : ℕ) (fpu : Fpu) (buffer : List ℕ) {b : Bio}
    → Reaches tab fpu (open_bio buffer) b
    → IsOn tab buffer b
Reaches-IsOn tab fpu buffer here = (refl, (omega arith, inl refl))
Reaches-IsOn tab fpu buffer (next {c} r s) =
    Call-IsOn tab fpu buffer c s (Reaches-IsOn tab fpu buffer r)

-- Whatever was called on an input object since it was opened, with one size of tabs throughout,
-- `eel_bio_linecount` answers for every position with the line and column that counting from the
-- start of the buffer gives, and refuses the positions outside the buffer.
pub linecount-place_at :
    (tab : ℕ) (fpu : Fpu) (buffer : List ℕ) (b : Bio) (p : ℤ)
    → Reaches tab fpu (open_bio buffer) b
    → (linecount b p tab).0 ≡ place_at tab buffer p
linecount-place_at tab fpu buffer b p r =
    let (e, h) = Reaches-IsOn tab fpu buffer r in (linecount-IsValid tab b p h).0 ∙ rw e refl
