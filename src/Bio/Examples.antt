-- ===== src/Bio/Examples.antt =====
-- The theorems on source input, on small buffers.
use eel.Prelude.{
  ℕ, ◌+◌, ◌*◌, ◌≡◌, ◌≢◌, refl, true, false, List, [], ◌∷◌, ◌==◌, if◌then◌else◌, arith,
}
use eel.Prelude.Int.{pos}
use eel.Bio.{Bio, open_bio, getchar, linecount}
use eel.Bio.Lines.{place_at}
use eel.Bio.Num.{Fpu, hangs, parsed, bio_read_num}
use eel.Bio.Num.Figures.{ahead}
use eel.Bio.Num.Total.{bio_read_num-ne-hangs}
use eel.Bio.Num.RoundTrip.{bio_read_num-figures, figures}
use eel.Bio.Uses.{here, next, by_getchar, by_linecount, linecount-place_at}

-- Exact on whole numbers; of exponents it knows 0.
abbrev natural_fpu : Fpu
natural_fpu = record {
  of_int = λ n. n;
  minus_one = 0;
  add = λ a b. a + b;
  mul = λ a b. a * b;
  div = λ a b. a;
  pow = λ a b. if b == 0 then 1 else a;
}

-- "0x1F;" after its first character.
abbrev hex : Bio
hex = record (open_bio (48 ∷ 120 ∷ 49 ∷ 70 ∷ 59 ∷ [])) { place = 1 }

-- "7" and "0" at the end of the text.
abbrev seven : Bio
seven = record (open_bio (55 ∷ [])) { place = 1 }

abbrev nought : Bio
nought = record (open_bio (48 ∷ [])) { place = 1 }

-- Two lines, a tab, and a compressed line break.
abbrev lines : List ℕ
lines = 65 ∷ 10 ∷ 9 ∷ 66 ∷ 3 ∷ 67 ∷ []

linecount-place_at_example :
    (linecount (linecount (getchar (open_bio lines)).1 (pos 2) 8).1 (pos 5) 8).0
    ≡ place_at 8 lines (pos 5)
linecount-place_at_example =
    linecount-place_at 8 natural_fpu lines (linecount (getchar (open_bio lines)).1 (pos 2) 8).1
      (pos 5) (next (next here by_getchar) (by_linecount (pos 2)))

bio_read_num-ne-hangs_example : bio_read_num natural_fpu 6 hex ≢ hangs
bio_read_num-ne-hangs_example =
    bio_read_num-ne-hangs natural_fpu 6 hex (omega arith) refl (omega arith)

bio_read_num-figures_example : bio_read_num natural_fpu 10 hex ≡ parsed (false, 31) (ahead hex 3)
unfolding figures
bio_read_num-figures_example =
    bio_read_num-figures natural_fpu (λ a b h. refl, λ a b h. refl) (λ base. refl) true 120 16 31 59
      [] 10 0 hex refl (omega arith) (refl, λ e. omega (arith, e), λ e. omega (arith, e))
      (omega arith) (refl, refl)
