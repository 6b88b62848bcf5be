-- ===== src/Range/Meaning.antt =====
-- The ranges that are left, against what RFC 2616 says of the specs in the header.
use yabwf.Prelude.{
  ℕ, ◌-◌, ◌^◌, ◌≡◌, ◌≤◌, ◌<◌, refl, ◌∙◌, ap, List, [], ◌∷◌, map, Option, none, some, ltb, leb, ◌==◌,
  ◌&&◌, IsWidth, if◌then◌else◌, arith, inl, inr, All, min,
}
use yabwf.Range.{Range, range, Ranges, ulong_max, adjust, is_invalid, ranges_fixup}
use yabwf.Range.Fixup.{served, fixup_ranges}

-- The range specs of a header: a first-last pair, an open end, and the last `n` bytes.
pub data Field : Type 0 where
  pair : ℕ → ℕ → Field
  from : ℕ → Field
  last : ℕ → Field

-- What range_parse records for them.
abbrev pub recorded : ℕ → Field → Range
recorded bits (pair a b) = range a b
recorded bits (from a) = range a (ulong_max bits)
recorded bits (last n) = range (ulong_max bits) n

-- What they mean for a file that is not empty, by RFC 2616, 14.35.1.
abbrev pub meaning : ℕ → Field → Option Range
meaning filesize (pair a b) =
    if leb a b && ltb a filesize then some (range a (min b (filesize - 1))) else none
meaning filesize (from a) = if ltb a filesize then some (range a (filesize - 1)) else none
meaning filesize (last n) = if n == 0 then none else some (range (filesize - n) (filesize - 1))

abbrev pub meanings : ℕ → List Field → List Range
meanings filesize [] = []
meanings filesize (f ∷ fs) = elim (meaning filesize f) [
  | none ↦ meanings filesize fs
  | some r ↦ r ∷ meanings filesize fs
]

-- Numbers below 2 ^ 31, and fewer last bytes than the file has.
abbrev pub Fits : ℕ → Field → Type 0
Fits filesize (pair a b) = (a < 2 ^ 31) × (b < 2 ^ 31)
Fits filesize (from a) = a < 2 ^ 31
Fits filesize (last n) = (n < filesize) × (n < 2 ^ 31)

abbrev kept : ℕ → Range → Option Range
kept bits r = if is_invalid bits r then none else some r

kept-recorded_32 :
    (filesize : ℕ) (f : Field)
    → 0 < filesize
    → filesize ≤ 2 ^ 31
    → Fits filesize f
    → kept 32 (adjust 32 filesize (recorded 32 f)) ≡ meaning filesize f
unfolding adjust is_invalid
kept-recorded_32 filesize (pair a b) h m fits = ground arith
kept-recorded_32 filesize (from a) h m fits = ground arith
kept-recorded_32 filesize (last n) h m fits = ground arith

kept-recorded_64 :
    (filesize : ℕ) (f : Field)
    → 0 < filesize
    → filesize ≤ 2 ^ 63
    → Fits filesize f
    → kept 64 (adjust 64 filesize (recorded 64 f)) ≡ meaning filesize f
unfolding adjust is_invalid
kept-recorded_64 filesize (pair a b) h m fits = ground arith
kept-recorded_64 filesize (from a) h m fits = ground arith
kept-recorded_64 filesize (last n) h m fits = ground arith

kept-recorded :
    (bits filesize : ℕ) (f : Field)
    → IsWidth bits
    → 0 < filesize
    → filesize ≤ 2 ^ (bits - 1)
    → Fits filesize f
    → kept bits (adjust bits filesize (recorded bits f)) ≡ meaning filesize f
kept-recorded bits filesize f (inl w) h m fits =
    rw w (kept-recorded_32 filesize f h (rw w at m) fits)
kept-recorded bits filesize f (inr w) h m fits =
    rw w (kept-recorded_64 filesize f h (rw w at m) fits)

served-meanings :
    (bits filesize : ℕ) (fs : List Field)
    → IsWidth bits
    → 0 < filesize
    → filesize ≤ 2 ^ (bits - 1)
    → All (Fits filesize) fs
    → served bits filesize (map (recorded bits) fs) ≡ meanings filesize fs
served-meanings bits filesize [] w h m fits = refl
served-meanings bits filesize (f ∷ fs) w h m (fit, fits) =
    ground
      (arith, kept-recorded bits filesize f w h m fit, served-meanings bits filesize fs w h m fits)

-- Ranges that stand for specs of a Range header become what RFC 2616 says of them for a file that
-- is not empty: first-last pairs and open ranges that begin in the file, cut at its end, and the
-- last bytes; the specs that cannot be satisfied are dropped and the others keep their order. The
-- numbers are below 2 ^ 31, and no spec asks for more last bytes than there are.
pub ranges_fixup-meanings :
    (bits filesize : ℕ) (fs : List Field) (st : Ranges)
    → IsWidth bits
    → 0 < filesize
    → filesize ≤ 2 ^ (bits - 1)
    → All (Fits filesize) fs
    → st.ranges ≡ map (recorded bits) fs
    → (ranges_fixup bits filesize st).0.ranges ≡ meanings filesize fs
ranges_fixup-meanings bits filesize fs st w h m fits e =
    fixup_ranges bits filesize st h
    ∙ ap (served bits filesize) e
    ∙ served-meanings bits filesize fs w h m fits

long_last_32 :
    (filesize n : ℕ)
    → 1 < filesize
    → filesize ≤ 2 ^ 31
    → filesize ≤ n
    → n < 2 ^ 31
    → kept 32 (adjust 32 filesize (recorded 32 (last n))) ≡ some (range 1 (filesize - 1))
unfolding adjust is_invalid
long_last_32 filesize n h m big fits = ground arith

long_last_64 :
    (filesize n : ℕ)
    → 1 < filesize
    → filesize ≤ 2 ^ 63
    → filesize ≤ n
    → n < 2 ^ 31
    → kept 64 (adjust 64 filesize (recorded 64 (last n))) ≡ some (range 1 (filesize - 1))
unfolding adjust is_invalid
long_last_64 filesize n h m big fits = ground arith

long_last :
    (bits filesize n : ℕ)
    → IsWidth bits
    → 1 < filesize
    → filesize ≤ 2 ^ (bits - 1)
    → filesize ≤ n
    → n < 2 ^ 31
    → kept bits (adjust bits filesize (recorded bits (last n))) ≡ some (range 1 (filesize - 1))
long_last bits filesize n (inl w) h m big fits =
    rw w (long_last_32 filesize n h (rw w at m) big fits)
long_last bits filesize n (inr w) h m big fits =
    rw w (long_last_64 filesize n h (rw w at m) big fits)

-- Where the only range of a request asks for at least as many last bytes as the file has, a number below
-- 2 ^ 31, and the file has two bytes or more, up to half of what an unsigned long holds, it is served
-- from byte 1, not from byte 0: the first byte is missing from the answer.
pub ranges_fixup_long_last :
    (bits filesize n : ℕ) (st : Ranges)
    → IsWidth bits
    → 1 < filesize
    → filesize ≤ 2 ^ (bits - 1)
    → filesize ≤ n
    → n < 2 ^ 31
    → st.ranges ≡ recorded bits (last n) ∷ []
    → (ranges_fixup bits filesize st).0.ranges ≡ range 1 (filesize - 1) ∷ []
ranges_fixup_long_last bits filesize n st w h m big fits e =
    let kept_one = long_last bits filesize n w h m big fits in
    fixup_ranges bits filesize st (omega arith)
    ∙ ap (served bits filesize) e
    ∙ ground (arith, kept_one)
