-- ===== src/Util/Date/Order.antt =====
-- modified_since compares points in time.
use yabwf.Prelude.{
  ℕ, ◌+◌, ◌*◌, ◌≡◌, ◌<◌, ◌≤◌, refl, ap, ◌∙◌, Bool, true, false, Option, none, some, not, peek,
  Option-cases, inl, inr, ◌⊎◌, >>=-eq-some, ltb, ◌==◌, if◌then◌else◌, arith, Bytes, ℤ, pos, negsuc,
}
use mathlib.Core.Path.{subst}
use yabwf.Util.Date.{
  Tm, Format, Scan, month2int, in_range, adjust_year, skip_weekday, scan_date, check_date,
  date_to_tm, compare_field, modified_since,
}

-- A date as one number; a second may be 60 in gmtime's result.
abbrev pub stamp : Tm → ℕ
stamp t =
    ((((t.tm_year * 12 + t.tm_mon) * 32 + t.tm_mday) * 24 + t.tm_hour) * 60 + t.tm_min) * 61
    + t.tm_sec

-- The ranges of the fields.
pub record IsDate (t : Tm) : Type 0 where
  pub sec_le : t.tm_sec ≤ 60
  pub min_le : t.tm_min ≤ 59
  pub hour_le : t.tm_hour ≤ 23
  pub mday_le : t.tm_mday ≤ 31
  pub mon_le : t.tm_mon ≤ 11

compare_sec : (a b : ℕ) → compare_field a b false ≡ ltb b a
compare_sec a b = ground arith

compare_min :
    (a b c d : ℕ) → c < 61 → d < 61 → compare_field a b (ltb d c) ≡ ltb (b * 61 + d) (a * 61 + c)
compare_min a b c d hc hd = ground arith

compare_hour :
    (a b c d : ℕ)
    → c < 3660
    → d < 3660
    → compare_field a b (ltb d c) ≡ ltb (b * 3660 + d) (a * 3660 + c)
compare_hour a b c d hc hd = ground arith

compare_mday :
    (a b c d : ℕ)
    → c < 87840
    → d < 87840
    → compare_field a b (ltb d c) ≡ ltb (b * 87840 + d) (a * 87840 + c)
compare_mday a b c d hc hd = ground arith

compare_mon :
    (a b c d : ℕ)
    → c < 2810880
    → d < 2810880
    → compare_field a b (ltb d c) ≡ ltb (b * 2810880 + d) (a * 2810880 + c)
compare_mon a b c d hc hd = ground arith

compare_year :
    (a b c d : ℕ)
    → c < 33730560
    → d < 33730560
    → compare_field a b (ltb d c) ≡ ltb (b * 33730560 + d) (a * 33730560 + c)
compare_year a b c d hc hd = ground arith

-- The comparisons of modified_since.
abbrev is_later : Tm → Tm → Bool
is_later f p = compare_field f.tm_year p.tm_year (
    compare_field f.tm_mon p.tm_mon (
      compare_field f.tm_mday p.tm_mday (
        compare_field f.tm_hour p.tm_hour
          (compare_field f.tm_min p.tm_min (compare_field f.tm_sec p.tm_sec false)))))

-- The fields from the hour, the day and the month on.
abbrev clock : Tm → ℕ
clock t = t.tm_hour * 3660 + (t.tm_min * 61 + t.tm_sec)

abbrev month_day : Tm → ℕ
month_day t = t.tm_mon * 2810880 + (t.tm_mday * 87840 + clock t)

is_later-stamp : (f p : Tm) → IsDate f → IsDate p → is_later f p ≡ ltb (stamp p) (stamp f)
is_later-stamp f p hf hp =
    let month = compare_field f.tm_mon p.tm_mon in
    let day = compare_field f.tm_mday p.tm_mday in
    let hour = compare_field f.tm_hour p.tm_hour in
    let minute = compare_field f.tm_min p.tm_min in
    let year = compare_field f.tm_year p.tm_year in
    ap (λ r. year (month (day (hour (minute r))))) (compare_sec f.tm_sec p.tm_sec)
    ∙ ap (λ r. year (month (day (hour r))))
        (compare_min f.tm_min p.tm_min f.tm_sec p.tm_sec (omega arith) (omega arith))
    ∙ ap (λ r. year (month (day r)))
        (compare_hour f.tm_hour p.tm_hour _ _ (omega arith) (omega arith))
    ∙ ap (λ r. year (month r)) (compare_mday f.tm_mday p.tm_mday _ _ (omega arith) (omega arith))
    ∙ ap year (compare_mon f.tm_mon p.tm_mon _ _ (omega arith) (omega arith))
    ∙ compare_year f.tm_year p.tm_year _ _ (omega arith) (omega arith)
    ∙ ap2 ltb (stamp-fields p) (stamp-fields f)
  where
    stamp-fields : (t : Tm) → t.tm_year * 33730560 + month_day t ≡ stamp t
    stamp-fields t = omega arith

    ap2 : (g : ℕ → ℕ → Bool) {a b c d : ℕ} → a ≡ b → c ≡ d → g a c ≡ g b d
    ap2 g {a} {b} {c} {d} e k = ap (λ x. g x c) e ∙ ap (g b) k

in_range_le : (lo hi : ℕ) (x : ℤ) (n : ℕ) → in_range lo hi x ≡ some n → (lo ≤ n) × (n ≤ hi)
unfolding in_range
in_range_le lo hi (pos m) n h = ground arith
in_range_le lo hi (negsuc m) n h = cc

month2int_le : (s : Bytes) (n : ℕ) → month2int s ≡ some n → n ≤ 11
unfolding month2int
month2int_le s n h = ground arith

abbrev IsAccepted : Tm → Type 0
IsAccepted t = IsDate t × (70 ≤ t.tm_year) × (t.tm_year ≤ 120)

some_injective : {t u : Tm} → some t ≡ some u → t ≡ u
some_injective h = cc

check_date-IsAccepted : (parsed : Scan) (t : Tm) → check_date parsed ≡ some t → IsAccepted t
check_date-IsAccepted parsed t h =
    let (mon, month, h) = >>=-eq-some (month2int parsed.monthname) _ h in
    let (sec, second, h) = >>=-eq-some (in_range 0 59 parsed.second) _ h in
    let (min, minute, h) = >>=-eq-some (in_range 0 59 parsed.minute) _ h in
    let (hour, hours, h) = >>=-eq-some (in_range 0 23 parsed.hour) _ h in
    let (mday, day, h) = >>=-eq-some (in_range 1 31 parsed.day) _ h in
    let (year, years, h) = >>=-eq-some (in_range 70 120 (adjust_year parsed.year)) _ h in
    let m = month2int_le parsed.monthname mon month in
    let s = in_range_le 0 59 parsed.second sec second in
    let i = in_range_le 0 59 parsed.minute min minute in
    let o = in_range_le 0 23 parsed.hour hour hours in
    let d = in_range_le 1 31 parsed.day mday day in
    let y = in_range_le 70 120 (adjust_year parsed.year) year years in
    subst IsAccepted (some_injective h) (
      record { sec_le = omega (arith, s); min_le = i.1; hour_le = o.1; mday_le = d.1; mon_le = m },
      y.0,
      y.1,
    )

otherwise : (b : Bool) (o : Option Tm) {t : Tm} → (if b then none else o) ≡ some t → o ≡ some t
otherwise true o h = absurd (cc)
otherwise false o h = h

-- What date_to_tm accepts has its fields in their ranges, the year from 1970 to 2020.
pub date_to_tm-IsDate :
    (sscanf : Format → Bytes → Option Scan) (cmtime : Bytes) (t : Tm)
    → date_to_tm sscanf cmtime ≡ some t
    → IsDate t × (70 ≤ t.tm_year) × (t.tm_year ≤ 120)
unfolding date_to_tm
date_to_tm-IsDate sscanf cmtime t h =
    let passed = otherwise (not (peek (skip_weekday cmtime) == b' ')) _ h in
    let (parsed, _, checked) =
      >>=-eq-some (scan_date sscanf (skip_weekday cmtime) cmtime) check_date passed in
    check_date-IsAccepted parsed t checked

-- Where date_to_tm reads a date from the header, and the fields of the file's time are in their
-- ranges, modified_since says whether the file's time is later; where it reads none it reports an
-- error.
pub modified_since-stamp :
    (sscanf : Format → Bytes → Option Scan) (file_gmt : Tm) (header : Bytes)
    → IsDate file_gmt
    → ((date_to_tm sscanf header ≡ none) × (modified_since sscanf file_gmt header ≡ none))
      ⊎ ((t : Tm) × (date_to_tm sscanf header ≡ some t)
          × (70 ≤ t.tm_year)
          × (t.tm_year ≤ 120)
          × (modified_since sscanf file_gmt header ≡ some (ltb (stamp t) (stamp file_gmt))))
unfolding modified_since
modified_since-stamp sscanf file_gmt header h = elim (Option-cases (date_to_tm sscanf header)) [
  | inl absent ↦ inl (absent, rw absent refl)
  | inr (t, read) ↦
      let (valid, early, late) = date_to_tm-IsDate sscanf header t read in
      inr (t, read, early, late, rw read (ap some (is_later-stamp file_gmt t h valid)))
]
