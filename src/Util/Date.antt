-- ===== src/Util/Date.antt =====
-- The dates of src/util.c: month2int, date_to_tm, modified_since and rfc822_time_buf. sscanf and gmtime
-- are the C library's: what they give is an argument.
pub mod Order
pub mod Print
use yabwf.Prelude.{
  ℕ, zero, suc, ◌+◌, ◌-◌, ◌*◌, ◌/◌, ◌%◌, ◌^◌, ◌≡◌, refl, Bool, true, false, ◌&&◌, ◌||◌, not, List,
  [], ◌∷◌, ◌++◌, Option, none, some, ◌>>=◌, ltb, leb, within, ◌==◌, if◌then◌else◌, Bytes, codes,
  peek, take, drop, ℤ, pos, negsuc,
}

-- struct tm, from the year 1900 on; tm_yday and tm_isdst are 0 here and never read.
pub record Tm : Type 0 where
  pub tm_sec : ℕ
  pub tm_min : ℕ
  pub tm_hour : ℕ
  pub tm_mday : ℕ
  pub tm_mon : ℕ
  pub tm_year : ℕ
  pub tm_wday : ℕ

-- The four formats that date_to_tm tries, and what sscanf stores when it matches all six fields.
pub data Format : Type 0 where
  rfc1123 rfc1036 asctime nonstandard : Format

pub record Scan : Type 0 where
  pub day : ℤ
  pub monthname : Bytes
  pub year : ℤ
  pub hour : ℤ
  pub minute : ℤ
  pub second : ℤ

-- The result -1 is `none`. A name of fewer than three letters is read as if 0 bytes followed it, where
-- the code reads bytes of its buffer that nothing wrote.
unfoldable pub month2int : Bytes → Option ℕ
month2int monthname =
    let c = peek monthname in
    let second = peek (drop 1 monthname) in
    let third = peek (drop 2 monthname) in
    if c == b'A'
    then some (if second == b'p' then 3 else 7)
    else if c == b'D'
    then some 11
    else if c == b'F'
    then some 1
    else if c == b'J'
    then some (if second == b'a' then 0 else if third == b'n' then 5 else 6)
    else if c == b'M'
    then some (if third == b'r' then 2 else 4)
    else if c == b'N'
    then some 10
    else if c == b'O'
    then some 9
    else if c == b'S'
    then some 8
    else none

-- `if (year < 70) year += 100; if (year > 1900) year -= 1900;`
unfoldable pub adjust_year : ℤ → ℤ
adjust_year (pos y) =
    let y' = if ltb y 70 then y + 100 else y in pos (if ltb 1900 y' then y' - 1900 else y')
adjust_year (negsuc y) = if leb 100 y then negsuc (y - 100) else pos (99 - y)

-- A field that is in its range.
unfoldable pub in_range : (lo hi : ℕ) → ℤ → Option ℕ
in_range lo hi (pos n) = if within lo hi n then some n else none
in_range lo hi (negsuc n) = none

abbrev pub skip_weekday : Bytes → Bytes
skip_weekday [] = []
skip_weekday (c ∷ s) = let rest = skip_weekday s in if c == b' ' then c ∷ s else rest

-- The formats in turn; the last one reads from the start.
abbrev pub scan_date :
    (sscanf : Format → Bytes → Option Scan) → (cmtime cmtime_start : Bytes) → Option Scan
scan_date sscanf cmtime cmtime_start = elim (sscanf rfc1123 cmtime) [
  | some parsed ↦ some parsed
  | none ↦ elim (sscanf rfc1036 cmtime) [
    | some parsed ↦ some parsed
    | none ↦ elim (sscanf asctime cmtime) [
      | some parsed ↦ some parsed
      | none ↦ sscanf nonstandard cmtime_start
    ]
  ]
]

abbrev pub check_date : Scan → Option Tm
check_date parsed = do
  tm_mon ← month2int parsed.monthname
  tm_sec ← in_range 0 59 parsed.second
  tm_min ← in_range 0 59 parsed.minute
  tm_hour ← in_range 0 23 parsed.hour
  tm_mday ← in_range 1 31 parsed.day
  tm_year ← in_range 70 120 (adjust_year parsed.year)
  some (record {
    tm_sec = tm_sec;
    tm_min = tm_min;
    tm_hour = tm_hour;
    tm_mday = tm_mday;
    tm_mon = tm_mon;
    tm_year = tm_year;
    tm_wday = 0;
  })

-- The result -1 is `none`.
unfoldable pub date_to_tm : (sscanf : Format → Bytes → Option Scan) → Bytes → Option Tm
unfolding month2int in_range adjust_year
date_to_tm sscanf cmtime =
    let rest = skip_weekday cmtime in
    if not (peek rest == b' ') then none else scan_date sscanf rest cmtime >>= check_date

-- `if ((comp = a - b)) return (comp > 0);`, and what comes behind it.
abbrev pub compare_field : ℕ → ℕ → Bool → Bool
compare_field a b rest = if a == b then rest else ltb b a

-- `file_gmt` is what gmtime gives for the time of the file. The result -1 is `none`.
unfoldable pub modified_since :
    (sscanf : Format → Bytes → Option Scan) → (file_gmt : Tm) → Bytes → Option Bool
unfolding date_to_tm
modified_since sscanf file_gmt if_modified_since = do
  parsed_gmt ← date_to_tm sscanf if_modified_since
  some (
      compare_field file_gmt.tm_year parsed_gmt.tm_year (
        compare_field file_gmt.tm_mon parsed_gmt.tm_mon (
          compare_field file_gmt.tm_mday parsed_gmt.tm_mday (
            compare_field file_gmt.tm_hour parsed_gmt.tm_hour (
              compare_field file_gmt.tm_min parsed_gmt.tm_min
                (compare_field file_gmt.tm_sec parsed_gmt.tm_sec false))))))

abbrev pub month_tab : Bytes
month_tab = codes "Jan Feb Mar Apr May Jun Jul Aug Sep Oct Nov Dec "

abbrev pub day_tab : Bytes
day_tab = codes "Sun,Mon,Tue,Wed,Thu,Fri,Sat,"

-- Two digits in front of what is written.
abbrev pub two_digits : ℕ → Bytes → Bytes
two_digits a s = (b'0' + a / 10) ∷ (b'0' + a % 10) ∷ s

-- `while (a)`, on fuel: the digits of the year in front of what is written.
abbrev pub year_loop : (fuel : ℕ) → ℕ → Bytes → Bytes
year_loop zero a s = s
year_loop (suc fuel) a s =
    let written = year_loop fuel (a / 10) ((b'0' + a % 10) ∷ s) in if a == 0 then s else written

-- The code writes from the end of the buffer to its start. `t` is what gmtime gives for the time, or
-- for the current one if it is 0. Ten digits are enough for an unsigned int.
unfoldable pub rfc822_time_buf : Tm → Bytes
rfc822_time_buf t =
    let time =
      two_digits t.tm_hour
        (b':' ∷ two_digits t.tm_min (b':' ∷ two_digits t.tm_sec (codes " GMT"))) in
    let date = year_loop 10 ((1900 + t.tm_year) % 2 ^ 32) (b' ' ∷ time) in
    let month = take 4 (drop (4 * t.tm_mon) month_tab) ++ date in
    take 4 (drop (t.tm_wday * 4) day_tab) ++ b' ' ∷ two_digits t.tm_mday (b' ' ∷ month)
