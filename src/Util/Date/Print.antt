-- ===== src/Util/Date/Print.antt =====
-- The text of rfc822_time_buf and what month2int and modified_since make of it.
use yabwf.Prelude.{
  ℕ, suc, ◌+◌, ◌*◌, ◌/◌, ◌%◌, ◌^◌, ◌≡◌, ◌≢◌, ◌<◌, ◌≤◌, refl, ap, ◌∙◌, sym, Bool, true, false, [],
  ◌∷◌, ◌++◌, Option, none, some, ◌==◌, arith, Bytes, codes, is_digit, length, take, drop,
  every_entry, table_entry,
}
use mathlib.Core.Path.{subst}
use yabwf.Util.Date.{Tm, month2int, two_digits, year_loop, month_tab, day_tab, rfc822_time_buf}
use yabwf.Util.Decimal.{digits_from}
use yabwf.Util.Date.Order.{IsDate}

abbrev has_value : Option ℕ → ℕ → Bool
has_value (some n) m = n == m
has_value none m = false

abbrev is_month : ℕ → Bool
is_month mon = has_value (month2int (take 4 (drop (4 * mon) month_tab))) mon

month_table : every_entry 12 is_month ≡ true
unfolding every_entry month2int
month_table = refl

has_value_sound : (o : Option ℕ) (m : ℕ) → has_value o m ≡ true → o ≡ some m
has_value_sound (some n) m h = ap some (ground arith)
has_value_sound none m h = cc

-- month2int reads each entry of month_tab as its number.
month2int-month_tab :
    (mon : ℕ) → mon < 12 → month2int (take 4 (drop (4 * mon) month_tab)) ≡ some mon
month2int-month_tab mon h = has_value_sound _ mon (table_entry 12 is_month mon month_table h)

-- A list of four.
abbrev Four : Bytes → Type 0
Four s = (a : ℕ) × (b : ℕ) × (c : ℕ) × (d : ℕ) × (s ≡ a ∷ b ∷ c ∷ d ∷ [])

four : (s : Bytes) → length s ≡ 4 → Four s
four [] h = absurd (omega arith)
four (a ∷ []) h = absurd (omega arith)
four (a ∷ b ∷ []) h = absurd (omega arith)
four (a ∷ b ∷ c ∷ []) h = absurd (omega arith)
four (a ∷ b ∷ c ∷ d ∷ []) h = (a, b, c, d, refl)
four (a ∷ b ∷ c ∷ d ∷ e ∷ s) h = absurd (omega arith)

year_loop-digit :
    (fuel a : ℕ) (s : Bytes)
    → a ≢ 0
    → year_loop (suc fuel) a s ≡ year_loop fuel (a / 10) ((b'0' + a % 10) ∷ s)
year_loop-digit fuel a s h = ground arith

year_loop_four :
    (a : ℕ) (s : Bytes)
    → 1000 ≤ a
    → a ≤ 9999
    → year_loop 10 a s
      ≡ (b'0' + a / 10 / 10 / 10 % 10)
        ∷ (b'0' + a / 10 / 10 % 10)
        ∷ (b'0' + a / 10 % 10)
        ∷ (b'0' + a % 10)
        ∷ s
year_loop_four a s h k =
    year_loop-digit 9 a s (omega arith)
    ∙ year_loop-digit 8 (a / 10) _ (omega arith)
    ∙ year_loop-digit 7 (a / 10 / 10) _ (omega arith)
    ∙ year_loop-digit 6 (a / 10 / 10 / 10) _ (omega arith)
    ∙ year_loop_end
  where
    year_loop_end : {s : Bytes} → year_loop 6 (a / 10 / 10 / 10 / 10) s ≡ s
    year_loop_end = ground arith

digit : (n k : ℕ) (s : Bytes) → k < 10 → digits_from n ((b'0' + k) ∷ s) ≡ digits_from (n * 10 + k) s
digit n k s h =
    let is_one : is_digit (b'0' + k) ≡ true = ground arith in
    rw is_one (ap (λ m. digits_from m s) (omega arith))

digits_two : (a : ℕ) → a < 100 → digits_from 0 (two_digits a []) ≡ a
digits_two a h =
    digit 0 (a / 10) ((b'0' + a % 10) ∷ []) (omega arith)
    ∙ digit (0 * 10 + a / 10) (a % 10) [] (omega arith)
    ∙ omega arith

digits_four :
    (a : ℕ)
    → a ≤ 9999
    → digits_from 0 (
        (b'0' + a / 10 / 10 / 10 % 10)
        ∷ (b'0' + a / 10 / 10 % 10)
        ∷ (b'0' + a / 10 % 10)
        ∷ (b'0' + a % 10)
        ∷ [])
      ≡ a
digits_four a h =
    let d3 = a / 10 / 10 / 10 % 10 in
    let d2 = a / 10 / 10 % 10 in
    let d1 = a / 10 % 10 in
    digit 0 d3 ((b'0' + d2) ∷ (b'0' + d1) ∷ (b'0' + a % 10) ∷ []) (omega arith)
    ∙ digit (0 * 10 + d3) d2 ((b'0' + d1) ∷ (b'0' + a % 10) ∷ []) (omega arith)
    ∙ digit ((0 * 10 + d3) * 10 + d2) d1 ((b'0' + a % 10) ∷ []) (omega arith)
    ∙ digit (((0 * 10 + d3) * 10 + d2) * 10 + d1) (a % 10) [] (omega arith)
    ∙ omega arith

has_four : (n : ℕ) → (n == 4) ≡ true → n ≡ 4
has_four n h = ground arith

length-day : (wday : ℕ) → wday < 7 → length (take 4 (drop (wday * 4) day_tab)) ≡ 4
unfolding every_entry
length-day wday h =
    has_four _ (table_entry 7 (λ w. length (take 4 (drop (w * 4) day_tab)) == 4) wday refl h)

length-month : (mon : ℕ) → mon < 12 → length (take 4 (drop (4 * mon) month_tab)) ≡ 4
unfolding every_entry
length-month mon h =
    has_four _ (table_entry 12 (λ m. length (take 4 (drop (4 * m) month_tab)) == 4) mon refl h)

-- The fields at the places that RFC 1123 gives them.
abbrev pub Reads : Tm → Bytes → Type 0
Reads t s =
    (length s ≡ 29)
    × (digits_from 0 (take 2 (drop 5 s)) ≡ t.tm_mday)
    × (month2int (take 4 (drop 8 s)) ≡ some t.tm_mon)
    × (digits_from 0 (take 4 (drop 12 s)) ≡ 1900 + t.tm_year)
    × (digits_from 0 (take 2 (drop 17 s)) ≡ t.tm_hour)
    × (digits_from 0 (take 2 (drop 20 s)) ≡ t.tm_min)
    × (digits_from 0 (take 2 (drop 23 s)) ≡ t.tm_sec)

-- For a time whose fields are in their ranges and whose year has at most four digits, rfc822_time_buf
-- writes exactly 29 bytes, and the day, the month, the year, the hour, the minute and the second can
-- be read back at the places that RFC 1123 gives them, the month by month2int.
pub rfc822_time_buf-Reads :
    (t : Tm) → IsDate t → t.tm_wday < 7 → t.tm_year ≤ 8099 → Reads t (rfc822_time_buf t)
unfolding rfc822_time_buf
rfc822_time_buf-Reads t h w y =
    let year = 1900 + t.tm_year in
    let small : (1900 + t.tm_year) % 2 ^ 32 ≡ year = omega arith in
    let (d0, d1, d2, d3, day) = four _ (length-day t.tm_wday w) in
    let (m0, m1, m2, m3, month) = four _ (length-month t.tm_mon (omega arith)) in
    let time =
      two_digits t.tm_hour
        (b':' ∷ two_digits t.tm_min (b':' ∷ two_digits t.tm_sec (codes " GMT"))) in
    let layout : Bytes → Bytes → Bytes → Bytes =
      λ d m r. d ++ b' ' ∷ two_digits t.tm_mday (b' ' ∷ (m ++ r)) in
    let written = year_loop 10 ((1900 + t.tm_year) % 2 ^ 32) (b' ' ∷ time) in
    let D = d0 ∷ d1 ∷ d2 ∷ d3 ∷ [] in
    let M = m0 ∷ m1 ∷ m2 ∷ m3 ∷ [] in
    let text =
      ap (λ d. layout d (take 4 (drop (4 * t.tm_mon) month_tab)) written) day
      ∙ ap (λ m. layout D m written) month
      ∙ ap (layout D M) (
          ap (λ a. year_loop 10 a (b' ' ∷ time)) small
          ∙ year_loop_four year (b' ' ∷ time) (omega arith) (omega arith)) in
    subst (Reads t) (sym text) (
      refl,
      digits_two t.tm_mday (omega arith),
      sym (ap month2int month) ∙ month2int-month_tab t.tm_mon (omega arith),
      digits_four year (omega arith),
      digits_two t.tm_hour (omega arith),
      digits_two t.tm_min (omega arith),
      digits_two t.tm_sec (omega arith),
    )
