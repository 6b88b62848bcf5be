-- ===== src/Examples/Dates.antt =====
-- The theorems on the dates of src/util.c at concrete inputs.
use yabwf.Prelude.{◌≡◌, ◌≤◌, ◌⊎◌, refl, arith, Bytes, codes, Option, none, some, ltb, pos, true}
use yabwf.Util.Date.{Tm, Format, rfc1123, Scan, date_to_tm, modified_since, rfc822_time_buf}
use yabwf.Util.Date.Order.{IsDate, stamp, modified_since-stamp}
use yabwf.Util.Date.Print.{Reads, rfc822_time_buf-Reads}

-- Sun, 06 Nov 1994 08:49:37 GMT
abbrev sunday : Tm
sunday = record {
  tm_sec = 37;
  tm_min = 49;
  tm_hour = 8;
  tm_mday = 6;
  tm_mon = 10;
  tm_year = 94;
  tm_wday = 0;
}

sunday-IsDate : IsDate sunday
sunday-IsDate = record {
  sec_le = omega arith;
  min_le = omega arith;
  hour_le = omega arith;
  mday_le = omega arith;
  mon_le = omega arith;
}

abbrev sscanf : Format → Bytes → Option Scan
sscanf rfc1123 s = some (record {
  day = pos 6;
  monthname = codes "Nov";
  year = pos 1994;
  hour = pos 8;
  minute = pos 49;
  second = pos 36;
})
sscanf _ s = none

abbrev header : Bytes
header = codes "Sun, 06 Nov 1994 08:49:36 GMT"

modified_since-stamp_example :
    ((date_to_tm sscanf header ≡ none) × (modified_since sscanf sunday header ≡ none))
    ⊎ ((t : Tm) × (date_to_tm sscanf header ≡ some t)
        × (70 ≤ t.tm_year)
        × (t.tm_year ≤ 120)
        × (modified_since sscanf sunday header ≡ some (ltb (stamp t) (stamp sunday))))
modified_since-stamp_example = modified_since-stamp sscanf sunday header sunday-IsDate

a_second_later : modified_since sscanf sunday header ≡ some true
unfolding modified_since
a_second_later = refl

rfc822_time_buf-Reads_example : Reads sunday (codes "Sun, 06 Nov 1994 08:49:37 GMT")
unfolding rfc822_time_buf
rfc822_time_buf-Reads_example =
    rfc822_time_buf-Reads sunday sunday-IsDate (omega arith) (omega arith)
