-- ===== src/Examples/Texts.antt =====
-- The theorems on src/util.c and src/escape.c at concrete inputs.
use yabwf.Prelude.{
  ◌≡◌, ◌<◌, ◌↔◌, ◌∷◌, inr, refl, true, false, not, some, none, codes, contains, arith, length,
  if◌then◌else◌,
}
use yabwf.Util.Pathname.{clean_pathname}
use yabwf.Util.Pathname.Safe.{clean_pathname_safe}
use yabwf.Util.Decimal.{int_limit, simple_itoa, boa_atoi}
use yabwf.Util.Decimal.Reading.{boa_atoi_iff}
use yabwf.Util.Host.{is_host, check_host, check_host_lem}
use yabwf.Util.Log.{IsSafe, log_sanitize_buf_size, sanitize_log_string, sanitize_log_string-IsSafe}
use yabwf.Util.Uri.{unescape_uri}
use yabwf.Util.Uri.Laws.{IsPrintable, unescape_uri-IsPrintable}
use yabwf.Escape.{escape_byte, needs_escape, build_needs_escape, escape_string}
use yabwf.Escape.Table.{no_escape, needs_escape-build}
use yabwf.Escape.RoundTrip.{unescape_uri-escape_string}

clean_pathname_safe_example :
    (contains (codes "//") (clean_pathname (codes "/..//a")) ≡ false)
    × (contains (codes "/./") (clean_pathname (codes "/..//a")) ≡ false)
    × (contains (codes "/../") (clean_pathname (codes "/..//a")) ≡ false)
clean_pathname_safe_example = clean_pathname_safe (codes "/..//a")

boa_atoi_iff_example :
    (boa_atoi (λ v. none) (codes "80") ≡ some 80)
    ↔ (80 < int_limit) × (simple_itoa 80 ≡ some (codes "80"))
boa_atoi_iff_example = boa_atoi_iff (λ v. none) (codes "80") 80 (λ v r h. cc)

check_host_lem_example : check_host (some (b'w' ∷ codes "ww.boa.org")) ≡ (
    if is_host b'w' (codes "ww.boa.org") then some (length (b'w' ∷ codes "ww.boa.org")) else none)
check_host_lem_example = check_host_lem b'w' (codes "ww.boa.org")

sanitize_log_string-IsSafe_example :
    IsSafe (sanitize_log_string (some (codes "a\r\nb")))
    × (length (sanitize_log_string (some (codes "a\r\nb"))) < log_sanitize_buf_size)
sanitize_log_string-IsSafe_example = sanitize_log_string-IsSafe (some (codes "a\r\nb"))

unescape_uri-IsPrintable_example : IsPrintable (unescape_uri true (codes "/a%20b?q")).uri
unescape_uri-IsPrintable_example =
    unescape_uri-IsPrintable true (codes "/a%20b?q")
      (refl, (refl, (refl, (refl, (refl, (refl, (refl, (refl, tt))))))))

needs_escape-build_example : needs_escape 64 (build_needs_escape 64) b'%' ≡ not (no_escape b'%')
needs_escape-build_example = needs_escape-build 64 b'%' (inr refl)

unescape_uri-escape_string_example :
    unescape_uri true (codes "a%20b") ≡ record { success = true; uri = codes "a b"; query = none }
unfolding escape_string escape_byte build_needs_escape
unescape_uri-escape_string_example =
    unescape_uri-escape_string 64 false true true (codes "a b") (codes "a%20b") (inr refl)
      ((refl, omega arith), ((refl, omega arith), ((refl, omega arith), tt))) refl
