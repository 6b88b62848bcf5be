-- ===== src/CgiHeader/Redirect.antt =====
-- Where a CGI program can send a client: the Location of src/cgi_header.c.
use yabwf.Prelude.{
  ℕ, ◌≡◌, Bool, true, false, not, ◌&&◌, ◌⊎◌, List, ◌==◌, if◌then◌else◌, Bytes, Lacks, codes,
  to_lower_byte, starts_with_caseless, drop,
}
use yabwf.Pipe.{c_string}
use yabwf.CgiStrip.{strip_cgi_prefix}
use yabwf.CgiHeader.{
  CgiOutput, Reply, passed, bad_request, moved_temp, head_done, bad_gateway, error, Asked,
  is_http09, or_start,
}

-- A URL of http or https in one line.
abbrev pub IsUrl : Bytes → Type 0
IsUrl url =
    ((starts_with_caseless (codes "http://") url ≡ true)
      ⊎ (starts_with_caseless (codes "https://") url ≡ true))
    × Lacks b'\n' url

-- The header starts with a Location.
abbrev pub locates : Bytes → Bool
locates header = starts_with_caseless (codes "Location: ") header

-- The answer to a header that starts with a Location: it is not sent on, but to HTTP/0.9, which gets no
-- header, and refused, or followed to a URL. That happens to no other header.
abbrev pub IsSafe : Asked → (header : Bytes) → Reply → Type 0
IsSafe asked header passed = (is_http09 asked.http_version ≡ true) ⊎ (locates header ≡ false)
IsSafe asked header bad_request = locates header ≡ true
IsSafe asked header (moved_temp url more_hdr) = (locates header ≡ true) × IsUrl url
IsSafe asked header head_done = locates header ≡ false
IsSafe asked header bad_gateway = Unit
IsSafe asked header error = locates header ≡ false

-- A byte of a prefix that is not `b` in either case.
abbrev IsOther : ℕ → ℕ → Type 0
IsOther b a = (to_lower_byte a == b) ≡ false

-- What is left of the output of a program behind the stripping.
abbrev pub behind_prefix : (strip : Bool) → (tokens : List Bytes) → Asked → CgiOutput → Bytes
behind_prefix strip tokens asked req =
    drop
      (if strip && not asked.nph
        then or_start (strip_cgi_prefix true tokens (c_string req.held))
        else 0)
      req.held
