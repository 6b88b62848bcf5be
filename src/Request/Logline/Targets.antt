-- ===== src/Request/Logline/Targets.antt =====
-- Request lines as a client prints them, and where their words end.

use yabwf.Prelude.{
  ℕ, zero, suc, ◌+◌, ◌≤◌, ◌<◌, ◌≡◌, refl, Bool, true, false, not, [], ◌∷◌, ◌++◌, Option, some, ◌==◌,
  Bytes, Lacks, codes, starts_with, length, arith,
}
use yabwf.Cgi.{HttpMethod, method_name}
use yabwf.Request.Options.{KaStatus, ka_active, max_header_length}
use yabwf.Request.Logline.{
  HttpVersion, http09, http10, http11, Line, skip_spaces, word, after_word, host_part, after_host,
  server_method,
}

-- What a client asks for: a path, or a path on a host.
pub data Target : Type 0 where
  path : Bytes → Target
  url : (host path : Bytes) → Target

abbrev pub target_text : Target → Bytes
target_text (path uri) = uri
target_text (url host uri) = server_method ++ host ++ b'/' ∷ uri

abbrev pub uri_of : Target → Bytes
uri_of (path uri) = uri
uri_of (url host uri) = b'/' ∷ uri

abbrev pub host_of : Target → Option Bytes → Option Bytes
host_of (path uri) old = old
host_of (url host uri) old = some host

-- The text of a path is a word and no URL, the one of a host a word without slash or terminator.
abbrev pub IsTarget : Target → Type 0
IsTarget (path uri) =
    Lacks b' ' uri
    × (0 < length uri)
    × (length uri ≤ max_header_length)
    × (starts_with server_method uri ≡ false)
IsTarget (url host uri) =
    Lacks b' ' host
    × Lacks b'/' host
    × Lacks 0 host
    × (0 < length host)
    × Lacks b' ' uri
    × (length host + length uri + 8 ≤ max_header_length)

abbrev pub version_text : HttpVersion → Bytes
version_text http09 = codes "HTTP/0.9"
version_text http10 = codes "HTTP/1.0"
version_text http11 = codes "HTTP/1.1"

abbrev pub version_numbers : HttpVersion → ℕ × ℕ
version_numbers http09 = (0, 9)
version_numbers http10 = (1, 0)
version_numbers http11 = (1, 1)

abbrev pub spaces : ℕ → Bytes
spaces zero = []
spaces (suc n) = b' ' ∷ spaces n

-- A request line, with more spaces than it needs.
abbrev pub print_logline : (more more' : ℕ) → HttpMethod → Target → HttpVersion → Bytes
print_logline more more' method target version =
    method_name method
    ++ (b' '
        ∷ (spaces more ++ (target_text target ++ (b' ' ∷ (spaces more' ++ version_text version)))))

-- HTTP/1.1 asks for a connection that is kept.
abbrev pub kept_by : HttpVersion → KaStatus → KaStatus
kept_by http09 old = old
kept_by http10 old = old
kept_by http11 old = ka_active

-- What a request line sets.
abbrev pub line_fields : (count : ℕ) → HttpMethod → Target → HttpVersion → Line → Line
line_fields count method target version req = record {
  method = method;
  http_version = version;
  request_uri = uri_of target;
  header_host = host_of target req.header_host;
  keepalive = kept_by version req.keepalive;
  cgi_env_index = count;
}

-- The text starts with another byte than a space.
abbrev pub starts_word : Bytes → Bool
starts_word [] = false
starts_word (c ∷ s) = not (c == b' ')

pub skip-spaces : (n : ℕ) (s : Bytes) → starts_word s ≡ true → skip_spaces (spaces n ++ s) ≡ s
skip-spaces zero [] h = absurd (cc)
skip-spaces zero (c ∷ s) h = ground arith
skip-spaces (suc n) s h = skip-spaces n s h

pub word-append : (u s : Bytes) → Lacks b' ' u → word (u ++ b' ' ∷ s) ≡ u
word-append [] s h = refl
word-append (c ∷ u) s (hc, h) = let rest = word-append u s h in ground arith

pub after_word-append : (u s : Bytes) → Lacks b' ' u → after_word (u ++ b' ' ∷ s) ≡ b' ' ∷ s
after_word-append [] s h = refl
after_word-append (c ∷ u) s (hc, h) = let rest = after_word-append u s h in ground arith

pub host_part-append : (h s : Bytes) → Lacks b' ' h → Lacks b'/' h → host_part (h ++ b'/' ∷ s) ≡ h
host_part-append [] s l m = refl
host_part-append (c ∷ h) s (hc, l) (hm, m) = let rest = host_part-append h s l m in ground arith

pub after_host-append :
    (h s : Bytes) → Lacks b' ' h → Lacks b'/' h → after_host (h ++ b'/' ∷ s) ≡ b'/' ∷ s
after_host-append [] s l m = refl
after_host-append (c ∷ h) s (hc, l) (hm, m) = let rest = after_host-append h s l m in ground arith
