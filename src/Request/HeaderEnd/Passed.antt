-- ===== src/Request/HeaderEnd/Passed.antt =====
-- What a request has passed when process_header_end of src/request.c lets it be answered.
use yabwf.Prelude.{
  ℕ, ◌≡◌, refl, ◌⊎◌, inl, inr, Bool, true, false, not, Option, some, ◌==◌, ==_iff, if_split, Bytes,
  codes, contains, peek, arith,
}
use yabwf.Util.Pathname.{clean_pathname}
use yabwf.Util.Pathname.Safe.{clean_pathname_safe}
use yabwf.Util.Host.{check_host}
use yabwf.Util.Uri.{unescape_uri}
use yabwf.Request.HeaderEnd.{
  Header, Ending, bad_request, error, forbidden, closed, post, init_cgi, init_get, Site, set_host,
  and_then, is_denied, is_host_length, host_given, without_port, strlower, is_post, choose_answer,
  process_header_end,
}

-- The URI is an absolute path without empty and dot components in front of a slash.
abbrev pub IsCleanUri : Bytes → Type 0
IsCleanUri uri =
    (peek uri ≡ b'/')
    × (contains (codes "//") uri ≡ false)
    × (contains (codes "/./") uri ≡ false)
    × (contains (codes "/../") uri ≡ false)

-- Where hosts are served by name, the request has a host name that check_host takes.
abbrev pub HasHost : Site → Header → Type 0
HasHost site req =
    (site.vhost_root ≡ false)
    ⊎ ((host : Bytes) × (req.host ≡ some host) × (is_host_length (check_host (some host)) ≡ true))

-- A request that is answered was translated from one with a clean URI and a host, and its file is not
-- denied.
abbrev pub IsPassed :
    (translate_uri : Header → Header × Bool)
    → (fnmatch : Bytes → Bytes → Bool) → Site
    → Header
    → Type 0
IsPassed translate_uri fnmatch site req =
    (given : Header) × ((translate_uri given).1 ≡ true)
    × IsCleanUri given.request_uri
    × HasHost site given
    × (is_denied fnmatch site.rules (translate_uri given).0.pathname ≡ false)
    × (req.pathname ≡ (translate_uri given).0.pathname)

-- An ending is a refusal, or the request has passed.
abbrev pub IsRefusedOrPassed :
    (translate_uri : Header → Header × Bool)
    → (fnmatch : Bytes → Bytes → Bool) → Site
    → Header × Ending
    → Type 0
IsRefusedOrPassed translate_uri fnmatch site (req, bad_request) = Unit
IsRefusedOrPassed translate_uri fnmatch site (req, error) = Unit
IsRefusedOrPassed translate_uri fnmatch site (req, forbidden) = Unit
IsRefusedOrPassed translate_uri fnmatch site (req, closed) = Unit
IsRefusedOrPassed translate_uri fnmatch site (req, post) = IsPassed translate_uri fnmatch site req
IsRefusedOrPassed translate_uri fnmatch site (req, init_cgi) =
    IsPassed translate_uri fnmatch site req
IsRefusedOrPassed translate_uri fnmatch site (req, init_get) =
    IsPassed translate_uri fnmatch site req

module _ (translate_uri : Header → Header × Bool) (fnmatch : Bytes → Bytes → Bool) (fd : ℕ)
    (set : Bool) (site : Site) where
  answer-IsPassed :
      (given : Header)
      → IsCleanUri given.request_uri
      → HasHost site given
      → IsRefusedOrPassed translate_uri fnmatch site
          (choose_answer fnmatch fd set site (translate_uri given))
  unfolding choose_answer
  answer-IsPassed given clean host =
      let P = IsRefusedOrPassed translate_uri fnmatch site in
      let (req, translated) = translate_uri given in
      if_split P (not translated) (λ _. tt)
        (λ done.
          if_split P (is_denied fnmatch site.rules req.pathname) (λ _. tt)
            (λ allowed.
              let passed : IsPassed translate_uri fnmatch site req =
                (given, ground arith, clean, host, allowed, refl) in
              if_split P (is_post req.method)
                (λ _. if_split P (fd == 0) (λ _. tt) (λ _. if_split P set (λ _. passed) (λ _. tt)))
                (λ _. if_split P req.cgi_type (λ _. passed) (λ _. passed))))

  host-IsPassed :
      (cleaned : Header)
      → IsCleanUri cleaned.request_uri
      → IsRefusedOrPassed translate_uri fnmatch site (
          and_then
            (λ hosted. choose_answer fnmatch fd set site (translate_uri hosted))
            (set_host site cleaned))
  unfolding set_host
  host-IsPassed cleaned clean =
      let P : Header × Option Ending → Type 0 = λ r.
        IsRefusedOrPassed translate_uri fnmatch site
          (and_then (λ hosted. choose_answer fnmatch fd set site (translate_uri hosted)) r) in
      let host = without_port (strlower (host_given site cleaned.header_host)) in
      let hosted : Header = record cleaned { host = some host } in
      if_split P (not site.vhost_root)
        (λ none_served. answer-IsPassed cleaned clean (inl (ground arith)))
        (λ _.
          if_split P (not site.room) (λ _. tt)
            (λ _.
              if_split P (is_host_length (check_host (some host)))
                (λ good. answer-IsPassed hosted clean (inr (host, refl, good))) (λ _. tt)))

-- Only a request that has passed is answered by a file, a program or the reading of its body: what
-- translate_uri got began with '/', held no "//", "/./" or "/../" and had a host name that check_host
-- takes where hosts are served by name; translate_uri took it, and the rules do not deny the file it
-- named. So whatever translate_uri does and the client sent.
pub process_header_end-IsPassed :
    (translate_uri : Header → Header × Bool) (fnmatch : Bytes → Bytes → Bool) (fd : ℕ) (set : Bool)
    (site : Site) (req : Header)
    → IsRefusedOrPassed translate_uri fnmatch site
        (process_header_end translate_uri fnmatch fd set site req)
unfolding process_header_end
process_header_end-IsPassed translate_uri fnmatch fd set site req =
    let P : Header × Option Ending → Type 0 = λ r. IsRefusedOrPassed translate_uri fnmatch site (
      and_then
        (λ cleaned.
          and_then (λ hosted. choose_answer fnmatch fd set site (translate_uri hosted))
            (set_host site cleaned))
        r) in
    let r = unescape_uri true req.request_uri in
    let decoded : Header = record req { request_uri = r.uri; query_string = r.query } in
    let cleaned : Header = record decoded { request_uri = clean_pathname r.uri } in
    let (slashes, dot, dots) = clean_pathname_safe r.uri in
    if_split P (not req.logline) (λ _. tt)
      (λ _.
        if_split P (not r.success) (λ _. tt)
          (λ _.
            if_split P (peek (clean_pathname r.uri) == b'/')
              (λ slash.
                host-IsPassed translate_uri fnmatch fd set site cleaned
                  ((==_iff _ _).0 slash, slashes, dot, dots))
              (λ _. tt)))
