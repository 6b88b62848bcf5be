-- ===== src/Request/Logline/Printed.antt =====
-- What process_logline of src/request.c reads from a printed request line.
use mathlib.Core.Path.{subst, ap₂}
use yabwf.Prelude.{
  ℕ, ◌≤◌, ◌<◌, ◌≡◌, ◌≢◌, refl, sym, ap, ◌∙◌, Bool, true, false, ◌||◌, not, [], ◌∷◌, ◌++◌,
  append_assoc, Option, some, ltb, ◌==◌, if◌then◌else◌, Bytes, Lacks, starts_with, peek, length,
  length-append, All-append, arith,
}
use yabwf.Cgi.{HttpMethod, m_get, m_head, m_post, method_name}
use yabwf.Request.Options.{max_header_length}
use yabwf.Request.Logline.{
  HttpVersion, http09, http10, http11, Line, ok, read_method, word, after_host, server_method,
  scan_version, read_version, is_head09, end_logline, read_uri, versioned, read_target,
  behind_method, process_logline,
}
use yabwf.Request.Logline.Targets.{
  path, url, Target, target_text, uri_of, host_of, IsTarget, version_text, version_numbers, spaces,
  print_logline, kept_by, line_fields, starts_word, skip-spaces, word-append, after_word-append,
  host_part-append, after_host-append,
}

read_method-print :
    (method : HttpMethod) (s : Bytes)
    → read_method (method_name method ++ b' ' ∷ s) ≡ some (method, s)
unfolding read_method
read_method-print m_get s = refl
read_method-print m_head s = refl
read_method-print m_post s = refl

long_line :
    (method : HttpMethod) (s : Bytes)
    → 0 < length s
    → ltb (length (method_name method ++ b' ' ∷ s)) 5 ≡ false
long_line m_get s h = ground arith
long_line m_head s h = ground arith
long_line m_post s h = ground arith

version_text-starts : (version : HttpVersion) → starts_word (version_text version) ≡ true
version_text-starts http09 = refl
version_text-starts http10 = refl
version_text-starts http11 = refl

-- A request with the version set.
abbrev with_version : HttpVersion → Line → Line
with_version version req = record req {
  http_version = version;
  keepalive = kept_by version req.keepalive;
}

scan_version-text :
    (scan : Bytes → Option (ℕ × ℕ)) (version : HttpVersion) (req : Line)
    → scan (version_text version) ≡ some (version_numbers version)
    → scan_version scan (version_text version) req ≡ (with_version version req, ok)
scan_version-text scan http09 req h = rw (scan_version, h) refl
scan_version-text scan http10 req h = rw (scan_version, h) refl
scan_version-text scan http11 req h = rw (scan_version, h) refl

skip_spaces-version :
    (scan : Bytes → Option (ℕ × ℕ)) (more : ℕ) (version : HttpVersion) (req : Line)
    → scan (version_text version) ≡ some (version_numbers version)
    → read_version scan (b' ' ∷ spaces more ++ version_text version) req
      ≡ (with_version version req, ok)
skip_spaces-version scan more version req h =
    subst (λ s. scan_version scan s req ≡ (with_version version req, ok))
      (sym (skip-spaces more (version_text version) (version_text-starts version)))
      (scan_version-text scan version req h)

-- The first byte of a host.
host_starts :
    (host s : Bytes)
    → 0 < length host
    → Lacks b' ' host
    → Lacks b'/' host
    → Lacks 0 host
    → (peek (host ++ s) == b'/' || peek (host ++ s) == b' ' || peek (host ++ s) == 0) ≡ false
host_starts [] s long l m z = absurd (omega (arith, long))
host_starts (c ∷ h) s long (l, ls) (m, ms) (z, zs) = ground arith

-- A space behind a text ends what it can start with.
starts_with-space :
    (p uri s : Bytes)
    → Lacks b' ' p
    → starts_with p uri ≡ false
    → starts_with p (uri ++ b' ' ∷ s) ≡ false
starts_with-space [] uri s lacks plain = absurd (cc)
starts_with-space (a ∷ p) [] s (ha, lacks) plain = ground arith
starts_with-space (a ∷ p) (c ∷ uri) s (ha, lacks) plain =
    let rest = starts_with-space p uri s lacks in ground arith

server_method-Lacks : Lacks b' ' server_method
server_method-Lacks =
    (λ e. cc, (λ e. cc, (λ e. cc, (λ e. cc, (λ e. cc, (λ e. cc, (λ e. cc, tt)))))))

if_false {ℓ} : {A : Type ℓ} (b : Bool) (x y : A) → b ≡ false → (if b then x else y) ≡ y
if_false true x y h = absurd (cc)
if_false false x y h = refl

read_uri-path :
    (uri s : Bytes) (req : Line)
    → Lacks b' ' uri
    → starts_with server_method uri ≡ false
    → read_uri (uri ++ b' ' ∷ s) req ≡ (record req { request_uri = uri }, ok)
read_uri-path uri s req h plain =
    let other = starts_with-space server_method uri s server_method-Lacks plain in
    if_false (starts_with server_method (uri ++ b' ' ∷ s)) _ _ other
    ∙ ap (λ u. (record req { request_uri = u }, ok)) (word-append uri s h)

read_uri-url :
    (host uri s : Bytes) (req : Line)
    → IsTarget (url host uri)
    → read_uri (server_method ++ (host ++ (b'/' ∷ (uri ++ b' ' ∷ s)))) req
      ≡ (record req { request_uri = b'/' ∷ uri; header_host = some host }, ok)
read_uri-url host uri s req (hs, hp, hz, long, us, short) =
    let behind = uri ++ b' ' ∷ s in
    let text = host ++ b'/' ∷ behind in
    let at_slash = after_host-append host behind hs hp in
    if_false (peek text == b'/' || peek text == b' ' || peek text == 0) _ _
      (host_starts host (b'/' ∷ behind) long hs hp hz)
    ∙ if_false (not (peek (after_host text) == b'/')) _ _ (ap (λ t. not (peek t == b'/')) at_slash)
    ∙ ap₂ (λ u h. (record req { request_uri = u; header_host = some h }, ok))
        (ap word at_slash ∙ ap (◌∷◌ b'/') (word-append uri s us))
        (host_part-append host behind hs hp)

-- What read_uri makes of a target, in front of a space.
read_uri-text :
    (target : Target) (s : Bytes) (req : Line)
    → IsTarget target
    → read_uri (target_text target ++ b' ' ∷ s) req ≡ (
      record req { request_uri = uri_of target; header_host = host_of target req.header_host },
      ok,
    )
read_uri-text (path uri) s req (lacks, long, short, plain) = read_uri-path uri s req lacks plain
read_uri-text (url host uri) s req h =
    let text = ap (λ t. server_method ++ t) (append_assoc host (b'/' ∷ uri) (b' ' ∷ s)) in
    ap (λ t. read_uri t req) text ∙ read_uri-url host uri s req h

slash_no_space : ◌≢◌ {A = ℕ} b'/' b' '
slash_no_space e = cc

target_text-Lacks : (target : Target) → IsTarget target → Lacks b' ' (target_text target)
target_text-Lacks (path uri) h = h.0
target_text-Lacks (url host uri) (hs, hp, hz, long, us, short) =
    All-append _ server_method (host ++ b'/' ∷ uri) server_method-Lacks
      (All-append _ host (b'/' ∷ uri) hs (slash_no_space, us))

length-target_text :
    (target : Target) → IsTarget target → length (target_text target) ≤ max_header_length
length-target_text (path uri) (lacks, long, short, plain) = short
length-target_text (url host uri) (hs, hp, hz, long, us, short) =
    omega (arith, short, length-append host (b'/' ∷ uri))

target_text-starts :
    (target : Target) (s : Bytes) → IsTarget target → starts_word (target_text target ++ s) ≡ true
target_text-starts (path []) s (lacks, long, short, plain) = absurd (omega (arith, long))
target_text-starts (path (c ∷ uri)) s ((other, lacks), long, short, plain) = ground arith
target_text-starts (url host uri) s h = refl

fits_false : (s : Bytes) → length s ≤ max_header_length → ltb max_header_length (length s) ≡ false
fits_false s h = ground arith

read_target-text :
    (scan : Bytes → Option (ℕ × ℕ)) (count more : ℕ) (target : Target) (version : HttpVersion)
    (req : Line)
    → IsTarget target
    → scan (version_text version) ≡ some (version_numbers version)
    → is_head09 req.method version ≡ false
    → read_target scan count
        (target_text target ++ (b' ' ∷ (spaces more ++ version_text version)))
        req
      ≡ (line_fields count req.method target version req, ok)
unfolding read_target
read_target-text scan count more target version req h scanned served =
    let behind = spaces more ++ version_text version in
    let stop = target_text target ++ b' ' ∷ behind in
    let lacks = target_text-Lacks target h in
    let next : Line = record req {
      request_uri = uri_of target;
      header_host = host_of target req.header_host;
    } in
    let short : ltb max_header_length (length (word stop)) ≡ false =
      subst (λ w. ltb max_header_length (length w) ≡ false)
        (sym (word-append (target_text target) behind lacks))
        (fits_false (target_text target) (length-target_text target h)) in
    if_false (ltb max_header_length (length (word stop))) _ _ short
    ∙ ap (end_logline count) (
        ap₂ (versioned scan) (after_word-append (target_text target) behind lacks)
          (read_uri-text target behind req h)
        ∙ skip_spaces-version scan more version next scanned)
    ∙ if_false (is_head09 req.method version) _ _ served

-- A request line of GET, HEAD or POST, a target and HTTP/0.9, HTTP/1.0 or HTTP/1.1, with any spaces
-- between them, is read as that method, version and path, the host of a URL is taken for the header's,
-- and HTTP/1.1 asks for a kept connection, if the scan finds the version's numbers and it is not a HEAD
-- of HTTP/0.9. The target has at most 1,024 bytes and no space, and is a path that is not empty and does
-- not begin as a URL does, or a URL whose host is not empty and has no slash and no terminator.
pub process_logline-print :
    (scan : Bytes → Option (ℕ × ℕ)) (count more more' : ℕ) (method : HttpMethod) (target : Target)
    (version : HttpVersion) (req : Line)
    → IsTarget target
    → scan (version_text version) ≡ some (version_numbers version)
    → is_head09 method version ≡ false
    → process_logline scan count (print_logline more more' method target version) req
      ≡ (line_fields count method target version req, ok)
unfolding process_logline
process_logline-print scan count more more' method target version req h scanned served =
    let tail = b' ' ∷ (spaces more' ++ version_text version) in
    let text = target_text target ++ tail in
    let set : Line = record req { method = method; http_version = http10 } in
    let nonempty : 0 < length (spaces more ++ text) =
      omega (arith, length-append (spaces more) text, length-append (target_text target) tail) in
    if_false (ltb (length (print_logline more more' method target version)) 5) _ _
      (long_line method (spaces more ++ text) nonempty)
    ∙ ap (λ f. behind_method scan count f req) (read_method-print method (spaces more ++ text))
    ∙ ap (λ s. read_target scan count s set)
        (skip-spaces more text (target_text-starts target tail h))
    ∙ read_target-text scan count more' target version set h scanned served
