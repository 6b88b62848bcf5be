-- ===== src/Request/Logline/Bounds.antt =====
-- What process_logline of src/request.c writes to request_uri, an array of MAX_HEADER_LENGTH + 1 bytes.
use yabwf.Prelude.{
  ℕ, ◌≤◌, ◌≡◌, refl, sym, true, false, ◌&&◌, ◌||◌, not, ◌⊎◌, inl, inr, [], ◌∷◌, Option, none, some,
  Option-cases, ltb, ◌==◌, if_split, Bytes, Lacks, starts_with, starts_with-append, peek, length,
  drop, arith,
}
use yabwf.Request.Options.{max_header_length}
use mathlib.Core.Path.{subst}
use yabwf.Request.Logline.{
  http10, Line, Reply, ok, bad_request, not_implemented, read_method, skip_spaces, word, after_word,
  after_host, server_method, set_version, scan_version, read_version, is_head09, end_logline,
  read_uri, versioned, read_target, behind_method, process_logline,
}
use yabwf.Cgi.{HttpMethod}

abbrev FitsUri : Bytes → Type 0
FitsUri uri = (length uri ≤ max_header_length) × Lacks b' ' uri

-- A request that goes on has a URI that fits; another has what it had, or one that fits.
abbrev IsCopied : (old : Bytes) → Line × Reply → Type 0
IsCopied old (req, ok) = FitsUri req.request_uri
IsCopied old (req, bad_request) = (req.request_uri ≡ old) ⊎ FitsUri req.request_uri
IsCopied old (req, not_implemented) = (req.request_uri ≡ old) ⊎ FitsUri req.request_uri

-- The same, and what a request that goes on has besides.
abbrev pub IsRead : (count : ℕ) → (old : Bytes) → Line × Reply → Type 0
IsRead count old (req, ok) =
    FitsUri req.request_uri
    × (req.cgi_env_index ≡ count)
    × (is_head09 req.method req.http_version ≡ false)
IsRead count old (req, bad_request) = (req.request_uri ≡ old) ⊎ FitsUri req.request_uri
IsRead count old (req, not_implemented) = (req.request_uri ≡ old) ⊎ FitsUri req.request_uri

word-Lacks : (s : Bytes) → Lacks b' ' (word s)
word-Lacks [] = tt
word-Lacks (c ∷ s) =
    if_split (Lacks b' ') (c == b' ') (λ _. tt) (λ other. (ground arith, word-Lacks s))

word-after_host : (s : Bytes) → length (word (after_host s)) ≤ length (word s)
word-after_host [] = omega arith
word-after_host (c ∷ s) = let rest = word-after_host s in ground arith

word-url :
    (stop : Bytes)
    → starts_with server_method stop ≡ true
    → length (word (drop 7 stop)) ≤ length (word stop)
word-url stop h =
    let (t, e) = starts_with-append server_method stop h in
    subst (λ s. length (word (drop 7 s)) ≤ length (word s)) (sym e) (omega arith)

read_uri-IsCopied :
    (stop : Bytes) (req : Line)
    → length (word stop) ≤ max_header_length
    → IsCopied req.request_uri (read_uri stop req)
read_uri-IsCopied stop req small =
    let P = IsCopied req.request_uri in
    let host = drop (length server_method) stop in
    if_split P (starts_with server_method stop)
      (λ url.
        if_split P (peek host == b'/' || peek host == b' ' || peek host == 0) (λ _. inl refl)
          (λ _.
            if_split P (not (peek (after_host host) == b'/')) (λ _. inl refl)
              (λ _. (
                omega (arith, small, word-after_host host, word-url stop url),
                word-Lacks (after_host host),
              ))))
      (λ _. (small, word-Lacks stop))

set_version-uri :
    (found : ℕ × ℕ) (req : Line) → (set_version found req).0.request_uri ≡ req.request_uri
set_version-uri (p1, p2) req =
    let P : Line × Reply → Type 0 = λ r. r.0.request_uri ≡ req.request_uri in
    if_split P (p1 == 0 && p2 == 9) (λ _. refl)
      (λ _.
        if_split P (p1 == 1 && p2 == 0) (λ _. refl)
          (λ _. if_split P (p1 == 1 && p2 == 1) (λ _. refl) (λ _. refl)))

scan_version-uri :
    (scan : Bytes → Option (ℕ × ℕ)) (s : Bytes) (req : Line)
    → (scan_version scan s req).0.request_uri ≡ req.request_uri
scan_version-uri scan [] req = refl
scan_version-uri scan (c ∷ s) req = elim (Option-cases (scan (c ∷ s))) [
  | inl bogus ↦ rw (scan_version, bogus) refl
  | inr (found, e) ↦ rw (scan_version, e) (set_version-uri found req)
]

read_version-uri :
    (scan : Bytes → Option (ℕ × ℕ)) (s : Bytes) (req : Line)
    → (read_version scan s req).0.request_uri ≡ req.request_uri
read_version-uri scan [] req = refl
read_version-uri scan (c ∷ s) req = scan_version-uri scan (skip_spaces s) req

fits-IsCopied : (old : Bytes) (r : Line × Reply) → FitsUri r.0.request_uri → IsCopied old r
fits-IsCopied old (req, ok) fits = fits
fits-IsCopied old (req, bad_request) fits = inr fits
fits-IsCopied old (req, not_implemented) fits = inr fits

versioned-IsCopied :
    (scan : Bytes → Option (ℕ × ℕ)) (s old : Bytes) (r : Line × Reply)
    → IsCopied old r
    → IsCopied old (versioned scan s r)
versioned-IsCopied scan s old (req, ok) h =
    fits-IsCopied old (read_version scan s req)
      (subst FitsUri (sym (read_version-uri scan s req)) h)
versioned-IsCopied scan s old (req, bad_request) h = h
versioned-IsCopied scan s old (req, not_implemented) h = h

end_logline-IsRead :
    (count : ℕ) (old : Bytes) (r : Line × Reply)
    → IsCopied old r
    → IsRead count old (end_logline count r)
end_logline-IsRead count old (req, ok) h =
    if_split (IsRead count old) (is_head09 req.method req.http_version) (λ _. inr h)
      (λ other. (h, refl, other))
end_logline-IsRead count old (req, bad_request) h = h
end_logline-IsRead count old (req, not_implemented) h = h

read_target-IsRead :
    (scan : Bytes → Option (ℕ × ℕ)) (count : ℕ) (stop : Bytes) (req : Line)
    → IsRead count req.request_uri (read_target scan count stop req)
unfolding read_target
read_target-IsRead scan count stop req =
    if_split (IsRead count req.request_uri) (ltb max_header_length (length (word stop)))
      (λ _. inl refl)
      (λ short.
        end_logline-IsRead count req.request_uri
          (versioned scan (after_word stop) (read_uri stop req))
          (versioned-IsCopied scan (after_word stop) req.request_uri (read_uri stop req)
            (read_uri-IsCopied stop req (ground arith))))

behind_method-IsRead :
    (scan : Bytes → Option (ℕ × ℕ)) (count : ℕ) (found : Option (HttpMethod × Bytes)) (req : Line)
    → IsRead count req.request_uri (behind_method scan count found req)
behind_method-IsRead scan count none req = inl refl
behind_method-IsRead scan count (some (method, rest)) req =
    let set : Line = record req { method = method; http_version = http10 } in
    read_target-IsRead scan count (skip_spaces rest) set

-- Whatever the line and the scan of the version: a request that goes on has in request_uri at most
-- 1,024 bytes, none a space, its environment starts at the shared entries, and it is not a HEAD of
-- HTTP/0.9. A request that is answered has in request_uri what stood there, or at most 1,024 bytes.
pub process_logline-IsRead :
    (scan : Bytes → Option (ℕ × ℕ)) (count : ℕ) (line : Bytes) (req : Line)
    → IsRead count req.request_uri (process_logline scan count line req)
unfolding process_logline
process_logline-IsRead scan count line req =
    if_split (IsRead count req.request_uri) (ltb (length line) 5) (λ _. inl refl)
      (λ _. behind_method-IsRead scan count (read_method line) req)
