-- ===== src/Request/Logline.antt =====
-- process_logline of src/request.c: the request line. sscanf is the parameter `scan`: the two numbers
-- that the format "HTTP/%u.%u" finds.
pub mod Bounds
pub mod Printed
pub mod Targets
use yabwf.Prelude.{
  ℕ, ◌+◌, ◌≡◌, refl, Bool, true, false, ◌&&◌, ◌||◌, not, List, [], ◌∷◌, ◌++◌, Option, none, some,
  ltb, leb, ◌==◌, if◌then◌else◌, Bytes, codes, starts_with, peek, length, drop,
}
use yabwf.Cgi.{HttpMethod, m_get, m_head, m_post}
use yabwf.Request.Options.{KaStatus, ka_inactive, ka_active, ka_stopped, max_header_length}

-- enum HTTP_VERSION
pub data HttpVersion : Type 0 where
  http09 http10 http11 : HttpVersion

-- The fields of a request that its first line sets.
pub record Line : Type 0 where
  pub method : HttpMethod
  pub http_version : HttpVersion
  pub request_uri : Bytes
  pub header_host : Option Bytes
  pub keepalive : KaStatus
  pub cgi_env_index : ℕ

-- The result 1, and the responses that the result 0 comes with.
pub data Reply : Type 0 where
  ok bad_request not_implemented : Reply

-- The method, and the line behind it and its space.
unfoldable pub read_method : Bytes → Option (HttpMethod × Bytes)
read_method line =
    if starts_with (codes "GET ") line
    then some (m_get, drop 4 line)
    else if starts_with (codes "HEAD ") line
    then some (m_head, drop 5 line)
    else if starts_with (codes "POST ") line
    then some (m_post, drop 5 line)
    else none

-- while (*stop == ' ') ++stop
abbrev pub skip_spaces : Bytes → Bytes
skip_spaces [] = []
skip_spaces (c ∷ s) = let rest = skip_spaces s in if c == b' ' then rest else c ∷ s

-- while (*stop2 != '\0' && *stop2 != ' ') ++stop2: the bytes passed, and the text from there
abbrev pub word : Bytes → Bytes
word [] = []
word (c ∷ s) = let rest = word s in if c == b' ' then [] else c ∷ rest

abbrev pub after_word : Bytes → Bytes
after_word [] = []
after_word (c ∷ s) = let rest = after_word s in if c == b' ' then c ∷ s else rest

-- while (*stop != '\0' && *stop != '/' && *stop != ' ') ++stop
abbrev pub host_part : Bytes → Bytes
host_part [] = []
host_part (c ∷ s) = let rest = host_part s in if c == b'/' || c == b' ' then [] else c ∷ rest

abbrev pub after_host : Bytes → Bytes
after_host [] = []
after_host (c ∷ s) = let rest = after_host s in if c == b'/' || c == b' ' then c ∷ s else rest

abbrev pub server_method : Bytes
server_method = codes "http://"

-- The versions 0.9, 1.0 and 1.1; the others are bogus.
abbrev pub set_version : ℕ × ℕ → Line → Line × Reply
set_version (p1, p2) req =
    if p1 == 0 && p2 == 9
    then (record req { http_version = http09 }, ok)
    else if p1 == 1 && p2 == 0
    then (record req { http_version = http10 }, ok)
    else if p1 == 1 && p2 == 1
    then (record req { http_version = http11; keepalive = ka_active }, ok)
    else (req, bad_request)

abbrev pub scan_version : (scan : Bytes → Option (ℕ × ℕ)) → (stop2 : Bytes) → Line → Line × Reply
scan_version scan [] req = (record req { http_version = http09 }, ok)
scan_version scan (c ∷ s) req = elim (scan (c ∷ s)) [
  | none ↦ (req, bad_request)
  | some found ↦ set_version found req
]

-- The text at stop2 is empty or starts with a space.
abbrev pub read_version : (scan : Bytes → Option (ℕ × ℕ)) → (stop2 : Bytes) → Line → Line × Reply
read_version scan [] req = (record req { http_version = http09 }, ok)
read_version scan (c ∷ s) req = scan_version scan (skip_spaces s) req

abbrev pub is_head09 : HttpMethod → HttpVersion → Bool
is_head09 m_head http09 = true
is_head09 _ _ = false

abbrev pub end_logline : (common_cgi_env_count : ℕ) → Line × Reply → Line × Reply
end_logline common_cgi_env_count (req, ok) =
    if is_head09 req.method req.http_version
    then (req, bad_request)
    else (record req { cgi_env_index = common_cgi_env_count }, ok)
end_logline common_cgi_env_count (req, bad_request) = (req, bad_request)
end_logline common_cgi_env_count (req, not_implemented) = (req, not_implemented)

-- The URI from `stop` on. For an absolute URL, `stop` goes on to the first slash behind the host; stop2,
-- the end of the word, is the same from there.
abbrev pub read_uri : (stop : Bytes) → Line → Line × Reply
read_uri stop req =
    let host = drop (length server_method) stop in
    let path = after_host host in
    if starts_with server_method stop
    then (if peek host == b'/' || peek host == b' ' || peek host == 0
        then (req, bad_request)
        else if not (peek path == b'/')
        then (req, bad_request)
        else (record req { request_uri = word path; header_host = some (host_part host) }, ok))
    else (record req { request_uri = word stop }, ok)

abbrev pub versioned :
    (scan : Bytes → Option (ℕ × ℕ)) → (stop2 : Bytes) → Line × Reply → Line × Reply
versioned scan stop2 (req, ok) = read_version scan stop2 req
versioned scan stop2 (req, bad_request) = (req, bad_request)
versioned scan stop2 (req, not_implemented) = (req, not_implemented)

-- The line behind the method.
unfoldable pub read_target :
    (scan : Bytes → Option (ℕ × ℕ))
    → (common_cgi_env_count : ℕ) → (stop : Bytes) → Line
    → Line × Reply
read_target scan common_cgi_env_count stop req =
    if ltb max_header_length (length (word stop))
    then (req, bad_request)
    else end_logline common_cgi_env_count (versioned scan (after_word stop) (read_uri stop req))

abbrev pub behind_method :
    (scan : Bytes → Option (ℕ × ℕ))
    → (common_cgi_env_count : ℕ) → Option (HttpMethod × Bytes)
    → Line
    → Line × Reply
behind_method scan common_cgi_env_count none req = (req, not_implemented)
behind_method scan common_cgi_env_count (some (method, rest)) req =
    let set : Line = record req { method = method; http_version = http10 } in
    read_target scan common_cgi_env_count (skip_spaces rest) set

unfoldable pub process_logline :
    (scan : Bytes → Option (ℕ × ℕ))
    → (common_cgi_env_count : ℕ) → (line : Bytes) → Line
    → Line × Reply
unfolding read_method read_target
process_logline scan common_cgi_env_count line req =
    if ltb (length line) 5
    then (req, bad_request)
    else behind_method scan common_cgi_env_count (read_method line) req
