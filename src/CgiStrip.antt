-- ===== src/CgiStrip.antt =====
-- src/cgi_header.c: the text in front of the header that a CGI program writes, which CGIStripPrefix
-- drops. Texts are bytes up to a terminator, and pointers are places in them.
pub mod Start
use Prim.Native.String.{String}
use yabwf.Prelude.{
  ℕ, zero, suc, ◌+◌, ◌-◌, ◌≤◌, Bool, true, false, not, ◌&&◌, ◌||◌, List, [], ◌∷◌, ◌++◌, Option,
  none, some, ltb, leb, ◌==◌, if◌then◌else◌, Bytes, codes, peek, is_alnum, within, starts_with,
  starts_with_caseless, length, take, drop, get_or,
}
use yabwf.Buffer.{ReqStatus, Output, buffer_end, buffer_size, done, Sent, req_flush}
use yabwf.Pipe.{CgiStatus, cgi_buffer, cgi_done, c_string}
use yabwf.Request.Logline.{HttpVersion, http09}

-- buf[i], the terminator behind the end.
abbrev pub byte_at : Bytes → ℕ → ℕ
byte_at buf i = get_or buf i 0

abbrev pub cgi_strip_builtin : List Bytes
cgi_strip_builtin =
    codes "Status:"
    ∷ codes "Location:"
    ∷ codes "Content-Type:"
    ∷ codes "Set-Cookie:"
    ∷ codes "Content-Length:"
    ∷ codes "Cache-Control:"
    ∷ codes "Connection:"
    ∷ codes "WWW-Authenticate:"
    ∷ codes "Expires:"
    ∷ codes "Pragma:"
    ∷ codes "Content-Encoding:"
    ∷ codes "Content-Language:"
    ∷ codes "Content-Disposition:"
    ∷ codes "Last-Modified:"
    ∷ codes "ETag:"
    ∷ codes "Vary:"
    ∷ codes "Allow:"
    ∷ []

unfoldable pub cgi_strip_add_token : Bytes → List Bytes → List Bytes
cgi_strip_add_token token tokens = tokens ++ token ∷ []

abbrev pub add_tokens : List Bytes → List Bytes → List Bytes
add_tokens [] tokens = tokens
add_tokens (token ∷ rest) tokens = add_tokens rest (cgi_strip_add_token token tokens)

unfoldable pub cgi_strip_init : List Bytes → List Bytes
unfolding cgi_strip_add_token
cgi_strip_init tokens = add_tokens cgi_strip_builtin tokens

unfoldable pub cgi_strip_cleanup : List Bytes → List Bytes
cgi_strip_cleanup tokens = []

abbrev pub is_alpha : ℕ → Bool
is_alpha c = within b'A' b'Z' c || within b'a' b'z' c

-- The text behind the letters, digits and hyphens.
abbrev pub behind_name : Bytes → Bytes
behind_name [] = []
behind_name (c ∷ s) = let rest = behind_name s in if is_alnum c || c == b'-' then rest else c ∷ s

unfoldable pub matches_wildcard_pattern : Bytes → Bool
matches_wildcard_pattern [] = false
matches_wildcard_pattern (c ∷ s) = is_alpha c && starts_with (codes ": ") (behind_name s)

-- The place behind the line ends in front of a place.
abbrev pub skip_ends : Bytes → ℕ → ℕ
skip_ends buf zero = zero
skip_ends buf (suc p) =
    let before = skip_ends buf p in
    if byte_at buf p == b'\n' || byte_at buf p == b'\r' then before else suc p

-- The place behind the last '\n' up to a place, or the start.
abbrev pub line_head : Bytes → ℕ → ℕ
line_head buf zero = if byte_at buf zero == b'\n' then 1 else 0
line_head buf (suc p) =
    let before = line_head buf p in if byte_at buf (suc p) == b'\n' then suc (suc p) else before

abbrev pub line_of : Bytes → ℕ → ℕ
line_of buf zero = zero
line_of buf (suc p) = line_head buf p

unfoldable pub find_line_start : Bytes → (pos : ℕ) → ℕ
find_line_start buf pos = line_of buf (skip_ends buf pos)

abbrev pub any_token : List Bytes → Bytes → Bool
any_token [] line = false
any_token (token ∷ tokens) line = starts_with_caseless token line || any_token tokens line

-- The text starts as a header does: by a token, or by any name and a colon.
abbrev pub is_header_start : List Bytes → Bytes → Bool
is_header_start tokens line = any_token tokens line || matches_wildcard_pattern line

-- `for (scan = ...; ...) if (...) last_token = scan;` over `count` places.
abbrev pub last_match : (test : Bytes → Bool) → Bytes → (scan count : ℕ) → Option ℕ → Option ℕ
last_match test buf scan zero last_token = last_token
last_match test buf scan (suc count) last_token =
    last_match test buf (scan + 1) count (if test (drop scan buf) then some scan else last_token)

abbrev pub last_of_tokens : List Bytes → Bytes → (line_start pos : ℕ) → Option ℕ → Option ℕ
last_of_tokens [] buf line_start pos last_token = last_token
last_of_tokens (token ∷ tokens) buf line_start pos last_token =
    let found =
      last_match (starts_with_caseless token) buf line_start (pos + 1 - (line_start + length token))
        last_token in
    last_of_tokens tokens buf line_start pos found

-- Where the header starts in a line that does not start as one, or else behind it.
abbrev pub boundary : List Bytes → Bytes → (line_start pos : ℕ) → ℕ
boundary tokens buf line_start pos =
    let last_token = last_of_tokens tokens buf line_start pos none in
    elim (last_match matches_wildcard_pattern buf line_start (pos + 1 - (line_start + 2))
      last_token) [ none ↦ pos | some scan ↦ scan ]

-- The loop over the lines, from the last one back, on fuel; `none` is that it ran out.
unfoldable pub strip_loop : (fuel : ℕ) → List Bytes → Bytes → (pos : ℕ) → Option ℕ
unfolding find_line_start matches_wildcard_pattern
strip_loop zero tokens buf pos = none
strip_loop (suc fuel) tokens buf pos =
    let line_start = find_line_start buf pos in
    let before = strip_loop fuel tokens buf line_start in
    if not (is_header_start tokens (drop line_start buf))
    then some (boundary tokens buf line_start pos)
    else if line_start == 0
    then some 0
    else before

-- strstr, as a place.
abbrev pub find_text : Bytes → Bytes → Option ℕ
find_text text [] = if starts_with text [] then some 0 else none
find_text text (c ∷ s) =
    let later = find_text text s in
    if starts_with text (c ∷ s) then some 0 else elim later [ none ↦ none | some i ↦ some (suc i) ]

abbrev pub lflf : Bytes
lflf = b'\n' ∷ b'\n' ∷ []

abbrev pub lfcrlf : Bytes
lfcrlf = b'\n' ∷ b'\r' ∷ b'\n' ∷ []

abbrev pub crlfcrlf : Bytes
crlfcrlf = b'\r' ∷ b'\n' ∷ b'\r' ∷ b'\n' ∷ []

-- The empty line behind the header.
abbrev pub anchor : Bytes → Option ℕ
anchor buf = elim (find_text lfcrlf buf) [
  | some i ↦ elim (find_text lflf buf) [ some j ↦ some (if ltb j i then j else i) | none ↦ some i ]
  | none ↦ elim (find_text lflf buf) [ some j ↦ some j | none ↦ find_text crlfcrlf buf ]
]

-- The place where the header starts. `on` is cgi_strip_prefix.
unfoldable pub strip_cgi_prefix : (on : Bool) → List Bytes → Bytes → Option ℕ
unfolding strip_loop
strip_cgi_prefix on tokens buf =
    if not on
    then some 0
    else elim (anchor buf) [ none ↦ some 0 | some pos ↦ strip_loop (suc pos) tokens buf pos ]
