-- ===== src/Request/Options.antt =====
-- process_option_line of src/request.c, with add_accept_header, and to_upper of src/util.c.
pub mod Lines
pub mod Entries
use Prim.Native.String.{String}
use yabwf.Prelude.{
  ℕ, ◌+◌, ◌^◌, ◌-◌, ◌≡◌, refl, Bool, true, false, ◌&&◌, ◌||◌, not, List, [], ◌∷◌, ◌++◌, Option,
  none, some, ltb, leb, ◌==◌, if◌then◌else◌, Bytes, codes, bytes_eq, starts_with_caseless,
  to_upper_byte, length,
}
use yabwf.Range.{Range, Ranges}
use yabwf.Range.Parser.{range_parse}
use yabwf.Cgi.{CgiEnv, add_cgi_env}

abbrev pub max_header_length : ℕ
max_header_length = 1024

-- enum KA_STATUS
pub data KaStatus : Type 0 where
  ka_inactive ka_active ka_stopped : KaStatus

-- The fields of a request that its header lines set.
pub record Options : Type 0 where
  pub keepalive : KaStatus
  pub content_type : Option Bytes
  pub content_length : Option Bytes
  pub header_host : Option Bytes
  pub if_modified_since : Option Bytes
  pub header_referer : Option Bytes
  pub header_user_agent : Option Bytes
  pub accept : Bytes
  pub ranges : Ranges
  pub env : CgiEnv

unfoldable pub to_upper : Bytes → Bytes
to_upper [] = []
to_upper (c ∷ s) = (if c == b'-' then b'_' else to_upper_byte c) ∷ to_upper s

unfoldable pub add_accept_header : (mime_type : Bytes) → Bytes → Bytes
add_accept_header mime_type accept =
    let l = length accept in
    let l2 = length mime_type in
    if leb max_header_length (l + l2 + 2)
    then accept
    else if l == 0
    then mime_type
    else accept ++ b',' ∷ b' ' ∷ mime_type

-- What process_option_line returns: 1, 0, and 0 behind send_r_invalid_range.
pub data Accepted : Type 0 where
  accepted refused invalid_range : Accepted

-- What the server is built and configured with: ACCEPT_ON, ka_max, the width of an unsigned long, and
-- whether malloc finds memory.
pub record Setup : Type 0 where
  pub accept_on : Bool
  pub ka_max : ℕ
  pub bits : ℕ
  pub room : Bool

abbrev pub is_none {ℓ} : {A : Type ℓ} → Option A → Bool
is_none none = true
is_none (some x) = false

abbrev pub is_stopped : KaStatus → Bool
is_stopped ka_stopped = true
is_stopped _ = false

-- `return add_cgi_env(req, line, value, 1)`
abbrev pub env_line : Setup → (key value : Bytes) → Options → Options × Accepted
env_line setup key value req = elim (add_cgi_env setup.room key value true req.env) [
  | some env ↦ (record req { env = env }, accepted)
  | none ↦ (req, refused)
]

-- The same behind a first entry for the line, which the code adds for REFERER.
abbrev pub env_line_twice : Setup → (key value : Bytes) → Options → Options × Accepted
env_line_twice setup key value req = elim (add_cgi_env setup.room key value true req.env) [
  | some env ↦ env_line setup key value (record req { env = env })
  | none ↦ (req, refused)
]

-- `req->ranges->stop == INT_MAX`, of the first range.
abbrev pub stops_at : ℕ → List Range → Bool
stops_at n [] = false
stops_at n (r ∷ ranges) = r.stop == n

abbrev pub range_line : Setup → (key value : Bytes) → Options → Options × Accepted
range_line setup key value req =
    let (ranges, parsed) = range_parse setup.bits value req.ranges in
    let req' = record req { ranges = ranges } in
    if stops_at (2 ^ 31 - 1) req.ranges.ranges
    then (req, accepted)
    else if parsed
    then env_line setup key value req'
    else (req', invalid_range)

abbrev is : Bytes → String → Bool
is key name = bytes_eq key (codes name)

-- The cases of the switch that also add an entry, and all other lines.
unfoldable pub entry_line : Setup → (key value : Bytes) → Options → Options × Accepted
unfolding add_cgi_env range_parse
entry_line setup key value req =
    if is key "REFERER"
    then env_line_twice setup key value (record req { header_referer = some value })
    else if is key "RANGE"
    then range_line setup key value req
    else if is key "USER_AGENT"
    then env_line setup key value (record req { header_user_agent = some value })
    else env_line setup key value req

-- The switch on the key, in capitals, for a value that is not empty.
unfoldable pub option_line : Setup → (key value : Bytes) → Options → Options × Accepted
unfolding entry_line add_accept_header
option_line setup key value req =
    let with_accept : Options = record req { accept = add_accept_header value req.accept } in
    if is key "ACCEPT"
    then (if setup.accept_on then (with_accept, accepted) else (req, accepted))
    else if is key "CONTENT_TYPE" && is_none req.content_type
    then (record req { content_type = some value }, accepted)
    else if is key "CONTENT_LENGTH" && is_none req.content_length
    then (record req { content_length = some value }, accepted)
    else if is key "CONNECTION" && (not (setup.ka_max == 0) && not (is_stopped req.keepalive))
    then (
      record req {
        keepalive =
            if starts_with_caseless (codes "Keep-Alive") value then ka_active else ka_stopped;
      },
      accepted,
    )
    else if is key "HOST" && is_none req.header_host
    then (record req { header_host = some value }, accepted)
    else if is key "IF_MODIFIED_SINCE" && is_none req.if_modified_since
    then (record req { if_modified_since = some value }, accepted)
    else entry_line setup key value req

-- strchr(line, ':'): the text in front of the first colon and the text behind it.
abbrev pub split_colon : Bytes → Option (Bytes × Bytes)
split_colon [] = none
split_colon (c ∷ s) = elim (split_colon s) [
  | none ↦ if c == b':' then some ([], s) else none
  | some (key, value) ↦ if c == b':' then some ([], s) else some (c ∷ key, value)
]

abbrev pub skip_blanks : Bytes → Bytes
skip_blanks [] = []
skip_blanks (c ∷ s) = let rest = skip_blanks s in if c == b' ' || c == b'\t' then rest else c ∷ s

abbrev pub with_value : Setup → Bytes → Bytes → Options → Options × Accepted
with_value setup key [] req = (req, accepted)
with_value setup key (c ∷ value) req = option_line setup key (c ∷ value) req

unfoldable pub process_option_line : Setup → (line : Bytes) → Options → Options × Accepted
unfolding option_line to_upper
process_option_line setup line req = elim (split_colon line) [
  | none ↦ (req, refused)
  | some (key, value) ↦ with_value setup (to_upper key) (skip_blanks value) req
]
