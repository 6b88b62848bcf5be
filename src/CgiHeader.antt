-- ===== src/CgiHeader.antt =====
-- src/cgi_header.c: process_cgi_header, the answer to the header that a CGI program writes.
pub mod Redirect
use Prim.Native.String.{String}
use yabwf.Prelude.{
  ℕ, zero, suc, ◌+◌, ◌-◌, ◌≤◌, Bool, true, false, not, ◌&&◌, ◌||◌, List, [], ◌∷◌, ◌++◌, Option,
  none, some, ltb, leb, ◌==◌, if◌then◌else◌, Bytes, codes, peek, is_alnum, within, starts_with,
  starts_with_caseless, length, take, drop, get_or,
}
use yabwf.Buffer.{ReqStatus, Output, buffer_end, buffer_size, done, Sent, req_flush}
use yabwf.Pipe.{CgiStatus, cgi_buffer, cgi_done, is_done, c_string}
use yabwf.Request.Logline.{HttpVersion, http09}
use yabwf.CgiStrip.{byte_at, find_text, lflf, lfcrlf, strip_cgi_prefix}

-- The fields of a request that are used here. `held` are the bytes from header_line to header_end, which
-- stand in the second half of the buffer, and `output` is what the first half holds for the client.
pub record CgiOutput : Type 0 where
  pub output : Output
  pub cgi_status : CgiStatus
  pub held : Bytes

-- The result 1; 1 behind send_r_bad_request and send_r_moved_temp, whose arguments these are; 0 for a
-- HEAD and behind send_r_bad_gateway and send_r_error.
pub data Reply : Type 0 where
  passed bad_request : Reply
  moved_temp : (url more_hdr : Bytes) → Reply
  head_done bad_gateway error : Reply

-- What the request is: nph is the type of the program, head the method.
pub record Asked : Type 0 where
  pub nph : Bool
  pub http_version : HttpVersion
  pub head : Bool

abbrev pub is_http09 : HttpVersion → Bool
is_http09 http09 = true
is_http09 _ = false

-- How many bytes from the place of the line end `c` the first one of the empty line ends.
abbrev pub past_line_end : Bytes → ℕ → ℕ
past_line_end buf c = if byte_at buf (c + 1) == b'\r' then c + 2 else c + 1

-- The text in front of the first '\n', and the text behind it.
abbrev pub before_lf : Bytes → Bytes
before_lf [] = []
before_lf (c ∷ s) = let rest = before_lf s in if c == b'\n' then [] else c ∷ rest

-- The text without the '\r's at its end: those, and no others, have only '\r's behind them.
abbrev pub without_cr : Bytes → Bytes
without_cr [] = []
without_cr (c ∷ s) = elim (without_cr s) [
  | [] ↦ if c == b'\r' then [] else c ∷ []
  | d ∷ rest ↦ c ∷ d ∷ rest
]

abbrev pub skip_line_ends : Bytes → Bytes
skip_line_ends [] = []
skip_line_ends (c ∷ s) =
    let rest = skip_line_ends s in if c == b'\n' || c == b'\r' then rest else c ∷ s

-- The answer to a Location whose value is `text`; the rest of the header follows its line end.
unfoldable pub redirect : (text : Bytes) → Reply
redirect text =
    let url = without_cr (before_lf text) in
    let more_hdr = skip_line_ends (drop (length url + 1) text) in
    if peek text == b'/'
    then bad_request
    else if starts_with_caseless (codes "http://") text
        || starts_with_caseless (codes "https://") text
    then moved_temp url more_hdr
    else bad_request

-- The answer with neither Status nor Location: `sent` is the buffer behind send_r_request_ok, `c` the
-- place of the line end in front of the empty line, and `write` what write gives.
unfoldable pub merge :
    (write : Sent) → (sent : Output) → (head : Bool) → (c : ℕ) → CgiOutput → CgiOutput × Reply
unfolding req_flush
merge write sent head c req =
    let shown = if head then take (past_line_end req.held c) req.held else req.held in
    let cgi_status = if head then cgi_done else req.cgi_status in
    let reset : Output = record sent { buffer = []; buffer_start = 0 } in
    let joined : Output = record sent { buffer = sent.buffer ++ shown } in
    if ltb buffer_size (buffer_end sent + length shown)
    then (record { output = reset; cgi_status = cgi_status; held = shown }, error)
    else (
      record { output = (req_flush write joined).0; cgi_status = cgi_status; held = [] },
      if head then head_done else passed,
    )

abbrev pub or_start : Option ℕ → ℕ
or_start none = 0
or_start (some n) = n

-- Behind the search for the empty line.
unfoldable pub answer_header :
    (write : Sent)
    → (request_ok : Output → Output) → Asked
    → Option ℕ
    → CgiOutput
    → CgiOutput × Reply
unfolding redirect merge
answer_header write request_ok asked none req = (req, bad_gateway)
answer_header write request_ok asked (some c) req =
    let buf = c_string req.held in
    let finished : CgiOutput = record req { output = record req.output { status = done } } in
    if is_http09 asked.http_version
    then (record req { held = drop (past_line_end req.held c) req.held }, passed)
    else if starts_with_caseless (codes "Status: ") buf
    then (record req { held = codes "HTTP/1.0 " ++ drop 8 req.held }, passed)
    else if starts_with_caseless (codes "Location: ") buf
    then (finished, redirect (drop 10 buf))
    else merge write (request_ok req.output) asked.head c req

abbrev pub header_end_of : Bytes → Option ℕ
header_end_of buf = elim (find_text lfcrlf buf) [ none ↦ find_text lflf buf | some c ↦ some c ]

unfoldable pub process_cgi_header :
    (write : Sent)
    → (request_ok : Output → Output) → (strip : Bool) → List Bytes
    → Asked
    → CgiOutput
    → CgiOutput × Reply
unfolding strip_cgi_prefix answer_header
process_cgi_header write request_ok strip tokens asked req =
    let cgi_status = if is_done req.cgi_status then cgi_done else cgi_buffer in
    let at =
      if strip && not asked.nph
      then or_start (strip_cgi_prefix true tokens (c_string req.held))
      else 0 in
    let req' : CgiOutput = record req { cgi_status = cgi_status; held = drop at req.held } in
    answer_header write request_ok asked (header_end_of (c_string req'.held)) req'
