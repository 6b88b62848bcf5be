-- ===== src/Read.antt =====
-- read_header of src/read.c: the bytes of a request, cut into lines. The functions of request.c that it
-- calls are parameters, with a result that says whether the request goes on.
pub mod Packets
pub mod Body
use yabwf.Prelude.{
  ℕ, ◌+◌, ◌-◌, Bool, true, false, not, ◌&&◌, ◌||◌, List, [], ◌∷◌, ◌++◌, Option, none, some, ltb,
  leb, ◌==◌, if◌then◌else◌, Bytes, length, take, drop,
}
use yabwf.Buffer.{ReqStatus, one_cr, one_lf, two_cr, body_read, dead}
use yabwf.Pipe.{Got, got, eof, not_ready, read_failed, Outcome, blocked, again}
use yabwf.Util.Decimal.{boa_atoi}
use yabwf.Request.Options.{max_header_length}

-- A request while its header is read: `stream` is client_stream up to parse_pos, the lines are places in
-- it, `logline` says that the first line is read, and `req` is the rest.
pub record Reader {ℓ} (R : Type ℓ) : Type ℓ where
  pub status : ReqStatus
  pub stream : Bytes
  pub header_line : ℕ
  pub header_end : ℕ
  pub logline : Bool
  pub req : R

-- A byte that is no control character, or CR, LF or tab.
abbrev pub is_legal : ℕ → Bool
is_legal uc = uc == 13 || uc == 10 || uc == 9 || (leb 32 uc && leb uc 127)

-- The switch on the status: the new one, and whether the line ends in front of the byte.
abbrev pub next_status : (uc : ℕ) → ReqStatus → ReqStatus
next_status uc ReqStatus.read_header =
    if uc == 13 then one_cr else if uc == 10 then one_lf else ReqStatus.read_header
next_status uc one_cr =
    if uc == 10 then one_lf else if uc == 13 then one_cr else ReqStatus.read_header
next_status uc one_lf =
    if uc == 13 then two_cr else if uc == 10 then body_read else ReqStatus.read_header
next_status uc two_cr =
    if uc == 10 then body_read else if uc == 13 then two_cr else ReqStatus.read_header
next_status uc status = status

abbrev pub is_line_end : (uc : ℕ) → ReqStatus → Bool
is_line_end uc ReqStatus.read_header = uc == 13 || uc == 10
is_line_end uc _ = false

-- The text of the line.
abbrev pub header_text {ℓ} : {R : Type ℓ} → Reader R → Bytes
header_text st = take (st.header_end - st.header_line) (drop st.header_line st.stream)

-- How the loop ends in front of the end of what is read: with the result 0, with that of
-- process_header_end for HTTP/0.9, or with that at the end of the header.
pub data Parsed : Type 0 where
  closed : Parsed
  answered : Bool → Parsed
  ended : Bool → Parsed

abbrev pub go_on {ℓ} :
    {R : Type ℓ}
    → Bytes
    → (Reader R → Reader R × Option Parsed × Bytes)
    → Reader R × Option Parsed
    → Reader R × Option Parsed × Bytes
go_on rest next (st, none) = next st
go_on rest next (st, some result) = (st, some result, rest)

module _ {ℓ} {R : Type ℓ} (process_logline process_option_line : Bytes → R → R × Bool)
    (is_http09 : R → Bool) (process_header_end : R → R × Bool) (send_r_bad_request : R → R) where
  abbrev pub end_first : R × Bool → Reader R → Reader R × Option Parsed
  end_first (first, first_ok) st =
      let (end, retval) = process_header_end first in
      let next : Reader R = record st {
        req = first;
        logline = true;
        header_line = length st.stream;
      } in
      if not first_ok
      then (record st { req = first; logline = true }, some closed)
      else if is_http09 first
      then (record st { req = end; logline = true }, some (answered retval))
      else (next, none)

  abbrev pub end_option : R × Bool → Reader R → Reader R × Option Parsed
  end_option (option, option_ok) st =
      if option_ok
      then (record st { req = option; header_line = length st.stream }, none)
      else (record st { req = option }, some closed)

  -- A line is complete, whose terminator was just read.
  abbrev pub end_line : Reader R → Reader R × Option Parsed
  end_line st =
      let line = header_text st in
      if leb max_header_length (st.header_end - st.header_line)
      then (record st { req = send_r_bad_request st.req }, some closed)
      else if st.logline
      then end_option (process_option_line line st.req) st
      else end_first (process_logline line st.req) st

  abbrev pub after_byte : Reader R → Reader R × Option Parsed
  after_byte st =
      let (end, retval) = process_header_end st.req in
      elim st.status [
        | one_lf ↦ end_line st
        | body_read ↦ (record st { req = end }, some (ended retval))
        | _ ↦ (st, none)
      ]

  -- One round of the loop.
  unfoldable pub read_byte : (uc : ℕ) → Reader R → Reader R × Option Parsed
  read_byte uc st =
      let moved : Reader R = record st {
        status = next_status uc st.status;
        stream = st.stream ++ uc ∷ [];
        header_end = if is_line_end uc st.status then length st.stream else st.header_end;
      } in
      if not (is_legal uc)
      then (record st { req = send_r_bad_request st.req }, some closed)
      else after_byte moved

  -- The loop over what is read and not yet parsed, with what it leaves.
  unfoldable pub parse_header : Bytes → Reader R → Reader R × Option Parsed × Bytes
  unfolding read_byte
  parse_header [] st = (st, none, [])
  parse_header (uc ∷ rest) st = go_on rest (parse_header rest) (read_byte uc st)

-- The body of a POST behind its header: the size that is announced, and what of it is already read.
-- `none` is the answer of a bad request, a limit of 0 is none.
unfoldable pub start_body :
    (overflow : ℕ → Option ℕ)
    → (single_post_limit : ℕ) → (content_length : Option Bytes) → (rest : Bytes)
    → Option (ℕ × Bytes)
unfolding boa_atoi
start_body overflow single_post_limit none rest = none
start_body overflow single_post_limit (some text) rest = elim (boa_atoi overflow text) [
  | none ↦ none
  | some filesize ↦
      if not (single_post_limit == 0) && ltb single_post_limit filesize
      then none
      else some (filesize, if ltb filesize (length rest) then take filesize rest else rest)
]

abbrev pub client_stream_size : ℕ
client_stream_size = 8192

-- `req->status < BODY_READ`
abbrev pub is_in_header : ReqStatus → Bool
is_in_header ReqStatus.read_header = true
is_in_header one_cr = true
is_in_header one_lf = true
is_in_header two_cr = true
is_in_header _ = false

-- What follows the loop when no line ends the request: the result, the status and the bytes read.
unfoldable pub read_more :
    Option Got → (client_stream_pos : ℕ) → ReqStatus → Outcome × ReqStatus × Bytes
read_more read client_stream_pos status =
    if not (is_in_header status)
    then (again, status, [])
    else if leb client_stream_size client_stream_pos
    then (Outcome.closed, dead, [])
    else elim read [
      | none ↦ (again, status, [])
      | some not_ready ↦ (blocked, status, [])
      | some read_failed ↦ (Outcome.closed, status, [])
      | some eof ↦ (Outcome.closed, status, [])
      | some (got bytes) ↦ (again, status, bytes)
    ]
