-- ===== src/Buffer.antt =====
-- The output buffer of a request: src/buffer.c but for escape_string, and the states of a request
-- from src/globals.h. `buffer` holds the bytes up to `buffer_end`, which is therefore its length.
pub mod Room
pub mod Content
pub mod Flush
use yabwf.Prelude.{
  ℕ, ◌+◌, ◌-◌, ◌%◌, ◌^◌, ◌≡◌, refl, Bool, true, false, ◌||◌, [], ◌∷◌, ◌++◌, Option, none, some, ltb,
  ◌==◌, if◌then◌else◌, Bytes, codes, length, take, drop,
}
use yabwf.Escape.{escape_byte}

-- enum REQ_STATUS
pub data ReqStatus : Type 0 where
  read_header one_cr one_lf two_cr body_read body_write write : ReqStatus
  pipe_read pipe_write ioshuffle done timed_out dead : ReqStatus

-- `req->status > DONE`
abbrev pub is_over : ReqStatus → Bool
is_over timed_out = true
is_over dead = true
is_over _ = false

abbrev pub buffer_size : ℕ
buffer_size = 4096

-- The fields of a request that these functions work on.
pub record Output : Type 0 where
  pub status : ReqStatus
  pub buffer : Bytes
  pub buffer_start : ℕ

abbrev pub buffer_end : Output → ℕ
buffer_end req = length req.buffer

-- The result -1 is `none`. The length is cut to an unsigned int, and so is the sum.
unfoldable pub req_write : Bytes → Output → Output × Option ℕ
req_write msg req =
    let msg_len = length msg % 2 ^ 32 in
    let copied = record req { buffer = req.buffer ++ take msg_len msg } in
    if msg_len == 0 || is_over req.status
    then (req, some (buffer_end req))
    else if ltb buffer_size ((buffer_end req + msg_len) % 2 ^ 32)
    then (record req { status = dead }, none)
    else (copied, some (buffer_end copied))

unfoldable pub reset_output_buffer : Output → Output
reset_output_buffer req = record req { buffer = [] }

-- The loop of the two escaping writes: while `left` is not below the guard, the next byte is written
-- as `encode` has it and `left` falls by as much. What is written, and what is not read.
unfoldable pub copy_loop : (encode : ℕ → Bytes) → (guard left : ℕ) → Bytes → Bytes × Bytes
copy_loop encode guard left [] = ([], [])
copy_loop encode guard left (c ∷ s) =
    let (written, unread) = copy_loop encode guard (left - length (encode c)) s in
    if ltb left guard then ([], c ∷ s) else (encode c ++ written, unread)

abbrev pub finish : Bytes × Bytes → Output → Output × Option ℕ
finish (written, []) req =
    let copied = record req { buffer = req.buffer ++ written } in (copied, some (buffer_end copied))
finish (written, c ∷ s) req = (record req { buffer = req.buffer ++ written; status = dead }, none)

unfoldable pub req_write_escape_http : ℕ → Bytes → Output → Output × Option ℕ
unfolding copy_loop escape_byte
req_write_escape_http bits msg req =
    finish (copy_loop (escape_byte bits) 3 (buffer_size - buffer_end req) msg) req

-- The switch of req_write_escape_html.
unfoldable pub html_byte : ℕ → Bytes
html_byte c =
    if c == b'>'
    then codes "&gt;"
    else if c == b'<'
    then codes "&lt;"
    else if c == b'&'
    then codes "&amp;"
    else if c == b'"'
    then codes "&quot;"
    else c ∷ []

unfoldable pub req_write_escape_html : Bytes → Output → Output × Option ℕ
unfolding copy_loop html_byte
req_write_escape_html msg req =
    finish (copy_loop html_byte 6 (buffer_size - buffer_end req) msg) req

-- What the call of write gives.
pub data Sent : Type 0 where
  wrote : ℕ → Sent
  would_block : Sent
  failed : Sent

-- The results -2 and -1 of req_flush, and the count that is stored.
pub data Flushed : Type 0 where
  error : Flushed
  blocked : Flushed
  stored : ℕ → Flushed

-- `buffer_start += bytes_written`, and the reset of a buffer that is sent.
abbrev pub advance : ℕ → Output → Output × Flushed
advance n req =
    let moved = record req { buffer_start = req.buffer_start + n } in
    if moved.buffer_start == buffer_end req
    then (record req { buffer = []; buffer_start = 0 }, stored 0)
    else (moved, stored (buffer_end req))

-- What follows the call of write.
abbrev pub after_write : Sent → Output → Output × Flushed
after_write (wrote n) req = advance n req
after_write would_block req = (req, blocked)
after_write failed req = (record req { buffer = []; buffer_start = 0; status = dead }, error)

-- `sent` is what write gives, if it is called.
unfoldable pub req_flush : Sent → Output → Output × Flushed
req_flush sent req =
    if is_over req.status
    then (req, error)
    else if buffer_end req == req.buffer_start
    then advance 0 req
    else after_write sent req
