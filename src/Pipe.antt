-- ===== src/Pipe.antt =====
-- src/pipe.c: what a CGI program writes and what a file holds, on their way to the client. The result
-- of a read or a write of the system is an argument, `none` where it was interrupted; io_shuffle
-- repeats an interrupted call, so that its arguments are the results behind that.
pub mod File
mod Writes
use yabwf.Prelude.{
  ℕ, ◌+◌, ◌-◌, ◌%◌, ◌^◌, Bool, true, false, not, ◌&&◌, ◌||◌, List, [], ◌∷◌, ◌++◌, Option, none,
  some, ltb, leb, ◌==◌, min, if◌then◌else◌, Bytes, codes, contains, length, drop,
}
use yabwf.Buffer.{
  ReqStatus, pipe_read, pipe_write, dead, buffer_size, Sent, wrote, would_block, failed,
}

-- enum CGI_STATUS
pub data CgiStatus : Type 0 where
  cgi_parse cgi_buffer cgi_done : CgiStatus

-- What read gives: bytes, the end, or an error.
pub data Got : Type 0 where
  got : Bytes → Got
  eof not_ready read_failed : Got

-- The results 0, -1 and 1, and the two functions of other files whose result is passed on:
-- process_cgi_header and complete_response.
pub data Outcome : Type 0 where
  closed blocked again cgi_header complete : Outcome

-- The fields of a request that serves a CGI program. `filled` is the buffer up to `header_end`, and
-- `line` the place of `header_line` in it.
pub record CgiRequest : Type 0 where
  pub status : ReqStatus
  pub cgi_status : CgiStatus
  pub filled : Bytes
  pub line : ℕ
  pub bytes_written : ℕ

abbrev is_parse : CgiStatus → Bool
is_parse cgi_parse = true
is_parse _ = false

abbrev pub is_done : CgiStatus → Bool
is_done cgi_done = true
is_done _ = false

unfoldable pub write_from_pipe : Option Sent → CgiRequest → CgiRequest × Outcome
write_from_pipe write req =
    let bytes_to_write = length req.filled - req.line in
    let emptied = record req { status = pipe_read; filled = []; line = 0 } in
    if bytes_to_write == 0
    then (if is_done req.cgi_status then (req, closed) else (emptied, again))
    else elim write [
      | some would_block ↦ (req, blocked)
      | none ↦ (req, again)
      | some failed ↦ (record req { status = dead }, closed)
      | some (wrote n) ↦
          if n == bytes_to_write
          then (record emptied { bytes_written = req.bytes_written + n }, again)
          else (record req { line = req.line + n; bytes_written = req.bytes_written + n }, again)
    ]

-- A text ends at its terminator.
abbrev pub c_string : Bytes → Bytes
c_string [] = []
c_string (c ∷ s) = let rest = c ∷ c_string s in if c == 0 then [] else rest

abbrev pub ends_header : Bytes → Bool
ends_header s = contains (b'\n' ∷ b'\r' ∷ b'\n' ∷ []) s || contains (b'\n' ∷ b'\n' ∷ []) s

-- `BUFFER_SIZE - (header_end - buffer - 1)`
abbrev pub bytes_free : CgiRequest → ℕ
bytes_free req = buffer_size + 1 - length req.filled

unfoldable pub read_from_pipe : Option Got → Option Sent → CgiRequest → CgiRequest × Outcome
unfolding write_from_pipe
read_from_pipe read write req =
    let parsing = is_parse req.cgi_status in
    if bytes_free req == 0
    then (if parsing
        then (record req { cgi_status = cgi_buffer }, cgi_header)
        else (record req { status = pipe_write }, again))
    else elim read [
      | none ↦ (req, again)
      | some not_ready ↦ (req, blocked)
      | some read_failed ↦ (record req { status = dead }, closed)
      | some eof ↦ (
        record req { status = pipe_write; cgi_status = cgi_done },
        if parsing then cgi_header else again,
      )
      | some (got bytes) ↦
          let more = record req { filled = req.filled ++ bytes } in
          if not parsing
          then write_from_pipe write more
          else if ends_header (c_string (drop more.line more.filled))
          then (record more { cgi_status = cgi_done }, cgi_header)
          else (more, again)
    ]

-- The fields of a request that serves a file by io_shuffle. `start` and `stop` are those of its first
-- range, `buffer` holds the bytes up to `buffer_end`.
pub record FileRequest : Type 0 where
  pub status : ReqStatus
  pub data_fd : ℕ
  pub start : ℕ
  pub stop : ℕ
  pub buffer : Bytes
  pub buffer_start : ℕ
  pub bytes_written : ℕ

-- The count to read, 0 where the code has 0 or less: the length of the range is cut to an int, which
-- is negative from 2 ^ 31 up.
unfoldable pub bytes_to_read : FileRequest → ℕ
bytes_to_read req =
    let bytes_to_write = (req.stop + 1 - req.start) % 2 ^ 32 in
    if ltb bytes_to_write (2 ^ 31)
    then min (buffer_size - 256 - length req.buffer) bytes_to_write
    else 0

-- `buffer_start += bytes_written`, and the reset of a buffer that is sent.
abbrev pub moved_on : ℕ → FileRequest → FileRequest × Outcome
moved_on n req =
    let moved = record req {
      buffer_start = req.buffer_start + n;
      bytes_written = req.bytes_written + n;
    } in
    if length req.buffer - req.buffer_start == n
    then (record moved { buffer = []; buffer_start = 0 }, again)
    else (moved, again)

-- What follows the call of write.
abbrev pub after_file_write : Sent → FileRequest → FileRequest × Outcome
after_file_write would_block req = (req, blocked)
after_file_write failed req = (record req { status = dead }, closed)
after_file_write (wrote n) req = moved_on n req

-- The second half of io_shuffle.
unfoldable pub shuffle_write : Sent → FileRequest → FileRequest × Outcome
shuffle_write write req =
    let bytes_to_write = length req.buffer - req.buffer_start in
    let emptied = record req { buffer = []; buffer_start = 0 } in
    if bytes_to_write == 0
    then (if req.data_fd == 0 then (req, closed) else (emptied, again))
    else after_file_write write req

-- What follows the call of read.
unfoldable pub after_file_read : Got → Sent → FileRequest → FileRequest × Outcome
unfolding shuffle_write
after_file_read read_failed write req = (record req { status = dead }, closed)
after_file_read not_ready write req =
    if length req.buffer - req.buffer_start == 0 then (req, blocked) else shuffle_write write req
after_file_read eof write req = shuffle_write write (record req { data_fd = 0 })
after_file_read (got bytes) write req =
    let more = record req { buffer = req.buffer ++ bytes; start = req.start + length bytes } in
    if more.stop + 1 == more.start then (more, complete) else shuffle_write write more

-- `head` says that the method is HEAD, `seek` that lseek succeeds.
unfoldable pub io_shuffle : (head seek : Bool) → Got → Sent → FileRequest → FileRequest × Outcome
unfolding bytes_to_read shuffle_write after_file_read
io_shuffle head seek read write req =
    if head
    then (req, complete)
    else if bytes_to_read req == 0 || req.data_fd == 0
    then shuffle_write write req
    else if not seek
    then (record req { status = dead }, closed)
    else after_file_read read write req

-- io_shuffle_sendfile, where `system_bufsize` is the system's buffer for a socket. sendfile moves the
-- offset, an off_t, by the bytes that it sends; its interrupted calls are repeated.
unfoldable pub io_shuffle_sendfile :
    (head : Bool) → (system_bufsize : ℕ) → Sent → FileRequest → FileRequest × Outcome
io_shuffle_sendfile head system_bufsize sent req =
    let bytes_to_write = min (req.stop + 1 - req.start) system_bufsize in
    let finish = if leb (req.stop + 1) req.start then (req, complete) else (req, again) in
    if head
    then (req, complete)
    else if bytes_to_write == 0
    then finish
    else if leb (2 ^ 63) req.start
    then (record req { status = dead }, closed)
    else elim sent [
      | would_block ↦ (req, blocked)
      | failed ↦ (record req { status = dead }, closed)
      | wrote n ↦
          let moved = record req { start = req.start + n } in
          let counted = record moved { bytes_written = req.bytes_written + n } in
          if leb (2 ^ 63) moved.start
          then (record req { status = dead }, closed)
          else if n == 0
          then (moved, blocked)
          else if leb (moved.stop + 1) moved.start
          then (counted, complete)
          else (counted, again)
    ]
