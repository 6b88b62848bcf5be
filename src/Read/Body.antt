-- ===== src/Read/Body.antt =====
-- read_body and write_body of src/read.c: the body of a POST, from the client into a temporary file. The
-- result of a read or a write is an argument, `none` where it was interrupted.
pub mod Whole
pub mod Turns
pub mod Moved
use yabwf.Prelude.{
  ℕ, ◌+◌, ◌-◌, ◌%◌, ◌^◌, List, [], ◌∷◌, ◌++◌, Option, none, some, ltb, leb, ◌==◌, if◌then◌else◌,
  Bytes, length, take, drop,
}
use yabwf.Buffer.{ReqStatus, body_read, body_write, buffer_size, Sent, wrote, would_block, failed}
use yabwf.Pipe.{Got, got, eof, not_ready, read_failed}

-- `held` are the bytes from header_line to header_end, `post_data` is the temporary file.
pub record Body : Type 0 where
  pub status : ReqStatus
  pub filesize : ℕ
  pub filepos : ℕ
  pub held : Bytes
  pub post_data : Bytes

-- The results -1, 0 behind boa_perror, 1, 0 behind send_r_bad_request, and that of init_cgi.
pub data Outcome : Type 0 where
  blocked closed again bad_request init_cgi : Outcome

-- `left % 2 ^ 32`, the difference of two numbers in an unsigned int.
abbrev pub unsigned_sub : ℕ → ℕ → ℕ
unsigned_sub a b = (a + 2 ^ 32 - b) % 2 ^ 32

-- bytes_to_read, cut to bytes_free.
abbrev pub body_to_read : Body → ℕ
body_to_read req =
    let bytes_free = unsigned_sub buffer_size (length req.held) in
    let bytes_to_read = unsigned_sub req.filesize req.filepos in
    if ltb bytes_free bytes_to_read then bytes_free else bytes_to_read

abbrev pub after_body_read : Option Got → Body → Body × Outcome
after_body_read none req = (req, closed)
after_body_read (some not_ready) req = (req, blocked)
after_body_read (some read_failed) req = (req, closed)
after_body_read (some eof) req = (req, bad_request)
after_body_read (some (got bytes)) req =
    (record req { status = body_write; held = req.held ++ bytes }, again)

unfoldable pub read_body : Option Got → Body → Body × Outcome
read_body read req =
    if body_to_read req == 0
    then (record req { status = body_write }, again)
    else after_body_read read req

abbrev pub body_to_write : Body → ℕ
body_to_write req =
    let bytes_to_write = length req.held in
    if ltb req.filesize (req.filepos + bytes_to_write)
    then unsigned_sub req.filesize req.filepos
    else bytes_to_write

abbrev pub after_body_write : Option Sent → Body → Body × Outcome
after_body_write none req = (req, again)
after_body_write (some would_block) req = (req, blocked)
after_body_write (some failed) req = (req, closed)
after_body_write (some (wrote n)) req = (
  record req {
    filepos = req.filepos + n;
    held = drop n req.held;
    post_data = req.post_data ++ take n req.held;
  },
  again,
)

unfoldable pub write_body : Option Sent → Body → Body × Outcome
write_body write req =
    let emptied : Body = record req { held = [] } in
    if body_to_write req == 0
    then (if leb req.filesize req.filepos
        then (emptied, init_cgi)
        else (record emptied { status = body_read }, again))
    else after_body_write write req
