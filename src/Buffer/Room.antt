-- ===== src/Buffer/Room.antt =====
-- No write goes behind the end of the buffer.
use yabwf.Prelude.{
  ℕ, ◌-◌, ◌%◌, ◌^◌, ◌≤◌, ◌<◌, [], ◌∷◌, arith, Bytes, length, take, length-append, length-take,
}
use yabwf.Escape.{escape_byte}
use yabwf.Buffer.{
  Output, buffer_size, buffer_end, req_write, copy_loop, finish, req_write_escape_http, html_byte,
  req_write_escape_html,
}

abbrev pub HasRoom : Output → Type 0
HasRoom req = buffer_end req ≤ buffer_size

pub length-copy_loop :
    (encode : ℕ → Bytes) (guard left : ℕ) (s : Bytes)
    → ((c : ℕ) → length (encode c) ≤ guard)
    → length (copy_loop encode guard left s).0 ≤ left
unfolding copy_loop
length-copy_loop encode guard left [] h = omega arith
length-copy_loop encode guard left (c ∷ s) h = ground (
  arith,
  h c,
  length-append (encode c) (copy_loop encode guard (left - length (encode c)) s).0,
  length-copy_loop encode guard (left - length (encode c)) s h,
)

pub length-escape_byte : (bits c : ℕ) → length (escape_byte bits c) ≤ 3
unfolding escape_byte
length-escape_byte bits c = ground arith

pub length-html_byte : (c : ℕ) → length (html_byte c) ≤ 6
unfolding html_byte
length-html_byte c = ground arith

finish-HasRoom :
    (w : Bytes × Bytes) (req : Output)
    → HasRoom req
    → length w.0 ≤ buffer_size - buffer_end req
    → HasRoom (finish w req).0
finish-HasRoom (written, []) req h k = omega (arith, length-append req.buffer written)
finish-HasRoom (written, c ∷ s) req h k = omega (arith, length-append req.buffer written)

req_write-HasRoom :
    (msg : Bytes) (req : Output)
    → length msg < 2 ^ 32 - buffer_size
    → HasRoom req
    → HasRoom (req_write msg req).0
unfolding req_write
req_write-HasRoom msg req k h = ground (
  arith,
  length-append req.buffer (take (length msg % 2 ^ 32) msg),
  length-take (length msg % 2 ^ 32) msg,
)

-- Whatever is written, plainly or escaped for a URL or for HTML, a buffer that has room keeps it: the
-- guard bands of 3 and 6 bytes are enough. A message of req_write is shorter than 2 ^ 32 - 4096, as
-- its length is cut to an unsigned int.
pub writes-HasRoom :
    (bits : ℕ) (msg : Bytes) (req : Output)
    → length msg < 2 ^ 32 - buffer_size
    → HasRoom req
    → HasRoom (req_write msg req).0
      × HasRoom (req_write_escape_http bits msg req).0
      × HasRoom (req_write_escape_html msg req).0
unfolding req_write_escape_http req_write_escape_html
writes-HasRoom bits msg req k h = (
  req_write-HasRoom msg req k h,
  finish-HasRoom _ req h (length-copy_loop (escape_byte bits) 3 _ msg (length-escape_byte bits)),
  finish-HasRoom _ req h (length-copy_loop html_byte 6 _ msg length-html_byte),
)
