-- ===== src/IndexDir.antt =====
-- The two escaping functions of src/index_dir.c. `bits` is the width of an unsigned long.
pub mod Names
pub mod Titles
use yabwf.Prelude.{
  ℕ, ◌+◌, ◌-◌, ◌*◌, ◌/◌, ◌%◌, ◌^◌, Bool, true, false, not, ◌&&◌, ◌||◌, List, [], ◌∷◌, ◌++◌, Option,
  none, some, leb, ◌==◌, if◌then◌else◌, Bytes, length,
}
use yabwf.Escape.{build_needs_escape, needs_escape}
use yabwf.Buffer.{html_byte}

abbrev pub html_loop : Bytes → Bytes
html_loop [] = []
html_loop (c ∷ s) = html_byte c ++ html_loop s

-- `given` says that the caller passed a buffer and `room` that malloc finds memory.
unfoldable pub html_escape_string : (given room : Bool) → Bytes → ℕ → Option Bytes
html_escape_string given room inp len =
    let dest = given || not (len * 6 % 2 ^ 32 == 0) && room in
    if not dest then none else some (html_loop inp)

-- INT_TO_HEX of this file, which writes capitals.
unfoldable pub index_int_to_hex : ℕ → ℕ
index_int_to_hex x = if leb 10 x then b'A' + (x - 10) else b'0' + x

unfoldable pub http_byte : ℕ → ℕ → Bytes
unfolding needs_escape index_int_to_hex
http_byte bits c =
    if needs_escape bits (build_needs_escape bits) c || c == b'?'
    then b'%' ∷ index_int_to_hex (c / 16 % 16) ∷ index_int_to_hex (c % 16) ∷ []
    else c ∷ []

-- What is written so far is moved by two bytes at the first colon behind another byte.
unfoldable pub http_loop : ℕ → (found_a_colon : Bool) → Bytes → Bytes → Bytes
unfolding http_byte
http_loop bits found_a_colon written [] = written
http_loop bits found_a_colon written (c ∷ s) =
    let moved = http_loop bits true (b'.' ∷ b'/' ∷ written ++ b':' ∷ []) s in
    let kept = http_loop bits found_a_colon (written ++ http_byte bits c) s in
    if c == b':' && not found_a_colon && not (length written == 0) then moved else kept

unfoldable pub http_escape_string : ℕ → (given room : Bool) → Bytes → ℕ → Option Bytes
unfolding http_loop
http_escape_string bits given room inp len =
    let buf = given || not (len * 3 % 2 ^ 32 == 0) && room in
    if not buf then none else some (http_loop bits false [] inp)
