-- ===== src/Escape.antt =====
-- src/escape.c, src/escape.h and escape_string of src/buffer.c. `bits` is the width of an unsigned
-- long, 32 or 64.
pub mod Table
pub mod RoundTrip
use Prim.Native.Nat.{bit_and}
use yabwf.Prelude.{
  ℕ, ◌+◌, ◌-◌, ◌*◌, ◌/◌, ◌%◌, ◌^◌, Bool, true, false, not, ◌&&◌, ◌||◌, List, [], ◌∷◌, ◌++◌, Option,
  none, some, leb, ltb, ◌==◌, ◌≡◌, refl, if◌then◌else◌, Bytes, codes, get_or, set, length,
}

abbrev pub needs_escape_bits : ℕ
needs_escape_bits = 128

abbrev pub word_length : ℕ
word_length = 32

-- NEEDS_ESCAPE_MASK, `1 << (c & 31)` in an int: where it meets an unsigned long, the sign bit fills
-- the upper half.
unfoldable pub needs_escape_mask : ℕ → ℕ → ℕ
needs_escape_mask bits c = let k = c % word_length in if k == 31 then 2 ^ bits - 2 ^ 31 else 2 ^ k

abbrev pub special : Bytes
special = codes "ABCDEFGHIJKLMNOPQRSTUVWXYZabcdefghijklmnopqrstuvwxyz0123456789-_.!~*'():@&=+$,/?"

-- `_needs_escape[NEEDS_ESCAPE_INDEX(j)] &= ~NEEDS_ESCAPE_MASK(j)`, unless j is beyond the table.
clear_bit : ℕ → List ℕ → ℕ → List ℕ
unfolding needs_escape_mask
clear_bit bits table j =
    if leb needs_escape_bits j
    then table
    else let i = j / word_length in
      set table i (bit_and (get_or table i 0) (2 ^ bits - 1 - needs_escape_mask bits j))

clear_all : ℕ → List ℕ → Bytes → List ℕ
unfolding clear_bit
clear_all bits table [] = table
clear_all bits table (j ∷ s) = clear_all bits (clear_bit bits table j) s

unfoldable pub build_needs_escape : ℕ → List ℕ
unfolding clear_all
build_needs_escape bits =
    let ones = 2 ^ bits - 1 in clear_all bits (ones ∷ ones ∷ ones ∷ ones ∷ []) special

unfoldable pub needs_escape : ℕ → List ℕ → ℕ → Bool
unfolding needs_escape_mask
needs_escape bits table c =
    leb needs_escape_bits c
    || not (bit_and (get_or table (c / word_length) 0) (needs_escape_mask bits c) == 0)

-- INT_TO_HEX
unfoldable pub int_to_hex : ℕ → ℕ
int_to_hex x = if ltb 9 x then b'a' - 10 + x else b'0' + x

-- What one byte is written as, in escape_string and in req_write_escape_http.
unfoldable pub escape_byte : ℕ → ℕ → Bytes
unfolding needs_escape int_to_hex
escape_byte bits c =
    if needs_escape bits (build_needs_escape bits) c
    then b'%' ∷ int_to_hex (c / 16 % 16) ∷ int_to_hex (c % 16) ∷ []
    else c ∷ []

escape_loop : ℕ → Bytes → Bytes
escape_loop bits [] = []
escape_loop bits (c ∷ s) = escape_byte bits c ++ escape_loop bits s

-- `given` says that the caller passed a buffer and `room` that malloc finds memory. The bound `max`
-- never moves, so it only tells the empty text from the others. It is not wrapped as an int: no name of
-- a file has 2 ^ 31 / 3 bytes.
unfoldable pub escape_string : ℕ → (given room : Bool) → Bytes → Option Bytes
unfolding escape_loop
escape_string bits given room inp =
    let max = length inp * 3 in
    let buf = given || not (max == 0) && room in
    if not buf then none else some (escape_loop bits inp)

escaped : escape_string 64 false true (codes "/a b%c?~") ≡ some (codes "/a%20b%25c?~")
unfolding escape_string escape_byte build_needs_escape
escaped = refl
