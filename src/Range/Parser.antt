-- ===== src/Range/Parser.antt =====
-- range_parse of src/range.c: a table-driven machine over the bytes of a Range header.
mod Rounds
pub mod Specs
pub mod Refusal
use Prim.Native.Nat.{bit_and}
use Prim.Native.String.{String}
use yabwf.Prelude.{
  ℕ, ◌+◌, ◌-◌, ◌*◌, ◌%◌, ◌^◌, ◌≡◌, refl, Bool, true, false, ◌&&◌, List, [], ◌∷◌, Option, none, some,
  ◌==◌, if◌then◌else◌, Bytes, codes, is_digit, has_byte, get_or, drop, starts_with_caseless,
}
use yabwf.Range.{Range, range, Ranges, uint_max, ulong_max, range_abort, range_add}

-- The states of the machine.
abbrev pub initial : ℕ
initial = 0

abbrev pub startnum : ℕ
startnum = 1

abbrev pub gap1 : ℕ
gap1 = 2

abbrev pub gap2 : ℕ
gap2 = 3

abbrev pub stopnum : ℕ
stopnum = 4

-- The action bits: push and disable the beginning and the end, abort and submit a range.
abbrev pub pb : ℕ
pb = 0x20

abbrev pub pe : ℕ
pe = 0x40

abbrev pub db : ℕ
db = 0x60

abbrev pub de : ℕ
de = 0x80

abbrev pub ar : ℕ
ar = 0x10

abbrev pub sr : ℕ
sr = 0x18

-- The character codes: digit, white, comma, hyphen, null and other.
unfoldable pub char_code : ℕ → ℕ
char_code c =
    if is_digit c
    then 0
    else if has_byte c (codes " \u{c}\n\r\t\u{b}")
    then 1
    else if c == b','
    then 2
    else if c == b'-'
    then 3
    else if c == 0
    then 4
    else 5

unfoldable pub stable : List ℕ
stable =
    -- initial
    (pb + startnum)
    ∷ initial
    ∷ initial
    ∷ (db + gap2)
    ∷ 0
    ∷ ar
    -- startnum
    ∷ (pb + startnum)
    ∷ gap1
    ∷ ar
    ∷ gap2
    ∷ ar
    ∷ ar
    -- gap1
    ∷ ar
    ∷ gap1
    ∷ ar
    ∷ gap2
    ∷ ar
    ∷ ar
    -- gap2
    ∷ (pe + stopnum)
    ∷ gap2
    ∷ (de + sr + initial)
    ∷ ar
    ∷ (de + sr)
    ∷ ar
    -- stopnum
    ∷ (pe + stopnum)
    ∷ (sr + initial)
    ∷ (sr + initial)
    ∷ ar
    ∷ sr
    ∷ ar
    ∷ []

-- The variables of the loop.
pub record Scan : Type 0 where
  pub mode : ℕ
  pub start : ℕ
  pub stop : ℕ
  pub store : Ranges

abbrev pub scan : ℕ → ℕ → ℕ → Ranges → Scan
scan mode start stop store = record { mode = mode; start = start; stop = stop; store = store }

-- `start` and `stop` after the action of a table entry.
unfoldable pub next_start : ℕ → ℕ → ℕ → ℕ → ℕ
next_start bits c fcode start =
    if bit_and fcode 0xe0 == pb
    then (start * 10 + (c - b'0')) % 2 ^ bits
    else if bit_and fcode 0xe0 == db
    then ulong_max bits
    else start

unfoldable pub next_stop : ℕ → ℕ → ℕ → ℕ → ℕ
next_stop bits c fcode stop =
    if bit_and fcode 0xe0 == pe
    then (stop * 10 + (c - b'0')) % 2 ^ bits
    else if bit_and fcode 0xe0 == de
    then ulong_max bits
    else stop

-- The abort or the submission of a table entry, with the ends that it has given; `none` is an abort.
unfoldable pub submit : ℕ → ℕ → ℕ → Ranges → Option Scan
submit fcode start stop store =
    let mode = bit_and fcode 0x07 in
    let end = bit_and fcode 0x18 in
    if end == ar
    then none
    else if end == sr
    then (if start == stop && start == uint_max
        then none
        else some (scan mode 0 0 (range_add start stop store)))
    else some (scan mode start stop store)

-- One round; `none` is an abort.
unfoldable pub scan_step : ℕ → ℕ → Scan → Option Scan
unfolding char_code stable next_start next_stop submit
scan_step bits c sc =
    let fcode = get_or stable (sc.mode * 6 + char_code c) 0 in
    submit fcode (next_start bits c fcode sc.start) (next_stop bits c fcode sc.stop) sc.store

-- The loop; the terminator, too, is read by a round. The result 0 is `false`.
unfoldable pub parse_loop : ℕ → Bytes → Scan → Ranges × Bool
parse_loop bits [] sc = elim (scan_step bits 0 sc) [
  | none ↦ (range_abort bits sc.store, false)
  | some sc' ↦ (sc'.store, true)
]
parse_loop bits (c ∷ s) sc = elim (scan_step bits c sc) [
  | none ↦ (range_abort bits sc.store, false)
  | some sc' ↦ parse_loop bits s sc'
]

unfoldable pub range_parse : ℕ → Bytes → Ranges → Ranges × Bool
unfolding parse_loop scan_step
range_parse bits str st =
    if starts_with_caseless (codes "bytes=") str
    then parse_loop bits (drop 6 str) (scan initial 0 0 st)
    else (st, false)

abbrev empty : Ranges
empty = record { ranges = []; numranges = 0; pool = []; allocated = 0 }

abbrev parsed : ℕ → String → List Range × Bool
parsed bits s = let (st, done) = range_parse bits (codes s) empty in (st.ranges, done)

parses :
    (parsed 64 "Bytes=0-10,15-20000 , 33-,-44" ≡ (
      range 0 10 ∷ range 15 20000 ∷ range 33 (ulong_max 64) ∷ range (ulong_max 64) 44 ∷ [],
      true,
    ))
    × (parsed 64 "bytes=1-x" ≡ (range 0 (ulong_max 64) ∷ [], false))
    × (parsed 64 "byte=1-2" ≡ ([], false))
unfolding range_parse range_add range_abort
parses = (refl, refl, refl)
