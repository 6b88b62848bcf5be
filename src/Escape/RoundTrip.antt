-- ===== src/Escape/RoundTrip.antt =====
-- unescape_uri undoes escape_string.
use yabwf.Prelude.{
  IsWidth, ℕ, ◌*◌, ◌/◌, ◌%◌, ◌≡◌, ◌≢◌, refl, Bool, true, not, ◌&&◌, [], ◌∷◌, ◌++◌, none, some, ◌==◌,
  Bytes, All, within, arith, Bool-cases, inl, inr, every_entry, table_entry, length, length-append,
  ◌≤◌, ◌⊎◌,
}
use yabwf.Escape.{int_to_hex, escape_byte, escape_loop, escape_string}
use yabwf.Escape.Table.{no_escape, needs_escape-build}
use yabwf.Util.Uri.{hex_to_decimal, push, unescape, unescape_uri}

hex_digits : ℕ → Bool
hex_digits c =
    let a = int_to_hex (c / 16 % 16) in
    let b = int_to_hex (c % 16) in hex_to_decimal a b == c && not (a == 0) && not (b == 0)

hex_table : every_entry 256 hex_digits ≡ true
unfolding every_entry hex_to_decimal int_to_hex hex_digits
hex_table = refl

-- A byte that survives the trip.
abbrev pub Plain : ℕ → Type 0
Plain c = (within 32 126 c ≡ true) × (c ≢ b'?')

no_escape-ne : (c : ℕ) → no_escape c ≡ true → c ≢ b'?' → (c ≢ b'%') × (c ≢ b'?') × (c ≢ b'#')
no_escape-ne c h n = ground arith

unescape-escape_byte :
    (bits c : ℕ) (wanted : Bool) (rest : Bytes)
    → IsWidth bits
    → Plain c
    → unescape wanted 0 (escape_byte bits c ++ rest) ≡ push c (unescape wanted 0 rest)
unfolding unescape escape_byte
unescape-escape_byte bits c wanted rest w (p, n) = elim (Bool-cases (no_escape c)) [
  | inl e ↦ rw (needs_escape-build bits c w, e) (ground (arith, no_escape-ne c e n))
  | inr e ↦
      rw (needs_escape-build bits c w, e)
        (unfold hex_digits in ground (arith, table_entry 256 hex_digits c hex_table))
]

unescape-escape_loop :
    (bits : ℕ) (wanted : Bool) (s : Bytes)
    → IsWidth bits
    → All Plain s
    → unescape wanted 0 (escape_loop bits s) ≡ record { success = true; uri = s; query = none }
unfolding escape_loop
unescape-escape_loop bits wanted [] w h = unfold unescape in refl
unescape-escape_loop bits wanted (c ∷ s) w (p, h) = rw (
  unescape-escape_byte bits c wanted (escape_loop bits s) w p,
  unescape-escape_loop bits wanted s w h,
)

-- A name of printable bytes without '?' that escape_string has written is read back as it was, with
-- no query cut off.
pub unescape_uri-escape_string :
    (bits : ℕ) (given room wanted : Bool) (s e : Bytes)
    → IsWidth bits
    → All Plain s
    → escape_string bits given room s ≡ some e
    → unescape_uri wanted e ≡ record { success = true; uri = s; query = none }
unfolding unescape_uri escape_string
unescape_uri-escape_string bits given room wanted s e w h made =
    let same : escape_loop bits s ≡ e = ground arith in
    rw (← same) (unescape-escape_loop bits wanted s w h)

length-escape_loop : (bits : ℕ) (s : Bytes) → length (escape_loop bits s) ≤ 3 * length s
unfolding escape_loop escape_byte
length-escape_loop bits [] = omega arith
length-escape_loop bits (c ∷ s) =
    ground
      (arith, length-append (escape_byte bits c) (escape_loop bits s), length-escape_loop bits s)

-- The result is written only where there is a buffer: one that the caller passed, or one from malloc
-- for a text that is not empty; and it fits the three bytes for each input byte that the buffer has.
escape_string_fits :
    (bits : ℕ) (given room : Bool) (s : Bytes)
    → given ≡ true ⊎ (room ≡ true) × (s ≢ [])
    → (e : Bytes) × (escape_string bits given room s ≡ some e) × (length e ≤ 3 * length s)
unfolding escape_string
escape_string_fits bits given room [] h = (escape_loop bits [], empty h, length-escape_loop bits [])
  where
    empty :
        given ≡ true ⊎ (room ≡ true) × (◌≢◌ {A = Bytes} [] [])
        → escape_string bits given room [] ≡ some (escape_loop bits [])
    empty (inl g) = rw g
    empty (inr (_, n)) = absurd (n refl)
escape_string_fits bits given room (c ∷ s) h =
    (escape_loop bits (c ∷ s), ground arith, length-escape_loop bits (c ∷ s))
