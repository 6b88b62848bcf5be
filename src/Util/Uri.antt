-- ===== src/Util/Uri.antt =====
-- unescape_uri of src/util.c and HEX_TO_DECIMAL of src/defines.h. A char is signed, so a byte from
-- 128 up is negative.
pub mod Laws
use Prim.Native.Nat.{bit_and}
use yabwf.Prelude.{
  ℕ, zero, suc, ◌+◌, ◌-◌, ◌*◌, ◌/◌, ◌%◌, ◌≡◌, refl, Bool, true, false, ◌&&◌, ◌||◌, [], ◌∷◌, Option,
  none, some, ltb, leb, ◌==◌, if◌then◌else◌, Bytes, codes, peek, drop,
}

-- One half of HEX_TO_DECIMAL, modulo 256: the sum is stored in a char.
unfoldable pub hex_value : ℕ → ℕ
hex_value c = if leb b'A' c && ltb c 128 then bit_and c 0xdf + 10 - b'A' else (c + 256 - b'0') % 256

unfoldable pub hex_to_decimal : ℕ → ℕ → ℕ
unfolding hex_value
hex_to_decimal c d = (hex_value c * 16 + hex_value d) % 256

-- The result, the rewritten text, and what `*query_string` is set to, if it is.
pub record Unescaped : Type 0 where
  pub success : Bool
  pub uri : Bytes
  pub query : Option Bytes

abbrev pub finish : Bool → Option Bytes → Unescaped
finish success query = record { success = success; uri = []; query = query }

abbrev pub push : ℕ → Unescaped → Unescaped
push c r = record r { uri = c ∷ r.uri }

-- The search behind a '#'.
abbrev pub fragment_query : Bytes → Option Bytes
fragment_query [] = none
fragment_query (c ∷ s) = if c == b'?' then some s else fragment_query s

-- The loop. `k` bytes are still to be passed; `wanted` says that `query_string` is not NULL.
unfoldable pub unescape : Bool → ℕ → Bytes → Unescaped
unescape wanted k [] = finish true none
unescape wanted (suc k) (c ∷ s) = unescape wanted k s
unescape wanted zero (c ∷ s) =
    let d = hex_to_decimal (peek s) (peek (drop 1 s)) in
    let decoded = push d (unescape wanted 2 s) in
    let copied = push c (unescape wanted 0 s) in
    if c == b'%'
    then (if peek s == 0 || peek (drop 1 s) == 0
        then finish false none
        else if ltb d 32 || ltb 126 d
        then finish false none
        else decoded)
    else if c == b'?'
    then finish true (if wanted then some s else none)
    else if c == b'#'
    then finish true (if wanted then fragment_query s else none)
    else copied

unfoldable pub unescape_uri : Bool → Bytes → Unescaped
unfolding unescape hex_to_decimal
unescape_uri wanted uri = unescape wanted 0 uri

runs :
    (unescape_uri true (codes "/a%20b?x=%31")
      ≡ record { success = true; uri = codes "/a b"; query = some (codes "x=%31") })
    × (unescape_uri true (codes "/a%0d")
        ≡ record { success = false; uri = codes "/a"; query = none })
    × (unescape_uri true (codes "/a%2")
        ≡ record { success = false; uri = codes "/a"; query = none })
    × (unescape_uri true (codes "/a#b?c")
        ≡ record { success = true; uri = codes "/a"; query = some (codes "c") })
unfolding unescape_uri
runs = (refl, refl, refl, refl)
