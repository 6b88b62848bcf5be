-- ===== src/Util/Uri/Laws.antt =====
-- What unescape_uri leaves in the path, and where it cuts off the query.
use yabwf.Prelude.{
  ℕ, zero, suc, ◌≡◌, ◌≢◌, refl, Bool, true, [], ◌∷◌, ◌++◌, none, some, if◌then◌else◌, Bytes,
  append-nil, All, within, arith,
}
use yabwf.Util.Uri.{unescape, unescape_uri}

abbrev pub IsPrintable : Bytes → Type 0
IsPrintable = All (λ c. within 32 126 c ≡ true)

unescape-IsPrintable :
    (wanted : Bool) (k : ℕ) (s : Bytes) → IsPrintable s → IsPrintable (unescape wanted k s).uri
unfolding unescape
unescape-IsPrintable wanted k [] h = tt
unescape-IsPrintable wanted (suc k) (c ∷ s) (hc, h) = unescape-IsPrintable wanted k s h
unescape-IsPrintable wanted zero (c ∷ s) (hc, h) =
    ground (arith, unescape-IsPrintable wanted 2 s h, unescape-IsPrintable wanted 0 s h)

-- Whatever the escapes, a text of printable bytes is rewritten to printable bytes, also where the
-- text is refused: no escape brings in a control character, a terminator or a byte above 126.
pub unescape_uri-IsPrintable :
    (wanted : Bool) (s : Bytes) → IsPrintable s → IsPrintable (unescape_uri wanted s).uri
unfolding unescape_uri
unescape_uri-IsPrintable wanted s h = unescape-IsPrintable wanted 0 s h

abbrev pub IsLiteral : Bytes → Type 0
IsLiteral = All (λ c. (c ≢ b'%') × (c ≢ b'?') × (c ≢ b'#'))

unescape-IsLiteral :
    (wanted : Bool) (p s : Bytes)
    → IsLiteral p
    → unescape wanted 0 (p ++ s)
      ≡ record (unescape wanted 0 s) { uri = p ++ (unescape wanted 0 s).uri }
unfolding unescape
unescape-IsLiteral wanted [] s h = refl
unescape-IsLiteral wanted (c ∷ p) s (hc, h) = ground (arith, unescape-IsLiteral wanted p s h)

-- Bytes in front of the first '%', '?' or '#' are kept, and a '?' there cuts the text in two: the
-- path in front of it and, for a caller that asks, the query behind it, which is not decoded.
unescape_uri_query :
    (wanted : Bool) (p q : Bytes)
    → IsLiteral p
    → unescape_uri wanted (p ++ b'?' ∷ q)
      ≡ record { success = true; uri = p; query = if wanted then some q else none }
unfolding unescape_uri
unescape_uri_query wanted p q h =
    rw (unescape-IsLiteral wanted p (b'?' ∷ q) h) (unfold unescape in rw append-nil)
