-- ===== src/IndexDir/Titles.antt =====
-- What a directory page shows.
use yabwf.Prelude.{
  ◌*◌, ◌≡◌, ◌≤◌, refl, ap, Bool, true, [], ◌∷◌, ◌++◌, some, arith, Bytes, length, length-append,
}
use yabwf.Buffer.{html_byte}
use yabwf.Buffer.Room.{length-html_byte}
use yabwf.Buffer.Content.{encoded, IsInert, encoded-IsInert}
use yabwf.IndexDir.{html_loop, html_escape_string}

html_loop-encoded : (s : Bytes) → html_loop s ≡ encoded html_byte s
html_loop-encoded [] = refl
html_loop-encoded (c ∷ s) = ap (λ t. html_byte c ++ t) (html_loop-encoded s)

length-encoded : (s : Bytes) → length (encoded html_byte s) ≤ length s * 6
length-encoded [] = omega arith
length-encoded (c ∷ s) =
    omega (
      arith,
      length-append (html_byte c) (encoded html_byte s),
      length-html_byte c,
      length-encoded s,
    )

-- With a buffer for it, html_escape_string writes a text as req_write_escape_html encodes it, at most
-- six bytes for each byte, with no '<', '>' and '"' in it.
html_escape_string-encoded :
    (room : Bool) (s : Bytes)
    → (html_escape_string true room s (length s) ≡ some (encoded html_byte s))
      × (length (encoded html_byte s) ≤ length s * 6)
      × IsInert (encoded html_byte s)
unfolding html_escape_string
html_escape_string-encoded room s =
    (ap some (html_loop-encoded s), length-encoded s, encoded-IsInert s)
