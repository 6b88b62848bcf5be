-- ===== src/Buffer/Content.antt =====
-- What the writes put into the buffer.
use yabwf.Prelude.{
  ℕ, ◌+◌, ◌-◌, ◌≡◌, ◌≢◌, ◌≤◌, refl, ap, Bool-cases, ◌∙◌, sym, [], ◌∷◌, ◌++◌, append-nil, Option,
  none, some, ltb, arith, Bytes, length, length-append, All, All-append, inl, inr,
}
use mathlib.Core.List.{cons-ne-nil}
use yabwf.Escape.{escape_byte}
use yabwf.Buffer.{
  dead, Output, buffer_size, buffer_end, copy_loop, finish, req_write_escape_http, html_byte,
  req_write_escape_html,
}

-- A whole message, encoded.
abbrev pub encoded : (ℕ → Bytes) → Bytes → Bytes
encoded encode [] = []
encoded encode (c ∷ s) = encode c ++ encoded encode s

-- A loop with enough room reads everything.
copy_loop-all :
    (encode : ℕ → Bytes) (guard left : ℕ) (s : Bytes)
    → length (encoded encode s) + guard ≤ left
    → copy_loop encode guard left s ≡ (encoded encode s, [])
unfolding copy_loop
copy_loop-all encode guard left [] h = refl
copy_loop-all encode guard left (c ∷ s) h = ground (
  arith,
  length-append (encode c) (encoded encode s),
  copy_loop-all encode guard (left - length (encode c)) s,
)

-- What is written is the encoding of what is read.
copy_loop-encoded :
    (encode : ℕ → Bytes) (guard left : ℕ) (s : Bytes)
    → (p : Bytes) × (s ≡ p ++ (copy_loop encode guard left s).1)
      × ((copy_loop encode guard left s).0 ≡ encoded encode p)
unfolding copy_loop
copy_loop-encoded encode guard left [] = ([], refl, refl)
copy_loop-encoded encode guard left (c ∷ s) = elim (Bool-cases (ltb left guard)) [
  | inl e ↦ ([], rw e, rw e)
  | inr e ↦
      let (p, split, wrote) = copy_loop-encoded encode guard (left - length (encode c)) s in
      (c ∷ p, rw e (ap (◌∷◌ c) split), rw e (ap (λ w. encode c ++ w) wrote))
]

-- The results of an escaping write: all of the message, or a part of it and a dead request.
abbrev pub Written : (ℕ → Bytes) → Bytes → Output → Output × Option ℕ → Type 0
Written encode msg req (req', none) =
    (p : Bytes) × (rest : Bytes) × (msg ≡ p ++ rest)
    × (rest ≢ [])
    × (req'.buffer ≡ req.buffer ++ encoded encode p)
    × (req'.status ≡ dead)
Written encode msg req (req', some n) =
    (req'.buffer ≡ req.buffer ++ encoded encode msg)
    × (req'.status ≡ req.status)
    × (n ≡ buffer_end req')

finish-Written :
    (encode : ℕ → Bytes) (msg p : Bytes) (w : Bytes × Bytes) (req : Output)
    → msg ≡ p ++ w.1
    → w.0 ≡ encoded encode p
    → Written encode msg req (finish w req)
finish-Written encode msg p (written, []) req split wrote =
    let whole : msg ≡ p = split ∙ append-nil p in
    (ap (λ w. req.buffer ++ w) (wrote ∙ ap (encoded encode) (sym whole)), refl, refl)
finish-Written encode msg p (written, c ∷ s) req split wrote =
    (p, c ∷ s, split, cons-ne-nil c s, ap (λ w. req.buffer ++ w) wrote, refl)

-- An escaping write either appends the whole message in its encoding, keeps the status and returns
-- the new end, or it appends the encoding of a part, marks the request dead and returns -1, with a
-- rest of the message left over. This holds of the encoding for URLs and of that for HTML.
pub escapes-Written :
    (bits : ℕ) (msg : Bytes) (req : Output)
    → Written (escape_byte bits) msg req (req_write_escape_http bits msg req)
      × Written html_byte msg req (req_write_escape_html msg req)
unfolding req_write_escape_http req_write_escape_html
escapes-Written bits msg req =
    let left = buffer_size - buffer_end req in
    let (p, split, wrote) = copy_loop-encoded (escape_byte bits) 3 left msg in
    let (q, split', wrote') = copy_loop-encoded html_byte 6 left msg in
    (
      finish-Written (escape_byte bits) msg p _ req split wrote,
      finish-Written html_byte msg q _ req split' wrote',
    )

-- A message whose encoding leaves the guard band free is written whole.
escapes_fit :
    (bits : ℕ) (msg : Bytes) (req : Output)
    → buffer_end req + length (encoded (escape_byte bits) msg) + 3 ≤ buffer_size
    → buffer_end req + length (encoded html_byte msg) + 6 ≤ buffer_size
    → ((req_write_escape_http bits msg req).0.buffer ≡ req.buffer ++ encoded (escape_byte bits) msg)
      × ((req_write_escape_html msg req).0.buffer ≡ req.buffer ++ encoded html_byte msg)
unfolding req_write_escape_http req_write_escape_html
escapes_fit bits msg req h k = (
  rw (copy_loop-all (escape_byte bits) 3 (buffer_size - buffer_end req) msg (omega arith)),
  rw (copy_loop-all html_byte 6 (buffer_size - buffer_end req) msg (omega arith)),
)

-- No byte that opens or closes a tag or a quoted attribute.
abbrev pub IsInert : Bytes → Type 0
IsInert = All (λ c. (c ≢ b'<') × (c ≢ b'>') × (c ≢ b'"'))

html_byte-IsInert : (c : ℕ) → IsInert (html_byte c)
unfolding html_byte
html_byte-IsInert c = ground arith

pub encoded-IsInert : (s : Bytes) → IsInert (encoded html_byte s)
encoded-IsInert [] = tt
encoded-IsInert (c ∷ s) = All-append _ (html_byte c) _ (html_byte-IsInert c) (encoded-IsInert s)

-- Whatever the message, what req_write_escape_html appends to the buffer holds no '<', '>' and '"',
-- also where it runs out of room.
req_write_escape_html-IsInert :
    (msg : Bytes) (req : Output)
    → (added : Bytes) × ((req_write_escape_html msg req).0.buffer ≡ req.buffer ++ added)
      × IsInert added
unfolding req_write_escape_html
req_write_escape_html-IsInert msg req =
    let w = copy_loop html_byte 6 (buffer_size - buffer_end req) msg in
    let (p, split, wrote) = copy_loop-encoded html_byte 6 (buffer_size - buffer_end req) msg in
    (w.0, added w, rw wrote (encoded-IsInert p))
  where
    added : (w : Bytes × Bytes) → (finish w req).0.buffer ≡ req.buffer ++ w.0
    added (written, []) = refl
    added (written, c ∷ s) = refl
