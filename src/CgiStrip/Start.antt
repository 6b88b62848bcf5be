-- ===== src/CgiStrip/Start.antt =====
-- Where the header starts in the output of a CGI program: strip_cgi_prefix of src/cgi_header.c.
use yabwf.Prelude.{
  ℕ, zero, suc, ◌+◌, ◌-◌, ◌≤◌, ◌<◌, ◌≡◌, refl, Bool, true, false, not, ◌||◌, ◌⊎◌, inl, inr, List,
  [], ◌∷◌, Option, none, some, ◌==◌, if◌then◌else◌, if_split, Bytes, starts_with_caseless, length,
  drop, arith,
}
use yabwf.CgiStrip.{
  byte_at, skip_ends, line_head, line_of, find_line_start, matches_wildcard_pattern, any_token,
  is_header_start, last_match, last_of_tokens, boundary, strip_loop, anchor, strip_cgi_prefix,
}

line_head-le : (buf : Bytes) (p : ℕ) → line_head buf p ≤ suc p
line_head-le buf zero =
    if_split (λ n. n ≤ 1) (byte_at buf 0 == b'\n') (λ _. omega arith) (λ _. omega arith)
line_head-le buf (suc p) =
    let before = line_head-le buf p in
    if_split (λ n. n ≤ suc (suc p)) (byte_at buf (suc p) == b'\n') (λ _. omega arith)
      (λ _. omega arith)

-- Behind a byte that is no line end the line starts in front of it.
line_head-before : (buf : Bytes) (p : ℕ) → (byte_at buf p == b'\n') ≡ false → line_head buf p ≤ p
line_head-before buf zero h = ground arith
line_head-before buf (suc p) h = let before = line_head-le buf p in ground arith

-- A step of the loop goes back.
line_of-le : (buf : Bytes) (pos : ℕ) → line_of buf (skip_ends buf pos) ≤ pos - 1
line_of-le buf zero = omega arith
line_of-le buf (suc p) =
    let before = line_of-le buf p in
    if_split (λ s. line_of buf s ≤ suc p - 1) (byte_at buf p == b'\n' || byte_at buf p == b'\r')
      (λ _. omega arith) (λ h. let front = line_head-before buf p (ground arith) in omega arith)

-- A place up to `pos` where a header starts.
abbrev IsFound : List Bytes → Bytes → ℕ → Option ℕ → Type 0
IsFound tokens buf pos none = Unit
IsFound tokens buf pos (some n) = (n ≤ pos) × (is_header_start tokens (drop n buf) ≡ true)

last_match-IsFound :
    (tokens : List Bytes) (test : Bytes → Bool) (buf : Bytes) (pos scan count : ℕ)
    (found : Option ℕ)
    → ((line : Bytes) → test line ≡ true → is_header_start tokens line ≡ true)
    → count ≤ suc pos - scan
    → IsFound tokens buf pos found
    → IsFound tokens buf pos (last_match test buf scan count found)
last_match-IsFound tokens test buf pos scan zero found starts le h = h
last_match-IsFound tokens test buf pos scan (suc count) found starts le h =
    last_match-IsFound tokens test buf pos (scan + 1) count
      (if test (drop scan buf) then some scan else found) starts (omega arith)
      (if_split (IsFound tokens buf pos) (test (drop scan buf))
        (λ e. (omega arith, starts (drop scan buf) e)) (λ _. h))

last_of_tokens-IsFound :
    (tokens some_tokens : List Bytes) (buf : Bytes) (line_start pos : ℕ) (found : Option ℕ)
    → ((line : Bytes) → any_token some_tokens line ≡ true → any_token tokens line ≡ true)
    → IsFound tokens buf pos found
    → IsFound tokens buf pos (last_of_tokens some_tokens buf line_start pos found)
last_of_tokens-IsFound tokens [] buf line_start pos found among h = h
last_of_tokens-IsFound tokens (token ∷ rest) buf line_start pos found among h =
    last_of_tokens-IsFound tokens rest buf line_start pos _ (λ line e. among line (ground arith))
      (last_match-IsFound tokens (starts_with_caseless token) buf pos line_start
        (pos + 1 - (line_start + length token)) found
        (λ line e. let known = among line (ground arith) in ground arith) (omega arith) h)

-- A place up to `pos` that is `pos`, or where a header starts.
abbrev pub IsBoundary : List Bytes → Bytes → ℕ → ℕ → Type 0
IsBoundary tokens buf pos n = (n ≤ pos) × ((n ≡ pos) ⊎ (is_header_start tokens (drop n buf) ≡ true))

boundary-IsBoundary :
    (tokens : List Bytes) (buf : Bytes) (line_start pos : ℕ)
    → IsBoundary tokens buf pos (boundary tokens buf line_start pos)
boundary-IsBoundary tokens buf line_start pos =
    let last_token = last_of_tokens tokens buf line_start pos none in
    chosen
      (last_match matches_wildcard_pattern buf line_start (pos + 1 - (line_start + 2)) last_token)
      (last_match-IsFound tokens matches_wildcard_pattern buf pos line_start
        (pos + 1 - (line_start + 2)) last_token (λ line e. ground arith) (omega arith)
        (last_of_tokens-IsFound tokens tokens buf line_start pos none (λ line e. e) tt))
  where
    chosen :
        (found : Option ℕ)
        → IsFound tokens buf pos found
        → IsBoundary tokens buf pos (elim found [ none ↦ pos | some scan ↦ scan ])
    chosen none h = (omega arith, inl refl)
    chosen (some scan) (le, h) = (le, inr h)

-- What the loop from `pos` gives on enough fuel.
abbrev IsStart : List Bytes → Bytes → ℕ → Option ℕ → Type 0
IsStart tokens buf pos none = ⊥
IsStart tokens buf pos (some n) = (n ≡ 0) ⊎ IsBoundary tokens buf pos n

strip_loop-IsStart :
    (fuel : ℕ) (tokens : List Bytes) (buf : Bytes) (pos : ℕ)
    → pos < fuel
    → IsStart tokens buf pos (strip_loop fuel tokens buf pos)
unfolding strip_loop find_line_start
strip_loop-IsStart zero tokens buf pos le = omega arith
strip_loop-IsStart (suc fuel) tokens buf pos le =
    let line_start = find_line_start buf pos in
    let back = line_of-le buf pos in
    let before = strip_loop fuel tokens buf line_start in
    if_split (IsStart tokens buf pos) (not (is_header_start tokens (drop line_start buf)))
      (λ _. inr (boundary-IsBoundary tokens buf line_start pos))
      (λ h.
        if_split (IsStart tokens buf pos) (line_start == 0) (λ _. inl refl)
          (λ nz.
            behind before line_start (omega arith) (ground arith)
              (strip_loop-IsStart fuel tokens buf line_start (ground arith))))
  where
    behind :
        (found : Option ℕ) (line_start : ℕ)
        → line_start ≤ pos
        → is_header_start tokens (drop line_start buf) ≡ true
        → IsStart tokens buf line_start found
        → IsStart tokens buf pos found
    behind none line_start le h never = absurd never
    behind (some n) line_start le h (inl e) = inl e
    behind (some n) line_start le h (inr (ln, inl e)) = inr (omega arith, inr (rw e h))
    behind (some n) line_start le h (inr (ln, inr e)) = inr (omega arith, inr e)

-- The place in front of which the output is dropped: the start of the output, or a place that is not
-- behind the empty line, which either is it or is one where a header starts. There must be one.
abbrev pub IsStripped : List Bytes → Bytes → Option ℕ → Type 0
IsStripped tokens buf none = ⊥
IsStripped tokens buf (some n) =
    (n ≡ 0) ⊎ (pos : ℕ) × (anchor buf ≡ some pos) × IsBoundary tokens buf pos n

-- For every output and every list of tokens strip_cgi_prefix comes to an end with a place, on the fuel that
-- it is given. That is the start of the output, or it is not behind the empty line and either is it or
-- is a place where a header starts.
pub strip_cgi_prefix-IsStripped :
    (on : Bool) (tokens : List Bytes) (buf : Bytes)
    → IsStripped tokens buf (strip_cgi_prefix on tokens buf)
unfolding strip_cgi_prefix
strip_cgi_prefix-IsStripped false tokens buf = inl refl
strip_cgi_prefix-IsStripped true tokens buf = from (anchor buf) refl
  where
    reached :
        (pos : ℕ) (found : Option ℕ)
        → anchor buf ≡ some pos
        → IsStart tokens buf pos found
        → IsStripped tokens buf found
    reached pos none e never = absurd never
    reached pos (some n) e (inl z) = inl z
    reached pos (some n) e (inr h) = inr (pos, e, h)

    from :
        (found : Option ℕ)
        → anchor buf ≡ found
        → IsStripped tokens buf
            (elim found [ none ↦ some 0 | some pos ↦ strip_loop (suc pos) tokens buf pos ])
    from none e = inl refl
    from (some pos) e =
        reached pos (strip_loop (suc pos) tokens buf pos) e
          (strip_loop-IsStart (suc pos) tokens buf pos (omega arith))
