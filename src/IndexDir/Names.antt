-- ===== src/IndexDir/Names.antt =====
-- The names of files in a directory page.
use yabwf.Prelude.{
  ℕ, ◌+◌, ◌*◌, ◌≡◌, ◌≢◌, ◌≤◌, refl, ap, ◌∙◌, sym, Bool, true, false, not, ◌&&◌, ◌||◌, ◌⊎◌, inl, inr,
  Bool-cases, [], ◌∷◌, ◌++◌, some, ◌==◌, arith, Bytes, length, length-append, peek, Lacks,
  All-append,
}
use mathlib.Core.Path.{subst}
use yabwf.Escape.{needs_escape, build_needs_escape}
use yabwf.IndexDir.{index_int_to_hex, http_byte, http_loop, http_escape_string}

length-http_byte : (bits c : ℕ) → length (http_byte bits c) ≤ 3
unfolding http_byte
length-http_byte bits c = ground arith

http_byte-Lacks : (bits c : ℕ) → c ≢ b':' → Lacks b':' (http_byte bits c)
unfolding http_byte index_int_to_hex
http_byte-Lacks bits c h = ground arith

length-http_loop :
    (bits : ℕ) (found : Bool) (written s : Bytes)
    → length (http_loop bits found written s) ≤ length written + length s * 3
unfolding http_loop
length-http_loop bits found written [] = omega arith
length-http_loop bits found written (c ∷ s) =
    let n = length-append written (b':' ∷ []) in
    let m = length-append written (http_byte bits c) in
    let moved = length-http_loop bits true (b'.' ∷ b'/' ∷ written ++ b':' ∷ []) s in
    let kept = length-http_loop bits found (written ++ http_byte bits c) s in
    elim (Bool-cases (c == b':' && not found && not (length written == 0))) [
      | inl e ↦ rw e (omega arith)
      | inr e ↦ rw e (omega (arith, length-http_byte bits c))
    ]

-- No scheme stands in front of a name: it holds no colon, or begins with one, or with "./".
abbrev pub IsRelative : Bytes → Type 0
IsRelative s = Lacks b':' s ⊎ (peek s ≡ b':') ⊎ ((t : Bytes) × (s ≡ b'.' ∷ b'/' ∷ t))

http_loop_moved :
    (bits : ℕ) (w s : Bytes)
    → (t : Bytes) × (http_loop bits true (b'.' ∷ b'/' ∷ w) s ≡ b'.' ∷ b'/' ∷ t)
unfolding http_loop
http_loop_moved bits w [] = (w, refl)
http_loop_moved bits w (c ∷ s) =
    let (t, e) = http_loop_moved bits (w ++ http_byte bits c) s in
    (t, rw (never (c == b':') (not (length (b'.' ∷ b'/' ∷ w) == 0))) e)
  where
    never : (a b : Bool) → (a && not true && b) ≡ false
    never true b = refl
    never false b = refl

http_loop_colon_first : (bits : ℕ) (w s : Bytes) → IsRelative (http_loop bits false (b':' ∷ w) s)
unfolding http_loop
http_loop_colon_first bits w [] = inr (inl refl)
http_loop_colon_first bits w (c ∷ s) =
    elim (Bool-cases (c == b':' && not false && not (length (b':' ∷ w) == 0))) [
      | inl e ↦ rw e (inr (inr (http_loop_moved bits (b':' ∷ w ++ b':' ∷ []) s)))
      | inr e ↦ rw e (http_loop_colon_first bits (w ++ http_byte bits c) s)
    ]

http_byte-cases : (bits c : ℕ) → (http_byte bits c ≡ c ∷ []) ⊎ Lacks b':' (http_byte bits c)
unfolding http_byte index_int_to_hex
http_byte-cases bits c =
    elim (Bool-cases (needs_escape bits (build_needs_escape bits) c || c == b'?')) [
      | inl e ↦ inr (rw e (ground arith))
      | inr e ↦ inl (rw e refl)
    ]

-- A byte that moves nothing. `further` is the rest of the loop.
http_loop_kept :
    (bits c : ℕ) (w s : Bytes)
    → ((w : Bytes) → Lacks b':' w → IsRelative (http_loop bits false w s))
    → Lacks b':' w
    → (c == b':' && not false && not (length w == 0)) ≡ false
    → IsRelative (http_loop bits false (w ++ http_byte bits c) s)
http_loop_kept bits c w s further h e = elim (Bool-cases (c == b':')) [
  | inr other ↦
      further (w ++ http_byte bits c)
        (All-append _ w (http_byte bits c) h (http_byte-Lacks bits c (ground arith)))
  | inl colon ↦
      let first : w ≡ [] = at_start w e colon in
      let same : c ≡ b':' = ground arith in
      subst (λ v. IsRelative (http_loop bits false (v ++ http_byte bits c) s)) (sym first)
        (elim (http_byte-cases bits c) [
          | inl plain ↦
              subst (λ v. IsRelative (http_loop bits false v s))
                (sym (plain ∙ ap (λ x. x ∷ []) same)) (http_loop_colon_first bits [] s)
          | inr lacking ↦ further (http_byte bits c) lacking
        ])
]
  where
    at_start :
        (w : Bytes)
        → (c == b':' && not false && not (length w == 0)) ≡ false
        → (c == b':') ≡ true
        → w ≡ []
    at_start [] e colon = refl
    at_start (x ∷ w) e colon = absurd (ground arith)

http_loop-IsRelative :
    (bits : ℕ) (w s : Bytes) → Lacks b':' w → IsRelative (http_loop bits false w s)
unfolding http_loop
http_loop-IsRelative bits w [] h = inl h
http_loop-IsRelative bits w (c ∷ s) h =
    elim (Bool-cases (c == b':' && not false && not (length w == 0))) [
      | inl e ↦ rw e (inr (inr (http_loop_moved bits (w ++ b':' ∷ []) s)))
      | inr e ↦ rw e (http_loop_kept bits c w s (λ v k. http_loop-IsRelative bits v s k) h e)
    ]

-- With a buffer for it, http_escape_string returns for a name a text of at most three bytes for each
-- of its bytes, also where it puts "./" in front, and no scheme of a URL stands in this text: it
-- holds no colon, or begins with one, or begins with "./".
pub http_escape_string-IsRelative :
    (bits : ℕ) (room : Bool) (name : Bytes)
    → (out : Bytes) × (http_escape_string bits true room name (length name) ≡ some out)
      × (length out ≤ length name * 3)
      × IsRelative out
unfolding http_escape_string
http_escape_string-IsRelative bits room name = (
  http_loop bits false [] name,
  refl,
  omega (arith, length-http_loop bits false [] name),
  http_loop-IsRelative bits [] name tt,
)
