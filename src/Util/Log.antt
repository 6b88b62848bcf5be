-- ===== src/Util/Log.antt =====
-- sanitize_log_string of src/util.c. `none` is a NULL argument.
use yabwf.Prelude.{
  ℕ, zero, suc, ◌+◌, ◌-◌, ◌≡◌, ◌≤◌, ◌<◌, refl, Bool, false, not, ◌&&◌, ◌||◌, [], ◌∷◌, ◌++◌, Option,
  none, some, leb, ◌==◌, if◌then◌else◌, arith, Bytes, codes, length, take, All, map,
}

-- LOG_SANITIZE_BUF_SIZE
abbrev pub log_sanitize_buf_size : ℕ
log_sanitize_buf_size = 2048

abbrev pub is_control : ℕ → Bool
is_control c = (leb c 0x1f && not (c == 0x09)) || c == 0x7f

abbrev pub mask : ℕ → ℕ
mask c = if is_control c then b'?' else c

-- The loop and what follows it, with the bytes that `len` leaves in front of `sizeof(buf) - 4`.
sanitize_loop : ℕ → Bytes → Bytes
sanitize_loop room [] = []
sanitize_loop zero (c ∷ s) = codes "..."
sanitize_loop (suc room) (c ∷ s) = mask c ∷ sanitize_loop room s

unfoldable pub sanitize_log_string : Option Bytes → Bytes
unfolding sanitize_loop
sanitize_log_string none = codes "(null)"
sanitize_log_string (some str) = sanitize_loop (log_sanitize_buf_size - 4) str

forged : sanitize_log_string (some (codes "a\r\nb\tc\u{7f}")) ≡ codes "a??b\tc?"
unfolding sanitize_log_string
forged = refl

sanitize_loop-fits : (room : ℕ) (s : Bytes) → length (sanitize_loop room s) ≤ room + 3
unfolding sanitize_loop
sanitize_loop-fits room [] = omega arith
sanitize_loop-fits zero (c ∷ s) = omega arith
sanitize_loop-fits (suc room) (c ∷ s) = omega (arith, sanitize_loop-fits room s)

abbrev pub IsSafe : Bytes → Type 0
IsSafe = All (λ c. is_control c ≡ false)

sanitize_loop-IsSafe : (room : ℕ) (s : Bytes) → IsSafe (sanitize_loop room s)
unfolding sanitize_loop
sanitize_loop-IsSafe room [] = tt
sanitize_loop-IsSafe zero (c ∷ s) = (refl, (refl, (refl, tt)))
sanitize_loop-IsSafe (suc room) (c ∷ s) = (ground arith, sanitize_loop-IsSafe room s)

sanitize_loop-short : (room : ℕ) (s : Bytes) → length s ≤ room → sanitize_loop room s ≡ map mask s
unfolding sanitize_loop
sanitize_loop-short room [] h = refl
sanitize_loop-short zero (c ∷ s) h = absurd (omega arith)
sanitize_loop-short (suc room) (c ∷ s) h = rw (sanitize_loop-short room s (omega arith))

sanitize_loop-long :
    (room : ℕ) (s : Bytes)
    → room < length s
    → sanitize_loop room s ≡ map mask (take room s) ++ codes "..."
unfolding sanitize_loop
sanitize_loop-long room [] h = absurd (omega arith)
sanitize_loop-long zero (c ∷ s) h = refl
sanitize_loop-long (suc room) (c ∷ s) h = rw (sanitize_loop-long room s (omega arith))

-- Whatever is logged, the result holds no control character but the tab and fits the buffer with
-- its terminator.
pub sanitize_log_string-IsSafe :
    (str : Option Bytes)
    → IsSafe (sanitize_log_string str) × (length (sanitize_log_string str) < log_sanitize_buf_size)
unfolding sanitize_log_string
sanitize_log_string-IsSafe none = ((refl, (refl, (refl, (refl, (refl, (refl, tt)))))), omega arith)
sanitize_log_string-IsSafe (some s) =
    (sanitize_loop-IsSafe 2044 s, omega (arith, sanitize_loop-fits 2044 s))

-- A text of at most 2044 bytes keeps its length and every byte that is no control character; a
-- longer one is cut there and marked by "...".
sanitize_log_string_lem :
    (s : Bytes)
    → (length s ≤ 2044 → sanitize_log_string (some s) ≡ map mask s)
      × (2044 < length s → sanitize_log_string (some s) ≡ map mask (take 2044 s) ++ codes "...")
unfolding sanitize_log_string
sanitize_log_string_lem s = (sanitize_loop-short 2044 s, sanitize_loop-long 2044 s)
