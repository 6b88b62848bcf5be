-- ===== src/Prelude/CStrings.antt =====
-- C strings as the list of their bytes, without the terminator, and the libc tests on them.
use Prim.Native.Nat.{ℕ, ◌+◌, ◌-◌}
use Prim.Native.Char.{code}
use Prim.Native.String.{String}
use mathlib.Core.Path.{◌≡◌, refl, sym, ap₂}
use mathlib.Core.Logic.{◌≢◌}
use mathlib.Core.Bool.{Bool, true, false, ◌&&◌, ◌||◌}
use mathlib.Core.List.{List, [], ◌∷◌, ◌++◌}
use native.Mathlib.Omega.{arith}
use package.yabwf.Prelude.Tests.{leb, ◌==◌, if◌then◌else◌}
use package.yabwf.Prelude.Lists.{All}

abbrev pub Bytes : Type 0
Bytes = List ℕ

-- the code points of a literal: its bytes, since every literal below is ASCII
abbrev pub codes : String → Bytes
codes String.[] = []
codes (String.◌∷◌ c s) = code c ∷ codes s

abbrev pub Lacks : ℕ → Bytes → Type 0
Lacks b = All (λ c. c ≢ b)

abbrev pub within : ℕ → ℕ → ℕ → Bool
within lo hi c = leb lo c && leb c hi

-- isdigit, isalnum, tolower and toupper in the C locale
abbrev pub is_digit : ℕ → Bool
is_digit c = within b'0' b'9' c

abbrev pub is_upper : ℕ → Bool
is_upper c = within b'A' b'Z' c

abbrev pub is_lower : ℕ → Bool
is_lower c = within b'a' b'z' c

abbrev pub is_alnum : ℕ → Bool
is_alnum c = is_digit c || is_upper c || is_lower c

abbrev pub to_lower_byte : ℕ → ℕ
to_lower_byte c = if is_upper c then c + 32 else c

abbrev pub to_upper_byte : ℕ → ℕ
to_upper_byte c = if is_lower c then c - 32 else c

-- strchr(s, b) != NULL, for a byte that is not the terminator
abbrev pub has_byte : ℕ → Bytes → Bool
has_byte b [] = false
has_byte b (c ∷ s) = b == c || has_byte b s

-- *s: the terminator at the end
abbrev pub peek : Bytes → ℕ
peek [] = 0
peek (c ∷ s) = c

-- strcmp(a, b) == 0
abbrev pub bytes_eq : Bytes → Bytes → Bool
bytes_eq [] [] = true
bytes_eq [] (y ∷ ys) = false
bytes_eq (x ∷ xs) [] = false
bytes_eq (x ∷ xs) (y ∷ ys) = x == y && bytes_eq xs ys

-- strncmp(p, s, strlen(p)) == 0
abbrev pub starts_with : Bytes → Bytes → Bool
starts_with [] s = true
starts_with (p ∷ ps) [] = false
starts_with (p ∷ ps) (c ∷ s) = p == c && starts_with ps s

-- strncasecmp(p, s, strlen(p)) == 0
abbrev pub starts_with_caseless : Bytes → Bytes → Bool
starts_with_caseless [] s = true
starts_with_caseless (p ∷ ps) [] = false
starts_with_caseless (p ∷ ps) (c ∷ s) =
    to_lower_byte p == to_lower_byte c && starts_with_caseless ps s

-- strstr(s, p) != NULL
abbrev pub contains : Bytes → Bytes → Bool
contains p [] = starts_with p []
contains p (c ∷ s) = starts_with p (c ∷ s) || contains p s

pub bytes_eq_refl : (s : Bytes) → bytes_eq s s ≡ true
bytes_eq_refl [] = refl
bytes_eq_refl (c ∷ s) = ground (arith, bytes_eq_refl s)

pub bytes_eq_sound : (a b : Bytes) → bytes_eq a b ≡ true → a ≡ b
bytes_eq_sound [] [] h = refl
bytes_eq_sound [] (y ∷ ys) h = cc
bytes_eq_sound (x ∷ xs) [] h = cc
bytes_eq_sound (x ∷ xs) (y ∷ ys) h = ground (arith, bytes_eq_sound xs ys)

pub starts_with-append : (p s : Bytes) → starts_with p s ≡ true → (t : Bytes) × (s ≡ p ++ t)
starts_with-append [] s h = (s, refl)
starts_with-append (a ∷ p) [] h = absurd (cc)
starts_with-append (a ∷ p) (c ∷ s) h =
    let same : a ≡ c = ground arith in
    let (t, e) = starts_with-append p s (ground arith) in (t, ap₂ ◌∷◌ (sym same) e)

pub starts_with_refl : (s : Bytes) → starts_with s s ≡ true
starts_with_refl [] = refl
starts_with_refl (c ∷ s) = ground (arith, starts_with_refl s)
