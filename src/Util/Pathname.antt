-- ===== src/Util/Pathname.antt =====
-- clean_pathname of src/util.c. The C code rewrites the path in place with a write pointer that
-- never passes the read pointer, so what it reads is the text as it was given.
pub mod Safe
use yabwf.Prelude.{
  ℕ, zero, suc, ◌≡◌, refl, ◌&&◌, [], ◌∷◌, ◌==◌, if◌then◌else◌, Bytes, codes, peek, drop,
}

-- How far one round of the inner `while (1)` moves the read pointer; 0 is the `break`.
pub round : Bytes → ℕ
round s =
    if peek s == b'/'
    then 1
    else if peek s == b'.' && peek (drop 1 s) == b'/'
    then 2
    else if peek s == b'.' && peek (drop 1 s) == b'.' && peek (drop 2 s) == b'/'
    then 3
    else 0

-- All the rounds: the bytes stepped over, with `k` of them still to go in the current round.
pub skip_len : ℕ → Bytes → ℕ
skip_len k [] = 0
skip_len (suc k) (c ∷ s) = suc (skip_len k s)
skip_len zero (c ∷ s) = elim (round (c ∷ s)) [ zero ↦ 0 | suc k ↦ suc (skip_len k s) ]

-- The outer loop, with the count of bytes that the read pointer has still to pass.
pub clean_from : ℕ → Bytes → Bytes
clean_from k [] = []
clean_from (suc k) (c ∷ s) = clean_from k s
clean_from zero (c ∷ s) = c ∷ clean_from (if c == b'/' then skip_len 0 s else 0) s

pub clean_pathname : Bytes → Bytes
unfolding clean_from skip_len round
clean_pathname pathname = clean_from 0 pathname

dots : clean_pathname (codes "//a/./../b/.../c/..") ≡ codes "/a/b/.../c/.."
unfolding clean_pathname
dots = refl
