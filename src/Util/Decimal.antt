-- ===== src/Util/Decimal.antt =====
-- simple_itoa and boa_atoi of src/util.c.
pub mod Laws
pub mod Reading
use yabwf.Prelude.{
  ◌>>=◌, ◌>>◌, guard, ℕ, zero, suc, ◌+◌, ◌-◌, ◌*◌, ◌/◌, ◌%◌, ◌^◌, ◌≡◌, refl, not, [], ◌∷◌, Option,
  none, some, ltb, ◌==◌, if◌then◌else◌, Bytes, codes, is_digit, starts_with, peek,
}

-- The loop of simple_itoa, with the bytes left in front of `p` in the buffer `local`; `none` is a
-- write in front of the buffer.
pub itoa_loop : ℕ → ℕ → Bytes → Option Bytes
itoa_loop zero i p = none
itoa_loop (suc room) i p =
    let rest = itoa_loop room (i / 10) ((b'0' + i % 10) ∷ p) in
    if i / 10 == 0 then some ((b'0' + i % 10) ∷ p) else rest

unfoldable pub simple_itoa : ℕ → Option Bytes
unfolding itoa_loop
simple_itoa i = itoa_loop 21 i []

-- The value of the digits in front of the first byte that is none, behind `n`.
abbrev pub digits_from : ℕ → Bytes → ℕ
digits_from n [] = n
digits_from n (c ∷ s) = if is_digit c then digits_from (n * 10 + (c - b'0')) s else n

abbrev pub int_limit : ℕ
int_limit = 2 ^ 31

-- atoi of a text that begins with a digit. C leaves the result open where it does not fit an int:
-- `overflow` is what the library returns there, with `none` for a negative number.
abbrev pub atoi : (ℕ → Option ℕ) → Bytes → Option ℕ
atoi overflow s = let v = digits_from 0 s in if ltb v int_limit then some v else overflow v

-- `none` is the error result -1. The memcmp compares as many bytes as `s` has, and the terminator
-- of the shorter print differs from each of them.
unfoldable pub boa_atoi : (ℕ → Option ℕ) → Bytes → Option ℕ
boa_atoi overflow s = do
  guard (is_digit (peek s))
  retval ← atoi overflow s
  reconv ← simple_itoa retval
  guard (starts_with s reconv)
  some retval

prints :
    (simple_itoa 0 ≡ some (codes "0")) × (simple_itoa 4_294_967_295 ≡ some (codes "4294967295"))
unfolding simple_itoa
prints = (refl, refl)

reads :
    (boa_atoi (λ v. none) (codes "1024") ≡ some 1024)
    × (boa_atoi (λ v. none) (codes "007") ≡ none)
    × (boa_atoi (λ v. none) (codes "12k") ≡ none)
    × (boa_atoi (λ v. none) (codes "2147483648") ≡ none)
unfolding boa_atoi simple_itoa
reads = (refl, refl, refl, refl)
