-- ===== src/Util/Decimal/Reading.antt =====
-- boa_atoi takes the decimal prints of the ints, and nothing else.
use yabwf.Prelude.{
  guard, >>=-eq-some, guard-eq-some, ℕ, zero, suc, ◌<◌, ◌≡◌, refl, ◌∙◌, sym, ap, ◌↔◌, true, [], ◌∷◌,
  ◌++◌, Option, some, Bytes, codes, is_digit, starts_with, peek, All-append_left, All-append_right,
  arith, append-nil, starts_with-append, lt→ltb, starts_with_refl,
}
use yabwf.Util.Decimal.{simple_itoa, digits_from, int_limit, atoi, boa_atoi}
use yabwf.Util.Decimal.Laws.{
  IsDigits, simple_itoa_lem, le-digits_from, lt-digits_from, digits_from-append,
}

-- The library gives an int where the digits do not fit one.
abbrev pub IsInt : (ℕ → Option ℕ) → Type 0
IsInt overflow = (v r : ℕ) → overflow v ≡ some r → r < int_limit

-- What a successful boa_atoi has computed.
record Taken (overflow : ℕ → Option ℕ) (s : Bytes) (n : ℕ) : Type 0 where
  first : is_digit (peek s) ≡ true
  value : atoi overflow s ≡ some n
  reconv : Bytes
  printed : simple_itoa n ≡ some reconv
  prefix : starts_with s reconv ≡ true

boa_atoi-Taken :
    (overflow : ℕ → Option ℕ) (s : Bytes) {n : ℕ}
    → boa_atoi overflow s ≡ some n
    → Taken overflow s n
unfolding boa_atoi
boa_atoi-Taken overflow s {n} h =
    let (_, first, h₁) = >>=-eq-some (guard (is_digit (peek s))) _ h in
    let (retval, value, h₂) = >>=-eq-some (atoi overflow s) _ h₁ in
    let (reconv, printed, h₃) = >>=-eq-some (simple_itoa retval) _ h₂ in
    let (_, prefix, result) = >>=-eq-some (guard (starts_with s reconv)) _ h₃ in
    let same : retval ≡ n = cc in
    record {
      first = guard-eq-some _ first;
      value = rw (← same) value;
      reconv = reconv;
      printed = rw (← same) printed;
      prefix = guard-eq-some _ prefix;
    }

atoi-lt-int_limit :
    (overflow : ℕ → Option ℕ) (s : Bytes) (n : ℕ)
    → IsInt overflow
    → atoi overflow s ≡ some n
    → n < int_limit
atoi-lt-int_limit overflow s n int h = ground (arith, int (digits_from 0 s) n)

simple_itoa_zero : simple_itoa 0 ≡ some (codes "0")
unfolding simple_itoa
simple_itoa_zero = refl

-- Digits that go on behind `s` change the value, but for a leading zero.
same_value :
    (s t : Bytes) (n : ℕ)
    → is_digit (peek s) ≡ true
    → simple_itoa n ≡ some (s ++ t)
    → IsDigits (s ++ t)
    → digits_from n t ≡ n
    → t ≡ []
same_value s [] n d p q e = refl
same_value [] (c ∷ t) zero d p q e = cc
same_value (a ∷ []) (c ∷ t) zero d p q e = cc simple_itoa_zero
same_value (a ∷ b ∷ s) (c ∷ t) zero d p q e = cc simple_itoa_zero
same_value s (c ∷ t) (suc n) d p q e =
    let digit = (All-append_right _ s (c ∷ t) q).0 in
    absurd (omega (arith, lt-digits_from c t (suc n) (omega arith) digit))

-- The prefix that boa_atoi compares is the whole print.
Taken-whole :
    (overflow : ℕ → Option ℕ) (s : Bytes) (n : ℕ)
    → IsInt overflow
    → Taken overflow s n
    → simple_itoa n ≡ some s
Taken-whole overflow s n int taken =
    let fits = atoi-lt-int_limit overflow s n int taken.value in
    let (reconv, made, digits, value) = simple_itoa_lem n (omega (arith, fits)) in
    let same : taken.reconv ≡ reconv = cc (taken.printed, made) in
    let (t, split) = starts_with-append s reconv (rw same at taken.prefix) in
    let q : IsDigits (s ++ t) = rw split at digits in
    let carried : digits_from (digits_from 0 s) t ≡ n =
      sym (digits_from-append s t 0 (All-append_left _ s t q))
      ∙ ap (digits_from 0) (sym split)
      ∙ value in
    let exact : digits_from 0 s ≡ n =
      ground (arith, le-digits_from t (digits_from 0 s), taken.value) in
    let nothing : t ≡ [] =
      same_value s t n taken.first (made ∙ ap some split) q
        (ap (λ v. digits_from v t) (sym exact) ∙ carried) in
    made ∙ ap some (split ∙ ap (λ r. s ++ r) nothing ∙ append-nil s)

-- A print begins with a digit.
first_digit :
    (s : Bytes) (n : ℕ)
    → simple_itoa n ≡ some s
    → IsDigits s
    → digits_from 0 s ≡ n
    → is_digit (peek s) ≡ true
first_digit [] n p q e = cc (p, simple_itoa_zero)
first_digit (c ∷ s) n p (d, q) e = d

boa_atoi-simple_itoa :
    (overflow : ℕ → Option ℕ) (s : Bytes) (n : ℕ)
    → n < int_limit
    → simple_itoa n ≡ some s
    → boa_atoi overflow s ≡ some n
unfolding boa_atoi
boa_atoi-simple_itoa overflow s n fits p =
    let (s', made, digits, value) = simple_itoa_lem n (omega arith) in
    let same : s' ≡ s = cc (p, made) in
    let value' : digits_from 0 s ≡ n = rw same at value in
    let d = first_digit s n p (rw same at digits) value' in
    rw (d, value', lt→ltb n int_limit fits, p, starts_with_refl s)

-- A text is read as the number `n` exactly when `n` fits a signed int and the text is the print
-- of `n`: leading zeros, signs, spaces, trailing bytes and numbers that do not fit give -1,
-- whatever int the library's atoi returns for the last.
pub boa_atoi_iff :
    (overflow : ℕ → Option ℕ) (s : Bytes) (n : ℕ)
    → IsInt overflow
    → (boa_atoi overflow s ≡ some n) ↔ (n < int_limit) × (simple_itoa n ≡ some s)
boa_atoi_iff overflow s n int = (
  λ h.
      let taken = boa_atoi-Taken overflow s h in
      (atoi-lt-int_limit overflow s n int taken.value, Taken-whole overflow s n int taken),
  λ h. boa_atoi-simple_itoa overflow s n h.0 h.1,
)
