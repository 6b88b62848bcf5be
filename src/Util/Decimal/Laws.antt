-- ===== src/Util/Decimal/Laws.antt =====
-- What simple_itoa prints, and which texts boa_atoi takes.
use native.Mathlib.Nat.{pow-suc}
use yabwf.Prelude.{
  ℕ, zero, suc, ◌+◌, ◌-◌, ◌*◌, ◌/◌, ◌%◌, ◌^◌, ◌≤◌, ◌<◌, ◌≡◌, refl, ◌∙◌, ap, inl, inr, true,
  Bool-cases, [], ◌∷◌, ◌++◌, some, ◌==◌, Bytes, is_digit, All, arith,
}
use yabwf.Util.Decimal.{itoa_loop, simple_itoa, digits_from}

abbrev pub IsDigits : Bytes → Type 0
IsDigits = All (λ c. is_digit c ≡ true)

-- A print of `i` in front of `p`: digits whose value carries on into `p`.
record Printed (i : ℕ) (p : Bytes) (s : Bytes) : Type 0 where
  digits : IsDigits s
  value : digits_from 0 s ≡ digits_from i p

pub digits_from-digit :
    (n i : ℕ) (p : Bytes) → digits_from n ((b'0' + i % 10) ∷ p) ≡ digits_from (n * 10 + i % 10) p
digits_from-digit n i p =
    let d : is_digit (b'0' + i % 10) ≡ true = ground arith in
    let e : b'0' + i % 10 - b'0' ≡ i % 10 = omega arith in rw (d, e)

last_digit : (i : ℕ) (p : Bytes) → digits_from (i / 10) ((b'0' + i % 10) ∷ p) ≡ digits_from i p
last_digit i p =
    let e : i / 10 * 10 + i % 10 ≡ i = omega arith in
    digits_from-digit (i / 10) i p ∙ ap (λ n. digits_from n p) e

one_digit :
    (i : ℕ) (p : Bytes)
    → (i / 10 == 0) ≡ true
    → digits_from 0 ((b'0' + i % 10) ∷ p) ≡ digits_from i p
one_digit i p e = let z : i / 10 ≡ 0 = ground arith in rw z at (last_digit i p)

itoa_loop-Printed :
    (room i : ℕ) (p : Bytes)
    → i < 10 ^ suc room
    → IsDigits p
    → (s : Bytes) × (itoa_loop (suc room) i p ≡ some s) × Printed i p s
unfolding itoa_loop
itoa_loop-Printed zero i p h d =
    let e : (i / 10 == 0) ≡ true = ground (arith, h) in
    ((b'0' + i % 10) ∷ p, rw e, record { digits = (ground arith, d); value = one_digit i p e })
itoa_loop-Printed (suc room) i p h d = elim (Bool-cases (i / 10 == 0)) [
  | inl e ↦
      ((b'0' + i % 10) ∷ p, rw e, record { digits = (ground arith, d); value = one_digit i p e })
  | inr e ↦
      let (s, made, printed) =
        itoa_loop-Printed room (i / 10) ((b'0' + i % 10) ∷ p) (tenth h) (ground arith, d) in
      (s, rw e made, record { digits = printed.digits; value = printed.value ∙ last_digit i p })
]
  where
    tenth : i < 10 ^ suc (suc room) → i / 10 < 10 ^ suc room
    tenth h = omega (arith, pow-suc 10 (suc room))

pub le-digits_from : (t : Bytes) (n : ℕ) → n ≤ digits_from n t
le-digits_from [] n = omega arith
le-digits_from (c ∷ t) n = ground (arith, le-digits_from t (n * 10 + (c - b'0')))

pub lt-digits_from :
    (c : ℕ) (t : Bytes) (n : ℕ) → 0 < n → is_digit c ≡ true → n < digits_from n (c ∷ t)
lt-digits_from c t n h d = rw d (omega (arith, le-digits_from t (n * 10 + (c - b'0'))))

pub digits_from-append :
    (s t : Bytes) (n : ℕ) → IsDigits s → digits_from n (s ++ t) ≡ digits_from (digits_from n s) t
digits_from-append [] t n h = refl
digits_from-append (c ∷ s) t n (d, h) = rw d (digits_from-append s t (n * 10 + (c - b'0')) h)

-- Every unsigned int fits the buffer, and its print is digits of that value.
pub simple_itoa_lem :
    (i : ℕ)
    → i < 2 ^ 32
    → (s : Bytes) × (simple_itoa i ≡ some s) × IsDigits s × (digits_from 0 s ≡ i)
unfolding simple_itoa
simple_itoa_lem i h =
    let (s, made, printed) = itoa_loop-Printed 20 i [] (omega arith) tt in
    (s, made, printed.digits, printed.value)
