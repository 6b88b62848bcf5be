-- ===== src/Range/Parser/Rounds.antt =====
-- Rounds of range_parse at the bytes of a well-formed spec.
use yabwf.Prelude.{
  ℕ, ◌+◌, ◌-◌, ◌*◌, ◌%◌, ◌^◌, ◌≡◌, ◌≢◌, ◌<◌, refl, ◌∙◌, true, ◌⊎◌, [], ◌∷◌, ◌++◌, some, arith, inl,
  inr, IsWidth, Bytes, is_digit,
}
use native.Mathlib.Nat.{mod-eq_of_lt}
use yabwf.Util.Decimal.{digits_from}
use yabwf.Util.Decimal.Laws.{IsDigits, le-digits_from}
use yabwf.Range.{Ranges, ulong_max}
use yabwf.Range.Parser.{
  initial, startnum, gap2, stopnum, char_code, Scan, scan, scan_step, parse_loop,
}

char_code-is_digit : (c : ℕ) → is_digit c ≡ true → char_code c ≡ 0
unfolding char_code
char_code-is_digit c d = rw d

wraps_not : (bits x : ℕ) → IsWidth bits → x < 2 ^ 31 → x % 2 ^ bits ≡ x
wraps_not bits x (inl w) h = rw w (mod-eq_of_lt (omega arith))
wraps_not bits x (inr w) h = rw w (mod-eq_of_lt (omega arith))

-- One round from each state, at the bytes of a well-formed spec.
module _ (bits : ℕ) (w : IsWidth bits) where
  start_digit :
      (mode c a b : ℕ) (st : Ranges)
      → (mode ≡ initial) ⊎ (mode ≡ startnum)
      → is_digit c ≡ true
      → a * 10 + (c - b'0') < 2 ^ 31
      → scan_step bits c (scan mode a b st) ≡ some (scan startnum (a * 10 + (c - b'0')) b st)
  unfolding scan_step
  start_digit mode c a b st (inl m) d h =
      rw (m, char_code-is_digit c d) (rw (wraps_not bits (a * 10 + (c - b'0')) w h))
  start_digit mode c a b st (inr m) d h =
      rw (m, char_code-is_digit c d) (rw (wraps_not bits (a * 10 + (c - b'0')) w h))

  stop_digit :
      (mode c a b : ℕ) (st : Ranges)
      → (mode ≡ gap2) ⊎ (mode ≡ stopnum)
      → is_digit c ≡ true
      → b * 10 + (c - b'0') < 2 ^ 31
      → scan_step bits c (scan mode a b st) ≡ some (scan stopnum a (b * 10 + (c - b'0')) st)
  unfolding scan_step
  stop_digit mode c a b st (inl m) d h =
      rw (m, char_code-is_digit c d) (rw (wraps_not bits (b * 10 + (c - b'0')) w h))
  stop_digit mode c a b st (inr m) d h =
      rw (m, char_code-is_digit c d) (rw (wraps_not bits (b * 10 + (c - b'0')) w h))

  pub parse_loop-cons :
      (c : ℕ) (s : Bytes) (sc sc' : Scan)
      → scan_step bits c sc ≡ some sc'
      → parse_loop bits (c ∷ s) sc ≡ parse_loop bits s sc'
  unfolding parse_loop
  parse_loop-cons c s sc sc' e = rw (parse_loop, e)

  start_digits :
      (d : Bytes) (a b : ℕ) (st : Ranges) (rest : Bytes)
      → IsDigits d
      → digits_from a d < 2 ^ 31
      → parse_loop bits (d ++ rest) (scan startnum a b st)
        ≡ parse_loop bits rest (scan startnum (digits_from a d) b st)
  start_digits [] a b st rest q h = refl
  start_digits (c ∷ d) a b st rest (p, q) h =
      let next = a * 10 + (c - b'0') in
      let small : digits_from next d < 2 ^ 31 = ground (arith, h) in
      parse_loop-cons c (d ++ rest) _ _
        (start_digit startnum c a b st (inr refl) p (omega (arith, le-digits_from d next)))
      ∙ start_digits d next b st rest q small
      ∙ rw p

  stop_digits :
      (d : Bytes) (a b : ℕ) (st : Ranges) (rest : Bytes)
      → IsDigits d
      → digits_from b d < 2 ^ 31
      → parse_loop bits (d ++ rest) (scan stopnum a b st)
        ≡ parse_loop bits rest (scan stopnum a (digits_from b d) st)
  stop_digits [] a b st rest q h = refl
  stop_digits (c ∷ d) a b st rest (p, q) h =
      let next = b * 10 + (c - b'0') in
      let small : digits_from next d < 2 ^ 31 = ground (arith, h) in
      parse_loop-cons c (d ++ rest) _ _
        (stop_digit stopnum c a b st (inr refl) p (omega (arith, le-digits_from d next)))
      ∙ stop_digits d a next st rest q small
      ∙ rw p

  -- The first number of a spec, and the one behind the hyphen.
  pub first_number :
      (d : Bytes) (b : ℕ) (st : Ranges) (rest : Bytes)
      → d ≢ []
      → IsDigits d
      → digits_from 0 d < 2 ^ 31
      → parse_loop bits (d ++ rest) (scan initial 0 b st)
        ≡ parse_loop bits rest (scan startnum (digits_from 0 d) b st)
  first_number [] b st rest n q h = absurd (n refl)
  first_number (c ∷ d) b st rest n (p, q) h =
      let next = 0 * 10 + (c - b'0') in
      let small : digits_from next d < 2 ^ 31 = ground (arith, h) in
      parse_loop-cons c (d ++ rest) _ _
        (start_digit initial c 0 b st (inl refl) p (omega (arith, le-digits_from d next)))
      ∙ start_digits d next b st rest q small
      ∙ rw p

  pub second_number :
      (d : Bytes) (a : ℕ) (st : Ranges) (rest : Bytes)
      → d ≢ []
      → IsDigits d
      → digits_from 0 d < 2 ^ 31
      → parse_loop bits (d ++ rest) (scan gap2 a 0 st)
        ≡ parse_loop bits rest (scan stopnum a (digits_from 0 d) st)
  second_number [] a st rest n q h = absurd (n refl)
  second_number (c ∷ d) a st rest n (p, q) h =
      let next = 0 * 10 + (c - b'0') in
      let small : digits_from next d < 2 ^ 31 = ground (arith, h) in
      parse_loop-cons c (d ++ rest) _ _
        (stop_digit gap2 c a 0 st (inl refl) p (omega (arith, le-digits_from d next)))
      ∙ stop_digits d a next st rest q small
      ∙ rw p

  pub hyphen :
      (a b : ℕ) (st : Ranges) → scan_step bits b'-' (scan startnum a b st) ≡ some (scan gap2 a b st)
  unfolding scan_step
  hyphen a b st = refl

  pub hyphen_first :
      (a b : ℕ) (st : Ranges)
      → scan_step bits b'-' (scan initial a b st) ≡ some (scan gap2 (ulong_max bits) b st)
  unfolding scan_step
  hyphen_first a b st = refl
