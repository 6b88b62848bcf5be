-- ===== src/Util/Host.antt =====
-- check_host of src/util.c. `none` is the result -1, and a NULL argument is `none`.
use yabwf.Prelude.{
  ℕ, ◌+◌, ◌≡◌, refl, Bool, true, false, not, ◌&&◌, ◌||◌, [], ◌∷◌, Option, none, some, ltb, ◌==◌,
  if◌then◌else◌, arith, Bytes, codes, length, is_alnum, peek, contains,
}

unfoldable pub is_label : ℕ → Bool
is_label c = is_alnum c || c == b'-'

-- The loop behind the first byte.
host_loop : Bool → ℕ → Bytes → Option ℕ
host_loop period_ok len [] = some len
host_loop period_ok len (c ∷ s) =
    let label = host_loop true (len + 1) s in
    let period = host_loop false (len + 1) s in
    if is_label c then label else if c == b'.' && period_ok then period else none

-- The byte in front of the terminator.
abbrev pub last_byte : ℕ → Bytes → ℕ
last_byte c [] = c
last_byte c (d ∷ s) = last_byte d s

unfoldable pub check_host : Option Bytes → Option ℕ
unfolding host_loop is_label
check_host none = none
check_host (some []) = none
check_host (some (c ∷ s)) =
    let scanned = host_loop false 1 s in
    if not (is_alnum c) then none else if ltb 63 (length (c ∷ s)) then none else elim scanned [
      | none ↦ none
      | some len ↦ if not (is_alnum (last_byte c s)) then none else some len
    ]

hosts :
    (check_host (some (codes "www.boa.org")) ≡ some 11)
    × (check_host (some (codes "x.org")) ≡ none)
    × (check_host (some (codes "boa.org.")) ≡ none)
    × (check_host (some (codes "a-b..c")) ≡ none)
unfolding check_host
hosts = (refl, refl, refl, refl)

-- The shape of the names that are taken.
abbrev pub all_host : Bytes → Bool
all_host [] = true
all_host (c ∷ s) = (is_label c || c == b'.') && all_host s

abbrev pub is_host : ℕ → Bytes → Bool
is_host c s =
    is_alnum c
    && not (ltb 63 (length (c ∷ s)))
    && all_host s
    && not (contains (codes "..") s)
    && not (peek s == b'.')
    && is_alnum (last_byte c s)

is_label-period : (c : ℕ) → (is_label c && c == b'.') ≡ false
unfolding is_label
is_label-period c = ground arith

==_comm : (a b : ℕ) → (a == b) ≡ (b == a)
==_comm a b = ground arith

-- One round, with its tests as plain Booleans: `l` and `p` of this byte, `q` of the next one.
round_lem :
    (l p p' q q' all pairs ok : Bool) (n : ℕ) (label period : Option ℕ)
    → p' ≡ p
    → q' ≡ q
    → (l && p) ≡ false
    → label ≡ (if all && not pairs && (true || not q) then some n else none)
    → period ≡ (if all && not pairs && (false || not q) then some n else none)
    → (if l then label else if p && ok then period else none) ≡ (
        if ((l || p) && all) && not ((p' && (q' && true)) || pairs) && (ok || not p)
        then some n
        else none)
round_lem true true p' q q' all pairs ok n label period f g h i j = cc
round_lem true false p' q q' all pairs ok n label period f g h i j = ground arith
round_lem false false p' q q' all pairs ok n label period f g h i j = ground arith
round_lem false true p' q q' all pairs ok n label period f g h i j = ground arith

host_loop_lem :
    (ok : Bool) (len : ℕ) (s : Bytes)
    → host_loop ok len s ≡ (
        if all_host s && not (contains (codes "..") s) && (ok || not (peek s == b'.'))
        then some (len + length s)
        else none)
unfolding host_loop
host_loop_lem ok len [] = ground arith
host_loop_lem ok len (c ∷ []) = ground (arith, is_label-period c)
host_loop_lem ok len (c ∷ d ∷ s) =
    let shift : len + 1 + length (d ∷ s) ≡ len + length (c ∷ d ∷ s) = omega arith in
    rw (← shift) (
      round_lem (is_label c) (c == b'.') (b'.' == c) (d == b'.') (b'.' == d) (all_host (d ∷ s))
        (contains (codes "..") (d ∷ s)) ok _ _ _ (==_comm b'.' c) (==_comm b'.' d)
        (is_label-period c) (host_loop_lem true (len + 1) (d ∷ s))
        (host_loop_lem false (len + 1) (d ∷ s)))

-- A host name is taken, with its length as the result, exactly if it has at most 63 bytes, all of
-- them letters, digits, hyphens and periods, begins and ends with a letter or digit, and no period
-- stands behind another or in the second place: a first label of one letter is refused.
pub check_host_lem :
    (c : ℕ) (s : Bytes)
    → check_host (some (c ∷ s)) ≡ (if is_host c s then some (length (c ∷ s)) else none)
unfolding check_host
check_host_lem c s = ground (arith, host_loop_lem false 1 s)
