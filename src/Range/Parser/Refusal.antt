-- ===== src/Range/Parser/Refusal.antt =====
-- What range_parse leaves behind where it refuses a header, and bytes that it never takes.
use Prim.Native.Nat.{bit_and}
use yabwf.Prelude.{
  every_entry, table_entry, ltb, ltb→lt, ℕ, ◌+◌, ◌*◌, ◌≡◌, ◌<◌, refl, Bool, true, false, ◌⊎◌, [],
  ◌∷◌, ◌++◌, none, some, ◌==◌, arith, Bool-cases, Option-cases, inl, inr, Bytes, codes, drop,
  get_or, starts_with_caseless,
}
use yabwf.Range.{range, Ranges, ulong_max, range_abort}
use yabwf.Range.Parser.{
  initial, char_code, stable, next_start, next_stop, submit, Scan, scan, scan_step, parse_loop,
  range_parse,
}

-- A byte that is no digit, space, comma or hyphen.
abbrev pub IsForeign : ℕ → Type 0
IsForeign c = char_code c ≡ 5

submit-mode :
    (fcode start stop : ℕ) (store : Ranges) {sc : Scan}
    → submit fcode start stop store ≡ some sc
    → sc.mode ≡ bit_and fcode 0x07
unfolding submit
submit-mode fcode start stop store e = ground arith

-- The states between the rounds are those of the table, and each of them aborts at a foreign byte.
in_table : ℕ → ℕ → Bool
in_table m k = ltb (bit_and (get_or stable (m * 6 + k) 0) 0x07) 5

modes_table : every_entry 5 (λ m. every_entry 6 (in_table m)) ≡ true
unfolding every_entry stable in_table
modes_table = refl

aborts : ℕ → Bool
aborts m = bit_and (get_or stable (m * 6 + 5) 0) 0x18 == 0x10

foreign_table : every_entry 5 aborts ≡ true
unfolding every_entry stable aborts
foreign_table = refl

char_code-lt : (c : ℕ) → char_code c < 6
unfolding char_code
char_code-lt c = ground arith

scan_step-mode :
    (bits c : ℕ) (sc sc' : Scan) → sc.mode < 5 → scan_step bits c sc ≡ some sc' → sc'.mode < 5
unfolding scan_step in_table
scan_step-mode bits c sc sc' h e =
    let fcode = get_or stable (sc.mode * 6 + char_code c) 0 in
    let start = next_start bits c fcode sc.start in
    let stop = next_stop bits c fcode sc.stop in
    let row = table_entry 5 (λ m. every_entry 6 (in_table m)) sc.mode modes_table h in
    let entry = table_entry 6 (in_table sc.mode) (char_code c) row (char_code-lt c) in
    rw (submit-mode fcode start stop sc.store e) (ltb→lt _ _ entry)

scan_step-foreign :
    (bits c : ℕ) (sc : Scan) → sc.mode < 5 → IsForeign c → scan_step bits c sc ≡ none
unfolding scan_step submit aborts
scan_step-foreign bits c sc h f = rw (f, table_entry 5 aborts sc.mode foreign_table h)

-- The result of a refused header.
abbrev pub Aborted : ℕ → Ranges × Bool → Type 0
Aborted bits (st, done) = (done ≡ false) × (st.ranges ≡ range 0 (ulong_max bits) ∷ [])

range_abort-Aborted : (bits : ℕ) (st : Ranges) → Aborted bits (range_abort bits st, false)
unfolding range_abort
range_abort-Aborted bits st = (refl, refl)

parse_loop-foreign :
    (bits c : ℕ) (s t : Bytes) (sc : Scan)
    → sc.mode < 5
    → IsForeign c
    → Aborted bits (parse_loop bits (s ++ c ∷ t) sc)
unfolding parse_loop
parse_loop-foreign bits c [] t sc h f =
    rw (parse_loop, scan_step-foreign bits c sc h f) (range_abort-Aborted bits sc.store)
parse_loop-foreign bits c (d ∷ s) t sc h f = elim (Option-cases (scan_step bits d sc)) [
  | inl e ↦ rw (parse_loop, e) (range_abort-Aborted bits sc.store)
  | inr (sc', e) ↦
      rw (parse_loop, e) (parse_loop-foreign bits c s t sc' (scan_step-mode bits d sc sc' h e) f)
]

parse_loop-false :
    (bits : ℕ) (s : Bytes) (sc : Scan)
    → (parse_loop bits s sc).1 ≡ false
    → (parse_loop bits s sc).0.ranges ≡ range 0 (ulong_max bits) ∷ []
unfolding parse_loop
parse_loop-false bits [] sc h = elim (Option-cases (scan_step bits 0 sc)) [
  | inl e ↦ rw (parse_loop, e) (range_abort-Aborted bits sc.store).1
  | inr (sc', e) ↦ absurd (cc (h, e))
]
parse_loop-false bits (c ∷ s) sc h = elim (Option-cases (scan_step bits c sc)) [
  | inl e ↦ rw (parse_loop, e) (range_abort-Aborted bits sc.store).1
  | inr (sc', e) ↦ rw (parse_loop, e) (parse_loop-false bits s sc' (rw (parse_loop, e) at h))
]

-- A byte that is no digit, space, comma or hyphen, wherever it stands behind "bytes=", makes the
-- header be refused, and leaves the request with the one range (0, -1), the mark of an error.
range_parse_foreign :
    (bits c : ℕ) (s t : Bytes) (st : Ranges)
    → IsForeign c
    → Aborted bits (range_parse bits (codes "bytes=" ++ (s ++ c ∷ t)) st)
unfolding range_parse
range_parse_foreign bits c s t st f =
    parse_loop-foreign bits c s t (scan initial 0 0 st) (omega arith) f

-- Every refusal leaves one of two states: a header without the prefix "bytes=", in any case of the
-- letters, changes nothing, and any other leaves the one range (0, -1).
pub range_parse-false :
    (bits : ℕ) (str : Bytes) (st : Ranges)
    → (range_parse bits str st).1 ≡ false
    → ((starts_with_caseless (codes "bytes=") str ≡ false) × ((range_parse bits str st).0 ≡ st))
      ⊎ ((starts_with_caseless (codes "bytes=") str ≡ true)
          × ((range_parse bits str st).0.ranges ≡ range 0 (ulong_max bits) ∷ []))
unfolding range_parse
range_parse-false bits str st h = elim (Bool-cases (starts_with_caseless (codes "bytes=") str)) [
  | inl e ↦ inr (e, rw e (parse_loop-false bits (drop 6 str) _ (rw e at h)))
  | inr e ↦ inl (e, rw e)
]
