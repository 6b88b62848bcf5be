-- ===== src/Range/Parser/Specs.antt =====
-- range_parse reads back every list of range specs.
use yabwf.Prelude.{ℕ, ◌^◌, ◌≡◌, ◌≢◌, ◌<◌, List, [], ◌∷◌, ◌++◌, Bytes}
use yabwf.Util.Decimal.{digits_from}
use yabwf.Util.Decimal.Laws.{IsDigits}
use yabwf.Range.{Ranges, ulong_max, range_add}
use yabwf.Range.Meaning.{Field, recorded}
use yabwf.Range.Parser.{gap2, stopnum, Scan, scan}

-- What a number of a header is written as.
pub record Numeral (n : ℕ) (s : Bytes) : Type 0 where
  pub digits : IsDigits s
  pub nonempty : s ≢ []
  pub value : digits_from 0 s ≡ n

-- What a range spec, and a list of them, is written as.
pub data Spells : Field → Bytes → Type 0 where
  pair :
      {a b : ℕ} {d e : Bytes} → Numeral a d → Numeral b e → Spells (Field.pair a b) (d ++ b'-' ∷ e)
  from : {a : ℕ} {d : Bytes} → Numeral a d → Spells (Field.from a) (d ++ b'-' ∷ [])
  last : {n : ℕ} {e : Bytes} → Numeral n e → Spells (Field.last n) (b'-' ∷ e)

pub data SpellsAll : List Field → Bytes → Type 0 where
  one : {f : Field} {s : Bytes} → Spells f s → SpellsAll (f ∷ []) s
  more :
      {f : Field} {fs : List Field} {s t : Bytes}
      → Spells f s
      → SpellsAll fs t
      → SpellsAll (f ∷ fs) (s ++ b',' ∷ t)

abbrev pub Small : Field → Type 0
Small (Field.pair a b) = (a < 2 ^ 31) × (b < 2 ^ 31)
Small (Field.from a) = a < 2 ^ 31
Small (Field.last n) = n < 2 ^ 31

module _ (bits : ℕ) where
  abbrev pub add : Field → Ranges → Ranges
  add f st = let r = recorded bits f in range_add r.start r.stop st

  abbrev pub add_all : List Field → Ranges → Ranges
  add_all [] st = st
  add_all (f ∷ fs) st = add_all fs (add f st)

  -- The machine behind the bytes of a spec.
  abbrev ready : Field → Ranges → Scan
  ready (Field.pair a b) st = scan stopnum a b st
  ready (Field.from a) st = scan gap2 a 0 st
  ready (Field.last n) st = scan stopnum (ulong_max bits) n st
