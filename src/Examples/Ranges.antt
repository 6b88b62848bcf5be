-- ===== src/Examples/Ranges.antt =====
-- The theorems on src/range.c at concrete inputs.
use yabwf.Prelude.{
  ℕ, ◌≡◌, ◌↔◌, ◌≢◌, ◌∷◌, [], inr, refl, true, false, ◌⊎◌, codes, arith, length, All,
  starts_with_caseless,
}
use yabwf.Range.{range, Ranges, ulong_max, ranges_fixup}
use yabwf.Range.Pool.{serve, length-serve}
use yabwf.Range.Fixup.{Within, ranges_fixup-Within}
use yabwf.Range.Meaning.{ranges_fixup_long_last}
use yabwf.Range.Parser.{range_parse}
use yabwf.Range.Parser.Refusal.{range_parse-false}

abbrev fresh : Ranges
fresh = record { ranges = []; numranges = 0; pool = range 0 0 ∷ []; allocated = 1 }

abbrev holding : Ranges
holding = record fresh {
  ranges = range 0 9 ∷ range 50 ulong ∷ range ulong 7 ∷ [];
  numranges = 3;
  allocated = 4;
}
  where
    ulong : ℕ
    ulong = ulong_max 64

length-serve_example :
    (length (serve 64 100 (codes "bytes=0-9,20-") fresh).pool
      ≡ (serve 64 100 (codes "bytes=0-9,20-") fresh).allocated)
    × ((serve 64 100 (codes "bytes=0-9,20-") fresh).ranges ≡ [])
length-serve_example = length-serve 64 100 (codes "bytes=0-9,20-") fresh refl

ranges_fixup-Within_example :
    All (Within 100) (ranges_fixup 64 100 holding).0.ranges
    × (((ranges_fixup 64 100 holding).1 ≡ true) ↔ ((ranges_fixup 64 100 holding).0.ranges ≢ []))
    × (◌≡◌ {A = ℕ} 100 0 → (ranges_fixup 64 100 holding).0.ranges ≡ [])
ranges_fixup-Within_example = ranges_fixup-Within 64 100 holding

ranges_fixup_long_last_example :
    (ranges_fixup 64 600 (record fresh { ranges = range (ulong_max 64) 1000 ∷ [] })).0.ranges
    ≡ range 1 599 ∷ []
ranges_fixup_long_last_example =
    ranges_fixup_long_last 64 600 1000 (record fresh { ranges = range (ulong_max 64) 1000 ∷ [] })
      (inr refl) (omega arith) (omega arith) (omega arith) (omega arith) refl

range_parse-false_example :
    ((starts_with_caseless (codes "bytes=") (codes "bytes=1-2-3") ≡ false)
      × ((range_parse 64 (codes "bytes=1-2-3") fresh).0 ≡ fresh))
    ⊎ ((starts_with_caseless (codes "bytes=") (codes "bytes=1-2-3") ≡ true)
        × ((range_parse 64 (codes "bytes=1-2-3") fresh).0.ranges ≡ range 0 (ulong_max 64) ∷ []))
unfolding range_parse
range_parse-false_example = range_parse-false 64 (codes "bytes=1-2-3") fresh refl
