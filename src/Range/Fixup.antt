-- ===== src/Range/Fixup.antt =====
-- What ranges_fixup leaves in a request.
use yabwf.Prelude.{
  ℕ, ◌≡◌, ◌≢◌, ◌≤◌, ◌<◌, refl, sym, true, false, List, [], ◌∷◌, ◌++◌, ◌↔◌, ◌==◌, if◌then◌else◌,
  arith, Bool-cases, inl, inr, All, append_assoc, append-nil,
}
use yabwf.Range.{
  Range, Ranges, range_pool_push, adjust, is_invalid, fixup_loop, ranges_fixup, any_left,
}
use yabwf.Range.Pool.{push_all-pool}

-- The bytes from `start` to `stop` of a file.
abbrev pub Within : ℕ → Range → Type 0
Within filesize r = (r.start ≤ r.stop) × (r.stop < filesize)

-- The ranges that can be served, in their order, each with its ends adjusted.
abbrev pub served : ℕ → ℕ → List Range → List Range
served bits filesize [] = []
served bits filesize (r ∷ rs) =
    let r' = adjust bits filesize r in
    if is_invalid bits r' then served bits filesize rs else r' ∷ served bits filesize rs

fixup_loop-served :
    (bits filesize : ℕ) (rs : List Range) (st : Ranges)
    → (fixup_loop bits filesize rs st).ranges ≡ st.ranges ++ served bits filesize rs
unfolding fixup_loop
fixup_loop-served bits filesize [] st = sym (append-nil st.ranges)
fixup_loop-served bits filesize (r ∷ rs) st = ground (
  arith,
  fixup_loop-served bits filesize rs (range_pool_push (adjust bits filesize r) st),
  fixup_loop-served bits filesize rs
      (record st { ranges = st.ranges ++ adjust bits filesize r ∷ [] }),
  append_assoc st.ranges (adjust bits filesize r ∷ []) (served bits filesize rs),
)

adjust-Within :
    (bits filesize : ℕ) (r : Range)
    → 0 < filesize
    → is_invalid bits (adjust bits filesize r) ≡ false
    → Within filesize (adjust bits filesize r)
unfolding adjust is_invalid
adjust-Within bits filesize r h e = ground arith

served-Within :
    (bits filesize : ℕ) (rs : List Range)
    → 0 < filesize
    → All (Within filesize) (served bits filesize rs)
served-Within bits filesize [] h = tt
served-Within bits filesize (r ∷ rs) h =
    ground (arith, adjust-Within bits filesize r h, served-Within bits filesize rs h)

any_left_iff : (rs : List Range) → (any_left rs ≡ true) ↔ (rs ≢ [])
any_left_iff [] = (λ h. cc, λ h. absurd (h refl))
any_left_iff (r ∷ rs) = (λ h. cc, λ h. refl)

pub fixup_ranges :
    (bits filesize : ℕ) (st : Ranges)
    → 0 < filesize
    → (ranges_fixup bits filesize st).0.ranges ≡ served bits filesize st.ranges
unfolding ranges_fixup
fixup_ranges bits filesize st h =
    ground (arith, fixup_loop-served bits filesize st.ranges (record st { ranges = [] }))

fixup_ranges_empty :
    (bits filesize : ℕ) (st : Ranges) → filesize ≡ 0 → (ranges_fixup bits filesize st).0.ranges ≡ []
unfolding ranges_fixup
fixup_ranges_empty bits filesize st h =
    ground (arith, push_all-pool st.ranges (record st { ranges = [] }))

-- Whatever ranges a request holds, those that are left name bytes of the file, in order; the result
-- is 1 exactly if one is left, and an empty file leaves none.
pub ranges_fixup-Within :
    (bits filesize : ℕ) (st : Ranges)
    → All (Within filesize) (ranges_fixup bits filesize st).0.ranges
      × (((ranges_fixup bits filesize st).1 ≡ true)
          ↔ ((ranges_fixup bits filesize st).0.ranges ≢ []))
      × (filesize ≡ 0 → (ranges_fixup bits filesize st).0.ranges ≡ [])
unfolding ranges_fixup
ranges_fixup-Within bits filesize st = elim (Bool-cases (filesize == 0)) [
  | inl e ↦
      let none_left = fixup_ranges_empty bits filesize st (ground arith) in
      (rw none_left tt, any_left_iff _, λ z. none_left)
  | inr e ↦ (
    rw (fixup_ranges bits filesize st (ground arith))
        (served-Within bits filesize st.ranges (ground arith)),
    any_left_iff _,
    λ z. absurd (ground arith),
  )
]
