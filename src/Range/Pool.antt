-- ===== src/Range/Pool.antt =====
-- No range is lost: each one that malloc gave is in the request or in the pool.
use yabwf.Prelude.{
  ℕ, ◌*◌, get_or, ◌+◌, ◌≡◌, refl, List, [], ◌∷◌, ◌++◌, some, ◌==◌, arith, length, length-append,
  Bytes, Bool-cases, inl, inr, drop, Option-cases,
}
use yabwf.Range.{
  Range, range, Ranges, range_pool_push, push_all, ranges_reset, range_abort, range_add, adjust,
  fixup_loop, ranges_fixup,
}
use yabwf.Range.Parser.{
  Scan, scan, initial, stable, char_code, next_start, next_stop, submit, scan_step, parse_loop,
  range_parse,
}

abbrev pub Accounted : Ranges → Type 0
Accounted st = st.allocated ≡ length st.ranges + length st.pool

pub push_all-pool :
    (rs : List Range) (st : Ranges)
    → (length (push_all rs st).pool ≡ length rs + length st.pool)
      × ((push_all rs st).allocated ≡ st.allocated)
      × ((push_all rs st).ranges ≡ st.ranges)
unfolding push_all
push_all-pool [] st = (omega arith, refl, refl)
push_all-pool (r ∷ rs) st = ground (arith, push_all-pool rs (range_pool_push r st))

pub ranges_reset-Accounted : (st : Ranges) → Accounted st → Accounted (ranges_reset st)
unfolding ranges_reset
ranges_reset-Accounted st h = ground (arith, push_all-pool st.ranges st)

pub ranges_reset-ranges : (st : Ranges) → (ranges_reset st).ranges ≡ []
unfolding ranges_reset
ranges_reset-ranges st = refl

pub range_abort-Accounted :
    (bits : ℕ) (st : Ranges) → Accounted st → Accounted (range_abort bits st)
unfolding range_abort
range_abort-Accounted bits st h = ground (arith, push_all-pool st.ranges st)

pub range_add-Accounted :
    (start stop : ℕ) (st : Ranges) → Accounted st → Accounted (range_add start stop st)
unfolding range_add
range_add-Accounted start stop st h =
    ground (arith, length-append st.ranges (range start stop ∷ []))

pub range_add-ranges :
    (start stop : ℕ) (st : Ranges)
    → (range_add start stop st).ranges ≡ st.ranges ++ range start stop ∷ []
unfolding range_add
range_add-ranges start stop st = ground arith

fixup_loop-allocated :
    (bits filesize : ℕ) (rs : List Range) (st : Ranges)
    → st.allocated ≡ length rs + length st.ranges + length st.pool
    → Accounted (fixup_loop bits filesize rs st)
unfolding fixup_loop
fixup_loop-allocated bits filesize [] st h = omega arith
fixup_loop-allocated bits filesize (r ∷ rs) st h =
    fixup_loop-allocated bits filesize rs _
      (ground (arith, length-append st.ranges (adjust bits filesize r ∷ [])))

pub ranges_fixup-Accounted :
    (bits filesize : ℕ) (st : Ranges) → Accounted st → Accounted (ranges_fixup bits filesize st).0
unfolding ranges_fixup
ranges_fixup-Accounted bits filesize st h = elim (Bool-cases (filesize == 0)) [
  | inl e ↦ rw e (ground (arith, push_all-pool st.ranges (record st { ranges = [] })))
  | inr e ↦ rw e (fixup_loop-allocated bits filesize st.ranges _ (omega arith))
]

submit-Accounted :
    (fcode start stop : ℕ) (store : Ranges) {sc : Scan}
    → Accounted store
    → submit fcode start stop store ≡ some sc
    → Accounted sc.store
unfolding submit
submit-Accounted fcode start stop store h e = ground (arith, range_add-Accounted start stop store h)

scan_step-Accounted :
    (bits c : ℕ) (sc : Scan) {sc' : Scan}
    → Accounted sc.store
    → scan_step bits c sc ≡ some sc'
    → Accounted sc'.store
unfolding scan_step
scan_step-Accounted bits c sc h e =
    let fcode = get_or stable (sc.mode * 6 + char_code c) 0 in
    submit-Accounted fcode (next_start bits c fcode sc.start) (next_stop bits c fcode sc.stop)
      sc.store h e

parse_loop-Accounted :
    (bits : ℕ) (s : Bytes) (sc : Scan) → Accounted sc.store → Accounted (parse_loop bits s sc).0
unfolding parse_loop
parse_loop-Accounted bits [] sc h = elim (Option-cases (scan_step bits 0 sc)) [
  | inl e ↦ rw (e, parse_loop) (range_abort-Accounted bits sc.store h)
  | inr (sc', e) ↦ rw (e, parse_loop) (scan_step-Accounted bits 0 sc h e)
]
parse_loop-Accounted bits (c ∷ s) sc h = elim (Option-cases (scan_step bits c sc)) [
  | inl e ↦ rw (e, parse_loop) (range_abort-Accounted bits sc.store h)
  | inr (sc', e) ↦
      rw (e, parse_loop) (parse_loop-Accounted bits s sc' (scan_step-Accounted bits c sc h e))
]

pub range_parse-Accounted :
    (bits : ℕ) (str : Bytes) (st : Ranges) → Accounted st → Accounted (range_parse bits str st).0
unfolding range_parse
range_parse-Accounted bits str st h =
    ground (arith, parse_loop-Accounted bits (drop 6 str) (scan initial 0 0 st) h)

abbrev pub serve : ℕ → ℕ → Bytes → Ranges → Ranges
serve bits filesize str st = ranges_reset (ranges_fixup bits filesize (range_parse bits str st).0).0

-- Over the life of a request, from a Range header of any form through the file's size to the reset,
-- no range is lost: if every range that malloc gave was in the request or in the pool, then all of
-- them, those that the header made included, are in the pool again and none is left in the request.
pub length-serve :
    (bits filesize : ℕ) (str : Bytes) (st : Ranges)
    → Accounted st
    → (length (serve bits filesize str st).pool ≡ (serve bits filesize str st).allocated)
      × ((serve bits filesize str st).ranges ≡ [])
length-serve bits filesize str st h =
    let st₁ = (range_parse bits str st).0 in
    let st₂ = (ranges_fixup bits filesize st₁).0 in
    let fixed = ranges_fixup-Accounted bits filesize st₁ (range_parse-Accounted bits str st h) in
    (
      ground (arith, ranges_reset-Accounted st₂ fixed, ranges_reset-ranges st₂),
      ranges_reset-ranges st₂,
    )
