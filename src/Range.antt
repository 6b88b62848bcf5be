-- ===== src/Range.antt =====
-- src/range.c: the ranges of a request and the pool of unused ones. A linked list of ranges is a
-- list here, in the order of its `next` pointers; `allocated` counts the ranges that malloc
-- has given and free has not taken back; malloc succeeds, since the program ends by DIE otherwise.
pub mod Pool
pub mod Fixup
pub mod Meaning
pub mod Parser
use yabwf.Prelude.{
  ℕ, ◌+◌, ◌-◌, ◌/◌, ◌^◌, ◌≡◌, refl, Bool, true, false, ◌||◌, List, [], ◌∷◌, ◌++◌, Option, none,
  some, ltb, leb, ◌==◌, if◌then◌else◌,
}

pub record Range : Type 0 where
  pub start : ℕ
  pub stop : ℕ

abbrev pub range : ℕ → ℕ → Range
range start stop = record { start = start; stop = stop }

-- The fields of a request that range.c works on, and the pool.
pub record Ranges : Type 0 where
  pub ranges : List Range
  pub numranges : ℕ
  pub pool : List Range
  pub allocated : ℕ

-- `(unsigned) -1`, and `-1` in an unsigned long of `bits` bits.
abbrev pub uint_max : ℕ
uint_max = 2 ^ 32 - 1

abbrev pub ulong_max : ℕ → ℕ
ulong_max bits = 2 ^ bits - 1

unfoldable pub range_pool_push : Range → Ranges → Ranges
range_pool_push r st = record st { pool = r ∷ st.pool }

-- The range that is handed out is always (0, 0); only the store changes.
unfoldable pub range_pool_pop : Ranges → Ranges
range_pool_pop st = elim st.pool [
  | [] ↦ record st { allocated = st.allocated + 1 }
  | r ∷ rest ↦ record st { pool = rest }
]

pub push_all : List Range → Ranges → Ranges
unfolding range_pool_push
push_all [] st = st
push_all (r ∷ rs) st = push_all rs (range_pool_push r st)

unfoldable pub ranges_reset : Ranges → Ranges
unfolding push_all
ranges_reset st = let pushed = push_all st.ranges st in record pushed { ranges = [] }

-- Each range is popped and freed; it never calls malloc, since the pool is not empty.
free_all : List Range → Ranges → Ranges
free_all [] st = st
free_all (r ∷ rs) st = free_all rs (record st { pool = rs; allocated = st.allocated - 1 })

unfoldable pub range_pool_empty : Ranges → Ranges
unfolding free_all
range_pool_empty st = free_all st.pool st

-- One range, with the mark that no other is accepted.
unfoldable pub range_abort : ℕ → Ranges → Ranges
unfolding ranges_reset range_pool_pop
range_abort bits st = record (range_pool_pop (ranges_reset st)) {
  ranges = range 0 (ulong_max bits) ∷ [];
}

unfoldable pub range_add : ℕ → ℕ → Ranges → Ranges
unfolding range_pool_pop
range_add start stop st =
    let popped = range_pool_pop st in
    record popped {
      ranges = popped.ranges ++ range start stop ∷ [];
      numranges = popped.numranges + 1;
    }

-- The loop body of ranges_fixup up to its test: the ends that a range gets for a file of this size.
unfoldable pub adjust : ℕ → ℕ → Range → Range
adjust bits filesize r =
    let stop = if r.stop == uint_max || leb filesize r.stop then filesize - 1 else r.stop in
    if r.start == ulong_max bits then range (filesize - stop) (filesize - 1) else range r.start stop

-- `(long) r->start < 0 || r->start > r->stop`
unfoldable pub is_invalid : ℕ → Range → Bool
is_invalid bits r = leb (2 ^ (bits - 1)) r.start || ltb r.stop r.start

-- The second loop of ranges_fixup: what stays in the request, and what goes to the pool.
fixup_loop : ℕ → ℕ → List Range → Ranges → Ranges
unfolding adjust is_invalid range_pool_push
fixup_loop bits filesize [] st = st
fixup_loop bits filesize (r ∷ rs) st =
    let r' = adjust bits filesize r in
    fixup_loop bits filesize rs (
      if is_invalid bits r'
      then range_pool_push r' st
      else record st { ranges = st.ranges ++ r' ∷ [] })

-- `req->ranges != NULL`
abbrev pub any_left : List Range → Bool
any_left [] = false
any_left (r ∷ rs) = true

-- The result 0 is `false`: the caller has then sent the answer of send_r_invalid_range.
unfoldable pub ranges_fixup : ℕ → ℕ → Ranges → Ranges × Bool
unfolding fixup_loop push_all
ranges_fixup bits filesize st =
    let cleared = record st { ranges = [] } in
    let fixed =
      if filesize == 0
      then push_all st.ranges cleared
      else fixup_loop bits filesize st.ranges cleared in
    (fixed, any_left fixed.ranges)
