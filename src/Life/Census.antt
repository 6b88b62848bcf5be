-- ===== src/Life/Census.antt =====
-- Every request stands in one queue, and total_connections counts those that are ready or blocked.
use mathlib.Core.Path.{subst}
use yabwf.Prelude.{
  ℕ, ◌+◌, ◌%◌, ◌^◌, ◌≡◌, ◌≤◌, refl, sym, Bool, true, false, not, ◌||◌, List, [], ◌∷◌, ◌++◌, Option,
  none, some, ltb, leb, ◌==◌, if_split, Bool-cases, inl, inr, length, All, arith,
}
use yabwf.Queue.{Queues, is_at, enqueue}
use yabwf.Queue.Linked.{first, IsAway}
use yabwf.Queue.Moves.{AreQueues}
use yabwf.Queue.Ends.{
  IsOut, enqueue_ready-AreQueues, enqueue_free-AreQueues, dequeue_free-AreQueues,
}
use yabwf.Life.{
  World, Config, Arrival, from_malloc, from_free, new_request, to_ready, start_request, accepted,
  get_request,
}

abbrev pub is_in : List ℕ → ℕ → Bool
is_in [] y = false
is_in (x ∷ xs) y = (y == x) || is_in xs y

abbrev pub AreIn : List ℕ → List ℕ → Type 0
AreIn memory = All (λ y. is_in memory y ≡ true)

-- The queues hold these requests, the number of connections is that of the requests that are ready or
-- blocked, as an unsigned int, and the queues hold all requests that malloc gave but for `out` of them.
pub record IsCensus (out : ℕ) (q : Queues) (total_connections : ℕ)
    (memory ready block free : List ℕ) : Type 0 where
  pub queues : AreQueues q ready block free
  pub counted : total_connections ≡ (length ready + length block) % 2 ^ 32
  pub all_held : out + (length ready + length block + length free) ≡ length memory
  pub ready_in : AreIn memory ready
  pub block_in : AreIn memory block
  pub free_in : AreIn memory free

abbrev pub Census : World → (ready block free : List ℕ) → Type 0
Census w = IsCensus 0 w.queues w.total_connections w.memory

other_than :
    (a y : ℕ) (memory : List ℕ)
    → IsAway (some a) memory
    → is_in memory y ≡ true
    → is_at (some a) y ≡ false
other_than a y [] away h = cc
other_than a y (x ∷ memory) (ax, away) h = elim (Bool-cases (y == x)) [
  | inl e ↦ ground arith
  | inr e ↦ other_than a y memory away (ground arith)
]

-- A request that malloc has not given before stands nowhere.
IsAway-AreIn :
    (a : ℕ) (memory ys : List ℕ) → IsAway (some a) memory → AreIn memory ys → IsAway (some a) ys
IsAway-AreIn a memory [] away h = tt
IsAway-AreIn a memory (y ∷ ys) away (hy, h) =
    (other_than a y memory away hy, IsAway-AreIn a memory ys away h)

AreIn-more : (a : ℕ) (memory ys : List ℕ) → AreIn memory ys → AreIn (a ∷ memory) ys
AreIn-more a memory [] h = tt
AreIn-more a memory (y ∷ ys) (hy, h) = (ground arith, AreIn-more a memory ys h)

-- What new_request gives: a request that stands in no queue, or none.
abbrev IsTaken : (ready block : List ℕ) → Option ℕ × World → Type 0
IsTaken ready block (none, w) = (free : List ℕ) × Census w ready block free
IsTaken ready block (some a, w) =
    (free : List ℕ) × IsCensus 1 w.queues w.total_connections w.memory ready block free
    × IsOut a ready block free
    × (is_in w.memory a ≡ true)

from_malloc-IsTaken :
    (config : Config) (given : Option ℕ) (w : World) (ready block free : List ℕ)
    → Census w ready block free
    → ((a : ℕ) → given ≡ some a → IsAway (some a) w.memory)
    → IsTaken ready block (from_malloc config given w)
from_malloc-IsTaken config none w ready block free h fresh = (free, h)
from_malloc-IsTaken config (some a) w ready block free h fresh =
    let new = fresh a refl in
    (
      free,
      record {
        queues = h.queues;
        counted = h.counted;
        all_held = let whole = h.all_held in omega arith;
        ready_in = AreIn-more a w.memory ready h.ready_in;
        block_in = AreIn-more a w.memory block h.block_in;
        free_in = AreIn-more a w.memory free h.free_in;
      },
      (
        IsAway-AreIn a w.memory ready new h.ready_in,
        IsAway-AreIn a w.memory block new h.block_in,
        IsAway-AreIn a w.memory free new h.free_in,
      ),
      ground arith,
    )

new_request-IsTaken :
    (config : Config) (w : World) (ready block free : List ℕ)
    → Census w ready block free
    → ((used : List ℕ) (a : ℕ) → config.malloc used ≡ some a → IsAway (some a) used)
    → IsTaken ready block (new_request config w)
unfolding new_request
new_request-IsTaken config w ready block free h fresh =
    subst (λ given. IsTaken ready block (from_free config given w)) (sym h.queues.free_queue.0)
      (taken free h)
  where
    taken :
        (free : List ℕ)
        → Census w ready block free
        → IsTaken ready block (from_free config (first free) w)
    taken [] k =
        from_malloc-IsTaken config (config.malloc w.memory) w ready block [] k (fresh w.memory)
    taken (a ∷ free) k =
        let (queues, out) = dequeue_free-AreQueues a w.queues ready block free k.queues in
        (
          free,
          record {
            queues = queues;
            counted = k.counted;
            all_held = let whole = k.all_held in omega arith;
            ready_in = k.ready_in;
            block_in = k.block_in;
            free_in = k.free_in.1;
          },
          out,
          k.free_in.0,
        )

-- Behind get_request the ready queue has at most one request more, in front.
abbrev pub IsJoined : (ready block : List ℕ) → World → Type 0
IsJoined ready block w =
    (new : List ℕ) × (free : List ℕ) × (length new ≤ 1) × Census w (new ++ ready) block free

start_request-IsJoined :
    (config : Config) (arrival : Arrival) (fd : ℕ) (r : Option ℕ × World) (ready block : List ℕ)
    → IsTaken ready block r
    → IsJoined ready block (start_request config arrival fd r)
unfolding start_request
start_request-IsJoined config arrival fd (none, w) ready block (free, h) =
    ([], free, omega arith, h)
start_request-IsJoined config arrival fd (some a, w) ready block (free, h, out, known) =
    if_split (IsJoined ready block) (not arrival.set_up)
      (λ _. (
        [],
        a ∷ free,
        omega arith,
        record {
          queues = enqueue_free-AreQueues a w.queues ready block free h.queues out;
          counted = h.counted;
          all_held = let whole = h.all_held in omega arith;
          ready_in = h.ready_in;
          block_in = h.block_in;
          free_in = (known, h.free_in);
        },
      ))
      (λ _.
        if_split (λ w'. IsJoined ready block (to_ready a w'))
          (ltb config.max_connections ((w.total_connections + 1) % 2 ^ 32))
          (λ _. (a ∷ [], free, omega arith, joined)) (λ _. (a ∷ [], free, omega arith, joined)))
  where
    joined :
        IsCensus 0
          (record w.queues {
            request_ready = (enqueue w.queues.request_ready a w.queues.heap).0;
            heap = (enqueue w.queues.request_ready a w.queues.heap).1;
          })
          ((w.total_connections + 1) % 2 ^ 32)
          w.memory
          (a ∷ ready)
          block
          free
    joined = record {
      queues = enqueue_ready-AreQueues a w.queues ready block free h.queues out;
      counted = let old = h.counted in omega arith;
      all_held = let whole = h.all_held in omega arith;
      ready_in = (known, h.ready_in);
      block_in = h.block_in;
      free_in = h.free_in;
    }

pub get_request-IsJoined :
    (config : Config) (arrival : Arrival) (w : World) (ready block free : List ℕ)
    → Census w ready block free
    → ((used : List ℕ) (a : ℕ) → config.malloc used ≡ some a → IsAway (some a) used)
    → IsJoined ready block (get_request config arrival w)
unfolding get_request
get_request-IsJoined config arrival w ready block free h fresh = reached arrival.fd
  where
    reached : (fd : Option ℕ) → IsJoined ready block (accepted config arrival fd w)
    reached none = ([], free, omega arith, h)
    reached (some fd) =
        if_split (IsJoined ready block) (leb config.fd_setsize fd || not arrival.sockname)
          (λ _. ([], free, omega arith, h))
          (λ _.
            start_request-IsJoined config arrival fd (new_request config w) ready block
              (new_request-IsTaken config w ready block free h fresh))
