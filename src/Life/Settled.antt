-- ===== src/Life/Settled.antt =====
-- free_request of src/request.c loses no request.

use yabwf.Prelude.{
  ℕ, Bool, true, false, List, [], ◌∷◌, ◌++◌, append_assoc, if_split, length-append, All-append,
  All-append_left, All-append_right, arith,
}
use yabwf.Buffer.{Output, Sent}
use yabwf.Queue.{dequeue}
use yabwf.Queue.Ends.{enqueue_block-AreQueues, enqueue_free-AreQueues, dequeue_ready-AreQueues}
use yabwf.Life.{World, Config, put}
use yabwf.Life.Freeing.{marked, stays_open, release, flush_rest, free_or_stay, free_request}
use yabwf.Life.Census.{Census}

-- The walk over the ready queue: what stands behind the request stays there.
abbrev pub IsSettled : (behind : List ℕ) → World → Type 0
IsSettled behind w =
    (before : List ℕ) × (block : List ℕ) × (free : List ℕ) × Census w (before ++ behind) block free

release-IsSettled :
    (config : Config) (a : ℕ) (w : World) (before behind block free : List ℕ)
    → Census w (before ++ a ∷ behind) block free
    → IsSettled behind (release config a w)
unfolding release
release-IsSettled config a w before behind block free h =
    let (queues, out) = dequeue_ready-AreQueues a w.queues before behind block free h.queues in
    let ready_in = All-append_left _ before (a ∷ behind) h.ready_in in
    let (known, behind_in) = All-append_right _ before (a ∷ behind) h.ready_in in
    let rest_in = All-append _ before behind ready_in behind_in in
    let old = h.counted in
    let longer = length-append before (a ∷ behind) in
    let shorter = length-append before behind in
    let left = (dequeue w.queues.request_ready a w.queues.heap) in
    let q = record w.queues { request_ready = left.0; heap = left.1 } in
    if_split (IsSettled behind) (stays_open (marked (w.requests a)))
      (λ _. (
        before,
        a ∷ block,
        free,
        record {
          queues = enqueue_block-AreQueues a q (before ++ behind) block free queues out;
          counted = omega arith;
          all_held = let whole = h.all_held in omega arith;
          ready_in = rest_in;
          block_in = (known, h.block_in);
          free_in = h.free_in;
        },
      ))
      (λ _. (
        before,
        block,
        a ∷ free,
        record {
          queues = enqueue_free-AreQueues a q (before ++ behind) block free queues out;
          counted = omega arith;
          all_held = let whole = h.all_held in omega arith;
          ready_in = rest_in;
          block_in = h.block_in;
          free_in = (known, h.free_in);
        },
      ))

pub stays_before :
    (a : ℕ) (w : World) (before behind block free : List ℕ)
    → Census w (before ++ a ∷ behind) block free
    → Census w ((before ++ a ∷ []) ++ behind) block free
stays_before a w before behind block free h = rw (append_assoc before (a ∷ []) behind) h

pub free_request-IsSettled :
    (config : Config) (write : Sent) (a : ℕ) (w : World) (before behind block free : List ℕ)
    → Census w (before ++ a ∷ behind) block free
    → IsSettled behind (free_request config write a w)
unfolding free_request
free_request-IsSettled config write a w before behind block free h =
    settled (flush_rest write (w.requests a).output)
  where
    settled : (r : Output × Bool) → IsSettled behind (free_or_stay config a w r)
    settled (output, true) =
        (before ++ a ∷ [], block, free, stays_before a w before behind block free h)
    settled (output, false) =
        release-IsSettled config a (put a (record (w.requests a) { output = output }) w) before
          behind block free h
