-- ===== src/Queue/Ends.antt =====
-- A request enters one of the three queues, or leaves one.
use yabwf.Prelude.{ℕ, Option, some, List, [], ◌∷◌, ◌++◌}
use yabwf.Queue.{Heap, dequeue, enqueue, Queues}
use yabwf.Queue.Linked.{IsAway}
use yabwf.Queue.Segment.{IsQueue, dequeue-IsQueue, enqueue-IsQueue}
use yabwf.Queue.Moves.{IsApart, IsApart-sym, IsApart-without, IsQueue-frame, IsAway-rest, AreQueues}

IsApart-front : (x : ℕ) (ys zs : List ℕ) → IsAway (some x) zs → IsApart ys zs → IsApart (x ∷ ys) zs
IsApart-front x ys zs away h = IsApart-sym zs (x ∷ ys) (away, IsApart-sym ys zs h)

-- A request that stands in none of three queues becomes the first of one.
enter :
    (to one two : Option ℕ) (heap : Heap) (x : ℕ) (ys zs ws : List ℕ)
    → IsQueue to heap ys
    → IsQueue one heap zs
    → IsQueue two heap ws
    → IsAway (some x) ys × IsAway (some x) zs × IsAway (some x) ws
    → IsApart ys zs
    → IsApart ys ws
    → let (to', heap') = enqueue to x heap in
      IsQueue to' heap' (x ∷ ys)
      × IsQueue one heap' zs
      × IsQueue two heap' ws
      × IsApart (x ∷ ys) zs
      × IsApart (x ∷ ys) ws
enter to one two heap x ys zs ws hy hz hw (ay, az, aw) yz yw =
    let (put, same) = enqueue-IsQueue to heap x ys hy ay in
    let heap' = (enqueue to x heap).1 in
    let xz = IsApart-front x ys zs az yz in
    let xw = IsApart-front x ys ws aw yw in
    (
      put,
      IsQueue-frame one heap heap' (x ∷ ys) zs same xz hz,
      IsQueue-frame two heap heap' (x ∷ ys) ws same xw hw,
      xz,
      xw,
    )

-- A request leaves one of three queues, and then stands in none.
leave :
    (from one two : Option ℕ) (heap : Heap) (before : List ℕ) (x : ℕ) (behind zs ws : List ℕ)
    → IsQueue from heap (before ++ x ∷ behind)
    → IsQueue one heap zs
    → IsQueue two heap ws
    → IsApart (before ++ x ∷ behind) zs
    → IsApart (before ++ x ∷ behind) ws
    → let (from', heap') = dequeue from x heap in
      IsQueue from' heap' (before ++ behind)
      × IsQueue one heap' zs
      × IsQueue two heap' ws
      × (IsApart (before ++ behind) zs × IsAway (some x) zs)
      × (IsApart (before ++ behind) ws × IsAway (some x) ws)
      × IsAway (some x) (before ++ behind)
leave from one two heap before x behind zs ws hx hz hw xz xw =
    let (taken, same) = dequeue-IsQueue from heap before x behind hx in
    let heap' = (dequeue from x heap).1 in
    (
      taken,
      IsQueue-frame one heap heap' (before ++ x ∷ behind) zs same xz hz,
      IsQueue-frame two heap heap' (before ++ x ∷ behind) ws same xw hw,
      IsApart-without before x behind zs xz,
      IsApart-without before x behind ws xw,
      IsAway-rest before x behind hx.2,
    )

-- The request stands in no queue.
abbrev pub IsOut : ℕ → (ready block free : List ℕ) → Type 0
IsOut a ready block free = IsAway (some a) ready × IsAway (some a) block × IsAway (some a) free

pub enqueue_ready-AreQueues :
    (a : ℕ) (q : Queues) (ready block free : List ℕ)
    → AreQueues q ready block free
    → IsOut a ready block free
    → let (head, heap) = enqueue q.request_ready a q.heap in
      AreQueues (record q { request_ready = head; heap = heap }) (a ∷ ready) block free
enqueue_ready-AreQueues a q ready block free h (ar, ab, af) =
    let (r, b, f, rb, rf) =
      enter q.request_ready q.request_block q.request_free q.heap a ready block free h.ready_queue
        h.block_queue h.free_queue (ar, ab, af) h.ready_block h.ready_free in
    record {
      ready_queue = r;
      block_queue = b;
      free_queue = f;
      ready_block = rb;
      ready_free = rf;
      block_free = h.block_free;
    }

pub enqueue_block-AreQueues :
    (a : ℕ) (q : Queues) (ready block free : List ℕ)
    → AreQueues q ready block free
    → IsOut a ready block free
    → let (head, heap) = enqueue q.request_block a q.heap in
      AreQueues (record q { request_block = head; heap = heap }) ready (a ∷ block) free
enqueue_block-AreQueues a q ready block free h (ar, ab, af) =
    let (b, r, f, br, bf) =
      enter q.request_block q.request_ready q.request_free q.heap a block ready free h.block_queue
        h.ready_queue h.free_queue (ab, ar, af) (IsApart-sym ready block h.ready_block)
        h.block_free in
    record {
      ready_queue = r;
      block_queue = b;
      free_queue = f;
      ready_block = IsApart-sym (a ∷ block) ready br;
      ready_free = h.ready_free;
      block_free = bf;
    }

pub enqueue_free-AreQueues :
    (a : ℕ) (q : Queues) (ready block free : List ℕ)
    → AreQueues q ready block free
    → IsOut a ready block free
    → let (head, heap) = enqueue q.request_free a q.heap in
      AreQueues (record q { request_free = head; heap = heap }) ready block (a ∷ free)
enqueue_free-AreQueues a q ready block free h (ar, ab, af) =
    let (f, r, b, fr, fb) =
      enter q.request_free q.request_ready q.request_block q.heap a free ready block h.free_queue
        h.ready_queue h.block_queue (af, ar, ab) (IsApart-sym ready free h.ready_free)
        (IsApart-sym block free h.block_free) in
    record {
      ready_queue = r;
      block_queue = b;
      free_queue = f;
      ready_block = h.ready_block;
      ready_free = IsApart-sym (a ∷ free) ready fr;
      block_free = IsApart-sym (a ∷ free) block fb;
    }

pub dequeue_ready-AreQueues :
    (a : ℕ) (q : Queues) (before behind block free : List ℕ)
    → AreQueues q (before ++ a ∷ behind) block free
    → let (head, heap) = dequeue q.request_ready a q.heap in
      AreQueues (record q { request_ready = head; heap = heap }) (before ++ behind) block free
      × IsOut a (before ++ behind) block free
dequeue_ready-AreQueues a q before behind block free h =
    let (r, b, f, (rb, ab), (rf, af), ar) =
      leave q.request_ready q.request_block q.request_free q.heap before a behind block free
        h.ready_queue h.block_queue h.free_queue h.ready_block h.ready_free in
    (
      record {
        ready_queue = r;
        block_queue = b;
        free_queue = f;
        ready_block = rb;
        ready_free = rf;
        block_free = h.block_free;
      },
      (ar, ab, af),
    )

pub dequeue_free-AreQueues :
    (a : ℕ) (q : Queues) (ready block free : List ℕ)
    → AreQueues q ready block (a ∷ free)
    → let (head, heap) = dequeue q.request_free a q.heap in
      AreQueues (record q { request_free = head; heap = heap }) ready block free
      × IsOut a ready block free
dequeue_free-AreQueues a q ready block free h =
    let (f, r, b, (fr, ar), (fb, ab), af) =
      leave q.request_free q.request_ready q.request_block q.heap [] a free ready block h.free_queue
        h.ready_queue h.block_queue (IsApart-sym ready (a ∷ free) h.ready_free)
        (IsApart-sym block (a ∷ free) h.block_free) in
    (
      record {
        ready_queue = r;
        block_queue = b;
        free_queue = f;
        ready_block = h.ready_block;
        ready_free = IsApart-sym free ready fr;
        block_free = IsApart-sym free block fb;
      },
      (ar, ab, af),
    )
