-- ===== src/Queue/Moves.antt =====
-- The three queues share the requests: each request stands in at most one of them.
use yabwf.Prelude.{
  ℕ, ◌≡◌, Bool, Option, none, some, List, [], ◌∷◌, ◌++◌, All, All-append_left, All-append_right,
  All-append,
}
use yabwf.Queue.{Heap, dequeue, enqueue, Queues, Waiting, FdSets, block_request, ready_request}
use yabwf.Queue.Linked.{IsLinked-frame, IsAway, IsUnique, is_at_sym}
use yabwf.Queue.Segment.{IsQueue, dequeue-IsQueue, enqueue-IsQueue}

-- No request of the second list is in the first.
abbrev pub IsApart : List ℕ → List ℕ → Type 0
IsApart xs = All (λ y. IsAway (some y) xs)

IsApart-cons : (y : ℕ) (ys xs : List ℕ) → IsAway (some y) xs → IsApart ys xs → IsApart (y ∷ ys) xs
IsApart-cons y ys [] h k = tt
IsApart-cons y ys (x ∷ xs) (h, hs) (k, ks) = ((is_at_sym y x h, k), IsApart-cons y ys xs hs ks)

IsApart-nil : (xs : List ℕ) → IsApart [] xs
IsApart-nil [] = tt
IsApart-nil (x ∷ xs) = (tt, IsApart-nil xs)

pub IsApart-sym : (xs ys : List ℕ) → IsApart xs ys → IsApart ys xs
IsApart-sym xs [] h = IsApart-nil xs
IsApart-sym xs (y ∷ ys) (h, hs) = IsApart-cons y ys xs h (IsApart-sym xs ys hs)

-- The same of the queue that a request is taken out of, and of the request.
pub IsApart-without :
    (before : List ℕ) (x : ℕ) (behind ys : List ℕ)
    → IsApart (before ++ x ∷ behind) ys
    → IsApart (before ++ behind) ys × IsAway (some x) ys
IsApart-without before x behind ys h =
    let other = IsApart-sym (before ++ x ∷ behind) ys h in
    let rest = All-append_right _ before (x ∷ behind) other in
    (
      IsApart-sym ys (before ++ behind)
          (All-append _ before behind (All-append_left _ before (x ∷ behind) other) rest.1),
      rest.0,
    )

pub IsQueue-frame :
    (head : Option ℕ) (heap heap' : Heap) (xs ys : List ℕ)
    → ((y : ℕ) → IsAway (some y) xs → heap' y ≡ heap y)
    → IsApart xs ys
    → IsQueue head heap ys
    → IsQueue head heap' ys
IsQueue-frame head heap heap' xs ys same h (at_head, linked, unique) =
    (at_head, IsLinked-frame heap heap' none ys (all_same ys h) linked, unique)
  where
    all_same : (ys : List ℕ) → IsApart xs ys → All (λ y. heap' y ≡ heap y) ys
    all_same [] h = tt
    all_same (y ∷ ys) (h, hs) = (same y h, all_same ys hs)

pub IsAway-rest :
    (before : List ℕ) (x : ℕ) (behind : List ℕ)
    → IsUnique (before ++ x ∷ behind)
    → IsAway (some x) (before ++ behind)
IsAway-rest [] x behind (away, unique) = away
IsAway-rest (a ∷ before) x behind (away, unique) = (
  is_at_sym a x (All-append_right _ before (x ∷ behind) away).0,
  IsAway-rest before x behind unique,
)

-- A request goes from the first queue to the front of the second, and a third one stays.
move :
    (from to other : Option ℕ) (heap : Heap) (before : List ℕ) (x : ℕ) (behind ys zs : List ℕ)
    → IsQueue from heap (before ++ x ∷ behind)
    → IsQueue to heap ys
    → IsQueue other heap zs
    → IsApart (before ++ x ∷ behind) ys
    → IsApart (before ++ x ∷ behind) zs
    → IsApart ys zs
    → let (from', heap') = dequeue from x heap in
      let (to', heap'') = enqueue to x heap' in
      IsQueue from' heap'' (before ++ behind)
      × IsQueue to' heap'' (x ∷ ys)
      × IsQueue other heap'' zs
      × IsApart (before ++ behind) (x ∷ ys)
      × IsApart (before ++ behind) zs
      × IsApart (x ∷ ys) zs
move from to other heap before x behind ys zs hx hy hz xy xz yz =
    let (xy', away_y) = IsApart-without before x behind ys xy in
    let (xz', away_z) = IsApart-without before x behind zs xz in
    let (taken, same) = dequeue-IsQueue from heap before x behind hx in
    let heap' = (dequeue from x heap).1 in
    let hy' = IsQueue-frame to heap heap' (before ++ x ∷ behind) ys same xy hy in
    let hz' = IsQueue-frame other heap heap' (before ++ x ∷ behind) zs same xz hz in
    let (put, same') = enqueue-IsQueue to heap' x ys hy' away_y in
    let heap'' = (enqueue to x heap').1 in
    let apart_x : IsApart (before ++ behind) (x ∷ ys) = (IsAway-rest before x behind hx.2, xy') in
    let apart_z : IsApart (x ∷ ys) zs = IsApart-sym zs (x ∷ ys) (away_z, IsApart-sym ys zs yz) in
    (
      IsQueue-frame _ heap' heap'' (x ∷ ys) (before ++ behind) same'
          (IsApart-sym (before ++ behind) (x ∷ ys) apart_x) taken,
      put,
      IsQueue-frame other heap' heap'' (x ∷ ys) zs same' apart_z hz',
      apart_x,
      xz',
      apart_z,
    )

-- The three queues hold these requests, in this order, and no request twice.
pub record AreQueues (q : Queues) (ready block free : List ℕ) : Type 0 where
  pub ready_queue : IsQueue q.request_ready q.heap ready
  pub block_queue : IsQueue q.request_block q.heap block
  pub free_queue : IsQueue q.request_free q.heap free
  pub ready_block : IsApart ready block
  pub ready_free : IsApart ready free
  pub block_free : IsApart block free

-- block_request moves a request from its place in the ready queue to the front of the blocked queue:
-- the others keep their order, the free queue stays, and no request is lost or stands in two queues.
pub block_request-AreQueues :
    (sendfile : Bool) (req : ℕ) (fields : Waiting) (q : Queues) (sets : FdSets)
    (before behind others free : List ℕ)
    → AreQueues q (before ++ req ∷ behind) others free
    → AreQueues
        (block_request sendfile req fields (q, sets)).0
        (before ++ behind)
        (req ∷ others)
        free
unfolding block_request
block_request-AreQueues sendfile req fields q sets before behind others free h =
    let (r, b, f, rb, rf, bf) =
      move q.request_ready q.request_block q.request_free q.heap before req behind others free
        h.ready_queue h.block_queue h.free_queue h.ready_block h.ready_free h.block_free in
    record {
      ready_queue = r;
      block_queue = b;
      free_queue = f;
      ready_block = rb;
      ready_free = rf;
      block_free = bf;
    }

-- ready_request moves a request from its place in the blocked queue to the front of the ready queue:
-- the others keep their order, the free queue stays, and no request is lost or stands in two queues.
pub ready_request-AreQueues :
    (sendfile : Bool) (req : ℕ) (fields : Waiting) (q : Queues) (sets : FdSets)
    (before behind others free : List ℕ)
    → AreQueues q others (before ++ req ∷ behind) free
    → AreQueues
        (ready_request sendfile req fields (q, sets)).0
        (req ∷ others)
        (before ++ behind)
        free
unfolding ready_request
ready_request-AreQueues sendfile req fields q sets before behind others free h =
    let (b, r, f, br, bf, rf) =
      move q.request_block q.request_ready q.request_free q.heap before req behind others free
        h.block_queue h.ready_queue h.free_queue
        (IsApart-sym others (before ++ req ∷ behind) h.ready_block) h.block_free h.ready_free in
    record {
      ready_queue = r;
      block_queue = b;
      free_queue = f;
      ready_block = IsApart-sym (before ++ behind) (req ∷ others) br;
      ready_free = rf;
      block_free = bf;
    }
