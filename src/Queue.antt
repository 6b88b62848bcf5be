-- ===== src/Queue.antt =====
-- src/queue.c: the ready, the blocked and the free queue of requests, doubly linked through the requests.
-- A request is its address; `Links` are its fields `next` and `prev`.
pub mod Segment
pub mod Moves
pub mod Ends
pub mod Linked
use yabwf.Prelude.{
  ℕ, ◌-◌, ◌≡◌, Bool, true, false, Option, none, some, ◌==◌, not, max, if◌then◌else◌,
}
use yabwf.Buffer.{
  ReqStatus, read_header, one_cr, one_lf, two_cr, body_read, body_write, write, pipe_read,
  pipe_write, ioshuffle, done, timed_out, dead,
}

pub record Links : Type 0 where
  pub next : Option ℕ
  pub prev : Option ℕ

abbrev pub Heap : Type 0
Heap = ℕ → Links

abbrev pub update : Heap → ℕ → Links → Heap
update heap a links b = if b == a then links else heap b

-- `p->next = q`, if p is not null; `p->prev = q` likewise.
abbrev pub set_next : Heap → Option ℕ → Option ℕ → Heap
set_next heap none q = heap
set_next heap (some p) q = update heap p (record { next = q; prev = (heap p).prev })

abbrev pub set_prev : Heap → Option ℕ → Option ℕ → Heap
set_prev heap none q = heap
set_prev heap (some p) q = update heap p (record { next = (heap p).next; prev = q })

abbrev pub is_at : Option ℕ → ℕ → Bool
is_at none a = false
is_at (some p) a = p == a

unfoldable pub dequeue : (head : Option ℕ) → ℕ → Heap → Option ℕ × Heap
dequeue head req heap =
    let head' = if is_at head req then (heap req).next else head in
    let heap' = set_next heap (heap req).prev (heap req).next in
    let heap'' = set_prev heap' (heap' req).next (heap' req).prev in
    (head', update heap'' req (record { next = none; prev = none }))

unfoldable pub enqueue : (head : Option ℕ) → ℕ → Heap → Option ℕ × Heap
enqueue head req heap =
    (some req, update (set_prev heap head (some req)) req (record { next = head; prev = none }))

-- request_ready, request_block and request_free.
pub record Queues : Type 0 where
  pub request_ready : Option ℕ
  pub request_block : Option ℕ
  pub request_free : Option ℕ
  pub heap : Heap

-- What the choice of a descriptor reads of a request.
pub record Waiting : Type 0 where
  pub status : ReqStatus
  pub buffer_start : ℕ
  pub buffer_end : ℕ
  pub fd : ℕ
  pub data_fd : ℕ
  pub post_data_fd : ℕ

pub data Direction : Type 0 where
  boa_read boa_write : Direction

-- The descriptor that a blocked request waits for, and for what; `sendfile` is HAVE_SENDFILE.
unfoldable pub waits_for : (sendfile : Bool) → Waiting → ℕ × Direction
waits_for sendfile req =
    if not (req.buffer_end == 0) then (req.fd, boa_write) else elim req.status [
      | ioshuffle ↦
          if not sendfile
          then (if req.buffer_end - req.buffer_start == 0
              then (req.data_fd, boa_read)
              else (req.fd, boa_write))
          else (req.fd, boa_write)
      | write ↦ (req.fd, boa_write)
      | pipe_write ↦ (req.fd, boa_write)
      | done ↦ (req.fd, boa_write)
      | pipe_read ↦ (req.data_fd, boa_read)
      | body_write ↦ (req.post_data_fd, boa_write)
      | _ ↦ (req.fd, boa_read)
    ]

-- block_read_fdset, block_write_fdset and max_fd.
pub record FdSets : Type 0 where
  pub block_read_fdset : ℕ → Bool
  pub block_write_fdset : ℕ → Bool
  pub max_fd : Option ℕ

-- `if (fd > max_fd) max_fd = fd;`, where -1 is `none`.
abbrev pub at_least : ℕ → Option ℕ → Option ℕ
at_least fd none = some fd
at_least fd (some n) = some (max fd n)

abbrev pub put_bit : ℕ → Bool → (ℕ → Bool) → ℕ → Bool
put_bit fd bit fdset a = if a == fd then bit else fdset a

-- BOA_FD_SET and BOA_FD_CLR for select.
unfoldable pub boa_fd_set : ℕ × Direction → FdSets → FdSets
boa_fd_set (fd, boa_read) sets = record sets {
  block_read_fdset = put_bit fd true sets.block_read_fdset;
  max_fd = at_least fd sets.max_fd;
}
boa_fd_set (fd, boa_write) sets = record sets {
  block_write_fdset = put_bit fd true sets.block_write_fdset;
  max_fd = at_least fd sets.max_fd;
}

unfoldable pub boa_fd_clr : ℕ × Direction → FdSets → FdSets
boa_fd_clr (fd, boa_read) sets = record sets {
  block_read_fdset = put_bit fd false sets.block_read_fdset;
}
boa_fd_clr (fd, boa_write) sets = record sets {
  block_write_fdset = put_bit fd false sets.block_write_fdset;
}

unfoldable pub block_request : (sendfile : Bool) → ℕ → Waiting → Queues × FdSets → Queues × FdSets
unfolding dequeue enqueue waits_for boa_fd_set
block_request sendfile req fields (queues, sets) =
    let (ready, heap') = dequeue queues.request_ready req queues.heap in
    let (block, heap'') = enqueue queues.request_block req heap' in
    (
      record queues { request_ready = ready; request_block = block; heap = heap'' },
      boa_fd_set (waits_for sendfile fields) sets,
    )

unfoldable pub ready_request : (sendfile : Bool) → ℕ → Waiting → Queues × FdSets → Queues × FdSets
unfolding dequeue enqueue waits_for boa_fd_clr
ready_request sendfile req fields (queues, sets) =
    let (block, heap') = dequeue queues.request_block req queues.heap in
    let (ready, heap'') = enqueue queues.request_ready req heap' in
    (
      record queues { request_ready = ready; request_block = block; heap = heap'' },
      boa_fd_clr (waits_for sendfile fields) sets,
    )
