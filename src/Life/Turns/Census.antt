-- ===== src/Life/Turns/Census.antt =====
-- A round over the ready queue comes to an end and loses no request.
use mathlib.Core.Path.{subst}
use yabwf.Prelude.{
  ℕ, ◌+◌, ◌≡◌, ◌≤◌, ap, sym, if_split, Bool, List, [], ◌∷◌, ◌++◌, append_assoc, Option, none, some,
  length, length-append, All-append, All-append_left, All-append_right, arith,
}
use yabwf.Queue.Linked.{first, IsAway, linked_at}
use yabwf.Queue.Moves.{block_request-AreQueues}
use yabwf.Life.{World, Config, Arrival, put}
use yabwf.Life.Census.{Census, IsJoined, get_request-IsJoined}
use yabwf.Life.Settled.{IsSettled, stays_before, free_request-IsSettled}
use yabwf.Life.Turns.{
  Retval, is_blocked, is_complete, more_to_do, unknown, Turn, serve, waiting, now_used, settle,
  get_pending, process_request, process_loop, process_requests,
}

settle-IsSettled :
    (config : Config) (turn : Turn) (a : ℕ) (retval : Retval) (w : World)
    (before behind block free : List ℕ)
    → Census w (before ++ a ∷ behind) block free
    → IsSettled behind (settle config turn a retval w)
unfolding settle
settle-IsSettled config turn a is_complete w before behind block free h =
    free_request-IsSettled config turn.last_write a (now_used a w) before behind block free h
settle-IsSettled config turn a more_to_do w before behind block free h =
    (before ++ a ∷ [], block, free, stays_before a w before behind block free h)
settle-IsSettled config turn a unknown w before behind block free h =
    (before ++ a ∷ [], block, free, stays_before a w before behind block free h)
settle-IsSettled config turn a is_blocked w before behind block free h =
    let ready_in = All-append_left _ before (a ∷ behind) h.ready_in in
    let (known, behind_in) = All-append_right _ before (a ∷ behind) h.ready_in in
    let old = h.counted in
    let whole = h.all_held in
    let longer = length-append before (a ∷ behind) in
    let shorter = length-append before behind in
    (
      before,
      a ∷ block,
      free,
      record {
        queues =
            block_request-AreQueues config.sendfile a (waiting (w.requests a)) w.queues w.sets
              before behind block free h.queues;
        counted = omega arith;
        all_held = omega arith;
        ready_in = All-append _ before behind ready_in behind_in;
        block_in = (known, h.block_in);
        free_in = h.free_in;
      },
    )

get_pending-IsJoined :
    (config : Config) (arrival : Arrival) (w : World) (ready block free : List ℕ)
    → Census w ready block free
    → ((used : List ℕ) (a : ℕ) → config.malloc used ≡ some a → IsAway (some a) used)
    → IsJoined ready block (get_pending config arrival w)
get_pending-IsJoined config arrival w ready block free h fresh =
    if_split (IsJoined ready block) w.pending_requests
      (λ _. get_request-IsJoined config arrival w ready block free h fresh)
      (λ _. ([], free, omega arith, h))

process_request-IsSettled :
    (sigterm : Bool) (config : Config) (turn : Turn) (a : ℕ) (w : World)
    (before behind block free : List ℕ)
    → Census w (before ++ a ∷ behind) block free
    → ((used : List ℕ) (a : ℕ) → config.malloc used ≡ some a → IsAway (some a) used)
    → let (w', next) = process_request sigterm config turn a w in
      IsSettled behind w' × (next ≡ first behind)
unfolding process_request
process_request-IsSettled sigterm config turn a w before behind block free h fresh =
    let timed : World = record w { current_time = turn.now } in
    let r = serve sigterm turn (timed.requests a) in
    let w' = get_pending config turn.arrival (put a r.0 timed) in
    let (new, free', one, joined) =
      get_pending-IsJoined config turn.arrival (put a r.0 timed) (before ++ a ∷ behind) block free h
        fresh in
    let h' : Census w' ((new ++ before) ++ a ∷ behind) block free' =
      rw (append_assoc new before (a ∷ behind)) joined in
    (
      settle-IsSettled config turn a r.1 w' (new ++ before) behind block free' h',
      ap (λ links. links.next)
          (linked_at w'.queues.heap none (new ++ before) a behind h'.queues.ready_queue.1),
    )

-- The round has an end, and what it leaves.
abbrev pub IsEnded : Option World → Type 0
IsEnded none = ⊥
IsEnded (some w) = (ready : List ℕ) × (block : List ℕ) × (free : List ℕ) × Census w ready block free

process_loop-IsEnded :
    (sigterm : Bool) (config : Config) (turns : List Turn) (w : World)
    (before behind block free : List ℕ)
    → Census w (before ++ behind) block free
    → ((used : List ℕ) (a : ℕ) → config.malloc used ≡ some a → IsAway (some a) used)
    → length behind ≤ length turns
    → IsEnded (process_loop sigterm config turns (first behind) w)
unfolding process_loop
process_loop-IsEnded sigterm config [] w before [] block free h fresh le =
    (before ++ [], block, free, h)
process_loop-IsEnded sigterm config [] w before (a ∷ behind) block free h fresh le =
    absurd (omega (arith, le))
process_loop-IsEnded sigterm config (turn ∷ turns) w before [] block free h fresh le =
    (before ++ [], block, free, h)
process_loop-IsEnded sigterm config (turn ∷ turns) w before (a ∷ behind) block free h fresh le =
    let r = process_request sigterm config turn a w in
    let ((before', block', free', h'), next) =
      process_request-IsSettled sigterm config turn a w before behind block free h fresh in
    subst (λ current. IsEnded (process_loop sigterm config turns current r.0)) (sym next)
      (process_loop-IsEnded sigterm config turns r.0 before' behind block' free' h' fresh
        (omega arith))

-- A round of process_requests ends within one turn for each ready request and one for a new one, whatever the
-- handlers and the system do in them. Before and behind it each request that malloc gave stands in one
-- queue and once, the queues are linked both ways, and total_connections is the number of those that
-- are ready or blocked, modulo 2 ^ 32. malloc gives no request twice.
pub process_requests-IsEnded :
    (sigterm : Bool) (config : Config) (arrival : Arrival) (turns : List Turn) (w : World)
    (ready block free : List ℕ)
    → Census w ready block free
    → ((used : List ℕ) (a : ℕ) → config.malloc used ≡ some a → IsAway (some a) used)
    → length ready + 1 ≤ length turns
    → IsEnded (process_requests sigterm config arrival turns w)
unfolding process_requests
process_requests-IsEnded sigterm config arrival turns w ready block free h fresh le =
    let w' = get_pending config arrival w in
    let (new, free', one, joined) =
      get_pending-IsJoined config arrival w ready block free h fresh in
    let longer = length-append new ready in
    subst (λ current. IsEnded (process_loop sigterm config turns current w'))
      (sym joined.queues.ready_queue.0)
      (process_loop-IsEnded sigterm config turns w' [] (new ++ ready) block free' joined fresh
        (omega arith))
