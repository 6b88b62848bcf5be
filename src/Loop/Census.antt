-- ===== src/Loop/Census.antt =====
-- The server's loop: every round comes to an end and loses no request.
use yabwf.Prelude.{
  ℕ, zero, suc, ◌+◌, ◌≡◌, refl, Bool, ◌||◌, List, [], ◌∷◌, Option, none, some, if_split, length,
  arith,
}
use yabwf.Queue.Linked.{IsAway}
use yabwf.Life.{World, Config}
use yabwf.Life.Census.{Census}
use yabwf.Life.Turns.{Turn}
use yabwf.Life.Turns.Census.{IsEnded, process_requests-IsEnded}
use yabwf.Loop.{
  fdset_update, Round, take_turns, is_some, is_zero, watch_server, after_select, process_ready,
  serve_round, selected_round, loop_round, go_on_rounds, loop,
}
use yabwf.Loop.Timely.{IsUpdated, fdset_update-IsUpdated}

length-take_turns : (n : ℕ) (turns : ℕ → Turn) → length (take_turns n turns) ≡ n
length-take_turns zero turns = refl
length-take_turns (suc n) turns = let rest = length-take_turns n turns in omega arith

-- malloc gives no request twice, in all that follows.
module _ (sigterm : Bool) (config : Config) (ka_timeout server_s : ℕ)
    (fresh : (used : List ℕ) (a : ℕ) → config.malloc used ≡ some a → IsAway (some a) used) where
  process_ready-IsEnded :
      (round : Round) (r : Option World)
      → IsEnded r
      → IsEnded (process_ready sigterm config round r)
  process_ready-IsEnded round none never = absurd never
  process_ready-IsEnded round (some w) (ready, block, free, h) =
      let whole = h.all_held in
      let enough = length-take_turns (length w.memory + 1) round.turns in
      if_split IsEnded (w.pending_requests || is_some w.queues.request_ready)
        (λ _.
          process_requests-IsEnded sigterm config round.arrival
            (take_turns (length w.memory + 1) round.turns) w ready block free h fresh (omega arith))
        (λ _. (ready, block, free, h))

  updated-IsEnded :
      (now : ℕ) (start : World) (block : List ℕ) (r : Option World)
      → IsUpdated config ka_timeout now start block r
      → IsEnded r
  updated-IsEnded now start block none never = never
  updated-IsEnded now start block (some w) (ready, left, free, h, timely, passed) =
      (ready, left, free, h)

  serve_round-IsEnded :
      (round : Round) (w : World) (ready block free : List ℕ)
      → Census w ready block free
      → IsEnded (serve_round sigterm config ka_timeout round w)
  unfolding serve_round
  serve_round-IsEnded round w ready block free h =
      let w' : World = record w { sets = record w.sets { max_fd = none } } in
      process_ready-IsEnded round _ (
        if_split IsEnded (is_some w'.queues.request_block)
          (λ _.
            updated-IsEnded round.update_now w' block
              (fdset_update config ka_timeout round.update_now w')
              (fdset_update-IsUpdated config ka_timeout round.update_now w' ready block free h))
          (λ _. (ready, block, free, h)))

  loop_round-IsEnded :
      (round : Round) (w : World) (ready block free : List ℕ)
      → Census w ready block free
      → IsEnded (loop_round sigterm config ka_timeout server_s round w)
  unfolding loop_round
  loop_round-IsEnded round w ready block free h =
      let w' = watch_server sigterm config server_s w in
      if_split IsEnded (is_zero w'.sets.max_fd)
        (λ _. serve_round-IsEnded round w' ready block free h) (λ _. woken round.selected)
    where
      woken :
          (selected : Option ((ℕ → Bool) × (ℕ → Bool)))
          → IsEnded (
              selected_round sigterm config ka_timeout server_s round selected
                (watch_server sigterm config server_s w))
      woken none = (ready, block, free, h)
      woken (some selected) =
          serve_round-IsEnded round
            (after_select sigterm server_s round.now selected
              (watch_server sigterm config server_s w))
            ready block free h

  go_on_rounds-IsEnded :
      (rest : World → Option World) (r : Option World)
      → IsEnded r
      → ((w : World) (ready block free : List ℕ) → Census w ready block free → IsEnded (rest w))
      → IsEnded (go_on_rounds rest r)
  go_on_rounds-IsEnded rest none never later = absurd never
  go_on_rounds-IsEnded rest (some w) (ready, block, free, h) later = later w ready block free h

  -- However many rounds the loop makes, and whatever select, the clock, the handlers and the clients do
  -- in them, each round comes to an end, and behind it each request that malloc gave stands in one queue
  -- and once, and total_connections is the number of those that are ready or blocked, modulo 2 ^ 32, if it
  -- was so before and malloc gives no request twice.
  pub loop-IsEnded :
      (rounds : List Round) (w : World) (ready block free : List ℕ)
      → Census w ready block free
      → IsEnded (loop sigterm config ka_timeout server_s rounds w)
  unfolding loop
  loop-IsEnded [] w ready block free h = (ready, block, free, h)
  loop-IsEnded (round ∷ rounds) w ready block free h =
      go_on_rounds-IsEnded (loop sigterm config ka_timeout server_s rounds)
        (loop_round sigterm config ka_timeout server_s round w)
        (loop_round-IsEnded round w ready block free h) (loop-IsEnded rounds)
