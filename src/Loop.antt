-- ===== src/Loop.antt =====
-- src/select.c: fdset_update and the rounds of the server's loop. The runs of the signal handlers are left
-- out; `sigterm` is that sigterm_flag is set.
pub mod Census
pub mod Walk
pub mod Timely
use yabwf.Prelude.{
  ℕ, zero, suc, ◌+◌, ◌-◌, Bool, true, false, not, ◌&&◌, ◌||◌, List, [], ◌∷◌, Option, none, some,
  ltb, leb, ◌==◌, if◌then◌else◌, length,
}
use yabwf.Buffer.{
  ReqStatus, read_header, one_cr, one_lf, two_cr, body_read, body_write, write, pipe_read,
  pipe_write, ioshuffle, done, timed_out, dead, is_over, buffer_end,
}
use yabwf.Queue.{Direction, boa_read, boa_write, FdSets, boa_fd_set, boa_fd_clr, ready_request}
use yabwf.Life.{Request, World, Config, Arrival, put}
use yabwf.Life.Turns.{Turn, with_status, waiting, process_requests}

abbrev pub request_timeout : ℕ
request_timeout = 60

-- The two tests of the time.
abbrev pub is_late : (ka_max ka_timeout now : ℕ) → Request → Bool
is_late ka_max ka_timeout now req =
    (ltb req.kacount ka_max && leb (req.time_last + ka_timeout) now && not req.logline)
    || ltb (req.time_last + request_timeout) now

abbrev pub timed : (ka_max ka_timeout now : ℕ) → Request → Request
timed ka_max ka_timeout now req =
    if is_late ka_max ka_timeout now req then with_status timed_out req else req

abbrev pub is_done : ReqStatus → Bool
is_done done = true
is_done _ = false

-- The switch: the descriptor that the request waits for, and whether it is watched on; `none` is that it
-- waits for none.
abbrev pub awaited_in : (sendfile : Bool) → ReqStatus → Request → Option ((ℕ × Direction) × Bool)
awaited_in sendfile ioshuffle req =
    if not sendfile && (buffer_end req.output - req.output.buffer_start == 0)
    then some ((req.data_fd, boa_read), false)
    else some ((req.fd, boa_write), true)
awaited_in sendfile write req = some ((req.fd, boa_write), true)
awaited_in sendfile pipe_write req = some ((req.fd, boa_write), true)
awaited_in sendfile body_write req = some ((req.post_data_fd, boa_write), true)
awaited_in sendfile pipe_read req = some ((req.data_fd, boa_read), true)
awaited_in sendfile done req = some ((req.fd, boa_write), true)
awaited_in sendfile timed_out req = none
awaited_in sendfile dead req = none
awaited_in sendfile _ req = some ((req.fd, boa_read), true)

abbrev pub awaited : (sendfile : Bool) → Request → Option ((ℕ × Direction) × Bool)
awaited sendfile req =
    if not (buffer_end req.output == 0)
      && not (is_over req.output.status || is_done req.output.status)
    then some ((req.fd, boa_write), true)
    else awaited_in sendfile req.output.status req

abbrev pub is_set : ℕ × Direction → FdSets → Bool
is_set (fd, boa_read) sets = sets.block_read_fdset fd
is_set (fd, boa_write) sets = sets.block_write_fdset fd

abbrev pub wake : (sendfile : Bool) → ℕ → World → World
wake sendfile a w =
    let (queues, sets) = ready_request sendfile a (waiting (w.requests a)) (w.queues, w.sets) in
    record w { queues = queues; sets = sets }

abbrev pub wake_or_watch : (sendfile : Bool) → ℕ → Option ((ℕ × Direction) × Bool) → World → World
wake_or_watch sendfile a none w = wake sendfile a w
wake_or_watch sendfile a (some (place, watched)) w =
    if is_set place w.sets
    then wake sendfile a w
    else if watched
    then record w { sets = boa_fd_set place w.sets }
    else w

-- The body of the loop of fdset_update.
unfoldable pub update_request : Config → (ka_timeout : ℕ) → ℕ → World → World
unfolding ready_request boa_fd_set
update_request config ka_timeout a w =
    let req = timed config.ka_max ka_timeout w.current_time (w.requests a) in
    wake_or_watch config.sendfile a (awaited config.sendfile req) (put a req w)

-- The loop, on fuel; `none` is that it ran out.
unfoldable pub update_loop :
    (fuel : ℕ) → Config → (ka_timeout : ℕ) → Option ℕ → World → Option World
unfolding update_request
update_loop zero config ka_timeout none w = some w
update_loop zero config ka_timeout (some current) w = none
update_loop (suc fuel) config ka_timeout none w = some w
update_loop (suc fuel) config ka_timeout (some current) w =
    update_loop fuel config ka_timeout (w.queues.heap current).next
      (update_request config ka_timeout current w)

unfoldable pub fdset_update : Config → (ka_timeout now : ℕ) → World → Option World
unfolding update_loop
fdset_update config ka_timeout now w =
    update_loop (length w.memory) config ka_timeout w.queues.request_block
      (record w { current_time = now })

-- What a round meets: what select gives, unless it is interrupted, the times, and what process_requests
-- meets.
pub record Round : Type 0 where
  pub selected : Option ((ℕ → Bool) × (ℕ → Bool))
  pub now : ℕ
  pub update_now : ℕ
  pub arrival : Arrival
  pub turns : ℕ → Turn

abbrev pub take_turns : ℕ → (ℕ → Turn) → List Turn
take_turns zero turns = []
take_turns (suc n) turns = turns n ∷ take_turns n turns

abbrev pub is_some : Option ℕ → Bool
is_some none = false
is_some (some n) = true

-- The server's socket is watched while there is room for a connection.
abbrev pub watch_server : (sigterm : Bool) → Config → (server_s : ℕ) → World → World
watch_server sigterm config server_s w =
    let place : ℕ × Direction = (server_s, boa_read) in
    let watched : FdSets =
      if ltb config.max_connections w.total_connections
      then boa_fd_clr place w.sets
      else boa_fd_set place w.sets in
    record w { sets = if sigterm then w.sets else watched; pending_requests = false }

abbrev pub is_zero : Option ℕ → Bool
is_zero none = false
is_zero (some n) = n == 0

abbrev pub after_select :
    (sigterm : Bool) → (server_s now : ℕ) → (ℕ → Bool) × (ℕ → Bool) → World → World
after_select sigterm server_s now (readable, writable) w = record w {
  sets = record w.sets { block_read_fdset = readable; block_write_fdset = writable };
  pending_requests = not sigterm && readable server_s;
  current_time = now;
}

-- Behind fdset_update.
abbrev pub process_ready : (sigterm : Bool) → Config → Round → Option World → Option World
process_ready sigterm config round none = none
process_ready sigterm config round (some w) =
    if w.pending_requests || is_some w.queues.request_ready
    then process_requests sigterm config round.arrival
        (take_turns (length w.memory + 1) round.turns) w
    else some w

-- From the reset of max_fd on.
unfoldable pub serve_round :
    (sigterm : Bool) → Config → (ka_timeout : ℕ) → Round → World → Option World
unfolding fdset_update process_requests
serve_round sigterm config ka_timeout round w =
    let w' : World = record w { sets = record w.sets { max_fd = none } } in
    process_ready sigterm config round (
      if is_some w'.queues.request_block
      then fdset_update config ka_timeout round.update_now w'
      else some w')

abbrev pub selected_round :
    (sigterm : Bool)
    → Config
    → (ka_timeout server_s : ℕ) → Round
    → Option ((ℕ → Bool) × (ℕ → Bool))
    → World
    → Option World
selected_round sigterm config ka_timeout server_s round none w = some w
selected_round sigterm config ka_timeout server_s round (some selected) w =
    serve_round sigterm config ka_timeout round (after_select sigterm server_s round.now selected w)

unfoldable pub loop_round :
    (sigterm : Bool) → Config → (ka_timeout server_s : ℕ) → Round → World → Option World
unfolding serve_round
loop_round sigterm config ka_timeout server_s round w =
    let w' = watch_server sigterm config server_s w in
    if is_zero w'.sets.max_fd
    then serve_round sigterm config ka_timeout round w'
    else selected_round sigterm config ka_timeout server_s round round.selected w'

abbrev pub go_on_rounds : (World → Option World) → Option World → Option World
go_on_rounds rest none = none
go_on_rounds rest (some w) = rest w

-- The loop of the server for as many rounds; `none` is that one of them does not end.
unfoldable pub loop :
    (sigterm : Bool) → Config → (ka_timeout server_s : ℕ) → List Round → World → Option World
unfolding loop_round
loop sigterm config ka_timeout server_s [] w = some w
loop sigterm config ka_timeout server_s (round ∷ rounds) w =
    go_on_rounds (loop sigterm config ka_timeout server_s rounds)
      (loop_round sigterm config ka_timeout server_s round w)
