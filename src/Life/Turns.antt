-- ===== src/Life/Turns.antt =====
-- process_requests of src/request.c: a round over the ready queue.
pub mod Census
use yabwf.Prelude.{
  ℕ, ◌+◌, Bool, true, false, not, ◌&&◌, List, [], ◌∷◌, Option, none, some, ◌==◌, if◌then◌else◌,
}
use yabwf.Buffer.{
  ReqStatus, read_header, one_cr, one_lf, two_cr, body_read, body_write, write, pipe_read,
  pipe_write, ioshuffle, done, timed_out, dead, is_over, Output, buffer_end, Sent, Flushed, error,
  blocked, stored, req_flush,
}
use yabwf.Queue.{Waiting, block_request}
use yabwf.Request.Options.{ka_stopped}
use yabwf.Life.{Request, World, Config, Arrival, put, get_request}
use yabwf.Life.Freeing.{free_request}

-- The results -1, 0, 1 and any other.
pub data Retval : Type 0 where
  is_blocked is_complete more_to_do unknown : Retval

abbrev pub Handler : Type 0
Handler = Request → Request × Retval

-- The functions that the switch calls, with what the system gives them.
pub record Handlers : Type 0 where
  pub read_header : Handler
  pub read_body : Handler
  pub write_body : Handler
  pub process_get : Handler
  pub read_from_pipe : Handler
  pub write_from_pipe : Handler
  pub io_shuffle : Handler

-- What a request meets in its turn: the time, what write gives to the flush in front of the switch, to
-- that of DONE and to that of free_request, the handlers, and what get_request meets.
pub record Turn : Type 0 where
  pub now : ℕ
  pub first_write : Sent
  pub done_write : Sent
  pub last_write : Sent
  pub handlers : Handlers
  pub arrival : Arrival

abbrev pub with_status : ReqStatus → Request → Request
with_status status req = record req { output = record req.output { status = status } }

-- In front of the switch, a flush that has bytes left counts as done.
abbrev pub before_switch : Output × Flushed → Request → Request × Retval
before_switch (output, error) req =
    (record req { output = record output { status = dead } }, is_complete)
before_switch (output, blocked) req = (record req { output = output }, is_blocked)
before_switch (output, stored n) req = (record req { output = output }, more_to_do)

abbrev pub in_done : Output × Flushed → Request → Request × Retval
in_done (output, error) req = (record req { output = record output { status = dead } }, is_complete)
in_done (output, blocked) req = (record req { output = output }, is_blocked)
in_done (output, stored n) req =
    (record req { output = output }, if n == 0 then is_complete else more_to_do)

abbrev pub end_over : Request → Request × Retval
end_over req =
    (record req { output = record req.output { buffer = [] }; keepalive = ka_stopped }, is_complete)

-- The switch.
unfoldable pub handle : Handlers → (done_write : Sent) → ReqStatus → Handler
unfolding req_flush
handle handlers done_write read_header req = handlers.read_header req
handle handlers done_write one_cr req = handlers.read_header req
handle handlers done_write one_lf req = handlers.read_header req
handle handlers done_write two_cr req = handlers.read_header req
handle handlers done_write body_read req = handlers.read_body req
handle handlers done_write body_write req = handlers.write_body req
handle handlers done_write write req = handlers.process_get req
handle handlers done_write pipe_read req = handlers.read_from_pipe req
handle handlers done_write pipe_write req = handlers.write_from_pipe req
handle handlers done_write ioshuffle req = handlers.io_shuffle req
handle handlers done_write done req = in_done (req_flush done_write req.output) req
handle handlers done_write timed_out req = end_over req
handle handlers done_write dead req = end_over req

abbrev pub switch : Handlers → (done_write : Sent) → Request × Retval → Request × Retval
switch handlers done_write (req, more_to_do) = handle handlers done_write req.output.status req
switch handlers done_write (req, retval) = (req, retval)

-- From the flush to the squashing of keep-alive; `sigterm` is sigterm_flag.
unfoldable pub serve : (sigterm : Bool) → Turn → Handler
unfolding handle req_flush
serve sigterm turn req =
    let flushed =
      if not (buffer_end req.output == 0) && not (is_over req.output.status)
      then before_switch (req_flush turn.first_write req.output) req
      else (req, more_to_do) in
    let (req', retval) = switch turn.handlers turn.done_write flushed in
    (if sigterm then record req' { keepalive = ka_stopped } else req', retval)

abbrev pub waiting : Request → Waiting
waiting req = record {
  status = req.output.status;
  buffer_start = req.output.buffer_start;
  buffer_end = buffer_end req.output;
  fd = req.fd;
  data_fd = req.data_fd;
  post_data_fd = req.post_data_fd;
}

abbrev pub now_used : ℕ → World → World
now_used a w = put a (record (w.requests a) { time_last = w.current_time }) w

-- The switch on the result.
unfoldable pub settle : Config → Turn → ℕ → Retval → World → World
unfolding block_request free_request
settle config turn a is_blocked w =
    let (queues, sets) =
      block_request config.sendfile a (waiting (w.requests a)) (w.queues, w.sets) in
    record w { queues = queues; sets = sets }
settle config turn a is_complete w = free_request config turn.last_write a (now_used a w)
settle config turn a more_to_do w = now_used a w
settle config turn a unknown w = put a (with_status dead (w.requests a)) w

abbrev pub get_pending : Config → Arrival → World → World
get_pending config arrival w = if w.pending_requests then get_request config arrival w else w

-- The turn of a request, and the one that follows it.
unfoldable pub process_request : (sigterm : Bool) → Config → Turn → ℕ → World → World × Option ℕ
unfolding serve settle get_request
process_request sigterm config turn a w =
    let timed : World = record w { current_time = turn.now } in
    let (req, retval) = serve sigterm turn (timed.requests a) in
    let w' = get_pending config turn.arrival (put a req timed) in
    (settle config turn a retval w', (w'.queues.heap a).next)

-- The loop, on one turn for each request; `none` is that there are too few.
unfoldable pub process_loop :
    (sigterm : Bool) → Config → List Turn → Option ℕ → World → Option World
unfolding process_request
process_loop sigterm config [] none w = some w
process_loop sigterm config [] (some current) w = none
process_loop sigterm config (turn ∷ turns) none w = some w
process_loop sigterm config (turn ∷ turns) (some current) w =
    let (w', next) = process_request sigterm config turn current w in
    process_loop sigterm config turns next w'

unfoldable pub process_requests :
    (sigterm : Bool) → Config → Arrival → List Turn → World → Option World
unfolding process_loop get_request
process_requests sigterm config arrival turns w =
    let w' = get_pending config arrival w in
    process_loop sigterm config turns w'.queues.request_ready w'
