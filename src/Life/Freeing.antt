-- ===== src/Life/Freeing.antt =====
-- free_request of src/request.c. The memory and the ranges that are given back, the descriptors that are
-- closed and the log are left out.
use yabwf.Prelude.{ℕ, ◌+◌, ◌-◌, ◌%◌, ◌^◌, Bool, true, false, not, ◌&&◌, ltb, ◌==◌, if◌then◌else◌}
use yabwf.Buffer.{
  ReqStatus, done, timed_out, dead, is_over, Output, buffer_end, Sent, Flushed, error, blocked,
  stored, req_flush,
}
use yabwf.Queue.{FdSets, Direction, boa_read, boa_write, dequeue, enqueue, boa_fd_set, boa_fd_clr}
use yabwf.MmapCache.{release_mmap}
use yabwf.Request.Options.{KaStatus, ka_active}
use yabwf.Life.{Request, World, Config, put, sanitize_request, to_free}

abbrev pub is_timed_out : ReqStatus → Bool
is_timed_out timed_out = true
is_timed_out _ = false

abbrev pub is_active : KaStatus → Bool
is_active ka_active = true
is_active _ = false

-- Whether the flush has bytes left, so that the request stays.
abbrev pub after_flush : Output × Flushed → Output × Bool
after_flush (output, error) = (record output { status = dead }, false)
after_flush (output, blocked) = (output, false)
after_flush (output, stored n) = (output, not (n == 0))

abbrev pub flush_rest : Sent → Output → Output × Bool
flush_rest write output =
    if not (buffer_end output == 0) && not (is_over output.status)
    then after_flush (req_flush write (record output { status = done }))
    else (output, false)

-- The connection stays for the next request.
abbrev pub keep_alive : Config → ℕ → World → World
keep_alive config a w =
    let req = sanitize_request config.ka_max w.current_time false (w.requests a) in
    let (block, heap) = enqueue w.queues.request_block a w.queues.heap in
    put a (record req { kacount = req.kacount - 1 })
      (record w {
        queues = record w.queues { request_block = block; heap = heap };
        sets = boa_fd_clr (req.fd, boa_write) (boa_fd_set (req.fd, boa_read) w.sets);
        served = w.served + 1;
      })

abbrev pub hang_up : ℕ → World → World
hang_up a w =
    let fd = (w.requests a).fd in
    to_free a (record w {
      sets = boa_fd_clr (fd, boa_write) (boa_fd_clr (fd, boa_read) w.sets);
      total_connections = (w.total_connections + 2 ^ 32 - 1) % 2 ^ 32;
    })

abbrev pub clear_fd : ℕ × Direction → FdSets → FdSets
clear_fd (fd, direction) sets = if fd == 0 then sets else boa_fd_clr (fd, direction) sets

-- A request that timed out without an answer gets the status 408.
abbrev pub marked : Request → Request
marked req = record req {
  response_status =
      if is_timed_out req.output.status && req.response_status == 0
      then 408
      else req.response_status;
}

-- The test for keeping the connection.
abbrev pub stays_open : Request → Bool
stays_open req =
    not (is_over req.output.status)
    && is_active req.keepalive
    && ltb req.response_status 500
    && not (req.response_status == 0)
    && not (req.kacount == 0)

-- Behind the flush: the request leaves the ready queue.
unfoldable pub release : Config → ℕ → World → World
unfolding dequeue enqueue sanitize_request boa_fd_set boa_fd_clr release_mmap
release config a w =
    let (ready, heap) = dequeue w.queues.request_ready a w.queues.heap in
    let req = marked (w.requests a) in
    let w' : World = record w {
      requests = λ b. if b == a then req else w.requests b;
      queues = record w.queues { request_ready = ready; heap = heap };
      cache = release_mmap req.mmap_entry_var w.cache;
      sets = clear_fd (req.post_data_fd, boa_write) (clear_fd (req.data_fd, boa_read) w.sets);
      errors = if ltb req.response_status 400 then w.errors else w.errors + 1;
    } in
    if stays_open req then keep_alive config a w' else hang_up a w'

abbrev pub free_or_stay : Config → ℕ → World → Output × Bool → World
free_or_stay config a w (output, stays) =
    let w' = put a (record (w.requests a) { output = output }) w in
    if stays then w' else release config a w'

unfoldable pub free_request : Config → Sent → ℕ → World → World
unfolding release req_flush
free_request config write a w = free_or_stay config a w (flush_rest write (w.requests a).output)
