-- ===== src/Life.antt =====
-- The life of a request: new_request, get_request and sanitize_request of src/request.c, on the queues of
-- src/queue.c. The descriptors that are closed and the log are left out.
pub mod Freeing
pub mod Census
pub mod Turns
pub mod Settled
use yabwf.Prelude.{
  ℕ, ◌+◌, ◌-◌, ◌%◌, ◌^◌, Bool, true, false, not, ◌&&◌, ◌||◌, List, [], ◌∷◌, Option, none, some, ltb,
  leb, ◌==◌, if◌then◌else◌, Bytes, drop,
}
use yabwf.Buffer.{
  ReqStatus, read_header, done, timed_out, dead, is_over, Output, buffer_end, Sent, Flushed, error,
  blocked, stored, req_flush,
}
use yabwf.Queue.{
  Queues, FdSets, Direction, boa_read, boa_write, dequeue, enqueue, boa_fd_set, boa_fd_clr,
}
use yabwf.MmapCache.{Cache, release_mmap}
use yabwf.Cgi.{HttpMethod, m_get}
use yabwf.Request.Logline.{HttpVersion, http10}
use yabwf.Request.Options.{KaStatus, ka_inactive, ka_active}

-- struct request, but for the fields that only other files read, such as header_line and the addresses.
-- `client_stream` are the bytes up to client_stream_pos, `logline` says that it is set.
pub record Request : Type 0 where
  pub output : Output
  pub keepalive : KaStatus
  pub http_version : Option HttpVersion
  pub method : Option HttpMethod
  pub response_status : ℕ
  pub logline : Bool
  pub parse_pos : ℕ
  pub data_fd : ℕ
  pub post_data_fd : ℕ
  pub mmap_entry_var : Option ℕ
  pub fd : ℕ
  pub time_last : ℕ
  pub kacount : ℕ
  pub client_stream : Bytes

-- The globals. `served` and `errors` are the fields of `status`, and `memory` are the requests that
-- malloc gave.
pub record World : Type 0 where
  pub requests : ℕ → Request
  pub queues : Queues
  pub sets : FdSets
  pub cache : Cache
  pub current_time : ℕ
  pub total_connections : ℕ
  pub served : ℕ
  pub errors : ℕ
  pub pending_requests : Bool
  pub memory : List ℕ

-- The configuration, malloc for a request, and send_r_service_unavailable.
pub record Config : Type 0 where
  pub ka_max : ℕ
  pub max_connections : ℕ
  pub fd_setsize : ℕ
  pub sendfile : Bool
  pub malloc : List ℕ → Option ℕ
  pub service_unavailable : Request → Request

abbrev pub put : ℕ → Request → World → World
put a req w = record w { requests = λ b. if b == a then req else w.requests b }

-- The fields up to `fd` are zeroed.
unfoldable pub sanitize_request : (ka_max now : ℕ) → (new_req : Bool) → Request → Request
sanitize_request ka_max now new_req req = record {
  output = record { status = read_header; buffer = []; buffer_start = 0 };
  keepalive = ka_inactive;
  http_version = none;
  method = none;
  response_status = 0;
  logline = false;
  parse_pos = 0;
  data_fd = 0;
  post_data_fd = 0;
  mmap_entry_var = none;
  fd = req.fd;
  time_last = if new_req then now else req.time_last;
  kacount = if new_req then ka_max else req.kacount;
  client_stream = if new_req then [] else drop req.parse_pos req.client_stream;
}

abbrev pub sanitized : Config → ℕ → World → World
sanitized config a w = put a (sanitize_request config.ka_max w.current_time true (w.requests a)) w

abbrev pub from_malloc : Config → Option ℕ → World → Option ℕ × World
from_malloc config none w = (none, w)
from_malloc config (some a) w = (some a, sanitized config a (record w { memory = a ∷ w.memory }))

abbrev pub from_free : Config → Option ℕ → World → Option ℕ × World
from_free config none w = from_malloc config (config.malloc w.memory) w
from_free config (some a) w =
    let (free, heap) = dequeue w.queues.request_free a w.queues.heap in
    (
      some a,
      sanitized config a
          (record w { queues = record w.queues { request_free = free; heap = heap } }),
    )

unfoldable pub new_request : Config → World → Option ℕ × World
unfolding dequeue sanitize_request
new_request config w = from_free config w.queues.request_free w

-- What the calls of get_request give: the descriptor, and whether getsockname succeeds and the steps
-- behind new_request, up to the remote address.
pub record Arrival : Type 0 where
  pub fd : Option ℕ
  pub sockname : Bool
  pub set_up : Bool

abbrev pub to_free : ℕ → World → World
to_free a w =
    let (free, heap) = enqueue w.queues.request_free a w.queues.heap in
    record w { queues = record w.queues { request_free = free; heap = heap } }

abbrev pub to_ready : ℕ → World → World
to_ready a w =
    let (ready, heap) = enqueue w.queues.request_ready a w.queues.heap in
    record w { queues = record w.queues { request_ready = ready; heap = heap } }

abbrev pub refuse : Config → ℕ → World → World
refuse config a w =
    let req = w.requests a in
    let answered =
      config.service_unavailable (record req { http_version = some http10; method = some m_get }) in
    put a (record answered { output = record answered.output { status = done } })
      (record w { pending_requests = false })

-- Behind new_request.
unfoldable pub start_request : Config → Arrival → (fd : ℕ) → Option ℕ × World → World
unfolding enqueue
start_request config arrival fd (none, w) = w
start_request config arrival fd (some a, w) =
    let req = w.requests a in
    let started : Request = record req {
      fd = fd;
      output = record req.output { status = read_header };
      time_last = w.current_time;
      kacount = config.ka_max;
    } in
    let w' = put a started w in
    let counted : World = record w' {
      served = w'.served + 1;
      total_connections = (w'.total_connections + 1) % 2 ^ 32;
    } in
    if not arrival.set_up
    then to_free a w'
    else to_ready a (
        if ltb config.max_connections counted.total_connections
        then refuse config a counted
        else counted)

abbrev pub accepted : Config → Arrival → Option ℕ → World → World
accepted config arrival none w = record w { pending_requests = false }
accepted config arrival (some fd) w =
    if leb config.fd_setsize fd || not arrival.sockname
    then w
    else start_request config arrival fd (new_request config w)

unfoldable pub get_request : Config → Arrival → World → World
unfolding new_request start_request
get_request config arrival w = accepted config arrival arrival.fd w
