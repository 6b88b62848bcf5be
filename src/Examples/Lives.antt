-- ===== src/Examples/Lives.antt =====
-- The theorems on the life of requests at concrete inputs.
use yabwf.Prelude.{
  ℕ, suc, ◌+◌, ◌≡◌, ◌<◌, refl, true, false, List, [], ◌∷◌, Option, none, some, arith,
}
use yabwf.Buffer.{read_header, wrote}
use yabwf.Queue.Linked.{IsAway}
use yabwf.Request.Options.{ka_active}
use yabwf.Life.{Request, World, Config}
use yabwf.Life.Census.{Census}
use yabwf.Life.Turns.{Handler, Turn, process_requests, is_complete}
use yabwf.Loop.{fdset_update, Round, loop}
use yabwf.Loop.Timely.{IsUpdated, fdset_update-IsUpdated}
use yabwf.Loop.Census.{loop-IsEnded}
use yabwf.Life.Turns.Census.{IsEnded, process_requests-IsEnded}

abbrev sum : List ℕ → ℕ
sum [] = 0
sum (a ∷ used) = a + sum used

abbrev new_address : List ℕ → Option ℕ
new_address used = some (suc (sum used))

above_sum : (used : List ℕ) (n : ℕ) → sum used < n → IsAway (some n) used
above_sum [] n h = tt
above_sum (a ∷ used) n h = (ground arith, above_sum used n (omega arith))

new_address-IsAway : (used : List ℕ) (a : ℕ) → new_address used ≡ some a → IsAway (some a) used
new_address-IsAway used a e = let given : suc (sum used) ≡ a = cc in above_sum used a (omega arith)

abbrev same : Request → Request
same req = req

abbrev config : Config
config = record {
  ka_max = 10;
  max_connections = 100;
  fd_setsize = 1024;
  sendfile = false;
  malloc = new_address;
  service_unavailable = same;
}

abbrev asking : Request
asking = record {
  output = record { status = read_header; buffer = []; buffer_start = 0 };
  keepalive = ka_active;
  http_version = none;
  method = none;
  response_status = 200;
  logline = true;
  parse_pos = 0;
  data_fd = 0;
  post_data_fd = 0;
  mmap_entry_var = none;
  fd = 5;
  time_last = 0;
  kacount = 3;
  client_stream = [];
}

-- The request 1 is ready, and another client waits.
abbrev world : World
world = record {
  requests = λ a. asking;
  queues = record {
    request_ready = some 1;
    request_block = none;
    request_free = none;
    heap = λ a. record { next = none; prev = none };
  };
  sets = record { block_read_fdset = λ fd. false; block_write_fdset = λ fd. false; max_fd = none };
  cache = record { mmap_list = []; entries_used = 0; total_requests = 0; hash_bounces = 0 };
  current_time = 0;
  total_connections = 1;
  served = 1;
  errors = 0;
  pending_requests = true;
  memory = 1 ∷ [];
}

abbrev completes : Handler
completes req = (req, is_complete)

abbrev turn : Turn
turn = record {
  now = 1;
  first_write = wrote 0;
  done_write = wrote 0;
  last_write = wrote 0;
  handlers = record {
    read_header = completes;
    read_body = completes;
    write_body = completes;
    process_get = completes;
    read_from_pipe = completes;
    write_from_pipe = completes;
    io_shuffle = completes;
  };
  arrival = record { fd = some 6; sockname = true; set_up = true };
}

world-Census : Census world (1 ∷ []) [] []
world-Census = record {
  queues = record {
    ready_queue = (refl, (refl, tt), (tt, tt));
    block_queue = (refl, tt, tt);
    free_queue = (refl, tt, tt);
    ready_block = tt;
    ready_free = tt;
    block_free = tt;
  };
  counted = refl;
  all_held = refl;
  ready_in = (refl, tt);
  block_in = tt;
  free_in = tt;
}

process_requests-IsEnded_example :
    IsEnded (process_requests false config turn.arrival (turn ∷ turn ∷ []) world)
process_requests-IsEnded_example =
    process_requests-IsEnded false config turn.arrival (turn ∷ turn ∷ []) world (1 ∷ []) [] []
      world-Census new_address-IsAway (omega arith)

-- A request that has been blocked since the time 0.
abbrev blocked_world : World
blocked_world = record world {
  queues = record {
    request_ready = none;
    request_block = some 1;
    request_free = none;
    heap = λ a. record { next = none; prev = none };
  };
}

blocked_world-Census : Census blocked_world [] (1 ∷ []) []
blocked_world-Census = record {
  queues = record {
    ready_queue = (refl, tt, tt);
    block_queue = (refl, (refl, tt), (tt, tt));
    free_queue = (refl, tt, tt);
    ready_block = (tt, tt);
    ready_free = tt;
    block_free = tt;
  };
  counted = refl;
  all_held = refl;
  ready_in = tt;
  block_in = (refl, tt);
  free_in = tt;
}

fdset_update-IsUpdated_example :
    IsUpdated config 10 100 blocked_world (1 ∷ []) (fdset_update config 10 100 blocked_world)
fdset_update-IsUpdated_example =
    fdset_update-IsUpdated config 10 100 blocked_world [] (1 ∷ []) [] blocked_world-Census

abbrev woken : Round
woken = record {
  selected = some (λ fd. true, λ fd. false);
  now = 90;
  update_now = 100;
  arrival = turn.arrival;
  turns = λ n. turn;
}

loop-IsEnded_example : IsEnded (loop false config 10 3 (woken ∷ woken ∷ []) blocked_world)
loop-IsEnded_example =
    loop-IsEnded false config 10 3 new_address-IsAway (woken ∷ woken ∷ []) blocked_world [] (1 ∷ [])
      [] blocked_world-Census
