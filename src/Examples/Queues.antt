-- ===== src/Examples/Queues.antt =====
-- The theorems on src/queue.c, src/mmap_cache.c and src/pipe.c at concrete inputs.
use yabwf.Prelude.{ℕ, zero, suc, ◌+◌, ◌≡◌, refl, true, false, some, List, [], ◌∷◌, codes, arith}
use yabwf.Buffer.{ioshuffle, wrote}
use yabwf.MmapCache.{MmapEntry, Stat, Cache, no_entry, mmap_list_size, probe, find_mmap}
use yabwf.MmapCache.Probes.{probe_terminates}
use yabwf.MmapCache.Found.{IsConsistent, IsFound, find_mmap-IsFound}
use yabwf.MmapCache.Calls.{find, release, run, run-IsConsistent}
use yabwf.Pipe.{FileRequest, bytes_to_read, got, io_shuffle}
use yabwf.Pipe.File.{Serves, io_shuffle-Serves}

abbrev page : Stat
page = record { st_dev = 1; st_ino = 2; st_size = 600 }

abbrev other_page : MmapEntry
other_page = record { dev = 1; ino = 258; mmap = 4096; use_count = 1; len = 600 }

abbrev entries : ℕ → List MmapEntry
entries zero = []
entries (suc n) = no_entry ∷ entries n

probe_terminates_example :
    probe (mmap_list_size + 9) (no_entry ∷ no_entry ∷ other_page ∷ []) page 2 2
    ≡ probe mmap_list_size (no_entry ∷ no_entry ∷ other_page ∷ []) page 2 2
probe_terminates_example =
    probe_terminates 9 (no_entry ∷ no_entry ∷ other_page ∷ []) page 2 (omega arith)

abbrev empty_cache : Cache
empty_cache = record {
  mmap_list = entries mmap_list_size;
  entries_used = 0;
  total_requests = 0;
  hash_bounces = 0;
}

empty_cache-IsConsistent : IsConsistent empty_cache
empty_cache-IsConsistent = record { size_eq = refl; used_eq = refl; used_le = omega arith }

find_mmap-IsFound_example :
    IsFound (some 4096) page empty_cache (find_mmap (some 4096) page empty_cache)
find_mmap-IsFound_example = find_mmap-IsFound (some 4096) page empty_cache empty_cache-IsConsistent

run-IsConsistent_example :
    IsConsistent
      (run (find (some 4096) page ∷ find (some 4096) page ∷ release (some 2) ∷ []) empty_cache)
run-IsConsistent_example =
    run-IsConsistent (find (some 4096) page ∷ find (some 4096) page ∷ release (some 2) ∷ [])
      empty_cache (tt, (tt, (omega arith, tt))) empty_cache-IsConsistent

abbrev serving : (stop : ℕ) → FileRequest
serving stop = record {
  status = ioshuffle;
  data_fd = 5;
  start = 1;
  stop = stop;
  buffer = [];
  buffer_start = 0;
  bytes_written = 0;
}

io_shuffle-Serves_example :
    Serves
      (codes "abcdef")
      2
      (serving 4)
      (io_shuffle false true (got (codes "bcd")) (wrote 2) (serving 4))
unfolding bytes_to_read
io_shuffle-Serves_example =
    io_shuffle-Serves (codes "abcdef") true (got (codes "bcd")) (wrote 2) (serving 4) (omega arith)
      (omega arith, omega arith, refl) (omega arith)
