-- ===== src/MmapCache.antt =====
-- src/mmap_cache.c: the table of mapped files with their use counts.
pub mod Calls
pub mod Probes
pub mod Found
use yabwf.Prelude.{
  ℕ, zero, suc, ◌+◌, ◌-◌, ◌%◌, Bool, ◌&&◌, List, Option, none, some, ltb, ◌==◌, if◌then◌else◌,
  get_or, set,
}

-- The size is a power of two, so that `& MMAP_LIST_MASK` is the remainder.
abbrev pub mmap_list_size : ℕ
mmap_list_size = 256

abbrev pub mmap_list_use_max : ℕ
mmap_list_use_max = 128

-- `mmap` is the address.
pub record MmapEntry : Type 0 where
  pub dev : ℕ
  pub ino : ℕ
  pub mmap : ℕ
  pub use_count : ℕ
  pub len : ℕ

-- The file's fields of struct stat.
pub record Stat : Type 0 where
  pub st_dev : ℕ
  pub st_ino : ℕ
  pub st_size : ℕ

-- mmap_list and the counters.
pub record Cache : Type 0 where
  pub mmap_list : List MmapEntry
  pub entries_used : ℕ
  pub total_requests : ℕ
  pub hash_bounces : ℕ

abbrev pub no_entry : MmapEntry
no_entry = record { dev = 0; ino = 0; mmap = 0; use_count = 0; len = 0 }

abbrev pub entry_at : List MmapEntry → ℕ → MmapEntry
entry_at list i = get_or list i no_entry

abbrev pub next_index : ℕ → ℕ
next_index i = (i + 1) % mmap_list_size

abbrev pub is_same_file : MmapEntry → Stat → Bool
is_same_file e s = e.dev == s.st_dev && e.ino == s.st_ino && e.len == s.st_size

-- How the loop of find_mmap ends: at the entry of the file, at one that is not used, or back at the
-- start.
pub data Probe : Type 0 where
  found : ℕ → Probe
  unused : ℕ → Probe
  full : Probe

abbrev pub passed : Probe × ℕ → Probe × ℕ
passed (p, bounces) = (p, suc bounces)

-- The loop, on fuel, with the number of its bounces.
unfoldable pub probe : (fuel : ℕ) → List MmapEntry → Stat → (start i : ℕ) → Probe × ℕ
probe zero list s start i = (full, 0)
probe (suc fuel) list s start i =
    let e = entry_at list i in
    let rest = probe fuel list s start (next_index i) in
    if e.use_count == 0
    then (unused i, 0)
    else if is_same_file e s
    then (found i, 0)
    else if next_index i == start
    then (full, 1)
    else passed rest

abbrev pub added : Stat → ℕ → Cache → ℕ → Cache × Option ℕ
added s m cache i = (
  record cache {
    mmap_list =
        set cache.mmap_list i
          (record { dev = s.st_dev; ino = s.st_ino; mmap = m; use_count = 1; len = s.st_size });
    entries_used = cache.entries_used + 1;
  },
  some i,
)

-- What follows the search. `mapped` is what mmap gives, if it and madvise succeed.
abbrev pub after_search : (mapped : Option ℕ) → Stat → Cache → Probe → Cache × Option ℕ
after_search mapped s cache (found i) =
    let e = entry_at cache.mmap_list i in
    (
      record cache { mmap_list = set cache.mmap_list i (record e { use_count = e.use_count + 1 }) },
      some i,
    )
after_search mapped s cache full = (cache, none)
after_search mapped s cache (unused i) =
    if ltb mmap_list_use_max cache.entries_used
    then (cache, none)
    else elim mapped [ some m ↦ added s m cache i | none ↦ (cache, none) ]

-- The result is an index, or `none` for null.
unfoldable pub find_mmap : (mapped : Option ℕ) → Stat → Cache → Cache × Option ℕ
unfolding probe
find_mmap mapped s cache =
    let start = s.st_ino % mmap_list_size in
    let (p, bounces) = probe mmap_list_size cache.mmap_list s start start in
    after_search mapped s
      (record cache {
        total_requests = cache.total_requests + 1;
        hash_bounces = cache.hash_bounces + bounces;
      })
      p

unfoldable pub release_mmap : Option ℕ → Cache → Cache
release_mmap none cache = cache
release_mmap (some i) cache =
    let e = entry_at cache.mmap_list i in
    let left = e.use_count - 1 in
    let released = record cache {
      mmap_list = set cache.mmap_list i (record e { use_count = left });
    } in
    if e.use_count == 0
    then cache
    else if left == 0
    then record released { entries_used = cache.entries_used - 1 }
    else released
