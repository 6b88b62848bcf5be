-- ===== src/MmapCache/Found.antt =====
-- How many entries of the table are in use, and what find_mmap of src/mmap_cache.c gives.
use yabwf.Prelude.{
  ℕ, zero, suc, ◌+◌, ◌-◌, ◌%◌, ◌≡◌, ◌≢◌, ◌≤◌, ◌<◌, refl, ◌∙◌, true, ◌⊎◌, inl, inr, Bool-cases, List,
  [], ◌∷◌, Option, none, some, ltb, ltb→lt, ◌==◌, if◌then◌else◌, set, length, length-set, arith,
}
use mathlib.Core.Path.{subst}
use yabwf.MmapCache.{
  MmapEntry, Stat, Cache, mmap_list_size, mmap_list_use_max, entry_at, is_same_file, Probe, found,
  unused, full, probe, after_search, added, find_mmap,
}
use yabwf.MmapCache.Probes.{IsEnd, probe-IsEnd, probe_full}

abbrev pub live : MmapEntry → ℕ
live e = if e.use_count == 0 then 0 else 1

abbrev pub used : List MmapEntry → ℕ
used [] = 0
used (e ∷ list) = live e + used list

pub used-set :
    (list : List MmapEntry) (i : ℕ) (e : MmapEntry)
    → i < length list
    → used (set list i e) + live (entry_at list i) ≡ used list + live e
used-set [] i e h = absurd (omega arith)
used-set (x ∷ list) zero e h = omega arith
used-set (x ∷ list) (suc i) e h = omega (arith, used-set list i e)

used-le : (list : List MmapEntry) → used list ≤ length list
used-le [] = omega arith
used-le (e ∷ list) = ground (arith, used-le list)

used_all :
    (list : List MmapEntry)
    → ((j : ℕ) → j < length list → (entry_at list j).use_count ≢ 0)
    → used list ≡ length list
used_all [] h = refl
used_all (e ∷ list) h =
    let one : live e ≡ 1 = ground (arith, h 0 (omega arith)) in
    omega (arith, one, used_all list (λ j k. h (suc j) (omega arith)))

-- The table has its size, and the counter says how many entries are in use.
pub record IsConsistent (cache : Cache) : Type 0 where
  pub size_eq : length cache.mmap_list ≡ mmap_list_size
  pub used_eq : used cache.mmap_list ≡ cache.entries_used
  pub used_le : cache.entries_used ≤ mmap_list_use_max + 1

-- In a consistent table the search never comes back to its start.
search_not_full :
    (cache : Cache) (s : Stat) (start : ℕ)
    → IsConsistent cache
    → start < mmap_list_size
    → (probe mmap_list_size cache.mmap_list s start start).0 ≢ full
search_not_full cache s start h hs e =
    absurd (omega (arith, used_all cache.mmap_list all_used, h.size_eq, h.used_eq, h.used_le))
  where
    all_used : (j : ℕ) → j < length cache.mmap_list → (entry_at cache.mmap_list j).use_count ≢ 0
    all_used j k =
        let size = h.size_eq in
        let there : (start + (j + mmap_list_size - start) % mmap_list_size) % mmap_list_size ≡ j =
          omega arith in
        subst (λ n. (entry_at cache.mmap_list n).use_count ≢ 0) there
          (probe_full 255 cache.mmap_list s start start
            ((j + mmap_list_size - start) % mmap_list_size) hs (omega arith) (omega arith) e
            (omega arith))

-- What find_mmap promises: a consistent table, and where it finds a mapping, an entry in use for
-- this file; there is one if fewer than 129 entries are in use and mmap succeeds.
abbrev pub IsFound : Option ℕ → Stat → Cache → Cache × Option ℕ → Type 0
IsFound mapped s cache (cache', none) =
    IsConsistent cache' × ((mmap_list_use_max < cache.entries_used) ⊎ (mapped ≡ none))
IsFound mapped s cache (cache', some i) =
    IsConsistent cache'
    × (i < mmap_list_size)
    × (is_same_file (entry_at cache'.mmap_list i) s ≡ true)
    × ((entry_at cache'.mmap_list i).use_count ≢ 0)
    × (cache'.entries_used ≤ cache.entries_used + 1)

get_or-set_self :
    (list : List MmapEntry) (i : ℕ) (e : MmapEntry)
    → i < length list
    → entry_at (set list i e) i ≡ e
get_or-set_self [] i e h = absurd (omega arith)
get_or-set_self (x ∷ list) zero e h = refl
get_or-set_self (x ∷ list) (suc i) e h = get_or-set_self list i e (omega arith)

added-IsFound :
    (m : ℕ) (s : Stat) (cache : Cache) (i : ℕ)
    → IsConsistent cache
    → i < mmap_list_size
    → (entry_at cache.mmap_list i).use_count ≡ 0
    → cache.entries_used ≤ mmap_list_use_max
    → IsFound (some m) s cache (added s m cache i)
added-IsFound m s cache i h hi free room =
    let e : MmapEntry = record {
      dev = s.st_dev;
      ino = s.st_ino;
      mmap = m;
      use_count = 1;
      len = s.st_size;
    } in
    let size = h.size_eq in
    let used_before = h.used_eq in
    let dead : live (entry_at cache.mmap_list i) ≡ 0 = ground arith in
    let counted = used-set cache.mmap_list i e (omega arith) in
    let here = get_or-set_self cache.mmap_list i e (omega arith) in
    (
      record {
        size_eq = length-set cache.mmap_list i e ∙ size;
        used_eq = omega arith;
        used_le = omega arith;
      },
      hi,
      rw here (ground arith),
      rw here (omega arith),
      omega arith,
    )

again-IsFound :
    (mapped : Option ℕ) (s : Stat) (cache : Cache) (i : ℕ)
    → IsConsistent cache
    → IsEnd cache.mmap_list s (found i)
    → IsFound mapped s cache (after_search mapped s cache (found i))
again-IsFound mapped s cache i h (hi, busy, same) =
    let old = entry_at cache.mmap_list i in
    let e : MmapEntry = record old { use_count = old.use_count + 1 } in
    let size = h.size_eq in
    let used_before = h.used_eq in
    let room = h.used_le in
    let counted = used-set cache.mmap_list i e (omega arith) in
    let here = get_or-set_self cache.mmap_list i e (omega arith) in
    let one : live old ≡ 1 = ground arith in
    let one' : live e ≡ 1 = ground arith in
    (
      record {
        size_eq = length-set cache.mmap_list i e ∙ size;
        used_eq = omega arith;
        used_le = omega arith;
      },
      hi,
      rw here same,
      rw here (omega arith),
      omega arith,
    )

after_search-IsFound :
    (mapped : Option ℕ) (s : Stat) (cache : Cache) (p : Probe)
    → IsConsistent cache
    → IsEnd cache.mmap_list s p
    → p ≢ full
    → IsFound mapped s cache (after_search mapped s cache p)
after_search-IsFound mapped s cache (found i) h end ends = again-IsFound mapped s cache i h end
after_search-IsFound mapped s cache full h end ends = absurd (ends refl)
after_search-IsFound mapped s cache (unused i) h (hi, free) ends =
    elim (Bool-cases (ltb mmap_list_use_max cache.entries_used)) [
      | inl many ↦
          let over = ltb→lt mmap_list_use_max cache.entries_used many in rw many (h, inl over)
      | inr few ↦
          let room : cache.entries_used ≤ mmap_list_use_max = ground arith in
          rw few (mapped_or_not mapped room)
    ]
  where
    mapped_or_not :
        (mapped : Option ℕ)
        → cache.entries_used ≤ mmap_list_use_max
        → IsFound mapped s cache (elim mapped [ some m ↦ added s m cache i | none ↦ (cache, none) ])
    mapped_or_not none room = (h, inr refl)
    mapped_or_not (some m) room = added-IsFound m s cache i h hi free room

-- In a consistent table find_mmap gives an entry in use for the file, or null; it gives null only if
-- more than 128 entries are in use or mmap fails. At most one more entry is in use, and the table
-- stays consistent: as many entries are in use as are counted, and never more than 129.
pub find_mmap-IsFound :
    (mapped : Option ℕ) (s : Stat) (cache : Cache)
    → IsConsistent cache
    → IsFound mapped s cache (find_mmap mapped s cache)
unfolding find_mmap
find_mmap-IsFound mapped s cache h =
    let start = s.st_ino % mmap_list_size in
    let below : start < mmap_list_size = omega arith in
    let r = probe mmap_list_size cache.mmap_list s start start in
    after_search-IsFound mapped s
      (record cache {
        total_requests = cache.total_requests + 1;
        hash_bounces = cache.hash_bounces + r.1;
      })
      r.0 (record { size_eq = h.size_eq; used_eq = h.used_eq; used_le = h.used_le })
      (probe-IsEnd mmap_list_size cache.mmap_list s start start below)
      (search_not_full cache s start h below)
