-- ===== src/MmapCache/Calls.antt =====
-- The table stays consistent over the calls of src/mmap_cache.c.
use yabwf.Prelude.{
  ℕ, ◌-◌, ◌≡◌, ◌<◌, refl, ◌∙◌, inl, inr, Bool-cases, List, [], ◌∷◌, Option, none, some, ◌==◌,
  length-set, All, arith,
}
use yabwf.MmapCache.{MmapEntry, Stat, Cache, mmap_list_size, entry_at, find_mmap, release_mmap}
use yabwf.MmapCache.Found.{used-set, live, IsConsistent, IsFound, find_mmap-IsFound}

release-IsConsistent :
    (cache : Cache) (i : ℕ)
    → IsConsistent cache
    → i < mmap_list_size
    → IsConsistent (release_mmap (some i) cache)
unfolding release_mmap
release-IsConsistent cache i h hi =
    let old = entry_at cache.mmap_list i in
    let e : MmapEntry = record old { use_count = old.use_count - 1 } in
    let size = h.size_eq in
    let used_before = h.used_eq in
    let room = h.used_le in
    let counted = used-set cache.mmap_list i e (omega arith) in
    let size' = length-set cache.mmap_list i e ∙ size in
    elim (Bool-cases (old.use_count == 0)) [
      | inl free ↦ rw free h
      | inr busy ↦
          let one : live old ≡ 1 = rw busy refl in
          elim (Bool-cases (e.use_count == 0)) [
            | inl last ↦
                let dead : live e ≡ 0 = rw last refl in
                rw (busy, last)
                  (record { size_eq = size'; used_eq = omega arith; used_le = omega arith })
            | inr shared ↦
                let alive : live e ≡ 1 = rw shared refl in
                rw (busy, shared)
                  (record { size_eq = size'; used_eq = omega arith; used_le = room })
          ]
    ]

-- A call by the rest of the server.
pub data Call : Type 0 where
  find : Option ℕ → Stat → Call
  release : Option ℕ → Call

abbrev pub IsInTable : Call → Type 0
IsInTable (find mapped s) = Unit
IsInTable (release none) = Unit
IsInTable (release (some i)) = i < mmap_list_size

abbrev pub run : List Call → Cache → Cache
run [] cache = cache
run (find mapped s ∷ calls) cache = run calls (find_mmap mapped s cache).0
run (release e ∷ calls) cache = run calls (release_mmap e cache)

found-IsConsistent :
    (mapped : Option ℕ) (s : Stat) (cache : Cache) (r : Cache × Option ℕ)
    → IsFound mapped s cache r
    → IsConsistent r.0
found-IsConsistent mapped s cache (cache', none) h = h.0
found-IsConsistent mapped s cache (cache', some i) h = h.0

-- Over any number of calls of find_mmap and release_mmap, in any order, where each release names an
-- entry of the table or null, the table stays consistent: it keeps its size, and the counter says how
-- many entries are in use, at most 129.
pub run-IsConsistent :
    (calls : List Call) (cache : Cache)
    → All IsInTable calls
    → IsConsistent cache
    → IsConsistent (run calls cache)
unfolding release_mmap
run-IsConsistent [] cache k h = h
run-IsConsistent (find mapped s ∷ calls) cache (_, k) h =
    run-IsConsistent calls (find_mmap mapped s cache).0 k (
      found-IsConsistent mapped s cache (find_mmap mapped s cache)
        (find_mmap-IsFound mapped s cache h))
run-IsConsistent (release none ∷ calls) cache (_, k) h = run-IsConsistent calls cache k h
run-IsConsistent (release (some i) ∷ calls) cache (hi, k) h =
    run-IsConsistent calls (release_mmap (some i) cache) k (release-IsConsistent cache i h hi)
