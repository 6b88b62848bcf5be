-- ===== src/MmapCache/Probes.antt =====
-- The search of find_mmap ends, and where.
use yabwf.Prelude.{
  ℕ, zero, suc, ◌+◌, ◌%◌, ◌≡◌, ◌≢◌, ◌≤◌, ◌<◌, refl, ap, ◌∙◌, Bool, true, false, ◌⊎◌, inl, inr,
  Bool-cases, List, ◌==◌, ==_iff, if◌then◌else◌, arith,
}
use native.Mathlib.Nat.{suc-add}
use yabwf.MmapCache.{
  MmapEntry, Stat, mmap_list_size, entry_at, next_index, is_same_file, Probe, found, unused, full,
  passed, probe,
}

-- What the end of the search says.
abbrev pub IsEnd : List MmapEntry → Stat → Probe → Type 0
IsEnd list s (found j) =
    (j < mmap_list_size)
    × ((entry_at list j).use_count ≢ 0)
    × (is_same_file (entry_at list j) s ≡ true)
IsEnd list s (unused j) = (j < mmap_list_size) × ((entry_at list j).use_count ≡ 0)
IsEnd list s full = Unit

passed-IsEnd :
    (list : List MmapEntry) (s : Stat) (r : Probe × ℕ)
    → IsEnd list s r.0
    → IsEnd list s (passed r).0
passed-IsEnd list s (p, n) h = h

pub probe-IsEnd :
    (fuel : ℕ) (list : List MmapEntry) (s : Stat) (start i : ℕ)
    → i < mmap_list_size
    → IsEnd list s (probe fuel list s start i).0
unfolding probe
probe-IsEnd zero list s start i h = tt
probe-IsEnd (suc fuel) list s start i h =
    let e = entry_at list i in
    elim (Bool-cases (e.use_count == 0)) [
      | inl free ↦ rw free (h, (==_iff e.use_count 0).0 free)
      | inr busy ↦ elim (Bool-cases (is_same_file e s)) [
        | inl same ↦ rw (busy, same) (h, ground arith, same)
        | inr other ↦ elim (Bool-cases (next_index i == start)) [
          | inl round ↦ rw (busy, other, round) tt
          | inr on ↦
              rw (busy, other, on)
                (passed-IsEnd list s (probe fuel list s start (next_index i))
                  (probe-IsEnd fuel list s start (next_index i) (omega arith)))
        ]
      ]
    ]

-- `d + 1` rounds lead back to the start: as much fuel is enough.
probe_rounds :
    (d k : ℕ) (list : List MmapEntry) (s : Stat) (start i : ℕ)
    → start < mmap_list_size
    → (i + suc d) % mmap_list_size ≡ start
    → probe (suc (d + k)) list s start i ≡ probe (suc d) list s start i
unfolding probe
probe_rounds zero k list s start i hs h =
    let round : (next_index i == start) ≡ true = ground arith in rw round refl
probe_rounds (suc d) k list s start i hs h =
    let further = probe_rounds d k list s start (next_index i) hs (omega arith) in
    rw (suc-add d k, further) refl

-- The search of find_mmap ends within as many rounds as the table has entries: more fuel makes no
-- difference, wherever it starts and whatever the table holds.
pub probe_terminates :
    (more : ℕ) (list : List MmapEntry) (s : Stat) (start : ℕ)
    → start < mmap_list_size
    → probe (mmap_list_size + more) list s start start ≡ probe mmap_list_size list s start start
probe_terminates more list s start h =
    let fuel : mmap_list_size + more ≡ suc (255 + more) = omega arith in
    ap (λ n. probe n list s start start) fuel
    ∙ probe_rounds 255 more list s start start h (omega arith)

passed_full : (r : Probe × ℕ) → (passed r).0 ≡ full → r.0 ≡ full
passed_full (p, n) h = h

unused_not_full : {i : ℕ} → unused i ≢ full
unused_not_full h = cc

found_not_full : {i : ℕ} → found i ≢ full
found_not_full h = cc

probe_step_full :
    (fuel : ℕ) (list : List MmapEntry) (s : Stat) (start i : ℕ)
    → (probe (suc fuel) list s start i).0 ≡ full
    → ((entry_at list i).use_count ≢ 0)
      × ((next_index i ≡ start) ⊎ ((probe fuel list s start (next_index i)).0 ≡ full))
unfolding probe
probe_step_full fuel list s start i h =
    let e = entry_at list i in
    let rest = probe fuel list s start (next_index i) in
    split (e.use_count == 0) refl (is_same_file e s) (next_index i == start) refl h
  where
    split :
        (free : Bool)
        → ((entry_at list i).use_count == 0) ≡ free
        → (same round : Bool) → (next_index i == start) ≡ round
        → (if free
            then (unused i, 0)
            else if same
            then (found i, 0)
            else if round
            then (full, 1)
            else passed (probe fuel list s start (next_index i))).0
          ≡ full
        → ((entry_at list i).use_count ≢ 0)
          × ((next_index i ≡ start) ⊎ ((probe fuel list s start (next_index i)).0 ≡ full))
    split true e same round r h = absurd (unused_not_full h)
    split false e true round r h = absurd (found_not_full h)
    split false e false true r h = (ground arith, inl (ground arith))
    split false e false false r h =
        (ground arith, inr (passed_full (probe fuel list s start (next_index i)) h))

-- A search that comes back to the start has met no free entry.
pub probe_full :
    (d : ℕ) (list : List MmapEntry) (s : Stat) (start i k : ℕ)
    → i < mmap_list_size
    → d < mmap_list_size
    → (i + suc d) % mmap_list_size ≡ start
    → (probe (suc d) list s start i).0 ≡ full
    → k ≤ d
    → (entry_at list ((i + k) % mmap_list_size)).use_count ≢ 0
probe_full d list s start i zero hi hd h e le =
    let same : (i + 0) % mmap_list_size ≡ i = omega arith in
    rw same (probe_step_full d list s start i e).0
probe_full zero list s start i (suc k) hi hd h e le = absurd (omega arith)
probe_full (suc d) list s start i (suc k) hi hd h e le =
    elim (probe_step_full (suc d) list s start i e).1 [
      | inl round ↦ absurd (omega arith)
      | inr further ↦
          let same : (i + suc k) % mmap_list_size ≡ (next_index i + k) % mmap_list_size =
            omega arith in
          rw same (
            probe_full d list s start (next_index i) k (omega arith) (omega arith) (omega arith)
              further (omega arith))
    ]
