-- ===== src/Loop/Timely.antt =====
-- Behind fdset_update of src/select.c the blocked requests whose time is over are ready, to be closed.
use mathlib.Core.Path.{subst}
use yabwf.Prelude.{
  ℕ, zero, suc, ◌≡◌, ◌≤◌, refl, ap, sym, false, ◌⊎◌, inl, inr, List, [], ◌∷◌, ◌++◌, append_assoc,
  append-nil, Option, none, some, length, All, All-weaken, arith,
}
use yabwf.Queue.Linked.{first, linked_at}
use yabwf.Life.{World, Config}
use yabwf.Life.Census.{Census}
use yabwf.Loop.{is_late, update_request, update_loop, fdset_update}
use yabwf.Loop.Walk.{IsTimely, IsToClose, late-IsTimely, Walked, update_request-Walked}

-- What fdset_update leaves of the world that was, whose blocked requests were `block`.
abbrev pub IsUpdated :
    Config → (ka_timeout now : ℕ) → World → (block : List ℕ) → Option World → Type 0
IsUpdated config ka_timeout now w block none = ⊥
IsUpdated config ka_timeout now w block (some w') =
    (ready : List ℕ) × (left : List ℕ) × (free : List ℕ) × Census w' ready left free
    × All (λ y. IsTimely config.ka_max ka_timeout now (w.requests y)) left
    × All
        (λ y.
          (IsTimely config.ka_max ka_timeout now (w.requests y)
            × ((w'.requests y).output.status ≡ (w.requests y).output.status))
          ⊎ IsToClose ready w' y)
        block

module _ (config : Config) (ka_timeout now : ℕ) (start : World) where
  ended-IsUpdated :
      (passed : List ℕ) (w : World)
      → Walked config ka_timeout now start.requests passed [] w
      → IsUpdated config ka_timeout now start passed (some w)
  ended-IsUpdated passed w r = (
    r.ready,
    r.before,
    r.free,
    subst (λ before. Census w r.ready before r.free) (append-nil r.before) r.census,
    All-weaken _ _ (λ y h. late-IsTimely config.ka_max ka_timeout now (start.requests y) h) r.before
        r.timely,
    All-weaken _ _ told passed r.done,
  )
    where
      told :
          (y : ℕ)
          → ((is_late config.ka_max ka_timeout now (start.requests y) ≡ false)
              × ((w.requests y).output.status ≡ (start.requests y).output.status))
            ⊎ IsToClose r.ready w y
          → (IsTimely config.ka_max ka_timeout now (start.requests y)
              × ((w.requests y).output.status ≡ (start.requests y).output.status))
            ⊎ IsToClose r.ready w y
      told y (inl (calm, state)) =
          inl (late-IsTimely config.ka_max ka_timeout now (start.requests y) calm, state)
      told y (inr over) = inr over

  update_loop-IsUpdated :
      (fuel : ℕ) (passed behind : List ℕ) (w : World)
      → Walked config ka_timeout now start.requests passed behind w
      → length behind ≤ fuel
      → IsUpdated config ka_timeout now start
          (passed ++ behind)
          (update_loop fuel config ka_timeout (first behind) w)
  unfolding update_loop
  update_loop-IsUpdated zero passed [] w r le = rw (append-nil passed) (ended-IsUpdated passed w r)
  update_loop-IsUpdated zero passed (a ∷ behind) w r le = absurd (omega (arith, le))
  update_loop-IsUpdated (suc fuel) passed [] w r le =
      rw (append-nil passed) (ended-IsUpdated passed w r)
  update_loop-IsUpdated (suc fuel) passed (a ∷ behind) w r le =
      let next =
        ap (λ links. links.next)
          (linked_at w.queues.heap none r.before a behind r.census.queues.block_queue.1) in
      let w' = update_request config ka_timeout a w in
      let later =
        update_loop-IsUpdated fuel (passed ++ a ∷ []) behind w'
          (update_request-Walked config ka_timeout now start.requests a passed behind w r)
          (omega arith) in
      subst
        (λ current.
          IsUpdated config ka_timeout now start (passed ++ a ∷ behind)
            (update_loop fuel config ka_timeout current w'))
        (sym next)
        (subst
          (λ block.
            IsUpdated config ka_timeout now start block
              (update_loop fuel config ka_timeout (first behind) w'))
          (append_assoc passed (a ∷ []) behind) later)

-- fdset_update comes to an end. Each request that was blocked either is then ready and has the status
-- TIMED_OUT, or its time is not over and its status is as before: its last success is at most 60 seconds
-- old, and below the time for keep-alive where it is kept alive and nothing of it has been read. None that
-- is still blocked has its time over. Before and behind it each request stands in one queue and
-- total_connections is right.
pub fdset_update-IsUpdated :
    (config : Config) (ka_timeout now : ℕ) (w : World) (ready block free : List ℕ)
    → Census w ready block free
    → IsUpdated config ka_timeout now w block (fdset_update config ka_timeout now w)
unfolding fdset_update
fdset_update-IsUpdated config ka_timeout now w ready block free h =
    let whole = h.all_held in
    let later : World = record w { current_time = now } in
    subst
      (λ current.
        IsUpdated config ka_timeout now w block
          (update_loop (length w.memory) config ka_timeout current later))
      (sym h.queues.block_queue.0)
      (update_loop-IsUpdated config ka_timeout now w (length w.memory) [] block later
        (record {
          time = refl;
          same = λ y. (refl, inr refl);
          ready = ready;
          before = [];
          free = free;
          census = h;
          timely = tt;
          done = tt;
        })
        (omega arith))
