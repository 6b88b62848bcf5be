-- ===== src/Loop/Walk.antt =====
-- The walk of fdset_update in src/select.c over the blocked requests, one after the other.
use mathlib.Core.Path.{subst}
use yabwf.Prelude.{
  ℕ, ◌+◌, ◌≡◌, ◌≤◌, ◌<◌, refl, ap, ◌∙◌, sym, Bool, true, false, ◌⊎◌, inl, inr, List, [], ◌∷◌, ◌++◌,
  append_assoc, Option, none, some, ltb, Bool-cases, if_split, ◌==◌, ==_iff, length-append, All,
  All-append, All-append_left, All-append_right, All-weaken, arith,
}
use yabwf.Buffer.{timed_out, buffer_end}
use yabwf.Queue.{Direction, FdSets, boa_fd_set}
use yabwf.Queue.Moves.{ready_request-AreQueues}
use yabwf.Life.{Request, World, Config, put}
use yabwf.Life.Census.{is_in, Census}
use yabwf.Life.Turns.{with_status, waiting}
use yabwf.Loop.{is_late, timed, awaited, is_set, wake, wake_or_watch, update_request}

-- The time of a request is not over: its last success is at most 60 seconds old, and below the time for
-- keep-alive where it is kept alive and nothing of it has been read.
abbrev pub IsTimely : (ka_max ka_timeout now : ℕ) → Request → Type 0
IsTimely ka_max ka_timeout now req =
    (now ≤ req.time_last + 60)
    × ((ka_max ≤ req.kacount) ⊎ ((now < req.time_last + ka_timeout) ⊎ (req.logline ≡ true)))

-- A request that is ready, to be closed because its time is over.
abbrev pub IsToClose : (ready : List ℕ) → World → ℕ → Type 0
IsToClose ready w y = (is_in ready y ≡ true) × ((w.requests y).output.status ≡ timed_out)

pub late-IsTimely :
    (ka_max ka_timeout now : ℕ) (req : Request)
    → is_late ka_max ka_timeout now req ≡ false
    → IsTimely ka_max ka_timeout now req
late-IsTimely ka_max ka_timeout now req h = elim (Bool-cases req.logline) [
  | inl read ↦ (ground arith, inr (inr read))
  | inr unread ↦ elim (Bool-cases (ltb req.kacount ka_max)) [
    | inl alive ↦ (ground arith, inr (inl (ground arith)))
    | inr other ↦ (ground arith, inl (ground arith))
  ]
]

-- A request that timed out waits for no descriptor.
awaited-timed_out :
    (sendfile : Bool) (req : Request) → awaited sendfile (with_status timed_out req) ≡ none
awaited-timed_out sendfile req = elim (Bool-cases (buffer_end req.output == 0)) [
  | inl e ↦ rw e refl
  | inr e ↦ rw e refl
]

never_both : (b : Bool) → b ≡ true → b ≡ false → ⊥
never_both true h k = cc
never_both false h k = cc

-- The walk over the requests that were `start`, at the time `now`.
module _ (config : Config) (ka_timeout now : ℕ) (start : ℕ → Request) where
  abbrev late : Request → Bool
  late = is_late config.ka_max ka_timeout now

  abbrev IsCalm : World → ℕ → Type 0
  IsCalm w y = (late (start y) ≡ false) × ((w.requests y).output.status ≡ (start y).output.status)

  -- Whether a request is late stays, and what is not late keeps its state.
  abbrev IsLike : Request → Request → Type 0
  IsLike req old =
      (late req ≡ late old) × ((late old ≡ true) ⊎ (req.output.status ≡ old.output.status))

  abbrev IsSame : World → ℕ → Type 0
  IsSame w y = IsLike (w.requests y) (start y)

  abbrev IsPassed : (ready : List ℕ) → World → ℕ → Type 0
  IsPassed ready w y = IsCalm w y ⊎ IsToClose ready w y

  -- The walk has come to `behind`.
  pub record Walked (passed behind : List ℕ) (w : World) : Type 0 where
    pub time : w.current_time ≡ now
    pub same : (y : ℕ) → IsSame w y
    pub ready : List ℕ
    pub before : List ℕ
    pub free : List ℕ
    pub census : Census w ready (before ++ behind) free
    pub timely : All (λ y. late (start y) ≡ false) before
    pub done : All (IsPassed ready w) passed

  late-timed : (req : Request) → late (timed config.ka_max ka_timeout now req) ≡ late req
  late-timed req = if_split (λ r. late r ≡ late req) (late req) (λ _. refl) (λ _. refl)

  calm_timed : (req : Request) → late req ≡ false → timed config.ka_max ka_timeout now req ≡ req
  calm_timed req h = rw h refl

  -- The request as the two tests of the time leave it.
  abbrev marked : ℕ → World → World
  marked a w = put a (timed config.ka_max ka_timeout now (w.requests a)) w

  timed-IsLike :
      (req old : Request) → IsLike req old → IsLike (timed config.ka_max ka_timeout now req) old
  timed-IsLike req old (e, inl l) = (late-timed req ∙ e, inl l)
  timed-IsLike req old (e, inr state) = (
    late-timed req ∙ e,
    elim (Bool-cases (late old)) [
      | inl l ↦ inl l
      | inr calm ↦ inr (ap (λ (r : Request). r.output.status) (calm_timed req (e ∙ calm)) ∙ state)
    ],
  )

  marked-IsSame : (a : ℕ) (w : World) → ((y : ℕ) → IsSame w y) → (y : ℕ) → IsSame (marked a w) y
  marked-IsSame a w same y =
      if_split (λ r. IsLike r (start y)) (y == a)
        (λ e.
          timed-IsLike (w.requests a) (start y)
            (subst (λ z. IsLike (w.requests z) (start y)) ((==_iff y a).0 e) (same y)))
        (λ _. same y)

  -- A request that is to be closed stays so.
  timed_over :
      (req : Request)
      → req.output.status ≡ timed_out
      → (timed config.ka_max ka_timeout now req).output.status ≡ timed_out
  timed_over req h =
      if_split (λ (r : Request). r.output.status ≡ timed_out) (late req) (λ _. refl) (λ _. h)

  marked-IsToClose :
      (ready : List ℕ) (a : ℕ) (w : World) (y : ℕ)
      → IsToClose ready w y
      → IsToClose ready (marked a w) y
  marked-IsToClose ready a w y (h, over) = (
    h,
    if_split (λ (r : Request). r.output.status ≡ timed_out) (y == a)
        (λ e.
          timed_over (w.requests a)
            (subst (λ z. (w.requests z).output.status ≡ timed_out) ((==_iff y a).0 e) over))
        (λ _. over),
  )

  -- What is known of a request by now goes over to the next step.
  marked-IsPassed :
      (ready : List ℕ) (a : ℕ) (w : World)
      → ((y : ℕ) → IsSame w y)
      → (y : ℕ) → IsPassed ready w y
      → IsPassed ready (marked a w) y
  marked-IsPassed ready a w same y (inr over) = inr (marked-IsToClose ready a w y over)
  marked-IsPassed ready a w same y (inl (calm, state)) =
      let (e, kept) = marked-IsSame a w same y in
      inl (calm, elim kept [ inl l ↦ absurd (never_both (late (start y)) l calm) | inr k ↦ k ])

  ready-IsPassed :
      (ready : List ℕ) (a : ℕ) (w : World) (y : ℕ) → IsPassed ready w y → IsPassed (a ∷ ready) w y
  ready-IsPassed ready a w y (inl calm) = inl calm
  ready-IsPassed ready a w y (inr (h, over)) = inr (ground arith, over)

  -- The request `a` has had its two tests: it gets ready, or waits on if it is not late.
  woken-Walked :
      (a : ℕ) (passed behind : List ℕ) (w : World) (r : Walked passed (a ∷ behind) w)
      → IsPassed (a ∷ r.ready) w a
      → Walked (passed ++ a ∷ []) behind (wake config.sendfile a w)
  woken-Walked a passed behind w r here =
      let h = r.census in
      let block_in = All-append_left _ r.before (a ∷ behind) h.block_in in
      let (known, behind_in) = All-append_right _ r.before (a ∷ behind) h.block_in in
      let old = h.counted in
      let whole = h.all_held in
      let longer = length-append r.before (a ∷ behind) in
      let shorter = length-append r.before behind in
      record {
        time = r.time;
        same = r.same;
        ready = a ∷ r.ready;
        before = r.before;
        free = r.free;
        census = record {
          queues =
              ready_request-AreQueues config.sendfile a (waiting (w.requests a)) w.queues w.sets
                r.before behind r.ready r.free h.queues;
          counted = omega arith;
          all_held = omega arith;
          ready_in = (known, h.ready_in);
          block_in = All-append _ r.before behind block_in behind_in;
          free_in = h.free_in;
        };
        timely = r.timely;
        done =
            All-append _ passed (a ∷ []) (All-weaken _ _ (ready-IsPassed r.ready a w) passed r.done)
              (here, tt);
      }

  stays-Walked :
      (a : ℕ) (passed behind : List ℕ) (w : World)
      → Walked passed (a ∷ behind) w
      → IsCalm w a
      → Walked (passed ++ a ∷ []) behind w
  stays-Walked a passed behind w r here = record {
    time = r.time;
    same = r.same;
    ready = r.ready;
    before = r.before ++ a ∷ [];
    free = r.free;
    census = rw (append_assoc r.before (a ∷ []) behind) r.census;
    timely = All-append _ r.before (a ∷ []) r.timely (here.0, tt);
    done = All-append _ passed (a ∷ []) r.done (inl here, tt);
  }

  watched-Walked :
      (sets : FdSets) (passed behind : List ℕ) (w : World)
      → Walked passed behind w
      → Walked passed behind (record w { sets = sets })
  watched-Walked sets passed behind w r = record {
    time = r.time;
    same = r.same;
    ready = r.ready;
    before = r.before;
    free = r.free;
    census = r.census;
    timely = r.timely;
    done = r.done;
  }

  calm-Walked :
      (a : ℕ) (place : Option ((ℕ × Direction) × Bool)) (passed behind : List ℕ) (w : World)
      → Walked passed (a ∷ behind) w
      → IsCalm w a
      → Walked (passed ++ a ∷ []) behind (wake_or_watch config.sendfile a place w)
  calm-Walked a none passed behind w r here = woken-Walked a passed behind w r (inl here)
  calm-Walked a (some (place, watched)) passed behind w r here =
      if_split (Walked (passed ++ a ∷ []) behind) (is_set place w.sets)
        (λ _. woken-Walked a passed behind w r (inl here))
        (λ _.
          if_split (Walked (passed ++ a ∷ []) behind) watched
            (λ _.
              stays-Walked a passed behind (record w { sets = boa_fd_set place w.sets })
                (watched-Walked (boa_fd_set place w.sets) passed (a ∷ behind) w r) here)
            (λ _. stays-Walked a passed behind w r here))

  marked-Walked :
      (a : ℕ) (passed behind : List ℕ) (w : World)
      → Walked passed (a ∷ behind) w
      → Walked passed (a ∷ behind) (marked a w)
  marked-Walked a passed behind w r = record {
    time = r.time;
    same = marked-IsSame a w r.same;
    ready = r.ready;
    before = r.before;
    free = r.free;
    census = r.census;
    timely = r.timely;
    done = All-weaken _ _ (marked-IsPassed r.ready a w r.same) passed r.done;
  }

  marked-IsCalm :
      (a : ℕ) (w : World)
      → ((y : ℕ) → IsSame w y)
      → late (w.requests a) ≡ false
      → IsCalm (marked a w) a
  marked-IsCalm a w same calm =
      let here : late (start a) ≡ false = sym (same a).0 ∙ calm in
      (
        here,
        elim (marked-IsSame a w same a).1 [
          | inl l ↦ absurd (never_both (late (start a)) l here)
          | inr state ↦ state
        ],
      )

  marked_over :
      (a : ℕ) (w : World)
      → late (w.requests a) ≡ true
      → ((marked a w).requests a).output.status ≡ timed_out
  marked_over a w l =
      if_split (λ (r : Request). r.output.status ≡ timed_out) (a == a) (λ _. rw l refl)
        (λ e. absurd (ground arith))

  step-Walked :
      (a : ℕ) (passed behind : List ℕ) (w : World)
      → Walked passed (a ∷ behind) w
      → Walked (passed ++ a ∷ []) behind (
          wake_or_watch config.sendfile a
            (awaited config.sendfile (timed config.ka_max ka_timeout now (w.requests a)))
            (marked a w))
  step-Walked a passed behind w r =
      let req = timed config.ka_max ka_timeout now (w.requests a) in
      let r' = marked-Walked a passed behind w r in
      elim (Bool-cases (late (w.requests a))) [
        | inl l ↦
            let waits_not : awaited config.sendfile req ≡ none =
              rw l (awaited-timed_out config.sendfile (w.requests a)) in
            subst
              (λ place.
                Walked (passed ++ a ∷ []) behind
                  (wake_or_watch config.sendfile a place (marked a w)))
              (sym waits_not)
              (woken-Walked a passed behind (marked a w) r' (inr (ground arith, marked_over a w l)))
        | inr calm ↦
            calm-Walked a (awaited config.sendfile req) passed behind (marked a w) r'
              (marked-IsCalm a w r.same calm)
      ]

  pub update_request-Walked :
      (a : ℕ) (passed behind : List ℕ) (w : World)
      → Walked passed (a ∷ behind) w
      → Walked (passed ++ a ∷ []) behind (update_request config ka_timeout a w)
  unfolding update_request
  update_request-Walked a passed behind w r =
      subst
        (λ t. Walked (passed ++ a ∷ []) behind (
          let req = timed config.ka_max ka_timeout t (w.requests a) in
          wake_or_watch config.sendfile a (awaited config.sendfile req) (put a req w)))
        (sym r.time) (step-Walked a passed behind w r)
