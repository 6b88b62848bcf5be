-- ===== src/Buffer/Flush.antt =====
-- req_flush sends the bytes of the buffer in order, each once.
use yabwf.Prelude.{
  ℕ, ◌+◌, ◌≡◌, ◌≢◌, ◌≤◌, refl, ap, ◌∙◌, sym, false, inl, inr, Bool-cases, List, [], ◌∷◌, ◌++◌,
  append_assoc, ◌==◌, ==_iff, ◌↔◌, arith, Bytes, length, take, drop, length-drop, drop-drop,
  drop_all, take-nil, take-append-drop,
}
use yabwf.Buffer.{
  dead, is_over, Output, buffer_size, buffer_end, Sent, wrote, would_block, failed, Flushed, error,
  blocked, stored, advance, after_write, req_flush,
}

pub record WellFormed (req : Output) : Type 0 where
  pub start_le : req.buffer_start ≤ buffer_end req
  pub end_le : buffer_end req ≤ buffer_size

-- What is still to be sent.
abbrev pub pending : Output → Bytes
pending req = drop req.buffer_start req.buffer

-- What write may say of the pending bytes: it takes no more than it is given.
abbrev pub Takes : Sent → Output → Type 0
Takes (wrote n) req = n ≤ length (pending req)
Takes would_block req = Unit
Takes failed req = Unit

-- The bytes that write takes.
abbrev pub taken : Sent → Output → Bytes
taken (wrote n) req = take n (pending req)
taken would_block req = []
taken failed req = []

advance-WellFormed :
    (n : ℕ) (req : Output)
    → WellFormed req
    → n ≤ length (pending req)
    → WellFormed (advance n req).0
advance-WellFormed n req h k = ground (arith, length-drop req.buffer_start req.buffer)

-- The status stays, the bytes taken are those that are no longer pending, and the result is 0 exactly
-- when nothing is pending.
abbrev pub Sends : ℕ → Output → Output × Flushed → Type 0
Sends n req (req', r) =
    (req'.status ≡ req.status)
    × (take n (pending req) ++ pending req' ≡ pending req)
    × ((r ≡ stored 0) ↔ (pending req' ≡ []))

abbrev count : Flushed → ℕ
count (stored n) = n
count _ = 0

apart : (a b : ℕ) → (a == b) ≡ false → a ≢ b
apart a b = ground arith

advance-Sends :
    (n : ℕ) (req : Output) → WellFormed req → n ≤ length (pending req) → Sends n req (advance n req)
advance-Sends n req h k =
    let rest = drop-drop n req.buffer_start req.buffer in
    let m = length-drop req.buffer_start req.buffer in
    elim (Bool-cases (req.buffer_start + n == buffer_end req)) [
      | inl e ↦
          let at_end : req.buffer_start + n ≡ buffer_end req = (==_iff _ _).0 e in
          let none_left : drop n (pending req) ≡ [] =
            rest ∙ drop_all req.buffer (req.buffer_start + n) (omega arith) in
          rw e (
            refl,
            ap (λ s. take n (pending req) ++ s) (sym none_left) ∙ take-append-drop n (pending req),
            ((λ _. refl), (λ _. refl)),
          )
      | inr e ↦
          let short : req.buffer_start + n ≢ buffer_end req = apart _ _ e in
          rw e (
            refl,
            ap (λ s. take n (pending req) ++ s) (sym rest) ∙ take-append-drop n (pending req),
            (
              (λ z. absurd (short (omega (arith, ap count z, h.start_le)))),
              (λ z. absurd (
                  short
                    (omega (arith, ap length z, length-drop (req.buffer_start + n) req.buffer)))),
            ),
          )
    ]

-- What a flush of a request does that is not over, which follows from what write says.
abbrev Outcome : Sent → Output → Output × Flushed → Type 0
Outcome failed req (req', r) = (r ≡ error) × (req'.status ≡ dead) × (req'.buffer ≡ [])
Outcome would_block req (req', r) = (r ≡ blocked) × (req' ≡ req)
Outcome (wrote n) req out = Sends n req out

some_to_write : (req : Output) → pending req ≢ [] → (buffer_end req == req.buffer_start) ≡ false
some_to_write req h = elim (Bool-cases (buffer_end req == req.buffer_start)) [
  | inl e ↦
      let none_left : buffer_end req ≡ req.buffer_start = (==_iff _ _).0 e in
      absurd (h (drop_all req.buffer req.buffer_start (omega arith)))
  | inr e ↦ e
]

-- A flush of a well-formed request that is not over and has bytes to send leaves it well-formed. Where
-- write takes n of the bytes, just these are no longer pending, the status stays, and the result is
-- 0 exactly if nothing is left. Where it would block nothing changes and the result is -1; where it
-- fails the request is dead, its buffer empty, and the result -2.
req_flush_cases :
    (sent : Sent) (req : Output)
    → WellFormed req
    → is_over req.status ≡ false
    → pending req ≢ []
    → Takes sent req
    → WellFormed (req_flush sent req).0 × Outcome sent req (req_flush sent req)
unfolding req_flush
req_flush_cases (wrote n) req h alive some_left k =
    rw (alive, some_to_write req some_left) (advance-WellFormed n req h k, advance-Sends n req h k)
req_flush_cases would_block req h alive some_left k =
    rw (alive, some_to_write req some_left) (h, (refl, refl))
req_flush_cases failed req h alive some_left k =
    rw (alive, some_to_write req some_left)
      (record { start_le = omega arith; end_le = omega arith }, (refl, refl, refl))

-- Several flushes: the bytes that write takes in all, and the request behind them.
abbrev pub flushes : List Sent → Output → Bytes × Output
flushes [] req = ([], req)
flushes (sent ∷ rest) req =
    let (got, req') = flushes rest (req_flush sent req).0 in (taken sent req ++ got, req')

-- No write fails, and each takes no more than it is given.
abbrev pub NoneFails : List Sent → Output → Type 0
NoneFails [] req = Unit
NoneFails (sent ∷ rest) req =
    (sent ≢ failed) × Takes sent req × NoneFails rest (req_flush sent req).0

abbrev Step : Sent → Output → Output → Type 0
Step sent req req' =
    WellFormed req' × (req'.status ≡ req.status) × (taken sent req ++ pending req' ≡ pending req)

advance-Step :
    (n : ℕ) (sent : Sent) (req : Output)
    → WellFormed req
    → n ≤ length (pending req)
    → taken sent req ≡ take n (pending req)
    → Step sent req (advance n req).0
advance-Step n sent req h k same =
    let (status, split, _) = advance-Sends n req h k in
    (advance-WellFormed n req h k, status, ap (λ t. t ++ pending (advance n req).0) same ∙ split)

nothing_taken :
    (sent : Sent) (req : Output) → pending req ≡ [] → taken sent req ≡ take 0 (pending req)
nothing_taken (wrote n) req h = rw h (take-nil n)
nothing_taken would_block req h = refl
nothing_taken failed req h = refl

req_flush-Step :
    (sent : Sent) (req : Output)
    → WellFormed req
    → is_over req.status ≡ false
    → sent ≢ failed
    → Takes sent req
    → Step sent req (req_flush sent req).0
unfolding req_flush
req_flush-Step sent req h alive fine k = elim (Bool-cases (buffer_end req == req.buffer_start)) [
  | inl e ↦
      let none_left : buffer_end req ≡ req.buffer_start = (==_iff _ _).0 e in
      let empty = drop_all req.buffer req.buffer_start (omega arith) in
      rw (alive, e) (advance-Step 0 sent req h (omega arith) (nothing_taken sent req empty))
  | inr e ↦ rw (alive, e) (write_called sent fine k)
]
  where
    write_called :
        (sent : Sent) → sent ≢ failed → Takes sent req → Step sent req (after_write sent req).0
    write_called (wrote n) fine k = advance-Step n (wrote n) req h k refl
    write_called would_block fine k = (h, refl, refl)
    write_called failed fine k = absurd (fine refl)

-- Over any number of flushes of a well-formed request that is not over, none of whose writes fails,
-- the bytes that write has taken, followed by those that are still pending, are those that were
-- pending at first: each byte is sent once and in order. The request stays well-formed and keeps its
-- status.
pub flushes_deliver :
    (writes : List Sent) (req : Output)
    → WellFormed req
    → is_over req.status ≡ false
    → NoneFails writes req
    → WellFormed (flushes writes req).1
      × ((flushes writes req).1.status ≡ req.status)
      × ((flushes writes req).0 ++ pending (flushes writes req).1 ≡ pending req)
flushes_deliver [] req h alive k = (h, refl, refl)
flushes_deliver (sent ∷ rest) req h alive (fine, takes, k) =
    let req' = (req_flush sent req).0 in
    let (h', same, split) = req_flush-Step sent req h alive fine takes in
    let (h'', same', split') = flushes_deliver rest req' h' (ap is_over same ∙ alive) k in
    (
      h'',
      same' ∙ same,
      append_assoc (taken sent req) (flushes rest req').0 (pending (flushes rest req').1)
          ∙ ap (λ s. taken sent req ++ s) split'
          ∙ split,
    )
