-- ===== src/Pipe/Writes.antt =====
-- What the second half of io_shuffle, of src/pipe.c, takes from the buffer.
use mathlib.Core.Path.{subst}
use yabwf.Prelude.{
  ℕ, ◌+◌, ◌-◌, ◌≡◌, ◌≢◌, ◌≤◌, refl, ap, sym, inl, inr, Bool-cases, [], ◌++◌, ◌==◌, ==_iff, Bytes,
  length, take, drop, drop-drop, drop_all, length-drop, arith,
}
use yabwf.Buffer.{dead, Sent, wrote, would_block, failed}
use yabwf.Pipe.{
  Outcome, closed, blocked, complete, FileRequest, moved_on, after_file_write, shuffle_write,
}

-- What is in the buffer and not sent.
abbrev pub pending : FileRequest → Bytes
pending req = drop req.buffer_start req.buffer

-- What of the range is not read.
abbrev pub unread : Bytes → FileRequest → Bytes
unread file req = take (req.stop + 1 - req.start) (drop req.start file)

-- What is to be sent.
abbrev pub content : Bytes → FileRequest → Bytes
content file req = pending req ++ unread file req

-- What write takes of `n` bytes.
abbrev pub TakesOf : Sent → ℕ → Type 0
TakesOf (wrote k) n = k ≤ n
TakesOf would_block n = Unit
TakesOf failed n = Unit

-- The bytes that write takes.
abbrev pub sent_by : Sent → ℕ
sent_by (wrote n) = n
sent_by would_block = 0
sent_by failed = 0

-- A step of the second half: the first `k` bytes leave the buffer, and are counted.
abbrev pub Writes : ℕ → FileRequest → FileRequest × Outcome → Type 0
Writes k req (req', r) =
    (req'.buffer_start ≤ length req'.buffer)
    × (req'.start ≡ req.start)
    × (req'.stop ≡ req.stop)
    × (r ≢ complete)
    × (req'.bytes_written ≡ req.bytes_written + k)
    × (k ≤ length (pending req))
    × (pending req' ≡ drop k (pending req))

-- Nothing is written.
idle :
    (req req' : FileRequest) (r : Outcome)
    → req.buffer_start ≤ length req.buffer
    → req'.buffer ≡ req.buffer
    → req'.buffer_start ≡ req.buffer_start
    → req'.bytes_written ≡ req.bytes_written
    → req'.start ≡ req.start
    → req'.stop ≡ req.stop
    → r ≢ complete
    → Writes 0 req (req', r)
idle req req' r h b s w st sp c = (rw (b, s) h, st, sp, c, omega arith, omega arith, rw (b, s) refl)

written :
    (n : ℕ) (req : FileRequest)
    → req.buffer_start ≤ length req.buffer
    → n ≤ length (pending req)
    → Writes n req (moved_on n req)
written n req h k =
    let m = length-drop req.buffer_start req.buffer in
    elim (Bool-cases (length req.buffer - req.buffer_start == n)) [
      | inl all ↦
          let equal = (==_iff _ _).0 all in
          rw all (
            omega arith,
            refl,
            refl,
            (λ e. cc),
            refl,
            k,
            sym (drop_all (pending req) n (omega arith)),
          )
      | inr part ↦ rw part (
        omega arith,
        refl,
        refl,
        (λ e. cc),
        refl,
        k,
        sym (drop-drop n req.buffer_start req.buffer),
      )
    ]

nothing_sent : (write : Sent) → TakesOf write 0 → sent_by write ≡ 0
nothing_sent (wrote n) h = omega (arith, h)
nothing_sent would_block h = refl
nothing_sent failed h = refl

pub shuffle_write-Writes :
    (write : Sent) (req : FileRequest)
    → req.buffer_start ≤ length req.buffer
    → TakesOf write (length (pending req))
    → Writes (sent_by write) req (shuffle_write write req)
unfolding shuffle_write
shuffle_write-Writes write req h k = elim (Bool-cases (length req.buffer - req.buffer_start == 0)) [
  | inl none_left ↦
      let nothing : length req.buffer - req.buffer_start ≡ 0 = (==_iff _ _).0 none_left in
      let empty : pending req ≡ [] = drop_all req.buffer req.buffer_start (omega arith) in
      let none_sent : sent_by write ≡ 0 =
        nothing_sent write (subst (TakesOf write) (ap length empty) k) in
      subst (λ n. Writes n req (shuffle_write write req)) (sym none_sent)
        (elim (Bool-cases (req.data_fd == 0)) [
          | inl end ↦ rw (none_left, end) (idle req req closed h refl refl refl refl refl (λ e. cc))
          | inr open_fd ↦
              rw (none_left, open_fd)
                (omega arith, refl, refl, (λ e. cc), omega arith, omega arith, sym empty)
        ])
  | inr some_left ↦ rw some_left (by_result write k)
]
  where
    by_result :
        (write : Sent)
        → TakesOf write (length (pending req))
        → Writes (sent_by write) req (after_file_write write req)
    by_result would_block k = idle req req blocked h refl refl refl refl refl (λ e. cc)
    by_result failed k =
        idle req (record req { status = dead }) closed h refl refl refl refl refl (λ e. cc)
    by_result (wrote n) k = written n req h k
