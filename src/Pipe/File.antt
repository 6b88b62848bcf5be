-- ===== src/Pipe/File.antt =====
-- What a call of io_shuffle of src/pipe.c takes from a file range and sends.
use yabwf.Prelude.{
  ℕ, ◌+◌, ◌-◌, ◌≡◌, ◌≢◌, ◌≤◌, ◌<◌, refl, ap, sym, ◌∙◌, Bool, true, false, not, ◌||◌, ◌⊎◌, inl, inr,
  Bool-cases, ◌&&◌, [], ◌++◌, append_assoc, ◌==◌, if◌then◌else◌, Bytes, length, take, drop,
  drop-drop, drop-append, take-add, length-append, arith,
}
use mathlib.Core.Path.{subst}
use yabwf.Buffer.{dead, Sent}
use yabwf.Pipe.{
  Got, got, eof, not_ready, read_failed, Outcome, closed, blocked, complete, FileRequest,
  bytes_to_read, after_file_read, shuffle_write, io_shuffle,
}
use yabwf.Pipe.Writes.{pending, unread, content, TakesOf, sent_by, Writes, shuffle_write-Writes}

-- What a call of io_shuffle leaves to be sent, where `k` bytes are sent.
abbrev pub Serves : Bytes → ℕ → FileRequest → FileRequest × Outcome → Type 0
Serves file k req (req', r) =
    (req'.buffer_start ≤ length req'.buffer)
    × ((r ≢ complete) ⊎ (unread file req' ≡ []))
    × (req'.bytes_written ≡ req.bytes_written + k)
    × (k ≤ length (content file req))
    × (content file req' ≡ drop k (content file req))

-- Bytes go from the range into the buffer.
Writes-Serves :
    (file : Bytes) (k : ℕ) (req more : FileRequest) (r : FileRequest × Outcome)
    → content file more ≡ content file req
    → more.bytes_written ≡ req.bytes_written
    → Writes k more r
    → Serves file k req r
Writes-Serves file k req more (req', r) same count (h, start, stop, open_end, bw, le, rest) =
    let n = length-append (pending more) (unread file more) in
    (
      h,
      inl open_end,
      (bw ∙ ap (λ m. m + k) count),
      omega (arith, n, ap length same),
      rw (rest, start, stop)
          (sym (drop-append k (pending more) (unread file more) le) ∙ ap (drop k) same),
    )

-- What read may give: at most as many bytes as it was asked for, at least one, and those of the file
-- from the start of the range on.
abbrev pub Reads : Bytes → FileRequest → Got → Type 0
Reads file req (got bytes) =
    (0 < length bytes)
    × (length bytes ≤ bytes_to_read req)
    × (bytes ≡ take (length bytes) (drop req.start file))
Reads file req read = Unit

-- The request with the bytes that were read, as write finds it.
abbrev pub filled_by : Got → FileRequest → FileRequest
filled_by (got bytes) req = record req {
  buffer = req.buffer ++ bytes;
  start = req.start + length bytes;
}
filled_by read req = req

abbrev pub at_write : Got → FileRequest → FileRequest
at_write read req = if bytes_to_read req == 0 || req.data_fd == 0 then req else filled_by read req

bytes_to_read-le : (req : FileRequest) → bytes_to_read req ≤ req.stop + 1 - req.start
unfolding bytes_to_read
bytes_to_read-le req = ground arith

content-filled_by :
    (file bytes : Bytes) (req : FileRequest)
    → req.buffer_start ≤ length req.buffer
    → Reads file req (got bytes)
    → content file (filled_by (got bytes) req) ≡ content file req
content-filled_by file bytes req h (some_read, few, same) =
    let n = length bytes in
    let le = bytes_to_read-le req in
    let m = req.stop + 1 - (req.start + n) in
    let parts : req.stop + 1 - req.start ≡ n + m = omega arith in
    let whole : unread file req ≡ bytes ++ take m (drop (req.start + n) file) =
      ap (λ k. take k (drop req.start file)) parts
      ∙ take-add n m (drop req.start file)
      ∙ ap (λ b. b ++ take m (drop n (drop req.start file))) (sym same)
      ∙ ap (λ d. bytes ++ take m d) (drop-drop n req.start file) in
    ap (λ p. p ++ take m (drop (req.start + n) file))
      (drop-append req.buffer_start req.buffer bytes h)
    ∙ append_assoc (pending req) bytes (take m (drop (req.start + n) file))
    ∙ ap (λ u. pending req ++ u) (sym whole)

-- Whether the second half, which writes what the buffer holds, is reached behind read, and behind lseek:
-- not where those fail, where nothing is there, or where the range is read to its end.
abbrev pub calls_write_behind : Got → FileRequest → Bool
calls_write_behind read_failed req = false
calls_write_behind not_ready req = not (length req.buffer - req.buffer_start == 0)
calls_write_behind eof req = true
calls_write_behind (got bytes) req = not (req.stop + 1 == req.start + length bytes)

abbrev pub calls_write : (seek : Bool) → Got → FileRequest → Bool
calls_write seek read req =
    (bytes_to_read req == 0 || req.data_fd == 0) || (seek && calls_write_behind read req)

module _ (file : Bytes) (req : FileRequest) (h : req.buffer_start ≤ length req.buffer) where
  still :
      (r : Outcome) (req' : FileRequest)
      → r ≢ complete
      → Serves file 0 req (record req { status = req'.status }, r)
  still r req' open_end = (h, inl open_end, omega arith, omega arith, refl)

  after_file_read-Serves :
      (read : Got) (write : Sent)
      → Reads file req read
      → TakesOf write (length (pending (filled_by read req)))
      → Serves file
          (if calls_write_behind read req then sent_by write else 0)
          req
          (after_file_read read write req)
  unfolding after_file_read
  after_file_read-Serves read_failed write r w =
      still closed (record req { status = dead }) (λ e. cc)
  after_file_read-Serves not_ready write r w = waits (length req.buffer - req.buffer_start == 0)
    where
      waits :
          (empty : Bool)
          → Serves file
              (if not empty then sent_by write else 0)
              req
              (if empty then (req, blocked) else shuffle_write write req)
      waits true = still blocked req (λ e. cc)
      waits false =
          Writes-Serves file (sent_by write) req req (shuffle_write write req) refl refl
            (shuffle_write-Writes write req h w)
  after_file_read-Serves eof write r w =
      let ended = record req { data_fd = 0 } in
      Writes-Serves file (sent_by write) req ended (shuffle_write write ended) refl refl
        (shuffle_write-Writes write ended h w)
  after_file_read-Serves (got bytes) write r w =
      let more = filled_by (got bytes) req in
      let same = content-filled_by file bytes req h r in
      let longer = length-append req.buffer bytes in
      elim (Bool-cases (more.stop + 1 == more.start)) [
        | inl all ↦
            let nothing : more.stop + 1 - more.start ≡ 0 = ground arith in
            let none_left : unread file more ≡ [] =
              ap (λ n. take n (drop more.start file)) nothing in
            rw all (omega arith, inr none_left, omega arith, omega arith, same)
        | inr part ↦ rw part (
            Writes-Serves file (sent_by write) req more (shuffle_write write more) same refl
              (shuffle_write-Writes write more (omega arith) w))
      ]

-- Each call of io_shuffle for a method with a body takes from the front of what is to be sent, the bytes
-- in the buffer and behind them those of the range that are not read yet, the bytes that write took, and
-- counts these: none where it does not come to write. The rest is as before, and the response is complete
-- only when the range is read to its end. A read gives at least one of the bytes of the range and no
-- more than it is asked for, and write takes no more than the buffer holds.
pub io_shuffle-Serves :
    (file : Bytes) (seek : Bool) (read : Got) (write : Sent) (req : FileRequest)
    → req.buffer_start ≤ length req.buffer
    → Reads file req read
    → TakesOf write (length (pending (at_write read req)))
    → Serves file
        (if calls_write seek read req then sent_by write else 0)
        req
        (io_shuffle false seek read write req)
unfolding io_shuffle
io_shuffle-Serves file seek read write req h r w =
    let as_found : Bool → Type 0 =
      λ b. TakesOf write (length (pending (if b then req else filled_by read req))) in
    elim (Bool-cases (bytes_to_read req == 0 || req.data_fd == 0)) [
      | inl e ↦ rw e (
          Writes-Serves file (sent_by write) req req (shuffle_write write req) refl refl
            (shuffle_write-Writes write req h (subst as_found e w)))
      | inr e ↦ rw e (behind seek (subst as_found e w))
    ]
  where
    behind :
        (seek : Bool)
        → TakesOf write (length (pending (filled_by read req)))
        → Serves file (if seek && calls_write_behind read req then sent_by write else 0) req (
            if not seek
            then (record req { status = dead }, closed)
            else after_file_read read write req)
    behind true k = after_file_read-Serves file req h read write r k
    behind false k = still file req h closed (record req { status = dead }) (λ c. cc)
