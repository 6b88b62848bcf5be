-- ===== src/Read/Body/Turns.antt =====
-- The turns of a request whose body is read by src/read.c, and what they keep.

use yabwf.Prelude.{
  ℕ, ◌+◌, ◌^◌, ◌≡◌, ◌≢◌, ◌⊎◌, inl, ◌≤◌, ◌<◌, min, refl, Bool, true, false, List, [], ◌∷◌, ◌++◌,
  Option, none, some, ◌==◌, if◌then◌else◌, Bytes, length, take, drop,
}
use yabwf.Buffer.{ReqStatus, body_read, Sent, wrote, would_block, failed}
use yabwf.Pipe.{Got, got, eof, not_ready, read_failed}
use yabwf.Read.Body.{
  Body, Outcome, blocked, again, init_cgi, body_to_read, read_body, body_to_write, write_body,
}

-- What the system does in a turn: it moves bytes, at most as many as it is asked for, would block,
-- fails, or is interrupted.
pub data Answer : Type 0 where
  moves : ℕ → Answer
  waits fails interrupts : Answer

-- A read of at most `most` bytes from what the client still sends.
abbrev pub arrived : Bytes → Option Got
arrived [] = some eof
arrived (c ∷ s) = some (got (c ∷ s))

abbrev pub answer_read : Answer → (most : ℕ) → (client : Bytes) → Option Got
answer_read (moves n) most client = arrived (take (min n most) client)
answer_read waits most client = some not_ready
answer_read fails most client = some read_failed
answer_read interrupts most client = none

abbrev pub answer_write : Answer → (most : ℕ) → Option Sent
answer_write (moves n) most = some (wrote (min n most))
answer_write waits most = some would_block
answer_write fails most = some failed
answer_write interrupts most = none

-- What a read leaves to be sent.
abbrev pub behind_read : Answer → (most : ℕ) → (client : Bytes) → Bytes
behind_read (moves n) most client = drop (min n most) client
behind_read answer most client = client

abbrev pub is_reading : ReqStatus → Bool
is_reading body_read = true
is_reading _ = false

-- A call of read_body or of write_body, and what the client has still to send.
abbrev pub turn_of : (reading : Bool) → Answer → Body × Bytes → (Body × Bytes) × Outcome
turn_of true answer (req, client) =
    let (req', result) = read_body (answer_read answer (body_to_read req) client) req in
    let left =
      if body_to_read req == 0 then client else behind_read answer (body_to_read req) client in
    ((req', left), result)
turn_of false answer (req, client) =
    let (req', result) = write_body (answer_write answer (body_to_write req)) req in
    ((req', client), result)

-- A turn of the request, whose status is BODY_READ or BODY_WRITE.
abbrev pub turn : Answer → Body × Bytes → (Body × Bytes) × Outcome
turn answer st = turn_of (is_reading st.0.status) answer st

abbrev pub goes_on :
    ((Body × Bytes) → (Body × Bytes) × Outcome)
    → (Body × Bytes) × Outcome
    → (Body × Bytes) × Outcome
goes_on rest (st, again) = rest st
goes_on rest (st, blocked) = rest st
goes_on rest (st, result) = (st, result)

-- The turns of a request, up to the one that ends it.
unfoldable pub turns : List Answer → Body × Bytes → (Body × Bytes) × Outcome
unfolding read_body write_body
turns [] st = (st, again)
turns (answer ∷ answers) st = goes_on (turns answers) (turn answer st)

-- All bytes, in their order: those in the file, those held, and those the client has still to send.
abbrev pub all_bytes : Body × Bytes → Bytes
all_bytes (req, client) = req.post_data ++ (req.held ++ client)

-- The file has as many bytes as are counted, the announced size is below 2 ^ 31, no more than it is
-- held, and nothing while the request reads.
pub record IsCounted (req : Body) : Type 0 where
  pub small : req.filesize < 2 ^ 31
  pub written : length req.post_data ≡ req.filepos
  pub within : req.filepos + length req.held ≤ req.filesize
  pub empty : (is_reading req.status ≡ false) ⊎ (req.held ≡ [])

-- No byte is lost or changes its place, and the program is started only with the whole body.
pub record Keeps (st : Body × Bytes) (r : (Body × Bytes) × Outcome) : Type 0 where
  pub counted : IsCounted r.0.0
  pub bytes : all_bytes r.0 ≡ all_bytes st
  pub size : r.0.0.filesize ≡ st.0.filesize
  pub started : (r.1 ≢ init_cgi) ⊎ (r.0.0.filepos ≡ r.0.0.filesize)

pub Keeps-same :
    (req : Body) (client : Bytes) (r : Outcome)
    → IsCounted req
    → r ≢ init_cgi
    → Keeps (req, client) ((req, client), r)
Keeps-same req client r h other = record {
  counted = h;
  bytes = refl;
  size = refl;
  started = inl other;
}
