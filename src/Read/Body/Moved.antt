-- ===== src/Read/Body/Moved.antt =====
-- What a call of read_body or of write_body in src/read.c keeps.
use yabwf.Prelude.{
  ℕ, ◌-◌, ◌≡◌, inl, inr, ◌≤◌, min, refl, sym, ap, ◌∙◌, Bool, true, false, [], ◌∷◌, ◌++◌,
  append_assoc, some, leb, leb→le, ◌==◌, if◌then◌else◌, if_split, Bytes, length, length-append,
  length-take, length-drop, take, drop, take-append-drop, arith,
}
use yabwf.Buffer.{ReqStatus, body_read, wrote}
use yabwf.Read.Body.{
  Body, Outcome, blocked, closed, again, body_to_read, after_body_read, read_body, body_to_write,
  after_body_write, write_body,
}
use yabwf.Read.Body.Turns.{
  Answer, moves, waits, fails, interrupts, arrived, answer_read, answer_write, behind_read,
  is_reading, all_bytes, IsCounted, Keeps, Keeps-same,
}

empty_of_length : (s : Bytes) → length s ≡ 0 → s ≡ []
empty_of_length [] h = refl
empty_of_length (c ∷ s) h = absurd (omega (arith, h))

Keeps-split :
    (st : Body × Bytes) (b : Bool) (x y : Body × Outcome) (l r : Bytes)
    → (b ≡ true → Keeps st ((x.0, l), x.1))
    → (b ≡ false → Keeps st ((y.0, r), y.1))
    → Keeps st (((if b then x else y).0, if b then l else r), (if b then x else y).1)
Keeps-split st true x y l r f g = f refl
Keeps-split st false x y l r f g = g refl

module _ (req : Body) (client : Bytes) (h : IsCounted req) where
  write-Keeps :
      (n : ℕ)
      → n ≤ length req.held
      → is_reading req.status ≡ false
      → let (req', r) = after_body_write (some (wrote n)) req in
        Keeps (req, client) ((req', client), r)
  write-Keeps n le idle =
      let whole = take-append-drop n req.held in
      record {
        counted = record {
          small = h.small;
          written = omega (
            arith,
            h.written,
            length-append req.post_data (take n req.held),
            length-take n req.held,
          );
          within = omega (arith, h.within, length-drop n req.held);
          empty = inl idle;
        };
        bytes =
            append_assoc req.post_data (take n req.held) (drop n req.held ++ client)
            ∙ ap (λ s. req.post_data ++ s)
                (sym (append_assoc (take n req.held) (drop n req.held) client)
                  ∙ ap (λ s. s ++ client) whole);
        size = refl;
        started = inl (λ e. cc);
      }

  body_to_write-le : body_to_write req ≤ length req.held
  body_to_write-le = let within = h.within in ground arith

  nothing_held : (body_to_write req == 0) ≡ true → req.held ≡ []
  nothing_held e =
      empty_of_length req.held (let within = h.within in let small = h.small in ground arith)

  emptied-IsCounted : (status : ReqStatus) → IsCounted (record req { status = status; held = [] })
  emptied-IsCounted status = record {
    small = h.small;
    written = h.written;
    within = omega (arith, h.within);
    empty = inr refl;
  }

  after_body_write-Keeps :
      (answer : Answer)
      → is_reading req.status ≡ false
      → let (req', r) = after_body_write (answer_write answer (body_to_write req)) req in
        Keeps (req, client) ((req', client), r)
  after_body_write-Keeps (moves n) idle =
      write-Keeps (min n (body_to_write req)) (omega (arith, body_to_write-le)) idle
  after_body_write-Keeps waits idle = Keeps-same req client blocked h (λ e. cc)
  after_body_write-Keeps fails idle = Keeps-same req client closed h (λ e. cc)
  after_body_write-Keeps interrupts idle = Keeps-same req client again h (λ e. cc)

  pub write_body-Keeps :
      (answer : Answer)
      → is_reading req.status ≡ false
      → let (req', r) = write_body (answer_write answer (body_to_write req)) req in
        Keeps (req, client) ((req', client), r)
  unfolding write_body
  write_body-Keeps answer idle =
      let P : Body × Outcome → Type 0 = λ r. Keeps (req, client) ((r.0, client), r.1) in
      if_split P (body_to_write req == 0)
        (λ none_left.
          let gone : all_bytes (record req { held = [] }, client) ≡ all_bytes (req, client) =
            ap (λ s. req.post_data ++ (s ++ client)) (sym (nothing_held none_left)) in
          if_split P (leb req.filesize req.filepos)
            (λ full.
              let reached : req.filesize ≤ req.filepos = leb→le req.filesize req.filepos full in
              record {
                counted = emptied-IsCounted req.status;
                bytes = gone;
                size = refl;
                started = inr (omega (arith, reached, h.within));
              })
            (λ more. record {
              counted = emptied-IsCounted body_read;
              bytes = gone;
              size = refl;
              started = inl (λ e. cc);
            }))
        (λ _. after_body_write-Keeps answer idle)

  body_to_read-le : body_to_read req ≤ req.filesize - req.filepos
  body_to_read-le = let within = h.within in let small = h.small in ground arith

  after_body_read-Keeps :
      (bytes : Bytes) (left : Bytes)
      → client ≡ bytes ++ left
      → length bytes ≤ req.filesize - req.filepos
      → req.held ≡ []
      → let (req', r) = after_body_read (arrived bytes) req in Keeps (req, client) ((req', left), r)
  after_body_read-Keeps [] left split few none_held = record {
    counted = h;
    bytes = ap (λ s. req.post_data ++ (req.held ++ s)) (sym split);
    size = refl;
    started = inl (λ e. cc);
  }
  after_body_read-Keeps (c ∷ s) left split few none_held = record {
    counted = record {
      small = h.small;
      written = h.written;
      within = omega (arith, few, h.within, length-append req.held (c ∷ s), ap length none_held);
      empty = inl refl;
    };
    bytes =
        ap (λ b. req.post_data ++ b)
          (append_assoc req.held (c ∷ s) left ∙ ap (λ b. req.held ++ b) (sym split));
    size = refl;
    started = inl (λ e. cc);
  }

  pub read_body-Keeps :
      (answer : Answer)
      → req.held ≡ []
      → let (req', r) = read_body (answer_read answer (body_to_read req) client) req in
        let left =
          if body_to_read req == 0 then client else behind_read answer (body_to_read req) client in
        Keeps (req, client) ((req', left), r)
  unfolding read_body
  read_body-Keeps answer none_held =
      Keeps-split (req, client) (body_to_read req == 0) _ _ client _
        (λ _. record {
          counted = record {
            small = h.small;
            written = h.written;
            within = h.within;
            empty = inl refl;
          };
          bytes = refl;
          size = refl;
          started = inl (λ e. cc);
        })
        (λ _. answered answer)
    where
      answered :
          (answer : Answer)
          → let (req', r) = after_body_read (answer_read answer (body_to_read req) client) req in
            Keeps (req, client) ((req', behind_read answer (body_to_read req) client), r)
      answered (moves n) =
          let k = min n (body_to_read req) in
          after_body_read-Keeps (take k client) (drop k client) (sym (take-append-drop k client))
            (omega (arith, length-take k client, body_to_read-le)) none_held
      answered waits = Keeps-same req client blocked h (λ e. cc)
      answered fails = Keeps-same req client closed h (λ e. cc)
      answered interrupts = Keeps-same req client closed h (λ e. cc)
