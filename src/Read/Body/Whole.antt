-- ===== src/Read/Body/Whole.antt =====
-- The temporary file holds the body of a POST, whole and in order, when the program is started.
use yabwf.Prelude.{
  ◌≡◌, ◌≢◌, ◌⊎◌, inl, inr, refl, sym, ap, ◌∙◌, Bool, true, false, List, [], ◌∷◌, ◌++◌, Bytes,
  length, take,
}
use yabwf.Read.Body.{Body, Outcome, blocked, closed, again, bad_request, init_cgi}
use yabwf.Read.Body.Turns.{
  Answer, is_reading, turn_of, turn, goes_on, turns, all_bytes, IsCounted, Keeps,
}
use yabwf.Read.Body.Moved.{read_body-Keeps, write_body-Keeps}

turn-Keeps : (answer : Answer) (st : Body × Bytes) → IsCounted st.0 → Keeps st (turn answer st)
turn-Keeps answer (req, client) h = by_status (is_reading req.status) refl
  where
    held_none : is_reading req.status ≡ true → req.held ≡ []
    held_none e = elim h.empty [ inl other ↦ absurd (cc) | inr none_held ↦ none_held ]

    by_status :
        (reading : Bool)
        → is_reading req.status ≡ reading
        → Keeps (req, client) (turn_of reading answer (req, client))
    by_status true e = read_body-Keeps req client h answer (held_none e)
    by_status false e = write_body-Keeps req client h answer e

-- What the turns of a request keep, and what is in the file when the program is started.
pub record IsTransfer (st : Body × Bytes) (r : (Body × Bytes) × Outcome) : Type 0 where
  pub counted : IsCounted r.0.0
  pub bytes : all_bytes r.0 ≡ all_bytes st
  pub size : r.0.0.filesize ≡ st.0.filesize
  pub started : (r.1 ≢ init_cgi) ⊎ (r.0.0.post_data ≡ take st.0.filesize (all_bytes st))

take-length : (u t : Bytes) → take (length u) (u ++ t) ≡ u
take-length [] t = refl
take-length (c ∷ u) t = ap (◌∷◌ c) (take-length u t)

Keeps-IsTransfer : (st : Body × Bytes) (r : (Body × Bytes) × Outcome) → Keeps st r → IsTransfer st r
Keeps-IsTransfer st ((req, client), r) h = record {
  counted = h.counted;
  bytes = h.bytes;
  size = h.size;
  started = elim h.started [ inl other ↦ inl other | inr full ↦ inr (whole full) ];
}
  where
    whole : req.filepos ≡ req.filesize → req.post_data ≡ take st.0.filesize (all_bytes st)
    whole full =
        sym (take-length req.post_data (req.held ++ client))
        ∙ ap (λ n. take n (all_bytes (req, client))) (h.counted.written ∙ full ∙ h.size)
        ∙ ap (take st.0.filesize) h.bytes

after-IsTransfer :
    (st st' : Body × Bytes) (q : Outcome) (r : (Body × Bytes) × Outcome)
    → Keeps st (st', q)
    → IsTransfer st' r
    → IsTransfer st r
after-IsTransfer st st' q r k h = record {
  counted = h.counted;
  bytes = h.bytes ∙ k.bytes;
  size = h.size ∙ k.size;
  started = elim h.started [ inl other ↦ inl other | inr whole ↦ inr (whole ∙ same) ];
}
  where
    same : take st'.0.filesize (all_bytes st') ≡ take st.0.filesize (all_bytes st)
    same = ap (λ n. take n (all_bytes st')) k.size ∙ ap (take st.0.filesize) k.bytes

goes_on-IsTransfer :
    (rest : Body × Bytes → (Body × Bytes) × Outcome) (st : Body × Bytes)
    (r : (Body × Bytes) × Outcome)
    → ((st' : Body × Bytes) → IsCounted st'.0 → IsTransfer st' (rest st'))
    → Keeps st r
    → IsTransfer st (goes_on rest r)
goes_on-IsTransfer rest st (st', again) later k =
    after-IsTransfer st st' again (rest st') k (later st' k.counted)
goes_on-IsTransfer rest st (st', blocked) later k =
    after-IsTransfer st st' blocked (rest st') k (later st' k.counted)
goes_on-IsTransfer rest st (st', closed) later k = Keeps-IsTransfer st (st', closed) k
goes_on-IsTransfer rest st (st', bad_request) later k = Keeps-IsTransfer st (st', bad_request) k
goes_on-IsTransfer rest st (st', init_cgi) later k = Keeps-IsTransfer st (st', init_cgi) k

-- The body of a POST is handed over whole: whatever the system answers in each turn, the bytes in the
-- temporary file, those in the buffer and those that the client has still to send are together those
-- of before, in their order, the file has as many bytes as are counted, and the program is started only
-- with a file that holds the first bytes, as many as were announced. Before, the count was right, fewer
-- than 2 ^ 31 bytes were announced, no more were held, and none while the request reads.
pub turns-IsTransfer :
    (answers : List Answer) (st : Body × Bytes) → IsCounted st.0 → IsTransfer st (turns answers st)
unfolding turns
turns-IsTransfer [] st h = record {
  counted = h;
  bytes = refl;
  size = refl;
  started = inl (λ e. cc);
}
turns-IsTransfer (answer ∷ answers) st h =
    goes_on-IsTransfer (turns answers) st (turn answer st) (turns-IsTransfer answers)
      (turn-Keeps answer st h)
