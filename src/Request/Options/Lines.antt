-- ===== src/Request/Options/Lines.antt =====
-- What header lines change in a request: process_option_line of src/request.c.
use yabwf.Prelude.{
  ◌^◌, ◌-◌, refl, ◌&&◌, not, inl, inr, List, [], ◌∷◌, some, Option-cases, ◌==◌, if_split, Bytes,
}
use yabwf.Range.Parser.{range_parse}
use yabwf.Request.Options.{
  Options, Accepted, accepted, refused, invalid_range, Setup, is, is_none, is_stopped, env_line,
  range_line, stops_at, entry_line, option_line, split_colon, skip_blanks, to_upper, with_value,
  process_option_line,
}
use yabwf.Request.Options.Entries.{
  Keeps, Extends-refl, Keeps-refl, Keeps-trans, env_line-Keeps, env_line_twice-Keeps, both_left,
}

range_line-Keeps :
    (setup : Setup) (key value : Bytes) (req : Options)
    → Keeps req (range_line setup (to_upper key) value req).0
range_line-Keeps setup key value req =
    let ranges = (range_parse setup.bits value req.ranges).0 in
    let parsed = (range_parse setup.bits value req.ranges).1 in
    let req' : Options = record req { ranges = ranges } in
    let unchanged : Keeps req req' =
      (Extends-refl req.env, inr refl, inr refl, inr refl, inr refl) in
    if_split (λ (r : Options × Accepted). Keeps req r.0) (stops_at (2 ^ 31 - 1) req.ranges.ranges)
      (λ _. Keeps-refl req)
      (λ _.
        if_split (λ (r : Options × Accepted). Keeps req r.0) parsed
          (λ _.
            Keeps-trans req req' (env_line setup (to_upper key) value req').0 unchanged
              (env_line-Keeps setup key value req'))
          (λ _. unchanged))

entry_line-Keeps :
    (setup : Setup) (key value : Bytes) (req : Options)
    → Keeps req (entry_line setup (to_upper key) value req).0
unfolding entry_line
entry_line-Keeps setup key value req =
    let IsKept : Options × Accepted → Type 0 = λ r. Keeps req r.0 in
    let referred : Options = record req { header_referer = some value } in
    let named : Options = record req { header_user_agent = some value } in
    if_split IsKept (is (to_upper key) "REFERER")
      (λ _. env_line_twice-Keeps setup key value referred)
      (λ _.
        if_split IsKept (is (to_upper key) "RANGE") (λ _. range_line-Keeps setup key value req)
          (λ _.
            if_split IsKept (is (to_upper key) "USER_AGENT")
              (λ _. env_line-Keeps setup key value named)
              (λ _. env_line-Keeps setup key value req)))

option_line-Keeps :
    (setup : Setup) (key value : Bytes) (req : Options)
    → Keeps req (option_line setup (to_upper key) value req).0
unfolding option_line
option_line-Keeps setup key value req =
    let up = to_upper key in
    let IsKept : Options × Accepted → Type 0 = λ r. Keeps req r.0 in
    let same = Extends-refl req.env in
    if_split IsKept (is up "ACCEPT")
      (λ _.
        if_split IsKept setup.accept_on (λ _. (same, inr refl, inr refl, inr refl, inr refl))
          (λ _. Keeps-refl req))
      (λ _.
        if_split IsKept (is up "CONTENT_TYPE" && is_none req.content_type)
          (λ h. (same, inr refl, inr refl, inl (both_left _ _ h), inr refl))
          (λ _.
            if_split IsKept (is up "CONTENT_LENGTH" && is_none req.content_length)
              (λ h. (same, inr refl, inl (both_left _ _ h), inr refl, inr refl))
              (λ _.
                if_split IsKept
                  (is up "CONNECTION"
                    && (not (setup.ka_max == 0) && not (is_stopped req.keepalive)))
                  (λ _. (same, inr refl, inr refl, inr refl, inr refl))
                  (λ _.
                    if_split IsKept (is up "HOST" && is_none req.header_host)
                      (λ h. (same, inl (both_left _ _ h), inr refl, inr refl, inr refl))
                      (λ _.
                        if_split IsKept (is up "IF_MODIFIED_SINCE" && is_none req.if_modified_since)
                          (λ h. (same, inr refl, inr refl, inr refl, inl (both_left _ _ h)))
                          (λ _. entry_line-Keeps setup key value req))))))

abbrev behind : (step rest : Options × Accepted) → Options × Accepted
behind (req, accepted) rest = rest
behind (req, refused) rest = (req, refused)
behind (req, invalid_range) rest = (req, invalid_range)

-- The header lines one after the other, up to the first that is not accepted.
unfoldable pub option_lines : Setup → List Bytes → Options → Options × Accepted
unfolding process_option_line
option_lines setup [] req = (req, accepted)
option_lines setup (line ∷ lines) req =
    let step = process_option_line setup line req in behind step (option_lines setup lines step.0)

with_value-Keeps :
    (setup : Setup) (key value : Bytes) (req : Options)
    → Keeps req (with_value setup (to_upper key) value req).0
with_value-Keeps setup key [] req = Keeps-refl req
with_value-Keeps setup key (c ∷ value) req = option_line-Keeps setup key (c ∷ value) req

process_option_line-Keeps :
    (setup : Setup) (line : Bytes) (req : Options)
    → Keeps req (process_option_line setup line req).0
unfolding process_option_line
process_option_line-Keeps setup line req = elim (Option-cases (split_colon line)) [
  | inl missing ↦ rw (process_option_line, missing) (Keeps-refl req)
  | inr ((key, value), found) ↦
      rw (process_option_line, found) (with_value-Keeps setup key (skip_blanks value) req)
]

continued :
    (req : Options) (step rest : Options × Accepted)
    → Keeps req step.0
    → Keeps step.0 rest.0
    → Keeps req (behind step rest).0
continued req (req', accepted) rest first later = Keeps-trans req req' rest.0 first later
continued req (req', refused) rest first later = first
continued req (req', invalid_range) rest first later = first

-- Any header lines leave a request with the shared entries of its environment, with its own entries
-- followed by ones whose name is HTTP_ and a key in capitals, within the environment's 100 entries
-- or where it stood, and with the Host, Content-Length, Content-Type and If-Modified-Since it had.
pub option_lines-Keeps :
    (setup : Setup) (lines : List Bytes) (req : Options)
    → Keeps req (option_lines setup lines req).0
unfolding option_lines
option_lines-Keeps setup [] req = Keeps-refl req
option_lines-Keeps setup (line ∷ lines) req =
    let step = process_option_line setup line req in
    continued req step (option_lines setup lines step.0) (process_option_line-Keeps setup line req)
      (option_lines-Keeps setup lines step.0)
