-- ===== src/Read/Packets.antt =====
-- The lines that read_header of src/read.c hands on are those of the text.

use yabwf.Prelude.{
  ℕ, ◌-◌, ◌≡◌, refl, sym, ap, ◌∙◌, Bool, true, false, [], ◌∷◌, ◌++◌, append_assoc, append-nil,
  Option, none, some, leb, ◌==◌, if◌then◌else◌, Bytes, All, length, length-append, take, drop,
  arith,
}
use yabwf.Buffer.{ReqStatus, one_lf}
use yabwf.Request.Options.{max_header_length}
use yabwf.Read.{
  Reader, Parsed, is_legal, end_first, end_option, end_line, read_byte, go_on, parse_header,
}

take-append : (u t : Bytes) → take (length u) (u ++ t) ≡ u
take-append [] t = refl
take-append (c ∷ u) t = ap (◌∷◌ c) (take-append u t)

drop-length : (s t : Bytes) → drop (length s) (s ++ t) ≡ t
drop-length [] t = refl
drop-length (c ∷ s) t = drop-length s t

cut : (stream u t : Bytes) → take (length u) (drop (length stream) (stream ++ u ++ t)) ≡ u
cut stream u t =
    ap (λ s. take (length u) (drop (length stream) s)) (append_assoc stream u t)
    ∙ ap (take (length u)) (drop-length stream (u ++ t))
    ∙ take-append u t

module _ {ℓ} {R : Type ℓ} (process_logline process_option_line : Bytes → R → R × Bool)
    (is_http09 : R → Bool) (process_header_end : R → R × Bool) (send_r_bad_request : R → R) where
  abbrev round : ℕ → Reader R → Reader R × Option Parsed
  round =
      read_byte process_logline process_option_line is_http09 process_header_end send_r_bad_request

  abbrev parse : Bytes → Reader R → Reader R × Option Parsed × Bytes
  parse =
      parse_header process_logline process_option_line is_http09 process_header_end
        send_r_bad_request

  -- A byte that may stand in a line: legal, and neither CR nor LF.
  abbrev IsText : ℕ → Type 0
  IsText c = (is_legal c ≡ true) × ((c == 13) ≡ false) × ((c == 10) ≡ false)

  abbrev at : ReqStatus → Bytes → ℕ → ℕ → Bool → R → Reader R
  at status stream line end logline req = record {
    status = status;
    stream = stream;
    header_line = line;
    header_end = end;
    logline = logline;
    req = req;
  }

  read_byte-text :
      (c : ℕ) (stream : Bytes) (line end : ℕ) (logline : Bool) (req : R)
      → IsText c
      → round c (at ReqStatus.read_header stream line end logline req)
        ≡ (at ReqStatus.read_header (stream ++ c ∷ []) line end logline req, none)
  unfolding read_byte
  read_byte-text c stream line end logline req (legal, cr, lf) = rw (legal, cr, lf) refl

  read_byte-first :
      (c : ℕ) (stream : Bytes) (line end : ℕ) (logline : Bool) (req : R)
      → IsText c
      → round c (at one_lf stream line end logline req)
        ≡ (at ReqStatus.read_header (stream ++ c ∷ []) line end logline req, none)
  unfolding read_byte
  read_byte-first c stream line end logline req (legal, cr, lf) = rw (legal, cr, lf) refl

  parse-text :
      (u rest stream : Bytes) (line end : ℕ) (logline : Bool) (req : R)
      → All IsText u
      → parse (u ++ rest) (at ReqStatus.read_header stream line end logline req)
        ≡ parse rest (at ReqStatus.read_header (stream ++ u) line end logline req)
  unfolding parse_header
  parse-text [] rest stream line end logline req h =
      ap (λ s. parse rest (at ReqStatus.read_header s line end logline req))
        (sym (append-nil stream))
  parse-text (c ∷ u) rest stream line end logline req (hc, h) =
      ap (go_on (u ++ rest) (parse (u ++ rest))) (read_byte-text c stream line end logline req hc)
      ∙ parse-text u rest (stream ++ c ∷ []) line end logline req h
      ∙ ap (λ s. parse rest (at ReqStatus.read_header s line end logline req))
          (append_assoc stream (c ∷ []) u)

  abbrev pub line_end : (crlf : Bool) → Bytes
  line_end true = 13 ∷ 10 ∷ []
  line_end false = 10 ∷ []

  -- What is done with a line.
  abbrev pub hand_on : Bytes → Reader R → Reader R × Option Parsed
  hand_on line st =
      if leb max_header_length (length line)
      then (record st { req = send_r_bad_request st.req }, some Parsed.closed)
      else if st.logline
      then end_option process_logline process_option_line is_http09 process_header_end
          send_r_bad_request (process_option_line line st.req) st
      else end_first process_logline process_option_line is_http09 process_header_end
          send_r_bad_request (process_logline line st.req) st

  parse-line_end :
      (crlf : Bool) (rest stream : Bytes) (line end : ℕ) (logline : Bool) (req : R)
      → parse (line_end crlf ++ rest) (at ReqStatus.read_header stream line end logline req)
        ≡ go_on rest (parse rest) (
            end_line process_logline process_option_line is_http09 process_header_end
              send_r_bad_request
              (at one_lf (stream ++ line_end crlf) line (length stream) logline req))
  unfolding parse_header
  parse-line_end true rest stream line end logline req =
      ap
        (λ s. go_on rest (parse rest) (
          end_line process_logline process_option_line is_http09 process_header_end
            send_r_bad_request (at one_lf s line (length stream) logline req)))
        (append_assoc stream (13 ∷ []) (10 ∷ []))
  parse-line_end false rest stream line end logline req = refl

  end_line-hand_on :
      (u stream : Bytes) (crlf logline : Bool) (req : R)
      → end_line process_logline process_option_line is_http09 process_header_end send_r_bad_request
          (at one_lf
            (stream ++ u ++ line_end crlf)
            (length stream)
            (length (stream ++ u))
            logline
            req)
        ≡ hand_on u (
            at one_lf
              (stream ++ u ++ line_end crlf)
              (length stream)
              (length (stream ++ u))
              logline
              req)
  end_line-hand_on u stream crlf logline req =
      let count : length (stream ++ u) - length stream ≡ length u =
        omega (arith, length-append stream u) in
      rw (count, cut stream u (line_end crlf)) refl

  parse-word :
      (start : Bool) (c : ℕ) (u rest stream : Bytes) (line end : ℕ) (logline : Bool) (req : R)
      → All IsText (c ∷ u)
      → parse
          (c ∷ u ++ rest)
          (at (if start then ReqStatus.read_header else one_lf) stream line end logline req)
        ≡ parse rest (at ReqStatus.read_header (stream ++ c ∷ u) line end logline req)
  unfolding parse_header
  parse-word true c u rest stream line end logline req h =
      parse-text (c ∷ u) rest stream line end logline req h
  parse-word false c u rest stream line end logline req (hc, h) =
      ap (go_on (u ++ rest) (parse (u ++ rest))) (read_byte-first c stream line end logline req hc)
      ∙ parse-text u rest (stream ++ c ∷ []) line end logline req h
      ∙ ap (λ s. parse rest (at ReqStatus.read_header s line end logline req))
          (append_assoc stream (c ∷ []) u)

  -- A line of legal bytes without CR and LF that is not empty, at the start of a request or behind
  -- another line, is handed on as it stands, whether it ends by CR LF or by LF alone; then the loop goes
  -- on behind it, or ends where the line's function refuses it or the line has 1,024 bytes or more.
  pub parse_header-line :
      (start crlf : Bool) (c : ℕ) (u rest stream : Bytes) (end : ℕ) (logline : Bool) (req : R)
      → All IsText (c ∷ u)
      → parse (c ∷ u ++ (line_end crlf ++ rest)) (
          at
            (if start then ReqStatus.read_header else one_lf)
            stream
            (length stream)
            end
            logline
            req)
        ≡ go_on rest (parse rest) (
            hand_on (c ∷ u) (
              at one_lf
                (stream ++ (c ∷ u) ++ line_end crlf)
                (length stream)
                (length (stream ++ (c ∷ u)))
                logline
                req))
  parse_header-line start crlf c u rest stream end logline req h =
      parse-word start c u (line_end crlf ++ rest) stream (length stream) end logline req h
      ∙ parse-line_end crlf rest (stream ++ c ∷ u) (length stream) end logline req
      ∙ ap (go_on rest (parse rest)) (end_line-hand_on (c ∷ u) stream crlf logline req)
