-- ===== src/Examples/Headers.antt =====
-- The theorems on src/read.c at concrete inputs.
use yabwf.Prelude.{◌≡◌, refl, Bool, true, false, List, [], ◌∷◌, ◌++◌, Bytes, codes}
use yabwf.Buffer.{ReqStatus, one_lf}
use yabwf.Read.{Reader, go_on, parse_header}
use yabwf.Read.Packets.{hand_on, parse_header-line}

-- A request that keeps the lines it is handed.
abbrev kept : Bytes → List Bytes → List Bytes × Bool
kept line lines = (lines ++ line ∷ [], true)

abbrev never : List Bytes → Bool
never lines = false

abbrev served : List Bytes → List Bytes × Bool
served lines = (lines, true)

abbrev refuse : List Bytes → List Bytes
refuse lines = []

abbrev start : Reader (List Bytes)
start = record {
  status = ReqStatus.read_header;
  stream = [];
  header_line = 0;
  header_end = 0;
  logline = false;
  req = [];
}

parse_header-line_example :
    parse_header kept kept never served refuse (codes "Hi" ++ (13 ∷ 10 ∷ 10 ∷ [])) start
    ≡ go_on (10 ∷ []) (parse_header kept kept never served refuse (10 ∷ [])) (
        hand_on kept kept never served refuse (codes "Hi") (record {
          status = one_lf;
          stream = codes "Hi" ++ (13 ∷ 10 ∷ []);
          header_line = 0;
          header_end = 2;
          logline = false;
          req = [];
        }))
parse_header-line_example =
    parse_header-line kept kept never served refuse true true b'H' (codes "i") (10 ∷ []) [] 0 false
      [] ((refl, refl, refl), ((refl, refl, refl), tt))
