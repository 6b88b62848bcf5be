-- ===== src/Examples/Programs.antt =====
-- The theorems on the bodies and the ends of headers of requests, and on the headers of CGI programs, at
-- concrete inputs.
use yabwf.Prelude.{
  refl, Bool, true, false, List, [], ◌∷◌, ◌++◌, none, some, Bytes, codes, inr, arith,
}
use yabwf.Buffer.{ReqStatus, read_header, body_read, Output}
use yabwf.Cgi.{m_get}
use yabwf.Pipe.{cgi_parse}
use yabwf.Request.Options.{ka_stopped}
use yabwf.Request.Logline.{http10}
use yabwf.Request.HeaderEnd.{Header, Site, process_header_end}
use yabwf.Request.HeaderEnd.Passed.{IsRefusedOrPassed, process_header_end-IsPassed}
use yabwf.Read.Body.{Body}
use yabwf.Read.Body.Turns.{Answer, moves, waits, turns, IsCounted}
use yabwf.Read.Body.Whole.{IsTransfer, turns-IsTransfer}
use yabwf.CgiStrip.{strip_cgi_prefix}
use yabwf.CgiStrip.Start.{IsStripped, strip_cgi_prefix-IsStripped}
use yabwf.CgiHeader.{CgiOutput, Asked}

-- A body of five bytes, of which none has come.
abbrev five : Body
five = record { status = body_read; filesize = 5; filepos = 0; held = []; post_data = [] }

abbrev from_client : Bytes
from_client = codes "hello"

five-IsCounted : IsCounted five
five-IsCounted = record {
  small = omega arith;
  written = refl;
  within = omega arith;
  empty = inr refl;
}

abbrev answers : List Answer
answers = moves 3 ∷ waits ∷ moves 2 ∷ moves 9 ∷ moves 9 ∷ moves 9 ∷ []

turns-IsTransfer_example : IsTransfer (five, from_client) (turns answers (five, from_client))
turns-IsTransfer_example = turns-IsTransfer answers (five, from_client) five-IsCounted

-- A request for the root of a host.
abbrev asked_root : Header
asked_root = record {
  status = read_header;
  logline = true;
  method = m_get;
  keepalive = ka_stopped;
  request_uri = codes "/a//b/../c.html";
  query_string = none;
  header_host = some (codes "Example.org:80");
  host = none;
  pathname = none;
  cgi_type = false;
  post_data_fd = 0;
}

abbrev by_host : Site
by_host = record { vhost_root = true; default_vhost = codes "localhost"; rules = []; room = true }

abbrev to_file : Header → Header × Bool
to_file req = (record req { pathname = some (codes "/srv" ++ req.request_uri) }, true)

abbrev never : Bytes → Bytes → Bool
never pattern file = false

process_header_end-IsPassed_example :
    IsRefusedOrPassed to_file never by_host
      (process_header_end to_file never 0 true by_host asked_root)
process_header_end-IsPassed_example =
    process_header_end-IsPassed to_file never 0 true by_host asked_root

abbrev asked_cgi : Asked
asked_cgi = record { nph = false; http_version = http10; head = false }

abbrev redirecting : CgiOutput
redirecting = record {
  output = record { status = ReqStatus.pipe_read; buffer = []; buffer_start = 0 };
  cgi_status = cgi_parse;
  held = codes "junk\nLocation: http://example.org/\n\n";
}

abbrev same : Output → Output
same output = output

abbrev junk : Bytes
junk = codes "junk\nStatus: 200\n\nbody"

abbrev tokens : List Bytes
tokens = codes "Status:" ∷ []

strip_cgi_prefix-IsStripped_example : IsStripped tokens junk (strip_cgi_prefix true tokens junk)
strip_cgi_prefix-IsStripped_example = strip_cgi_prefix-IsStripped true tokens junk
