-- ===== src/Examples/Requests.antt =====
-- The theorems on src/request.c and src/cgi.c at concrete inputs.
use yabwf.Prelude.{
  ◌≤◌, length, ℕ, ◌≡◌, refl, true, false, none, some, Option, List, [], ◌∷◌, Bytes, codes,
  starts_with, if◌then◌else◌, arith,
}
use yabwf.Cgi.{CgiEnv, CgiFields, m_get, m_head, complete_env, cgi_env_max}
use yabwf.Cgi.Lookup.{lookup_env}
use yabwf.Cgi.Variables.{remote_port, complete_env-told}
use yabwf.Request.Options.{Options, Setup, ka_inactive}
use yabwf.Request.Options.Entries.{Keeps}
use yabwf.Request.Options.Lines.{option_lines, option_lines-Keeps}
use yabwf.Request.Logline.{Line, ok, http10, http11, process_logline}
use yabwf.Request.Logline.Bounds.{IsRead, process_logline-IsRead}
use yabwf.Request.Logline.Targets.{url, IsTarget, print_logline, line_fields}
use yabwf.Request.Logline.Printed.{process_logline-print}

abbrev server : Setup
server = record { accept_on = false; ka_max = 10; bits = 64; room = true }

abbrev fresh : Options
fresh = record {
  keepalive = ka_inactive;
  content_type = none;
  content_length = none;
  header_host = some (codes "boa.org");
  if_modified_since = none;
  header_referer = none;
  header_user_agent = none;
  accept = [];
  ranges = record { ranges = []; numranges = 0; pool = []; allocated = 0 };
  env = record { common_count = 7; added = [] };
}

abbrev header_lines : List Bytes
header_lines = codes "Host: evil.org" ∷ codes "Referer: http://boa.org/" ∷ codes "X-Any:  1" ∷ []

option_lines-Keeps_example : Keeps fresh (option_lines server header_lines fresh).0
option_lines-Keeps_example = option_lines-Keeps server header_lines fresh

-- A scan that knows one version.
abbrev scan11 : Bytes → Option (ℕ × ℕ)
scan11 s = if starts_with (codes "HTTP/1.1") s then some (1, 1) else none

abbrev new_request : Line
new_request = record {
  method = m_get;
  http_version = http10;
  request_uri = [];
  header_host = none;
  keepalive = ka_inactive;
  cgi_env_index = 0;
}

process_logline-IsRead_example :
    IsRead 7 [] (process_logline scan11 7 (codes "GET /index.html HTTP/1.1") new_request)
process_logline-IsRead_example =
    process_logline-IsRead scan11 7 (codes "GET /index.html HTTP/1.1") new_request

a_url : IsTarget (url (codes "ab") (codes "x"))
a_url = (
  (λ e. cc, (λ e. cc, tt)),
  (λ e. cc, (λ e. cc, tt)),
  (λ e. cc, (λ e. cc, tt)),
  omega arith,
  (λ e. cc, tt),
  omega arith,
)

process_logline-print_example :
    process_logline scan11 7
      (print_logline 1 0 m_head (url (codes "ab") (codes "x")) http11)
      new_request
    ≡ (line_fields 7 m_head (url (codes "ab") (codes "x")) http11 new_request, ok)
process_logline-print_example =
    process_logline-print scan11 7 1 0 m_head (url (codes "ab") (codes "x")) http11 new_request
      a_url refl refl

abbrev script : CgiFields
script = record {
  method = m_get;
  header_host = some (codes "boa.org");
  local_ip_addr = codes "127.0.0.1";
  http_ver = codes "HTTP/1.0";
  request_uri = codes "/cgi-bin/a";
  path_info = none;
  path_translated = none;
  script_name = codes "/cgi-bin/a";
  query_string = none;
  remote_ip_addr = codes "127.0.0.1";
  remote_port = codes "4000";
  content_type = none;
  content_length = none;
}

abbrev one_line : CgiEnv
one_line = record { common_count = 1; added = codes "HTTP_X=1" ∷ [] }

abbrev shared : List Bytes
shared = codes "PATH=/bin" ∷ []

complete_env-told_example :
    (envp : List Bytes) × (complete_env true (codes "text/plain") shared script one_line
      ≡ some envp)
    × (length envp ≤ cgi_env_max)
    × (lookup_env (codes "REMOTE_PORT") envp ≡ some (codes "4000"))
complete_env-told_example =
    complete_env-told (codes "text/plain") shared script one_line remote_port refl (omega arith)
