-- ===== src/Cgi/Variables.antt =====
-- What a program finds in its environment: the variables of complete_env in src/cgi.c by their names.

use yabwf.Prelude.{
  ◌+◌, ◌≤◌, ◌≡◌, refl, sym, ap, ◌∙◌, true, false, List, [], ◌++◌, map, Option, none, some, Bytes,
  codes, has_byte, bytes_eq, length, length-append, lt→ltb, append_assoc, arith, ltb,
}
use yabwf.Cgi.{
  CgiEnv, CgiFields, HttpMethod, method_name, post_pairs, m_get, m_head, m_post, cgi_env_max,
  cgi_env_index, add_all_env, pairs, complete_env,
}
use yabwf.Cgi.Lookup.{
  pair_entry, or_next, or_next-none, lookup_env, lookup_env-append, field_of, lookup_env-present,
}
use yabwf.Cgi.Entries.{
  with_added, fields_of, post_fields, add_all_env-some, length-entries, post_pairs-present,
  post_fields-IsPlain, length-pairs,
}

-- The variables of a program that are about its request.
pub data Variable : Type 0 where
  request_method http_host server_addr server_protocol request_uri path_info path_translated :
      Variable
  script_name query_string remote_addr remote_port content_type content_length : Variable

abbrev pub variable_name : Variable → Bytes
variable_name request_method = codes "REQUEST_METHOD"
variable_name http_host = codes "HTTP_HOST"
variable_name server_addr = codes "SERVER_ADDR"
variable_name server_protocol = codes "SERVER_PROTOCOL"
variable_name request_uri = codes "REQUEST_URI"
variable_name path_info = codes "PATH_INFO"
variable_name path_translated = codes "PATH_TRANSLATED"
variable_name script_name = codes "SCRIPT_NAME"
variable_name query_string = codes "QUERY_STRING"
variable_name remote_addr = codes "REMOTE_ADDR"
variable_name remote_port = codes "REMOTE_PORT"
variable_name content_type = codes "CONTENT_TYPE"
variable_name content_length = codes "CONTENT_LENGTH"

-- What is known of the body, which only POST has.
abbrev of_body : HttpMethod → Option Bytes → Option Bytes
of_body m_post known = known
of_body m_get known = none
of_body m_head known = none

-- What a request says of a variable.
abbrev pub told : (default_type : Bytes) → CgiFields → Variable → Option Bytes
told default_type req request_method = some (method_name req.method)
told default_type req http_host = req.header_host
told default_type req server_addr = some req.local_ip_addr
told default_type req server_protocol = some req.http_ver
told default_type req request_uri = some req.request_uri
told default_type req path_info = req.path_info
told default_type req path_translated = req.path_translated
told default_type req script_name = some req.script_name
told default_type req query_string = req.query_string
told default_type req remote_addr = some req.remote_ip_addr
told default_type req remote_port = some req.remote_port
told default_type req content_type =
    of_body req.method (or_next req.content_type (some default_type))
told default_type req content_length = of_body req.method req.content_length

variable_name-plain : (v : Variable) → has_byte b'=' (variable_name v) ≡ false
variable_name-plain request_method = refl
variable_name-plain http_host = refl
variable_name-plain server_addr = refl
variable_name-plain server_protocol = refl
variable_name-plain request_uri = refl
variable_name-plain path_info = refl
variable_name-plain path_translated = refl
variable_name-plain script_name = refl
variable_name-plain query_string = refl
variable_name-plain remote_addr = refl
variable_name-plain remote_port = refl
variable_name-plain content_type = refl
variable_name-plain content_length = refl

-- The fields of the body by their names.
body_of :
    (default_type : Bytes) (req : CgiFields) (method : HttpMethod) (name : Bytes)
    → has_byte b'=' name ≡ false
    → lookup_env name (map pair_entry (post_pairs default_type req method))
      ≡ field_of name (post_fields default_type req method)
body_of default_type req method name plain =
    ap (λ ps. lookup_env name (map pair_entry ps)) (post_pairs-present default_type req method)
    ∙ lookup_env-present name (post_fields default_type req method) [] plain
        (post_fields-IsPlain default_type req method)
    ∙ or_next-none (field_of name (post_fields default_type req method))

not_of_body :
    (default_type : Bytes) (req : CgiFields) (method : HttpMethod) (name : Bytes)
    → bytes_eq name (codes "CONTENT_TYPE") ≡ false
    → bytes_eq name (codes "CONTENT_LENGTH") ≡ false
    → field_of name (post_fields default_type req method) ≡ none
not_of_body default_type req m_post name type size = rw (type, size) refl
not_of_body default_type req m_get name type size = refl
not_of_body default_type req m_head name type size = refl

given_type :
    (default_type : Bytes) (type : Option Bytes)
    → some (elim type [ some s ↦ s | none ↦ default_type ]) ≡ or_next type (some default_type)
given_type default_type none = refl
given_type default_type (some s) = refl

type_of_body :
    (default_type : Bytes) (req : CgiFields) (method : HttpMethod)
    → field_of (codes "CONTENT_TYPE") (post_fields default_type req method)
      ≡ of_body method (or_next req.content_type (some default_type))
type_of_body default_type req m_post = given_type default_type req.content_type
type_of_body default_type req m_get = refl
type_of_body default_type req m_head = refl

size_of_body :
    (default_type : Bytes) (req : CgiFields) (method : HttpMethod)
    → field_of (codes "CONTENT_LENGTH") (post_fields default_type req method)
      ≡ of_body method req.content_length
size_of_body default_type req m_post = or_next-none req.content_length
size_of_body default_type req m_get = refl
size_of_body default_type req m_head = refl

-- A field of the request, where there is none of the body.
of_request : (v body : Option Bytes) → body ≡ none → or_next (or_next v none) body ≡ v
of_request v body h =
    ap (or_next (or_next v none)) h ∙ or_next-none (or_next v none) ∙ or_next-none v

-- The fields have what a request says of a variable.
field_of-told :
    (default_type : Bytes) (req : CgiFields) (v : Variable)
    → or_next
        (field_of (variable_name v) (fields_of req))
        (field_of (variable_name v) (post_fields default_type req req.method))
      ≡ told default_type req v
field_of-told default_type req request_method = refl
field_of-told default_type req http_host =
    of_request req.header_host _
      (not_of_body default_type req req.method (codes "HTTP_HOST") refl refl)
field_of-told default_type req server_addr = refl
field_of-told default_type req server_protocol = refl
field_of-told default_type req request_uri = refl
field_of-told default_type req path_info =
    of_request req.path_info _
      (not_of_body default_type req req.method (codes "PATH_INFO") refl refl)
field_of-told default_type req path_translated =
    of_request req.path_translated _
      (not_of_body default_type req req.method (codes "PATH_TRANSLATED") refl refl)
field_of-told default_type req script_name = refl
field_of-told default_type req query_string =
    of_request req.query_string _
      (not_of_body default_type req req.method (codes "QUERY_STRING") refl refl)
field_of-told default_type req remote_addr = refl
field_of-told default_type req remote_port = refl
field_of-told default_type req content_type = type_of_body default_type req req.method
field_of-told default_type req content_length = size_of_body default_type req req.method

lookup_env-pairs :
    (default_type : Bytes) (req : CgiFields) (v : Variable)
    → lookup_env (variable_name v) (map pair_entry (pairs default_type req))
      ≡ told default_type req v
lookup_env-pairs default_type req v =
    let name = variable_name v in
    let plain = variable_name-plain v in
    lookup_env-present name (fields_of req) (post_pairs default_type req req.method) plain
      (refl, (refl, (refl, (refl, (refl, (refl, (refl, (refl, (refl, (refl, (refl, tt)))))))))))
    ∙ ap (or_next (field_of name (fields_of req))) (body_of default_type req req.method name plain)
    ∙ field_of-told default_type req v

-- Where malloc finds memory, the request counts the shared entries rightly and 13 entries are free, a
-- program gets an environment, of at most 100 entries. In it each of the thirteen variables that are
-- about the request has the value of its first entry among the shared ones and those of the header
-- lines, and otherwise what the request says: the method, the host, the two addresses, the port, the
-- protocol, the URI, the path behind the script, its translation, the script and the query, and for
-- POST the type of the body, by default the default type, and its length; what the request does not
-- have is not set.
pub complete_env-told :
    (default_type : Bytes) (common : List Bytes) (req : CgiFields) (env : CgiEnv) (v : Variable)
    → env.common_count ≡ length common
    → length common + length env.added + 13 ≤ cgi_env_max
    → (envp : List Bytes) × (complete_env true default_type common req env ≡ some envp)
      × (length envp ≤ cgi_env_max)
      × (lookup_env (variable_name v) envp
          ≡ or_next (lookup_env (variable_name v) (common ++ env.added)) (told default_type req v))
unfolding complete_env
complete_env-told default_type common req env v counted free =
    let ps = pairs default_type req in
    let full = with_added env (env.added ++ map pair_entry ps) in
    let few = length-pairs default_type req in
    let n = length-append env.added (map pair_entry ps) in
    let k = length-entries ps in
    let filled : add_all_env true ps env ≡ some full =
      add_all_env-some ps env (omega (arith, counted, few, free)) in
    let ends : ltb (cgi_env_index full) (cgi_env_max + 1) ≡ true =
      lt→ltb (cgi_env_index full) (cgi_env_max + 1) (omega (arith, n, k, counted, few, free)) in
    (
      common ++ full.added,
      rw (filled, ends) refl,
      omega (arith, length-append common full.added, n, k, few, free),
      ap (lookup_env (variable_name v)) (sym (append_assoc common env.added (map pair_entry ps)))
          ∙ lookup_env-append (variable_name v) (common ++ env.added) (map pair_entry ps)
          ∙ ap (or_next (lookup_env (variable_name v) (common ++ env.added)))
              (lookup_env-pairs default_type req v),
    )
