-- ===== src/Request/HeaderEnd.antt =====
-- process_header_end of src/request.c, with strlower of src/util.c: a request between its header and its
-- answer. The functions of other files that it calls at the end are parameters.
pub mod Passed
use yabwf.Prelude.{
  ℕ, ◌+◌, Bool, true, false, not, List, [], ◌∷◌, Option, none, some, ltb, ◌==◌, if◌then◌else◌,
  Bytes, peek, to_lower_byte,
}
use yabwf.Buffer.{ReqStatus}
use yabwf.Util.Uri.{unescape_uri}
use yabwf.Util.Pathname.{clean_pathname}
use yabwf.Util.Host.{check_host}
use yabwf.Access.{AccessNode, AccessType, access_deny, access_allowed, access_allow}
use yabwf.Cgi.{HttpMethod, m_get, m_head, m_post}
use yabwf.Request.Options.{KaStatus, ka_stopped}

-- The fields of a request that are set or read here; `cgi_type` says that the type is not 0.
pub record Header : Type 0 where
  pub status : ReqStatus
  pub logline : Bool
  pub method : HttpMethod
  pub keepalive : KaStatus
  pub request_uri : Bytes
  pub query_string : Option Bytes
  pub header_host : Option Bytes
  pub host : Option Bytes
  pub pathname : Option Bytes
  pub cgi_type : Bool
  pub post_data_fd : ℕ

-- The responses that come with the result 0, 0 alone, 1 for a POST, and the calls of init_cgi and
-- init_get, whose result is passed on.
pub data Ending : Type 0 where
  bad_request error forbidden closed post : Ending
  init_cgi init_get : Ending

-- The configuration: vhost_root is set, default_vhost, the rules of access; and whether malloc finds
-- memory.
pub record Site : Type 0 where
  pub vhost_root : Bool
  pub default_vhost : Bytes
  pub rules : List AccessNode
  pub room : Bool

unfoldable pub strlower : Bytes → Bytes
strlower [] = []
strlower (c ∷ s) = to_lower_byte c ∷ strlower s

-- The text in front of the first colon.
abbrev pub without_port : Bytes → Bytes
without_port [] = []
without_port (c ∷ s) = let rest = without_port s in if c == b':' then [] else c ∷ rest

abbrev pub host_given : Site → Option Bytes → Bytes
host_given site none = site.default_vhost
host_given site (some host) = host

abbrev pub is_host_length : Option ℕ → Bool
is_host_length none = false
is_host_length (some len) = not (ltb len 1)

-- The part for virtual hosts; `none` is that the request goes on.
unfoldable pub set_host : Site → Header → Header × Option Ending
unfolding strlower check_host
set_host site req =
    let host = without_port (strlower (host_given site req.header_host)) in
    let req' : Header = record req { host = some host } in
    if not site.vhost_root
    then (req, none)
    else if not site.room
    then (req, some error)
    else if is_host_length (check_host (some host))
    then (req', none)
    else (req', some bad_request)

-- The part in front of that: the URI is decoded and cleaned.
unfoldable pub set_uri : Header → Header × Option Ending
unfolding unescape_uri
set_uri req =
    let r = unescape_uri true req.request_uri in
    let decoded : Header = record req { request_uri = r.uri; query_string = r.query } in
    let cleaned : Header = record decoded { request_uri = clean_pathname r.uri } in
    if not req.logline
    then (req, some error)
    else if not r.success
    then (decoded, some bad_request)
    else if peek cleaned.request_uri == b'/'
    then (cleaned, none)
    else (cleaned, some bad_request)

abbrev pub and_then : (Header → Header × Ending) → Header × Option Ending → Header × Ending
and_then next (req, none) = next req
and_then next (req, some ending) = (req, ending)

abbrev pub is_denied : (fnmatch : Bytes → Bytes → Bool) → List AccessNode → Option Bytes → Bool
is_denied fnmatch rules none = false
is_denied fnmatch rules (some pathname) = elim (access_allow fnmatch rules pathname) [
  | access_deny ↦ true
  | access_allowed ↦ false
]

-- A POST gets a temporary file: `fd` is what create_temporary_file gives, `set` that fcntl succeeds.
abbrev pub start_post : (fd : ℕ) → (set : Bool) → Header → Header × Ending
start_post fd set req =
    if fd == 0
    then (record req { post_data_fd = 0 }, error)
    else if set
    then (record req { post_data_fd = fd }, post)
    else (record req { post_data_fd = 0 }, error)

abbrev pub is_post : HttpMethod → Bool
is_post m_post = true
is_post _ = false

-- What follows translate_uri.
unfoldable pub choose_answer :
    (fnmatch : Bytes → Bytes → Bool)
    → (fd : ℕ) → (set : Bool) → Site
    → Header × Bool
    → Header × Ending
unfolding access_allow
choose_answer fnmatch fd set site (req, translated) =
    if not translated
    then (record req { keepalive = ka_stopped }, closed)
    else if is_denied fnmatch site.rules req.pathname
    then (req, forbidden)
    else if is_post req.method
    then start_post fd set req
    else if req.cgi_type
    then (req, init_cgi)
    else (record req { status = ReqStatus.write }, init_get)

unfoldable pub process_header_end :
    (translate_uri : Header → Header × Bool)
    → (fnmatch : Bytes → Bytes → Bool) → (fd : ℕ) → (set : Bool) → Site
    → Header
    → Header × Ending
unfolding set_uri set_host choose_answer
process_header_end translate_uri fnmatch fd set site req =
    and_then
      (λ cleaned.
        and_then (λ hosted. choose_answer fnmatch fd set site (translate_uri hosted))
          (set_host site cleaned))
      (set_uri req)
