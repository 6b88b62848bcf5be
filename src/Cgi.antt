-- ===== src/Cgi.antt =====
-- src/cgi.c: the environment of a CGI program. An entry is its text, `key=value`. The entries that all
-- programs share stand in front of those of a request, which are `added`.
pub mod Entries
pub mod Env
pub mod Lookup
pub mod Variables
use yabwf.Util.Uri.{unescape_uri}
use yabwf.Prelude.{
  ℕ, ◌+◌, ◌≡◌, refl, Bool, true, false, List, [], ◌∷◌, ◌++◌, Option, none, some, ◌>>=◌, guard, ltb,
  leb, ◌==◌, has_byte, if◌then◌else◌, Bytes, codes, length,
}

abbrev pub cgi_env_max : ℕ
cgi_env_max = 100

abbrev pub value_or_empty : Option Bytes → Bytes
value_or_empty none = []
value_or_empty (some s) = s

-- Memory is found, as add_cgi_env is told otherwise by `room`; the bytes in front are its prefix.
unfoldable pub env_gen_extra : (key : Bytes) → (value : Option Bytes) → (prefix : Bytes) → Bytes
env_gen_extra key value prefix = prefix ++ key ++ b'=' ∷ value_or_empty value

-- The entries of a request: how many all programs share, and those added for it.
pub record CgiEnv : Type 0 where
  pub common_count : ℕ
  pub added : List Bytes

abbrev pub cgi_env_index : CgiEnv → ℕ
cgi_env_index env = env.common_count + length env.added

-- The result 0 is `none`. `room` says that malloc finds memory.
unfoldable pub add_cgi_env :
    (room : Bool) → (key value : Bytes) → (http_prefix : Bool) → CgiEnv → Option CgiEnv
unfolding env_gen_extra
add_cgi_env room key value http_prefix env =
    let prefix = if http_prefix then codes "HTTP_" else [] in
    let entry = env_gen_extra key (some value) prefix in
    if ltb (cgi_env_index env) cgi_env_max
    then (if room then some (record env { added = env.added ++ entry ∷ [] }) else none)
    else none

-- The settings of the server that all programs are told; `none` is a null pointer.
pub record Settings : Type 0 where
  pub cgi_path : Option Bytes
  pub default_path : Bytes
  pub server_version : Bytes
  pub server_name : Option Bytes
  pub cgi_version : Bytes
  pub server_port : Bytes
  pub cgi_ld_library_path : Option Bytes
  pub default_ld_library_path : Bytes
  pub server_admin : Option Bytes

abbrev pub given_or : Bytes → Option Bytes → Option Bytes
given_or default none = some default
given_or default (some s) = some s

-- Without USE_NCSA_CGI_ENV.
unfoldable pub create_common_env : Settings → List Bytes
unfolding env_gen_extra
create_common_env settings =
    env_gen_extra (codes "PATH") (given_or settings.default_path settings.cgi_path) []
    ∷ env_gen_extra (codes "SERVER_SOFTWARE") (some settings.server_version) []
    ∷ env_gen_extra (codes "SERVER_NAME") settings.server_name []
    ∷ env_gen_extra (codes "GATEWAY_INTERFACE") (some settings.cgi_version) []
    ∷ env_gen_extra (codes "SERVER_PORT") (some settings.server_port) []
    ∷ env_gen_extra (codes "LD_LIBRARY_PATH")
        (given_or settings.default_ld_library_path settings.cgi_ld_library_path) []
    ∷ env_gen_extra (codes "SERVER_ADMIN") settings.server_admin []
    ∷ []

-- `none` is the end of the program.
unfoldable pub add_to_common_env :
    (key : Bytes) → (value : Option Bytes) → List Bytes → Option (List Bytes)
unfolding env_gen_extra
add_to_common_env key value common =
    let more = common ++ env_gen_extra key value [] ∷ [] in
    if ltb cgi_env_max (length more) then none else some more

-- enum HTTP_METHOD, the methods that a request gets
pub data HttpMethod : Type 0 where
  m_get m_head m_post : HttpMethod

-- The fields of a request that complete_env passes on.
pub record CgiFields : Type 0 where
  pub method : HttpMethod
  pub header_host : Option Bytes
  pub local_ip_addr : Bytes
  pub http_ver : Bytes
  pub request_uri : Bytes
  pub path_info : Option Bytes
  pub path_translated : Option Bytes
  pub script_name : Bytes
  pub query_string : Option Bytes
  pub remote_ip_addr : Bytes
  pub remote_port : Bytes
  pub content_type : Option Bytes
  pub content_length : Option Bytes

abbrev pub method_name : HttpMethod → Bytes
method_name m_get = codes "GET"
method_name m_head = codes "HEAD"
method_name m_post = codes "POST"

abbrev pub optional : Bytes → Option Bytes → List (Bytes × Bytes)
optional key none = []
optional key (some value) = (key, value) ∷ []

abbrev pub post_pairs : (default_type : Bytes) → CgiFields → HttpMethod → List (Bytes × Bytes)
post_pairs default_type req m_post =
    (codes "CONTENT_TYPE", elim req.content_type [ some s ↦ s | none ↦ default_type ])
    ∷ optional (codes "CONTENT_LENGTH") req.content_length
post_pairs default_type req _ = []

-- What complete_env adds, in its order; without ACCEPT_ON.
abbrev pub pairs : (default_type : Bytes) → CgiFields → List (Bytes × Bytes)
pairs default_type req =
    ((codes "REQUEST_METHOD", method_name req.method) ∷ [])
    ++ (optional (codes "HTTP_HOST") req.header_host
        ++ (((codes "SERVER_ADDR", req.local_ip_addr)
              ∷ (codes "SERVER_PROTOCOL", req.http_ver)
              ∷ (codes "REQUEST_URI", req.request_uri)
              ∷ [])
            ++ (optional (codes "PATH_INFO") req.path_info
                ++ (optional (codes "PATH_TRANSLATED") req.path_translated
                    ++ (((codes "SCRIPT_NAME", req.script_name) ∷ [])
                        ++ (optional (codes "QUERY_STRING") req.query_string
                            ++ (((codes "REMOTE_ADDR", req.remote_ip_addr)
                                  ∷ (codes "REMOTE_PORT", req.remote_port)
                                  ∷ [])
                                ++ post_pairs default_type req req.method)))))))

-- my_add_cgi_env for each in turn: the first failure ends it.
abbrev pub add_all_env : Bool → List (Bytes × Bytes) → CgiEnv → Option CgiEnv
add_all_env room [] env = some env
add_all_env room ((key, value) ∷ rest) env =
    add_cgi_env room key value false env >>= add_all_env room rest

-- The environment that the program gets, without the terminating null.
unfoldable pub complete_env :
    (room : Bool)
    → (default_type : Bytes) → (common : List Bytes) → CgiFields
    → CgiEnv
    → Option (List Bytes)
unfolding add_cgi_env
complete_env room default_type common req env = do
  full ← add_all_env room (pairs default_type req) env
  if ltb (cgi_env_index full) (cgi_env_max + 1) then some (common ++ full.added) else none

abbrev pub cgi_argc_max : ℕ
cgi_argc_max = 128

-- The words between the plus signs.
abbrev pub split_plus : Bytes → List Bytes
split_plus [] = [] ∷ []
split_plus (c ∷ s) = elim (split_plus s) [
  | [] ↦ []
  | w ∷ words ↦ if c == b'+' then [] ∷ w ∷ words else (c ∷ w) ∷ words
]

-- The loop: a word that decodes is an argument, up to CGI_ARGC_MAX with the name of the program.
abbrev pub decode_words : (aargc : ℕ) → List Bytes → List Bytes
decode_words aargc [] = []
decode_words aargc (w ∷ words) =
    let r = unescape_uri false w in
    let taken = r.uri ∷ decode_words (aargc + 1) words in
    let passed = decode_words aargc words in
    if leb cgi_argc_max aargc then [] else if r.success then taken else passed

unfoldable pub create_argv : (pathname : Bytes) → (query_string : Option Bytes) → List Bytes
unfolding unescape_uri
create_argv pathname none = pathname ∷ []
create_argv pathname (some q) =
    pathname ∷ (if has_byte b'=' q then [] else decode_words 1 (split_plus q))
