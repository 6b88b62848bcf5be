-- ===== src/Cgi/Entries.antt =====
-- The entries that complete_env of src/cgi.c adds: how many they are, and from which fields they come.
use yabwf.Prelude.{
  suc, ◌+◌, ◌≤◌, ◌≡◌, refl, sym, ap, ◌∙◌, true, List, [], ◌∷◌, ◌++◌, map, Option, none, some, Bytes,
  codes, length, length-append, append-nil, append_assoc, arith, ltb, All,
}
use yabwf.Cgi.{
  CgiEnv, CgiFields, HttpMethod, m_get, m_head, m_post, method_name, optional, post_pairs,
  cgi_env_max, cgi_env_index, env_gen_extra, add_cgi_env, add_all_env, pairs,
}
use yabwf.Cgi.Lookup.{pair_entry, present, IsPlain}

abbrev pub with_added : CgiEnv → List Bytes → CgiEnv
with_added env l = record env { added = l }

-- With memory and enough entries free, all pairs are added, in their order.
pub add_all_env-some :
    (ps : List (Bytes × Bytes)) (env : CgiEnv)
    → cgi_env_index env + length ps ≤ cgi_env_max
    → add_all_env true ps env ≡ some (record env { added = env.added ++ map pair_entry ps })
unfolding add_cgi_env env_gen_extra
add_all_env-some [] env fit = ap (λ l. some (with_added env l)) (sym (append-nil env.added))
add_all_env-some ((key, value) ∷ ps) env fit =
    let entry = pair_entry (key, value) in
    let grown : CgiEnv = record env { added = env.added ++ entry ∷ [] } in
    let free : ltb (cgi_env_index env) cgi_env_max ≡ true = ground arith in
    let n = length-append env.added (entry ∷ []) in
    let rest = add_all_env-some ps grown (omega (arith, n, fit)) in
    rw free (
      rest
      ∙ ap (λ l. some (with_added env l)) (append_assoc env.added (entry ∷ []) (map pair_entry ps)))

-- The fields that complete_env passes on whatever the method.
abbrev pub fields_of : CgiFields → List (Bytes × Option Bytes)
fields_of req =
    (codes "REQUEST_METHOD", some (method_name req.method))
    ∷ (codes "HTTP_HOST", req.header_host)
    ∷ (codes "SERVER_ADDR", some req.local_ip_addr)
    ∷ (codes "SERVER_PROTOCOL", some req.http_ver)
    ∷ (codes "REQUEST_URI", some req.request_uri)
    ∷ (codes "PATH_INFO", req.path_info)
    ∷ (codes "PATH_TRANSLATED", req.path_translated)
    ∷ (codes "SCRIPT_NAME", some req.script_name)
    ∷ (codes "QUERY_STRING", req.query_string)
    ∷ (codes "REMOTE_ADDR", some req.remote_ip_addr)
    ∷ (codes "REMOTE_PORT", some req.remote_port)
    ∷ []

pairs-present :
    (default_type : Bytes) (req : CgiFields)
    → pairs default_type req ≡ present (fields_of req) (post_pairs default_type req req.method)
pairs-present default_type req = refl

-- The same for the fields of a body.
abbrev pub post_fields :
    (default_type : Bytes) → CgiFields → HttpMethod → List (Bytes × Option Bytes)
post_fields default_type req m_post =
    (codes "CONTENT_TYPE", some (elim req.content_type [ some s ↦ s | none ↦ default_type ]))
    ∷ (codes "CONTENT_LENGTH", req.content_length)
    ∷ []
post_fields default_type req m_get = []
post_fields default_type req m_head = []

pub post_pairs-present :
    (default_type : Bytes) (req : CgiFields) (method : HttpMethod)
    → post_pairs default_type req method ≡ present (post_fields default_type req method) []
post_pairs-present default_type req m_post =
    ap (λ l. (codes "CONTENT_TYPE", elim req.content_type [ some s ↦ s | none ↦ default_type ]) ∷ l)
      (sym (append-nil (optional (codes "CONTENT_LENGTH") req.content_length)))
post_pairs-present default_type req m_get = refl
post_pairs-present default_type req m_head = refl

pub post_fields-IsPlain :
    (default_type : Bytes) (req : CgiFields) (method : HttpMethod)
    → All IsPlain (post_fields default_type req method)
post_fields-IsPlain default_type req m_post = (refl, (refl, tt))
post_fields-IsPlain default_type req m_get = tt
post_fields-IsPlain default_type req m_head = tt

length-optional :
    (key : Bytes) (v : Option Bytes) (ps : List (Bytes × Bytes))
    → length (optional key v ++ ps) ≤ 1 + length ps
length-optional key none ps = omega arith
length-optional key (some s) ps = omega arith

length-present :
    (fields : List (Bytes × Option Bytes)) (post : List (Bytes × Bytes))
    → length (present fields post) ≤ length fields + length post
length-present [] post = omega arith
length-present ((key, v) ∷ fields) post =
    let first = length-optional key v (present fields post) in
    let rest = length-present fields post in omega (arith, first, rest)

length-post_pairs :
    (default_type : Bytes) (req : CgiFields) (method : HttpMethod)
    → length (post_pairs default_type req method) ≤ 2
length-post_pairs default_type req m_post = omega (
  arith,
  length-optional (codes "CONTENT_LENGTH") req.content_length [],
  length-append (optional (codes "CONTENT_LENGTH") req.content_length) [],
)
length-post_pairs default_type req m_get = omega arith
length-post_pairs default_type req m_head = omega arith

pub length-pairs : (default_type : Bytes) (req : CgiFields) → length (pairs default_type req) ≤ 13
length-pairs default_type req = omega (
  arith,
  length-present (fields_of req) (post_pairs default_type req req.method),
  length-post_pairs default_type req req.method,
)

pub length-entries : (ps : List (Bytes × Bytes)) → length (map pair_entry ps) ≡ length ps
length-entries [] = refl
length-entries (p ∷ ps) = ap suc (length-entries ps)
