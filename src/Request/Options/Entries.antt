-- ===== src/Request/Options/Entries.antt =====
-- What a header line may change in a request, and the entries it adds to the environment.
use yabwf.Prelude.{
  ◌≤◌, max, ◌≡◌, refl, sym, ap, ◌∙◌, Bool, true, false, ◌&&◌, ◌⊎◌, inl, inr, List, [], ◌∷◌, ◌++◌,
  append-nil, append_assoc, Option, none, some, Option-cases, ltb, ltb→lt, if◌then◌else◌, Bytes,
  codes, length-append, All, All-append, arith,
}
use mathlib.Core.Path.{subst}
use yabwf.Cgi.{CgiEnv, cgi_env_index, cgi_env_max, add_cgi_env, env_gen_extra}
use yabwf.Request.Options.{Options, Setup, is_none, env_line, env_line_twice, to_upper}

-- The entry of a header line: its key in capitals behind HTTP_, and its value.
abbrev IsHttpEntry : Bytes → Type 0
IsHttpEntry entry =
    (key : Bytes) × (value : Bytes) × (entry ≡ codes "HTTP_" ++ to_upper key ++ b'=' ∷ value)

-- A value that is set stays.
abbrev Stays : Option Bytes → Option Bytes → Type 0
Stays old new = (is_none old ≡ true) ⊎ (new ≡ old)

-- The environment grows by entries of header lines, and not beyond its table.
abbrev Extends : CgiEnv → CgiEnv → Type 0
Extends env env' =
    (env'.common_count ≡ env.common_count)
    × ((more : List Bytes) × (env'.added ≡ env.added ++ more) × All IsHttpEntry more)
    × (cgi_env_index env' ≤ max (cgi_env_index env) cgi_env_max)

-- What a header line leaves of a request.
abbrev pub Keeps : Options → Options → Type 0
Keeps req req' =
    Extends req.env req'.env
    × Stays req.header_host req'.header_host
    × Stays req.content_length req'.content_length
    × Stays req.content_type req'.content_type
    × Stays req.if_modified_since req'.if_modified_since

pub Extends-refl : (env : CgiEnv) → Extends env env
Extends-refl env = (refl, ([], sym (append-nil env.added), tt), omega arith)

Extends-trans : (a b c : CgiEnv) → Extends a b → Extends b c → Extends a c
Extends-trans a b c (same, (more, grown, http), small) (same', (more', grown', http'), small') = (
  same' ∙ same,
  (
    more ++ more',
    grown' ∙ ap (λ l. l ++ more') grown ∙ append_assoc a.added more more',
    All-append _ more more' http http',
  ),
  omega (arith, small, small'),
)

Stays-trans : (a b c : Option Bytes) → Stays a b → Stays b c → Stays a c
Stays-trans a b c (inl empty) h = inl empty
Stays-trans a b c (inr same) (inl empty) = inl (ap is_none (sym same) ∙ empty)
Stays-trans a b c (inr same) (inr same') = inr (same' ∙ same)

added_when :
    (fits room : Bool) (grown env : CgiEnv)
    → (if fits then (if room then some grown else none) else none) ≡ some env
    → (fits ≡ true) × (grown ≡ env)
added_when true true grown env h = (refl, cc)
added_when true false grown env h = absurd (cc)
added_when false room grown env h = absurd (cc)

-- An entry that is added extends the environment.
add_cgi_env-Extends :
    (room : Bool) (key value : Bytes) (env env' : CgiEnv)
    → add_cgi_env room (to_upper key) value true env ≡ some env'
    → Extends env env'
unfolding add_cgi_env env_gen_extra
add_cgi_env-Extends room key value env env' h =
    let entry = codes "HTTP_" ++ to_upper key ++ b'=' ∷ value in
    let grown : CgiEnv = record env { added = env.added ++ entry ∷ [] } in
    let (fits, same) = added_when (ltb (cgi_env_index env) cgi_env_max) room grown env' h in
    let small = ltb→lt (cgi_env_index env) cgi_env_max fits in
    subst (Extends env) same (
      refl,
      (entry ∷ [], refl, ((key, value, refl), tt)),
      omega (arith, small, length-append env.added (entry ∷ [])),
    )

pub Keeps-refl : (req : Options) → Keeps req req
Keeps-refl req = (Extends-refl req.env, inr refl, inr refl, inr refl, inr refl)

pub Keeps-trans : (a b c : Options) → Keeps a b → Keeps b c → Keeps a c
Keeps-trans a b c (e, h, l, t, m) (e', h', l', t', m') = (
  Extends-trans a.env b.env c.env e e',
  Stays-trans a.header_host b.header_host c.header_host h h',
  Stays-trans a.content_length b.content_length c.content_length l l',
  Stays-trans a.content_type b.content_type c.content_type t t',
  Stays-trans a.if_modified_since b.if_modified_since c.if_modified_since m m',
)

-- A change of the environment alone.
Keeps-env :
    (req : Options) (env : CgiEnv) → Extends req.env env → Keeps req (record req { env = env })
Keeps-env req env e = (e, inr refl, inr refl, inr refl, inr refl)

pub env_line-Keeps :
    (setup : Setup) (key value : Bytes) (req : Options)
    → Keeps req (env_line setup (to_upper key) value req).0
env_line-Keeps setup key value req =
    elim (Option-cases (add_cgi_env setup.room (to_upper key) value true req.env)) [
      | inl failed ↦ rw (env_line, failed) (Keeps-refl req)
      | inr (env, added) ↦
          rw (env_line, added)
            (Keeps-env req env (add_cgi_env-Extends setup.room key value req.env env added))
    ]

pub env_line_twice-Keeps :
    (setup : Setup) (key value : Bytes) (req : Options)
    → Keeps req (env_line_twice setup (to_upper key) value req).0
env_line_twice-Keeps setup key value req =
    elim (Option-cases (add_cgi_env setup.room (to_upper key) value true req.env)) [
      | inl failed ↦ rw (env_line_twice, failed) (Keeps-refl req)
      | inr (env, added) ↦
          let next : Options = record req { env = env } in
          rw (env_line_twice, added)
            (Keeps-trans req next (env_line setup (to_upper key) value next).0
              (Keeps-env req env (add_cgi_env-Extends setup.room key value req.env env added))
              (env_line-Keeps setup key value next))
    ]

-- A field that is set where it was empty, and a request of which no watched field changes.
pub both_left : (b c : Bool) → (b && c) ≡ true → c ≡ true
both_left true c h = h
both_left false c h = absurd (cc)
