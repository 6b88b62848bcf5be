-- ===== src/Cgi/Lookup.antt =====
-- Looking a name up in an environment of a program, as src/cgi.c puts its entries together.
use yabwf.Prelude.{
  ◌≡◌, refl, ap, ◌∙◌, false, List, [], ◌∷◌, ◌++◌, map, Option, none, some, ◌==◌, if◌then◌else◌,
  if_split, Bytes, has_byte, bytes_eq, Bool-cases, inl, inr, arith, All,
}
use yabwf.Cgi.{optional}

abbrev pub pair_entry : Bytes × Bytes → Bytes
pair_entry (key, value) = key ++ b'=' ∷ value

-- The value that an entry gives to a name, if it is about the name.
abbrev pub value_in : (name entry : Bytes) → Option Bytes
value_in [] [] = none
value_in [] (c ∷ s) = if b'=' == c then some s else none
value_in (n ∷ name) [] = none
value_in (n ∷ name) (c ∷ s) = if n == c then value_in name s else none

-- The first, or the second if there is none.
abbrev pub or_next : (first next : Option Bytes) → Option Bytes
or_next none next = next
or_next (some s) next = some s

-- The value of a name in an environment: its first entry counts.
abbrev pub lookup_env : (name : Bytes) → List Bytes → Option Bytes
lookup_env name [] = none
lookup_env name (entry ∷ entries) = or_next (value_in name entry) (lookup_env name entries)

or_next_assoc : (u v w : Option Bytes) → or_next u (or_next v w) ≡ or_next (or_next u v) w
or_next_assoc none v w = refl
or_next_assoc (some s) v w = refl

pub or_next-none : (u : Option Bytes) → or_next u none ≡ u
or_next-none none = refl
or_next-none (some s) = refl

pub lookup_env-append :
    (name : Bytes) (l m : List Bytes)
    → lookup_env name (l ++ m) ≡ or_next (lookup_env name l) (lookup_env name m)
lookup_env-append name [] m = refl
lookup_env-append name (e ∷ l) m =
    ap (or_next (value_in name e)) (lookup_env-append name l m)
    ∙ or_next_assoc (value_in name e) (lookup_env name l) (lookup_env name m)

-- An entry is about its key alone, as no name has an equals sign.
value_in-pair_entry :
    (name key value : Bytes)
    → has_byte b'=' name ≡ false
    → has_byte b'=' key ≡ false
    → value_in name (pair_entry (key, value)) ≡ (if bytes_eq name key then some value else none)
value_in-pair_entry [] [] value plain whole = refl
value_in-pair_entry [] (k ∷ key) value plain whole = ground arith
value_in-pair_entry (n ∷ name) [] value plain whole = ground arith
value_in-pair_entry (n ∷ name) (k ∷ key) value plain whole =
    let further = value_in-pair_entry name key value (ground arith) (ground arith) in
    elim (Bool-cases (n == k)) [ inl e ↦ rw (e, further) refl | inr e ↦ rw e refl ]

-- What fields give to a name, a key with no value being left out.
abbrev pub field_of : (name : Bytes) → List (Bytes × Option Bytes) → Option Bytes
field_of name [] = none
field_of name ((key, value) ∷ fields) =
    let further = field_of name fields in
    if bytes_eq name key then or_next value further else further

abbrev pub present : List (Bytes × Option Bytes) → List (Bytes × Bytes) → List (Bytes × Bytes)
present [] post = post
present ((key, value) ∷ fields) post = optional key value ++ present fields post

abbrev pub IsPlain : Bytes × Option Bytes → Type 0
IsPlain (key, value) = has_byte b'=' key ≡ false

lookup_env-optional :
    (name key : Bytes) (value : Option Bytes) (ps : List (Bytes × Bytes))
    → has_byte b'=' name ≡ false
    → has_byte b'=' key ≡ false
    → lookup_env name (map pair_entry (optional key value ++ ps))
      ≡ or_next (if bytes_eq name key then value else none) (lookup_env name (map pair_entry ps))
lookup_env-optional name key none ps plain whole =
    if_split
      (λ r. lookup_env name (map pair_entry ps) ≡ or_next r (lookup_env name (map pair_entry ps)))
      (bytes_eq name key) (λ _. refl) (λ _. refl)
lookup_env-optional name key (some s) ps plain whole =
    ap (λ r. or_next r (lookup_env name (map pair_entry ps)))
      (value_in-pair_entry name key s plain whole)

pub lookup_env-present :
    (name : Bytes) (fields : List (Bytes × Option Bytes)) (post : List (Bytes × Bytes))
    → has_byte b'=' name ≡ false
    → All IsPlain fields
    → lookup_env name (map pair_entry (present fields post))
      ≡ or_next (field_of name fields) (lookup_env name (map pair_entry post))
lookup_env-present name [] post plain whole = refl
lookup_env-present name ((key, value) ∷ fields) post plain (whole, more) =
    let rest = lookup_env-present name fields post plain more in
    let first = lookup_env-optional name key value (present fields post) plain whole in
    let last = lookup_env name (map pair_entry post) in
    first
    ∙ ap (or_next (if bytes_eq name key then value else none)) rest
    ∙ elim (Bool-cases (bytes_eq name key)) [
      | inl e ↦ rw e (or_next_assoc value (field_of name fields) last)
      | inr e ↦ rw e refl
    ]
