-- ===== src/Hash/Mime.antt =====
-- The table of MIME types is a list of pairs, of which the first for an extension counts.
use mathlib.Core.Path.{subst}
use mathlib.Core.Option.{or_else}
use yabwf.Prelude.{
  ℕ, ◌≡◌, ◌≢◌, ◌<◌, refl, ap, ◌∙◌, sym, true, inl, inr, Bool-cases, List, [], ◌∷◌, ◌++◌, Option,
  none, some, Option-cases, if◌then◌else◌, arith, Bytes, length, bytes_eq, All, Lacks, codes,
}
use yabwf.Hash.{
  HashKind, HashStruct, Table, mime_hashtable_size, hash_insert, hash_find, get_mime_hash_value,
  add_mime_type, strrchr, by_extension, get_mime_type,
}
use yabwf.Hash.Bucket.{
  only, hash_insert-some, hash_find-hash_insert, no_entries, hash_find-no_entries,
}

-- add_mime_type for a list of extensions and types, with enough memory.
abbrev pub add_all : HashKind → List (Bytes × Bytes) → Table → Option Table
add_all kind [] table = some table
add_all kind ((extension, type) ∷ types) table =
    elim (add_mime_type kind true table (some extension) (some type)) [
      | some table' ↦ add_all kind types table'
      | none ↦ none
    ]

-- The type of the first pair for an extension, or the default.
abbrev pub first_type : (default_type : Bytes) → List (Bytes × Bytes) → Bytes → Bytes
first_type default_type [] extension = default_type
first_type default_type ((e, type) ∷ types) extension =
    let further = first_type default_type types extension in
    if bytes_eq e extension then type else further

-- Neither is empty.
abbrev pub IsNonempty : Bytes × Bytes → Type 0
IsNonempty (extension, type) = (extension ≢ []) × (type ≢ [])

module _ (kind : HashKind) (default_type : Bytes) where
  abbrev hash : Bytes → ℕ
  hash key = get_mime_hash_value kind (some key)

  hash-lt : (key : Bytes) → hash key < mime_hashtable_size
  unfolding get_mime_hash_value
  hash-lt key = omega arith

  abbrev found_type : Option HashStruct → Bytes → Bytes
  found_type none otherwise = otherwise
  found_type (some e) otherwise = e.value

  -- What a table gives for an extension, and for those it lacks a list of pairs.
  abbrev looked_up : Table → Bytes → Bytes → Bytes
  looked_up table key otherwise = found_type (hash_find table (some key) (hash key)) otherwise

  found_type-or_else :
      (o : Option HashStruct) (key : Bytes) (e : HashStruct) (otherwise : Bytes)
      → found_type (or_else o (only key e)) otherwise
        ≡ found_type o (if bytes_eq e.key key then e.value else otherwise)
  unfolding or_else
  found_type-or_else (some x) key e otherwise = refl
  found_type-or_else none key e otherwise = elim (Bool-cases (bytes_eq e.key key)) [
    | inl same ↦ rw same refl
    | inr other ↦ rw other refl
  ]

  -- What the tables behind and before adding a type have in common.
  abbrev IsAdded : Bytes → Bytes → Table → Table → Type 0
  IsAdded extension type table table' =
      (length table' ≡ mime_hashtable_size)
      × ((c : ℕ) (key otherwise : Bytes)
          → looked_up table' (c ∷ key) otherwise
            ≡ looked_up table (c ∷ key) (if bytes_eq extension (c ∷ key) then type else otherwise))

  add_mime_type-IsAdded :
      (table : Table) (c : ℕ) (extension : Bytes) (d : ℕ) (type : Bytes)
      → length table ≡ mime_hashtable_size
      → (table' : Table) × (add_mime_type kind true table (some (c ∷ extension)) (some (d ∷ type))
          ≡ some table')
        × IsAdded (c ∷ extension) (d ∷ type) table table'
  unfolding add_mime_type
  add_mime_type-IsAdded table c extension d type h =
      let i = hash (c ∷ extension) in
      let e : HashStruct = record { key = c ∷ extension; value = d ∷ type } in
      let (_, stored, same) = hash_insert-some table i c extension d type in
      (
        (hash_insert true table i (some (c ∷ extension)) (some (d ∷ type))).0,
        rw (stored, add_mime_type) refl,
        (
          same ∙ h,
          λ c' key otherwise.
              ap (λ o. found_type o otherwise)
                (hash_find-hash_insert table i (hash (c' ∷ key)) c extension d type c' key
                  (subst (λ n. i < n) (sym h) (hash-lt (c ∷ extension))) (ap hash))
              ∙ found_type-or_else (hash_find table (some (c' ∷ key)) (hash (c' ∷ key))) (c' ∷ key)
                  e otherwise,
        ),
      )

  add_all-first_type :
      (types : List (Bytes × Bytes)) (table : Table)
      → All IsNonempty types
      → length table ≡ mime_hashtable_size
      → (table' : Table) × (add_all kind types table ≡ some table')
        × ((c : ℕ) (key : Bytes)
            → looked_up table' (c ∷ key) default_type
              ≡ looked_up table (c ∷ key) (first_type default_type types (c ∷ key)))
  add_all-first_type [] table h n = (table, refl, λ c key. refl)
  add_all-first_type (([], type) ∷ types) table (h, _) n = absurd (h.0 refl)
  add_all-first_type ((c ∷ e, []) ∷ types) table (h, _) n = absurd (h.1 refl)
  add_all-first_type ((c ∷ e, d ∷ type) ∷ types) table (_, h) n =
      let (table', added, (n', now)) = add_mime_type-IsAdded table c e d type n in
      let (table'', all_added, finally) = add_all-first_type types table' h n' in
      (
        table'',
        rw (added, add_all) all_added,
        λ c' key. finally c' key ∙ now c' key (first_type default_type types (c' ∷ key)),
      )

strrchr-none : (c : ℕ) (s : Bytes) → Lacks c s → strrchr s c ≡ none
unfolding strrchr
strrchr-none c [] h = refl
strrchr-none c (x ∷ s) (h, hs) = ground (arith, strrchr-none c s hs)

strrchr-last : (c : ℕ) (stem s : Bytes) → Lacks c s → strrchr (stem ++ c ∷ s) c ≡ some (c ∷ s)
unfolding strrchr
strrchr-last c [] s h = ground (arith, strrchr-none c s h)
strrchr-last c (x ∷ stem) s h = rw (strrchr-last c stem s h) refl

module _ (kind : HashKind) (default_type : Bytes) where
  looked_up-no_entries :
      (c : ℕ) (key otherwise : Bytes)
      → looked_up kind default_type (no_entries mime_hashtable_size) (c ∷ key) otherwise ≡ otherwise
  looked_up-no_entries c key otherwise =
      ap (λ o. found_type kind default_type o otherwise)
        (hash_find-no_entries mime_hashtable_size (hash kind default_type (c ∷ key)) c key)

  get_mime_type-by_extension :
      (table : Table) (filename : Bytes)
      → get_mime_type kind default_type table (some filename)
        ≡ by_extension kind default_type table (strrchr filename b'.')
  unfolding get_mime_type strrchr
  get_mime_type-by_extension table [] = refl
  get_mime_type-by_extension table (c ∷ s) = refl

  by_extension-looked_up :
      (table : Table) (dot c : ℕ) (s : Bytes)
      → by_extension kind default_type table (some (dot ∷ c ∷ s))
        ≡ looked_up kind default_type table (c ∷ s) default_type
  by_extension-looked_up table dot c s =
      elim (Option-cases (hash_find table (some (c ∷ s)) (hash kind default_type (c ∷ s)))) [
        | inl absent ↦ rw (absent, by_extension) refl
        | inr (e, present) ↦ rw (present, by_extension) refl
      ]

-- When pairs of extensions and types, none of them empty, are added to an empty table, and there is
-- memory, each is taken, and get_mime_type then gives for a name that ends in a dot and an extension
-- without a dot the type of the first pair for this extension, or the default type where there is
-- none. A name without a dot and one that ends in a dot have the default type.
pub get_mime_type-first_type :
    (kind : HashKind) (default_type : Bytes) (types : List (Bytes × Bytes))
    → All IsNonempty types
    → (table : Table) × (add_all kind types (no_entries mime_hashtable_size) ≡ some table)
      × ((stem : Bytes) (c : ℕ) (extension : Bytes)
          → Lacks b'.' (c ∷ extension)
          → get_mime_type kind default_type table (some (stem ++ b'.' ∷ c ∷ extension))
            ≡ first_type default_type types (c ∷ extension))
      × ((name : Bytes)
          → Lacks b'.' name
          → (get_mime_type kind default_type table (some name) ≡ default_type)
            × (get_mime_type kind default_type table (some (name ++ codes ".")) ≡ default_type))
get_mime_type-first_type kind default_type types h =
    let (table, added, finally) =
      add_all-first_type kind default_type types (no_entries mime_hashtable_size) h refl in
    (
      table,
      added,
      (λ stem c extension none_in.
          get_mime_type-by_extension kind default_type table (stem ++ b'.' ∷ c ∷ extension)
          ∙ ap (by_extension kind default_type table)
              (strrchr-last b'.' stem (c ∷ extension) none_in)
          ∙ by_extension-looked_up kind default_type table b'.' c extension
          ∙ finally c extension
          ∙ looked_up-no_entries kind default_type c extension _),
      (λ name none_in. (
        get_mime_type-by_extension kind default_type table name
            ∙ ap (by_extension kind default_type table) (strrchr-none b'.' name none_in),
        get_mime_type-by_extension kind default_type table (name ++ codes ".")
            ∙ ap (by_extension kind default_type table) (strrchr-last b'.' name [] tt),
      )),
    )
