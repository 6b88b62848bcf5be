-- ===== src/Hash/Home.antt =====
-- The table of home directories remembers what getpwnam said and nothing else.
use mathlib.Core.Path.{subst}
use yabwf.Prelude.{
  ℕ, ◌≡◌, ◌≢◌, ◌<◌, refl, ap, ◌∙◌, sym, true, inl, inr, List, [], ◌∷◌, Option, none, some,
  Option-cases, arith, Bytes, length, All, map,
}
use yabwf.Hash.{
  HashKind, HashStruct, Table, passwd_hashtable_size, hash_insert, hash_find,
  get_homedir_hash_value, value_of, get_home_dir,
}
use yabwf.Hash.Bucket.{
  hash_insert-some, hash_find-hash_insert, hash_insert_new, found-cases, no_entries,
  hash_find-no_entries,
}

-- A name, and what getpwnam gives for it, are not empty.
abbrev pub IsUser : (Bytes → Option Bytes) → Bytes → Type 0
IsUser getpwnam name = (name ≢ []) × (getpwnam name ≢ some [])

-- The directories of users asked for in turn, with enough memory, and the table behind that.
abbrev pub home_dirs :
    HashKind → (Bytes → Option Bytes) → List Bytes → Table → Table × List (Option Bytes)
home_dirs kind getpwnam [] table = (table, [])
home_dirs kind getpwnam (name ∷ names) table =
    let (table', dir) = get_home_dir kind getpwnam true table name in
    let (table'', dirs) = home_dirs kind getpwnam names table' in (table'', dir ∷ dirs)

module _ (kind : HashKind) (getpwnam : Bytes → Option Bytes) where
  abbrev hash : Bytes → ℕ
  hash name = get_homedir_hash_value kind (some name)

  hash-lt : (name : Bytes) → hash name < passwd_hashtable_size
  unfolding get_homedir_hash_value
  hash-lt name = omega arith

  -- What the table holds is what getpwnam says.
  abbrev IsSound : Table → Type 0
  IsSound table =
      (length table ≡ passwd_hashtable_size)
      × ((c : ℕ) (name : Bytes) (e : HashStruct)
          → hash_find table (some (c ∷ name)) (hash (c ∷ name)) ≡ some e
          → getpwnam (c ∷ name) ≡ some e.value)

  no_entries-IsSound : IsSound (no_entries passwd_hashtable_size)
  no_entries-IsSound = (
    refl,
    λ c name e h.
        absurd
          (never (sym (hash_find-no_entries passwd_hashtable_size (hash (c ∷ name)) c name) ∙ h)),
  )
    where
      never : {e : HashStruct} → none ≡ some e → ⊥
      never h = cc

  hash_insert-IsSound :
      (table : Table) (c : ℕ) (name : Bytes) (d : ℕ) (dir : Bytes)
      → IsSound table
      → getpwnam (c ∷ name) ≡ some (d ∷ dir)
      → IsSound (hash_insert true table (hash (c ∷ name)) (some (c ∷ name)) (some (d ∷ dir))).0
  hash_insert-IsSound table c name d dir (len, sound) h =
      let i = hash (c ∷ name) in
      let (_, _, same) = hash_insert-some table i c name d dir in
      let new : HashStruct = record { key = c ∷ name; value = d ∷ dir } in
      (
        same ∙ len,
        λ c' name' e found.
            let moved =
              hash_find-hash_insert table i (hash (c' ∷ name')) c name d dir c' name'
                (subst (λ n. i < n) (sym len) (hash-lt (c ∷ name))) (ap hash) in
            elim (found-cases (hash_find table (some (c' ∷ name')) (hash (c' ∷ name'))) (c' ∷ name')
              new e (sym moved ∙ found)) [
                | inl old ↦ sound c' name' e old
                | inr (same_name, same_entry) ↦
                    sym (ap getpwnam same_name) ∙ h ∙ ap (λ x. some x.value) same_entry
              ],
      )

  -- The answer is that of getpwnam, and the table stays sound.
  abbrev IsAnswer : Bytes → Table × Option Bytes → Type 0
  IsAnswer name (table, dir) = (dir ≡ getpwnam name) × IsSound table

  value_of-some :
      (r : Table × Option HashStruct) (e : HashStruct)
      → r.1 ≡ some e
      → value_of r ≡ (r.0, some e.value)
  value_of-some (table, none) e h = cc
  value_of-some (table, some x) e h = cc

  get_home_dir_found :
      (table : Table) (name : Bytes) (e : HashStruct)
      → hash_find table (some name) (hash name) ≡ some e
      → get_home_dir kind getpwnam true table name ≡ (table, some e.value)
  unfolding get_home_dir
  get_home_dir_found table name e h = rw (h, get_home_dir) refl

  get_home_dir_unknown :
      (table : Table) (name : Bytes)
      → hash_find table (some name) (hash name) ≡ none
      → getpwnam name ≡ none
      → get_home_dir kind getpwnam true table name ≡ (table, none)
  unfolding get_home_dir
  get_home_dir_unknown table name h k = rw (h, k, get_home_dir) refl

  get_home_dir_known :
      (table : Table) (name dir : Bytes)
      → hash_find table (some name) (hash name) ≡ none
      → getpwnam name ≡ some dir
      → get_home_dir kind getpwnam true table name
        ≡ value_of (hash_insert true table (hash name) (some name) (some dir))
  unfolding get_home_dir
  get_home_dir_known table name dir h k = rw (h, k, get_home_dir) refl

  get_home_dir-IsAnswer :
      (table : Table) (name : Bytes)
      → IsSound table
      → IsUser getpwnam name
      → IsAnswer name (get_home_dir kind getpwnam true table name)
  get_home_dir-IsAnswer table [] sound (named, _) = absurd (named refl)
  get_home_dir-IsAnswer table (c ∷ name) sound (named, placed) =
      elim (Option-cases (hash_find table (some (c ∷ name)) (hash (c ∷ name)))) [
        | inl absent ↦ elim (Option-cases (getpwnam (c ∷ name))) [
          | inl unknown ↦
              subst (IsAnswer (c ∷ name))
                (sym (get_home_dir_unknown table (c ∷ name) absent unknown)) (sym unknown, sound)
          | inr ([], homeless) ↦ absurd (placed homeless)
          | inr (d ∷ dir, known) ↦
              subst (IsAnswer (c ∷ name))
                (sym (
                  get_home_dir_known table (c ∷ name) (d ∷ dir) absent known
                  ∙ value_of-some _ _
                      (hash_insert_new table (hash (c ∷ name)) c name d dir absent)))
                (sym known, hash_insert-IsSound table c name d dir sound known)
        ]
        | inr (e, present) ↦
            subst (IsAnswer (c ∷ name)) (sym (get_home_dir_found table (c ∷ name) e present))
              (sym (sound.1 c name e present), sound)
      ]

-- Whatever users are asked for, in any order and however often, get_home_dir answers what getpwnam
-- says, as long as getpwnam says the same each time: the table that starts empty never changes an
-- answer. No name and no directory is empty, and there is memory.
pub home_dirs-getpwnam :
    (kind : HashKind) (getpwnam : Bytes → Option Bytes) (names : List Bytes)
    → All (IsUser getpwnam) names
    → (home_dirs kind getpwnam names (no_entries passwd_hashtable_size)).1 ≡ map getpwnam names
home_dirs-getpwnam kind getpwnam names h =
    from (no_entries passwd_hashtable_size) names (no_entries-IsSound kind getpwnam) h
  where
    from :
        (table : Table) (names : List Bytes)
        → IsSound kind getpwnam table
        → All (IsUser getpwnam) names
        → (home_dirs kind getpwnam names table).1 ≡ map getpwnam names
    from table [] sound h = refl
    from table (name ∷ names) sound (user, h) =
        let (same, sound') = get_home_dir-IsAnswer kind getpwnam table name sound user in
        ap (◌∷◌ (get_home_dir kind getpwnam true table name).1)
          (from (get_home_dir kind getpwnam true table name).0 names sound' h)
        ∙ ap (λ dir. dir ∷ map getpwnam names) same
