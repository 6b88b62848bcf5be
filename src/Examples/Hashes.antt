-- ===== src/Examples/Hashes.antt =====
-- The theorems on src/hash.c at concrete inputs.
use yabwf.Prelude.{
  ℕ, ◌≡◌, refl, List, [], ◌∷◌, ◌++◌, Option, none, some, ◌==◌, if◌then◌else◌, Bytes, codes, Lacks,
  arith, true,
}
use yabwf.Hash.{
  fnv1a, Table, mime_hashtable_size, passwd_hashtable_size, hash_insert, hash_find, get_mime_type,
}
use yabwf.Hash.Bucket.{only, no_entries, hash_find-hash_insert}
use yabwf.Hash.Mime.{add_all, first_type, get_mime_type-first_type}
use yabwf.Hash.Home.{home_dirs, home_dirs-getpwnam}
use mathlib.Core.Option.{or_else}

abbrev types : List (Bytes × Bytes)
types =
    (codes "html", codes "text/html")
    ∷ (codes "gz", codes "application/gzip")
    ∷ (codes "html", codes "text/plain")
    ∷ []

get_mime_type-first_type_example :
    (table : Table) × (add_all fnv1a types (no_entries mime_hashtable_size) ≡ some table)
    × ((stem : Bytes) (c : ℕ) (extension : Bytes)
        → Lacks b'.' (c ∷ extension)
        → get_mime_type fnv1a (codes "text/plain") table (some (stem ++ b'.' ∷ c ∷ extension))
          ≡ first_type (codes "text/plain") types (c ∷ extension))
    × ((name : Bytes)
        → Lacks b'.' name
        → (get_mime_type fnv1a (codes "text/plain") table (some name) ≡ codes "text/plain")
          × (get_mime_type fnv1a (codes "text/plain") table (some (name ++ codes "."))
              ≡ codes "text/plain"))
get_mime_type-first_type_example =
    get_mime_type-first_type fnv1a (codes "text/plain") types
      ((λ h. cc, λ h. cc), ((λ h. cc, λ h. cc), ((λ h. cc, λ h. cc), tt)))

-- One user, whose name begins with 'j'.
abbrev getpwnam : Bytes → Option Bytes
getpwnam [] = none
getpwnam (c ∷ name) = if c == b'j' then some (codes "/home/j") else none

home_dirs-getpwnam_example :
    (home_dirs fnv1a getpwnam
      (codes "jim" ∷ codes "bob" ∷ codes "jim" ∷ [])
      (no_entries passwd_hashtable_size)).1
    ≡ some (codes "/home/j") ∷ none ∷ some (codes "/home/j") ∷ []
home_dirs-getpwnam_example =
    home_dirs-getpwnam fnv1a getpwnam (codes "jim" ∷ codes "bob" ∷ codes "jim" ∷ [])
      ((λ h. cc, λ h. cc), ((λ h. cc, λ h. cc), ((λ h. cc, λ h. cc), tt)))

hash_find-hash_insert_example :
    hash_find
      (hash_insert true (no_entries 3) 1 (some (codes "gz")) (some (codes "zip"))).0
      (some (codes "gz"))
      1
    ≡ or_else
        (hash_find (no_entries 3) (some (codes "gz")) 1)
        (only (codes "gz") (record { key = codes "gz"; value = codes "zip" }))
hash_find-hash_insert_example =
    hash_find-hash_insert (no_entries 3) 1 1 b'g' (codes "z") b'z' (codes "ip") b'g' (codes "z")
      (omega arith) (λ h. refl)
