-- ===== src/Hash.antt =====
-- src/hash.c: the tables of MIME types and of home directories. A table is the list of its buckets,
-- a bucket the list of its entries.
pub mod Bucket
pub mod Mime
pub mod Home
pub mod Prefix
use Prim.Native.Nat.{bit_xor}
use yabwf.Prelude.{
  ℕ, zero, suc, ◌+◌, ◌-◌, ◌*◌, ◌%◌, ◌^◌, ◌≡◌, refl, Bool, true, false, List, [], ◌∷◌, ◌++◌, Option,
  none, some, ltb, ◌==◌, if◌then◌else◌, Bytes, codes, length, get_or, set, bytes_eq,
}

abbrev pub max_hash_length : ℕ
max_hash_length = 4

abbrev pub mime_hashtable_size : ℕ
mime_hashtable_size = 47

abbrev pub passwd_hashtable_size : ℕ
passwd_hashtable_size = 47

-- The hash functions that the build chooses from, but for four_char_hash.
pub data HashKind : Type 0 where
  sdbm djb2 fnv1a : HashKind

-- A char is signed, so that a byte from 128 up becomes an unsigned int by sign extension.
abbrev pub as_unsigned : ℕ → ℕ
as_unsigned c = if ltb c 128 then c else 2 ^ 32 - 256 + c

-- `hash ^= *str++; hash *= FNV_PRIME`
abbrev pub fnv1a_round : ℕ → ℕ → ℕ
fnv1a_round hash c = bit_xor hash (as_unsigned c) * 16777619 % 2 ^ 32

-- `c + (hash << 6) + (hash << 16) - hash`
abbrev pub sdbm_round : ℕ → ℕ → ℕ
sdbm_round hash c = (as_unsigned c + hash * 2 ^ 6 + hash * 2 ^ 16 + (2 ^ 32 - hash)) % 2 ^ 32

-- `((hash << 5) + hash) + c`
abbrev pub djb2_round : ℕ → ℕ → ℕ
djb2_round hash c = (hash * 2 ^ 5 + hash + as_unsigned c) % 2 ^ 32

-- A loop of at most `count` rounds that ends before the terminator.
abbrev pub hash_loop : (round : ℕ → ℕ → ℕ) → (count hash : ℕ) → Bytes → ℕ
hash_loop round zero hash s = hash
hash_loop round (suc count) hash [] = hash
hash_loop round (suc count) hash (c ∷ s) = hash_loop round count (round hash c) s

-- The first byte of the text is given by itself, as the loop of fnv1a_hash tests behind a round.
abbrev pub fnv1a_hash : ℕ → Bytes → ℕ
fnv1a_hash c s = hash_loop fnv1a_round max_hash_length (fnv1a_round 2166136261 c) s

abbrev pub sdbm_hash : Bytes → ℕ
sdbm_hash str = hash_loop sdbm_round max_hash_length 0 str

abbrev pub djb2_hash : Bytes → ℕ
djb2_hash str = hash_loop djb2_round max_hash_length 5381 str

-- `none` is a null pointer, here and below.
unfoldable pub boa_hash : HashKind → Option Bytes → ℕ
boa_hash kind none = 0
boa_hash kind (some []) = 0
boa_hash sdbm (some (c ∷ s)) = sdbm_hash (c ∷ s)
boa_hash djb2 (some (c ∷ s)) = djb2_hash (c ∷ s)
boa_hash fnv1a (some (c ∷ s)) = fnv1a_hash c s

pub record HashStruct : Type 0 where
  pub key : Bytes
  pub value : Bytes

abbrev pub Table : Type 0
Table = List (List HashStruct)

-- The search along a bucket.
abbrev pub find_key : Bytes → List HashStruct → Option HashStruct
find_key key [] = none
find_key key (current ∷ rest) =
    let found = find_key key rest in if bytes_eq current.key key then some current else found

-- A key that is not in the bucket is put at its end, if there is memory for it.
abbrev pub insert_new : Bool → Table → ℕ → HashStruct → Table × Option HashStruct
insert_new false table hash trailer = (table, none)
insert_new true table hash trailer =
    (set table hash (get_or table hash [] ++ trailer ∷ []), some trailer)

-- `room` says that malloc and strdup find memory.
unfoldable pub hash_insert :
    (room : Bool) → Table → ℕ → (key value : Option Bytes) → Table × Option HashStruct
hash_insert room table hash none value = (table, none)
hash_insert room table hash (some []) value = (table, none)
hash_insert room table hash (some (c ∷ key)) none = (table, none)
hash_insert room table hash (some (c ∷ key)) (some []) = (table, none)
hash_insert room table hash (some (c ∷ key)) (some (d ∷ value)) =
    elim (find_key (c ∷ key) (get_or table hash [])) [
      | some current ↦ (table, some current)
      | none ↦ insert_new room table hash (record { key = c ∷ key; value = d ∷ value })
    ]

unfoldable pub hash_find : Table → (key : Option Bytes) → ℕ → Option HashStruct
hash_find table none hash = none
hash_find table (some []) hash = none
hash_find table (some (c ∷ key)) hash = find_key (c ∷ key) (get_or table hash [])

-- The first `size` buckets are freed.
unfoldable pub hash_clear : Table → ℕ → Table
hash_clear [] size = []
hash_clear (bucket ∷ table) zero = bucket ∷ table
hash_clear (bucket ∷ table) (suc size) = [] ∷ hash_clear table size

abbrev entries : Table → ℕ
entries [] = 0
entries (bucket ∷ table) = length bucket + entries table

-- The two totals that are printed.
unfoldable pub hash_show_stats : (mime passwd : Table) → ℕ × ℕ
hash_show_stats mime passwd = (entries mime, entries passwd)

unfoldable pub get_mime_hash_value : HashKind → Option Bytes → ℕ
unfolding boa_hash
get_mime_hash_value kind extension = boa_hash kind extension % mime_hashtable_size

unfoldable pub get_homedir_hash_value : HashKind → Option Bytes → ℕ
unfolding boa_hash
get_homedir_hash_value kind name = boa_hash kind name % passwd_hashtable_size

-- `none` is the end of the program.
unfoldable pub add_mime_type :
    HashKind → (room : Bool) → Table → (extension type : Option Bytes) → Option Table
unfolding get_mime_hash_value hash_insert
add_mime_type kind room table extension type =
    let (table', current) =
      hash_insert room table (get_mime_hash_value kind extension) extension type in
    elim current [ some _ ↦ some table' | none ↦ none ]

-- strrchr: the text from the last c on.
unfoldable pub strrchr : Bytes → ℕ → Option Bytes
strrchr [] c = none
strrchr (x ∷ s) c = elim (strrchr s c) [
  | some found ↦ some found
  | none ↦ if x == c then some (x ∷ s) else none
]

-- What get_mime_type does with the extension, its dot in front.
abbrev pub by_extension : HashKind → (default_type : Bytes) → Table → Option Bytes → Bytes
by_extension kind default_type table none = default_type
by_extension kind default_type table (some []) = default_type
by_extension kind default_type table (some (dot ∷ [])) = default_type
by_extension kind default_type table (some (dot ∷ c ∷ s)) =
    elim (hash_find table (some (c ∷ s)) (get_mime_hash_value kind (some (c ∷ s)))) [
      | some current ↦ current.value
      | none ↦ default_type
    ]

unfoldable pub get_mime_type :
    HashKind → (default_type : Bytes) → Table → (filename : Option Bytes) → Bytes
unfolding strrchr get_mime_hash_value hash_find
get_mime_type kind default_type table none = default_type
get_mime_type kind default_type table (some []) = default_type
get_mime_type kind default_type table (some (c ∷ s)) =
    by_extension kind default_type table (strrchr (c ∷ s) b'.')

abbrev pub value_of : Table × Option HashStruct → Table × Option Bytes
value_of (table, none) = (table, none)
value_of (table, some current) = (table, some current.value)

-- `getpwnam` gives the directory of a user that exists.
unfoldable pub get_home_dir :
    HashKind
    → (getpwnam : Bytes → Option Bytes) → (room : Bool) → Table
    → Bytes
    → Table × Option Bytes
unfolding get_homedir_hash_value hash_find hash_insert
get_home_dir kind getpwnam room table name =
    let hash = get_homedir_hash_value kind (some name) in
    elim (hash_find table (some name) hash) [
      | some current ↦ (table, some current.value)
      | none ↦ elim (getpwnam name) [
        | none ↦ (table, none)
        | some pw_dir ↦ value_of (hash_insert room table hash (some name) (some pw_dir))
      ]
    ]

unfoldable pub dump_mime : Table → Table
unfolding hash_clear
dump_mime table = hash_clear table mime_hashtable_size

unfoldable pub dump_passwd : Table → Table
unfolding hash_clear
dump_passwd table = hash_clear table passwd_hashtable_size
