-- ===== src/Hash/Bucket.antt =====
-- Searching and inserting in a table, whatever the hashes.
use yabwf.Prelude.{
  ℕ, zero, suc, ◌≡◌, ◌<◌, refl, ap, ◌∙◌, sym, Bool, true, false, ◌⊎◌, inl, inr, Bool-cases, List,
  [], ◌∷◌, ◌++◌, Option, none, some, Option-cases, ◌==◌, ==_iff, if◌then◌else◌, arith, Bytes,
  length, get_or, set, length-set, bytes_eq, bytes_eq_sound,
}
use mathlib.Core.Option.{or_else}
use yabwf.Hash.{HashStruct, Table, find_key, hash_insert, hash_find}

abbrev pub only : Bytes → HashStruct → Option HashStruct
only key e = if bytes_eq e.key key then some e else none

find_key-snoc :
    (key : Bytes) (bucket : List HashStruct) (e : HashStruct)
    → find_key key (bucket ++ e ∷ []) ≡ or_else (find_key key bucket) (only key e)
unfolding or_else
find_key-snoc key [] e = refl
find_key-snoc key (x ∷ bucket) e = elim (Bool-cases (bytes_eq x.key key)) [
  | inl h ↦ rw h refl
  | inr h ↦ rw h (find_key-snoc key bucket e)
]

pub find_key_sound :
    (key : Bytes) (bucket : List HashStruct) (e : HashStruct)
    → find_key key bucket ≡ some e
    → e.key ≡ key
find_key_sound key [] e h = cc
find_key_sound key (x ∷ bucket) e h =
    ground (arith, bytes_eq_sound x.key key, find_key_sound key bucket e)

pub get_or-set :
    {A : Type 0} (xs : List A) (i j : ℕ) (v d : A)
    → i < length xs
    → get_or (set xs i v) j d ≡ (if i == j then v else get_or xs j d)
get_or-set [] i j v d h = absurd (omega arith)
get_or-set (x ∷ xs) zero zero v d h = refl
get_or-set (x ∷ xs) zero (suc j) v d h = ground arith
get_or-set (x ∷ xs) (suc i) zero v d h = ground arith
get_or-set (x ∷ xs) (suc i) (suc j) v d h = get_or-set xs i j v d (omega arith) ∙ ground arith

or_else-none : (o : Option HashStruct) → or_else o none ≡ o
unfolding or_else
or_else-none none = refl
or_else-none (some e) = refl

-- Where the key differs nothing is added.
only_other : (key : Bytes) (e : HashStruct) → bytes_eq e.key key ≡ false → only key e ≡ none
only_other key e h = rw h refl

-- A bucket that holds the key already.
find_in_place :
    (table : Table) (hash hash' : ℕ) (key : Bytes) (found e : HashStruct)
    → find_key e.key (get_or table hash []) ≡ some found
    → (e.key ≡ key → hash ≡ hash')
    → find_key key (get_or table hash' [])
      ≡ or_else (find_key key (get_or table hash' [])) (only key e)
unfolding or_else
find_in_place table hash hash' key found e h consistent = elim (Bool-cases (bytes_eq e.key key)) [
  | inl same ↦
      let k : e.key ≡ key = bytes_eq_sound e.key key same in rw (sym (consistent k), sym k, h) refl
  | inr other ↦ sym (
      ap (or_else (find_key key (get_or table hash' []))) (only_other key e other) ∙ or_else-none _)
]

-- The bucket of another key, behind an insertion.
find_behind :
    (table : Table) (hash hash' : ℕ) (key : Bytes) (e : HashStruct)
    → hash < length table
    → (e.key ≡ key → hash ≡ hash')
    → find_key key (get_or (set table hash (get_or table hash [] ++ e ∷ [])) hash' [])
      ≡ or_else (find_key key (get_or table hash' [])) (only key e)
find_behind table hash hash' key e h consistent =
    let bucket = get_or table hash [] in
    let at : Bool → List HashStruct = λ b. if b then bucket ++ e ∷ [] else get_or table hash' [] in
    let placed = get_or-set table hash hash' (bucket ++ e ∷ []) [] h in
    elim (Bool-cases (hash == hash')) [
      | inl same ↦
          ap (find_key key) (placed ∙ ap at same)
          ∙ find_key-snoc key bucket e
          ∙ ap (λ i. or_else (find_key key (get_or table i [])) (only key e))
              ((==_iff hash hash').0 same)
      | inr other ↦
          let differs : bytes_eq e.key key ≡ false = ground (arith, bytes_eq_sound e.key key) in
          ap (find_key key) (placed ∙ ap at other)
          ∙ sym (
              ap (or_else (find_key key (get_or table hash' []))) (only_other key e differs)
              ∙ or_else-none _)
    ]

-- Behind an insertion of a key and a value that are not empty, with memory for them and a hash in the
-- table, a search for a key that is not empty finds what it found before, and where it found nothing,
-- the new entry if that is what it looks for. Equal keys have equal hashes.
pub hash_find-hash_insert :
    (table : Table) (hash hash' c : ℕ) (key : Bytes) (d : ℕ) (value : Bytes) (c' : ℕ) (key' : Bytes)
    → hash < length table
    → (c ∷ key ≡ c' ∷ key' → hash ≡ hash')
    → hash_find
        (hash_insert true table hash (some (c ∷ key)) (some (d ∷ value))).0
        (some (c' ∷ key'))
        hash'
      ≡ or_else
          (hash_find table (some (c' ∷ key')) hash')
          (only (c' ∷ key') (record { key = c ∷ key; value = d ∷ value }))
unfolding hash_find hash_insert
hash_find-hash_insert table hash hash' c key d value c' key' h consistent =
    let e : HashStruct = record { key = c ∷ key; value = d ∷ value } in
    elim (Option-cases (find_key (c ∷ key) (get_or table hash []))) [
      | inl absent ↦
          rw (absent, hash_insert) (find_behind table hash hash' (c' ∷ key') e h consistent)
      | inr (found, present) ↦
          rw (present, hash_insert)
            (find_in_place table hash hash' (c' ∷ key') found e present consistent)
    ]

-- With memory, a key and a value that are not empty are stored, or were, and the number of buckets
-- stays.
pub hash_insert-some :
    (table : Table) (hash c : ℕ) (key : Bytes) (d : ℕ) (value : Bytes)
    → (e : HashStruct) × ((hash_insert true table hash (some (c ∷ key)) (some (d ∷ value))).1
        ≡ some e)
      × (length (hash_insert true table hash (some (c ∷ key)) (some (d ∷ value))).0 ≡ length table)
unfolding hash_insert
hash_insert-some table hash c key d value =
    elim (Option-cases (find_key (c ∷ key) (get_or table hash []))) [
      | inl absent ↦
          let e : HashStruct = record { key = c ∷ key; value = d ∷ value } in
          (
            e,
            rw (absent, hash_insert) refl,
            rw (absent, hash_insert, length)
                (length-set table hash (get_or table hash [] ++ e ∷ [])),
          )
      | inr (e, present) ↦
          (e, rw (present, hash_insert) refl, rw (present, hash_insert, length) refl)
    ]

pub hash_insert_new :
    (table : Table) (hash c : ℕ) (key : Bytes) (d : ℕ) (value : Bytes)
    → hash_find table (some (c ∷ key)) hash ≡ none
    → (hash_insert true table hash (some (c ∷ key)) (some (d ∷ value))).1
      ≡ some (record { key = c ∷ key; value = d ∷ value })
unfolding hash_find hash_insert
hash_insert_new table hash c key d value absent = rw (absent, hash_insert) refl

-- An entry that is found behind an insertion is an old one or the new one.
pub found-cases :
    (o : Option HashStruct) (key : Bytes) (new e : HashStruct)
    → or_else o (only key new) ≡ some e
    → (o ≡ some e) ⊎ ((new.key ≡ key) × (new ≡ e))
unfolding or_else
found-cases (some x) key new e h = inl h
found-cases none key new e h = elim (Bool-cases (bytes_eq new.key key)) [
  | inl same ↦ inr (bytes_eq_sound new.key key same, ground arith)
  | inr other ↦ absurd (ground arith)
]

-- A table of `n` empty buckets, as a static array is at the start.
abbrev pub no_entries : ℕ → Table
no_entries zero = []
no_entries (suc n) = [] ∷ no_entries n

get_or-no_entries : (n i : ℕ) → get_or (no_entries n) i [] ≡ []
get_or-no_entries zero i = refl
get_or-no_entries (suc n) zero = refl
get_or-no_entries (suc n) (suc i) = get_or-no_entries n i

pub hash_find-no_entries :
    (n i c : ℕ) (key : Bytes) → hash_find (no_entries n) (some (c ∷ key)) i ≡ none
unfolding hash_find
hash_find-no_entries n i c key = ap (find_key (c ∷ key)) (get_or-no_entries n i)
