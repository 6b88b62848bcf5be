-- ===== src/Hash/Prefix.antt =====
-- A hash is an unsigned int and depends on the first bytes alone.
use yabwf.Prelude.{ℕ, zero, suc, ◌^◌, ◌≡◌, ◌≢◌, ◌<◌, refl, [], ◌∷◌, some, arith, Bytes}
use yabwf.Hash.{
  HashKind, sdbm, djb2, fnv1a, max_hash_length, fnv1a_round, sdbm_round, djb2_round, hash_loop,
  boa_hash,
}

hash_loop_lt :
    (round : ℕ → ℕ → ℕ) (count hash : ℕ) (s : Bytes)
    → ((h c : ℕ) → round h c < 2 ^ 32)
    → hash < 2 ^ 32
    → hash_loop round count hash s < 2 ^ 32
hash_loop_lt round zero hash s f h = h
hash_loop_lt round (suc count) hash [] f h = h
hash_loop_lt round (suc count) hash (c ∷ s) f h =
    hash_loop_lt round count (round hash c) s f (f hash c)

-- The hash of a text that is not empty is below 2 ^ 32. It depends on the first four bytes for sdbm_hash and djb2_hash, and for
-- fnv1a_hash on the first five, one more than MAX_HASH_LENGTH, as its loop tests behind a round.
boa_hash_prefix :
    (kind : HashKind) (a b c d e : ℕ) (s : Bytes)
    → (boa_hash kind (some (a ∷ s)) < 2 ^ 32)
      × (boa_hash sdbm (some (a ∷ b ∷ c ∷ d ∷ s)) ≡ boa_hash sdbm (some (a ∷ b ∷ c ∷ d ∷ [])))
      × (boa_hash djb2 (some (a ∷ b ∷ c ∷ d ∷ s)) ≡ boa_hash djb2 (some (a ∷ b ∷ c ∷ d ∷ [])))
      × (boa_hash fnv1a (some (a ∷ b ∷ c ∷ d ∷ e ∷ s))
          ≡ boa_hash fnv1a (some (a ∷ b ∷ c ∷ d ∷ e ∷ [])))
unfolding boa_hash
boa_hash_prefix kind a b c d e s = (bounded kind, refl, refl, refl)
  where
    bounded : (kind : HashKind) → boa_hash kind (some (a ∷ s)) < 2 ^ 32
    bounded sdbm =
        hash_loop_lt sdbm_round max_hash_length 0 (a ∷ s) (λ h c. omega arith) (omega arith)
    bounded djb2 =
        hash_loop_lt djb2_round max_hash_length 5381 (a ∷ s) (λ h c. omega arith) (omega arith)
    bounded fnv1a =
        hash_loop_lt fnv1a_round max_hash_length (fnv1a_round 2166136261 a) s (λ h c. omega arith)
          (omega arith)

-- fnv1a_hash tells texts apart by their fifth byte.
fifth_byte :
    boa_hash fnv1a (some (b'a' ∷ b'a' ∷ b'a' ∷ b'a' ∷ b'a' ∷ []))
    ≢ boa_hash fnv1a (some (b'a' ∷ b'a' ∷ b'a' ∷ b'a' ∷ b'b' ∷ []))
unfolding boa_hash
fifth_byte = omega arith
