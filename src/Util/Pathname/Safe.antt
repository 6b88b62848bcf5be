-- ===== src/Util/Pathname/Safe.antt =====
-- A cleaned path holds no empty and no dot component before a slash, and cleaning it again
-- changes nothing.
use yabwf.Prelude.{
  ℕ, zero, suc, ◌≡◌, refl, ap, Bool-cases, ==_iff, inl, inr, false, [], ◌∷◌, ◌==◌, if◌then◌else◌,
  arith, Bytes, codes, peek, contains, drop,
}
use yabwf.Util.Pathname.{round, skip_len, clean_from, clean_pathname}

clean_from-drop : (k : ℕ) (s : Bytes) → clean_from k s ≡ clean_from 0 (drop k s)
unfolding clean_from
clean_from-drop zero s = refl
clean_from-drop (suc k) [] = refl
clean_from-drop (suc k) (c ∷ s) = clean_from-drop k s

-- The inner loop ends at a text that it would not step over.
round-drop : (k : ℕ) (s : Bytes) → round (drop (skip_len k s) s) ≡ 0
unfolding skip_len
round-drop k [] = unfold round in refl
round-drop (suc k) (c ∷ s) = round-drop k s
round-drop zero (c ∷ s) = go (round (c ∷ s)) refl λ k. round-drop k s
  where
    go :
        (r : ℕ)
        → round (c ∷ s) ≡ r
        → ((k : ℕ) → round (drop (skip_len k s) s) ≡ 0)
        → round (drop (skip_len zero (c ∷ s)) (c ∷ s)) ≡ 0
    go zero e later = rw (e, skip_len) e
    go (suc k) e later = rw (e, skip_len) (later k)

skip_len-eq-zero : (s : Bytes) → round s ≡ 0 → skip_len 0 s ≡ 0
unfolding skip_len
skip_len-eq-zero [] h = refl
skip_len-eq-zero (c ∷ s) h = rw (h, skip_len)

peek-clean_from : (s : Bytes) → peek (clean_from 0 s) ≡ peek s
unfolding clean_from
peek-clean_from [] = refl
peek-clean_from (c ∷ s) = refl

round-clean_from : (s : Bytes) → round s ≡ 0 → round (clean_from 0 s) ≡ 0
unfolding clean_from round
round-clean_from [] h = refl
round-clean_from (a ∷ []) h = ground arith
round-clean_from (a ∷ b ∷ s) h = ground (arith, peek-clean_from s)

-- What follows each slash is not stepped over.
abbrev Settled : Bytes → Type 0
Settled [] = Unit
Settled (c ∷ s) = (c ≡ b'/' → round s ≡ 0) × Settled s

clean_from-Settled : (k : ℕ) (s : Bytes) → Settled (clean_from k s)
unfolding clean_from
clean_from-Settled k [] = tt
clean_from-Settled (suc k) (c ∷ s) = clean_from-Settled k s
clean_from-Settled zero (c ∷ s) = (λ e. behind_slash e, clean_from-Settled _ s)
  where
    behind_slash : c ≡ b'/' → round (clean_from (if c == b'/' then skip_len 0 s else 0) s) ≡ 0
    behind_slash e =
        rw (e, clean_from-drop (skip_len 0 s) s)
          (round-clean_from (drop (skip_len 0 s) s) (round-drop 0 s))

Settled-lacks_slashes : (s : Bytes) → Settled s → contains (codes "//") s ≡ false
unfolding round
Settled-lacks_slashes [] h = refl
Settled-lacks_slashes (c ∷ []) h = ground arith
Settled-lacks_slashes (c ∷ d ∷ s) (h, t) = ground (arith, Settled-lacks_slashes (d ∷ s) t)

Settled-lacks_dot : (s : Bytes) → Settled s → contains (codes "/./") s ≡ false
unfolding round
Settled-lacks_dot [] h = refl
Settled-lacks_dot (c ∷ []) h = ground arith
Settled-lacks_dot (c ∷ d ∷ []) h = ground arith
Settled-lacks_dot (c ∷ d ∷ e ∷ s) (h, t) = ground (arith, Settled-lacks_dot (d ∷ e ∷ s) t)

Settled-lacks_dots : (s : Bytes) → Settled s → contains (codes "/../") s ≡ false
unfolding round
Settled-lacks_dots [] h = refl
Settled-lacks_dots (c ∷ []) h = ground arith
Settled-lacks_dots (c ∷ d ∷ []) h = ground arith
Settled-lacks_dots (c ∷ d ∷ e ∷ []) h = ground arith
Settled-lacks_dots (c ∷ d ∷ e ∷ f ∷ s) (h, t) = ground (arith, Settled-lacks_dots (d ∷ e ∷ f ∷ s) t)

clean_from-eq_of_Settled : (s : Bytes) → Settled s → clean_from 0 s ≡ s
unfolding clean_from
clean_from-eq_of_Settled [] h = refl
clean_from-eq_of_Settled (c ∷ s) (h, t) = elim (Bool-cases (c == b'/')) [
  | inl e ↦
      rw (e, skip_len-eq-zero s (h ((==_iff c b'/').0 e)))
        (ap (◌∷◌ c) (clean_from-eq_of_Settled s t))
  | inr e ↦ rw e (ap (◌∷◌ c) (clean_from-eq_of_Settled s t))
]

lacks-Settled :
    (s : Bytes)
    → contains (codes "//") s ≡ false
    → contains (codes "/./") s ≡ false
    → contains (codes "/../") s ≡ false
    → Settled s
unfolding round
lacks-Settled [] h i j = tt
lacks-Settled (c ∷ []) h i j = (λ e. refl, tt)
lacks-Settled (c ∷ d ∷ []) h i j = (λ e. ground arith, (λ e. refl, tt))
lacks-Settled (c ∷ d ∷ e ∷ []) h i j =
    (λ e. ground arith, lacks-Settled (d ∷ e ∷ []) (ground arith) (ground arith) (ground arith))
lacks-Settled (c ∷ d ∷ e ∷ f ∷ s) h i j =
    (λ e. ground arith, lacks-Settled (d ∷ e ∷ f ∷ s) (ground arith) (ground arith) (ground arith))

-- No cleaned path holds "//", "/./" or "/../", whatever text it was made from.
pub clean_pathname_safe :
    (s : Bytes)
    → (contains (codes "//") (clean_pathname s) ≡ false)
      × (contains (codes "/./") (clean_pathname s) ≡ false)
      × (contains (codes "/../") (clean_pathname s) ≡ false)
unfolding clean_pathname
clean_pathname_safe s =
    let settled = clean_from-Settled 0 s in
    (Settled-lacks_slashes _ settled, Settled-lacks_dot _ settled, Settled-lacks_dots _ settled)

-- A path that holds none of "//", "/./" and "/../" is left as it is.
clean_pathname_unchanged :
    (s : Bytes)
    → contains (codes "//") s ≡ false
    → contains (codes "/./") s ≡ false
    → contains (codes "/../") s ≡ false
    → clean_pathname s ≡ s
unfolding clean_pathname
clean_pathname_unchanged s h i j = clean_from-eq_of_Settled s (lacks-Settled s h i j)

-- Cleaning is idempotent.
pub clean_pathname-clean_pathname :
    (s : Bytes) → clean_pathname (clean_pathname s) ≡ clean_pathname s
clean_pathname-clean_pathname s =
    let (h, i, j) = clean_pathname_safe s in clean_pathname_unchanged (clean_pathname s) h i j
