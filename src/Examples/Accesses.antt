-- ===== src/Examples/Accesses.antt =====
-- The theorem on src/access.c at a concrete input.
use yabwf.Prelude.{[], ◌∷◌, codes, starts_with}
use yabwf.Access.{access_deny, access_allowed, access_init, access_allow}
use yabwf.Access.FirstMatch.{IsDecided, access_add_all, access_allow-IsDecided}

-- With patterns `p*`, written without the star, for fnmatch.
access_allow-IsDecided_example :
    IsDecided starts_with
      (codes "/a/b")
      ((codes "/b", access_allowed) ∷ (codes "/a", access_deny) ∷ (codes "/", access_allowed) ∷ [])
      (access_allow starts_with
        (access_add_all
          ((codes "/b", access_allowed)
            ∷ (codes "/a", access_deny)
            ∷ (codes "/", access_allowed)
            ∷ [])
          (access_init []))
        (codes "/a/b"))
access_allow-IsDecided_example =
    access_allow-IsDecided starts_with (codes "/a/b")
      ((codes "/b", access_allowed) ∷ (codes "/a", access_deny) ∷ (codes "/", access_allowed) ∷ [])
      []
