-- ===== src/Access/FirstMatch.antt =====
-- The first rule that matches a file decides.
use yabwf.Prelude.{
  ◌≡◌, refl, ap, ◌∙◌, sym, Bool, true, false, ◌⊎◌, inl, inr, Bool-cases, List, [], ◌∷◌, ◌++◌,
  append-nil, append_assoc, Bytes, All, arith, arith,
}
use mathlib.Core.Path.{subst}
use yabwf.Access.{AccessType, access_allowed, AccessNode, access_init, access_add, access_allow}

-- The rules of a configuration file, added in turn to what access_init leaves.
abbrev pub access_add_all : List (Bytes × AccessType) → List AccessNode → List AccessNode
access_add_all [] nodes = nodes
access_add_all ((pattern, type) ∷ rules) nodes =
    access_add_all rules (access_add pattern type nodes)

module _ (fnmatch : Bytes → Bytes → Bool) (file : Bytes) where
  -- The decision is that of a rule that matches and has no match in front of it, or there is no match.
  abbrev pub IsDecided : List (Bytes × AccessType) → AccessType → Type 0
  IsDecided rules type =
      ((before : List (Bytes × AccessType)) × (pattern : Bytes) × (after : List
          (Bytes × AccessType))
        × (rules ≡ before ++ (pattern, type) ∷ after)
        × All (λ rule. fnmatch rule.0 file ≡ false) before
        × (fnmatch pattern file ≡ true))
      ⊎ (All (λ rule. fnmatch rule.0 file ≡ false) rules × (type ≡ access_allowed))

  abbrev nodes_of : List (Bytes × AccessType) → List AccessNode
  nodes_of [] = []
  nodes_of ((pattern, type) ∷ rules) = record { pattern = pattern; type = type } ∷ nodes_of rules

  add_all-nodes_of :
      (rules : List (Bytes × AccessType)) (nodes : List AccessNode)
      → access_add_all rules nodes ≡ nodes ++ nodes_of rules
  unfolding access_add
  add_all-nodes_of [] nodes = sym (append-nil nodes)
  add_all-nodes_of ((pattern, type) ∷ rules) nodes =
      add_all-nodes_of rules _ ∙ append_assoc nodes _ (nodes_of rules)

  decides :
      (rules : List (Bytes × AccessType))
      → IsDecided rules (access_allow fnmatch (nodes_of rules) file)
  unfolding access_allow
  decides [] = inr (tt, refl)
  decides ((pattern, type) ∷ rules) = elim (Bool-cases (fnmatch pattern file)) [
    | inl e ↦
        subst (IsDecided ((pattern, type) ∷ rules)) (here e) (inl ([], pattern, rules, refl, tt, e))
    | inr e ↦ subst (IsDecided ((pattern, type) ∷ rules)) (further e) (behind (decides rules) e)
  ]
    where
      here :
          fnmatch pattern file ≡ true
          → type ≡ access_allow fnmatch (nodes_of ((pattern, type) ∷ rules)) file
      here e = rw e refl

      further :
          fnmatch pattern file ≡ false
          → access_allow fnmatch (nodes_of rules) file
            ≡ access_allow fnmatch (nodes_of ((pattern, type) ∷ rules)) file
      further e = rw e refl

      behind :
          {t : AccessType}
          → IsDecided rules t
          → fnmatch pattern file ≡ false
          → IsDecided ((pattern, type) ∷ rules) t
      behind (inl (before, p, after, split, none_before, here)) e = inl (
        (pattern, type) ∷ before,
        p,
        after,
        ap (◌∷◌ (pattern, type)) split,
        (e, none_before),
        here,
      )
      behind (inr (nowhere, default)) e = inr ((e, nowhere), default)

access_init-nil : (old : List AccessNode) → access_init old ≡ []
unfolding access_init
access_init-nil [] = refl
access_init-nil (node ∷ old) = ground arith

-- Behind access_init, whatever rules there were, access_allow decides by the rules added since: by
-- the first that matches the file, in the order they were added, and where none matches the file is
-- allowed. This holds of every fnmatch.
pub access_allow-IsDecided :
    (fnmatch : Bytes → Bytes → Bool) (file : Bytes) (rules : List (Bytes × AccessType))
    (old : List AccessNode)
    → IsDecided fnmatch file rules
        (access_allow fnmatch (access_add_all rules (access_init old)) file)
access_allow-IsDecided fnmatch file rules old =
    subst (λ nodes. IsDecided fnmatch file rules (access_allow fnmatch nodes file))
      (sym
        (ap (access_add_all rules) (access_init-nil old) ∙ add_all-nodes_of fnmatch file rules []))
      (decides fnmatch file rules)
