-- ===== src/Access.antt =====
-- src/access.c: the list of rules that allow or deny a file. `nodes` is the list, `n_access` its
-- length; fnmatch is the C library's and a parameter.
pub mod FirstMatch
use yabwf.Prelude.{ℕ, Bool, List, [], ◌∷◌, ◌++◌, Bytes, length, ◌==◌, not, if◌then◌else◌}

-- enum access_type
pub data AccessType : Type 0 where
  access_deny access_allowed : AccessType

pub record AccessNode : Type 0 where
  pub pattern : Bytes
  pub type : AccessType

-- The patterns are freed.
access_shutdown : List AccessNode → List AccessNode
access_shutdown nodes = []

unfoldable pub access_init : List AccessNode → List AccessNode
unfolding access_shutdown
access_init nodes = if not (length nodes == 0) then access_shutdown nodes else nodes

-- realloc and strdup succeed, as the program ends otherwise.
unfoldable pub access_add : Bytes → AccessType → List AccessNode → List AccessNode
access_add pattern type nodes = nodes ++ record { pattern = pattern; type = type } ∷ []

-- `fnmatch pattern file` says that fnmatch(pattern, file, 0) is 0.
unfoldable pub access_allow :
    (fnmatch : Bytes → Bytes → Bool) → List AccessNode → Bytes → AccessType
access_allow fnmatch [] file = access_allowed
access_allow fnmatch (node ∷ nodes) file =
    let rest = access_allow fnmatch nodes file in
    if fnmatch node.pattern file then node.type else rest
