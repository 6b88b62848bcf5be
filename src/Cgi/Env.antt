-- ===== src/Cgi/Env.antt =====
-- The bound on the arguments that create_argv of src/cgi.c makes of a query.

use yabwf.Prelude.{
  ℕ, ◌+◌, ◌≤◌, false, List, [], ◌∷◌, Option, none, some, leb, if_split, Bytes, has_byte, length,
  arith,
}
use yabwf.Util.Uri.{unescape_uri}
use yabwf.Cgi.{cgi_argc_max, split_plus, decode_words, create_argv}

decode_words-bounds :
    (n : ℕ) (ws : List Bytes) → n ≤ cgi_argc_max → n + length (decode_words n ws) ≤ cgi_argc_max
decode_words-bounds n [] h = omega (arith, h)
decode_words-bounds n (w ∷ ws) h =
    let r = unescape_uri false w in
    let P : List Bytes → Type 0 = λ l. n + length l ≤ cgi_argc_max in
    if_split P (leb cgi_argc_max n) (λ _. omega (arith, h))
      (λ more.
        if_split P r.success
          (λ _. let rest = decode_words-bounds (n + 1) ws (ground arith) in omega (arith, rest))
          (λ _. decode_words-bounds n ws h))

-- A program gets at most 128 arguments with its path, whatever the query: the array has room for
-- these and the null pointer behind them.
create_argv-bounds :
    (path : Bytes) (query : Option Bytes) → length (create_argv path query) ≤ cgi_argc_max
unfolding create_argv
create_argv-bounds path none = omega arith
create_argv-bounds path (some q) =
    let P : List Bytes → Type 0 = λ l. length (path ∷ l) ≤ cgi_argc_max in
    if_split P (has_byte b'=' q) (λ _. omega arith)
      (λ _.
        let some_fit = decode_words-bounds 1 (split_plus q) (omega arith) in
        omega (arith, some_fit))
