-- ===== src/Examples/Pages.antt =====
-- The theorems on src/index_dir.c at concrete inputs.
use yabwf.Prelude.{◌≡◌, ◌≤◌, true, some, Bytes, codes, length}
use yabwf.IndexDir.{http_escape_string}
use yabwf.IndexDir.Names.{IsRelative, http_escape_string-IsRelative}

http_escape_string-IsRelative_example :
    (out : Bytes) × (http_escape_string 64 true true (codes "a b:c") 5 ≡ some out)
    × (length out ≤ 15)
    × IsRelative out
http_escape_string-IsRelative_example = http_escape_string-IsRelative 64 true (codes "a b:c")
