-- ===== src/Escape/Table.antt =====
-- The bit table says which bytes pass unescaped, for both widths of an unsigned long.
use yabwf.Prelude.{
  ℕ, Bool, true, not, ◌||◌, leb, ◌≡◌, refl, inl, inr, codes, is_alnum, has_byte, every_entry,
  table_entry, IsWidth, arith, if◌then◌else◌, Bool-cases,
}
use yabwf.Escape.{needs_escape, build_needs_escape}

-- The grammar in the comment of escape.c, with the question mark that the code adds.
abbrev pub no_escape : ℕ → Bool
no_escape c = is_alnum c || has_byte c (codes "-_.!~*'():@&=+$,/?")

abbrev agrees : ℕ → ℕ → Bool
agrees bits c =
    if needs_escape bits (build_needs_escape bits) c then not (no_escape c) else no_escape c

table_32 : every_entry 128 (agrees 32) ≡ true
unfolding every_entry needs_escape build_needs_escape
table_32 = refl

table_64 : every_entry 128 (agrees 64) ≡ true
unfolding every_entry needs_escape build_needs_escape
table_64 = refl

-- The bit table that build_needs_escape fills marks exactly the bytes outside the grammar of the
-- comment and '?', for an unsigned long of 32 and of 64 bits, and every byte from 128 up.
pub needs_escape-build :
    (bits c : ℕ) → IsWidth bits → needs_escape bits (build_needs_escape bits) c ≡ not (no_escape c)
needs_escape-build bits c w = elim (Bool-cases (leb 128 c)) [
  | inl e ↦ unfold needs_escape in rw e (ground arith)
  | inr e ↦ elim w [
    | inl w32 ↦ rw w32 (ground (arith, table_entry 128 (agrees 32) c table_32))
    | inr w64 ↦ rw w64 (ground (arith, table_entry 128 (agrees 64) c table_64))
  ]
]
