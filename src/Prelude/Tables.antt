-- ===== src/Prelude/Tables.antt =====
-- Facts about small ranges, checked value by value.
use Prim.Native.Nat.{ℕ, zero, suc, ◌<◌}
use mathlib.Core.Path.{◌≡◌}
use mathlib.Core.Logic.{◌⊎◌}
use mathlib.Core.Bool.{Bool, true, ◌&&◌}
use native.Mathlib.Omega.{arith}

-- The widths of an unsigned long.
abbrev pub IsWidth : ℕ → Type 0
IsWidth bits = (bits ≡ 32) ⊎ (bits ≡ 64)

-- A test holds of the numbers below `size`.
unfoldable pub every_entry : ℕ → (ℕ → Bool) → Bool
every_entry (suc size) test = every_entry size test && test size
every_entry zero test = true

pub table_entry :
    (size : ℕ) (test : ℕ → Bool) (k : ℕ) → every_entry size test ≡ true → k < size → test k ≡ true
unfolding every_entry
table_entry (suc size) test k holds below = ground (arith, table_entry size test k)
table_entry zero test k holds below = absurd (omega arith)
