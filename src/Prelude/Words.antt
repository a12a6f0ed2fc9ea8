-- ===== src/Prelude/Words.antt =====
-- Unsigned 64-bit arithmetic (`u64`, and `usize` on the host), in the release profile: `+` wraps.
use Prim.Native.Nat.{ℕ, ◌+◌, ◌*◌, ◌%◌, min}
use mathlib.Core.List.{List, [], ◌∷◌}

abbrev pub u64_mod : ℕ
u64_mod = 18446744073709551616

abbrev pub u64_max : ℕ
u64_max = 18446744073709551615

abbrev pub wrap64 : ℕ → ℕ
wrap64 n = n % u64_mod

-- `saturating_add`
abbrev pub saturating_add : ℕ → ℕ → ℕ
saturating_add a b = min (a + b) u64_max

-- `u64::from_le_bytes`
abbrev pub from_le_bytes : List ℕ → ℕ
from_le_bytes [] = 0
from_le_bytes (b ∷ bs) = b + 256 * from_le_bytes bs
