-- ===== src/Base/Words.antt =====
-- Machine integers: the bounds of the Rust widths, checked addition, narrowing conversions, and
-- little-endian bytes. `usize` is that of a 64-bit target.
use Prim.Native.Nat.{ℕ, zero, suc, ◌+◌, ◌-◌, ◌*◌, ◌/◌, ◌%◌, ◌≤◌}
use mathlib.Core.Path.{◌≡◌, refl, ap}
use mathlib.Core.Option.{Option, none, some}
use mathlib.Core.List.{List, [], ◌∷◌}
use native.Mathlib.Omega.{arith}
use mnesis.Base.Tests.{leb, if◌then◌else◌}
use mnesis.Base.Lists.{length}

abbrev pub u8_max : ℕ
u8_max = 255

abbrev pub u16_max : ℕ
u16_max = 65535

abbrev pub u32_max : ℕ
u32_max = 4294967295

abbrev pub u64_max : ℕ
u64_max = 18446744073709551615

abbrev pub usize_max : ℕ
usize_max = u64_max

-- `a.checked_add(b)` at the width whose largest value is `top`.
abbrev pub checked_add : ℕ → ℕ → ℕ → Option ℕ
checked_add top a b = if leb (a + b) top then some (a + b) else none

-- `a.checked_sub(b)`.
abbrev pub checked_sub : ℕ → ℕ → Option ℕ
checked_sub a b = if leb b a then some (a - b) else none

-- `T::try_from(n).ok()` into the width whose largest value is `top`.
abbrev pub try_from : ℕ → ℕ → Option ℕ
try_from top n = if leb n top then some n else none

-- `n.to_le_bytes()` at a width of `k` bytes.
unfoldable pub to_le_bytes : ℕ → ℕ → List ℕ
to_le_bytes zero n = []
to_le_bytes (suc k) n = (n % 256) ∷ to_le_bytes k (n / 256)

unfoldable pub from_le_bytes : List ℕ → ℕ
from_le_bytes [] = 0
from_le_bytes (b ∷ bs) = b + 256 * from_le_bytes bs

pub length-to_le_bytes : (k n : ℕ) → length (to_le_bytes k n) ≡ k
unfolding to_le_bytes
length-to_le_bytes zero n = refl
length-to_le_bytes (suc k) n = ap suc (length-to_le_bytes k (n / 256))

pub from-to_le_bytes_4 : (n : ℕ) → n ≤ u32_max → from_le_bytes (to_le_bytes 4 n) ≡ n
unfolding to_le_bytes from_le_bytes
from-to_le_bytes_4 n h = omega arith

pub from-to_le_bytes_2 : (n : ℕ) → n ≤ u16_max → from_le_bytes (to_le_bytes 2 n) ≡ n
unfolding to_le_bytes from_le_bytes
from-to_le_bytes_2 n h = omega arith
