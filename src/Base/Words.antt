-- ===== src/Base/Words.antt =====
-- Machine words of the 32-bit ARM target that compile.sh builds for (ARCH=arm): `unsigned long
-- long` has 64 bits, `long` and `unsigned long` have 32. A word is the number of its bit pattern.
use Prim.Native.Nat.{ℕ, ◌+◌, ◌-◌, ◌%◌, ◌^◌}
use mathlib.Core.Bool.{Bool}
use mixed_trust_zsrmv_public.Base.Tests.{ltb, leb, if◌then◌else◌}

abbrev pub u32 : ℕ → ℕ
u32 n = n % 2 ^ 32

abbrev pub u64 : ℕ → ℕ
u64 n = n % 2 ^ 64

-- a - b on `unsigned long long`
abbrev pub sub_u64 : ℕ → ℕ → ℕ
sub_u64 a b = (a + 2 ^ 64 - b) % 2 ^ 64

-- n-- on `unsigned int`
abbrev pub pred_u32 : ℕ → ℕ
pred_u32 n = (n + 2 ^ 32 - 1) % 2 ^ 32

-- the sign of a `long`
abbrev pub is_negative_long : ℕ → Bool
is_negative_long n = leb (2 ^ 31) n

-- the conversion of a `long` to `unsigned long long`, which copies the sign bit
abbrev pub long_to_u64 : ℕ → ℕ
long_to_u64 n = if ltb n (2 ^ 31) then n else n + (2 ^ 64 - 2 ^ 32)
