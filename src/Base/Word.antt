-- ===== src/Base/Word.antt =====
-- Machine words as native numbers: the wrap of each width, shifts, and the two counts of zeros
-- that the crate takes from the `core` integer types.
use Prim.Native.Nat.{ℕ, zero, suc, ◌*◌, ◌/◌, ◌%◌, ◌^◌}
use mathlib.Core.Bool.{Bool, false}
use picoalloc.Base.Tests.{◌==◌, if◌then◌else◌}

abbrev pub u32_mod : ℕ
u32_mod = 2 ^ 32

abbrev pub u64_mod : ℕ
u64_mod = 2 ^ 64

abbrev pub u32 : ℕ → ℕ
u32 n = n % u32_mod

abbrev pub u64 : ℕ → ℕ
u64 n = n % u64_mod

abbrev pub u32_max : ℕ
u32_max = 0xffff_ffff

abbrev pub u64_max : ℕ
u64_max = 0xffff_ffff_ffff_ffff

abbrev pub shl : ℕ → ℕ → ℕ
shl x k = x * 2 ^ k

abbrev pub shr : ℕ → ℕ → ℕ
shr x k = x / 2 ^ k

-- `x.leading_zeros()` at a width: the zero bits above the highest set bit.
unfoldable pub leading_zeros : ℕ → ℕ → ℕ
leading_zeros zero x = 0
leading_zeros (suc w) x = let rest = leading_zeros w x in if shr x w % 2 == 1 then 0 else suc rest

-- `x.trailing_zeros()` at a width: the zero bits below the lowest set bit, the width at 0.
unfoldable pub trailing_zeros : ℕ → ℕ → ℕ
trailing_zeros zero x = 0
trailing_zeros (suc w) x = let rest = trailing_zeros w (x / 2) in if x % 2 == 1 then 0 else suc rest

-- `x.is_power_of_two()` of a word: exactly one bit is set.
unfoldable pub is_power_of_two : ℕ → ℕ → Bool
is_power_of_two zero x = false
is_power_of_two (suc w) x =
    let rest = is_power_of_two w (x / 2) in if x % 2 == 1 then x == 1 else rest
