-- ===== src/Bits/Step.antt =====
-- One binary digit of `bit_or` and `bit_and`, without the fuel of their definition.
use Prim.Native.Nat.{digits, bitwise, bit_and-bitwise, bit_or-bitwise}
use native.Mathlib.Nat.{le_refl}
use picoalloc.Base.{
  ℕ, zero, suc, ◌+◌, ◌*◌, ◌/◌, ◌%◌, ◌≤◌, min, max, bit_and, bit_or, ◌≡◌, refl, arith,
}

module _ (base : ℕ → ℕ) (digit : ℕ → ℕ → ℕ) where
  enough_fuel : (k l x y : ℕ) → x ≤ k → x ≤ l → digits base digit k x y ≡ digits base digit l x y
  enough_fuel zero zero x y hk hl = refl
  enough_fuel zero (suc l) zero y hk hl = refl
  enough_fuel zero (suc l) (suc x) y hk hl = absurd (omega arith)
  enough_fuel (suc k) zero zero y hk hl = refl
  enough_fuel (suc k) zero (suc x) y hk hl = absurd (omega arith)
  enough_fuel (suc k) (suc l) zero y hk hl = refl
  enough_fuel (suc k) (suc l) (suc x) y hk hl =
      rw (enough_fuel k l (suc x / 2) (y / 2) (omega arith) (omega arith))

  lowest_digit :
      (x y : ℕ)
      → bitwise base digit (suc x) y
        ≡ bitwise base digit (suc x / 2) (y / 2) * 2 + digit (suc x % 2) (y % 2)
  lowest_digit x y =
      omega (arith, enough_fuel x (suc x / 2) (suc x / 2) (y / 2) (omega arith) (le_refl _))

pub bit_or_digit : (x y : ℕ) → bit_or x y ≡ bit_or (x / 2) (y / 2) * 2 + max (x % 2) (y % 2)
bit_or_digit zero y = simp bit_or-bitwise (omega arith)
bit_or_digit (suc x) y = simp bit_or-bitwise (lowest_digit (λ y. y) max x y)

pub bit_and_digit : (x y : ℕ) → bit_and x y ≡ bit_and (x / 2) (y / 2) * 2 + min (x % 2) (y % 2)
bit_and_digit zero y = simp bit_and-bitwise (omega arith)
bit_and_digit (suc x) y = simp bit_and-bitwise (lowest_digit (λ y. 0) min x y)

pub zero-bit_and : (y : ℕ) → bit_and 0 y ≡ 0
zero-bit_and y = bit_and-bitwise 0 y

pub zero-bit_or : (y : ℕ) → bit_or 0 y ≡ y
zero-bit_or y = bit_or-bitwise 0 y
