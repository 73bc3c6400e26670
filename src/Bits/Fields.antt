-- ===== src/Bits/Fields.antt =====
-- Masks of low and of high bits as remainders and multiples, and `|` of disjoint fields as a sum.
use native.Mathlib.Nat.{div-div-eq-div-mul, div-add-mod', mod-lt, mod-eq_of_lt, pow-le-pow_right}
use picoalloc.Base.{
  ℕ, zero, suc, ◌+◌, ◌-◌, ◌*◌, ◌/◌, ◌%◌, ◌^◌, ◌≤◌, ◌<◌, bit_and, bit_or, ◌≡◌, refl, sym, ap, ◌∙◌,
  arith, pow-suc, one-le-pow,
}
use picoalloc.Bits.Step.{bit_or_digit, bit_and_digit}

pub two-pow-pos : (k : ℕ) → 0 < 2 ^ k
two-pow-pos k = one-le-pow k 2 (omega arith)

pub two-pow_mono : (j k : ℕ) → j ≤ k → 2 ^ j ≤ 2 ^ k
two-pow_mono j k h = pow-le-pow_right (omega arith) h

double_multiple : (q k : ℕ) → q * 2 ^ suc k ≡ q * 2 ^ k * 2
double_multiple q k = omega (arith, ap (λ (t : ℕ). q * t) (pow-suc 2 k))

-- The bound `f` on the word gives the recursion its fuel.
bit_and-zero_fuel : (f n : ℕ) → n ≤ f → bit_and n 0 ≡ 0
bit_and-zero_fuel f zero h = refl
bit_and-zero_fuel zero (suc n) h = absurd (omega arith)
bit_and-zero_fuel (suc f) (suc n) h =
    omega (arith, bit_and_digit (suc n) 0, bit_and-zero_fuel f (suc n / 2) (omega arith))

pub bit_and-zero : (n : ℕ) → bit_and n 0 ≡ 0
bit_and-zero n = bit_and-zero_fuel n n (omega arith)

bit_or-zero_fuel : (f n : ℕ) → n ≤ f → bit_or n 0 ≡ n
bit_or-zero_fuel f zero h = refl
bit_or-zero_fuel zero (suc n) h = absurd (omega arith)
bit_or-zero_fuel (suc f) (suc n) h =
    omega (arith, bit_or_digit (suc n) 0, bit_or-zero_fuel f (suc n / 2) (omega arith))

pub bit_or-zero : (n : ℕ) → bit_or n 0 ≡ n
bit_or-zero n = bit_or-zero_fuel n n (omega arith)

-- `(q << k) | r` for a field `r` of `k` bits.
pub bit_or-sum : (k q r : ℕ) → r < 2 ^ k → bit_or (q * 2 ^ k) r ≡ q * 2 ^ k + r
bit_or-sum zero q r h = ground (arith, bit_or-zero q)
bit_or-sum (suc k) q r h = ground (
  arith,
  bit_or_digit (q * 2 ^ suc k) r,
  double_multiple q k,
  pow-suc 2 k,
  bit_or-sum k q (r / 2) (omega (arith, pow-suc 2 k)),
)

low_field : (k q r : ℕ) → r < 2 ^ k → bit_and (q * 2 ^ k + r) (2 ^ k - 1) ≡ r
low_field zero q r h = bit_and-zero _ ∙ omega arith
low_field (suc k) q r h = ground (
  arith,
  bit_and_digit (q * 2 ^ suc k + r) (2 ^ suc k - 1),
  double_multiple q k,
  pow-suc 2 k,
  two-pow-pos k,
  low_field k q (r / 2) (omega (arith, pow-suc 2 k)),
)

-- `n & ((1 << k) - 1)`.
pub bit_and-low : (k n : ℕ) → bit_and n (2 ^ k - 1) ≡ n % 2 ^ k
bit_and-low k n =
    ap (λ m. bit_and m (2 ^ k - 1)) (sym (div-add-mod' n (2 ^ k)))
    ∙ low_field k (n / 2 ^ k) (n % 2 ^ k) (mod-lt n (two-pow-pos k))

all_ones : (w n : ℕ) → n < 2 ^ w → bit_and n (2 ^ w - 1) ≡ n
all_ones w n h = bit_and-low w n ∙ mod-eq_of_lt h

-- `n & !((1 << k) - 1)` at width `w`.
pub bit_and-high :
    (w k n : ℕ) → n < 2 ^ w → k ≤ w → bit_and n (2 ^ w - 1 - (2 ^ k - 1)) ≡ n / 2 ^ k * 2 ^ k
bit_and-high w zero n hn hk = ground (arith, all_ones w n hn)
bit_and-high zero (suc k) n hn hk = absurd (omega arith)
bit_and-high (suc w) (suc k) n hn hk = ground (
  arith,
  bit_and_digit n (2 ^ suc w - 1 - (2 ^ suc k - 1)),
  double_multiple (n / 2 ^ suc k) k,
  div-div-eq-div-mul n 2 (2 ^ k),
  pow-suc 2 k,
  pow-suc 2 w,
  two-pow-pos k,
  two-pow_mono k w,
  bit_and-high w k (n / 2) (omega (arith, pow-suc 2 w)) (omega arith),
)
