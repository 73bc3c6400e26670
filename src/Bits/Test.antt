-- ===== src/Bits/Test.antt =====
-- The bit test, and the effect of `|`, `&`, `!` and `1 << i` on it.
use picoalloc.Base.{
  ℕ, zero, suc, ◌-◌, ◌/◌, ◌%◌, ◌^◌, ◌≤◌, ◌<◌, bit_and, bit_or, ◌≡◌, refl, sym, ◌∙◌, ◌≢◌, Bool, true,
  false, not, ◌&&◌, ◌||◌, arith, pow-suc, one-le-pow, ltb, ◌==◌, Bool-cases, inl, inr,
}
use picoalloc.Bits.Step.{bit_or_digit, bit_and_digit, zero-bit_and}

-- Bit `i` of `x`.
unfoldable pub test_bit : ℕ → ℕ → Bool
test_bit x zero = x % 2 == 1
test_bit x (suc i) = test_bit (x / 2) i

pub test_bit-or : (x y i : ℕ) → test_bit (bit_or x y) i ≡ (test_bit x i || test_bit y i)
unfolding test_bit
test_bit-or x y zero = ground (arith, bit_or_digit x y)
test_bit-or x y (suc i) = rw half (test_bit-or (x / 2) (y / 2) i)
  where
    half : bit_or x y / 2 ≡ bit_or (x / 2) (y / 2)
    half = omega (arith, bit_or_digit x y)

pub test_bit-and : (x y i : ℕ) → test_bit (bit_and x y) i ≡ (test_bit x i && test_bit y i)
unfolding test_bit
test_bit-and x y zero = ground (arith, bit_and_digit x y)
test_bit-and x y (suc i) = rw half (test_bit-and (x / 2) (y / 2) i)
  where
    half : bit_and x y / 2 ≡ bit_and (x / 2) (y / 2)
    half = omega (arith, bit_and_digit x y)

pub test_bit-zero : (i : ℕ) → test_bit 0 i ≡ false
unfolding test_bit
test_bit-zero zero = refl
test_bit-zero (suc i) = test_bit-zero i

-- `1 << k` has bit `k` alone.
pub test_bit-pow : (k i : ℕ) → test_bit (2 ^ k) i ≡ (k == i)
unfolding test_bit
test_bit-pow zero zero = refl
test_bit-pow zero (suc i) = test_bit-zero i ∙ ground arith
test_bit-pow (suc k) zero = ground (arith, pow-suc 2 k)
test_bit-pow (suc k) (suc i) = rw half (test_bit-pow k i ∙ ground arith)
  where
    half : 2 ^ suc k / 2 ≡ 2 ^ k
    half = omega (arith, pow-suc 2 k)

-- `(1 << k) - 1` has the bits below `k`.
pub test_bit-low : (k i : ℕ) → test_bit (2 ^ k - 1) i ≡ ltb i k
unfolding test_bit
test_bit-low zero i = test_bit-zero i ∙ ground arith
test_bit-low (suc k) zero = ground (arith, pow-suc 2 k, one-le-pow k 2)
test_bit-low (suc k) (suc i) = rw half (test_bit-low k i ∙ ground arith)
  where
    half : (2 ^ suc k - 1) / 2 ≡ 2 ^ k - 1
    half = omega (arith, pow-suc 2 k, one-le-pow k 2)

-- `!x` at width `w`.
pub test_bit-not : (w x i : ℕ) → x < 2 ^ w → i < w → test_bit (2 ^ w - 1 - x) i ≡ not (test_bit x i)
unfolding test_bit
test_bit-not zero x i hx hi = absurd (omega arith)
test_bit-not (suc w) x zero hx hi = ground (arith, pow-suc 2 w, one-le-pow w 2)
test_bit-not (suc w) x (suc i) hx hi =
    rw half (test_bit-not w (x / 2) i (omega (arith, pow-suc 2 w)) (omega arith))
  where
    half : (2 ^ suc w - 1 - x) / 2 ≡ 2 ^ w - 1 - x / 2
    half = omega (arith, pow-suc 2 w, one-le-pow w 2)

-- A word of width `w` has no bit from `w` on.
pub test_bit-high : (w x i : ℕ) → x < 2 ^ w → w ≤ i → test_bit x i ≡ false
unfolding test_bit
test_bit-high zero x i hx hi = rw (zero_of_lt x hx) (test_bit-zero i)
  where
    zero_of_lt : (n : ℕ) → n < 2 ^ 0 → n ≡ 0
    zero_of_lt n h = omega arith
test_bit-high (suc w) x zero hx hi = absurd (omega arith)
test_bit-high (suc w) x (suc i) hx hi =
    test_bit-high w (x / 2) i (omega (arith, pow-suc 2 w)) (omega arith)

-- A nonzero word has a set bit, and a word with a set bit is not zero.
pub exists_bit : (w x : ℕ) → x < 2 ^ w → x ≢ 0 → (i : ℕ) × (i < w) × (test_bit x i ≡ true)
unfolding test_bit
exists_bit zero x hx ne = absurd (ne (omega arith))
exists_bit (suc w) x hx ne = elim (Bool-cases (x % 2 == 1)) [
  | inl odd ↦ (0, omega arith, odd)
  | inr even ↦
      let (i, below, set) =
        exists_bit w (x / 2) (omega (arith, pow-suc 2 w)) (λ e. ne (ground arith)) in
      (suc i, omega arith, set)
]

pub bit-ne-zero : (x i : ℕ) → test_bit x i ≡ true → x ≢ 0
bit-ne-zero x i h e = true-ne-false (sym (rw e at h) ∙ test_bit-zero i)
  where
    true-ne-false : true ≡ false → ⊥
    true-ne-false q = cc

pub bit_or-lt : (w x y : ℕ) → x < 2 ^ w → y < 2 ^ w → bit_or x y < 2 ^ w
bit_or-lt zero x y hx hy = ground (arith, ends x y)
  where
    ends : (a b : ℕ) → a < 1 → b < 1 → bit_or a b ≡ 0
    ends zero zero p q = refl
    ends zero (suc b) p q = absurd (omega arith)
    ends (suc a) b p q = absurd (omega arith)
bit_or-lt (suc w) x y hx hy = omega (
  arith,
  pow-suc 2 w,
  bit_or_digit x y,
  bit_or-lt w (x / 2) (y / 2) (omega (arith, pow-suc 2 w)) (omega (arith, pow-suc 2 w)),
)

pub bit_and-le : (w x y : ℕ) → x < 2 ^ w → bit_and x y ≤ x
bit_and-le zero zero y hx = rw zero-bit_and (omega arith)
bit_and-le zero (suc x) y hx = absurd (omega arith)
bit_and-le (suc w) x y hx = omega (
  arith,
  pow-suc 2 w,
  bit_and_digit x y,
  bit_and-le w (x / 2) (y / 2) (omega (arith, pow-suc 2 w)),
)
