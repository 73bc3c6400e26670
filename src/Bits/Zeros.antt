-- ===== src/Bits/Zeros.antt =====
-- What `leading_zeros` and `trailing_zeros` find.
use picoalloc.Base.{
  ℕ, zero, suc, ◌/◌, ◌%◌, ◌^◌, ◌≤◌, ◌<◌, ◌≡◌, ◌≢◌, true, false, arith, pow-suc, ◌==◌, Bool-cases,
  inl, inr, trailing_zeros, leading_zeros, shr, ◌+◌, dec_lt,
}
use native.Mathlib.Nat.{div-eq_of_lt, div-eq_of_lt-le}
use picoalloc.Bits.Test.{test_bit}

pub trailing_zeros-le : (w x : ℕ) → trailing_zeros w x ≤ w
unfolding trailing_zeros
trailing_zeros-le zero x = omega arith
trailing_zeros-le (suc w) x = ground (arith, trailing_zeros-le w (x / 2))

-- In a nonzero word it is the index of a set bit.
pub trailing_zeros-set :
    (w x : ℕ)
    → x < 2 ^ w
    → x ≢ 0
    → (trailing_zeros w x < w) × (test_bit x (trailing_zeros w x) ≡ true)
unfolding trailing_zeros test_bit
trailing_zeros-set zero x hx ne = absurd (ne (omega arith))
trailing_zeros-set (suc w) x hx ne = elim (Bool-cases (x % 2 == 1)) [
  | inl odd ↦ rw odd (omega arith, odd)
  | inr even ↦ rw even (
      let (below, set) =
        trailing_zeros-set w (x / 2) (omega (arith, pow-suc 2 w)) (λ e. ne (ground arith)) in
      (omega arith, set))
]

-- No set bit lies below it.
pub trailing_zeros-clear : (w x i : ℕ) → i < trailing_zeros w x → test_bit x i ≡ false
unfolding trailing_zeros test_bit
trailing_zeros-clear zero x i h = absurd (omega arith)
trailing_zeros-clear (suc w) x zero h = ground arith
trailing_zeros-clear (suc w) x (suc i) h = trailing_zeros-clear w (x / 2) i (ground arith)

-- The top bit of a word of width `w + 1` says on which side of `2 ^ w` it lies.
top_bit-set : (w x : ℕ) → (shr x w % 2 == 1) ≡ true → 2 ^ w ≤ x
top_bit-set w x e = elim (dec_lt x (2 ^ w)) [
  | yes below ↦ absurd (ground (arith, div-eq_of_lt below))
  | no above ↦ omega arith
]

top_bit-clear : (w x : ℕ) → x < 2 ^ suc w → (shr x w % 2 == 1) ≡ false → x < 2 ^ w
top_bit-clear w x hx e = elim (dec_lt x (2 ^ w)) [
  | yes below ↦ below
  | no above ↦
      let one_top : x / 2 ^ w ≡ 1 =
        div-eq_of_lt-le (2 ^ w) (omega arith) (omega (arith, pow-suc 2 w)) in
      absurd (ground arith)
]

-- In a nonzero word `leading_zeros` gives the binary logarithm.
pub leading_zeros-log :
    (w x : ℕ)
    → x < 2 ^ w
    → 0 < x
    → (l : ℕ) × (leading_zeros w x + l + 1 ≡ w) × (2 ^ l ≤ x) × (x < 2 ^ suc l)
unfolding leading_zeros
leading_zeros-log zero x hx pos = absurd (omega arith)
leading_zeros-log (suc w) x hx pos = elim (Bool-cases (shr x w % 2 == 1)) [
  | inl top ↦ rw top (w, omega arith, top_bit-set w x top, hx)
  | inr low ↦ rw low (
      let (l, count, above, below) = leading_zeros-log w x (top_bit-clear w x hx low) pos in
      (l, omega arith, above, below))
]
