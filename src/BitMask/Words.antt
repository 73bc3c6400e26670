-- ===== src/BitMask/Words.antt =====
-- The word operations of allocator.rs's `BitMask` on a 64-bit mask, by their bits.
use picoalloc.Base.{
  ℕ, ◌-◌, ◌%◌, ◌^◌, ◌≤◌, ◌<◌, bit_and, bit_or, true, false, not, ◌&&◌, ◌||◌, ◌==◌, ◌!=◌, ltb, ◌≡◌,
  refl, ◌⊎◌, inl, inr, u32_max, trailing_zeros, arith, Bool-cases, dec_lt,
}
use picoalloc.Bits.Test.{
  test_bit, test_bit-or, test_bit-and, test_bit-pow, test_bit-low, test_bit-not, test_bit-high,
  test_bit-zero, exists_bit, bit-ne-zero, bit_and-le,
}
use picoalloc.Bits.Zeros.{trailing_zeros-set, trailing_zeros-clear}
use picoalloc.Bits.Fields.{two-pow_mono}
use picoalloc.BitMask.{bit, complement, lowest_set_bit_after}

pub bit-lt : (k : ℕ) → bit k < 2 ^ 64
bit-lt k = omega (arith, two-pow_mono (k % 64) 63 (omega arith))

pub test_bit-bit : (k j : ℕ) → k < 64 → test_bit (bit k) j ≡ (k == j)
test_bit-bit k j h = rw small (test_bit-pow k j)
  where
    small : k % 64 ≡ k
    small = omega arith

pub test_bit-set : (x k j : ℕ) → k < 64 → test_bit (bit_or x (bit k)) j ≡ (test_bit x j || (k == j))
test_bit-set x k j h = rw (test_bit-or x (bit k) j, test_bit-bit k j h)

pub test_bit-clear :
    (x k j : ℕ)
    → k < 64
    → x < 2 ^ 64
    → test_bit (bit_and x (complement (bit k))) j ≡ (test_bit x j && not (k == j))
test_bit-clear x k j h hx = elim (dec_lt j 64) [
  | yes below ↦ rw (
    test_bit-and x (complement (bit k)) j,
    test_bit-not 64 (bit k) j (bit-lt k) below,
    test_bit-bit k j h,
  )
  | no above ↦
      let high : test_bit x j ≡ false = test_bit-high 64 x j hx (omega arith) in
      rw (test_bit-and x (complement (bit k)) j, high)
]

-- `mask & (1 << k) != 0` tests bit `k`.
pub and-bit : (x k : ℕ) → k < 64 → x < 2 ^ 64 → (bit_and x (bit k) != 0) ≡ test_bit x k
and-bit x k h hx = elim (Bool-cases (test_bit x k)) [
  | inl set ↦
      let both : test_bit (bit_and x (bit k)) k ≡ true =
        rw (test_bit-and x (bit k) k, set, test_bit-bit k k h) (ground arith) in
      rw set (ground (arith, bit-ne-zero (bit_and x (bit k)) k both))
  | inr clear ↦ rw clear (elim (Bool-cases (bit_and x (bit k) == 0)) [
    | inl zero_word ↦ ground arith
    | inr nonzero ↦ absurd (only_bit clear nonzero)
  ])
]
  where
    only_bit : test_bit x k ≡ false → (bit_and x (bit k) == 0) ≡ false → ⊥
    only_bit clear nonzero =
        let (i, _, at_i) =
          exists_bit 64 (bit_and x (bit k)) (omega (arith, bit_and-le 64 x (bit k) hx))
            (ground arith) in
        ground (arith, test_bit-and x (bit k) i, test_bit-bit k i h)

-- What `lowest_set_bit_after` returns: `u32::MAX` if the mask has no bit from `start` on, or else
-- the lowest such bit.
abbrev pub IsLowest : ℕ → ℕ → ℕ → Type 0
IsLowest x start r =
    ((r ≡ u32_max) × ((j : ℕ) → start ≤ j → test_bit x j ≡ false))
    ⊎ ((r < 64)
        × (start ≤ r)
        × (test_bit x r ≡ true)
        × ((j : ℕ) → start ≤ j → j < r → test_bit x j ≡ false))

module _ (x start : ℕ) (hx : x < 2 ^ 64) (h : start < 64) where
  abbrev kept : ℕ
  kept = bit_and x (complement (bit start - 1))

  kept-lt : kept < 2 ^ 64
  kept-lt = omega (arith, bit_and-le 64 x (complement (bit start - 1)) hx)

  test_bit-kept : (j : ℕ) → j < 64 → test_bit kept j ≡ (test_bit x j && not (ltb j start))
  test_bit-kept j below = rw (
    test_bit-and x (complement (bit start - 1)) j,
    test_bit-not 64 (bit start - 1) j (omega (arith, bit-lt start)) below,
    mod_start,
    test_bit-low start j,
  )
    where
      mod_start : start % 64 ≡ start
      mod_start = omega arith

  kept-clear : (j : ℕ) → start ≤ j → test_bit kept j ≡ false → test_bit x j ≡ false
  kept-clear j from clear = elim (dec_lt j 64) [
    | yes below ↦ ground (arith, test_bit-kept j below)
    | no above ↦ test_bit-high 64 x j hx (omega arith)
  ]

  pub lowest_set_bit_after-IsLowest : IsLowest x start (lowest_set_bit_after x start)
  unfolding lowest_set_bit_after
  lowest_set_bit_after-IsLowest = elim (Bool-cases (kept == 0)) [
    | inl none_left ↦ rw none_left (inl (refl, λ j from. kept-clear j from (zero_word j none_left)))
    | inr some_left ↦
        let (below, at_r) = trailing_zeros-set 64 kept kept-lt (ground arith) in
        rw some_left (
          inr (
            below,
            ground (arith, test_bit-kept (trailing_zeros 64 kept) below),
            ground (arith, test_bit-kept (trailing_zeros 64 kept) below),
            λ j from before. kept-clear j from (trailing_zeros-clear 64 kept j before),
          ))
  ]
    where
      zero_word : (j : ℕ) → (kept == 0) ≡ true → test_bit kept j ≡ false
      zero_word j e = let z : kept ≡ 0 = ground arith in rw z (test_bit-zero j)
