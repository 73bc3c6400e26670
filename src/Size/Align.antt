-- ===== src/Size/Align.antt =====
-- `align_offset` of src/allocator.rs.
use native.Mathlib.Nat.{div-mul-le_self, lt-div-mul-add, mul-mod_left}
use picoalloc.Base.{
  refl, false, ℕ, zero, suc, ◌+◌, ◌-◌, ◌*◌, ◌/◌, ◌%◌, ◌^◌, ◌≤◌, ◌<◌, ◌≡◌, ap, ◌∙◌, true, arith,
  is_power_of_two, Bool-cases, inl, inr, ◌==◌, pow-suc, u32, u32_mod,
}
use picoalloc.Bits.Fields.{bit_and-high, two-pow_mono, two-pow-pos}
use picoalloc.Size.{align_offset}

-- `is_power_of_two` finds the powers of two.
pub power_of_two : (w a : ℕ) → is_power_of_two w a ≡ true → (k : ℕ) × (k < w) × (a ≡ 2 ^ k)
unfolding is_power_of_two
power_of_two zero a h = absurd (ground arith)
power_of_two (suc w) a h = elim (Bool-cases (a % 2 == 1)) [
  | inl odd ↦ (0, omega arith, ground arith)
  | inr even ↦
      let (k, below, half) = power_of_two w (a / 2) (ground arith) in
      (suc k, omega arith, ground (arith, pow-suc 2 k))
]

pub is_power_of_two-pow : (w k : ℕ) → k < w → is_power_of_two w (2 ^ k) ≡ true
unfolding is_power_of_two
is_power_of_two-pow zero k lt = absurd (omega arith)
is_power_of_two-pow (suc w) zero lt = refl
is_power_of_two-pow (suc w) (suc k) lt =
    let even : (2 ^ suc k % 2 == 1) ≡ false = ground (arith, pow-suc 2 k) in
    let half : 2 ^ suc k / 2 ≡ 2 ^ k = omega (arith, pow-suc 2 k) in
    rw (even, half) (is_power_of_two-pow w k (omega arith))

module _ (k x b : ℕ) (hk : k < 32) (hx : x + 2 ^ k ≤ 2 ^ 32) (hb : b < 2 ^ 64) where
  abbrev base : ℕ
  base = b / 32

  abbrev sum : ℕ
  sum = base + x + (2 ^ k - 1)

  mask-eq : u32 (2 ^ k + u32_mod - 1) ≡ 2 ^ k - 1
  mask-eq = omega (arith, two-pow_mono k 31 (omega arith), two-pow-pos k)

  align_offset-eq : align_offset x (2 ^ k) b ≡ sum / 2 ^ k * 2 ^ k - base
  unfolding align_offset
  align_offset-eq = rw mask-eq (
      ground (
        arith,
        bit_and-high 64 k sum,
        two-pow-pos k,
        div-mul-le_self sum (2 ^ k),
        lt-div-mul-add {a = sum} (two-pow-pos k),
      ))

  -- For a power of two, the offset is the least one from `x` on at which the granule number,
  -- counted from address 0, is a multiple of it.
  pub align_offset-aligned :
      (x ≤ align_offset x (2 ^ k) b)
      × (align_offset x (2 ^ k) b < x + 2 ^ k)
      × ((base + align_offset x (2 ^ k) b) % 2 ^ k ≡ 0)
  align_offset-aligned = rw align_offset-eq (lo, hi, ap (λ n. n % 2 ^ k) whole ∙ mul-mod_left _ _)
    where
      lo : x ≤ sum / 2 ^ k * 2 ^ k - base
      lo = omega (arith, two-pow-pos k, lt-div-mul-add {a = sum} (two-pow-pos k))

      hi : sum / 2 ^ k * 2 ^ k - base < x + 2 ^ k
      hi = omega (arith, two-pow-pos k, div-mul-le_self sum (2 ^ k))

      whole : base + (sum / 2 ^ k * 2 ^ k - base) ≡ sum / 2 ^ k * 2 ^ k
      whole = omega (arith, two-pow-pos k, lt-div-mul-add {a = sum} (two-pow-pos k))
