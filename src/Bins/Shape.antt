-- ===== src/Bins/Shape.antt =====
-- Bin numbers of src/allocator.rs in closed form: a size of `mantissa_bits` bits or more is
-- `q * 2 ^ e + r`, with `q` of exactly `mantissa_bits + 1` bits.
use native.Mathlib.Nat.{
  div-add-mod', mod-lt, mul_assoc, le-div_iff_mul-le, div-lt_iff_lt-mul, mod-eq-sub-mod,
  mod-eq_of_lt, zero-add,
}
use picoalloc.Base.{
  ℕ, zero, suc, ◌+◌, ◌-◌, ◌*◌, ◌/◌, ◌%◌, ◌^◌, ◌≤◌, ◌<◌, bit_and, Bool, true, false, ◌==◌, ◌≡◌, sym,
  ap, ◌∙◌, leading_zeros, arith, pow-suc, dec_lt, if◌then◌else◌,
}
use picoalloc.Bits.Fields.{bit_and-low, bit_or-sum, two-pow-pos, two-pow_mono}
use picoalloc.Bits.Zeros.{leading_zeros-log}
use picoalloc.Bins.{to_bin_index_generic, mantissa_start_bit}

pub two-pow-add : (a b : ℕ) → 2 ^ (a + b) ≡ 2 ^ a * 2 ^ b
two-pow-add zero b = ap (λ n. 2 ^ n) (zero-add b) ∙ omega arith
two-pow-add (suc a) b =
    let shift : suc a + b ≡ suc (a + b) = omega arith in
    ap (λ n. 2 ^ n) shift ∙ grind (arith, pow-suc 2 (a + b), two-pow-add a b, pow-suc 2 a)

abbrev pub carry : ℕ → ℕ
carry r = if r == 0 then 0 else 1

-- A `u32` size below `2 ^ mantissa_bits` has a bin of its own.
pub small_bin :
    (k : ℕ) (up : Bool) (size : ℕ)
    → 0 < size
    → size < 2 ^ k
    → to_bin_index_generic k up size ≡ size - 1
unfolding to_bin_index_generic
small_bin k up size pos small = ground arith

pub record Shape (k size : ℕ) : Type 0 where
  pub e : ℕ
  pub q : ℕ
  pub r : ℕ
  pub value : size ≡ q * 2 ^ e + r
  pub low : r < 2 ^ e
  pub lead : 2 ^ k ≤ q
  pub lead_lt : q < 2 * 2 ^ k
  pub down : to_bin_index_generic k false size ≡ e * 2 ^ k + q - 1
  pub up : to_bin_index_generic k true size ≡ e * 2 ^ k + q + carry r - 1

module _ (k size l : ℕ) (hk : k ≤ l) (lz : leading_zeros 32 size + l + 1 ≡ 32)
    (above : 2 ^ l ≤ size) (below : size < 2 ^ suc l) where
  abbrev exp : ℕ
  exp = l - k

  start-eq : mantissa_start_bit k size ≡ exp
  unfolding mantissa_start_bit
  start-eq = omega arith

  split : 2 ^ l ≡ 2 ^ k * 2 ^ exp
  split = let e : l ≡ k + exp = omega arith in ap (λ n. 2 ^ n) e ∙ two-pow-add k exp

  abbrev lead_part : ℕ
  lead_part = size / 2 ^ exp

  lead_bounds : (2 ^ k ≤ lead_part) × (lead_part < 2 * 2 ^ k)
  lead_bounds = (
    (le-div_iff_mul-le (two-pow-pos exp)).1 (omega (arith, split)),
    (div-lt_iff_lt-mul (two-pow-pos exp)).1 (omega (arith, split, double, pow-suc 2 l)),
  )
    where
      double : 2 * 2 ^ k * 2 ^ exp ≡ 2 * (2 ^ k * 2 ^ exp)
      double = mul_assoc 2 (2 ^ k) (2 ^ exp)

  -- The mantissa that the code cuts out is `q` without its leading bit.
  mantissa-eq : bit_and lead_part (2 ^ k - 1) ≡ lead_part - 2 ^ k
  mantissa-eq =
      bit_and-low k lead_part
      ∙ mod-eq-sub-mod lead_bounds.0
      ∙ mod-eq_of_lt (omega (arith, lead_bounds))

  not_small : 2 ^ k ≤ size
  not_small = omega (arith, two-pow_mono k l hk)

  down_eq : to_bin_index_generic k false size ≡ exp * 2 ^ k + lead_part - 1
  unfolding to_bin_index_generic
  down_eq = ground (
    arith,
    start-eq,
    mantissa-eq,
    not_small,
    two-pow-pos k,
    lead_bounds,
    bit_or-sum k (exp + 1) (lead_part - 2 ^ k),
  )

  up_eq : to_bin_index_generic k true size ≡ exp * 2 ^ k + lead_part + carry (size % 2 ^ exp) - 1
  unfolding to_bin_index_generic
  up_eq =
      ground
        (arith, start-eq, mantissa-eq, not_small, two-pow-pos k, lead_bounds, bit_and-low exp size)

  Shape-of : Shape k size
  Shape-of = record {
    e = exp;
    q = lead_part;
    r = size % 2 ^ exp;
    value = sym (div-add-mod' size (2 ^ exp));
    low = mod-lt size (two-pow-pos exp);
    lead = lead_bounds.0;
    lead_lt = lead_bounds.1;
    down = down_eq;
    up = up_eq;
  }

-- Every `u32` size of more than `k` bits has a shape.
pub has-Shape : (k size : ℕ) → size < 2 ^ 32 → 2 ^ k ≤ size → Shape k size
has-Shape k size fits big =
    let (l, lz, above, below) = leading_zeros-log 32 size fits (omega (arith, two-pow-pos k)) in
    Shape-of k size l (exponent l below) lz above below
  where
    exponent : (l : ℕ) → size < 2 ^ suc l → k ≤ l
    exponent l below = elim (dec_lt l k) [
      | yes less ↦ absurd (omega (arith, two-pow_mono (suc l) k less))
      | no at_least ↦ omega arith
    ]
