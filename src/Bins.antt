-- ===== src/Bins.antt =====
-- src/allocator.rs: the bins of the free lists, numbered like floating-point numbers with an
-- exponent and a mantissa, and the choice of the number of mantissa bits.
mod Shape
pub mod Order
pub mod Config
use picoalloc.Base.{
  ℕ, zero, suc, ◌+◌, ◌-◌, ◌*◌, ◌/◌, ◌%◌, ◌^◌, bit_and, bit_or, Bool, true, false, ◌==◌, ◌!=◌, ltb,
  shl, shr, leading_zeros, if◌then◌else◌, Option, none, some, List, [], ◌∷◌,
}
use picoalloc.Size.{Size, max_allocation_size}
use picoalloc.BitMask.{mask_bits}

-- `mantissa_start_bit`
unfoldable pub mantissa_start_bit : ℕ → ℕ → ℕ
mantissa_start_bit mantissa_bits size = 32 - 1 - leading_zeros 32 size - mantissa_bits

-- The mantissa after the rounding of `ROUND_UP`.
unfoldable pub rounded_mantissa : ℕ → Bool → ℕ → ℕ
unfolding mantissa_start_bit
rounded_mantissa mantissa_bits round_up size =
    let start = mantissa_start_bit mantissa_bits size in
    let mantissa = bit_and (shr size start) (2 ^ mantissa_bits - 1) in
    if round_up
    then (if bit_and size (2 ^ start - 1) != 0 then mantissa + 1 else mantissa)
    else mantissa

-- `to_bin_index_generic`. No step of it can wrap for a `u32` size and at most 8 mantissa bits.
unfoldable pub to_bin_index_generic : ℕ → Bool → ℕ → ℕ
unfolding rounded_mantissa
to_bin_index_generic mantissa_bits round_up size =
    let exponent = mantissa_start_bit mantissa_bits size + 1 in
    let out = shl exponent mantissa_bits in
    let mantissa = rounded_mantissa mantissa_bits round_up size in
    if size == 0
    then 0
    else (if ltb size (2 ^ mantissa_bits)
        then size - 1
        else (if round_up then out + mantissa - 1 else bit_or out mantissa - 1))

pub record AllocatorBinConfig : Type 0 where
  pub mantissa_bits : ℕ
  pub bin_count : ℕ

-- The rounds of `try_all!`; `none` is the panic after the last.
unfoldable pub try_all : ℕ → ℕ → List ℕ → Option AllocatorBinConfig
try_all size requested_max_bins [] = none
try_all size requested_max_bins (bits ∷ rest) =
    let highest_bin_index = to_bin_index_generic bits true size in
    let others = try_all size requested_max_bins rest in
    if ltb highest_bin_index requested_max_bins
    then some (record { mantissa_bits = bits; bin_count = highest_bin_index + 1 })
    else others

unfoldable pub calculate_optimal_bin_config : Size → ℕ → Option AllocatorBinConfig
unfolding try_all
calculate_optimal_bin_config max_size requested_max_bins =
    let true_max_bins = mask_bits * mask_bits in
    let requested =
      if ltb true_max_bins requested_max_bins then true_max_bins else requested_max_bins in
    try_all max_size requested (8 ∷ 7 ∷ 6 ∷ 5 ∷ 4 ∷ 3 ∷ 2 ∷ 1 ∷ [])

abbrev pub max_bins : ℕ
max_bins = 4096

-- `BIN_CONFIG`, which `Config` shows to be the value of `calculate_optimal_bin_config`.
abbrev pub bin_config : AllocatorBinConfig
bin_config = record { mantissa_bits = 7; bin_count = 2432 }

unfoldable pub to_bin_index : Bool → Size → ℕ
unfolding to_bin_index_generic
to_bin_index round_up size = to_bin_index_generic bin_config.mantissa_bits round_up size
