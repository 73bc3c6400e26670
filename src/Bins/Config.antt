-- ===== src/Bins/Config.antt =====
-- The bin configuration of src/allocator.rs for a gibibyte and a 64-bit `Mask`.
use picoalloc.Base.{◌≡◌, refl, some, leading_zeros}
use picoalloc.Size.{max_allocation_size}
use picoalloc.BitMask.{secondary_length_for, secondary_length}
use picoalloc.Bins.{bin_config, max_bins, calculate_optimal_bin_config, to_bin_index_generic}

config_lem : calculate_optimal_bin_config max_allocation_size max_bins ≡ some bin_config
unfolding calculate_optimal_bin_config to_bin_index_generic leading_zeros
config_lem = refl

secondary_length_lem : secondary_length_for bin_config.bin_count ≡ secondary_length
unfolding secondary_length_for
secondary_length_lem = refl
