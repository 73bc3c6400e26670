-- ===== src/Examples/Masks.antt =====
-- The theorems about sizes, bins and masks of src/allocator.rs at concrete inputs.
use picoalloc.Base.{
  ℕ, ◌+◌, ◌*◌, ◌%◌, ◌≤◌, ◌<◌, ◌≡◌, ◌↔◌, true, false, not, ◌&&◌, ◌||◌, ◌==◌, Option, some, arith,
  leading_zeros, u32_max,
}
use picoalloc.Size.{align_offset, from_bytes_usize}
use picoalloc.Size.Align.{align_offset-aligned}
use picoalloc.Size.Convert.{from_bytes_usize_iff}
use picoalloc.Chunk.{new_allocated, new_unallocated, chunk_size, is_allocated}
use picoalloc.Chunk.Laws.{chunk_size_round_trip}
use picoalloc.Bins.{to_bin_index_generic, to_bin_index, bin_config}
use picoalloc.Bins.Order.{fits_of_bin-le, to_bin_index_generic_mono, round_up_gap, to_bin_index-lt}
use picoalloc.BitMask.{BitIndex, BitMask, new, index, set, unset, find_first}
use picoalloc.BitMask.Members.{contains, IsWf, new-IsWf, set-contains, unset-contains}
use picoalloc.BitMask.Search.{IsFirst, find_first-IsFirst}

align_offset-aligned_example :
    (5 ≤ align_offset 5 4 0x1040)
    × (align_offset 5 4 0x1040 < 9)
    × ((130 + align_offset 5 4 0x1040) % 4 ≡ 0)
align_offset-aligned_example =
    align_offset-aligned 2 5 0x1040 (omega arith) (omega arith) (omega arith)

from_bytes_usize_iff_example :
    (from_bytes_usize 65 ≡ some 3) ↔ ((3 ≤ u32_max) × (65 ≤ 3 * 32) × (3 * 32 < 65 + 32))
from_bytes_usize_iff_example = from_bytes_usize_iff 65 3

chunk_size_round_trip_example :
    (chunk_size (new_allocated 5) ≡ 5)
    × (is_allocated (new_allocated 5) ≡ true)
    × (chunk_size (new_unallocated 5) ≡ 5)
    × (is_allocated (new_unallocated 5) ≡ false)
chunk_size_round_trip_example = chunk_size_round_trip 5 (omega arith)

nine_fits : to_bin_index_generic 2 true 9 ≤ to_bin_index_generic 2 false 10
unfolding to_bin_index_generic leading_zeros
nine_fits = omega arith

fits_of_bin-le_example : 9 ≤ 10
fits_of_bin-le_example = fits_of_bin-le 2 9 10 (omega arith) (omega arith) (omega arith) nine_fits

to_bin_index_generic_mono_example :
    to_bin_index_generic 7 true 300 ≤ to_bin_index_generic 7 true 1000
to_bin_index_generic_mono_example =
    to_bin_index_generic_mono 7 300 1000 true (omega arith) (omega arith)

round_up_gap_example :
    (to_bin_index_generic 7 false 301 ≤ to_bin_index_generic 7 true 301)
    × (to_bin_index_generic 7 true 301 ≤ to_bin_index_generic 7 false 301 + 1)
round_up_gap_example = round_up_gap 7 301 (omega arith)

to_bin_index-lt_example : to_bin_index true 12345 < bin_config.bin_count
to_bin_index-lt_example = to_bin_index-lt true 12345 (omega arith)

set-contains_example :
    (m : BitMask) × (set new (index 70) ≡ some m)
    × IsWf m
    × ((j : ℕ) → contains m j ≡ (70 == j || contains new j))
set-contains_example = set-contains new 70 new-IsWf (omega arith)

unset-contains_example :
    (m : BitMask) × (unset new (index 70) ≡ some m)
    × IsWf m
    × ((j : ℕ) → contains m j ≡ (not (70 == j) && contains new j))
unset-contains_example = unset-contains new 70 new-IsWf (omega arith)

abbrev with_70 : BitMask
with_70 = (set-contains new 70 new-IsWf (omega arith)).0

find_first-IsFirst_example :
    (o : Option BitIndex) × (find_first with_70 (index 3) ≡ some o) × IsFirst with_70 3 o
find_first-IsFirst_example =
    find_first-IsFirst with_70 3 (set-contains new 70 new-IsWf (omega arith)).2 (omega arith)
