-- ===== src/Size.antt =====
-- src/allocator.rs: `Size`, a count of 32-byte granules in a `u32`, its arithmetic, and
-- `align_offset`. The unchecked operations wrap as the release profile compiles them.
pub mod Align
pub mod Powers
pub mod Convert
use picoalloc.Base.{
  ℕ, ◌+◌, ◌-◌, ◌*◌, ◌/◌, ◌%◌, ◌^◌, bit_and, Bool, ◌==◌, ltb, shl, shr, u32, u64, u32_mod, u64_mod,
  u32_max, u64_max, if◌then◌else◌, Option, none, some,
}

-- `Size(SizeT)`; `SizeT` is `u32`.
abbrev pub Size : Type 0
Size = ℕ

abbrev pub allocation_granularity : ℕ
allocation_granularity = 32

-- `ALLOCATION_GRANULARITY.ilog2()`
abbrev pub allocation_size_shift : ℕ
allocation_size_shift = 5

-- `usize::checked_add`, on 64 bits.
unfoldable pub usize_checked_add : ℕ → ℕ → Option ℕ
usize_checked_add a b = if ltb u64_max (a + b) then none else some (a + b)

unfoldable pub round_up_bytes : ℕ → Option Size
round_up_bytes sum =
    let size = shr sum allocation_size_shift in if ltb u32_max size then none else some (u32 size)

-- `Size::from_bytes_usize`
unfoldable pub from_bytes_usize : ℕ → Option Size
unfolding usize_checked_add round_up_bytes
from_bytes_usize bytes = elim (usize_checked_add bytes (allocation_granularity - 1)) [
  | none ↦ none
  | some size ↦ round_up_bytes size
]

-- `Size::from_pointer_and_base_unchecked`, on addresses.
unfoldable pub from_pointer_and_base_unchecked : ℕ → ℕ → Size
from_pointer_and_base_unchecked pointer base =
    u32 (shr (u64 (pointer + u64_mod - base)) allocation_size_shift)

unfoldable pub bytes : Size → ℕ
bytes size = u32 (shl size allocation_size_shift)

unfoldable pub checked_add : Size → Size → Option Size
checked_add size rhs = if ltb u32_max (size + rhs) then none else some (size + rhs)

unfoldable pub unchecked_add : Size → Size → Size
unchecked_add size rhs = u32 (size + rhs)

unfoldable pub unchecked_sub : Size → Size → Size
unchecked_sub size rhs = u32 (size + u32_mod - rhs)

unfoldable pub is_empty : Size → Bool
is_empty size = size == 0

-- `align_offset`: granule `x` of a space at byte `b`, moved up to a multiple of `a` granules from
-- address 0, and counted from `b` again.
unfoldable pub align_offset : ℕ → ℕ → ℕ → ℕ
align_offset x a b =
    let mask = u32 (a + u32_mod - 1) in
    let base = shr b allocation_size_shift in
    u32 (u64 (bit_and (u64 (base + x + mask)) (u64_max - mask) + u64_mod - base))

-- `MAX_ALLOCATION_SIZE`: a gibibyte.
abbrev pub max_allocation_size : Size
max_allocation_size = 0x200_0000
