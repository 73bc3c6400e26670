-- ===== src/Allocator/Alloc.antt =====
-- src/allocator.rs: `alloc`, `alloc_zeroed` and `alloc_impl`.
use picoalloc.Base.{
  ◌%◌, Bool, true, false, not, ◌==◌, ◌&&◌, ◌||◌, leb, ltb, is_power_of_two, Option, none, some,
  if◌then◌else◌,
}
use picoalloc.Size
use picoalloc.Size.{
  Size, bytes, checked_add, from_pointer_and_base_unchecked, align_offset, is_empty,
  max_allocation_size,
}
use picoalloc.BitMask.{BitIndex, find_first}
use picoalloc.Chunk.{
  Pointer, unchecked_add, unchecked_sub, chunk_size, is_allocated, free_header_bytes, header_size,
  free_chunk_header_size,
}
use picoalloc.Env.{Env}
use picoalloc.Machine.{
  M, ◌>>=◌, ◌>>◌, pure, reads, modify, of_option, paranoid_assert, load, write_zeros,
  expand_memory_until,
}
use picoalloc.Allocator.{
  size_to_bin_round_down, size_to_bin_round_up, first_of, bit_index_eq, paranoid_check_chunk,
  unregister_free_space_first_chunk, register_free_space, register_allocation, link_behind,
  initialize,
}

-- The smallest chunk that surely holds the header, the padding and the data.
unfoldable pub min_size_for : Size → Size → Option Size
min_size_for align requested_size = elim (checked_add requested_size header_size) [
  | none ↦ none
  | some size ↦ checked_add size (Size.unchecked_sub align 1)
]

-- Where the allocation stands within the chunk that was found.
pub record Layout : Type 0 where
  pub data_offset : Size
  pub allocation_chunk : Pointer
  pub free_space_lhs : Size
  pub free_space_rhs : Size
  pub end_offset : Size

unfoldable pub end_offset_for : Size → Size → Size → Size
end_offset_for data_offset requested_size free_space_rhs =
    let end_offset = Size.unchecked_add data_offset requested_size in
    if is_empty free_space_rhs
    then end_offset
    else Size.unchecked_add end_offset free_chunk_header_size

unfoldable pub free_space_behind : Size → Size → Size → Size
free_space_behind size requested_size free_space_lhs =
    Size.unchecked_sub (Size.unchecked_sub (Size.unchecked_sub size requested_size) free_space_lhs)
      header_size

-- `chunk_offset` to `end_offset`: `base` is the base address, `size` that of the chunk.
unfoldable pub layout : Pointer → Pointer → Size → Size → Size → Layout
layout base chunk size align requested_size =
    let chunk_offset = from_pointer_and_base_unchecked chunk base in
    let data_offset = align_offset (Size.unchecked_add chunk_offset header_size) align base in
    let header_offset = Size.unchecked_sub data_offset header_size in
    let free_space_lhs = Size.unchecked_sub header_offset chunk_offset in
    let free_space_rhs = free_space_behind size requested_size free_space_lhs in
    record {
      data_offset = data_offset;
      allocation_chunk = unchecked_add base header_offset;
      free_space_lhs = free_space_lhs;
      free_space_rhs = free_space_rhs;
      end_offset = end_offset_for data_offset requested_size free_space_rhs;
    }

module _ {E : Type 0} (env : Env E) where
  -- The bin to take from: rounded up first, then rounded down.
  unfoldable pub find_bin : Size → M E (Option BitIndex)
  find_bin min_size = do
    m ← reads (λ s. s.free_lists_with_unallocated_memory)
    bin ← of_option (find_first m (size_to_bin_round_up min_size))
    elim bin [
      | none ↦ of_option (find_first m (size_to_bin_round_down min_size))
      | some b ↦ pure (some b)
    ]

  -- Makes room up to `end_offset`.
  unfoldable pub ensure_space : Size → M E Bool
  ensure_space end_offset = do
    s ← reads (λ s. s)
    if ltb s.allocated_space end_offset
        then (do
          is_ok ← expand_memory_until env s.base_address end_offset
          if is_ok
              then (do modify (λ t. record t { allocated_space = end_offset }); pure true)
              else pure false)
        else pure true

  -- The chunk is taken off its list and cut into free space, the allocation and free space.
  unfoldable pub carve : Pointer → BitIndex → Size → Layout → M E (Unit {0})
  carve chunk bin requested_size at = do
    let full_size = Size.unchecked_add requested_size header_size
    let next_chunk = unchecked_add (unchecked_add at.allocation_chunk header_size) requested_size
    g ← load chunk
    unregister_free_space_first_chunk chunk bin
    prev_size ← register_free_space chunk g.prev_chunk_size at.free_space_lhs
    register_allocation at.allocation_chunk prev_size full_size
    prev_size ← register_free_space next_chunk full_size at.free_space_rhs
    link_behind env free_header_bytes (unchecked_add next_chunk at.free_space_rhs) prev_size
    paranoid_check_chunk env at.allocation_chunk
    paranoid_check_chunk env (unchecked_sub at.allocation_chunk at.free_space_lhs)
    paranoid_check_chunk env next_chunk
    h ← load at.allocation_chunk
    paranoid_assert (chunk_size h.size == full_size)

  -- The end of `alloc_impl`: the pointer to the data, zeroed if it may have been used before.
  unfoldable pub hand_out : Pointer → Size → Size → Bool → M E (Option Pointer)
  hand_out allocation_chunk align requested_size zero_memory = do
    let data_pointer = unchecked_add allocation_chunk header_size
    paranoid_assert (data_pointer % bytes align == 0)
    paranoid_check_chunk env (unchecked_sub data_pointer header_size)
    if zero_memory then write_zeros data_pointer (bytes requested_size) else pure tt
    pure (some data_pointer)

  unfoldable pub alloc_at : Pointer → BitIndex → Size → Size → Bool → Layout → M E (Option Pointer)
  unfolding ensure_space carve hand_out
  alloc_at chunk bin align requested_size is_calloc at = do
    s ← reads (λ s. s)
    let zero_memory = ltb at.data_offset s.allocated_space && is_calloc
    is_ok ← ensure_space at.end_offset
    if is_ok
        then (do
          carve chunk bin requested_size at
          hand_out at.allocation_chunk align requested_size zero_memory)
        else pure none

  unfoldable pub alloc_from_bin : BitIndex → Size → Size → Size → Bool → M E (Option Pointer)
  unfolding alloc_at layout
  alloc_from_bin bin min_size align requested_size is_calloc = do
    chunk ← first_of bin
    paranoid_check_chunk env chunk
    g ← load chunk
    paranoid_assert (not (is_allocated g.size))
    let size = chunk_size g.size
    equal ← bit_index_eq (size_to_bin_round_down size) bin
    paranoid_assert equal
    base ← reads (λ s. s.base_address)
    let at = layout base chunk size align requested_size
    if ltb size min_size then pure none else (do
      paranoid_assert (
          leb (from_pointer_and_base_unchecked chunk base)
            (Size.unchecked_sub at.data_offset header_size))
      alloc_at chunk bin align requested_size is_calloc at)

  unfoldable pub alloc_sized : Size → Size → Size → Bool → M E (Option Pointer)
  unfolding find_bin alloc_from_bin
  alloc_sized min_size align requested_size is_calloc = do
    bin ← find_bin min_size
    elim bin [
      | none ↦ pure none
      | some b ↦ alloc_from_bin b min_size align requested_size is_calloc
    ]

  unfoldable pub alloc_impl : Size → Size → Bool → M E (Option Pointer)
  unfolding min_size_for alloc_sized
  alloc_impl align requested_size is_calloc =
      if align == 0 || not (is_power_of_two 32 align) then pure none else (do
        ready ← initialize env
        if ready
            then elim (min_size_for align requested_size) [
              | none ↦ pure none
              | some min_size ↦
                  if ltb max_allocation_size min_size
                  then pure none
                  else alloc_sized min_size align requested_size is_calloc
            ]
            else pure none)

  unfoldable pub alloc : Size → Size → M E (Option Pointer)
  unfolding alloc_impl
  alloc align requested_size = alloc_impl align requested_size false

  unfoldable pub alloc_zeroed : Size → Size → M E (Option Pointer)
  unfolding alloc_impl
  alloc_zeroed align requested_size = alloc_impl align requested_size true
