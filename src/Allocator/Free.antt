-- ===== src/Allocator/Free.antt =====
-- src/allocator.rs: `free`, which merges with the free neighbours, and `usable_size`.
use picoalloc.Base.{ℕ, ◌+◌, ◌-◌, not, ◌==◌, ltb, u64, u64_mod, if◌then◌else◌}
use picoalloc.Size
use picoalloc.Size.{Size, bytes, from_pointer_and_base_unchecked, is_empty}
use picoalloc.Chunk.{
  Pointer, is_null, unchecked_add, unchecked_sub, chunk_size, is_allocated, header_bytes,
  free_header_bytes, header_size,
}
use picoalloc.Env.{Env}
use picoalloc.Machine.{M, ◌>>=◌, ◌>>◌, pure, reads, paranoid_assert, load}
use picoalloc.Allocator.{
  size_to_bin_round_down, paranoid_check_access, paranoid_check_chunk, unregister_free_space,
  register_free_space, end_of_address_space, link_behind,
}

-- The chunk as it grows: where it starts, the size of the chunk before it, and its own.
pub record Extent : Type 0 where
  pub chunk : Pointer
  pub prev_size : Size
  pub size : Size

module _ {E : Type 0} where
  -- `usable_size_impl`, through `header_for_pointer`: a plain access, without a check for null.
  unfoldable pub usable_size_impl : Pointer → M E Size
  usable_size_impl pointer = do
    s ← reads (λ s. s)
    let header = s.memory (u64 (pointer + u64_mod - bytes header_size))
    pure (Size.unchecked_sub (chunk_size header.size) header_size)

  unfoldable pub usable_size : Pointer → M E ℕ
  unfolding usable_size_impl
  usable_size pointer = do size ← usable_size_impl pointer; pure (bytes size)

  -- "Try to merge with the previous free chunk."
  unfoldable pub merge_prev : Pointer → Size → Size → M E Extent
  merge_prev chunk prev_chunk_size size = do
    base ← reads (λ s. s.base_address)
    let unmerged : Extent = record { chunk = chunk; prev_size = prev_chunk_size; size = size }
    if is_empty (from_pointer_and_base_unchecked chunk base) then pure unmerged else (do
      let prev_chunk = unchecked_sub chunk prev_chunk_size
      paranoid_check_access header_bytes prev_chunk
      prev ← load prev_chunk
      paranoid_assert (chunk_size prev.size == prev_chunk_size)
      if is_allocated prev.size then pure unmerged else (do
        let prev_size = chunk_size prev.size
        unregister_free_space prev_chunk (size_to_bin_round_down prev_size)
        pure (record {
          chunk = unchecked_sub chunk prev_size;
          prev_size = prev.prev_chunk_size;
          size = Size.unchecked_add size prev_size;
        })))

module _ {E : Type 0} (env : Env E) where
  -- "Try to merge with the next free chunk.": the size with that of a free chunk behind.
  unfoldable pub merge_next : Pointer → Size → M E Size
  merge_next next_chunk size = do
    end ← end_of_address_space env
    if ltb next_chunk end
        then (do
          paranoid_check_access header_bytes next_chunk
          next ← load next_chunk
          if is_allocated next.size then pure size else (do
            let next_size = chunk_size next.size
            unregister_free_space next_chunk (size_to_bin_round_down next_size)
            pure (Size.unchecked_add size next_size)))
        else pure size

  unfoldable pub free : Pointer → M E (Unit {0})
  unfolding merge_prev merge_next
  free pointer = do
    base ← reads (λ s. s.base_address)
    paranoid_assert (not (is_null base))
    let chunk = unchecked_sub pointer header_size
    paranoid_check_chunk env chunk
    g ← load chunk
    paranoid_assert (is_allocated g.size)
    merged ← merge_prev chunk g.prev_chunk_size (chunk_size g.size)
    size ← merge_next (unchecked_add merged.chunk merged.size) merged.size
    register_free_space merged.chunk merged.prev_size size
    link_behind env free_header_bytes (unchecked_add merged.chunk size) size
    paranoid_check_chunk env merged.chunk
