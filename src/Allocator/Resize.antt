-- ===== src/Allocator/Resize.antt =====
-- src/allocator.rs: `shrink_inplace`, `grow_inplace` and `realloc`.
use picoalloc.Base.{Bool, true, false, ◌==◌, ltb, leb, is_some, Option, none, some, if◌then◌else◌}
use picoalloc.Size
use picoalloc.Size.{Size, bytes, checked_add, from_pointer_and_base_unchecked, is_empty}
use picoalloc.Chunk.{
  Pointer, unchecked_add, unchecked_sub, chunk_size, is_allocated, new_allocated, header_bytes,
  header_size, free_chunk_header_size,
}
use picoalloc.Env.{Env}
use picoalloc.Machine.{
  M, ◌>>=◌, ◌>>◌, pure, reads, paranoid_assert, load, set_size, copy_nonoverlapping,
}
use picoalloc.Allocator.{
  size_to_bin_round_down, paranoid_check_chunk, unregister_free_space, register_free_space,
  end_of_address_space, link_behind,
}
use picoalloc.Allocator.Alloc.{alloc, ensure_space}
use picoalloc.Allocator.Free.{usable_size_impl, merge_next, free}

module _ {E : Type 0} (env : Env E) where
  -- `shrink_inplace` once the new size is known to be smaller.
  unfoldable pub give_back : Pointer → Size → Size → M E (Unit {0})
  give_back chunk current_size new_size = do
    let released = Size.unchecked_sub current_size new_size
    set_size chunk (new_allocated new_size)
    free_space ← merge_next env (unchecked_add chunk current_size) released
    let next_chunk = unchecked_add chunk new_size
    register_free_space next_chunk new_size free_space
    let final_chunk = unchecked_add next_chunk free_space
    link_behind env header_bytes final_chunk free_space
    paranoid_check_chunk env chunk
    paranoid_check_chunk env next_chunk
    paranoid_check_chunk env final_chunk

  unfoldable pub shrink_inplace : Pointer → Size → M E (Unit {0})
  unfolding give_back
  shrink_inplace pointer new_size = if is_empty new_size then free env pointer else (do
    let full_size = Size.unchecked_add new_size header_size
    let chunk = unchecked_sub pointer header_size
    paranoid_check_chunk env chunk
    g ← load chunk
    paranoid_assert (is_allocated g.size)
    let current_size = chunk_size g.size
    if leb current_size full_size then pure tt else give_back chunk current_size full_size)

  unfoldable pub grown_end_offset : Pointer → Pointer → Size → Size
  grown_end_offset base new_next_chunk remaining_free_space =
      let end_offset = from_pointer_and_base_unchecked new_next_chunk base in
      if is_empty remaining_free_space
      then end_offset
      else Size.unchecked_add end_offset free_chunk_header_size

  -- `grow_inplace` once the free chunk behind is known to be large enough.
  unfoldable pub take_over : Pointer → Pointer → Size → Size → Size → M E (Option Size)
  unfolding grown_end_offset
  take_over chunk old_next_chunk old_next_size new_size remaining_free_space = do
    base ← reads (λ s. s.base_address)
    let new_next_chunk = unchecked_add chunk new_size
    is_ok ← ensure_space env (grown_end_offset base new_next_chunk remaining_free_space)
    if is_ok
        then (do
          unregister_free_space old_next_chunk (size_to_bin_round_down old_next_size)
          set_size chunk (new_allocated new_size)
          chunk_size ← register_free_space new_next_chunk new_size remaining_free_space
          let final_chunk = unchecked_add new_next_chunk remaining_free_space
          link_behind env header_bytes final_chunk chunk_size
          paranoid_check_chunk env chunk
          paranoid_check_chunk env new_next_chunk
          paranoid_check_chunk env final_chunk
          pure (some (Size.unchecked_sub new_size header_size)))
        else pure none

  -- The test of the chunk behind.
  unfoldable pub grow_into : Pointer → Size → Size → M E (Option Size)
  unfolding take_over
  grow_into chunk current_size new_size = do
    end ← end_of_address_space env
    let old_next_chunk = unchecked_add chunk current_size
    if leb end old_next_chunk then pure none else (do
      paranoid_check_chunk env old_next_chunk
      next ← load old_next_chunk
      if is_allocated next.size then pure none else (do
        let old_next_size = chunk_size next.size
        let available_space = Size.unchecked_add current_size old_next_size
        if ltb available_space new_size
            then pure none
            else take_over chunk old_next_chunk old_next_size new_size
                (Size.unchecked_sub available_space new_size)))

  -- `grow_inplace` with the size of the whole chunk.
  unfoldable pub grow_chunk : Pointer → Size → M E (Option Size)
  unfolding grow_into
  grow_chunk pointer new_size = do
    let chunk = unchecked_sub pointer header_size
    paranoid_check_chunk env chunk
    g ← load chunk
    paranoid_assert (is_allocated g.size)
    let current_size = chunk_size g.size
    if leb new_size current_size
        then pure (some (Size.unchecked_sub current_size header_size))
        else grow_into chunk current_size new_size

  unfoldable pub grow_inplace : Pointer → Size → M E (Option Size)
  unfolding grow_chunk
  grow_inplace pointer requested_size = elim (checked_add requested_size header_size) [
    | none ↦ pure none
    | some new_size ↦ grow_chunk pointer new_size
  ]

  -- The end of `realloc`: a new allocation, a copy of the current size, and the release.
  unfoldable pub move_to_new : Pointer → Size → Size → Size → M E (Option Pointer)
  move_to_new pointer align current_size new_size = do
    allocated ← alloc env align new_size
    elim allocated [
      | none ↦ pure none
      | some new_pointer ↦ do
        copy_nonoverlapping pointer new_pointer (bytes current_size)
        free env pointer
        pure (some new_pointer)
    ]

  -- The part under `cfg!(feature = "realloc_inplace")`; `false` means that it did not apply.
  unfoldable pub resize_inplace : Pointer → Size → Size → M E Bool
  resize_inplace pointer current_size new_size =
      if ltb new_size current_size
      then (do shrink_inplace pointer new_size; pure true)
      else (do grown ← grow_inplace pointer new_size; pure (is_some grown))

  -- `realloc`, with the feature `realloc_inplace` on or off.
  unfoldable pub realloc : Bool → Pointer → Size → Size → M E (Option Pointer)
  unfolding resize_inplace move_to_new
  realloc realloc_inplace pointer align new_size = do
    current_size ← usable_size_impl pointer
    if new_size == current_size
        then pure (some pointer)
        else (if is_empty new_size then (do free env pointer; pure none) else (do
          done ←
              (if realloc_inplace then resize_inplace pointer current_size new_size else pure false)
          if done then pure (some pointer) else move_to_new pointer align current_size new_size))
