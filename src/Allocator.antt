-- ===== src/Allocator.antt =====
-- src/allocator.rs: `Allocator`, from `new` to `register_allocation`, and the paranoid checks.
-- Allocation, release and resizing are the children.
pub mod Alloc
pub mod Free
pub mod Resize
pub mod Tests
use picoalloc.Base.{
  ℕ, ◌+◌, ◌-◌, ◌%◌, Bool, true, false, not, ◌==◌, ◌!=◌, leb, ltb, u64, u64_mod, get_unchecked,
  set_unchecked, Option, if◌then◌else◌,
}
use picoalloc.Size.{Size, bytes, is_empty, max_allocation_size}
use picoalloc.BitMask
use picoalloc.BitMask.{BitIndex, BitMask}
use picoalloc.Bins.{bin_config, to_bin_index}
use picoalloc.Chunk.{
  Pointer, null, Granule, is_null, unchecked_add, unchecked_sub, new_allocated, new_unallocated,
  chunk_size, is_allocated, header_bytes, free_header_bytes, free_chunk_header_size,
}
use picoalloc.Env.{Env}
use picoalloc.Machine.{
  State, M, ok, fault, and_then, ◌>>=◌, ◌>>◌, pure, reads, modify, of_option, paranoid_assert, load,
  set_prev_chunk_size, set_prev_in_list, set_next_in_list, write_header, write_free_header,
  total_space, allocate_address_space, expand_memory_until, free_address_space,
}

-- `Allocator::new`, over a given memory.
unfoldable pub new : {E : Type 0} → E → (Pointer → Granule) → State E
new env memory = record {
  allocated_space = 0;
  base_address = null;
  free_lists_with_unallocated_memory = BitMask.new;
  first_in_free_list = λ _. null;
  env = env;
  memory = memory;
}

unfoldable pub clamped : Size → Size
clamped size = if ltb max_allocation_size size then max_allocation_size else size

unfoldable pub size_to_bin_round_down : Size → BitIndex
unfolding clamped
size_to_bin_round_down size = BitMask.index (to_bin_index false (clamped size))

unfoldable pub size_to_bin_round_up : Size → BitIndex
unfolding clamped
size_to_bin_round_up size = BitMask.index (to_bin_index true (clamped size))

abbrev same : Bool → Bool → Bool
same a b = if a then b else not b

module _ {E : Type 0} where
  -- Reads and writes of the fields.
  unfoldable pub first_of : BitIndex → M E Pointer
  unfolding get_unchecked
  first_of bin s = of_option (get_unchecked bin_config.bin_count s.first_in_free_list bin.index) s

  unfoldable pub set_first : BitIndex → Pointer → M E (Unit {0})
  unfolding set_unchecked
  set_first bin chunk s =
      and_then
        (of_option (set_unchecked bin_config.bin_count s.first_in_free_list bin.index chunk) s)
        λ f _. ok tt (record s { first_in_free_list = f })

  unfoldable pub set_bin : BitIndex → M E (Unit {0})
  set_bin bin s =
      and_then (of_option (BitMask.set s.free_lists_with_unallocated_memory bin) s)
        λ m _. ok tt (record s { free_lists_with_unallocated_memory = m })

  unfoldable pub unset_bin : BitIndex → M E (Unit {0})
  unset_bin bin s =
      and_then (of_option (BitMask.unset s.free_lists_with_unallocated_memory bin) s)
        λ m _. ok tt (record s { free_lists_with_unallocated_memory = m })

  -- `paranoid_check_access::<T>`, with `size_of::<T>()`.
  unfoldable pub paranoid_check_access : ℕ → Pointer → M E (Unit {0})
  paranoid_check_access size_of pointer = do
    paranoid_assert (not (is_null pointer))
    s ← reads (λ s. s)
    paranoid_assert
        (leb (u64 (u64 (pointer + u64_mod - s.base_address) + size_of)) (bytes s.allocated_space))

  -- `==` on `BitIndex`, with its own assertions.
  unfoldable pub bit_index_eq : BitIndex → BitIndex → M E Bool
  bit_index_eq a b = do
    let is_equal = a.index == b.index
    paranoid_assert (same is_equal (a.primary == b.primary))
    paranoid_assert (same is_equal (a.secondary == b.secondary))
    pure is_equal

  -- The links of a chunk to the chunk before it and to the one behind it.
  unfoldable pub check_prev : Pointer → Bool → Size → Pointer → M E (Unit {0})
  check_prev base allocated prev_size chunk =
      if is_empty prev_size then paranoid_assert (chunk == base) else (do
        let prev_chunk = unchecked_sub chunk prev_size
        paranoid_assert (leb base prev_chunk)
        prev ← load prev_chunk
        paranoid_assert (chunk_size prev.size == prev_size)
        if allocated then pure tt else paranoid_assert (is_allocated prev.size))

  unfoldable pub check_next : Pointer → Bool → Size → Pointer → M E (Unit {0})
  check_next end allocated size chunk = do
    let next_chunk = unchecked_add chunk size
    if ltb next_chunk end
        then (do
          next ← load next_chunk
          paranoid_assert (next.prev_chunk_size == size)
          if allocated then pure tt else paranoid_assert (is_allocated next.size))
        else paranoid_assert (next_chunk == end)

  -- `unregister_free_space_first_chunk`
  unfoldable pub unregister_free_space_first_chunk : Pointer → BitIndex → M E (Unit {0})
  unregister_free_space_first_chunk chunk bin = do
    paranoid_check_access free_header_bytes chunk
    first ← first_of bin
    paranoid_assert (first == chunk)
    g ← load chunk
    paranoid_assert (not (is_allocated g.size))
    paranoid_assert (is_null g.prev_in_list)
    let next_in_list = g.next_in_list
    paranoid_assert (next_in_list != chunk)
    set_first bin next_in_list
    if is_null next_in_list then unset_bin bin else set_prev_in_list next_in_list null

  unfoldable pub unlink : Pointer → M E (Unit {0})
  unlink chunk = do
    g ← load chunk
    paranoid_assert (not (is_allocated g.size))
    let next_in_list = g.next_in_list
    let prev_in_list = g.prev_in_list
    paranoid_assert (next_in_list != chunk)
    paranoid_assert (prev_in_list != chunk)
    paranoid_assert (not (is_null prev_in_list))
    set_next_in_list prev_in_list next_in_list
    if is_null next_in_list then pure tt else set_prev_in_list next_in_list prev_in_list

  -- `unregister_free_space`
  unfoldable pub unregister_free_space : Pointer → BitIndex → M E (Unit {0})
  unfolding unlink
  unregister_free_space chunk bin = do
    paranoid_check_access free_header_bytes chunk
    first ← first_of bin
    if first == chunk then unregister_free_space_first_chunk chunk bin else unlink chunk

  unfoldable pub push_free : Pointer → Size → Size → BitIndex → M E (Unit {0})
  push_free chunk prev_size size bin = do
    next_in_list ← first_of bin
    set_first bin chunk
    write_free_header chunk prev_size (new_unallocated size) next_in_list null
    if is_null next_in_list then pure tt else set_prev_in_list next_in_list chunk
    set_bin bin

  -- `register_free_space`: the result is the `prev_chunk_size` of the chunk behind.
  unfoldable pub register_free_space : Pointer → Size → Size → M E Size
  unfolding push_free
  register_free_space chunk prev_size size = if is_empty size then pure prev_size else (do
    paranoid_check_access free_header_bytes chunk
    push_free chunk prev_size size (size_to_bin_round_down size)
    pure size)

  -- `register_allocation`
  unfoldable pub register_allocation : Pointer → Size → Size → M E (Unit {0})
  register_allocation chunk prev_size size = do
    paranoid_check_access header_bytes chunk
    write_header chunk prev_size (new_allocated size)

module _ {E : Type 0} (env : Env E) where
  -- `base_address.unchecked_add(self.env.total_space())`
  unfoldable pub end_of_address_space : M E Pointer
  end_of_address_space = do
    total ← total_space env
    base ← reads (λ s. s.base_address)
    pure (unchecked_add base total)

  -- Tells the chunk behind, if there is one, the size of the chunk before it; the check of the
  -- access is for a header of `size_of` bytes.
  unfoldable pub link_behind : ℕ → Pointer → Size → M E (Unit {0})
  unfolding end_of_address_space
  link_behind size_of next_chunk prev_size = do
    end ← end_of_address_space
    if ltb next_chunk end
        then (do paranoid_check_access size_of next_chunk; set_prev_chunk_size next_chunk prev_size)
        else pure tt

  -- `paranoid_check_chunk`
  unfoldable pub paranoid_check_chunk : Pointer → M E (Unit {0})
  unfolding end_of_address_space
  paranoid_check_chunk chunk = do
    paranoid_assert (not (is_null chunk))
    base ← reads (λ s. s.base_address)
    paranoid_assert (not (is_null base))
    paranoid_assert (leb base chunk)
    end ← end_of_address_space
    if chunk == end then pure tt else (do
      paranoid_assert (ltb chunk end)
      paranoid_assert (leb (u64 (chunk + header_bytes)) end)
      paranoid_check_access header_bytes chunk
      g ← load chunk
      check_prev base (is_allocated g.size) g.prev_chunk_size chunk
      check_next end (is_allocated g.size) (chunk_size g.size) chunk)

  -- The rest of `initialize_impl` once the first granule is there.
  unfoldable pub first_chunk : Pointer → M E Bool
  first_chunk base = do
    modify (λ s. record s { base_address = base; allocated_space = free_chunk_header_size })
    paranoid_check_access free_header_bytes base
    total ← total_space env
    let bin = size_to_bin_round_down total
    set_bin bin
    write_free_header base 0 (new_unallocated total) null null
    set_first bin base
    paranoid_check_chunk base
    pure true

  unfoldable pub initialize_impl : M E Bool
  unfolding first_chunk
  initialize_impl = do
    base ← allocate_address_space env
    if is_null base then pure false else (do
      paranoid_assert (base % 32 == 0)
      paranoid_assert (base % 8 == 0)
      is_ok ← expand_memory_until env base free_chunk_header_size
      if is_ok then first_chunk base else (do free_address_space env base; pure false))

  unfoldable pub initialize : M E Bool
  initialize = do
    base ← reads (λ s. s.base_address)
    if is_null base then initialize_impl else pure true

  -- `drop`
  unfoldable pub drop : M E (Unit {0})
  drop = do base ← reads (λ s. s.base_address); free_address_space env base
