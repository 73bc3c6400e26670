-- ===== src/Chunk.antt =====
-- src/allocator.rs: pointers as 64-bit addresses, the packed `ChunkSize` and the headers in memory.
pub mod Laws
use picoalloc.Base.{ℕ, ◌+◌, ◌-◌, ◌%◌, bit_and, bit_or, Bool, ◌==◌, shl, shr, u32, u64, u64_mod}
use picoalloc.Size.{Size, bytes}

-- `Pointer<T>`: its `raw` address. `from_pointer`, `cast` and `raw_pointer` keep the address.
abbrev pub Pointer : Type 0
Pointer = ℕ

abbrev pub null : Pointer
null = 0

unfoldable pub is_null : Pointer → Bool
is_null p = p == 0

-- `wrapping_add` and `wrapping_sub` on addresses.
unfoldable pub unchecked_add : Pointer → Size → Pointer
unchecked_add p offset = u64 (p + bytes offset)

unfoldable pub unchecked_sub : Pointer → Size → Pointer
unchecked_sub p offset = u64 (p + u64_mod - bytes offset)

-- `ChunkSize`: the size above one bit that says whether the chunk is allocated.
abbrev pub ChunkSize : Type 0
ChunkSize = ℕ

unfoldable pub new_allocated : Size → ChunkSize
new_allocated size = bit_or (u32 (shl size 1)) 1

unfoldable pub new_unallocated : Size → ChunkSize
new_unallocated size = u32 (shl size 1)

unfoldable pub chunk_size : ChunkSize → Size
chunk_size raw = shr raw 1

unfoldable pub is_allocated : ChunkSize → Bool
is_allocated raw = bit_and raw 1 == 1

-- The 32 bytes of a granule, by the fields of `FreeChunkHeader` and the 8 bytes behind them. The
-- fields of `ChunkHeader` are the first two.
pub record Granule : Type 0 where
  pub prev_chunk_size : Size
  pub size : ChunkSize
  pub next_in_list : Pointer
  pub prev_in_list : Pointer
  pub rest : ℕ

abbrev pub zero_granule : Granule
zero_granule = record {
  prev_chunk_size = 0;
  size = 0;
  next_in_list = 0;
  prev_in_list = 0;
  rest = 0;
}

-- `size_of::<ChunkHeader>()` and `size_of::<FreeChunkHeader>()`, in bytes, and in granules.
abbrev pub header_bytes : ℕ
header_bytes = 8

abbrev pub free_header_bytes : ℕ
free_header_bytes = 24

abbrev pub header_size : Size
header_size = 1

abbrev pub free_chunk_header_size : Size
free_chunk_header_size = 1
