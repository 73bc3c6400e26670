-- ===== src/Chunk/Laws.antt =====
-- The packed `ChunkSize` of src/allocator.rs keeps a size below 2^31 and its flag, and pointer
-- offsets add up within the address space.
use picoalloc.Base.{◌+◌, ◌-◌, ◌*◌, ◌≤◌, ◌<◌, ◌^◌, ◌≡◌, true, false, arith}
use picoalloc.Bits.Fields.{bit_or-sum, bit_and-low}
use picoalloc.Size.{Size, bytes}
use picoalloc.Chunk.{
  Pointer, unchecked_add, unchecked_sub, new_allocated, new_unallocated, chunk_size, is_allocated,
}

-- A size below 2^31 comes back from either form of a header, with the right flag.
pub chunk_size_round_trip :
    (s : Size)
    → s < 2 ^ 31
    → (chunk_size (new_allocated s) ≡ s)
      × (is_allocated (new_allocated s) ≡ true)
      × (chunk_size (new_unallocated s) ≡ s)
      × (is_allocated (new_unallocated s) ≡ false)
unfolding chunk_size new_allocated new_unallocated is_allocated
chunk_size_round_trip s h = (
  ground (arith, bit_or-sum 1 s 1),
  ground (arith, bit_or-sum 1 s 1, bit_and-low 1 (s * 2 + 1)),
  ground arith,
  ground (arith, bit_and-low 1 (s * 2)),
)

pub bytes-eq : (s : Size) → s < 2 ^ 27 → bytes s ≡ s * 32
unfolding bytes
bytes-eq s h = omega arith

pub unchecked_add-eq :
    (p : Pointer) (s : Size) → s < 2 ^ 27 → p + s * 32 < 2 ^ 64 → unchecked_add p s ≡ p + s * 32
unfolding unchecked_add
unchecked_add-eq p s h fits = omega (arith, bytes-eq s h)

pub unchecked_sub-eq :
    (p : Pointer) (s : Size) → s < 2 ^ 27 → s * 32 ≤ p → p < 2 ^ 64 → unchecked_sub p s ≡ p - s * 32
unfolding unchecked_sub
unchecked_sub-eq p s h le fits = omega (arith, bytes-eq s h)
