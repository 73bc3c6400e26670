-- ===== src/Allocator/Tests.antt =====
-- The unit tests of src/lib.rs as programs, and their runs on a buffer of a few granules.
use picoalloc.Base.{
  ℕ, zero, suc, ◌+◌, ◌*◌, ◌-◌, ◌/◌, ◌≡◌, refl, leb, Bool, true, false, ◌==◌, ◌&&◌, if◌then◌else◌,
  Option, none, some,
}
use picoalloc.Base.Vec
use picoalloc.Base.Vec.{Vec}
use picoalloc.Size.{Size, from_bytes_usize}
use picoalloc.Chunk.{Pointer, Granule, zero_granule}
use picoalloc.Env.{Env}
use picoalloc.Machine.{State, Outcome, M, ok, fault, aborted, ◌>>=◌, ◌>>◌, pure, paranoid_assert}
use picoalloc.Allocator.{new}
use picoalloc.Allocator.Alloc.{alloc}
use picoalloc.Allocator.Free.{free, usable_size}
use picoalloc.Allocator.Resize.{shrink_inplace, grow_inplace}

-- A buffer of `size` granules at address 0x1000.
abbrev pub buffer : Size → Env (Unit {0})
buffer size = record {
  total_space = λ _. size;
  allocate_address_space = λ e. some (0x1000, e);
  expand_memory_until = λ e base until. (leb until size, e);
  free_address_space = λ e base. some e;
}

abbrev unwrap : {E A : Type 0} → Option A → M E A
unwrap none s = fault
unwrap (some a) s = ok a s

abbrev is_none : {A : Type 0} → Option A → Bool
is_none none = true
is_none (some a) = false

abbrev is_same : Option ℕ → Option ℕ → Bool
is_same none none = true
is_same none (some n) = false
is_same (some m) none = false
is_same (some m) (some n) = m == n

-- `assert!` and `assert_eq!` end a test as `paranoid_assert` does.
module _ {E : Type 0} (env : Env E) where
  -- An alignment and a size in bytes.
  abbrev request : ℕ → ℕ → M E (Option Pointer)
  request align size = do
    a ← unwrap (from_bytes_usize align)
    z ← unwrap (from_bytes_usize size)
    alloc env a z

  abbrev take : ℕ → ℕ → M E Pointer
  take align size = do p ← request align size; unwrap p

  abbrev test_allocator : M E (Unit {0})
  test_allocator = do
    a0 ← take 1 1
    a1 ← take 1 0
    a2 ← take 255 0
    u0 ← usable_size a0
    paranoid_assert (leb 1 u0)
    u1 ← usable_size a1
    paranoid_assert (u1 == 0)
    u2 ← usable_size a2
    paranoid_assert (u2 == 0)
    a3 ← take 1 0
    free env a3
    free env a0
    a4 ← take 1 0
    free env a4
    free env a1
    a5 ← take 1 0
    free env a5
    free env a2
    a6 ← take 1 0
    free env a6
    a7 ← take 255 255
    a8 ← take 128 65
    free env a7
    free env a8

  abbrev allocate_all : ℕ → Vec Pointer → M E (Vec Pointer)
  allocate_all zero allocations = pure allocations
  allocate_all (suc n) allocations = do
    pointer ← take 1 1
    allocate_all n (Vec.push allocations pointer)

  -- The first argument is the number of allocations that are left.
  abbrev free_all : ℕ → Vec Pointer → M E (Unit {0})
  free_all zero allocations = pure tt
  free_all (suc n) allocations = do
    free env (allocations.get (suc n / 2))
    free_all n (Vec.swap_remove allocations (suc n / 2))

  abbrev test_many_small_allocations : ℕ → M E (Unit {0})
  test_many_small_allocations count = do
    allocations ← allocate_all count (Vec.empty 0)
    one_more ← request 1 1
    paranoid_assert (is_none one_more)
    paranoid_assert (leb 2 count)
    free env (allocations.get (count - 1))
    let popped = Vec.swap_remove allocations (count - 1)
    free env (popped.get 0)
    free_all (count - 2) (Vec.swap_remove popped 0)

  abbrev test_boundary : M E (Unit {0})
  test_boundary = do
    p ← take 1 32
    free env p
    refused ← request 1 33
    paranoid_assert (is_none refused)

  abbrev test_shrink : M E (Unit {0})
  test_shrink = do
    a ← take 32 64
    full ← request 32 32
    paranoid_assert (is_none full)
    free env a
    a' ← take 32 32
    b ← take 32 32
    free env a'
    free env b
    a'' ← take 32 64
    u ← usable_size a''
    paranoid_assert (u == 64)
    full' ← request 32 32
    paranoid_assert (is_none full')
    one ← unwrap (from_bytes_usize 32)
    shrink_inplace env a'' one
    u' ← usable_size a''
    paranoid_assert (u' == 32)
    b' ← take 32 32
    free env a''
    free env b'

  abbrev test_grow : M E (Unit {0})
  test_grow = do
    two ← unwrap (from_bytes_usize 64)
    a ← take 32 32
    b ← take 32 32
    refused ← grow_inplace env a two
    paranoid_assert (is_none refused)
    free env b
    grown ← grow_inplace env a two
    paranoid_assert (is_same grown (some two))
    u ← usable_size a
    paranoid_assert (u == 64)

-- 32 bytes of 0b10101010, a value that no header of these tests has.
abbrev sentinel : Granule
sentinel = record zero_granule { rest = 0xaaaaaaaaaaaaaaaa }

-- A test on a buffer of so many granules, with sentinels behind it.
abbrev after_test : Size → M (Unit {0}) (Unit {0}) → Outcome (Unit {0}) (Unit {0})
after_test size test =
    test (new tt (λ p. if leb (0x1000 + size * 32) p then sentinel else zero_granule))

-- No assertion fails, and the sentinel of two granules is as it was.
abbrev passes : Size → Outcome (Unit {0}) (Unit {0}) → Bool
passes size (ok done s) =
    (s.memory (0x1000 + size * 32)).rest == sentinel.rest
    && (s.memory (0x1000 + (size + 1) * 32)).rest == sentinel.rest
passes size fault = false
passes size aborted = false

abbrev run : Size → (Env (Unit {0}) → M (Unit {0}) (Unit {0})) → Bool
run size test = passes size (after_test size (test (buffer size)))

runs_of_the_tests :
    (run 4 test_shrink ≡ true)
    × (run 4 test_grow ≡ true)
    × (run 2 test_boundary ≡ true)
    × (run 128 test_allocator ≡ true)
    × (run 16 (λ env. test_many_small_allocations env 8) ≡ true)
unfolding picoalloc.Base.leading_zeros picoalloc.Machine.set_prev_in_list
    picoalloc.Size.from_bytes_usize picoalloc.Base.trailing_zeros picoalloc.Base.is_power_of_two
    picoalloc.Size.from_pointer_and_base_unchecked picoalloc.Size.bytes picoalloc.Size.checked_add
    picoalloc.Size.unchecked_add picoalloc.Size.unchecked_sub picoalloc.Size.is_empty
    picoalloc.Size.align_offset picoalloc.BitMask.lowest_set_bit_after picoalloc.BitMask.new
    picoalloc.BitMask.index picoalloc.BitMask.set picoalloc.BitMask.unset
    picoalloc.BitMask.find_first picoalloc.Bins.to_bin_index picoalloc.Chunk.unchecked_add
    picoalloc.Chunk.unchecked_sub picoalloc.Chunk.new_allocated picoalloc.Chunk.new_unallocated
    picoalloc.Chunk.chunk_size picoalloc.Chunk.is_allocated picoalloc.Machine.paranoid_assert
    picoalloc.Machine.set_prev_chunk_size picoalloc.Machine.set_size picoalloc.Machine.write_header
    picoalloc.Machine.write_free_header picoalloc.Machine.total_space
    picoalloc.Machine.allocate_address_space picoalloc.Machine.expand_memory_until
    picoalloc.Allocator.new picoalloc.Allocator.size_to_bin_round_down
    picoalloc.Allocator.size_to_bin_round_up picoalloc.Allocator.first_of
    picoalloc.Allocator.set_first picoalloc.Allocator.set_bin picoalloc.Allocator.unset_bin
    picoalloc.Allocator.paranoid_check_access picoalloc.Allocator.bit_index_eq
    picoalloc.Allocator.check_prev picoalloc.Allocator.check_next
    picoalloc.Allocator.unregister_free_space_first_chunk picoalloc.Allocator.unregister_free_space
    picoalloc.Allocator.register_free_space picoalloc.Allocator.register_allocation
    picoalloc.Allocator.link_behind picoalloc.Allocator.paranoid_check_chunk
    picoalloc.Allocator.initialize_impl picoalloc.Allocator.initialize
    picoalloc.Allocator.Alloc.end_offset_for picoalloc.Allocator.Alloc.free_space_behind
    picoalloc.Allocator.Alloc.alloc picoalloc.Allocator.Free.usable_size
    picoalloc.Allocator.Free.free picoalloc.Allocator.Resize.shrink_inplace
    picoalloc.Allocator.Resize.grow_inplace
runs_of_the_tests = (refl, refl, refl, refl, refl)
