-- ===== src/Lib.antt =====
-- picoalloc: an allocator for one contiguous address space, with free chunks in
-- segregated lists whose heads are indexed by a two-level bit mask.
--
-- The parts of the program and the files that model them
--   Size.antt: Size, its checked and unchecked arithmetic and align_offset
--     (src/allocator.rs). A Size is a number of 32-byte granules; the unchecked
--     operations wrap modulo 2 ^ 32, as a release build does.
--   BitMask.antt: lowest_set_bit_after and BitMask (src/allocator.rs) with the
--     array accesses of a paranoid build, which fail out of range.
--   Bins.antt: to_bin_index_generic, the constants of the bins and the search
--     for the number of mantissa bits (src/allocator.rs).
--   Chunk.antt: Pointer, ChunkSize and FreeChunkHeader (src/allocator.rs). A
--     pointer is a 64-bit address. A granule is the 32 bytes of a header: two
--     chunk sizes, two links, and the 8 bytes that are left.
--   Machine.antt: the fields of Allocator with the memory of its address space,
--     and the monad of its methods, which ends in a value, in `fault` (a failed
--     paranoid assertion, a null access or an index out of range) or in
--     `aborted` (the environment gave up).
--   Allocator.antt: the constructor, initialisation, the free lists and the
--     paranoid checks of Allocator (src/allocator.rs). Allocator/Alloc.antt
--     models alloc_impl, Allocator/Free.antt free and usable_size,
--     Allocator/Resize.antt shrink_inplace, grow_inplace and realloc. A function
--     of the source that is long is cut into stages, and each stage is named
--     for what it does.
--   Global.antt: the GlobalAlloc methods of Mutex<Allocator<E>>
--     (src/allocator.rs), and Global/Layouts.antt what they return for a layout.
--   Env.antt: the trait Env (src/env.rs) as a record of operations. Env/Array.antt
--     models ArrayPointer (src/env.rs); Env/Linux.antt, Env/Wasm.antt,
--     Env/Polkavm.antt and Env/Corevm.antt model the System of each platform
--     (src/env/linux.rs, src/env/wasm.rs, src/env/polkavm.rs, src/env/corevm.rs)
--     over its system calls or host functions, which are parameters.
--   Mutex.antt: the spin lock (src/mutex.rs) as a step relation over threads.
--     Mutex/Exclusion.antt is about its holder, Mutex/Progress.antt about waiting
--     threads and about deadlock.
--   Libc.antt: the C functions (src/global_allocator_libc.rs) over one locked
--     allocator and an errno. Libc/Served.antt says what such a call may leave,
--     Libc/Answers.antt and Libc/Zeroed.antt are about the calls that allocate,
--     Libc/First.antt about the first of them in a process,
--     Libc/Release.antt about free, Libc/Resizing.antt about realloc.
--   Size/Convert.antt, Size/Align.antt and Size/Powers.antt: conversions and
--     alignments.
--   Base.antt and Bits.antt: helpers on numbers, options, slices and words.
--   FreeList.antt: the specification of the free lists, doubly linked lists as
--     maps from offsets, with insertion and removal. FreeList/Represents.antt
--     says when the fields and the memory of an allocator store such lists.
--   Tiles.antt: the specification of the address space, chunks that tile it and
--     the map of allocations, and what each operation does to them.
--     Tiles/Holds.antt says when headers and free lists in memory store such a
--     tiling; Tiles/Check.antt is about the paranoid checks.
--     free: Tiles/Loose.antt, Tiles/Absorb.antt and Tiles/Settle.antt are about the
--     states within the call, Tiles/Around.antt and Tiles/Merge.antt about merging,
--     Tiles/Free.antt about all of it.
--     alloc_impl: Tiles/Allot.antt and Tiles/Cut.antt are about cutting a chunk,
--     Tiles/Write.antt, Tiles/Calls.antt, Tiles/Carve.antt, Tiles/Expand.antt,
--     Tiles/Place.antt, Tiles/Find.antt, Tiles/Alloc.antt and Tiles/Grant.antt
--     about the stages, Tiles/Outcome.antt and Tiles/Allocate.antt about all of
--     it, and Tiles/Promises.antt about what follows for the caller.
--     shrink_inplace and grow_inplace: Tiles/Resized.antt is about the chunks,
--     Tiles/Inplace.antt about the calls they share, Tiles/Shrink.antt and
--     Tiles/Trim.antt, Tiles/Grow.antt, Tiles/Extend.antt and Tiles/Enlarge.antt
--     about the two functions. realloc: Tiles/Move.antt and Tiles/Realloc.antt.
--     Tiles/Allocations.antt is about the map of allocations, Tiles/Usable.antt
--     about usable_size and Tiles/Initialize.antt about initialize.
--   Fuzz.antt: the operations and assertions of the fuzz target
--     fuzz/fuzz_targets/allocator_buffer.rs on the allocator over its test
--     environment, with `Vec` and slices as a length and a function of the index
--     (Base/Vec.antt) and the generator of numbers as a parameter.
--     Fuzz/Tracked.antt relates what the target keeps track of to the tiling;
--     Fuzz/Step.antt, Fuzz/Release.antt, Fuzz/Shorten.antt, Fuzz/Lengthen.antt,
--     Fuzz/Powers.antt and Fuzz/Fill.antt are about one operation, Fuzz/Runs.antt
--     about all of them in any order.
--   Allocator/Tests.antt: the unit tests (src/lib.rs) as programs, and their runs.
--   Examples.antt: the theorems at concrete inputs.
--
-- How the parts interact
--   alloc_impl rounds a request up to granules (Size), turns it into a bin
--   (Bins), finds the first nonempty bin from there on (BitMask), takes the
--   head out of its list, asks the environment for memory up to the end of the
--   new chunk, splits off what is not needed and registers it again (FreeList).
--   free merges a chunk with its free neighbours, which the headers in memory
--   name, and registers the result. The language interfaces (Global, Libc) run
--   these under the lock.
--
-- Choices
--   The build is one with the paranoid assertions, on a machine with 64-bit
--   addresses: masks have 64 bits, the bins have 7 mantissa bits, and there are
--   2432 bins. Memory is a function from granule addresses. The feature
--   realloc_inplace is a Boolean parameter. The search for the mantissa bits goes
--   through the list from 8 to 1, and no other loop is left, so no fuel is
--   chosen by hand.
--   A mutex that is locked twice by one thread ends in `deadlock`.
--
-- What is not modelled
--   The re-exports of src/lib.rs, the crate in native/, which holds a panic
--   handler, and fuzz/fuzz_targets/allocator_system.rs, which has the operations
--   of the other target over the memory of the system.
--   The first call in a process initialises the allocator, and may abort where
--   the environment has no memory; the results below say which state they start
--   from. Without realloc_inplace a realloc that shrinks writes past the new
--   chunk, which is a fault of the model.

pub mod Base
pub mod Bits
pub mod BitMask
pub mod Size
pub mod Bins
pub mod Chunk
pub mod Env
pub mod Machine
pub mod Allocator
pub mod FreeList
pub mod Tiles
pub mod Global
pub mod Libc
pub mod Fuzz
pub mod Mutex
pub mod Examples
