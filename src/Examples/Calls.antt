-- ===== src/Examples/Calls.antt =====
-- The theorems about src/global_allocator_libc.rs and about `GlobalAlloc` of src/allocator.rs at calls on a space of eight granules.
use picoalloc.Base.{
  ℕ, ◌+◌, ◌*◌, ◌^◌, ◌<◌, ◌≡◌, ◌≢◌, arith, ◌⊎◌, ◌≤◌, inl, Option, none, false, true, refl,
}
use picoalloc.Chunk.{Pointer, zero_granule, null}
use picoalloc.FreeList.Represents.{at}
use picoalloc.Allocator.Tests.{buffer}
use picoalloc.FreeList.{Lists, insert, empty}
use picoalloc.Libc.{Process, returned, enomem, free, realloc, posix_memalign, aligned_alloc, calloc}
use picoalloc.Libc.Served.{Idle}
use picoalloc.Libc.Resizing.{answer, realloc-Reallocated}
use picoalloc.Machine.{State, ok}
use picoalloc.Size.{Size, from_bytes_usize}
use picoalloc.Tiles.Holds.{Holds}
use picoalloc.Tiles.Realloc.{Reallocated}
use picoalloc.Allocator.Resize
use picoalloc.Libc.First.{Alike, fresh, first_calls}
use picoalloc.Tiles.Initialize.{Grants}
use picoalloc.Libc.Release.{free-Idle}
use picoalloc.Tiles.{freed, whole}
use picoalloc.Tiles.Loose.{Kept}
use picoalloc.Libc.Answers.{Codes, Answers, posix_memalign-Codes, aligned_alloc-Answers}
use picoalloc.Libc.Zeroed.{Zeroed, calloc-Zeroed}
use picoalloc.Global.{alloc, alloc_zeroed}
use picoalloc.Global.Layouts.{Granted, Refused, alloc-Layout, alloc_zeroed-Layout}
use picoalloc.Examples.Spaces.{
  two_chunks, two_state, two_Holds, registered, two_Fresh, buffer-KeepsTotal,
}

abbrev lists : Lists
lists = insert empty 4 4

abbrev process : Process (Unit {0})
process = record { heap = two_state; locked = false; errno = 0 }

process-Idle : Idle (buffer 8) 8 process two_chunks lists
process-Idle = record { unlocked = refl; holds = two_Holds; granular = rw registered.3.base refl }

posix_memalign-Codes_example :
    Codes (buffer 8) 8 process two_chunks lists 64 40 (posix_memalign (buffer 8) 64 40 process)
posix_memalign-Codes_example =
    posix_memalign-Codes (buffer 8) 8 process two_chunks lists process-Idle buffer-KeepsTotal 64 40

aligned_alloc-Answers_example :
    Answers (buffer 8) 8 process two_chunks lists 48 40 (aligned_alloc (buffer 8) 48 40 process)
aligned_alloc-Answers_example =
    aligned_alloc-Answers (buffer 8) 8 process two_chunks lists process-Idle buffer-KeepsTotal 48 40

calloc-Zeroed_example :
    Zeroed (buffer 8) 8 process two_chunks lists (3 * 10) (calloc (buffer 8) 3 10 process)
calloc-Zeroed_example =
    calloc-Zeroed (buffer 8) 8 process two_chunks lists process-Idle buffer-KeepsTotal two_Fresh 3
      10

alloc-Layout_example :
    Granted
      (buffer 8)
      8
      two_state
      two_chunks
      lists
      6
      40
      false
      (alloc (buffer 8) (record { size = 40; align = 2 ^ 6 }) two_state)
    ⊎ Refused
        (buffer 8)
        8
        two_state
        two_chunks
        lists
        6
        40
        false
        (alloc (buffer 8) (record { size = 40; align = 2 ^ 6 }) two_state)
alloc-Layout_example =
    alloc-Layout (buffer 8) 8 two_state two_chunks lists 6 40 two_Holds buffer-KeepsTotal
      (rw registered.3.base refl)

alloc_zeroed-Layout_example :
    ((granted : Granted
        (buffer 8)
        8
        two_state
        two_chunks
        lists
        4
        33
        true
        (alloc_zeroed (buffer 8) (record { size = 33; align = 2 ^ 4 }) two_state))
      × ((i : ℕ)
          → i < granted.granules
          → granted.new.s'.memory (at two_state.base_address (granted.new.h + 1) + i * 32)
            ≡ zero_granule))
    ⊎ Refused
        (buffer 8)
        8
        two_state
        two_chunks
        lists
        4
        33
        true
        (alloc_zeroed (buffer 8) (record { size = 33; align = 2 ^ 4 }) two_state)
alloc_zeroed-Layout_example =
    alloc_zeroed-Layout (buffer 8) 8 two_state two_chunks lists 4 33 two_Holds buffer-KeepsTotal
      (rw registered.3.base refl) two_Fresh

free-Idle_example :
    (free (buffer 8) null process ≡ returned tt process)
    × (p' : Process (Unit {0})) × (l' : Lists) × (free
          (buffer 8)
          (at two_state.base_address (0 + 1))
          process
        ≡ returned tt p')
    × Idle (buffer 8) 8 p' (freed 8 two_chunks 0) l'
    × Kept two_chunks two_state p'.heap
    × (p'.errno ≡ 0)
free-Idle_example =
    free-Idle (buffer 8) 8 process two_chunks lists process-Idle buffer-KeepsTotal 0 refl refl

abbrev new_size : ℕ
new_size = 70

realloc-Reallocated_example :
    ((new_size ≡ 0)
      × (s' : State (Unit {0})) × (l' : Lists) × (realloc
            (buffer 8)
            true
            (at two_state.base_address (0 + 1))
            new_size
            process
          ≡ returned null (record process { heap = s'; locked = false }))
      × Holds (buffer 8) 8 s' (freed 8 two_chunks 0) l'
      × Kept two_chunks two_state s')
    ⊎ ((from_bytes_usize new_size ≡ none)
        × (realloc (buffer 8) true (at two_state.base_address (0 + 1)) new_size process
            ≡ returned null (record process { errno = enomem })))
    ⊎ ((granules : Size) × (q : Option Pointer) × (s' : State (Unit {0})) × (new_size
          ≤ granules * 32)
        × Reallocated (buffer 8) 8 two_state two_chunks lists 0 1 granules true (
            Resize.realloc (buffer 8) true (at two_state.base_address (0 + 1)) 1 granules two_state)
        × (Resize.realloc (buffer 8) true (at two_state.base_address (0 + 1)) 1 granules two_state
            ≡ ok q s')
        × (realloc (buffer 8) true (at two_state.base_address (0 + 1)) new_size process
            ≡ answer process q s'))
realloc-Reallocated_example =
    realloc-Reallocated (buffer 8) 8 process two_chunks lists process-Idle buffer-KeepsTotal true 0
      new_size refl refl (inl refl)

-- The environment of the tests grants four granules.
buffer-Grants : Grants (buffer 4) tt 0x1000 4 tt
buffer-Grants = record {
  e' = tt;
  allocates = refl;
  expands = refl;
  total_eq = refl;
  aligned = refl;
  based = omega arith;
  nonempty = omega arith;
  short = omega arith;
  no_wrap = omega arith;
}

first_calls_example :
    (q : Process (Unit {0})) × Idle (buffer 4) 4 q (whole 4) (insert empty 0 4)
    × (q.errno ≡ 2)
    × ((a : Pointer) → a ≢ 0x1000 → q.heap.memory a ≡ zero_granule)
    × ((align size : ℕ)
        → Alike (posix_memalign (buffer 4) align size) (fresh tt (λ _. zero_granule) 2) q)
    × ((align size : ℕ)
        → Alike (aligned_alloc (buffer 4) align size) (fresh tt (λ _. zero_granule) 2) q)
    × ((count size : ℕ) → Alike (calloc (buffer 4) count size) (fresh tt (λ _. zero_granule) 2) q)
first_calls_example = first_calls (buffer 4) tt (λ _. zero_granule) 0x1000 4 tt 2 buffer-Grants
