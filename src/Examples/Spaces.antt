-- ===== src/Examples/Spaces.antt =====
-- The theorems about the address space of src/allocator.rs at spaces of a few granules.
use picoalloc.Base.{
  ◌≢◌, false, not, is_power_of_two, inl, ◌+◌, ◌*◌, ◌∙◌, some, ◌≤◌, ℕ, ◌≡◌, ◌⊎◌, ◌||◌, ◌==◌, true,
  update, arith, refl,
}
use picoalloc.Env.{KeepsTotal}
use picoalloc.Chunk.{zero_granule, new_allocated}
use picoalloc.Machine.{State, ok}
use picoalloc.Allocator.{new, initialize, register_free_space}
use picoalloc.Allocator.Alloc.{alloc_impl}
use picoalloc.Allocator.Free.{free, usable_size}
use picoalloc.Tiles.Usable.{usable_size_lem}
use picoalloc.Tiles.Allocate.{alloc_impl-Holds}
use picoalloc.Tiles.Outcome.{Allocated, Declined}
use picoalloc.Allocator.Tests.{buffer}
use picoalloc.FreeList.{Lists, insert, empty}
use picoalloc.FreeList.Insert.{empty-IsLinked, insert-IsLinked}
use picoalloc.FreeList.Represents.{at, Represents}
use picoalloc.FreeList.Register.{FramedBut, Registered, register_free_space-Represents}
use picoalloc.Tiles.Promises.{Fresh, alloc_impl-Granted, alloc_zeroed-zeros}
use picoalloc.Tiles.Realloc.{Reallocated, realloc-Holds}
use picoalloc.Bins.{to_bin_index, to_bin_index_generic}
use picoalloc.BitMask.{index}
use picoalloc.Allocator.{clamped, size_to_bin_round_down}
use picoalloc.Allocator.Alloc.{alloc_zeroed}
use picoalloc.Allocator.Resize.{realloc}
use picoalloc.FreeList.{bin_of}
use picoalloc.Tiles.Trim.{shrink_inplace-Holds}
use picoalloc.Tiles.Extend.{Grown, Stuck}
use picoalloc.Tiles.Enlarge.{grow_inplace-Holds}
use picoalloc.Allocator.Resize.{shrink_inplace, grow_inplace}
use picoalloc.Tiles.{allocation, either, trimmed, Tiles, whole, freed, IsTiled, IsCoalesced}
use picoalloc.Tiles.Holds.{Holds, header}
use picoalloc.Tiles.Loose.{Kept}
use picoalloc.Tiles.Free.{free-Holds}
use picoalloc.Tiles.Initialize.{initialize-Holds}
use picoalloc.Examples.Lists.{blank, blank-Represents}

initialize-Holds_example :
    (s : State (Unit {0})) × (initialize (buffer 4) (new tt (λ _. zero_granule)) ≡ ok true s)
    × (s.base_address ≡ 0x1000)
    × Holds (buffer 4) 4 s (whole 4) (insert empty 0 4)
    × (s.allocated_space ≡ 1)
    × ((p : ℕ) → p ≢ 0x1000 → s.memory p ≡ zero_granule)
initialize-Holds_example =
    initialize-Holds (buffer 4) tt (λ _. zero_granule) 0x1000 4 tt
      (record {
        e' = tt;
        allocates = refl;
        expands = refl;
        total_eq = refl;
        aligned = refl;
        based = omega arith;
        nonempty = omega arith;
        short = omega arith;
        no_wrap = omega arith;
      })

-- An allocated chunk of four granules, and a free one.
abbrev pub two_chunks : Tiles
two_chunks = record {
  starts = λ o. o == 0 || o == 4;
  size = λ _. 4;
  prev = λ o. o;
  used = λ o. o == 0;
}

abbrev pub with_header : State (Unit {0})
with_header = record blank {
  memory = update (λ _. zero_granule) 0x1000 (record zero_granule { size = new_allocated 4 });
}

pub with_header-Represents : Represents with_header empty
with_header-Represents = record {
  space = blank-Represents.space;
  inside = blank-Represents.inside;
  header = λ o e. absurd (ground arith);
  first = blank-Represents.first;
  mask = blank-Represents.mask;
  bit = blank-Represents.bit;
}

two_chunks-IsTiled : IsTiled 8 two_chunks
two_chunks-IsTiled = record {
  origin = ground arith;
  within = λ o h. ground arith;
  next = λ o h lt. ground arith;
  before = λ o h lt. ground arith;
  gap = λ o q h h' lt. ground arith;
}

two_chunks-IsCoalesced : IsCoalesced 8 two_chunks
two_chunks-IsCoalesced = record {
  next = λ o h f lt. ground arith;
  before = λ o h f lt. ground arith;
}

-- Any state that registering the free chunk may lead to.
pub two_chunks-Holds :
    (s : State (Unit {0}))
    → Represents s (insert empty 4 4)
    → FramedBut empty 4 with_header s
    → (s.memory 0x1080).prev_chunk_size ≡ 4
    → Holds (buffer 8) 8 s two_chunks (insert empty 4 4)
unfolding header
two_chunks-Holds s rep framed prev = record {
  spans = record {
    total_eq = refl;
    based = rw framed.base (omega arith);
    short = omega arith;
    no_wrap = rw framed.base (omega arith);
    reach = rw framed.space (omega arith);
  };
  tiled = two_chunks-IsTiled;
  tight = two_chunks-IsCoalesced;
  headers = record {
    touched = λ o h. rw framed.space (ground arith);
    size = λ o h. rw framed.base (ground (arith, rep.header 4, framed.base, framed.sizes 0x1000));
    prev = λ o h. rw framed.base (ground (arith, prev, framed.sizes 0x1000));
  };
  agrees = record { free = λ o. ground arith; size = λ o h f. ground arith };
  linked = insert-IsLinked empty empty-IsLinked 4 4 refl;
  lists = rep;
  backed = λ o z e. rw framed.space (ground arith);
}

abbrev pub registered :
    Registered empty with_header 4 4 4 (register_free_space 0x1080 4 4 with_header)
registered =
    register_free_space-Represents with_header empty 4 4 4 empty-IsLinked with_header-Represents
      refl (omega arith) (omega arith) (omega arith)

abbrev pub two_state : State (Unit {0})
two_state = registered.0

free-Holds_example :
    (s' : State (Unit {0})) × (l' : Lists) × (free
        (buffer 8)
        (at two_state.base_address 1)
        two_state
      ≡ ok tt s')
    × Holds (buffer 8) 8 s' (freed 8 two_chunks 0) l'
    × Kept two_chunks two_state s'
free-Holds_example =
    free-Holds (buffer 8) 8 two_state two_chunks (insert empty 4 4) 0
      (two_chunks-Holds two_state registered.2 registered.3 registered.4) refl refl

pub buffer-KeepsTotal : KeepsTotal (buffer 8)
buffer-KeepsTotal = record { on_allocate = λ e e' p h. refl; on_expand = λ e base size. refl }

alloc_impl-Holds_example :
    Allocated (buffer 8) 8 two_state two_chunks 1 1 true (alloc_impl (buffer 8) 1 1 true two_state)
    ⊎ Declined
        (buffer 8)
        8
        two_state
        two_chunks
        (insert empty 4 4)
        1
        1
        (alloc_impl (buffer 8) 1 1 true two_state)
alloc_impl-Holds_example =
    alloc_impl-Holds (buffer 8) 8 two_state two_chunks (insert empty 4 4) 1 1 true
      (two_chunks-Holds two_state registered.2 registered.3 registered.4) buffer-KeepsTotal
      (rw registered.3.base refl)

usable_size_lem_example : usable_size (at two_state.base_address 1) two_state ≡ ok 96 two_state
usable_size_lem_example =
    usable_size_lem (buffer 8) 8 two_state two_chunks (insert empty 4 4) 0
      (two_chunks-Holds two_state registered.2 registered.3 registered.4) refl

abbrev pub two_Holds : Holds (buffer 8) 8 two_state two_chunks (insert empty 4 4)
two_Holds = two_chunks-Holds two_state registered.2 registered.3 registered.4

shrink_inplace-Holds_example :
    (s' : State (Unit {0})) × (l' : Lists) × (shrink_inplace
        (buffer 8)
        (at two_state.base_address 1)
        1
        two_state
      ≡ ok tt s')
    × Holds (buffer 8) 8 s' (trimmed 8 two_chunks 0 1) l'
    × Kept (either two_chunks (trimmed 8 two_chunks 0 1)) two_state s'
    × ((x : ℕ)
        → allocation (trimmed 8 two_chunks 0 1) x ≡ update (allocation two_chunks) 0 (some 2) x)
shrink_inplace-Holds_example =
    shrink_inplace-Holds (buffer 8) 8 two_state two_chunks (insert empty 4 4) 0 1 two_Holds refl
      refl (omega arith)

grow_inplace-Holds_example :
    ((6 ≤ 4)
      × (grow_inplace (buffer 8) (at two_state.base_address 1) 5 two_state ≡ ok (some 3) two_state))
    ⊎ (Grown
          (buffer 8)
          8
          two_state
          two_chunks
          0
          5
          (grow_inplace (buffer 8) (at two_state.base_address 1) 5 two_state)
        ⊎ Stuck
            (buffer 8)
            8
            two_state
            two_chunks
            (insert empty 4 4)
            0
            5
            (grow_inplace (buffer 8) (at two_state.base_address 1) 5 two_state))
grow_inplace-Holds_example =
    grow_inplace-Holds (buffer 8) 8 two_state two_chunks (insert empty 4 4) 0 5 two_Holds
      buffer-KeepsTotal refl refl

bins_fit : to_bin_index true (clamped 2) ≤ bin_of 4
unfolding to_bin_index clamped bin_of size_to_bin_round_down to_bin_index_generic index
bins_fit = omega arith

valid_1 : (1 == 0 || not (is_power_of_two 32 1)) ≡ false
unfolding is_power_of_two
valid_1 = refl

alloc_impl-Granted_example :
    Allocated (buffer 8) 8 two_state two_chunks 1 1 true (alloc_impl (buffer 8) 1 1 true two_state)
alloc_impl-Granted_example =
    alloc_impl-Granted (buffer 8) 8 two_state two_chunks (insert empty 4 4) 1 1 true 4 two_Holds
      buffer-KeepsTotal (rw registered.3.base refl) valid_1 (omega arith) refl refl bins_fit
      (λ end inside. ground arith)

pub two_Fresh : Fresh two_state
two_Fresh p above =
    let high : 0x1000 + 8 * 32 ≤ p = omega (arith, above, registered.3.base, registered.3.space) in
    registered.3.others p (λ e. absurd (omega (arith, e, high)))
      (λ o e f. absurd (ground (arith, e)))
    ∙ ground (arith, high)

abbrev granted :
    Allocated (buffer 8) 8 two_state two_chunks 1 1 true (alloc_impl (buffer 8) 1 1 true two_state)
granted =
    alloc_impl-Granted (buffer 8) 8 two_state two_chunks (insert empty 4 4) 1 1 true 4 two_Holds
      buffer-KeepsTotal (rw registered.3.base refl) valid_1 (omega arith) refl refl bins_fit
      (λ end inside. ground arith)

alloc_zeroed-zeros_example :
    granted.s'.memory (at two_state.base_address (granted.h + 1) + 0 * 32) ≡ zero_granule
unfolding alloc_zeroed
alloc_zeroed-zeros_example =
    alloc_zeroed-zeros (buffer 8) 8 two_state granted.s' two_chunks (insert empty 4 4) 1 1
      (at two_state.base_address (granted.h + 1)) 0 two_Holds buffer-KeepsTotal
      (rw registered.3.base refl) two_Fresh granted.returns (omega arith)

realloc-Holds_example :
    Reallocated
      (buffer 8)
      8
      two_state
      two_chunks
      (insert empty 4 4)
      0
      1
      6
      true
      (realloc (buffer 8) true (at two_state.base_address 1) 1 6 two_state)
realloc-Holds_example =
    realloc-Holds (buffer 8) 8 two_state two_chunks (insert empty 4 4) 0 1 6 true two_Holds
      buffer-KeepsTotal (rw registered.3.base refl) refl refl (inl refl)
