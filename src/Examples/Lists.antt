-- ===== src/Examples/Lists.antt =====
-- The theorems about the free lists of src/allocator.rs at a space with one chunk.
use picoalloc.Base.{arith, refl}
use picoalloc.BitMask
use picoalloc.BitMask.Members.{new-IsWf, new-contains}
use picoalloc.Chunk.{zero_granule}
use picoalloc.Machine.{State}
use picoalloc.Allocator.{size_to_bin_round_down, unregister_free_space, register_free_space}
use picoalloc.FreeList.{Lists, empty, insert, remove}
use picoalloc.FreeList.Insert.{empty-IsLinked, insert-IsLinked}
use picoalloc.FreeList.Represents.{at, Represents}
use picoalloc.FreeList.Unregister.{Unregistered, unregister_free_space-Represents}
use picoalloc.FreeList.Register.{Registered, register_free_space-Represents}

-- Eight granules at 0x1000, all of them initialised, with empty lists.
abbrev pub blank : State (Unit {0})
blank = record {
  allocated_space = 8;
  base_address = 0x1000;
  free_lists_with_unallocated_memory = BitMask.new;
  first_in_free_list = λ _. 0;
  env = tt;
  memory = λ _. zero_granule;
}

pub blank-Represents : Represents blank empty
blank-Represents = record {
  space = omega arith;
  inside = λ o e. absurd (ground arith);
  header = λ o e. absurd (ground arith);
  first = λ bin. refl;
  mask = new-IsWf;
  bit = λ bin lt. new-contains bin;
}

register_free_space-Represents_example :
    Registered empty blank 1 7 3 (register_free_space 0x1020 7 3 blank)
register_free_space-Represents_example =
    register_free_space-Represents blank empty 1 7 3 empty-IsLinked blank-Represents refl
      (omega arith) (omega arith) (omega arith)

abbrev one_free : Lists
one_free = insert empty 1 3

abbrev one_free_state : State (Unit {0})
one_free_state =
    (register_free_space-Represents blank empty 1 7 3 empty-IsLinked blank-Represents refl
      (omega arith) (omega arith) (omega arith)).0

unregister_free_space-Represents_example :
    Unregistered one_free one_free_state (remove one_free 1) (
      unregister_free_space
        (at one_free_state.base_address 1)
        (size_to_bin_round_down 3)
        one_free_state)
unregister_free_space-Represents_example =
    unregister_free_space-Represents one_free_state one_free 1
      (insert-IsLinked empty empty-IsLinked 1 3 refl)
      (register_free_space-Represents blank empty 1 7 3 empty-IsLinked blank-Represents refl
        (omega arith) (omega arith) (omega arith)).2
      refl
