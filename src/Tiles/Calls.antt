-- ===== src/Tiles/Calls.antt =====
-- The calls of `carve` in src/allocator.rs, in their order.
use picoalloc.Base.{◌≡◌, true, ◌==◌, arith, refl}
use picoalloc.Size
use picoalloc.Size.{Size}
use picoalloc.Chunk.{Pointer, unchecked_add, unchecked_sub, chunk_size}
use picoalloc.BitMask.{BitIndex}
use picoalloc.Env.{Env}
use picoalloc.Machine.{State, ok, load, paranoid_assert}
use picoalloc.Allocator.{
  unregister_free_space_first_chunk, register_free_space, register_allocation, link_behind,
  paranoid_check_chunk,
}
use picoalloc.Allocator.Alloc.{carve}

-- The calls of `carve` one by one, each with its result.
module _ {E : Type 0} (env : Env E) (s s1 s2 s3 s4 s5 : State E) (pc ph pn pe : Pointer)
    (bin : BitIndex) (p0 p1 p3 lhs rhs full r data_offset end_offset : Size)
    (loads : load pc s ≡ ok (s.memory pc) s) (prev : (s.memory pc).prev_chunk_size ≡ p0)
    (eq1 : unregister_free_space_first_chunk pc bin s ≡ ok tt s1)
    (eq2 : register_free_space pc p0 lhs s1 ≡ ok p1 s2) (full_eq : Size.unchecked_add r 1 ≡ full)
    (eq3 : register_allocation ph p1 full s2 ≡ ok tt s3)
    (next_eq : unchecked_add (unchecked_add ph 1) r ≡ pn)
    (eq4 : register_free_space pn full rhs s3 ≡ ok p3 s4) (end_eq : unchecked_add pn rhs ≡ pe)
    (eq5 : link_behind env 24 pe p3 s4 ≡ ok tt s5) (back_eq : unchecked_sub ph lhs ≡ pc)
    (check_h : paranoid_check_chunk env ph s5 ≡ ok tt s5)
    (check_c : paranoid_check_chunk env pc s5 ≡ ok tt s5)
    (check_n : paranoid_check_chunk env pn s5 ≡ ok tt s5)
    (load_h : load ph s5 ≡ ok (s5.memory ph) s5)
    (size_read : chunk_size ((s5.memory ph).size) ≡ full) where
  same_size : (full == full) ≡ true
  same_size = ground arith

  pub carve_run :
      carve env pc bin r
        (record {
          data_offset = data_offset;
          allocation_chunk = ph;
          free_space_lhs = lhs;
          free_space_rhs = rhs;
          end_offset = end_offset;
        })
        s
      ≡ ok tt s5
  unfolding carve paranoid_assert
  carve_run =
      rw
        (
          loads, prev, eq1, eq2, full_eq, eq3, next_eq, eq4, end_eq, eq5, check_h, back_eq, check_c,
          check_n, load_h, size_read, same_size,
        )
        refl
