-- ===== src/Global.antt =====
-- src/allocator.rs: `GlobalAlloc` for `Mutex<Allocator<E>>`. The lock is held during each call, so
-- a call is a run of the allocator; 0 is the null pointer.
pub mod Layouts
use picoalloc.Base.{ℕ, Bool, ◌==◌, Option, none, some, if◌then◌else◌}
use picoalloc.Size.{from_bytes_usize}
use picoalloc.Chunk.{Pointer, null}
use picoalloc.Env.{Env}
use picoalloc.Machine.{M, ◌>>=◌, pure}
use picoalloc.Allocator.Alloc
use picoalloc.Allocator.Free
use picoalloc.Allocator.Resize

-- `core::alloc::Layout`
pub record Layout : Type 0 where
  pub size : ℕ
  pub align : ℕ

abbrev pub as_ptr : Option Pointer → Pointer
as_ptr none = null
as_ptr (some p) = p

module _ {E : Type 0} (env : Env E) where
  unfoldable pub alloc : Layout → M E Pointer
  alloc layout = elim (from_bytes_usize layout.align) [
    | none ↦ pure null
    | some align ↦ elim (from_bytes_usize layout.size) [
      | none ↦ pure null
      | some size ↦ do pointer ← Alloc.alloc env align size; pure (as_ptr pointer)
    ]
  ]

  unfoldable pub alloc_zeroed : Layout → M E Pointer
  alloc_zeroed layout = elim (from_bytes_usize layout.align) [
    | none ↦ pure null
    | some align ↦ elim (from_bytes_usize layout.size) [
      | none ↦ pure null
      | some size ↦ do pointer ← Alloc.alloc_zeroed env align size; pure (as_ptr pointer)
    ]
  ]

  unfoldable pub realloc : Bool → Pointer → Layout → ℕ → M E Pointer
  realloc realloc_inplace pointer layout new_size =
      if pointer == null then pure null else elim (from_bytes_usize layout.align) [
        | none ↦ pure null
        | some align ↦ elim (from_bytes_usize new_size) [
          | none ↦ pure null
          | some size ↦ do
            moved ← Resize.realloc env realloc_inplace pointer align size
            pure (as_ptr moved)
        ]
      ]

  unfoldable pub dealloc : Pointer → Layout → M E (Unit {0})
  dealloc pointer layout = if pointer == null then pure tt else Free.free env pointer
