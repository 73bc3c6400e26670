-- ===== src/Libc.antt =====
-- src/global_allocator_libc.rs: the C interface over one locked global allocator, with `errno`.
pub mod Served
pub mod Answers
pub mod Zeroed
pub mod First
pub mod Release
pub mod Resizing
use picoalloc.Base.{
  ℕ, ◌*◌, Bool, false, not, ◌==◌, ◌!=◌, ◌||◌, ltb, u64_max, is_power_of_two, Option, none, some,
  if◌then◌else◌,
}
use picoalloc.Size.{from_bytes_usize}
use picoalloc.Chunk.{Pointer, null}
use picoalloc.Env.{Env}
use picoalloc.Machine.{State, Outcome}
use picoalloc.Machine
use picoalloc.Allocator.Alloc
use picoalloc.Allocator.Free
use picoalloc.Allocator.Resize

-- `GLOBAL_ALLOCATOR`: the allocator, the flag of its `Mutex`, and the caller's `errno`.
pub record Process (E : Type 0) : Type 0 where
  pub heap : State E
  pub locked : Bool
  pub errno : ℕ

-- `deadlock`: the thread waits for a lock that it holds itself.
pub data Result (E A : Type 0) : Type 0 where
  returned : A → Process E → Result E A
  fault aborted deadlock : Result E A

module _ {E : Type 0} where
  abbrev pub and_then : {A B : Type 0} → Result E A → (A → Process E → Result E B) → Result E B
  and_then (returned a p) k = k a p
  and_then fault k = fault
  and_then aborted k = aborted
  and_then deadlock k = deadlock

abbrev pub C : Type 0 → Type 0 → Type 0
C E A = Process E → Result E A

module _ {E : Type 0} where
  infixl 5 ◌>>=◌ ◌>>◌
  abbrev pub ◌>>=◌ : {A B : Type 0} → C E A → (A → C E B) → C E B
  ◌>>=◌ m k p = and_then (m p) k

  abbrev pub ◌>>◌ : {A B : Type 0} → C E A → C E B → C E B
  ◌>>◌ m k p = and_then (m p) (λ _. k)

  abbrev pub pure : {A : Type 0} → A → C E A
  pure a p = returned a p

  -- `set_errno`
  unfoldable pub set_errno : ℕ → C E (Unit {0})
  set_errno value p = returned tt (record p { errno = value })

  abbrev from_outcome : {A : Type 0} → Process E → Outcome E A → Result E A
  from_outcome p (Outcome.ok a s) = returned a (record p { heap = s; locked = false })
  from_outcome p Outcome.fault = fault
  from_outcome p Outcome.aborted = aborted

  -- `GLOBAL_ALLOCATOR.lock()`, a call of the allocator, and the drop of the guard.
  unfoldable pub with_lock : {A : Type 0} → Machine.M E A → C E A
  with_lock m p = if p.locked then deadlock else from_outcome p (m p.heap)

abbrev pub enomem : ℕ
enomem = 12

abbrev pub einval : ℕ
einval = 22

-- `usize::checked_mul`
unfoldable pub checked_mul : ℕ → ℕ → Option ℕ
checked_mul a b = if ltb u64_max (a * b) then none else some (a * b)

module _ {E : Type 0} where
  out_of_memory : C E Pointer
  out_of_memory = do set_errno enomem; pure null

  pointer_or_errno : Option Pointer → C E Pointer
  unfolding out_of_memory
  pointer_or_errno none = out_of_memory
  pointer_or_errno (some p) = pure p

module _ {E : Type 0} (env : Env E) where
  -- The error code, and the pointer that is stored through `result` when the code is 0.
  unfoldable pub posix_memalign : ℕ → ℕ → C E (ℕ × Pointer)
  unfolding with_lock
  posix_memalign align size =
      if not (is_power_of_two 64 align) || ltb align 8
      then pure (einval, null)
      else elim (from_bytes_usize size) [
        | none ↦ pure (enomem, null)
        | some granules ↦ elim (from_bytes_usize align) [
          | none ↦ pure (enomem, null)
          | some align_granules ↦ do
            pointer ← with_lock (Alloc.alloc env align_granules granules)
            elim pointer [ none ↦ pure (enomem, null) | some p ↦ pure (0, p) ]
        ]
      ]

  unfoldable pub aligned_alloc : ℕ → ℕ → C E Pointer
  unfolding posix_memalign set_errno
  aligned_alloc align size = do
    (errno, result) ← posix_memalign align size
    if errno != 0 then (do set_errno errno; pure result) else pure result

  unfoldable pub memalign : ℕ → ℕ → C E Pointer
  unfolding aligned_alloc
  memalign align size = aligned_alloc align size

  unfoldable pub malloc : ℕ → C E Pointer
  unfolding aligned_alloc
  malloc size = aligned_alloc 8 size

  -- The alignment is `Size::from_bytes_usize(16).unwrap()`, one granule.
  unfoldable pub calloc : ℕ → ℕ → C E Pointer
  unfolding checked_mul out_of_memory pointer_or_errno set_errno with_lock
  calloc count size = elim (checked_mul count size) [
    | none ↦ out_of_memory
    | some total_bytes ↦ elim (from_bytes_usize total_bytes) [
      | none ↦ out_of_memory
      | some total_size ↦ do
        pointer ← with_lock (Alloc.alloc_zeroed env 1 total_size)
        pointer_or_errno pointer
    ]
  ]

  unfoldable pub free : Pointer → C E (Unit {0})
  unfolding with_lock
  free pointer = if pointer == null then pure tt else with_lock (Free.free env pointer)

  unfoldable pub realloc : Bool → Pointer → ℕ → C E Pointer
  unfolding malloc free with_lock out_of_memory pointer_or_errno set_errno
  realloc realloc_inplace pointer size =
      if pointer == null
      then malloc size
      else (if size == 0 then (do free pointer; pure null) else elim (from_bytes_usize size) [
        | none ↦ out_of_memory
        | some granules ↦ do
          moved ← with_lock (Resize.realloc env realloc_inplace pointer 1 granules)
          pointer_or_errno moved
      ])

  unfoldable pub reallocarray : Bool → Pointer → ℕ → ℕ → C E Pointer
  unfolding checked_mul realloc out_of_memory set_errno
  reallocarray realloc_inplace pointer count size = elim (checked_mul count size) [
    | none ↦ out_of_memory
    | some total_bytes ↦ realloc realloc_inplace pointer total_bytes
  ]

-- Without the lock, as the source reads the header.
unfoldable pub malloc_usable_size : {E : Type 0} → Pointer → C E ℕ
malloc_usable_size pointer p =
    if pointer == null then returned 0 p else elim (Free.usable_size pointer p.heap) [
      | Outcome.ok n s ↦ returned n p
      | Outcome.fault ↦ fault
      | Outcome.aborted ↦ aborted
    ]
