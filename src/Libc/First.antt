-- ===== src/Libc/First.antt =====
-- The calls of src/global_allocator_libc.rs that find the allocator as `Allocator::new` left it.
use picoalloc.Base.{
  ℕ, Bool, true, false, not, ◌||◌, ◌==◌, ◌!=◌, ltb, ◌≡◌, ◌≢◌, ◌<◌, refl, ◌⊎◌, inl, inr, arith,
  Option, none, Option-cases, Bool-cases, is_power_of_two,
}
use picoalloc.Size.{Size, from_bytes_usize}
use picoalloc.Chunk.{Pointer, Granule, null, is_null}
use picoalloc.Env.{Env}
use picoalloc.Machine
use picoalloc.Machine.{State, ok}
use picoalloc.Allocator.{new, initialize}
use picoalloc.Allocator.Alloc
use picoalloc.Allocator.Alloc.{alloc_impl}
use picoalloc.FreeList.{insert, empty}
use picoalloc.Tiles.{whole}
use picoalloc.Tiles.Initialize.{Grants, initialize-Holds}
use picoalloc.Libc.{
  Process, C, returned, enomem, einval, with_lock, posix_memalign, aligned_alloc, calloc,
  checked_mul, set_errno, out_of_memory, pointer_or_errno,
}
use picoalloc.Libc.Served.{Idle}

-- The process before its first call.
abbrev pub fresh : {E : Type 0} → E → (Pointer → Granule) → ℕ → Process E
fresh e memory errno = record { heap = new e memory; locked = false; errno = errno }

-- Two states between which a call does not tell apart: it ends in the same way from both, or it
-- answers the same and changes nothing but `errno`.
abbrev pub Alike : {E A : Type 0} → C E A → Process E → Process E → Type 0
Alike {A = A} call p q =
    (call p ≡ call q)
    ⊎ ((a : A) × (code : ℕ) × (call p ≡ returned a (record p { errno = code }))
        × (call q ≡ returned a (record q { errno = code })))

module _ {E : Type 0} (env : Env E) (e : E) (memory : Pointer → Granule) (errno : ℕ) (s : State E)
    (ready : initialize env (new e memory) ≡ ok true s) (again : initialize env s ≡ ok true s) where
  abbrev p : Process E
  p = fresh e memory errno

  abbrev q : Process E
  q = record { heap = s; locked = false; errno = errno }

  -- `alloc_impl` initialises the allocator first, unless it refuses the alignment before.
  same_result :
      (align r : Size) (z : Bool)
      → (alloc_impl env align r z (new e memory) ≡ alloc_impl env align r z s)
        ⊎ ((state : State E) → alloc_impl env align r z state ≡ ok none state)
  unfolding alloc_impl
  same_result align r z = elim (Bool-cases (align == 0 || not (is_power_of_two 32 align))) [
    | inl bad ↦ inr (λ state. rw (alloc_impl, bad) refl)
    | inr valid ↦ inl (rw (alloc_impl, valid, ready, again) refl)
  ]

  locked_alike :
      {A : Type 0} (m : Machine.M E A) → m (new e memory) ≡ m s → with_lock m p ≡ with_lock m q
  unfolding with_lock
  locked_alike m eq = rw (with_lock, eq) refl

  locked_none :
      (m : Machine.M E (Option Pointer)) (r : Process E)
      → r.locked ≡ false
      → m r.heap ≡ ok none r.heap
      → with_lock m r ≡ returned none r
  unfolding with_lock
  locked_none m r free eq = rw (with_lock, free, eq) refl

  posix_memalign-Alike : (align size : ℕ) → Alike (posix_memalign env align size) p q
  unfolding posix_memalign Alloc.alloc
  posix_memalign-Alike align size =
      elim (Bool-cases (not (is_power_of_two 64 align) || ltb align 8)) [
        | inl bad ↦
            inr
              ((einval, null), errno, rw (posix_memalign, bad) refl, rw (posix_memalign, bad) refl)
        | inr valid ↦ elim (Option-cases (from_bytes_usize size)) [
          | inl x ↦ inr (
            (enomem, null),
            errno,
            rw (posix_memalign, valid, x) refl,
            rw (posix_memalign, valid, x) refl,
          )
          | inr (granules, x) ↦ elim (Option-cases (from_bytes_usize align)) [
            | inl y ↦ inr (
              (enomem, null),
              errno,
              rw (posix_memalign, valid, x, y) refl,
              rw (posix_memalign, valid, x, y) refl,
            )
            | inr (a, y) ↦ elim (same_result a granules false) [
              | inl same ↦ inl (
                  rw (posix_memalign, valid, x, y, locked_alike (Alloc.alloc env a granules) same)
                    refl)
              | inr refuses ↦ inr (
                (enomem, null),
                errno,
                rw
                    (
                      posix_memalign,
                      valid,
                      x,
                      y,
                      locked_none (Alloc.alloc env a granules) p refl (refuses p.heap),
                    )
                    refl,
                rw
                    (
                      posix_memalign,
                      valid,
                      x,
                      y,
                      locked_none (Alloc.alloc env a granules) q refl (refuses s),
                    )
                    refl,
              )
            ]
          ]
        ]
      ]

  aligned_alloc-Alike : (align size : ℕ) → Alike (aligned_alloc env align size) p q
  unfolding aligned_alloc set_errno
  aligned_alloc-Alike align size = elim (posix_memalign-Alike align size) [
    | inl same ↦ inl (rw (aligned_alloc, same) refl)
    | inr ((code, pointer), kept, eq_p, eq_q) ↦ elim (Bool-cases (code != 0)) [
      | inl fails ↦ inr (
        pointer,
        code,
        rw (aligned_alloc, eq_p, fails) refl,
        rw (aligned_alloc, eq_q, fails) refl,
      )
      | inr works ↦ inr (
        pointer,
        kept,
        rw (aligned_alloc, eq_p, works) refl,
        rw (aligned_alloc, eq_q, works) refl,
      )
    ]
  ]

  calloc-Alike : (count size : ℕ) → Alike (calloc env count size) p q
  unfolding calloc Alloc.alloc_zeroed pointer_or_errno out_of_memory set_errno
  calloc-Alike count size = elim (Option-cases (checked_mul count size)) [
    | inl x ↦ inr (null, enomem, rw (calloc, x) refl, rw (calloc, x) refl)
    | inr (bytes, x) ↦ elim (Option-cases (from_bytes_usize bytes)) [
      | inl y ↦ inr (null, enomem, rw (calloc, x, y) refl, rw (calloc, x, y) refl)
      | inr (granules, y) ↦ elim (same_result 1 granules true) [
        | inl same ↦
            inl (rw (calloc, x, y, locked_alike (Alloc.alloc_zeroed env 1 granules) same) refl)
        | inr refuses ↦ inr (
          null,
          enomem,
          rw (calloc, x, y, locked_none (Alloc.alloc_zeroed env 1 granules) p refl (refuses p.heap))
              refl,
          rw (calloc, x, y, locked_none (Alloc.alloc_zeroed env 1 granules) q refl (refuses s))
              refl,
        )
      ]
    ]
  ]

-- An allocator with a space is not initialised again.
initialize_again :
    {E : Type 0} (env : Env E) (s : State E) → 0 < s.base_address → initialize env s ≡ ok true s
unfolding initialize is_null
initialize_again env s based =
    let c : (s.base_address == 0) ≡ false = ground (arith, based) in rw (initialize, c) refl

-- A first call, over an environment that grants an address space with memory for its first granule.
-- There is a process between two calls, with an initialised allocator whose space is one free chunk, with the same `errno` and with the same memory but for the first granule, from which
-- `posix_memalign`, `aligned_alloc` and `calloc` end as they do from the new process; or
-- they answer the same from both and change nothing but `errno`.
pub first_calls :
    {E : Type 0} (env : Env E) (e : E) (memory : Pointer → Granule) (base : Pointer) (total : Size)
    (e'' : E) (errno : ℕ)
    → Grants env e base total e''
    → (q : Process E) × Idle env total q (whole total) (insert empty 0 total)
      × (q.errno ≡ errno)
      × ((a : Pointer) → a ≢ base → q.heap.memory a ≡ memory a)
      × ((align size : ℕ) → Alike (posix_memalign env align size) (fresh e memory errno) q)
      × ((align size : ℕ) → Alike (aligned_alloc env align size) (fresh e memory errno) q)
      × ((count size : ℕ) → Alike (calloc env count size) (fresh e memory errno) q)
first_calls env e memory base total e'' errno grants =
    let (s, ready, at_base, holds, space, others) =
      initialize-Holds env e memory base total e'' grants in
    let again = initialize_again env s (rw at_base grants.based) in
    (
      record { heap = s; locked = false; errno = errno },
      record { unlocked = refl; holds = holds; granular = rw at_base grants.aligned },
      refl,
      others,
      posix_memalign-Alike env e memory errno s ready again,
      aligned_alloc-Alike env e memory errno s ready again,
      calloc-Alike env e memory errno s ready again,
    )
