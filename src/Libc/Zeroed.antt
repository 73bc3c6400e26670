-- ===== src/Libc/Zeroed.antt =====
-- What `calloc` of src/global_allocator_libc.rs returns.
use picoalloc.Base.{
  ℕ, ◌+◌, ◌*◌, ◌<◌, ◌≡◌, ◌⊎◌, inl, inr, true, ltb, arith, refl, ap, ◌∙◌, none, some, Option-cases,
  Bool-cases, u64_max,
}
use picoalloc.Size.{Size, from_bytes_usize}
use picoalloc.Size.Convert.{from_bytes_usize_iff}
use picoalloc.Chunk.{Pointer, null, zero_granule}
use picoalloc.Env.{Env, KeepsTotal}
use picoalloc.Machine
use picoalloc.Machine.{State}
use picoalloc.Allocator.Alloc
use picoalloc.Allocator.Alloc.{alloc_impl}
use picoalloc.FreeList.{Lists}
use picoalloc.FreeList.Represents.{at}
use picoalloc.Tiles.{Tiles}
use picoalloc.Tiles.Promises.{Fresh, data_zero}
use picoalloc.Tiles.Allocate.{alloc_impl-Holds}
use picoalloc.Libc.{
  Process, Result, returned, enomem, set_errno, calloc, checked_mul, out_of_memory,
  pointer_or_errno,
}
use picoalloc.Libc.Served.{
  Shortage, size_too_large, refused, Idle, Served, Unserved, nothing, after, served, unserved,
  with_lock-ok, keep_errno_apart,
}

-- A pointer to zeroed memory, or null and the error in `errno`. The alignment is one granule.
abbrev pub Zeroed :
    {E : Type 0} → Env E → Size → Process E → Tiles → Lists → ℕ → Result E Pointer → Type 0
Zeroed {E} env total p t l size r =
    (p' : Process E) × (pointer : Pointer) × (r ≡ returned pointer p')
    × (((served : Served env total p p' t 32 size pointer) × ((i : ℕ)
            → i < served.granules
            → p'.heap.memory (pointer + i * 32) ≡ zero_granule))
        ⊎ ((p'.errno ≡ enomem)
            × Shortage env total p.heap t 32 size
            × Unserved env total p p' t l pointer))

one_granule : from_bytes_usize 32 ≡ some 1
one_granule = (from_bytes_usize_iff 32 1).1 (omega arith)

module _ {E : Type 0} (env : Env E) (total : Size) (p : Process E) (t : Tiles) (l : Lists)
    (idle : Idle env total p t l) (keeps : KeepsTotal env) (fresh : Fresh p.heap) where
  open idle use {holds, granular}

  module _ (count size : ℕ) where
    abbrev calloc_run : Result E Pointer
    calloc_run = calloc env count size p

    abbrev failed : Process E
    failed = record p { errno = enomem }

    too_many : checked_mul count size ≡ none → calloc_run ≡ returned null failed
    unfolding calloc out_of_memory set_errno
    too_many e = rw (calloc, e) refl

    module _ (product : checked_mul count size ≡ some (count * size)) where
      no_granules : from_bytes_usize (count * size) ≡ none → calloc_run ≡ returned null failed
      unfolding calloc out_of_memory set_errno
      no_granules e = rw (calloc, product, e) refl

      module _ (granules : Size) (e : from_bytes_usize (count * size) ≡ some granules) where
        calloc_some :
            (q : Pointer) (s : State E)
            → alloc_impl env 1 granules true p.heap ≡ Machine.ok (some q) s
            → calloc_run ≡ returned q (after env total p t l idle keeps s)
        unfolding calloc Alloc.alloc_zeroed pointer_or_errno
        calloc_some q s eq =
            rw
              (
                calloc,
                product,
                e,
                with_lock-ok env total p t l idle keeps (Alloc.alloc_zeroed env 1 granules) (some q)
                    s eq,
              )
              refl

        calloc_none :
            (s : State E)
            → alloc_impl env 1 granules true p.heap ≡ Machine.ok none s
            → calloc_run
              ≡ returned null (record (after env total p t l idle keeps s) { errno = enomem })
        unfolding calloc Alloc.alloc_zeroed pointer_or_errno out_of_memory set_errno
        calloc_none s eq =
            rw
              (
                calloc,
                product,
                e,
                with_lock-ok env total p t l idle keeps (Alloc.alloc_zeroed env 1 granules) none s
                    eq,
              )
              refl

        calloc_requested : Zeroed env total p t l (count * size) calloc_run
        unfolding served
        calloc_requested =
            elim (alloc_impl-Holds env total p.heap t l 1 granules true holds keeps granular) [
              | inl new ↦ (
                after env total p t l idle keeps new.s',
                at p.heap.base_address (new.h + 1),
                calloc_some (at p.heap.base_address (new.h + 1)) new.s' new.returns,
                inl (
                  served env total p t l idle keeps 5 (count * size) granules e true new,
                  λ i lt.
                      ap new.s'.memory (omega arith)
                      ∙ data_zero new (λ _. zero_granule) fresh refl i lt refl,
                ),
              )
              | inr none_left ↦ (
                record (after env total p t l idle keeps none_left.s') { errno = enomem },
                null,
                calloc_none none_left.s' none_left.returns,
                inr (
                  refl,
                  refused 1 granules one_granule e none_left.reason,
                  keep_errno_apart env total p t l idle keeps
                      (after env total p t l idle keeps none_left.s') null enomem
                      (unserved env total p t l idle keeps 5 (count * size) granules e true
                        none_left),
                ),
              )
            ]

      calloc_product : Zeroed env total p t l (count * size) calloc_run
      calloc_product = elim (Option-cases (from_bytes_usize (count * size))) [
        | inl e ↦ (
          failed,
          null,
          no_granules e,
          inr (refl, size_too_large e, nothing env total p t l idle keeps enomem),
        )
        | inr (granules, e) ↦ calloc_requested granules e
      ]

    product_cases : (checked_mul count size ≡ none) ⊎ (checked_mul count size ≡ some (count * size))
    unfolding checked_mul
    product_cases = elim (Bool-cases (ltb u64_max (count * size))) [
      | inl e ↦ inl (rw (checked_mul, e) refl)
      | inr e ↦ inr (rw (checked_mul, e) refl)
    ]

    no_granules_either : checked_mul count size ≡ none → from_bytes_usize (count * size) ≡ none
    unfolding checked_mul
    no_granules_either e = elim (Option-cases (from_bytes_usize (count * size))) [
      | inl none_left ↦ none_left
      | inr (g, e') ↦ absurd (ground (arith, e, (from_bytes_usize_iff (count * size) g).0 e'))
    ]

    -- On an initialised allocator between two calls, over memory that is zero where it has not been handed out yet, `calloc`
    -- always returns: a pointer to a new allocation with room for `count * size` bytes, aligned to 32
    -- bytes and apart from the others, whose granules are all zero; or null, with `errno` set to `ENOMEM` and
    -- chunks and memory as before, because the product is too large, also where it overflows, or the
    -- allocator refuses.
    pub calloc-Zeroed : Zeroed env total p t l (count * size) calloc_run
    calloc-Zeroed = elim product_cases [
      | inl e ↦ (
        failed,
        null,
        too_many e,
        inr (
          refl,
          size_too_large (no_granules_either e),
          nothing env total p t l idle keeps enomem,
        ),
      )
      | inr e ↦ calloc_product e
    ]
