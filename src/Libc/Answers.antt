-- ===== src/Libc/Answers.antt =====
-- What `posix_memalign` and `aligned_alloc` of src/global_allocator_libc.rs return.
use picoalloc.Base.{
  ℕ, ◌+◌, ◌-◌, ◌^◌, ◌≡◌, ◌⊎◌, inl, inr, Bool, true, false, not, ◌||◌, ltb, arith, refl, sym, ap,
  ◌∙◌, subst, Option, none, some, Option-cases, Bool-cases, is_power_of_two,
}
use picoalloc.Size.{Size, from_bytes_usize}
use picoalloc.Size.Align.{power_of_two}
use picoalloc.Size.Convert.{from_bytes_usize_iff}
use picoalloc.Size.Powers.{align_granules}
use picoalloc.Chunk.{Pointer, null}
use picoalloc.Env.{Env, KeepsTotal}
use picoalloc.Machine
use picoalloc.Machine.{State}
use picoalloc.Allocator.Alloc
use picoalloc.Allocator.Alloc.{alloc_impl}
use picoalloc.FreeList.{Lists}
use picoalloc.FreeList.Represents.{at}
use picoalloc.Tiles.{Tiles}
use picoalloc.Tiles.Allocate.{alloc_impl-Holds}
use picoalloc.Libc.{
  Process, Result, returned, enomem, einval, posix_memalign, aligned_alloc, set_errno,
}
use picoalloc.Libc.Served.{
  Shortage, size_too_large, alignment_too_large, refused, Idle, Served, Unserved, nothing, after,
  served, unserved, with_lock-ok, keep_errno_apart,
}

-- The guard of `posix_memalign`.
abbrev pub is_invalid : ℕ → Bool
is_invalid align = not (is_power_of_two 64 align) || ltb align 8

module _ {E : Type 0} (env : Env E) (total : Size) (p : Process E) (t : Tiles) (l : Lists)
    (align size : ℕ) where
  -- The code, and the pointer where the code is 0.
  abbrev pub Codes : Result E (ℕ × Pointer) → Type 0
  Codes r =
      (p' : Process E) × (code : ℕ) × (pointer : Pointer) × (r ≡ returned (code, pointer) p')
      × (p'.errno ≡ p.errno)
      × (((code ≡ 0) × (is_invalid align ≡ false) × Served env total p p' t align size pointer)
          ⊎ ((code ≡ enomem)
              × (is_invalid align ≡ false)
              × Shortage env total p.heap t align size
              × Unserved env total p p' t l pointer)
          ⊎ ((code ≡ einval) × (is_invalid align ≡ true) × Unserved env total p p' t l pointer))

  -- A pointer, or null and the error in `errno`.
  abbrev pub Answers : Result E Pointer → Type 0
  Answers r =
      (p' : Process E) × (pointer : Pointer) × (r ≡ returned pointer p')
      × (((p'.errno ≡ p.errno)
            × (is_invalid align ≡ false)
            × Served env total p p' t align size pointer)
          ⊎ ((p'.errno ≡ enomem)
              × (is_invalid align ≡ false)
              × Shortage env total p.heap t align size
              × Unserved env total p p' t l pointer)
          ⊎ ((p'.errno ≡ einval) × (is_invalid align ≡ true) × Unserved env total p p' t l pointer))

module _ {E : Type 0} (env : Env E) (total : Size) (p : Process E) (t : Tiles) (l : Lists)
    (idle : Idle env total p t l) (keeps : KeepsTotal env) where
  open idle use {holds, granular}

  abbrev run : ℕ → ℕ → Result E (ℕ × Pointer)
  run align size = posix_memalign env align size p

  no_memory_at_once :
      (align size : ℕ)
      → is_invalid align ≡ false
      → Shortage env total p.heap t align size
      → run align size ≡ returned (enomem, null) p
      → Codes env total p t l align size (run align size)
  no_memory_at_once align size valid short eq = (
    p,
    enomem,
    null,
    eq,
    refl,
    inr (inl (refl, valid, short, nothing env total p t l idle keeps p.errno)),
  )

  invalid-eq :
      (align size : ℕ) → is_invalid align ≡ true → run align size ≡ returned (einval, null) p
  unfolding posix_memalign
  invalid-eq align size e = rw (posix_memalign, e) refl

  invalid :
      (align size : ℕ) → is_invalid align ≡ true → Codes env total p t l align size (run align size)
  invalid align size e = (
    p,
    einval,
    null,
    invalid-eq align size e,
    refl,
    inr (inr (refl, e, nothing env total p t l idle keeps p.errno)),
  )

  module _ (k size : ℕ) (valid : is_invalid (2 ^ k) ≡ false) where
    no_size : from_bytes_usize size ≡ none → run (2 ^ k) size ≡ returned (enomem, null) p
    unfolding posix_memalign
    no_size e = rw (posix_memalign, valid, e) refl

    no_align :
        (granules : Size)
        → from_bytes_usize size ≡ some granules
        → from_bytes_usize (2 ^ k) ≡ none
        → run (2 ^ k) size ≡ returned (enomem, null) p
    unfolding posix_memalign
    no_align granules e e' = rw (posix_memalign, valid, e, e') refl

    module _ (granules : Size) (e : from_bytes_usize size ≡ some granules)
        (e' : from_bytes_usize (2 ^ k) ≡ some (2 ^ (k - 5))) where
      answered :
          (o : Option Pointer) (s : State E)
          → alloc_impl env (2 ^ (k - 5)) granules false p.heap ≡ Machine.ok o s
          → run (2 ^ k) size
            ≡ returned
                (elim o [ none ↦ (enomem, null) | some q ↦ (0, q) ])
                (after env total p t l idle keeps s)
      unfolding posix_memalign Alloc.alloc
      answered none s eq =
          rw
            (
              posix_memalign,
              valid,
              e,
              e',
              with_lock-ok env total p t l idle keeps (Alloc.alloc env (2 ^ (k - 5)) granules) none
                  s eq,
            )
            refl
      answered (some q) s eq =
          rw
            (
              posix_memalign,
              valid,
              e,
              e',
              with_lock-ok env total p t l idle keeps (Alloc.alloc env (2 ^ (k - 5)) granules)
                  (some q) s eq,
            )
            refl

      requested : Codes env total p t l (2 ^ k) size (run (2 ^ k) size)
      requested =
          elim (alloc_impl-Holds env total p.heap t l (2 ^ (k - 5)) granules false holds keeps
            granular) [
              | inl new ↦ (
                after env total p t l idle keeps new.s',
                0,
                at p.heap.base_address (new.h + 1),
                answered (some (at p.heap.base_address (new.h + 1))) new.s' new.returns,
                refl,
                inl (refl, valid, served env total p t l idle keeps k size granules e false new),
              )
              | inr none_left ↦ (
                after env total p t l idle keeps none_left.s',
                enomem,
                null,
                answered none none_left.s' none_left.returns,
                refl,
                inr (
                    inl (
                      refl,
                      valid,
                      refused (2 ^ (k - 5)) granules e' e none_left.reason,
                      unserved env total p t l idle keeps k size granules e false none_left,
                    )),
              )
            ]

    when_valid : Codes env total p t l (2 ^ k) size (run (2 ^ k) size)
    when_valid = elim (Option-cases (from_bytes_usize size)) [
      | inl e ↦ no_memory_at_once (2 ^ k) size valid (size_too_large e) (no_size e)
      | inr (granules, e) ↦ elim (Option-cases (from_bytes_usize (2 ^ k))) [
        | inl e' ↦
            no_memory_at_once (2 ^ k) size valid (alignment_too_large e') (no_align granules e e')
        | inr (g, e') ↦
            let (small, low, high) = (from_bytes_usize_iff (2 ^ k) g).0 e' in
            requested granules e
              (e' ∙ ap (λ x. some x) (omega (arith, low, high, align_granules k)))
      ]
    ]

  -- On an initialised allocator between two calls, `posix_memalign` always returns, with `errno` as
  -- before, the lock free and the allocator again between two calls. Its code is `EINVAL` exactly for an alignment that is no power of two or
  -- below 8, with nothing changed. Otherwise it is 0, with a pointer that is not null, aligned to `align`
  -- bytes, with room for `size` bytes, in a map of allocations that has one more, apart from the
  -- others; or `ENOMEM` and null, with the chunks and memory as before, because the size or the
  -- alignment is too large for the allocator or the allocator refuses.
  pub posix_memalign-Codes : (align size : ℕ) → Codes env total p t l align size (run align size)
  posix_memalign-Codes align size = elim (Bool-cases (is_invalid align)) [
    | inl bad ↦ invalid align size bad
    | inr good ↦
        let (k, below, e) = power_of_two 64 align (ground (arith, good)) in
        subst (λ a. is_invalid a ≡ false → Codes env total p t l a size (run a size)) (sym e)
          (λ valid. when_valid k size valid) good
  ]

  abbrev aligned_run : ℕ → ℕ → Result E Pointer
  aligned_run align size = aligned_alloc env align size p

  -- The code goes to `errno`, unless it is 0.
  coded_zero :
      (align size : ℕ) (q : Pointer) (p' : Process E)
      → run align size ≡ returned (0, q) p'
      → aligned_run align size ≡ returned q p'
  unfolding aligned_alloc
  coded_zero align size q p' e = rw (aligned_alloc, e) refl

  coded_enomem :
      (align size : ℕ) (q : Pointer) (p' : Process E)
      → run align size ≡ returned (enomem, q) p'
      → aligned_run align size ≡ returned q (record p' { errno = enomem })
  unfolding aligned_alloc set_errno
  coded_enomem align size q p' e = rw (aligned_alloc, e) refl

  coded_einval :
      (align size : ℕ) (q : Pointer) (p' : Process E)
      → run align size ≡ returned (einval, q) p'
      → aligned_run align size ≡ returned q (record p' { errno = einval })
  unfolding aligned_alloc set_errno
  coded_einval align size q p' e = rw (aligned_alloc, e) refl

  -- On an initialised allocator between two calls, `aligned_alloc` always returns: the pointer of a new allocation with `errno` as before,
  -- or null, and it sets `errno`: to `EINVAL` exactly for an alignment that is no power of two or below 8,
  -- to `ENOMEM` for a size or alignment that is too large or a refusal. On an error the chunks and
  -- memory are as before.
  pub aligned_alloc-Answers :
      (align size : ℕ) → Answers env total p t l align size (aligned_run align size)
  aligned_alloc-Answers align size =
      let (p', code, q, eq, same, cases) = posix_memalign-Codes align size in
      elim cases [
        | inl (zero, good, served) ↦ (
          p',
          q,
          coded_zero align size q p' (subst (λ c. run align size ≡ returned (c, q) p') zero eq),
          inl (same, good, served),
        )
        | inr (inl (e, good, short, unserved)) ↦ (
          record p' { errno = enomem },
          q,
          coded_enomem align size q p' (subst (λ c. run align size ≡ returned (c, q) p') e eq),
          inr (
              inl (
                refl,
                good,
                short,
                keep_errno_apart env total p t l idle keeps p' q enomem unserved,
              )),
        )
        | inr (inr (e, bad, unserved)) ↦ (
          record p' { errno = einval },
          q,
          coded_einval align size q p' (subst (λ c. run align size ≡ returned (c, q) p') e eq),
          inr (inr (refl, bad, keep_errno_apart env total p t l idle keeps p' q einval unserved)),
        )
      ]
