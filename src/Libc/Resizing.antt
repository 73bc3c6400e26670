-- ===== src/Libc/Resizing.antt =====
-- What `realloc` of src/global_allocator_libc.rs does with an allocation.
use picoalloc.Base.{
  ℕ, zero, suc, ◌+◌, ◌-◌, ◌*◌, ◌≤◌, ◌≡◌, ◌==◌, ◌⊎◌, inl, inr, Bool, true, false, arith, refl,
  Option, none, some, Option-cases,
}
use picoalloc.Size.{Size, from_bytes_usize}
use picoalloc.Chunk.{Pointer, null}
use picoalloc.Env.{Env, KeepsTotal}
use picoalloc.Machine.{State, Outcome, ok}
use picoalloc.FreeList.{Lists}
use picoalloc.FreeList.Represents.{at}
use picoalloc.Tiles.{Tiles, freed}
use picoalloc.Tiles.Loose.{Kept}
use picoalloc.Tiles.Realloc.{
  Reallocated, unchanged, released, cut_short, extended, moved, declined, realloc-Holds,
}
use picoalloc.Allocator.Resize
use picoalloc.Allocator.Free
use picoalloc.Tiles.Free.{free-Holds}
use picoalloc.Tiles.Holds.{Holds}
use picoalloc.Size.Convert.{from_bytes_usize_iff}
use picoalloc.Libc.{
  Process, Result, returned, realloc, out_of_memory, pointer_or_errno, set_errno, enomem,
}
use picoalloc.Libc.Served.{Idle, with_lock-ok}
use picoalloc.Libc.Release.{not_null}

-- The pointer, or null and `ENOMEM` in `errno`, with the lock free.
abbrev pub answer : {E : Type 0} → Process E → Option Pointer → State E → Result E Pointer
answer p none s = returned null (record p { heap = s; locked = false; errno = enomem })
answer p (some q) s = returned q (record p { heap = s; locked = false })

result-eq :
    {E : Type 0} (env : Env E) (total : Size) (s : State E) (t : Tiles) (l : Lists) (o : ℕ)
    (align size : Size) (b : Bool) (result : Outcome E (Option Pointer))
    → Reallocated env total s t l o align size b result
    → (q : Option Pointer) × (s' : State E) × (result ≡ ok q s')
result-eq env total s t l o align size b result (unchanged _ e) =
    (some (at s.base_address (o + 1)), s, e)
result-eq env total s t l o align size b result (released s' l' _ e _ _) = (none, s', e)
result-eq env total s t l o align size b result (cut_short s' l' _ _ e _ _) =
    (some (at s.base_address (o + 1)), s', e)
result-eq env total s t l o align size b result (extended g _ e) =
    (some (at s.base_address (o + 1)), g.s', e)
result-eq env total s t l o align size b result (moved s1 _ _ m) = (_, _, m.returns)
result-eq env total s t l o align size b result (declined s1 _ _ d) = (none, d.s', d.returns)

nonzero_suc : (n : ℕ) → (suc n == 0) ≡ false
nonzero_suc n = ground arith

module _ {E : Type 0} (env : Env E) (total : Size) (p : Process E) (t : Tiles) (l : Lists)
    (idle : Idle env total p t l) (keeps : KeepsTotal env) (realloc_inplace : Bool) (o : ℕ) where
  open idle use {holds, granular}

  abbrev pointer : Pointer
  pointer = at p.heap.base_address (o + 1)

  abbrev run : ℕ → Result E Pointer
  run size = realloc env realloc_inplace pointer size p

  abbrev inner : Size → Outcome E (Option Pointer)
  inner granules = Resize.realloc env realloc_inplace pointer 1 granules p.heap

  to_free :
      (s' : State E)
      → Free.free env pointer p.heap ≡ ok tt s'
      → run 0 ≡ returned null (record p { heap = s'; locked = false })
  unfolding realloc
  to_free s' e =
      rw
        (
          realloc,
          not_null env total p t l idle keeps o,
          with_lock-ok env total p t l idle keeps (Free.free env pointer) tt s' e,
        )
        refl

  module _ (size : ℕ) (nonzero : (size == 0) ≡ false) where
    no_granules :
        from_bytes_usize size ≡ none → run size ≡ returned null (record p { errno = enomem })
    unfolding realloc out_of_memory set_errno
    no_granules e = rw (realloc, not_null env total p t l idle keeps o, nonzero, e) refl

    answers :
        (granules : Size)
        → from_bytes_usize size ≡ some granules
        → (q : Option Pointer) (s' : State E) → inner granules ≡ ok q s'
        → run size ≡ answer p q s'
    unfolding realloc pointer_or_errno out_of_memory set_errno
    answers granules e none s' eq =
        rw
          (
            realloc,
            not_null env total p t l idle keeps o,
            nonzero,
            e,
            with_lock-ok env total p t l idle keeps
                (Resize.realloc env realloc_inplace pointer 1 granules) none s' eq,
          )
          refl
    answers granules e (some q) s' eq =
        rw
          (
            realloc,
            not_null env total p t l idle keeps o,
            nonzero,
            e,
            with_lock-ok env total p t l idle keeps
                (Resize.realloc env realloc_inplace pointer 1 granules) (some q) s' eq,
          )
          refl

  -- On an initialised allocator between two calls, with the feature realloc_inplace, or without it for
  -- a size of 0 or not below the current one, `realloc` of the pointer of an allocated chunk always
  -- returns, with the lock free. A size of 0 frees the chunk and returns null. A size that is too large sets `errno` to
  -- `ENOMEM` and changes nothing else. Otherwise the allocator's `realloc` to that size in granules,
  -- aligned to one granule, ends in one of its ways, and the C function returns its pointer, or null
  -- with `ENOMEM` where it has none.
  pub realloc-Reallocated :
      (size : ℕ)
      → t.starts o ≡ true
      → t.used o ≡ true
      → (realloc_inplace ≡ true) ⊎ ((t.size o - 1) * 32 ≤ size) ⊎ (size ≡ 0)
      → ((size ≡ 0)
          × (s' : State E) × (l' : Lists) × (run size
              ≡ returned null (record p { heap = s'; locked = false }))
          × Holds env total s' (freed total t o) l'
          × Kept t p.heap s')
        ⊎ ((from_bytes_usize size ≡ none)
            × (run size ≡ returned null (record p { errno = enomem })))
        ⊎ ((granules : Size) × (q : Option Pointer) × (s' : State E) × (size ≤ granules * 32)
            × Reallocated env total p.heap t l o 1 granules realloc_inplace (inner granules)
            × (inner granules ≡ ok q s')
            × (run size ≡ answer p q s'))
  realloc-Reallocated zero on used allowed =
      let (s', l', eq, holds', kept) = free-Holds env total p.heap t l o holds on used in
      inl (refl, s', l', to_free s' eq, holds', kept)
  realloc-Reallocated (suc n) on used allowed = elim (Option-cases (from_bytes_usize (suc n))) [
    | inl e ↦ inr (inl (e, no_granules (suc n) (nonzero_suc n) e))
    | inr (granules, e) ↦
        let (small, low, high) = (from_bytes_usize_iff (suc n) granules).0 e in
        let way =
          realloc-Holds env total p.heap t l o 1 granules realloc_inplace holds keeps granular on
            used
            (elim allowed [
              | inl a ↦ inl a
              | inr (inl a) ↦ inr (inl (omega (arith, a, low)))
              | inr (inr a) ↦ absurd (omega (arith, a))
            ]) in
        let (q, s', eq) =
          result-eq env total p.heap t l o 1 granules realloc_inplace (inner granules) way in
        inr
          (inr (granules, q, s', low, way, eq, answers (suc n) (nonzero_suc n) granules e q s' eq))
  ]
