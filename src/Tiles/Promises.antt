-- ===== src/Tiles/Promises.antt =====
-- What the functions of src/allocator.rs that allocate promise their callers.
use picoalloc.Base.{
  ap, is_power_of_two, ℕ, ◌+◌, ◌-◌, ◌*◌, ◌%◌, ◌≤◌, ◌<◌, ◌≡◌, inl, inr, Bool, true, false, not, ◌||◌,
  ◌==◌, ◌&&◌, arith, refl, ◌∙◌, subst, Option, some, ltb, if◌then◌else◌,
}
use picoalloc.Size.{Size, max_allocation_size}
use picoalloc.Chunk.{Pointer, Granule, zero_granule}
use picoalloc.Bins.{to_bin_index}
use picoalloc.Env.{Env, KeepsTotal}
use picoalloc.Machine.{State, Outcome, ok}
use picoalloc.Allocator.{clamped}
use picoalloc.Allocator.Alloc.{alloc_impl, alloc_zeroed}
use picoalloc.FreeList.{Lists, bin_of}
use picoalloc.FreeList.Represents.{at}
use picoalloc.Tiles.{Tiles, allotted, allocation}
use picoalloc.Tiles.Allocations.{data-apart}
use picoalloc.Tiles.Holds.{Holds}
use picoalloc.Tiles.Outcome.{
  Allocated, Refusal, invalid_alignment, too_large, nothing_fits, no_memory, covers,
}
use picoalloc.Tiles.Allocate.{alloc_impl-Holds}

-- A request that fits is granted: with a valid alignment, a size that with header and padding is at
-- most the largest size, a free chunk in a bin from the rounded-up bin of that size on, and an
-- environment that has memory for the whole space, `alloc_impl` returns an allocation.
pub alloc_impl-Granted :
    {E : Type 0} (env : Env E) (total : Size) (s : State E) (t : Tiles) (l : Lists) (align r : Size)
    (is_calloc : Bool) (o : ℕ)
    → Holds env total s t l
    → KeepsTotal env
    → s.base_address % 32 ≡ 0
    → (align == 0 || not (is_power_of_two 32 align)) ≡ false
    → r + 1 + (align - 1) ≤ max_allocation_size
    → t.starts o ≡ true
    → t.used o ≡ false
    → to_bin_index true (clamped (r + 1 + (align - 1))) ≤ bin_of (t.size o)
    → ((end : ℕ) → end ≤ total → (env.expand_memory_until s.env s.base_address end).0 ≡ true)
    → Allocated env total s t align r is_calloc (alloc_impl env align r is_calloc s)
alloc_impl-Granted env total s t l align r is_calloc o holds keeps granular valid small from unused
      fits memory =
    elim (alloc_impl-Holds env total s t l align r is_calloc holds keeps granular) [
      | inl allocated ↦ allocated
      | inr refused ↦ absurd (no_reason refused.reason)
    ]
  where
    no_reason : Refusal env total s t align r → ⊥
    no_reason (invalid_alignment bad) = absurd (ground (arith, bad, valid))
    no_reason (too_large over) = absurd (omega (arith, over, small))
    no_reason (nothing_fits below) = absurd (omega (arith, below o from unused, fits))
    no_reason (no_memory end inside none_left) =
        absurd (ground (arith, memory end inside, none_left))

-- Memory that the environment has not handed out yet is as it was at first.
abbrev pub Untouched : {E : Type 0} → (Pointer → Granule) → State E → Type 0
Untouched first s = (p : Pointer) → at s.base_address s.allocated_space ≤ p → s.memory p ≡ first p

module _ {E : Type 0} {env : Env E} {total : Size} {s : State E} {t : Tiles} {align r : Size}
    {is_calloc : Bool} {result : Outcome E (Option Pointer)}
    (allocated : Allocated env total s t align r is_calloc result) (first : Pointer → Granule)
    (untouched : Untouched first s) where
  open allocated use {h, base, space, holds, contents, map}

  entry : allocation (allotted t allocated.c h (h + 1 + r)) h ≡ some (r + 1)
  entry = map h ∙ ground arith

  -- The data of the allocation holds no header.
  apart_from_headers :
      (i : ℕ)
      → i < r
      → (x : ℕ) → (allotted t allocated.c h (h + 1 + r)).starts x ≡ true
      → at s.base_address x ≡ at s.base_address (h + 1 + i)
      → ⊥
  apart_from_headers i lt x on e = absurd (
      omega (
        arith,
        e,
        data-apart holds.tiled h (r + 1) entry i (omega (arith, lt)) x on (omega (arith, e)),
      ))

  -- Zeroed memory is zero where it has not been used, or was zero at first.
  pub data_zero :
      is_calloc ≡ true
      → (i : ℕ) → i < r
      → first (at s.base_address (h + 1 + i)) ≡ zero_granule
      → allocated.s'.memory (at s.base_address (h + 1 + i)) ≡ zero_granule
  data_zero calloc i lt clean =
      contents (at s.base_address (h + 1 + i)) (apart_from_headers i lt)
      ∙ by_use (ltb (h + 1) s.allocated_space) refl
    where
      inside : covers s.base_address (h + 1) (h + 1 + r) (at s.base_address (h + 1 + i)) ≡ true
      inside = ground (arith, lt)

      by_use :
          (b : Bool)
          → ltb (h + 1) s.allocated_space ≡ b
          → (if b
                && is_calloc
                && covers s.base_address (h + 1) (h + 1 + r) (at s.base_address (h + 1 + i))
              then zero_granule
              else s.memory (at s.base_address (h + 1 + i)))
            ≡ zero_granule
      by_use true e = rw (calloc, inside) refl
      by_use false e = untouched (at s.base_address (h + 1 + i)) (ground (arith, e)) ∙ clean

  -- What is beyond stays so.
  pub Allocated-Untouched : Untouched first allocated.s'
  Allocated-Untouched p above =
      let reach : h + (r + 1) ≤ allocated.s'.allocated_space = holds.backed h (r + 1) entry in
      let outside : (ltb (h + 1) s.allocated_space
            && is_calloc
            && covers s.base_address (h + 1) (h + 1 + r) p)
          ≡ false =
        ground (arith, above, base, reach) in
      contents p (λ x on e. absurd (ground (arith, e, above, base, holds.headers.touched x on)))
      ∙ ap (λ b. if b then zero_granule else s.memory p) outside
      ∙ untouched p (ground (arith, above, base, space))

-- Memory that the environment has not handed out yet is zero.
abbrev pub Fresh : {E : Type 0} → State E → Type 0
Fresh s = Untouched (λ _. zero_granule) s

-- `alloc_zeroed` over memory that is zero where the environment has not handed it out yet: every
-- granule of the data that it returns is zero.
pub alloc_zeroed-zeros :
    {E : Type 0} (env : Env E) (total : Size) (s s' : State E) (t : Tiles) (l : Lists)
    (align r : Size) (pointer : Pointer) (i : ℕ)
    → Holds env total s t l
    → KeepsTotal env
    → s.base_address % 32 ≡ 0
    → Fresh s
    → alloc_zeroed env align r s ≡ ok (some pointer) s'
    → i < r
    → s'.memory (pointer + i * 32) ≡ zero_granule
unfolding alloc_zeroed
alloc_zeroed-zeros env total s s' t l align r pointer i holds keeps granular fresh eq lt =
    elim (alloc_impl-Holds env total s t l align r true holds keeps granular) [
      | inl allocated ↦
          let same_state : allocated.s' ≡ s' = ground (arith, eq, allocated.returns) in
          let same_pointer : at s.base_address (allocated.h + 1) ≡ pointer =
            ground (arith, eq, allocated.returns) in
          subst (λ m. m.memory (pointer + i * 32) ≡ zero_granule) same_state
            (subst (λ q. allocated.s'.memory q ≡ zero_granule) (omega (arith, same_pointer))
              (data_zero allocated (λ _. zero_granule) fresh refl i lt refl))
      | inr refused ↦ absurd (ground (arith, eq, refused.returns))
    ]
