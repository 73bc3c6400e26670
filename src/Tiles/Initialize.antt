-- ===== src/Tiles/Initialize.antt =====
-- `initialize` of src/allocator.rs sets up a space that is one free chunk.
use picoalloc.Base.{
  ◌≢◌, ℕ, ◌%◌, ◌<◌, ◌^◌, ◌≡◌, Bool, true, false, ◌==◌, arith, refl, subst, update, some,
}
use picoalloc.Size.{Size}
use picoalloc.BitMask
use picoalloc.BitMask.{BitMask}
use picoalloc.BitMask.Members.{IsWf, contains, index_lem, new-IsWf, new-contains, set-contains}
use picoalloc.Chunk.{Pointer, Granule, new_unallocated, null, is_null}
use picoalloc.Env.{Env}
use picoalloc.Machine.{
  State, Outcome, write_free_header, ok, paranoid_assert, total_space, allocate_address_space,
  expand_memory_until,
}
use picoalloc.Allocator.{
  new, paranoid_check_access, initialize, initialize_impl, first_chunk, paranoid_check_chunk,
  set_bin, set_first,
}
use picoalloc.FreeList.{insert, empty, bin_of}
use picoalloc.FreeList.Insert.{insert-IsLinked, empty-IsLinked}
use picoalloc.FreeList.Represents.{at, InSpace, check_access-ok, bin_of-lt, round_down-index}
use picoalloc.Tiles.{IsTiled, IsCoalesced, whole}
use picoalloc.Tiles.Holds.{header, Holds}
use picoalloc.Tiles.Check.{check_chunk-ok}

-- The environment `e` grants an address space of `total` granules at `base`, with a first granule
-- of memory; it is then `e''`.
pub record Grants {E : Type 0} (env : Env E) (e : E) (base : Pointer) (total : Size) (e'' : E)
    : Type 0 where
  pub e' : E
  pub allocates : env.allocate_address_space e ≡ some (base, e')
  pub expands : env.expand_memory_until e' base 1 ≡ (true, e'')
  pub total_eq : env.total_space e'' ≡ total
  pub aligned : base % 32 ≡ 0
  pub based : 0 < base
  pub nonempty : 0 < total
  pub short : total < 2 ^ 27
  pub no_wrap : at base total < 2 ^ 64

pub whole-IsTiled : (total : Size) → 0 < total → IsTiled total (whole total)
whole-IsTiled total pos = record {
  origin = ground arith;
  within = λ o e. ground arith;
  next = λ o e lt. absurd (ground arith);
  before = λ o e lt. absurd (ground arith);
  gap = λ o q e e' lt. absurd (ground arith);
}

pub whole-IsCoalesced : (total : Size) → IsCoalesced total (whole total)
whole-IsCoalesced total = record {
  next = λ o e free lt. absurd (ground arith);
  before = λ o e free lt. absurd (ground arith);
}

module _ {E : Type 0} (env : Env E) (e : E) (memory : Pointer → Granule) (base : Pointer)
    (total : Size) (e'' : E) (grants : Grants env e base total e'') where
  open grants use {e', allocates, expands, total_eq, aligned, based, nonempty, short, no_wrap}

  -- The state before the lists are set up.
  abbrev granted : State E
  granted = record (new e'' memory) { base_address = base; allocated_space = 1 }

  abbrev Ready : Outcome E Bool → Type 0
  Ready r =
      (s : State E) × (r ≡ ok true s)
      × (s.base_address ≡ base)
      × Holds env total s (whole total) (insert empty 0 total)
      × (s.allocated_space ≡ 1)
      × ((p : Pointer) → p ≢ base → s.memory p ≡ memory p)

  abbrev filled : BitMask → State E
  filled m = record granted {
    free_lists_with_unallocated_memory = m;
    first_in_free_list = update (λ _. null) (bin_of total) base;
    memory = update memory base (record (memory base) {
      prev_chunk_size = 0;
      size = new_unallocated total;
      next_in_list = null;
      prev_in_list = null;
    });
  }

  filled-Holds :
      (m : BitMask)
      → IsWf m
      → ((j : ℕ) → contains m j ≡ (bin_of total == j))
      → Holds env total (filled m) (whole total) (insert empty 0 total)
  unfolding header new
  filled-Holds m wf contains_m = record {
    spans = record {
      total_eq = total_eq;
      based = based;
      short = short;
      no_wrap = no_wrap;
      reach = nonempty;
    };
    tiled = whole-IsTiled total nonempty;
    tight = whole-IsCoalesced total;
    headers = record {
      touched = λ o h. ground arith;
      size = λ o h. ground arith;
      prev = λ o h. ground arith;
    };
    agrees = record { free = λ o. ground arith; size = λ o h f. ground arith };
    linked = insert-IsLinked empty empty-IsLinked 0 total refl;
    backed = λ o z e. absurd (ground arith);
    lists = record {
      space = record { based = based; short = omega arith; no_wrap = omega arith };
      inside = λ o h. ground arith;
      header = λ o h. ground arith;
      first = λ bin. ground arith;
      mask = wf;
      bit = λ bin lt. ground (arith, contains_m bin);
    };
  }

  space : InSpace base 1
  space = record { based = based; short = omega arith; no_wrap = omega arith }

  at_base : at base 0 ≡ base
  at_base = omega arith

  access : paranoid_check_access 24 base granted ≡ ok tt granted
  unfolding new
  access =
      subst (λ p. paranoid_check_access 24 p granted ≡ ok tt granted) at_base
        (check_access-ok granted space 0 (omega arith) 24 (omega arith))

  abbrev headed : BitMask → State E
  headed m = record (filled m) { first_in_free_list = λ _. null }

  header_written :
      (m : BitMask)
      → write_free_header base 0
          (new_unallocated total)
          null
          null
          (record granted { free_lists_with_unallocated_memory = m })
        ≡ ok tt (headed m)
  unfolding write_free_header new
  header_written m = ground arith

  first_set :
      (m : BitMask) → set_first (BitMask.index (bin_of total)) base (headed m) ≡ ok tt (filled m)
  unfolding set_first
  first_set m = ground (arith, bin_of-lt total, index_lem (bin_of total))

  checked :
      (m : BitMask)
      → Holds env total (filled m) (whole total) (insert empty 0 total)
      → paranoid_check_chunk env base (filled m) ≡ ok tt (filled m)
  unfolding new
  checked m holds =
      subst (λ p. paranoid_check_chunk env p (filled m) ≡ ok tt (filled m)) at_base
        (check_chunk-ok env total (filled m) holds.spans (whole total) holds.tiled holds.tight
          holds.headers 0 refl)

  first_chunk-Ready : Ready (first_chunk env base (new e'' memory))
  unfolding first_chunk new paranoid_assert total_space set_bin set_first
  first_chunk-Ready =
      let (m, eq, wf, contains_m) =
        set-contains BitMask.new (bin_of total) new-IsWf (bin_of-lt total) in
      let holds = filled-Holds m wf (λ j. ground (arith, contains_m j, new-contains j)) in
      rw
        (
          first_chunk,
          access,
          total_eq,
          round_down-index total,
          eq,
          header_written m,
          first_set m,
          checked m holds,
        )
        (filled m, refl, refl, holds, refl, λ p ne. ground (arith, ne))

  allocate-ok : allocate_address_space env (new e memory) ≡ ok base (new e' memory)
  unfolding allocate_address_space new
  allocate-ok = rw (allocate_address_space, allocates) refl

  expand-ok : expand_memory_until env base 1 (new e' memory) ≡ ok true (new e'' memory)
  unfolding expand_memory_until new
  expand-ok = rw (expand_memory_until, expands) refl

  not_initialised : initialize env (new e memory) ≡ initialize_impl env (new e memory)
  unfolding initialize new is_null
  not_initialised = refl

  pub initialize-Ready : Ready (initialize env (new e memory))
  unfolding initialize_impl paranoid_assert is_null
  initialize-Ready =
      let c1 : (base == 0) ≡ false = ground arith in
      let c2 : (base % 32 == 0) ≡ true = ground arith in
      let c3 : (base % 8 == 0) ≡ true = ground arith in
      rw (not_initialised, allocate-ok, c1, c2, c3, expand-ok) first_chunk-Ready

-- `initialize` of a new allocator, over an environment that grants an address space of `total`
-- granules with memory for the first one, fails no assertion and returns true. The space is then
-- one free chunk, alone on its free list, in a state between two calls, and no granule but the
-- first has changed.
pub initialize-Holds :
    {E : Type 0} (env : Env E) (e : E) (memory : Pointer → Granule) (base : Pointer) (total : Size)
    (e'' : E)
    → Grants env e base total e''
    → (s : State E) × (initialize env (new e memory) ≡ ok true s)
      × (s.base_address ≡ base)
      × Holds env total s (whole total) (insert empty 0 total)
      × (s.allocated_space ≡ 1)
      × ((p : Pointer) → p ≢ base → s.memory p ≡ memory p)
initialize-Holds env e memory base total e'' grants =
    initialize-Ready env e memory base total e'' grants
