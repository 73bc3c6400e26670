-- ===== src/Tiles/Allocate.antt =====
-- `alloc_impl` of src/allocator.rs as a step of the tiling.
use picoalloc.Base.{
  ℕ, ◌+◌, ◌-◌, ◌%◌, ◌≤◌, ◌<◌, ◌^◌, ◌≡◌, ◌⊎◌, inl, inr, Bool, true, false, not, ◌||◌, ◌==◌, ltb,
  arith, if◌then◌else◌, refl, sym, ap, subst, Option, none, some, Bool-cases, dec_lt,
  is_power_of_two, u32_max,
}
use picoalloc.Size
use picoalloc.Size.{Size, bytes, from_pointer_and_base_unchecked, checked_add, max_allocation_size}
use picoalloc.Size.Align.{power_of_two}
use picoalloc.Bits.Fields.{two-pow_mono, two-pow-pos}
use picoalloc.BitMask.Members.{index_lem}
use picoalloc.BitMask.{BitIndex}
use picoalloc.Bins.{bin_config, to_bin_index}
use picoalloc.Chunk.{Pointer, is_null}
use picoalloc.Env.{Env, KeepsTotal}
use picoalloc.Machine.{State, Outcome, ok}
use picoalloc.Allocator.{size_to_bin_round_down, clamped, initialize}
use picoalloc.Allocator.Alloc.{find_bin, alloc_sized, alloc_impl, min_size_for}
use picoalloc.FreeList.{Lists, bin_of}
use picoalloc.Tiles.{Tiles}
use picoalloc.Tiles.Holds.{Holds}
use picoalloc.Tiles.Find.{Nonempty, Origin, find_bin-Found}
use picoalloc.Bins.Order.{fits_of_bin-le}
use picoalloc.Tiles.Grant.{Result, declined, too_small, large}
use picoalloc.Tiles.Outcome.{
  Allocated, Declined, Refusal, invalid_alignment, too_large, nothing_fits,
}
use picoalloc.Tiles.Place.{size_difference-eq}

bin_of-eq : (size : Size) → bin_of size ≡ to_bin_index false (clamped size)
unfolding bin_of size_to_bin_round_down
bin_of-eq size = ground (arith, index_lem (to_bin_index false (clamped size)))

-- A chunk of a bin from the rounded-up one on is large enough.
large_enough :
    (min_size : Size)
    → min_size ≤ max_allocation_size
    → (size : Size) → 0 < size
    → to_bin_index true (clamped min_size) ≤ to_bin_index false (clamped size)
    → min_size ≤ size
unfolding clamped to_bin_index
large_enough min_size limit size pos below = ground (
  arith,
  limit,
  pos,
  fits_of_bin-le bin_config.mantissa_bits
      (if ltb max_allocation_size min_size then max_allocation_size else min_size)
      (if ltb max_allocation_size size then max_allocation_size else size) (ground (arith, limit))
      (ground (arith, pos)) (ground arith) below,
)

module _ {E : Type 0} (env : Env E) (total : Size) (s : State E) (t : Tiles) (l : Lists)
    (holds : Holds env total s t l) (keeps : KeepsTotal env) (granular : s.base_address % 32 ≡ 0)
    (k r : ℕ) (small : k < 32) where
  open holds use {spans, tiled, agrees, linked}

  abbrev align : Size
  align = 2 ^ k

  abbrev Answers : Bool → Outcome E (Option Pointer) → Type 0
  Answers = Result env total s t l holds keeps granular k r small

  refused : (z : Bool) → Refusal env total s t align r → Answers z (ok none s)
  refused = declined env total s t l holds keeps granular k r small

  module _ (limit : r + 1 + (align - 1) ≤ max_allocation_size) where
    abbrev min_size : Size
    min_size = r + 1 + (align - 1)

    fits :
        (c : ℕ)
        → t.starts c ≡ true
        → to_bin_index true (clamped min_size) ≤ bin_of (t.size c)
        → min_size ≤ t.size c
    fits c from le =
        large_enough min_size limit (t.size c) (tiled.within c from).0
          (subst (λ x. to_bin_index true (clamped min_size) ≤ x) (bin_of-eq (t.size c)) le)

    taken :
        (z : Bool) (o : Option BitIndex)
        → find_bin env min_size s ≡ ok o s
        → Nonempty env total s t l holds o
        → Origin env total s t l holds min_size o
        → Answers z (alloc_sized env min_size align r z s)
    unfolding alloc_sized bin_of
    taken z none eq chunk missing = rw eq (refused z (nothing_fits missing))
    taken z (some b) eq (c, head, bin) origin =
        rw (eq, bin)
          (elim (dec_lt (t.size c) min_size) [
            | yes lt ↦ elim origin [
              | inl missing ↦
                  too_small env total s t l holds keeps granular k r small c b.index head min_size
                    refl limit z lt (nothing_fits missing)
              | inr above ↦ absurd (
                  omega (
                    arith,
                    fits c (ground (arith, agrees.free c, linked.head_node b.index c head)) (
                        subst (λ x. to_bin_index true (clamped min_size) ≤ x)
                          (ap (λ x. x.index) bin) above),
                    lt,
                  ))
            ]
            | no ge ↦
                large env total s t l holds keeps granular k r small c b.index head min_size refl
                  limit z (omega arith)
          ])

    sized : (z : Bool) → Answers z (alloc_sized env min_size align r z s)
    sized z =
        let (o, eq, chunk, origin) = find_bin-Found env total s t l holds min_size in
        taken z o eq chunk origin

  min_cases :
      ((min_size_for align r ≡ none) × (u32_max < r + 1 + (align - 1)))
      ⊎ (min_size_for align r ≡ some (r + 1 + (align - 1)))
  unfolding min_size_for checked_add
  min_cases =
      let align_1 : Size.unchecked_sub align 1 ≡ align - 1 =
        size_difference-eq align 1 (two-pow-pos k)
          (omega (arith, two-pow_mono k 31 (omega arith))) in
      elim (dec_lt u32_max (r + 1)) [
        | yes over ↦
            let c1 : ltb u32_max (r + 1) ≡ true = ground arith in
            inl (rw (min_size_for, c1) refl, omega arith)
        | no fits ↦
            let c1 : ltb u32_max (r + 1) ≡ false = ground arith in
            elim (dec_lt u32_max (r + 1 + (align - 1))) [
              | yes over ↦
                  let c2 : ltb u32_max (r + 1 + (align - 1)) ≡ true = ground arith in
                  inl (rw (min_size_for, c1, align_1, c2) refl, omega arith)
              | no fits' ↦
                  let c2 : ltb u32_max (r + 1 + (align - 1)) ≡ false = ground arith in
                  inr (rw (min_size_for, c1, align_1, c2) refl)
            ]
      ]

  initialized : initialize env s ≡ ok true s
  unfolding initialize is_null
  initialized = let c1 : (s.base_address == 0) ≡ false = ground (arith, spans.based) in rw c1 refl

  pub impl : is_power_of_two 32 align ≡ true → (z : Bool) → Answers z (alloc_impl env align r z s)
  unfolding alloc_impl
  impl power z =
      let valid : (align == 0 || not (is_power_of_two 32 align)) ≡ false =
        ground (arith, two-pow-pos k) in
      elim min_cases [
        | inl (over, more) ↦ rw (valid, initialized, over) (refused z (too_large (omega arith)))
        | inr eq ↦ elim (dec_lt max_allocation_size (r + 1 + (align - 1))) [
          | yes over ↦
              let c1 : ltb max_allocation_size (r + 1 + (align - 1)) ≡ true = ground arith in
              rw (valid, initialized, eq, c1) (refused z (too_large over))
          | no fits ↦
              let c1 : ltb max_allocation_size (r + 1 + (align - 1)) ≡ false = ground arith in
              rw (valid, initialized, eq, c1) (sized (omega arith) z)
        ]
      ]

invalid :
    {E : Type 0} (env : Env E) (s : State E) (align r : Size) (z : Bool)
    → (align == 0 || not (is_power_of_two 32 align)) ≡ true
    → alloc_impl env align r z s ≡ ok none s
unfolding alloc_impl
invalid env s align r z e = rw e refl

-- `alloc_impl`, in a state between two calls at an aligned base, for any alignment and size and over
-- an environment whose total space stays, fails no assertion and ends in one of two ways. Either it
-- returns an aligned pointer to `r` granules behind a header, cut out of one free chunk and apart
-- from every other allocation: in the map of allocations this one is new and nothing else changes,
-- what is left of the chunk stays free, the state is one between two calls, and no granule but
-- headers has changed, except that on demand the data is zeroed where memory may have been used
-- before. Or it returns None, and chunks and memory are as before; then the alignment is no power
-- of two, or the size with header and padding exceeds the largest size, or no free chunk is in a
-- bin whose chunks surely fit, or the environment has no memory.
pub alloc_impl-Holds :
    {E : Type 0} (env : Env E) (total : Size) (s : State E) (t : Tiles) (l : Lists) (align r : Size)
    (is_calloc : Bool)
    → Holds env total s t l
    → KeepsTotal env
    → s.base_address % 32 ≡ 0
    → Allocated env total s t align r is_calloc (alloc_impl env align r is_calloc s)
      ⊎ Declined env total s t l align r (alloc_impl env align r is_calloc s)
alloc_impl-Holds env total s t l align r is_calloc holds keeps granular =
    elim (Bool-cases (is_power_of_two 32 align)) [
      | inl power ↦ let (k, small, eq) = power_of_two 32 align power in by_power k small eq power
      | inr other ↦
          let test : (align == 0 || not (is_power_of_two 32 align)) ≡ true =
            ground (arith, other) in
          inr (record {
            reason = invalid_alignment test;
            s' = s;
            returns = invalid env s align r is_calloc test;
            holds = holds;
            base = refl;
            space = omega arith;
            limits = λ limit limited le. le;
            memory = refl;
          })
    ]
  where
    by_power :
        (k : ℕ)
        → k < 32
        → align ≡ 2 ^ k
        → is_power_of_two 32 align ≡ true
        → Allocated env total s t align r is_calloc (alloc_impl env align r is_calloc s)
          ⊎ Declined env total s t l align r (alloc_impl env align r is_calloc s)
    by_power k small eq power =
        subst
          (λ a.
            is_power_of_two 32 a ≡ true
            → Allocated env total s t a r is_calloc (alloc_impl env a r is_calloc s)
              ⊎ Declined env total s t l a r (alloc_impl env a r is_calloc s))
          (sym eq) (λ p. impl env total s t l holds keeps granular k r small p is_calloc) power
