-- ===== src/Global/Layouts.antt =====
-- What the methods of `GlobalAlloc` of src/allocator.rs that allocate return for a layout.
use picoalloc.Base.{
  ℕ, ◌+◌, ◌-◌, ◌*◌, ◌%◌, ◌^◌, ◌≤◌, ◌<◌, ◌≡◌, ◌≢◌, ◌⊎◌, inl, inr, Bool, true, false, arith, refl, ap,
  ◌∙◌, Option, none, some, Option-cases,
}
use picoalloc.Size.{Size, from_bytes_usize}
use picoalloc.Size.Convert.{from_bytes_usize_iff}
use picoalloc.Size.Powers.{align_granules, align-bytes}
use picoalloc.Chunk.{Pointer, null, zero_granule}
use picoalloc.Env.{Env, KeepsTotal}
use picoalloc.Machine.{State, Outcome, M, ok}
use picoalloc.Allocator.Alloc
use picoalloc.Allocator.Alloc.{alloc_impl}
use picoalloc.FreeList.{Lists}
use picoalloc.FreeList.Represents.{at}
use picoalloc.Tiles.{Tiles}
use picoalloc.Tiles.Holds.{Holds}
use picoalloc.Tiles.Outcome.{Allocated, Declined}
use picoalloc.Tiles.Promises.{Fresh, data_zero}
use picoalloc.Tiles.Allocate.{alloc_impl-Holds}
use picoalloc.Global.{Layout, alloc, alloc_zeroed}

module _ {E : Type 0} (env : Env E) (total : Size) (s : State E) (t : Tiles) (l : Lists)
    (k size : ℕ) (is_calloc : Bool) where
  -- The request in granules.
  abbrev request : Size → M E (Option Pointer)
  request granules = alloc_impl env (2 ^ (k - 5)) granules is_calloc

  -- A pointer as the layout asks for, to a new allocation.
  pub record Granted (result : Outcome E Pointer) : Type 0 where
    pub granules : Size
    pub enough : size ≤ granules * 32
    pub new : Allocated env total s t (2 ^ (k - 5)) granules is_calloc (request granules s)
    pub returns : result ≡ ok (at s.base_address (new.h + 1)) new.s'
    pub not_null : at s.base_address (new.h + 1) ≢ null
    pub aligned : at s.base_address (new.h + 1) % 2 ^ k ≡ 0

  -- The null pointer, with chunks and memory as before: the request has no size in granules, or the
  -- allocator refuses.
  pub data Refused (result : Outcome E Pointer) : Type 0 where
    no_such_size :
        result ≡ ok null s
        → (from_bytes_usize size ≡ none) ⊎ (from_bytes_usize (2 ^ k) ≡ none)
        → Refused result
    declined :
        (granules : Size)
        → from_bytes_usize size ≡ some granules
        → (refusal : Declined env total s t l (2 ^ (k - 5)) granules (request granules s))
        → result ≡ ok null refusal.s'
        → Refused result

  module _ (holds : Holds env total s t l) (keeps : KeepsTotal env)
      (granular : s.base_address % 32 ≡ 0) (result : Outcome E Pointer)
      (no_align : from_bytes_usize (2 ^ k) ≡ none → result ≡ ok null s)
      (no_size : (align : Size)
        → from_bytes_usize (2 ^ k) ≡ some align
        → from_bytes_usize size ≡ none
        → result ≡ ok null s)
      (refused : (align granules : Size) (s' : State E)
        → from_bytes_usize (2 ^ k) ≡ some align
        → from_bytes_usize size ≡ some granules
        → alloc_impl env align granules is_calloc s ≡ ok none s'
        → result ≡ ok null s')
      (granted : (align granules : Size) (q : Pointer) (s' : State E)
        → from_bytes_usize (2 ^ k) ≡ some align
        → from_bytes_usize size ≡ some granules
        → alloc_impl env align granules is_calloc s ≡ ok (some q) s'
        → result ≡ ok q s') where
    in_granules :
        (granules : Size)
        → from_bytes_usize (2 ^ k) ≡ some (2 ^ (k - 5))
        → from_bytes_usize size ≡ some granules
        → Granted result ⊎ Refused result
    in_granules granules e e' =
        elim (alloc_impl-Holds env total s t l (2 ^ (k - 5)) granules is_calloc holds keeps
          granular) [
            | inl new ↦ inl (record {
              granules = granules;
              enough = ground (arith, (from_bytes_usize_iff size granules).0 e');
              new = new;
              returns =
                  granted (2 ^ (k - 5)) granules (at s.base_address (new.h + 1)) new.s' e e'
                    new.returns;
              not_null = λ z. absurd (omega (arith, z, holds.spans.based));
              aligned =
                  align-bytes k (at s.base_address (new.h + 1)) (omega (arith, new.small))
                    (omega (arith, granular)) new.aligned;
            })
            | inr refusal ↦ inr (
                declined granules e' refusal
                  (refused (2 ^ (k - 5)) granules refusal.s' e e' refusal.returns))
          ]

    either_way : Granted result ⊎ Refused result
    either_way = elim (Option-cases (from_bytes_usize (2 ^ k))) [
      | inl e ↦ inr (no_such_size (no_align e) (inr e))
      | inr (align, e) ↦ elim (Option-cases (from_bytes_usize size)) [
        | inl e' ↦ inr (no_such_size (no_size align e e') (inl e'))
        | inr (granules, e') ↦
            let (small, low, high) = (from_bytes_usize_iff (2 ^ k) align).0 e in
            in_granules granules (e ∙ ap (λ x. some x) (omega (arith, low, high, align_granules k)))
              e'
      ]
    ]

module _ {E : Type 0} (env : Env E) (total : Size) (s : State E) (t : Tiles) (l : Lists)
    (k size : ℕ) where
  abbrev layout : Layout
  layout = record { size = size; align = 2 ^ k }

  -- On an initialised allocator between two calls, `alloc` fails no assertion and returns, for a
  -- layout whose alignment is a power of two. Its pointer is null, with chunks and memory as before,
  -- because the size or the alignment is too large or the allocator refuses; or it is not null,
  -- aligned to the layout's alignment in bytes, the start of a new allocation with room for the
  -- layout's size.
  pub alloc-Layout :
      Holds env total s t l
      → KeepsTotal env
      → s.base_address % 32 ≡ 0
      → Granted env total s t l k size false (alloc env layout s)
        ⊎ Refused env total s t l k size false (alloc env layout s)
  unfolding alloc Alloc.alloc
  alloc-Layout holds keeps granular =
      either_way env total s t l k size false holds keeps granular (alloc env layout s)
        (λ e. rw (alloc, e) refl) (λ a e e'. rw (alloc, e, e') refl)
        (λ a g s' e e' eq. rw (alloc, e, e', eq) refl)
        (λ a g q s' e e' eq. rw (alloc, e, e', eq) refl)

  -- On an initialised allocator between two calls, over memory that is zero where it has not been
  -- handed out yet, `alloc_zeroed` returns as `alloc` does for a layout whose alignment is a power of
  -- two, and each granule of a new allocation is zero.
  pub alloc_zeroed-Layout :
      Holds env total s t l
      → KeepsTotal env
      → s.base_address % 32 ≡ 0
      → Fresh s
      → ((granted : Granted env total s t l k size true (alloc_zeroed env layout s)) × ((i : ℕ)
            → i < granted.granules
            → granted.new.s'.memory (at s.base_address (granted.new.h + 1) + i * 32)
              ≡ zero_granule))
        ⊎ Refused env total s t l k size true (alloc_zeroed env layout s)
  unfolding alloc_zeroed Alloc.alloc_zeroed
  alloc_zeroed-Layout holds keeps granular fresh =
      elim (either_way env total s t l k size true holds keeps granular (alloc_zeroed env layout s)
        (λ e. rw (alloc_zeroed, e) refl) (λ a e e'. rw (alloc_zeroed, e, e') refl)
        (λ a g s' e e' eq. rw (alloc_zeroed, e, e', eq) refl)
        (λ a g q s' e e' eq. rw (alloc_zeroed, e, e', eq) refl)) [
          | inl granted ↦ inl (
            granted,
            λ i lt.
                ap granted.new.s'.memory (omega arith)
                ∙ data_zero granted.new (λ _. zero_granule) fresh refl i lt refl,
          )
          | inr refused ↦ inr refused
        ]
