-- ===== src/Tiles/Grant.antt =====
-- `alloc_from_bin` of src/allocator.rs as a step of the tiling: the head of a list is large enough,
-- and gives the allocation, or it is not.
use picoalloc.Base.{
  ◌≢◌, ◌&&◌, update, ℕ, ◌+◌, ◌-◌, ◌%◌, ◌≤◌, ◌<◌, ◌^◌, ◌≡◌, ◌⊎◌, inl, inr, Bool, true, false, ◌==◌,
  leb, ltb, arith, if◌then◌else◌, refl, sym, ap, ◌∙◌, subst, Option, none, some, dec_lt,
}
use picoalloc.Size
use picoalloc.Size.{Size, bytes, from_pointer_and_base_unchecked, checked_add, max_allocation_size}
use picoalloc.BitMask.{BitIndex}
use picoalloc.Chunk.{zero_granule, Granule, Pointer}
use picoalloc.Env.{Env, KeepsTotal}
use picoalloc.Machine.{State, Outcome, ok, paranoid_assert, pure, ◌>>◌}
use picoalloc.Allocator.{size_to_bin_round_down, bit_index_eq}
use picoalloc.Allocator.Alloc.{layout, alloc_at, alloc_from_bin}
use picoalloc.FreeList.{Lists, bin_of}
use picoalloc.FreeList.Represents.{at, link, first_of-ok, load-ok}
use picoalloc.Tiles.{Tiles}
use picoalloc.Tiles.Holds.{Spans-InSpace, Holds, header_lem}
use picoalloc.Tiles.Check.{check_chunk-ok}
use picoalloc.Tiles.Absorb.{offset-eq}
use picoalloc.Tiles.Alloc.{alloc_at-Holds}
use picoalloc.Tiles.Outcome.{Allocated, Declined, Refusal, no_memory, covers}
use picoalloc.Tiles.Allocations.{allocation-allotted, allocation-some}
use picoalloc.Tiles.{allocation, allotted}
use picoalloc.Tiles.Place.{d, d_low, d_high, data_aligned, layout-at, size_difference-eq}

bit_index_eq_self : {E : Type 0} (b : BitIndex) (s : State E) → bit_index_eq b b s ≡ ok true s
unfolding bit_index_eq paranoid_assert
bit_index_eq_self b s = ground arith

module _ {E : Type 0} (env : Env E) (total : Size) (s : State E) (t : Tiles) (l : Lists)
    (holds : Holds env total s t l) (keeps : KeepsTotal env) (granular : s.base_address % 32 ≡ 0)
    (k r : ℕ) (small : k < 32) where
  open holds use {spans, tiled, tight, headers, agrees, linked, lists}

  abbrev align : Size
  align = 2 ^ k

  abbrev pub Result : Bool → Outcome E (Option Pointer) → Type 0
  Result z result =
      Allocated env total s t align r z result ⊎ Declined env total s t l align r result

  pub declined : (z : Bool) → Refusal env total s t align r → Result z (ok none s)
  declined z reason = inr (record {
    reason = reason;
    s' = s;
    returns = refl;
    holds = holds;
    base = refl;
    space = omega arith;
    limits = λ limit limited le. le;
    memory = refl;
  })

  module _ (c j : ℕ) (head : l.heads j ≡ some c) (min_size : Size)
      (min_eq : min_size ≡ r + 1 + (align - 1)) (limit : min_size ≤ max_allocation_size) where
    is_free : l.is_free c ≡ true
    is_free = (linked.head_node j c head).0

    top : l.pred c ≡ none
    top = (linked.head_node j c head).2

    from : t.starts c ≡ true
    from = ground (arith, agrees.free c, is_free)

    unused : t.used c ≡ false
    unused = ground (arith, agrees.free c, is_free)

    bin_eq : bin_of (t.size c) ≡ j
    bin_eq = subst (λ z. bin_of z ≡ j) (agrees.size c from unused) (linked.head_node j c head).1

    first_eq : s.first_in_free_list (bin_of (t.size c)) ≡ at s.base_address c
    first_eq = ap s.first_in_free_list bin_eq ∙ lists.first j ∙ ap (link s.base_address) head

    short : t.size c < 2 ^ 27
    short = omega (arith, tiled.within c from, spans.short)

    abbrev run : Bool → Outcome E (Option Pointer)
    run z = alloc_from_bin env (size_to_bin_round_down (t.size c)) min_size align r z s

    -- The head of the list is read and checked.
    module _ (z : Bool) where
      abbrev rest : Outcome E (Option Pointer)
      rest =
          let place = layout s.base_address (at s.base_address c) (t.size c) align r in
          (if ltb (t.size c) min_size then pure none else (do
            paranoid_assert (
                leb (from_pointer_and_base_unchecked (at s.base_address c) s.base_address)
                  (Size.unchecked_sub place.data_offset 1))
            alloc_at env (at s.base_address c) (size_to_bin_round_down (t.size c)) align r z place))
            s

      head_read : run z ≡ rest
      unfolding alloc_from_bin paranoid_assert
      head_read =
          rw
            (
              first_of-ok s (t.size c),
              first_eq,
              check_chunk-ok env total s spans t tiled tight headers c from,
              load-ok s (Spans-InSpace spans) c (headers.touched c from),
              headers.size c from,
              (header_lem t c short).1,
              unused,
              (header_lem t c short).0,
              bit_index_eq_self (size_to_bin_round_down (t.size c)) s,
            )
            refl

      pub too_small : t.size c < min_size → Refusal env total s t align r → Result z (run z)
      too_small lt reason =
          let less : ltb (t.size c) min_size ≡ true = ground arith in
          rw (head_read, less) (declined z reason)

      module _ (le : min_size ≤ t.size c) where
        room : r + 1 + (align - 1) ≤ t.size c
        room = omega arith

        k_limit : align ≤ 2 ^ 25
        k_limit = omega arith

        abbrev data_offset : ℕ
        data_offset =
            d s.base_address c (t.size c) k r total spans.short spans.no_wrap granular
              (tiled.within c from).1 k_limit small room

        abbrev h : ℕ
        h = data_offset - 1

        above : c + 1 ≤ data_offset
        above =
            d_low s.base_address c (t.size c) k r total spans.short spans.no_wrap granular
              (tiled.within c from).1 k_limit small room

        below : data_offset + r ≤ c + t.size c
        below =
            d_high s.base_address c (t.size c) k r total spans.short spans.no_wrap granular
              (tiled.within c from).1 k_limit small room

        data_eq : data_offset ≡ h + 1
        data_eq = omega (arith, above)

        aligned : at s.base_address (h + 1) % bytes align ≡ 0
        aligned =
            subst (λ x. at s.base_address x % bytes align ≡ 0) data_eq
              (data_aligned s.base_address c (t.size c) k r total spans.short spans.no_wrap granular
                (tiled.within c from).1 k_limit small room)

        end : h + 1 + r ≤ c + t.size c
        end = omega (arith, below, above)

        abbrev end_offset : Size
        end_offset = if c + t.size c - (h + 1 + r) == 0 then h + 1 + r else h + 1 + r + 1

        low : c ≤ h
        low = omega (arith, above)

        placed_run :
            run z
            ≡ alloc_at env
                (at s.base_address c)
                (size_to_bin_round_down (t.size c))
                align
                r
                z
                (record {
                  data_offset = data_offset;
                  allocation_chunk = at s.base_address h;
                  free_space_lhs = h - c;
                  free_space_rhs = c + t.size c - (h + 1 + r);
                  end_offset = end_offset;
                })
                s
        unfolding paranoid_assert
        placed_run =
            let enough : ltb (t.size c) min_size ≡ false = ground arith in
            let c_in = (tiled.within c from).1 in
            let in_order : leb c h ≡ true = ground (arith, low) in
            rw
              (
                head_read,
                enough,
                layout-at s.base_address c (t.size c) k r total spans.short spans.no_wrap granular
                    c_in k_limit small room h data_eq,
                offset-eq s.base_address c (omega (arith, spans.short, above, below))
                    (omega (arith, spans.no_wrap, above, below)),
                size_difference-eq data_offset 1 (omega (arith, above))
                    (omega (arith, spans.short, above, below)),
                in_order,
              )
              refl

        abbrev zeroing : ℕ → Pointer → Granule
        zeroing x p =
            if ltb x s.allocated_space && z && covers s.base_address (h + 1) (h + 1 + r) p
            then zero_granule
            else s.memory p

        within : end_offset ≤ total
        within = ground (arith, tiled.within c from, end)

        map :
            (x : ℕ)
            → allocation (allotted t c h (h + 1 + r)) x ≡ update (allocation t) h (some (r + 1)) x
        map x =
            allocation-allotted total t c h (h + 1 + r) tiled tight from unused low (omega arith)
              end x
            ∙ ap (λ y. update (allocation t) h (some y) x) size_eq
          where
            size_eq : h + 1 + r - h ≡ r + 1
            size_eq = omega arith

        away : (x y : ℕ) → allocation t x ≡ some y → (x + y ≤ h) ⊎ (h + 1 + r ≤ x)
        away x y e =
            let (on, in_use, same) = allocation-some t x y e in
            elim (dec_lt x c) [
              | yes before ↦ inl (omega (arith, tiled.gap x c on from before, low, same))
              | no behind ↦
                  let other : x ≢ c = λ eq. absurd (ground (arith, eq, unused, in_use)) in
                  inr (omega (arith, tiled.gap c x from on (omega (arith, behind, other)), end))
            ]

        pub large : Result z (run z)
        large =
            rw placed_run
              (elim (alloc_at-Holds env total s t l holds keeps c h (h + 1 + r) from unused low
                (omega arith) end top align r data_offset end_offset refl aligned refl z) [
                  | inl (s', l', eq, holds', base, contents, space, limits) ↦ inl (record {
                    c = c;
                    h = h;
                    from = from;
                    unused = unused;
                    low = low;
                    high = end;
                    aligned = aligned;
                    small = omega (arith, limit, min_eq);
                    s' = s';
                    l' = l';
                    returns = eq;
                    holds = holds';
                    base = base;
                    space = space;
                    limits = limits;
                    contents = λ p apart.
                        contents p apart
                        ∙ subst (λ x. zeroing x p ≡ zeroing (h + 1) p) (sym data_eq) refl
                        ∙ ground arith;
                    map = map;
                    apart = away;
                  })
                  | inr (s', eq, holds', base, memory, space, limits, refused) ↦ inr (record {
                    reason = no_memory end_offset within refused;
                    s' = s';
                    returns = eq;
                    holds = holds';
                    base = base;
                    space = space;
                    limits = limits;
                    memory = memory;
                  })
                ])
