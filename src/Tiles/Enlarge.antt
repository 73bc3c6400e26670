-- ===== src/Tiles/Enlarge.antt =====
-- `grow_inplace` of src/allocator.rs as a step of the tiling.
use picoalloc.Base.{
  ℕ, ◌+◌, ◌-◌, ◌≤◌, ◌<◌, ◌^◌, ◌≡◌, ◌⊎◌, Bool, true, false, leb, ltb, arith, refl, sym, subst, inl,
  inr, Option, none, some, u32_max, dec_lt,
}
use picoalloc.Size
use picoalloc.Size.{Size, checked_add, is_empty}
use picoalloc.Chunk.{unchecked_add, unchecked_sub}
use picoalloc.Chunk.Laws.{unchecked_sub-eq}
use picoalloc.Env.{Env, KeepsTotal}
use picoalloc.Machine.{State, Outcome, ok, paranoid_assert}
use picoalloc.Allocator.Resize.{grow_into, grow_chunk, grow_inplace}
use picoalloc.FreeList.{Lists}
use picoalloc.FreeList.Represents.{at, load-ok}
use picoalloc.Tiles.{Tiles}
use picoalloc.Tiles.Holds.{Spans-InSpace, header_lem, Holds, add-at, end-ok}
use picoalloc.Tiles.Check.{check_chunk-ok}
use picoalloc.Tiles.Absorb.{size_sum-eq}
use picoalloc.Tiles.Place.{size_difference-eq}
use picoalloc.Tiles.Extend.{room, Grown, Stuck, stuck_here, takes_over}

module _ {E : Type 0} (env : Env E) (total : Size) (s : State E) (t : Tiles) (l : Lists)
    (holds : Holds env total s t l) (keeps : KeepsTotal env) (o : ℕ) (on : t.starts o ≡ true)
    (used : t.used o ≡ true) (size : Size) where
  open holds use {spans, tiled, tight, headers}

  abbrev n : ℕ
  n = o + t.size o

  abbrev Grows' : Outcome E (Option Size) → Type 0
  Grows' r = Grown env total s t o size r ⊎ Stuck env total s t l o size r

  stuck : t.size o < size + 1 → room total t o size ≡ false → Grows' (ok none s)
  stuck = stuck_here env total s t l holds keeps o on used size

  short : t.size o < 2 ^ 27
  short = omega (arith, tiled.within o on, spans.short)

  -- The tests before memory is asked for.
  abbrev into : Outcome E (Option Size)
  into = grow_into env (at s.base_address o) (t.size o) (size + 1) s

  behind_at : unchecked_add (at s.base_address o) (t.size o) ≡ at s.base_address n
  behind_at = add-at spans o (t.size o) (tiled.within o on).1

  module _ (smaller : t.size o < size + 1) where
    into_end : n ≡ total → Grows' into
    unfolding grow_into room
    into_end e =
        let test : leb (at s.base_address total) (at s.base_address n) ≡ true = ground arith in
        rw (end-ok spans, behind_at, test) (stuck smaller (ground arith))

    module _ (lt : n < total) where
      behind_on : t.starts n ≡ true
      behind_on = (tiled.next o on lt).0

      short_n : t.size n < 2 ^ 27
      short_n = omega (arith, tiled.within n behind_on, spans.short)

      not_end : leb (at s.base_address total) (at s.base_address n) ≡ false
      not_end = ground arith

      -- The chunk behind is read and checked.
      abbrev Reads : Bool → Type 0
      Reads b = t.used n ≡ b → Grows' into

      into_used : Reads true
      unfolding grow_into room
      into_used behind_used =
          rw
            (
              end-ok spans,
              behind_at,
              not_end,
              check_chunk-ok env total s spans t tiled tight headers n behind_on,
              load-ok s (Spans-InSpace spans) n (headers.touched n behind_on),
              headers.size n behind_on,
              (header_lem t n short_n).1,
              behind_used,
            )
            (stuck smaller (ground (arith, behind_used)))

      available : Size.unchecked_add (t.size o) (t.size n) ≡ t.size o + t.size n
      available = size_sum-eq (t.size o) (t.size n) (omega (arith, short, short_n))

      into_free : (b : Bool) → ltb (t.size o + t.size n) (size + 1) ≡ b → Reads false
      unfolding grow_into room
      into_free true small unused =
          let (size_n, used_n) = header_lem t n short_n in
          rw
            (
              end-ok spans,
              behind_at,
              not_end,
              check_chunk-ok env total s spans t tiled tight headers n behind_on,
              load-ok s (Spans-InSpace spans) n (headers.touched n behind_on),
              headers.size n behind_on,
              used_n,
              unused,
              size_n,
              available,
              small,
            )
            (stuck smaller (ground arith))
      into_free false large unused =
          let (size_n, used_n) = header_lem t n short_n in
          rw
            (
              end-ok spans,
              behind_at,
              not_end,
              check_chunk-ok env total s spans t tiled tight headers n behind_on,
              load-ok s (Spans-InSpace spans) n (headers.touched n behind_on),
              headers.size n behind_on,
              used_n,
              unused,
              size_n,
              available,
              large,
              size_difference-eq (t.size o + t.size n) (size + 1) (ground arith)
                  (omega (arith, short, short_n)),
            )
            (takes_over env total s t l holds keeps o on used size smaller lt unused (ground arith))

      into_by : (b : Bool) → Reads b
      into_by true = into_used
      into_by false = into_free (ltb (t.size o + t.size n) (size + 1)) refl

    into_cases : Grows' into
    into_cases = elim (dec_lt n total) [
      | yes lt ↦ into_by lt (t.used n) refl
      | no at_end ↦ into_end (omega (arith, tiled.within o on))
    ]

  -- The request as a whole.
  abbrev grow : Outcome E (Option Size)
  grow = grow_chunk env (at s.base_address (o + 1)) (size + 1) s

  abbrev request : Outcome E (Option Size)
  request = grow_inplace env (at s.base_address (o + 1)) size s

  abbrev Ends : Outcome E (Option Size) → Type 0
  Ends r = ((size + 1 ≤ t.size o) × (r ≡ ok (some (t.size o - 1)) s)) ⊎ Grows' r

  data_at : unchecked_sub (at s.base_address (o + 1)) 1 ≡ at s.base_address o
  data_at =
      ground
        (arith, unchecked_sub-eq (at s.base_address (o + 1)) 1, spans.no_wrap, tiled.within o on)

  abbrev Tests : Bool → Type 0
  Tests b = leb (size + 1) (t.size o) ≡ b → Ends grow

  large_enough : Tests true
  unfolding grow_chunk paranoid_assert
  large_enough e =
      let (size_o, used_o) = header_lem t o short in
      rw
        (
          data_at,
          check_chunk-ok env total s spans t tiled tight headers o on,
          load-ok s (Spans-InSpace spans) o (headers.touched o on),
          headers.size o on,
          used_o,
          used,
          size_o,
          e,
          size_difference-eq (t.size o) 1 (tiled.within o on).0 (omega (arith, short)),
        )
        (inl (ground arith, refl))

  too_small : Tests false
  unfolding grow_chunk paranoid_assert
  too_small e =
      let (size_o, used_o) = header_lem t o short in
      rw
        (
          data_at,
          check_chunk-ok env total s spans t tiled tight headers o on,
          load-ok s (Spans-InSpace spans) o (headers.touched o on),
          headers.size o on,
          used_o,
          used,
          size_o,
          e,
        )
        (inr (into_cases (ground arith)))

  tests : (b : Bool) → Tests b
  tests true = large_enough
  tests false = too_small

  sum : size < u32_max → checked_add size 1 ≡ some (size + 1)
  unfolding checked_add
  sum below =
      let test : ltb u32_max (size + 1) ≡ false = ground (arith, below) in
      rw (checked_add, test) refl

  no_sum : u32_max ≤ size → checked_add size 1 ≡ none
  unfolding checked_add
  no_sum above =
      let test : ltb u32_max (size + 1) ≡ true = ground (arith, above) in
      rw (checked_add, test) refl

  in_range : size < u32_max → request ≡ grow
  unfolding grow_inplace grow_chunk
  in_range below = rw (grow_inplace, sum below) refl

  out_of_range : u32_max ≤ size → request ≡ ok none s
  unfolding grow_inplace
  out_of_range above = rw (grow_inplace, no_sum above) refl

  no_room : u32_max ≤ size → room total t o size ≡ false
  unfolding room
  no_room above = ground (arith, above, short, tiled.next o on, tiled.within n, spans.short)

  grow_cases : Ends request
  grow_cases = elim (dec_lt size u32_max) [
    | yes below ↦ subst Ends (sym (in_range below)) (tests (leb (size + 1) (t.size o)) refl)
    | no above ↦
        subst Ends (sym (out_of_range (omega arith)))
          (inr (stuck (omega (arith, above, short)) (no_room (omega arith))))
  ]

-- `grow_inplace` of the pointer of an allocated chunk, in a state between two calls, fails no
-- assertion and returns. There are three outcomes: the chunk is large enough, and nothing happens;
-- or the chunk has the new size (a header more than the granules of data), in a state between two
-- calls, in which the map of allocations has changed at this chunk alone, and no granule that is not
-- a header before or after has changed; or the answer is no, chunks and memory are as before, and
-- either the chunk and a free one behind it do not suffice, or the environment has no memory.
pub grow_inplace-Holds :
    {E : Type 0} (env : Env E) (total : Size) (s : State E) (t : Tiles) (l : Lists) (o : ℕ)
    (size : Size)
    → Holds env total s t l
    → KeepsTotal env
    → t.starts o ≡ true
    → t.used o ≡ true
    → ((size + 1 ≤ t.size o)
        × (grow_inplace env (at s.base_address (o + 1)) size s ≡ ok (some (t.size o - 1)) s))
      ⊎ (Grown env total s t o size (grow_inplace env (at s.base_address (o + 1)) size s)
          ⊎ Stuck env total s t l o size (grow_inplace env (at s.base_address (o + 1)) size s))
grow_inplace-Holds env total s t l o size holds keeps on used =
    grow_cases env total s t l holds keeps o on used size
