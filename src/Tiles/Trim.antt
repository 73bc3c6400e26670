-- ===== src/Tiles/Trim.antt =====
-- `shrink_inplace` of src/allocator.rs as a step of the tiling.
use picoalloc.Base.{
  ℕ, ◌+◌, ◌-◌, ◌<◌, ◌^◌, ◌≡◌, Bool, true, false, ◌==◌, leb, arith, if◌then◌else◌, refl, ap, subst,
  update, ◌∙◌, Option, none, some, u32_max, dec_lt,
}
use picoalloc.Size
use picoalloc.Size.{Size, is_empty}
use picoalloc.Chunk.{unchecked_sub}
use picoalloc.Chunk.Laws.{unchecked_sub-eq}
use picoalloc.Env.{Env}
use picoalloc.Machine.{State, Outcome, ok, paranoid_assert}
use picoalloc.Allocator.Resize.{give_back, shrink_inplace}
use picoalloc.FreeList.{Lists}
use picoalloc.FreeList.Represents.{at, load-ok}
use picoalloc.Tiles.{Tiles, shrunk, freed, trimmed, either, allocation}
use picoalloc.Tiles.Holds.{Spans-InSpace, header_lem, Holds}
use picoalloc.Tiles.Check.{check_chunk-ok}
use picoalloc.Tiles.Loose.{Kept, Kept-refl, Kept-fewer}
use picoalloc.Tiles.Absorb.{size_sum-eq}
use picoalloc.Tiles.Free.{free-Holds}
use picoalloc.Tiles.Allocations.{allocation-freed}
use picoalloc.Tiles.Resized.{allocation-shrunk}
use picoalloc.Tiles.Shrink.{give_back-Holds}

-- `shrink_inplace` by its three cases.
module _ {E : Type 0} (env : Env E) (total : Size) (s : State E) (t : Tiles) (l : Lists)
    (holds : Holds env total s t l) (o : ℕ) (on : t.starts o ≡ true) (used : t.used o ≡ true)
    (size : Size) where
  open holds use {spans, tiled, tight, headers}

  abbrev Trims : Tiles → Outcome E (Unit {0}) → Type 0
  Trims t' r =
      (s' : State E) × (l' : Lists) × (r ≡ ok tt s')
      × Holds env total s' t' l'
      × Kept (either t t') s s'

  abbrev trim : Outcome E (Unit {0})
  trim = shrink_inplace env (at s.base_address (o + 1)) size s

  trim_all : size ≡ 0 → Trims (freed total t o) trim
  unfolding shrink_inplace is_empty
  trim_all e =
      let (s', l', eq, holds', kept) = free-Holds env total s t l o holds on used in
      let test : (size == 0) ≡ true = ground arith in
      rw (test, eq) (s', l', refl, holds', Kept-fewer (λ x h. ground (arith, h)) kept)

  module _ (some_size : 0 < size) (below : size < u32_max) where
    test : (size == 0) ≡ false
    test = ground arith

    full : Size.unchecked_add size 1 ≡ size + 1
    full = size_sum-eq size 1 (ground (arith, below))

    data_at : unchecked_sub (at s.base_address (o + 1)) 1 ≡ at s.base_address o
    data_at =
        ground
          (arith, unchecked_sub-eq (at s.base_address (o + 1)) 1, spans.no_wrap, tiled.within o on)

    short : t.size o < 2 ^ 27
    short = omega (arith, tiled.within o on, spans.short)

    trim_none : leb (t.size o) (size + 1) ≡ true → Trims t trim
    unfolding shrink_inplace is_empty paranoid_assert
    trim_none fits =
        let (size_eq, used_eq) = header_lem t o short in
        rw
          (
            test,
            full,
            data_at,
            check_chunk-ok env total s spans t tiled tight headers o on,
            load-ok s (Spans-InSpace spans) o (headers.touched o on),
            headers.size o on,
            used_eq,
            used,
            size_eq,
            fits,
          )
          (s, l, refl, holds, Kept-refl (either t t) s)

    trim_some : leb (t.size o) (size + 1) ≡ false → Trims (shrunk total t o (o + (size + 1))) trim
    unfolding shrink_inplace is_empty paranoid_assert shrunk
    trim_some over =
        let (size_eq, used_eq) = header_lem t o short in
        let (s', l', eq, holds', kept) =
          give_back-Holds env total s t l holds o on used (o + (size + 1)) (omega arith)
            (ground arith) in
        let sum : o + (size + 1) - o ≡ size + 1 = omega arith in
        rw
          (
            test,
            full,
            data_at,
            check_chunk-ok env total s spans t tiled tight headers o on,
            load-ok s (Spans-InSpace spans) o (headers.touched o on),
            headers.size o on,
            used_eq,
            used,
            size_eq,
            over,
            subst (λ z. give_back env (at s.base_address o) (t.size o) z s ≡ ok tt s') sum eq,
          )
          (s', l', refl, holds', Kept-fewer (λ x h. ground (arith, h)) kept)

  by_size :
      (some_size : 0 < size)
      → size < u32_max
      → (b : Bool) → leb (t.size o) (size + 1) ≡ b
      → Trims (trimmed total t o size) trim
  unfolding trimmed
  by_size some_size below true e =
      let nonempty : (size == 0) ≡ false = ground arith in
      rw (nonempty, e) (trim_none some_size below e)
  by_size some_size below false e =
      let nonempty : (size == 0) ≡ false = ground arith in
      rw (nonempty, e) (trim_some some_size below e)

  trim_cases : size < u32_max → Trims (trimmed total t o size) trim
  unfolding trimmed
  trim_cases below = elim (dec_lt 0 size) [
    | yes pos ↦ by_size pos below (leb (t.size o) (size + 1)) refl
    | no at_0 ↦ let empty : (size == 0) ≡ true = ground arith in rw empty (trim_all (omega arith))
  ]

  -- The size that the chunk is left with, if any.
  abbrev left : Option Size
  left = if size == 0 then none else some (if leb (t.size o) (size + 1) then t.size o else size + 1)

  abbrev Map : Tiles → ℕ → Type 0
  Map t' x = allocation t' x ≡ update (allocation t) o left x

  left_by_size :
      0 < size
      → (b : Bool) → leb (t.size o) (size + 1) ≡ b
      → (x : ℕ) → Map (trimmed total t o size) x
  unfolding trimmed
  left_by_size pos true e x =
      let nonempty : (size == 0) ≡ false = ground arith in rw (nonempty, e) (ground arith)
  left_by_size pos false e x =
      let nonempty : (size == 0) ≡ false = ground arith in
      let sum : o + (size + 1) - o ≡ size + 1 = omega arith in
      rw (nonempty, e)
        (allocation-shrunk total t tiled tight o on used (o + (size + 1)) (omega arith)
            (ground arith) x
          ∙ ap (λ z. update (allocation t) o (some z) x) sum)

  left_cases : (x : ℕ) → Map (trimmed total t o size) x
  unfolding trimmed
  left_cases x = elim (dec_lt 0 size) [
    | yes pos ↦ left_by_size pos (leb (t.size o) (size + 1)) refl x
    | no at_0 ↦
        let empty : (size == 0) ≡ true = ground arith in
        rw empty (allocation-freed total t o tiled on used x)
  ]

-- `shrink_inplace` of the pointer of an allocated chunk, in a state between two calls and with a
-- size below the largest `Size`, fails no assertion and returns. The chunk is then the smaller of
-- its size and the new one (a header more than the granules of data), or free where the new size is
-- 0; what it lost is free, and in the map of allocations nothing else changes. The state is one
-- between two calls, and no granule that is not a header before or after has changed.
pub shrink_inplace-Holds :
    {E : Type 0} (env : Env E) (total : Size) (s : State E) (t : Tiles) (l : Lists) (o : ℕ)
    (size : Size)
    → Holds env total s t l
    → t.starts o ≡ true
    → t.used o ≡ true
    → size < u32_max
    → (s' : State E) × (l' : Lists) × (shrink_inplace env (at s.base_address (o + 1)) size s
        ≡ ok tt s')
      × Holds env total s' (trimmed total t o size) l'
      × Kept (either t (trimmed total t o size)) s s'
      × ((x : ℕ)
          → allocation (trimmed total t o size) x
            ≡ update
                (allocation t)
                o
                (if size == 0
                  then none
                  else some (if leb (t.size o) (size + 1) then t.size o else size + 1))
                x)
shrink_inplace-Holds env total s t l o size holds on used below =
    let (s', l', eq, holds', kept) = trim_cases env total s t l holds o on used size below in
    (s', l', eq, holds', kept, left_cases env total s t l holds o on used size)
