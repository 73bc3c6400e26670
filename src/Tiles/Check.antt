-- ===== src/Tiles/Check.antt =====
-- The paranoid checks of src/allocator.rs on chunks of the tiling.
use picoalloc.Base.{
  inl, inr, subst, sym, ℕ, ◌+◌, ◌-◌, ◌<◌, ◌^◌, ◌≡◌, true, false, ◌==◌, leb, ltb, u64, arith, dec_lt,
  refl,
}
use picoalloc.Size.{Size, is_empty}
use picoalloc.Chunk.{Pointer, unchecked_sub, is_null}
use picoalloc.Chunk.Laws.{unchecked_sub-eq}
use picoalloc.Env.{Env}
use picoalloc.Machine.{State, ok, paranoid_assert}
use picoalloc.Allocator.{check_prev, check_next, paranoid_check_chunk}
use picoalloc.FreeList.Represents.{at, check_access-ok, load-ok}
use picoalloc.Tiles.{Tiles, IsTiled, IsCoalesced}
use picoalloc.Tiles.Merge.{Boundary}
use picoalloc.Tiles.Holds.{Spans, Spans-InSpace, Headers, header_lem, add-at, end-ok}

module _ {E : Type 0} (env : Env E) (total : Size) (s : State E) (spans : Spans env total s) where
  abbrev base : Pointer
  base = s.base_address

  pub check_end-ok : paranoid_check_chunk env (at base total) s ≡ ok tt s
  unfolding paranoid_check_chunk paranoid_assert is_null
  check_end-ok = ground (arith, end-ok spans, spans.based)

  module _ (t : Tiles) (tiled : IsTiled total t) (tight : IsCoalesced total t)
      (headers : Headers s t) (o : ℕ) (h : t.starts o ≡ true) where
    short : (q : ℕ) → t.starts q ≡ true → t.size q < 2 ^ 27
    short q e = omega (arith, (tiled.within q e).1, spans.short)

    prev_at : 0 < o → unchecked_sub (at base o) (t.prev o) ≡ at base (o - t.prev o)
    prev_at pos = ground (
      arith,
      unchecked_sub-eq (at base o) (t.prev o),
      tiled.before o,
      tiled.within o,
      spans.short,
      spans.no_wrap,
    )

    check_prev-first : o ≡ 0 → check_prev base (t.used o) (t.prev o) (at base o) s ≡ ok tt s
    unfolding check_prev is_empty paranoid_assert
    check_prev-first e = ground (arith, e, tiled.origin)

    check_prev-later : 0 < o → check_prev base (t.used o) (t.prev o) (at base o) s ≡ ok tt s
    unfolding check_prev is_empty paranoid_assert
    check_prev-later pos =
        let (pos', le, starts, size) = tiled.before o h pos in
        let nonempty : (t.prev o == 0) ≡ false = ground arith in
        let above : leb base (at base (o - t.prev o)) ≡ true = ground arith in
        let (size_eq, used_eq) = header_lem t (o - t.prev o) (short _ starts) in
        rw
          (
            nonempty,
            prev_at pos,
            above,
            load-ok s (Spans-InSpace spans) (o - t.prev o) (headers.touched _ starts),
            headers.size _ starts,
            size_eq,
            used_eq,
          )
          (ground (arith, size, tight.before o h, pos))

    check_next-inside :
        o + t.size o < total
        → check_next (at base total) (t.used o) (t.size o) (at base o) s ≡ ok tt s
    unfolding check_next paranoid_assert
    check_next-inside lt =
        let (starts, prev) = tiled.next o h lt in
        let below : ltb (at base (o + t.size o)) (at base total) ≡ true = ground arith in
        rw
          (
            add-at spans o (t.size o) (tiled.within o h).1,
            below,
            load-ok s (Spans-InSpace spans) (o + t.size o) (headers.touched _ starts),
            headers.size _ starts,
            headers.prev _ starts,
            (header_lem t (o + t.size o) (short _ starts)).1,
          )
          (ground (arith, prev, tight.next o h, lt))

    check_next-end :
        o + t.size o ≡ total
        → check_next (at base total) (t.used o) (t.size o) (at base o) s ≡ ok tt s
    unfolding check_next paranoid_assert
    check_next-end e = rw (add-at spans o (t.size o) (tiled.within o h).1, e) (ground arith)

    check_prev-ok : check_prev base (t.used o) (t.prev o) (at base o) s ≡ ok tt s
    check_prev-ok = elim (dec_lt 0 o) [
      | yes pos ↦ check_prev-later pos
      | no at_0 ↦ check_prev-first (omega arith)
    ]

    check_next-ok : check_next (at base total) (t.used o) (t.size o) (at base o) s ≡ ok tt s
    check_next-ok = elim (dec_lt (o + t.size o) total) [
      | yes lt ↦ check_next-inside lt
      | no at_end ↦ check_next-end (omega (arith, tiled.within o h))
    ]

    -- A chunk of the tiling passes.
    pub check_chunk-ok : paranoid_check_chunk env (at base o) s ≡ ok tt s
    unfolding paranoid_check_chunk paranoid_assert is_null
    check_chunk-ok =
        let here = headers.touched o h in
        let (size_eq, used_eq) = header_lem t o (short o h) in
        let c1 : (at base o == 0) ≡ false = ground (arith, spans.based) in
        let c2 : (base == 0) ≡ false = ground (arith, spans.based) in
        let c3 : leb base (at base o) ≡ true = ground arith in
        let c4 : (at base o == at base total) ≡ false = ground (arith, spans.reach) in
        let c5 : ltb (at base o) (at base total) ≡ true = ground (arith, spans.reach) in
        let c6 : leb (u64 (at base o + 8)) (at base total) ≡ true =
          ground (arith, spans.reach, spans.no_wrap) in
        rw
          (
            c1,
            c2,
            c3,
            end-ok spans,
            c4,
            c5,
            c6,
            check_access-ok s (Spans-InSpace spans) o here 8 (omega arith),
            load-ok s (Spans-InSpace spans) o here,
            headers.size o h,
            headers.prev o h,
            used_eq,
            size_eq,
            check_prev-ok,
            check_next-ok,
          )
          refl

-- So does any place where a chunk may end.
pub check_limit-ok :
    {E : Type 0} (env : Env E) (total : Size) (s : State E) (t : Tiles) (o : ℕ)
    → Spans env total s
    → IsTiled total t
    → IsCoalesced total t
    → Headers s t
    → Boundary total t o
    → paranoid_check_chunk env (at s.base_address o) s ≡ ok tt s
unfolding Boundary
check_limit-ok env total s t o spans tiled tight headers to = elim to [
  | inl at_end ↦
      subst (λ x. paranoid_check_chunk env (at s.base_address x) s ≡ ok tt s) (sym at_end)
        (check_end-ok env total s spans)
  | inr starts ↦ check_chunk-ok env total s spans t tiled tight headers o starts
]
