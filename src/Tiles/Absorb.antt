-- ===== src/Tiles/Absorb.antt =====
-- The two merges of `free` in src/allocator.rs take the free neighbours of a chunk off the lists.
use picoalloc.Base.{
  ℕ, ◌+◌, ◌-◌, ◌*◌, ◌<◌, ◌^◌, ◌≡◌, Bool, true, false, ◌||◌, ◌==◌, ltb, arith, refl, subst, inl, inr,
  dec_lt,
}
use picoalloc.Size.{Size, is_empty, from_pointer_and_base_unchecked, unchecked_add}
use picoalloc.Chunk.{Pointer, unchecked_sub}
use picoalloc.Chunk.Laws.{unchecked_sub-eq}
use picoalloc.Env.{Env}
use picoalloc.Machine.{State, Outcome, ok, paranoid_assert}
use picoalloc.Allocator.Free.{Extent, merge_prev, merge_next}
use picoalloc.FreeList.{Lists}
use picoalloc.FreeList.Represents.{at, check_access-ok, load-ok}
use picoalloc.Tiles.{Tiles, IsTiled, free_from, free_to}
use picoalloc.Tiles.Merge.{Boundary}
use picoalloc.Tiles.Holds.{Spans, Spans-InSpace, header_lem, end-ok}
use picoalloc.Tiles.Loose.{Loose, Kept, Kept-refl, within, take-Loose}

pub offset-eq :
    (base o : ℕ)
    → o < 2 ^ 27
    → base + o * 32 < 2 ^ 64
    → from_pointer_and_base_unchecked (at base o) base ≡ o
unfolding from_pointer_and_base_unchecked
offset-eq base o small fits = ground arith

pub size_sum-eq : (a b : Size) → a + b < 2 ^ 32 → unchecked_add a b ≡ a + b
unfolding unchecked_add
size_sum-eq a b h = ground arith

module _ {E : Type 0} (env : Env E) (total : Size) (t : Tiles) (tiled : IsTiled total t)
    (s : State E) (l : Lists) where
  short : Spans env total s → (q : ℕ) → t.starts q ≡ true → t.size q < 2 ^ 27
  short spans q e = omega (arith, (tiled.within q e).1, spans.short)

  module _ (o n : ℕ) (h : t.starts o ≡ true) (end : n ≡ o + t.size o)
      (loose : Loose env total s t l o n) where
    abbrev pub base : Pointer
    base = s.base_address

    -- The extent from `lo` on, with the chunks down to there off the lists.
    abbrev pub AbsorbsPrev : ℕ → Outcome E Extent → Type 0
    AbsorbsPrev lo r =
        (s' : State E) × (l' : Lists) × (r
          ≡ ok (record { chunk = at base lo; prev_size = t.prev lo; size = n - lo }) s')
        × Loose env total s' t l' lo n
        × Kept t s s'

    abbrev pub run : Outcome E Extent
    run = merge_prev (at base o) (t.prev o) (t.size o) s

    size_eq : t.size o ≡ n - o
    size_eq = omega arith

    offset : from_pointer_and_base_unchecked (at base o) base ≡ o
    offset =
        let short_o = tiled.within o h in
        offset-eq base o (omega (arith, loose.spans.short)) (omega (arith, loose.spans.no_wrap))

    prev_origin : o ≡ 0 → AbsorbsPrev o run
    unfolding merge_prev is_empty
    prev_origin e =
        let at_0 : (o == 0) ≡ true = ground arith in
        rw (offset, at_0, size_eq) (s, l, refl, loose, Kept-refl t s)

    module _ (pos : 0 < o) where
      abbrev p : ℕ
      p = o - t.prev o

      p_starts : t.starts p ≡ true
      p_starts = (tiled.before o h pos).2

      p_ends : t.size p ≡ t.prev o
      p_ends = (tiled.before o h pos).3

      p_end : p + t.size p ≡ o
      p_end = omega (arith, p_ends, (tiled.before o h pos).1)

      back : unchecked_sub (at base o) (t.prev o) ≡ at base p
      back = ground (
        arith,
        unchecked_sub-eq (at base o) (t.prev o),
        tiled.before o h pos,
        tiled.within o h,
        loose.spans.short,
        loose.spans.no_wrap,
      )

      nonempty : (o == 0) ≡ false
      nonempty = ground arith

      seen : (t.size p == t.prev o) ≡ true
      seen = ground (arith, p_ends)

      prev_used : t.used p ≡ true → AbsorbsPrev o run
      unfolding merge_prev is_empty paranoid_assert
      prev_used used =
          let space = Spans-InSpace loose.spans in
          let here = loose.headers.touched p p_starts in
          let (chunk_eq, used_eq) = header_lem t p (short loose.spans p p_starts) in
          rw
            (
              offset,
              nonempty,
              back,
              check_access-ok s space p here 8 (omega arith),
              load-ok s space p here,
              loose.headers.size p p_starts,
              chunk_eq,
              seen,
              used_eq,
              used,
              size_eq,
            )
            (s, l, refl, loose, Kept-refl t s)

      gains : (x : ℕ) → t.starts x ≡ true → within p n x ≡ (within o n x || (x == p))
      gains x e =
          ground (arith, tiled.gap p x p_starts e, p_end, tiled.within p p_starts, tiled.within o h)

      total_size : unchecked_add (t.size o) (t.prev o) ≡ n - p
      total_size =
          let sum = size_sum-eq (t.size o) (t.prev o) in
          ground (arith, sum, tiled.within o h, tiled.before o h pos, loose.spans.short)

      prev_free : t.used p ≡ false → AbsorbsPrev p run
      unfolding merge_prev is_empty paranoid_assert
      prev_free unused =
          let space = Spans-InSpace loose.spans in
          let here = loose.headers.touched p p_starts in
          let (chunk_eq, used_eq) = header_lem t p (short loose.spans p p_starts) in
          let (s', eq, loose', kept) =
            take-Loose env total s t l o n loose p p n p_starts unused
              (ground (arith, tiled.before o h pos)) gains in
          rw
            (
              offset,
              nonempty,
              back,
              check_access-ok s space p here 8 (omega arith),
              load-ok s space p here,
              loose.headers.size p p_starts,
              chunk_eq,
              seen,
              used_eq,
              unused,
              eq,
              p_ends,
              back,
              loose.headers.prev p p_starts,
              total_size,
            )
            (s', _, refl, loose', kept)

    prev_later : 0 < o → (b : Bool) → t.used (o - t.prev o) ≡ b → AbsorbsPrev (free_from t o) run
    unfolding free_from
    prev_later pos true e =
        let eq : o ≡ free_from t o = ground arith in
        subst (λ x. AbsorbsPrev x run) eq (prev_used pos e)
    prev_later pos false e =
        let eq : o - t.prev o ≡ free_from t o = ground arith in
        subst (λ x. AbsorbsPrev x run) eq (prev_free pos e)

    prev_first : o ≡ 0 → AbsorbsPrev (free_from t o) run
    unfolding free_from
    prev_first e =
        let eq : o ≡ free_from t o = ground arith in
        subst (λ x. AbsorbsPrev x run) eq (prev_origin e)

    -- `merge_prev` takes the free chunk before off its list, if there is one.
    pub merge_prev-Loose : AbsorbsPrev (free_from t o) run
    merge_prev-Loose = elim (dec_lt 0 o) [
      | yes pos ↦ prev_later pos (t.used (o - t.prev o)) refl
      | no at_0 ↦ prev_first (omega arith)
    ]

  module _ (lo n : ℕ) (loose : Loose env total s t l lo n) (from : t.starts lo ≡ true)
      (to : Boundary total t n) (up : lo < n) where
    abbrev pub AbsorbsNext : ℕ → Outcome E Size → Type 0
    AbsorbsNext hi r =
        (s' : State E) × (l' : Lists) × (r ≡ ok (hi - lo) s')
        × Loose env total s' t l' lo hi
        × Kept t s s'

    abbrev pub next_run : Outcome E Size
    next_run = merge_next env (at s.base_address n) (n - lo) s

    next_end : n ≡ total → AbsorbsNext n next_run
    unfolding merge_next
    next_end e =
        let c : ltb (at s.base_address n) (at s.base_address total) ≡ false = ground arith in
        rw (end-ok loose.spans, c) (s, l, refl, loose, Kept-refl t s)

    module _ (h : t.starts n ≡ true) where
      n_in : n < total
      n_in = omega (arith, tiled.within n h)

      below : ltb (at s.base_address n) (at s.base_address total) ≡ true
      below = ground (arith, n_in)

      next_used : t.used n ≡ true → AbsorbsNext n next_run
      unfolding merge_next
      next_used used =
          let space = Spans-InSpace loose.spans in
          let here = loose.headers.touched n h in
          let (chunk_eq, used_eq) = header_lem t n (short loose.spans n h) in
          rw
            (
              end-ok loose.spans,
              below,
              check_access-ok s space n here 8 (omega arith),
              load-ok s space n here,
              loose.headers.size n h,
              used_eq,
              used,
            )
            (s, l, refl, loose, Kept-refl t s)

      extends :
          (x : ℕ) → t.starts x ≡ true → within lo (n + t.size n) x ≡ (within lo n x || (x == n))
      extends x e = ground (arith, tiled.gap n x h e, tiled.within n h)

      whole : unchecked_add (n - lo) (t.size n) ≡ n + t.size n - lo
      whole = ground (arith, size_sum-eq (n - lo) (t.size n), tiled.within n h, loose.spans.short)

      next_free : t.used n ≡ false → AbsorbsNext (n + t.size n) next_run
      unfolding merge_next
      next_free unused =
          let space = Spans-InSpace loose.spans in
          let here = loose.headers.touched n h in
          let (chunk_eq, used_eq) = header_lem t n (short loose.spans n h) in
          let (s', eq, loose', kept) =
            take-Loose env total s t l lo n loose n lo (n + t.size n) h unused (ground arith)
              extends in
          rw
            (
              end-ok loose.spans,
              below,
              check_access-ok s space n here 8 (omega arith),
              load-ok s space n here,
              loose.headers.size n h,
              chunk_eq,
              used_eq,
              unused,
              eq,
              whole,
            )
            (s', _, refl, loose', kept)

    next_start :
        t.starts n ≡ true → (b : Bool) → t.used n ≡ b → AbsorbsNext (free_to total t n) next_run
    unfolding free_to
    next_start h true e =
        let eq : n ≡ free_to total t n = ground arith in
        subst (λ x. AbsorbsNext x next_run) eq (next_used h e)
    next_start h false e =
        let eq : n + t.size n ≡ free_to total t n = ground (arith, n_in h) in
        subst (λ x. AbsorbsNext x next_run) eq (next_free h e)

    next_none : n ≡ total → AbsorbsNext (free_to total t n) next_run
    unfolding free_to
    next_none e =
        let eq : n ≡ free_to total t n = ground arith in
        subst (λ x. AbsorbsNext x next_run) eq (next_end e)

    -- `merge_next` takes the free chunk behind off its list, if there is one.
    pub merge_next-Loose : AbsorbsNext (free_to total t n) next_run
    unfolding Boundary
    merge_next-Loose = elim to [ inl e ↦ next_none e | inr h ↦ next_start h (t.used n) refl ]
