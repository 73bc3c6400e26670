-- ===== src/Tiles/Free.antt =====
-- `free` of src/allocator.rs as a step of the tiling.
use picoalloc.Base.{
  some, ℕ, ◌+◌, ◌-◌, ◌≤◌, ◌<◌, ◌≡◌, true, false, ◌==◌, arith, refl, ap, ◌∙◌, subst, inl, inr,
}
use picoalloc.Size.{Size}
use picoalloc.Chunk.{unchecked_sub, unchecked_add, is_null}
use picoalloc.Chunk.Laws.{unchecked_sub-eq}
use picoalloc.Env.{Env}
use picoalloc.Machine.{State, Outcome, ok, paranoid_assert, ◌>>◌}
use picoalloc.Allocator.{register_free_space, link_behind, paranoid_check_chunk}
use picoalloc.Allocator.Free.{free, merge_next}
use picoalloc.FreeList.{Lists, insert}
use picoalloc.FreeList.Insert.{insert-IsLinked}
use picoalloc.FreeList.Represents.{at, load-ok}
use picoalloc.Tiles.{allocation, Tiles, freed, free_from, free_to}
use picoalloc.Tiles.Allocations.{allocation-freed}
use picoalloc.Tiles.Merge.{Boundary, hi_in}
use picoalloc.Tiles.Holds.{Spans, Spans-InSpace, header_lem, Agrees, Holds, add-at}
use picoalloc.Tiles.Check.{check_chunk-ok}
use picoalloc.Tiles.Loose.{Loose, Kept, Kept-trans, Kept-fewer}
use picoalloc.Tiles.Settle.{merge_unlinked, register-Headers, link_behind-Headers}
use picoalloc.Tiles.Around.{
  chunk_end, free_from-starts, from, to, up, freed-IsTiled, freed-IsCoalesced,
}
use picoalloc.Tiles.Absorb.{merge_prev-Loose, merge_next-Loose}

module _ {E : Type 0} (env : Env E) (total : Size) (s : State E) (t : Tiles) (l : Lists)
    (holds : Holds env total s t l) (o : ℕ) (h : t.starts o ≡ true) (used : t.used o ≡ true) where
  open holds use {spans, tiled, tight, headers, agrees, linked, lists}

  abbrev n : ℕ
  n = o + t.size o

  abbrev lo : ℕ
  lo = free_from t o

  abbrev hi : ℕ
  hi = free_to total t n

  -- The chunk alone is off the lists.
  alone : Loose env total s t l o n
  alone = record {
    spans = spans;
    headers = headers;
    linked = linked;
    lists = lists;
    free = λ x. ground (arith, agrees.free x, tiled.gap o x h);
    size = λ x e. ground (arith, agrees.free x, agrees.size x);
  }

  abbrev Frees : Outcome E (Unit {0}) → Type 0
  Frees r =
      (s' : State E) × (l' : Lists) × (r ≡ ok tt s')
      × Holds env total s' (freed total t o) l'
      × Kept t s s'

  -- What holds once the range is one chunk of the lists and the chunk behind knows.
  settled :
      (s' : State E) (l' : Lists)
      → Loose env total s' t l' lo hi
      → Agrees (freed total t o) (insert l' lo (hi - lo))
  unfolding freed
  settled s' l' loose = record {
    free = λ x. ground (arith, loose.free x, from total t tiled o h, up total t tiled o h);
    size = λ x e f. ground (arith, loose.size x, loose.free x);
  }

  data_at : unchecked_sub (at s.base_address (o + 1)) 1 ≡ at s.base_address o
  data_at =
      ground
        (arith, unchecked_sub-eq (at s.base_address (o + 1)) 1, spans.no_wrap, tiled.within o h)

  -- The last steps, in a state whose lists lack the range.
  abbrev Settles : State E → Outcome E (Unit {0}) → Type 0
  Settles s2 r =
      (s' : State E) × (l' : Lists) × (r ≡ ok tt s')
      × Holds env total s' (freed total t o) l'
      × Kept t s2 s'

  to_behind : Boundary total (merge_unlinked t lo hi) hi
  unfolding Boundary
  to_behind = elim (to total t tiled o h) [ inl e ↦ inl e | inr e ↦ inr (ground (arith, e)) ]

  end_of_range :
      (s2 : State E)
      → Spans env total s2
      → unchecked_add (at s2.base_address lo) (hi - lo) ≡ at s2.base_address hi
  end_of_range s2 spans2 =
      let up = up total t tiled o h in
      let eq : lo + (hi - lo) ≡ hi = omega arith in
      add-at spans2 lo (hi - lo) (omega (arith, inside)) ∙ ap (at s2.base_address) eq
    where
      inside : hi ≤ total
      inside =
          hi_in total t tiled lo hi false (from total t tiled o h) (to total t tiled o h)
            (up total t tiled o h)

  backed_after :
      (s4 : State E)
      → s4.allocated_space ≡ s.allocated_space
      → (x z : ℕ) → allocation (freed total t o) x ≡ some z
      → x + z ≤ s4.allocated_space
  backed_after s4 space4 x z e =
      rw space4 (ground (arith, allocation-freed total t o tiled h used x, holds.backed x z))

  settle :
      (s2 : State E) (l2 : Lists)
      → s2.allocated_space ≡ s.allocated_space
      → Loose env total s2 t l2 lo hi
      → Settles s2 (
          (do
            register_free_space (at s2.base_address lo) (t.prev lo) (hi - lo)
            link_behind env 24 (unchecked_add (at s2.base_address lo) (hi - lo)) (hi - lo)
            paranoid_check_chunk env (at s2.base_address lo))
            s2)
  unfolding freed
  settle s2 l2 space loose =
      let from = from total t tiled o h in
      let up = up total t tiled o h in
      let (s3, eq3, spans3, headers3, rep3, kept3) =
        register-Headers env total s2 t l2 lo hi tiled loose from (to total t tiled o h) up in
      let (s4, eq4, spans4, headers4, rep4, kept4) =
        link_behind-Headers env total s3 spans3 (merge_unlinked t lo hi) headers3
          (insert l2 lo (hi - lo)) rep3 hi (hi - lo) 24 (omega arith) to_behind in
      let checked =
        check_chunk-ok env total s4 spans4 (freed total t o) (freed-IsTiled total t tiled o h)
          (freed-IsCoalesced total t tiled o h tight) headers4 lo (ground (arith, from)) in
      rw
        (
          eq3,
          end_of_range s2 loose.spans,
          subst (λ b. link_behind env 24 (at b hi) (hi - lo) s3 ≡ ok tt s4) kept3.base eq4,
          subst (λ b. paranoid_check_chunk env (at b lo) s4 ≡ ok tt s4) (kept4.base ∙ kept3.base)
              checked,
        )
        (
          s4,
          insert l2 lo (hi - lo),
          refl,
          record {
            spans = spans4;
            tiled = freed-IsTiled total t tiled o h;
            tight = freed-IsCoalesced total t tiled o h tight;
            headers = headers4;
            agrees = settled s2 l2 loose;
            linked = insert-IsLinked l2 loose.linked lo (hi - lo) (ground (arith, loose.free lo));
            lists = rep4;
            backed = backed_after s4 (kept4.space ∙ kept3.space ∙ space);
          },
          Kept-trans kept3 (Kept-fewer (λ x e. ground (arith, e)) kept4),
        )

  free_steps : Frees (free env (at s.base_address (o + 1)) s)
  unfolding free paranoid_assert is_null
  free_steps =
      let here = headers.touched o h in
      let space = Spans-InSpace spans in
      let (chunk_eq, used_eq) = header_lem t o (omega (arith, tiled.within o h, spans.short)) in
      let from = from total t tiled o h in
      let low = (free_from-starts total t tiled o h).1 in
      let below : lo < n = omega (arith, low, tiled.within o h) in
      let alive : (s.base_address == 0) ≡ false = ground (arith, spans.based) in
      let (s1, l1, eq1, loose1, kept1) = merge_prev-Loose env total t tiled s l o n h refl alone in
      let (s2, l2, eq2, loose2, kept2) =
        merge_next-Loose env total t tiled s1 l1 lo n loose1 from (chunk_end total t tiled o h)
          below in
      let (s3, l3, eq3, holds3, kept3) = settle s2 l2 (kept2.space ∙ kept1.space) loose2 in
      let merged_end : unchecked_add (at s.base_address lo) (n - lo) ≡ at s.base_address n =
        add-at spans lo (n - lo) (omega (arith, tiled.within o h))
        ∙ ap (at s.base_address) (omega arith) in
      rw
        (
          alive,
          data_at,
          check_chunk-ok env total s spans t tiled tight headers o h,
          load-ok s space o here,
          headers.size o h,
          headers.prev o h,
          used_eq,
          used,
          chunk_eq,
          eq1,
          merged_end,
          subst (λ b. merge_next env (at b n) (n - lo) s1 ≡ ok (hi - lo) s2) kept1.base eq2,
        )
        (
          s3,
          l3,
          subst
              (λ b.
                ((do
                  register_free_space (at b lo) (t.prev lo) (hi - lo)
                  link_behind env 24 (unchecked_add (at b lo) (hi - lo)) (hi - lo)
                  paranoid_check_chunk env (at b lo))
                  s2)
                ≡ ok tt s3)
              (kept2.base ∙ kept1.base) eq3,
          holds3,
          Kept-trans kept1 (Kept-trans kept2 kept3),
        )

-- `free` of the pointer of an allocated chunk, in a state between two calls, fails no assertion and
-- returns. The chunk and its free neighbours are then one free chunk, on the free lists; the other
-- chunks are as before, in a state between two calls, and no granule that is not a header changes.
pub free-Holds :
    {E : Type 0} (env : Env E) (total : Size) (s : State E) (t : Tiles) (l : Lists) (o : ℕ)
    → Holds env total s t l
    → t.starts o ≡ true
    → t.used o ≡ true
    → (s' : State E) × (l' : Lists) × (free env (at s.base_address (o + 1)) s ≡ ok tt s')
      × Holds env total s' (freed total t o) l'
      × Kept t s s'
free-Holds env total s t l o holds h used = free_steps env total s t l holds o h used
