-- ===== src/Tiles/Inplace.antt =====
-- The calls of `shrink_inplace` and `grow_inplace` in src/allocator.rs that change the size of a
-- chunk and take the free chunk behind it off its list.
use picoalloc.Base.{
  ℕ, ◌+◌, ◌-◌, ◌≤◌, ◌<◌, ◌^◌, ◌≡◌, Bool, true, false, not, ◌&&◌, ltb, arith, if◌then◌else◌, refl,
  subst, update, inl, inr, ◌∙◌,
}
use picoalloc.Size.{Size, unchecked_add}
use picoalloc.Chunk.{new_allocated}
use picoalloc.Env.{Env}
use picoalloc.Machine.{State, Outcome, ok, set_size}
use picoalloc.Allocator.{size_to_bin_round_down, unregister_free_space}
use picoalloc.Allocator.Free.{merge_next}
use picoalloc.FreeList.{Lists, remove}
use picoalloc.FreeList.Remove.{remove-IsLinked}
use picoalloc.FreeList.Represents.{at, Represents, check_access-ok, load-ok}
use picoalloc.FreeList.Unregister.{unregister_free_space-Represents}
use picoalloc.Tiles.{Tiles, resized, free_to}
use picoalloc.Tiles.Merge.{Boundary}
use picoalloc.Tiles.Holds.{Spans-InSpace, Spans-kept, Headers, header, header_lem, end-ok}
use picoalloc.Tiles.Loose.{Kept, Kept-refl, Framed-Headers}
use picoalloc.Tiles.Absorb.{size_sum-eq}
use picoalloc.Tiles.Write.{Writes}

module _ {E : Type 0} (env : Env E) (total : Size) (s : State E) (u : Tiles) (l : Lists)
    (writes : Writes env total s u l) where
  open writes use {spans, headers, linked, lists, free_starts}

  abbrev pub After : {A : Type 0} → Tiles → Lists → A → Outcome E A → Type 0
  After u' l' a r = (s' : State E) × (r ≡ ok a s') × Writes env total s' u' l' × Kept u s s'

  -- The new size of an allocated chunk.
  module _ (o : ℕ) (on : u.starts o ≡ true) (used : u.used o ≡ true)
      (not_free : l.is_free o ≡ false) (size : Size) where
    abbrev sized : State E
    sized = record s {
      memory =
          update s.memory (at s.base_address o)
            (record (s.memory (at s.base_address o)) { size = new_allocated size });
    }

    set_size-ok : set_size (at s.base_address o) (new_allocated size) s ≡ ok tt sized
    unfolding set_size
    set_size-ok = ground (arith, spans.based)

    sized-Headers : Headers sized (resized u o size)
    unfolding header
    sized-Headers = record {
      touched = headers.touched;
      size = λ x h. ground (arith, headers.size x);
      prev = λ x h. ground (arith, headers.prev x);
    }

    sized-Represents : Represents sized l
    sized-Represents = record {
      space = lists.space;
      inside = lists.inside;
      header = λ x e. ground (arith, lists.header x, not_free);
      first = lists.first;
      mask = lists.mask;
      bit = lists.bit;
    }

    pub set_size-Writes :
        After (resized u o size) l tt (set_size (at s.base_address o) (new_allocated size) s)
    set_size-Writes = rw set_size-ok (
      sized,
      refl,
      record {
        spans = Spans-kept spans refl refl refl;
        headers = sized-Headers;
        linked = linked;
        lists = sized-Represents;
        free_starts = free_starts;
      },
      record {
        base = refl;
        space = refl;
        env = refl;
        contents = λ p apart. ground (arith, apart o);
      },
    )

  -- A free chunk leaves its list.
  pub unregister-Writes :
      (q size : ℕ)
      → l.is_free q ≡ true
      → l.size q ≡ size
      → After u
          (remove l q)
          tt
          (unregister_free_space (at s.base_address q) (size_to_bin_round_down size) s)
  unregister-Writes q size free size_eq =
      let (s', eq, rep, framed) = unregister_free_space-Represents s l q linked lists free in
      (
        s',
        subst
            (λ z.
              unregister_free_space (at s.base_address q) (size_to_bin_round_down z) s ≡ ok tt s')
            size_eq eq,
        record {
          spans = Spans-kept spans framed.base framed.space framed.env;
          headers = Framed-Headers s s' u l framed headers;
          linked = remove-IsLinked l q linked free;
          lists = rep;
          free_starts = λ x e. ground (arith, free_starts x);
        },
        record {
          base = framed.base;
          space = framed.space;
          env = framed.env;
          contents = λ p apart. framed.others p (λ x e. apart x (free_starts x e));
        },
      )

-- The lists without the free chunk behind, if there is one.
abbrev pub taken : Size → Tiles → Lists → ℕ → Lists
taken total u l n = if ltb n total && not (u.used n) then remove l n else l

module _ {E : Type 0} (env : Env E) (total : Size) (s : State E) (u : Tiles) (l : Lists)
    (writes : Writes env total s u l) (n size : ℕ)
    (behind : u.starts n ≡ true
      → (0 < u.size n)
        × (n + u.size n ≤ total)
        × (size + u.size n < 2 ^ 32)
        × (u.used n ≡ false → (l.is_free n ≡ true) × (l.size n ≡ u.size n))) where
  open writes use {spans, headers, linked, lists, free_starts}

  abbrev run : Outcome E Size
  run = merge_next env (at s.base_address n) size s

  abbrev Merges : ℕ → Lists → Type 0
  Merges hi l' =
      (s' : State E) × (run ≡ ok (size + (hi - n)) s') × Writes env total s' u l' × Kept u s s'

  at_end : n ≡ total → Merges n l
  unfolding merge_next
  at_end e =
      let c : ltb (at s.base_address n) (at s.base_address total) ≡ false = ground arith in
      let same : size + (n - n) ≡ size = omega arith in
      rw (end-ok spans, c, same) (s, refl, writes, Kept-refl u s)

  module _ (h : u.starts n ≡ true) where
    below : ltb (at s.base_address n) (at s.base_address total) ≡ true
    below = ground (arith, behind h)

    used_next : u.used n ≡ true → Merges n l
    unfolding merge_next
    used_next used =
        let space = Spans-InSpace spans in
        let here = headers.touched n h in
        let (pos, fits, sum, free) = behind h in
        let (chunk_eq, used_eq) = header_lem u n (omega (arith, spans.short)) in
        let same : size + (n - n) ≡ size = omega arith in
        rw
          (
            end-ok spans,
            below,
            check_access-ok s space n here 8 (omega arith),
            load-ok s space n here,
            headers.size n h,
            used_eq,
            used,
            same,
          )
          (s, refl, writes, Kept-refl u s)

    free_next : u.used n ≡ false → Merges (n + u.size n) (remove l n)
    unfolding merge_next
    free_next unused =
        let space = Spans-InSpace spans in
        let here = headers.touched n h in
        let (pos, fits, sum, free) = behind h in
        let (chunk_eq, used_eq) = header_lem u n (omega (arith, spans.short)) in
        let (is_free, size_eq) = free unused in
        let (s', eq, writes', kept) =
          unregister-Writes env total s u l writes n (u.size n) is_free size_eq in
        let whole : unchecked_add size (u.size n) ≡ size + (n + u.size n - n) =
          size_sum-eq size (u.size n) sum ∙ omega arith in
        rw
          (
            end-ok spans,
            below,
            check_access-ok s space n here 8 (omega arith),
            load-ok s space n here,
            headers.size n h,
            chunk_eq,
            used_eq,
            unused,
            eq,
            whole,
          )
          (s', refl, writes', kept)

    by_use : (b : Bool) → u.used n ≡ b → Merges (free_to total u n) (taken total u l n)
    unfolding free_to
    by_use true e =
        let test : (ltb n total && not (u.used n)) ≡ false = ground arith in rw test (used_next e)
    by_use false e =
        let test : (ltb n total && not (u.used n)) ≡ true = ground (arith, behind h) in
        rw test (free_next e)

  by_end : n ≡ total → Merges (free_to total u n) (taken total u l n)
  unfolding free_to
  by_end e = let test : (ltb n total && not (u.used n)) ≡ false = ground arith in rw test (at_end e)

  -- `merge_next` takes the free chunk behind, if there is one, and adds its size.
  pub merge_next-Writes : Boundary total u n → Merges (free_to total u n) (taken total u l n)
  unfolding Boundary
  merge_next-Writes to = elim to [ inl e ↦ by_end e | inr h ↦ by_use h (u.used n) refl ]
