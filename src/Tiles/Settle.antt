-- ===== src/Tiles/Settle.antt =====
-- Putting a range of chunks of src/allocator.rs back on the free lists as one chunk, and telling
-- the chunk behind.
use picoalloc.Base.{
  ℕ, ◌-◌, ◌≤◌, ◌<◌, ◌≡◌, ◌≢◌, true, false, ltb, arith, refl, sym, subst, update, inl, inr,
  ℕ_discrete,
}
use picoalloc.Size.{Size}
use picoalloc.Env.{Env}
use picoalloc.Machine.{State, Outcome, ok}
use picoalloc.Allocator.{link_behind, register_free_space}
use picoalloc.FreeList.{Lists, insert}
use picoalloc.FreeList.Represents.{at, Represents, check_access-ok, set_prev_chunk_size-ok}
use picoalloc.FreeList.Register.{FramedBut, register_free_space-Represents}
use picoalloc.Tiles.{Tiles, IsTiled, merge}
use picoalloc.Tiles.Merge.{Boundary}
use picoalloc.Tiles.Holds.{Spans, Spans-InSpace, Spans-kept, Headers, header, end-ok}
use picoalloc.Tiles.Loose.{Loose, Kept, Kept-refl}

-- The tiling once the chunk before `hi` has `size` granules.
abbrev pub linked_behind : Tiles → ℕ → Size → Tiles
linked_behind t hi size = record t { prev = update t.prev hi size }

module _ {E : Type 0} (env : Env E) (total : Size) (s : State E) (spans : Spans env total s)
    (t : Tiles) (headers : Headers s t) (l : Lists) (lists : Represents s l) (hi : ℕ) (size : Size)
    (size_of : ℕ) (small : size_of ≤ 32) where
  abbrev pub Behind : Outcome E (Unit {0}) → Type 0
  Behind r =
      (s' : State E) × (r ≡ ok tt s')
      × Spans env total s'
      × Headers s' (linked_behind t hi size)
      × Represents s' l
      × Kept t s s'

  link_at_end : hi ≡ total → Behind (link_behind env size_of (at s.base_address hi) size s)
  unfolding link_behind header
  link_at_end e =
      let c : ltb (at s.base_address hi) (at s.base_address total) ≡ false = ground arith in
      rw (end-ok spans, c)
        (
          s,
          refl,
          spans,
          record {
            touched = headers.touched;
            size = headers.size;
            prev = λ o h. ground (arith, headers.prev o, headers.touched o, spans.reach);
          },
          lists,
          Kept-refl t s,
        )

  link_inside : t.starts hi ≡ true → Behind (link_behind env size_of (at s.base_address hi) size s)
  unfolding link_behind header
  link_inside starts =
      let here = headers.touched hi starts in
      let c : ltb (at s.base_address hi) (at s.base_address total) ≡ true =
        ground (arith, spans.reach) in
      rw
        (
          end-ok spans,
          c,
          check_access-ok s (Spans-InSpace spans) hi here size_of small,
          set_prev_chunk_size-ok s (Spans-InSpace spans) hi here size,
        )
        (
          _,
          refl,
          Spans-kept spans refl refl refl,
          record {
            touched = headers.touched;
            size = λ o h. ground (arith, headers.size o, headers.size hi);
            prev = λ o h. ground (arith, headers.prev o);
          },
          record {
            space = lists.space;
            inside = lists.inside;
            header = λ o e. ground (arith, lists.header o);
            first = lists.first;
            mask = lists.mask;
            bit = lists.bit;
          },
          record {
            base = refl;
            space = refl;
            env = refl;
            contents = λ p apart. ground (arith, apart hi);
          },
        )

  pub link_behind-Headers :
      Boundary total t hi → Behind (link_behind env size_of (at s.base_address hi) size s)
  unfolding Boundary
  link_behind-Headers to = elim to [ inl e ↦ link_at_end e | inr h ↦ link_inside h ]

-- The tiling with the chunks from `lo` to `hi` as one free chunk, which the chunk behind may not
-- know yet.
abbrev pub merge_unlinked : Tiles → ℕ → ℕ → Tiles
merge_unlinked t lo hi = record (merge t lo hi false) { prev = t.prev }

module _ {E : Type 0} (env : Env E) (total : Size) (s : State E) (t : Tiles) (l : Lists) (lo hi : ℕ)
    (tiled : IsTiled total t) (loose : Loose env total s t l lo hi) (from : t.starts lo ≡ true)
    (to : Boundary total t hi) (up : lo < hi) where
  abbrev Registers : Outcome E Size → Type 0
  Registers r =
      (s' : State E) × (r ≡ ok (hi - lo) s')
      × Spans env total s'
      × Headers s' (merge_unlinked t lo hi)
      × Represents s' (insert l lo (hi - lo))
      × Kept t s s'

  hi_in : hi ≤ total
  unfolding Boundary
  hi_in = elim to [ inl e ↦ omega arith | inr e ↦ ground (arith, tiled.within hi e) ]

  -- A state in which `register_free_space` has put the range in the lists.
  module _ (s' : State E) (rep : Represents s' (insert l lo (hi - lo)))
      (framed : FramedBut l lo s s')
      (prev : (s'.memory (at s.base_address lo)).prev_chunk_size ≡ t.prev lo) where
    Stored : ℕ → Type 0
    Stored o =
        ((s'.memory (at s'.base_address o)).size ≡ header (merge_unlinked t lo hi) o)
        × ((s'.memory (at s'.base_address o)).prev_chunk_size ≡ t.prev o)

    stored_lo : Stored lo
    unfolding Stored header
    stored_lo = (ground (arith, rep.header lo), rw framed.base prev)

    stored_else : (o : ℕ) → (merge_unlinked t lo hi).starts o ≡ true → o ≢ lo → Stored o
    unfolding Stored header
    stored_else o h ne =
        let (size_eq, prev_eq) = framed.sizes (at s.base_address o) (ground arith) in
        rw (framed.base, size_eq, prev_eq)
          (ground (arith, loose.headers.size o), ground (arith, loose.headers.prev o))

    registered : (o : ℕ) → (merge_unlinked t lo hi).starts o ≡ true → Stored o
    registered o h = elim (ℕ_discrete o lo) [
      | yes e ↦ subst Stored (sym e) stored_lo
      | no ne ↦ stored_else o h ne
    ]

    registered-Headers : Headers s' (merge_unlinked t lo hi)
    unfolding Stored
    registered-Headers = record {
      touched = λ o h. rw framed.space (ground (arith, loose.headers.touched o));
      size = λ o h. (registered o h).0;
      prev = λ o h. (registered o h).1;
    }

  pub register-Headers :
      Registers (register_free_space (at s.base_address lo) (t.prev lo) (hi - lo) s)
  register-Headers =
      let (s', eq, rep, framed, prev) =
        register_free_space-Represents s l lo (t.prev lo) (hi - lo) loose.linked loose.lists
          (ground (arith, loose.free lo)) (loose.headers.touched lo from) (omega arith)
          (omega (arith, hi_in, loose.spans.short)) in
      (
        s',
        eq,
        Spans-kept loose.spans framed.base framed.space framed.env,
        registered-Headers s' rep framed prev,
        rep,
        record {
          base = framed.base;
          space = framed.space;
          env = framed.env;
          contents = λ p apart.
              framed.others p (apart lo from) (λ o e. apart o (ground (arith, loose.free o)));
        },
      )
