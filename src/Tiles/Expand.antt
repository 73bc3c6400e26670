-- ===== src/Tiles/Expand.antt =====
-- Steps of `alloc_impl` in src/allocator.rs that leave the chunks alone: asking for memory, and
-- zeroing an allocation.
use picoalloc.Base.{
  ℕ, ◌+◌, ◌*◌, ◌≤◌, ◌<◌, ◌≡◌, Bool, true, false, ◌&&◌, leb, ltb, arith, if◌then◌else◌, refl, ◌∙◌,
  ap, dec_lt,
}
use picoalloc.Size.{Size}
use picoalloc.Chunk.{Pointer, Granule}
use picoalloc.Env.{Env, KeepsTotal, Limited}
use picoalloc.Machine.{State, Outcome, ok, expand_memory_until}
use picoalloc.Allocator.Alloc.{ensure_space}
use picoalloc.FreeList.{Lists}
use picoalloc.FreeList.Represents.{at}
use picoalloc.Tiles.{Tiles}
use picoalloc.Tiles.Holds.{Holds}

module _ {E : Type 0} (env : Env E) (total : Size) (s : State E) (t : Tiles) (l : Lists)
    (holds : Holds env total s t l) where
  open holds use {spans, tiled, tight, headers, agrees, linked, lists}

  -- More of the space is initialised, and the environment may have changed.
  module _ (space : Size) (e : E) (more : s.allocated_space ≤ space) (fits : space ≤ total)
      (total_eq : env.total_space e ≡ total) where
    abbrev grown : State E
    grown = record s { allocated_space = space; env = e }

    grown-Holds : Holds env total grown t l
    grown-Holds = record {
      spans = record {
        total_eq = total_eq;
        based = spans.based;
        short = spans.short;
        no_wrap = spans.no_wrap;
        reach = fits;
      };
      tiled = tiled;
      tight = tight;
      headers = record {
        touched = λ o h. omega (arith, headers.touched o h);
        size = headers.size;
        prev = headers.prev;
      };
      backed = λ o z e. omega (arith, holds.backed o z e);
      agrees = agrees;
      linked = linked;
      lists = record {
        space = record {
          based = spans.based;
          short = omega (arith, spans.short);
          no_wrap = omega (arith, spans.no_wrap);
        };
        inside = λ o f.
            (omega (arith, (lists.inside o f).0), (lists.inside o f).1, (lists.inside o f).2);
        header = lists.header;
        first = lists.first;
        mask = lists.mask;
        bit = lists.bit;
      };
    }

  -- The outcome of a request for memory up to `end`: the memory is there, or the answer is no.
  abbrev Ensured : Size → Outcome E Bool → Type 0
  Ensured end r =
      (b : Bool) × (s' : State E) × (r ≡ ok b s')
      × Holds env total s' t l
      × (s'.base_address ≡ s.base_address)
      × (s'.memory ≡ s.memory)
      × (b ≡ true → end ≤ s'.allocated_space)
      × (b ≡ false → (env.expand_memory_until s.env s.base_address end).0 ≡ false)
      × (s.allocated_space ≤ s'.allocated_space)
      × ((limit : Size)
          → Limited env limit
          → s.allocated_space ≤ limit
          → s'.allocated_space ≤ limit)

  module _ (keeps : KeepsTotal env) (end : Size) (fits : end ≤ total) where
    same_total : env.total_space (env.expand_memory_until s.env s.base_address end).1 ≡ total
    same_total = keeps.on_expand s.env s.base_address end ∙ spans.total_eq

    enough :
        s.allocated_space < end
        → (b : Bool) → (env.expand_memory_until s.env s.base_address end).0 ≡ b
        → Ensured end (ensure_space env end s)
    unfolding ensure_space expand_memory_until
    enough lt true e =
        let less : ltb s.allocated_space end ≡ true = ground arith in
        rw (less, e)
          (
            true,
            _,
            refl,
            grown-Holds end (env.expand_memory_until s.env s.base_address end).1 (omega arith) fits
                same_total,
            refl,
            refl,
            λ b. omega arith,
            λ b. absurd (ground arith),
            omega arith,
            λ limit limited le. limited s.env s.base_address end e,
          )
    enough lt false e =
        let less : ltb s.allocated_space end ≡ true = ground arith in
        rw (less, e)
          (
            false,
            _,
            refl,
            grown-Holds s.allocated_space (env.expand_memory_until s.env s.base_address end).1
                (omega arith) spans.reach same_total,
            refl,
            refl,
            λ b. absurd (ground arith),
            λ b. refl,
            omega arith,
            λ limit limited le. le,
          )

    there : end ≤ s.allocated_space → Ensured end (ensure_space env end s)
    unfolding ensure_space
    there le =
        let less : ltb s.allocated_space end ≡ false = ground arith in
        rw less (
          true,
          s,
          refl,
          holds,
          refl,
          refl,
          λ b. le,
          λ b. absurd (ground arith),
          omega arith,
          λ limit limited le. le,
        )

    pub ensure_space-Holds : Ensured end (ensure_space env end s)
    ensure_space-Holds = elim (dec_lt s.allocated_space end) [
      | yes lt ↦ enough lt (env.expand_memory_until s.env s.base_address end).0 refl
      | no ge ↦ there (omega arith)
    ]

  -- Writes that leave the headers alone keep the chunks.
  module _ (memory : Pointer → Granule)
      (kept : (x : ℕ)
        → t.starts x ≡ true
        → memory (at s.base_address x) ≡ s.memory (at s.base_address x)) where
    abbrev written : State E
    written = record s { memory = memory }

    pub written-Holds : Holds env total written t l
    written-Holds = record {
      spans = record {
        total_eq = spans.total_eq;
        based = spans.based;
        short = spans.short;
        no_wrap = spans.no_wrap;
        reach = spans.reach;
      };
      tiled = tiled;
      tight = tight;
      headers = record {
        touched = headers.touched;
        size = λ x g. ap (λ m. m.size) (kept x g) ∙ headers.size x g;
        prev = λ x g. ap (λ m. m.prev_chunk_size) (kept x g) ∙ headers.prev x g;
      };
      backed = holds.backed;
      agrees = agrees;
      linked = linked;
      lists = record {
        space = lists.space;
        inside = lists.inside;
        header = λ x f. rw (kept x (ground (arith, agrees.free x))) (lists.header x f);
        first = lists.first;
        mask = lists.mask;
        bit = lists.bit;
      };
    }

  -- So do writes of the data of an allocation.
  module _ (h size : ℕ) (on : t.starts h ≡ true) (used : t.used h ≡ true)
      (inside : size + 1 ≤ t.size h) (value : Pointer → Granule) where
    abbrev filled : Pointer → Granule
    filled q =
        if leb (at s.base_address (h + 1)) q && ltb q (at s.base_address (h + 1) + size * 32)
        then value q
        else s.memory q

    kept_header :
        (x : ℕ) → t.starts x ≡ true → filled (at s.base_address x) ≡ s.memory (at s.base_address x)
    kept_header x g = ground (arith, tiled.gap h x, tiled.gap x h)

    pub filled-Holds : Holds env total (record s { memory = filled }) t l
    filled-Holds = written-Holds filled kept_header
