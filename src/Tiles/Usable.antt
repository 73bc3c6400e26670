-- ===== src/Tiles/Usable.antt =====
-- `usable_size` of src/allocator.rs on the chunks of the tiling.
use picoalloc.Base.{ℕ, ◌+◌, ◌-◌, ◌*◌, ◌<◌, ◌^◌, ◌≡◌, true, arith, refl, ap, ◌∙◌, u64, u64_mod}
use picoalloc.Size
use picoalloc.Size.{Size, bytes}
use picoalloc.Chunk.{chunk_size}
use picoalloc.Chunk.Laws.{bytes-eq}
use picoalloc.Env.{Env}
use picoalloc.Machine.{State, ok}
use picoalloc.Allocator.Free.{usable_size, usable_size_impl}
use picoalloc.FreeList.{Lists}
use picoalloc.FreeList.Represents.{at}
use picoalloc.Tiles.{Tiles}
use picoalloc.Tiles.Holds.{Holds, header_lem}
use picoalloc.Tiles.Place.{size_difference-eq}

module _ {E : Type 0} (env : Env E) (total : Size) (s : State E) (t : Tiles) (l : Lists) (o : ℕ)
    (holds : Holds env total s t l) (h : t.starts o ≡ true) where
  open holds use {spans, tiled, headers}

  short : t.size o < 2 ^ 27
  short = omega (arith, tiled.within o h, spans.short)

  header_at : u64 (at s.base_address (o + 1) + u64_mod - bytes 1) ≡ at s.base_address o
  header_at = ground (arith, bytes-eq 1, spans.no_wrap, tiled.within o h)

  size_read : chunk_size ((s.memory (at s.base_address o)).size) ≡ t.size o
  size_read = ap chunk_size (headers.size o h) ∙ (header_lem t o short).0

  without_header : Size.unchecked_sub (t.size o) 1 ≡ t.size o - 1
  without_header = size_difference-eq (t.size o) 1 (tiled.within o h).0 (omega (arith, short))

  pub usable_granules : usable_size_impl (at s.base_address (o + 1)) s ≡ ok (t.size o - 1) s
  unfolding usable_size_impl
  usable_granules = rw (header_at, size_read, without_header) refl

  usable : usable_size (at s.base_address (o + 1)) s ≡ ok ((t.size o - 1) * 32) s
  unfolding usable_size usable_size_impl
  usable =
      rw (header_at, size_read, without_header, bytes-eq (t.size o - 1) (omega (arith, short))) refl

-- `usable_size` of the pointer of a chunk, in a state between two calls, is the size of the chunk
-- without its header, in bytes.
pub usable_size_lem :
    {E : Type 0} (env : Env E) (total : Size) (s : State E) (t : Tiles) (l : Lists) (o : ℕ)
    → Holds env total s t l
    → t.starts o ≡ true
    → usable_size (at s.base_address (o + 1)) s ≡ ok ((t.size o - 1) * 32) s
usable_size_lem env total s t l o holds h = usable env total s t l o holds h
