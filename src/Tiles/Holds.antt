-- ===== src/Tiles/Holds.antt =====
-- How the headers in memory store the chunks of the address space, with the free lists beside them.
use picoalloc.Base.{
  ◌∙◌, some, ℕ, ◌+◌, ◌≤◌, ◌<◌, ◌^◌, ◌≡◌, true, false, not, ◌&&◌, arith, if◌then◌else◌, refl,
}
use picoalloc.Size.{Size}
use picoalloc.Chunk.{
  ChunkSize, new_allocated, new_unallocated, chunk_size, is_allocated, unchecked_add,
}
use picoalloc.Chunk.Laws.{chunk_size_round_trip, unchecked_add-eq}
use picoalloc.Env.{Env}
use picoalloc.Machine.{State, ok, total_space}
use picoalloc.Allocator.{end_of_address_space}
use picoalloc.FreeList.{Lists, IsLinked}
use picoalloc.FreeList.Represents.{at, InSpace, Represents}
use picoalloc.Tiles.{Covers, allocation, Tiles, IsTiled, IsCoalesced}

-- The address space has `total` granules, and fits into the 64-bit addresses.
pub record Spans {E : Type 0} (env : Env E) (total : Size) (s : State E) : Type 0 where
  pub total_eq : env.total_space s.env ≡ total
  pub based : 0 < s.base_address
  pub short : total < 2 ^ 27
  pub no_wrap : at s.base_address total < 2 ^ 64
  pub reach : s.allocated_space ≤ total

-- The packed size of the chunk at an offset.
unfoldable pub header : Tiles → ℕ → ChunkSize
header t o = if t.used o then new_allocated (t.size o) else new_unallocated (t.size o)

-- Every chunk starts in the initialised part, with its size and that of the chunk before in memory.
pub record Headers {E : Type 0} (s : State E) (t : Tiles) : Type 0 where
  pub touched : (o : ℕ) → t.starts o ≡ true → o < s.allocated_space
  pub size : (o : ℕ) → t.starts o ≡ true → (s.memory (at s.base_address o)).size ≡ header t o
  pub prev :
      (o : ℕ) → t.starts o ≡ true → (s.memory (at s.base_address o)).prev_chunk_size ≡ t.prev o

-- The lists hold the free chunks of the tiling.
pub record Agrees (t : Tiles) (l : Lists) : Type 0 where
  pub free : (o : ℕ) → l.is_free o ≡ (t.starts o && not (t.used o))
  pub size : (o : ℕ) → t.starts o ≡ true → t.used o ≡ false → l.size o ≡ t.size o

-- A state of the allocator between two calls.
pub record Holds {E : Type 0} (env : Env E) (total : Size) (s : State E) (t : Tiles) (l : Lists)
    : Type 0 where
  pub spans : Spans env total s
  pub tiled : IsTiled total t
  pub tight : IsCoalesced total t
  pub headers : Headers s t
  pub agrees : Agrees t l
  pub linked : IsLinked l
  pub lists : Represents s l
  -- Every allocation has its memory.
  pub backed : (o z : ℕ) → allocation t o ≡ some z → o + z ≤ s.allocated_space

pub header_lem :
    (t : Tiles) (o : ℕ)
    → t.size o < 2 ^ 27
    → (chunk_size (header t o) ≡ t.size o) × (is_allocated (header t o) ≡ t.used o)
unfolding header
header_lem t o h = ground (arith, chunk_size_round_trip (t.size o))

module _ {E : Type 0} {env : Env E} {total : Size} {s : State E} (spans : Spans env total s) where
  pub Spans-InSpace : InSpace s.base_address s.allocated_space
  Spans-InSpace = record {
    based = spans.based;
    short = omega (arith, spans.short, spans.reach);
    no_wrap = omega (arith, spans.no_wrap, spans.reach);
  }

  pub add-at :
      (o size : ℕ)
      → o + size ≤ total
      → unchecked_add (at s.base_address o) size ≡ at s.base_address (o + size)
  add-at o size le =
      ground (arith, unchecked_add-eq (at s.base_address o) size, spans.short, spans.no_wrap)

  pub end-ok : end_of_address_space env s ≡ ok (at s.base_address total) s
  unfolding end_of_address_space total_space
  end-ok = rw (spans.total_eq, unchecked_add-eq s.base_address total spans.short spans.no_wrap) refl

-- A step that keeps the fields keeps the span.
pub Spans-kept :
    {E : Type 0} {env : Env E} {total : Size} {s t : State E}
    → Spans env total s
    → t.base_address ≡ s.base_address
    → t.allocated_space ≡ s.allocated_space
    → t.env ≡ s.env
    → Spans env total t
Spans-kept {env} spans base space env_eq = record {
  total_eq = rw env_eq spans.total_eq;
  based = rw base spans.based;
  short = spans.short;
  no_wrap = rw base spans.no_wrap;
  reach = rw space spans.reach;
}

-- Headers of more chunks serve for fewer.
pub Covers-Headers :
    {E : Type 0} (s : State E) (a b : Tiles) → ((x : ℕ) → Covers a b x) → Headers s a → Headers s b
unfolding header
Covers-Headers s a b covers headers = record {
  touched = λ o h. headers.touched o (covers o h).0;
  size = λ o h. headers.size o (covers o h).0 ∙ ground (arith, covers o h);
  prev = λ o h. headers.prev o (covers o h).0 ∙ (covers o h).2;
}
