-- ===== src/Tiles.antt =====
-- The specification of the address space of src/allocator.rs: chunks that tile it, at offsets in
-- granules from the base address.
pub mod Merge
pub mod Cut
pub mod Holds
pub mod Check
pub mod Loose
pub mod Settle
pub mod Allot
pub mod Calls
pub mod Carve
pub mod Expand
pub mod Alloc
pub mod Place
pub mod Outcome
pub mod Find
pub mod Grant
pub mod Allocate
pub mod Promises
pub mod Move
pub mod Realloc
pub mod Usable
pub mod Allocations
pub mod Inplace
pub mod Resized
pub mod Shrink
pub mod Trim
pub mod Grow
pub mod Extend
pub mod Enlarge
pub mod Write
pub mod Around
pub mod Absorb
pub mod Free
pub mod Initialize
use picoalloc.Base.{
  ℕ, ◌+◌, ◌-◌, ◌≤◌, ◌<◌, ◌≡◌, Bool, true, false, not, ◌&&◌, ◌||◌, leb, ltb, update, ◌==◌, Option,
  none, some, if◌then◌else◌,
}
use picoalloc.Size.{Size}

-- Where chunks start, their sizes, the sizes of the chunks before them, and which are allocated.
pub record Tiles : Type 0 where
  pub starts : ℕ → Bool
  pub size : ℕ → Size
  pub prev : ℕ → Size
  pub used : ℕ → Bool

-- The chunks cover `total` granules without gaps or overlaps, and know the size of the one before.
pub record IsTiled (total : Size) (t : Tiles) : Type 0 where
  pub origin : (t.starts 0 ≡ true) × (t.prev 0 ≡ 0)
  pub within : (o : ℕ) → t.starts o ≡ true → (0 < t.size o) × (o + t.size o ≤ total)
  pub next :
      (o : ℕ)
      → t.starts o ≡ true
      → o + t.size o < total
      → (t.starts (o + t.size o) ≡ true) × (t.prev (o + t.size o) ≡ t.size o)
  pub before :
      (o : ℕ)
      → t.starts o ≡ true
      → 0 < o
      → (0 < t.prev o)
        × (t.prev o ≤ o)
        × (t.starts (o - t.prev o) ≡ true)
        × (t.size (o - t.prev o) ≡ t.prev o)
  pub gap : (o q : ℕ) → t.starts o ≡ true → t.starts q ≡ true → o < q → o + t.size o ≤ q

-- No two free chunks are neighbours.
pub record IsCoalesced (total : Size) (t : Tiles) : Type 0 where
  pub next :
      (o : ℕ)
      → t.starts o ≡ true
      → t.used o ≡ false
      → o + t.size o < total
      → t.used (o + t.size o) ≡ true
  pub before : (o : ℕ) → t.starts o ≡ true → t.used o ≡ false → 0 < o → t.used (o - t.prev o) ≡ true

-- The chunks from `lo` to `hi` become one.
abbrev pub merge : Tiles → ℕ → ℕ → Bool → Tiles
merge t lo hi used = record {
  starts = λ q. t.starts q && not (ltb lo q && ltb q hi);
  size = update t.size lo (hi - lo);
  prev = update t.prev hi (hi - lo);
  used = update t.used lo used;
}

-- Where the free space around a chunk starts and ends: the chunk before `o`, if it is free, and the
-- one from `n` on belong to it.
unfoldable pub free_from : Tiles → ℕ → ℕ
free_from t o = if ltb 0 o && not (t.used (o - t.prev o)) then o - t.prev o else o

unfoldable pub free_to : Size → Tiles → ℕ → ℕ
free_to total t n = if ltb n total && not (t.used n) then n + t.size n else n

-- The tiling once the chunk at `o` is free.
unfoldable pub freed : Size → Tiles → ℕ → Tiles
unfolding free_from free_to
freed total t o = merge t (free_from t o) (free_to total t (o + t.size o)) false

-- One free chunk.
abbrev pub whole : Size → Tiles
whole total = record { starts = λ q. q == 0; size = λ _. total; prev = λ _. 0; used = λ _. false }

-- The chunk at `o` is cut in two at `a`.
abbrev pub cut : Tiles → ℕ → ℕ → Bool → Bool → Tiles
cut t o a front back = record {
  starts = update t.starts a true;
  size = update (update t.size o (a - o)) a (o + t.size o - a);
  prev = update (update t.prev a (a - o)) (o + t.size o) (o + t.size o - a);
  used = update (update t.used o front) a back;
}

-- A chunk that is written down at `o`.
abbrev pub placed : Tiles → ℕ → Size → Size → Bool → Tiles
placed t o prev size used = record {
  starts = update t.starts o true;
  size = update t.size o size;
  prev = update t.prev o prev;
  used = update t.used o used;
}

-- The same of a free chunk, if it is not empty.
abbrev pub placed_free : Tiles → ℕ → Size → Size → Tiles
placed_free t o prev size = if size == 0 then t else placed t o prev size false

-- The tiling once the granules from `h` to `n`, within the free chunk at `c`, are allocated.
abbrev pub claimed : Tiles → ℕ → Tiles
claimed t c = record t { used = update t.used c true }

abbrev pub cut_before : Tiles → ℕ → ℕ → Tiles
cut_before t c h = if ltb c h then cut t c h false true else t

abbrev pub cut_behind : Tiles → ℕ → ℕ → Tiles
cut_behind t h n = if ltb n (h + t.size h) then cut t h n true false else t

unfoldable pub allotted : Tiles → ℕ → ℕ → ℕ → Tiles
allotted t c h n = cut_behind (cut_before (claimed t c) c h) h n

-- The same chunks, with the same headers.
abbrev pub Same : Tiles → Tiles → ℕ → Type 0
Same a b x =
    (a.starts x ≡ b.starts x)
    × (b.starts x ≡ true → (a.size x ≡ b.size x) × (a.prev x ≡ b.prev x) × (a.used x ≡ b.used x))

-- The allocations as a map from the offsets of their headers to the sizes of their chunks.
abbrev pub allocation : Tiles → ℕ → Option Size
allocation t o = if t.starts o && t.used o then some (t.size o) else none

-- A chunk whose size alone has changed.
abbrev pub resized : Tiles → ℕ → Size → Tiles
resized t o size = record t { size = update t.size o size }

-- The tiling once the allocation at `o` ends at `a`, and what is left is free.
unfoldable pub shrunk : Size → Tiles → ℕ → ℕ → Tiles
unfolding free_to
shrunk total t o a = merge (cut t o a true true) a (free_to total t (o + t.size o)) false

-- The tiling once the allocation at `o` has at most `size` granules of data: none, and it is free.
unfoldable pub trimmed : Size → Tiles → ℕ → Size → Tiles
unfolding freed shrunk
trimmed total t o size =
    if size == 0
    then freed total t o
    else if leb (t.size o) (size + 1)
    then t
    else shrunk total t o (o + (size + 1))

-- The chunks of either tiling start in this one.
abbrev pub either : Tiles → Tiles → Tiles
either a b = record a { starts = λ x. a.starts x || b.starts x }

-- The tiling once the allocation at `o` ends at `a`, within the free chunk behind it.
unfoldable pub grown : Tiles → ℕ → ℕ → Tiles
grown t o a = cut_behind (merge t o (o + t.size o + t.size (o + t.size o)) true) o a

-- The chunks of `b` are chunks of `a`, with the same headers.
abbrev pub Covers : Tiles → Tiles → ℕ → Type 0
Covers a b x =
    b.starts x ≡ true
    → (a.starts x ≡ true) × (a.size x ≡ b.size x) × (a.prev x ≡ b.prev x) × (a.used x ≡ b.used x)
