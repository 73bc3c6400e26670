-- ===== src/Tiles/Write.antt =====
-- The calls of src/allocator.rs that write down a chunk, within a call.
use picoalloc.Base.{
  ℕ, ◌<◌, ◌^◌, ◌≡◌, ◌≢◌, Bool, true, false, ◌==◌, arith, if◌then◌else◌, refl, sym, subst, update,
  ℕ_discrete, zero, suc,
}
use picoalloc.Size.{Size}
use picoalloc.Chunk.{Pointer, new_allocated}
use picoalloc.Env.{Env}
use picoalloc.Machine.{State, Outcome, ok, write_header}
use picoalloc.Allocator.{register_free_space, register_allocation}
use picoalloc.FreeList.{Lists, IsLinked, insert}
use picoalloc.FreeList.Insert.{insert-IsLinked}
use picoalloc.FreeList.Represents.{at, Represents, check_access-ok}
use picoalloc.FreeList.Register.{register_free_space-empty, register_free_space-Represents}
use picoalloc.Tiles.{Tiles, placed, placed_free}
use picoalloc.Tiles.Holds.{Holds, Spans, Spans-InSpace, Spans-kept, Headers, header}
use picoalloc.Tiles.Loose.{Kept, Kept-refl}

-- A state within a call: memory has the headers of `u`, which need not tile the space.
pub record Writes {E : Type 0} (env : Env E) (total : Size) (s : State E) (u : Tiles) (l : Lists)
    : Type 0 where
  pub spans : Spans env total s
  pub headers : Headers s u
  pub linked : IsLinked l
  pub lists : Represents s l
  pub free_starts : (o : ℕ) → l.is_free o ≡ true → u.starts o ≡ true

-- The lists with a chunk, if it is not empty.
abbrev pub insert_free : Lists → ℕ → Size → Lists
insert_free l o size = if size == 0 then l else insert l o size

module _ {E : Type 0} (env : Env E) (total : Size) (s : State E) (u : Tiles) (l : Lists)
    (writes : Writes env total s u l) (o : ℕ) (inside : o < s.allocated_space)
    (not_free : l.is_free o ≡ false) (prev size : Size) (short : size < 2 ^ 27) where
  open writes use {spans, headers, linked, lists, free_starts}

  -- The state after a chunk has been written down at `o`.
  abbrev pub Written : Tiles → Lists → {A : Type 0} → A → Outcome E A → Type 0
  Written u' l' a r = (s' : State E) × (r ≡ ok a s') × Writes env total s' u' l' × Kept u' s s'

  module _ (used : Bool) (s' : State E) (base : s'.base_address ≡ s.base_address)
      (space : s'.allocated_space ≡ s.allocated_space)
      (here : ((s'.memory (at s.base_address o)).size ≡ header (placed u o prev size used) o)
        × ((s'.memory (at s.base_address o)).prev_chunk_size ≡ prev))
      (others : (p : Pointer)
        → (at s.base_address o ≡ p → ⊥)
        → ((s'.memory p).size ≡ (s.memory p).size)
          × ((s'.memory p).prev_chunk_size ≡ (s.memory p).prev_chunk_size)) where
    abbrev u' : Tiles
    u' = placed u o prev size used

    abbrev Stored : ℕ → Type 0
    Stored x =
        ((s'.memory (at s.base_address x)).size ≡ header u' x)
        × ((s'.memory (at s.base_address x)).prev_chunk_size ≡ u'.prev x)

    elsewhere : (x : ℕ) → u'.starts x ≡ true → x ≢ o → Stored x
    unfolding header
    elsewhere x h ne =
        let (size_eq, prev_eq) = others (at s.base_address x) (ground arith) in
        rw (size_eq, prev_eq) (ground (arith, headers.size x), ground (arith, headers.prev x))

    stored_chunk : (x : ℕ) → u'.starts x ≡ true → Stored x
    stored_chunk x h = elim (ℕ_discrete x o) [
      | yes e ↦ subst Stored (sym e) (here.0, ground (arith, here))
      | no ne ↦ elsewhere x h ne
    ]

    placed-Headers : Headers s' u'
    placed-Headers = record {
      touched = λ x h. rw space (ground (arith, headers.touched x));
      size = λ x h. rw base (stored_chunk x h).0;
      prev = λ x h. rw base (stored_chunk x h).1;
    }

  abbrev allocated : State E
  allocated = record s {
    memory = update s.memory (at s.base_address o) (record (s.memory (at s.base_address o)) {
      prev_chunk_size = prev;
      size = new_allocated size;
    });
  }

  write_header-ok : write_header (at s.base_address o) prev (new_allocated size) s ≡ ok tt allocated
  unfolding write_header
  write_header-ok = ground (arith, spans.based)

  allocated-Headers : Headers allocated (placed u o prev size true)
  unfolding header
  allocated-Headers =
      placed-Headers true allocated refl refl (ground arith, ground arith) (λ p apart. ground arith)

  allocated-Represents : Represents allocated l
  allocated-Represents = record {
    space = lists.space;
    inside = lists.inside;
    header = λ x e. ground (arith, lists.header x, not_free);
    first = lists.first;
    mask = lists.mask;
    bit = lists.bit;
  }

  -- `register_allocation` writes down an allocated chunk.
  pub register_allocation-Writes :
      Written
        (placed u o prev size true)
        l
        tt
        (register_allocation (at s.base_address o) prev size s)
  unfolding register_allocation
  register_allocation-Writes =
      rw (check_access-ok s (Spans-InSpace spans) o inside 8 (omega arith), write_header-ok)
        (
          allocated,
          refl,
          record {
            spans = Spans-kept spans refl refl refl;
            headers = allocated-Headers;
            linked = linked;
            lists = allocated-Represents;
            free_starts = λ x e. ground (arith, free_starts x);
          },
          record {
            base = refl;
            space = refl;
            env = refl;
            contents = λ p apart. ground (arith, apart o);
          },
        )

  pub free_Written :
      0 < size
      → Written
          (placed u o prev size false)
          (insert l o size)
          size
          (register_free_space (at s.base_address o) prev size s)
  unfolding header
  free_Written pos =
      let (s', eq, rep, framed, prev_eq) =
        register_free_space-Represents s l o prev size linked lists not_free inside pos short in
      (
        s',
        eq,
        record {
          spans = Spans-kept spans framed.base framed.space framed.env;
          headers =
              placed-Headers false s' framed.base framed.space
                (ground (arith, rep.header o, framed.base), prev_eq) framed.sizes;
          linked = insert-IsLinked l linked o size not_free;
          lists = rep;
          free_starts = λ x e. ground (arith, free_starts x);
        },
        record {
          base = framed.base;
          space = framed.space;
          env = framed.env;
          contents = λ p apart.
              framed.others p (apart o (ground arith))
                (λ x e. apart x (ground (arith, free_starts x)));
        },
      )

-- `register_free_space` writes down a free chunk, unless it is empty.
pub register_free_space-Writes :
    {E : Type 0} (env : Env E) (total : Size) (s : State E) (u : Tiles) (l : Lists)
    (o prev size : ℕ)
    → Writes env total s u l
    → (0 < size → (o < s.allocated_space) × (l.is_free o ≡ false))
    → size < 2 ^ 27
    → (s' : State E) × (register_free_space (at s.base_address o) prev size s
        ≡ ok (if size == 0 then prev else size) s')
      × Writes env total s' (placed_free u o prev size) (insert_free l o size)
      × Kept (placed_free u o prev size) s s'
register_free_space-Writes env total s u l o prev zero writes ready short =
    (s, register_free_space-empty s (at s.base_address o) prev, writes, Kept-refl u s)
register_free_space-Writes env total s u l o prev (suc k) writes ready short =
    let (inside, not_free) = ready (omega arith) in
    let nonempty : (suc k == 0) ≡ false = ground arith in
    rw nonempty
      (free_Written env total s u l writes o inside not_free prev (suc k) short (omega arith))

-- A state between two calls is one in which memory has the headers of its tiling.
pub Holds-Writes :
    {E : Type 0} (env : Env E) (total : Size) (s : State E) (t : Tiles) (l : Lists)
    → Holds env total s t l
    → Writes env total s t l
Holds-Writes env total s t l holds = record {
  spans = holds.spans;
  headers = holds.headers;
  linked = holds.linked;
  lists = holds.lists;
  free_starts = λ x e. ground (arith, holds.agrees.free x);
}
