-- ===== src/FreeList/Register.antt =====
-- `register_free_space` of src/allocator.rs puts a chunk into the lists that memory stores.
use picoalloc.Base.{ℕ, ◌<◌, ◌^◌, ◌≡◌, true, false, ◌==◌, Option, none, some, update, arith, refl}
use picoalloc.Size.{Size, is_empty}
use picoalloc.BitMask.{BitIndex}
use picoalloc.BitMask.Members.{set-contains}
use picoalloc.Chunk.{Pointer, null, is_null, new_unallocated}
use picoalloc.Machine.{State, Outcome, ok}
use picoalloc.Allocator.{size_to_bin_round_down, set_first, set_bin, push_free, register_free_space}
use picoalloc.FreeList.{Lists, IsLinked, bin_of, insert}
use picoalloc.FreeList.Represents.{
  at, Represents, bin_of-lt, not_null, check_access-ok, first_of-ok, round_down-index,
  write_free_header-ok, set_prev_in_list-ok,
}

-- What the call leaves alone: as `Framed`, and the granule at `o` may change.
pub record FramedBut {E : Type 0} (l : Lists) (o : ℕ) (s t : State E) : Type 0 where
  pub base : t.base_address ≡ s.base_address
  pub space : t.allocated_space ≡ s.allocated_space
  pub env : t.env ≡ s.env
  pub sizes :
      (p : Pointer)
      → (at s.base_address o ≡ p → ⊥)
      → ((t.memory p).size ≡ (s.memory p).size)
        × ((t.memory p).prev_chunk_size ≡ (s.memory p).prev_chunk_size)
  pub others :
      (p : Pointer)
      → (at s.base_address o ≡ p → ⊥)
      → ((x : ℕ) → l.is_free x ≡ true → at s.base_address x ≡ p → ⊥)
      → t.memory p ≡ s.memory p

module _ {E : Type 0} (s : State E) (l : Lists) (linked : IsLinked l) (rep : Represents s l) (o : ℕ)
    (h : l.is_free o ≡ false) (inside : o < s.allocated_space) (prev_size size : Size)
    (pos : 0 < size) (short : size < 2 ^ 27) where
  abbrev chunk : Pointer
  chunk = at s.base_address o

  abbrev bin : BitIndex
  bin = size_to_bin_round_down size

  -- The head of the bin and the header of the chunk are written.
  abbrev headed : Pointer → State E
  headed next = record s {
    first_in_free_list = update s.first_in_free_list (bin_of size) chunk;
    memory = update s.memory chunk (record (s.memory chunk) {
      prev_chunk_size = prev_size;
      size = new_unallocated size;
      next_in_list = next;
      prev_in_list = null;
    });
  }

  set_first-ok :
      set_first bin chunk s
      ≡ ok tt (record s { first_in_free_list = update s.first_in_free_list (bin_of size) chunk })
  unfolding set_first bin_of
  set_first-ok = ground (arith, bin_of-lt size)

  Pushed : Outcome E (Unit {0}) → Type 0
  Pushed r =
      (t : State E) × (r ≡ ok tt t)
      × Represents t (insert l o size)
      × FramedBut l o s t
      × ((t.memory chunk).prev_chunk_size ≡ prev_size)

  abbrev front : State E
  front = record s { first_in_free_list = update s.first_in_free_list (bin_of size) chunk }

  -- The first chunk of its bin: the bit of the bin is set.
  push_first : l.heads (bin_of size) ≡ none → Pushed (push_free chunk prev_size size bin s)
  unfolding Pushed push_free set_bin is_null
  push_first none_before =
      let (m, eq, wf, contains_m) =
        set-contains s.free_lists_with_unallocated_memory (bin_of size) rep.mask (bin_of-lt size) in
      rw
        (
          first_of-ok s size,
          set_first-ok,
          no_head,
          write_free_header-ok front rep.space o inside prev_size (new_unallocated size) 0 null,
          round_down-index size,
          eq,
        )
        (
          record (headed 0) { free_lists_with_unallocated_memory = m },
          refl,
          record {
            space = rep.space;
            inside = λ x e. ground (arith, rep.inside x);
            header = λ x e. ground (arith, rep.header x);
            first = λ b. ground (arith, rep.first b);
            mask = wf;
            bit = λ b lt. ground (arith, rep.bit b, contains_m b);
          },
          record {
            base = refl;
            space = refl;
            env = refl;
            sizes = λ p apart. ground arith;
            others = λ p apart apart'. ground arith;
          },
          ground arith,
        )
    where
      no_head : s.first_in_free_list (bin_of size) ≡ 0
      no_head = ground (arith, rep.first (bin_of size))

  -- A bin that had chunks: the old head gets its predecessor.
  push_more :
      (x : ℕ) → l.heads (bin_of size) ≡ some x → Pushed (push_free chunk prev_size size bin s)
  unfolding Pushed push_free set_bin
  push_more x before =
      let (m, eq, wf, contains_m) =
        set-contains s.free_lists_with_unallocated_memory (bin_of size) rep.mask (bin_of-lt size) in
      let (x_free, x_bin, x_top) = linked.head_node (bin_of size) x before in
      rw
        (
          first_of-ok s size,
          set_first-ok,
          head_eq,
          write_free_header-ok front rep.space o inside prev_size (new_unallocated size)
              (at s.base_address x) null,
          not_null s rep.space x (rep.inside x x_free).0,
          set_prev_in_list-ok (headed (at s.base_address x)) rep.space x (rep.inside x x_free).0
              chunk,
          round_down-index size,
          eq,
        )
        (
          _,
          refl,
          record {
            space = rep.space;
            inside = λ y e. ground (arith, rep.inside y);
            header = λ y e. ground (arith, rep.header y, rep.header x);
            first = λ b. ground (arith, rep.first b);
            mask = wf;
            bit = λ b lt. ground (arith, rep.bit b, contains_m b);
          },
          record {
            base = refl;
            space = refl;
            env = refl;
            sizes = λ p apart. ground arith;
            others = λ p apart apart'. ground (arith, apart' x);
          },
          ground arith,
        )
    where
      head_eq : s.first_in_free_list (bin_of size) ≡ at s.base_address x
      head_eq = ground (arith, rep.first (bin_of size))

  push : (b : Option ℕ) → l.heads (bin_of size) ≡ b → Pushed (push_free chunk prev_size size bin s)
  push none e = push_first e
  push (some x) e = push_more x e

-- `register_free_space` of no space does nothing and returns the size that it was given.
pub register_free_space-empty :
    {E : Type 0} (s : State E) (chunk : Pointer) (prev_size : Size)
    → register_free_space chunk prev_size 0 s ≡ ok prev_size s
unfolding register_free_space is_empty
register_free_space-empty s p prev_size = refl

-- The outcome of a registration of `size` granules at `o`.
abbrev pub Registered : {E : Type 0} → Lists → State E → ℕ → Size → Size → Outcome E Size → Type 0
Registered {E} l s o prev_size size r =
    (t : State E) × (r ≡ ok size t)
    × Represents t (insert l o size)
    × FramedBut l o s t
    × ((t.memory (at s.base_address o)).prev_chunk_size ≡ prev_size)

-- `register_free_space` of some space, at a granule of the initialised part that the stored lists
-- do not hold as free, fails no assertion and returns the size. The state then stores the lists
-- with the chunk in front of the list of its bin, the bit of the bin set, and the given size of the
-- chunk before in the header; no other header size changes, nor any other granule that is not free.
pub register_free_space-Represents :
    {E : Type 0} (s : State E) (l : Lists) (o : ℕ) (prev_size size : Size)
    → IsLinked l
    → Represents s l
    → l.is_free o ≡ false
    → o < s.allocated_space
    → 0 < size
    → size < 2 ^ 27
    → Registered l s o prev_size size (register_free_space (at s.base_address o) prev_size size s)
unfolding register_free_space is_empty Pushed
register_free_space-Represents s l o prev_size size linked rep h inside pos short =
    let nonempty : (size == 0) ≡ false = ground arith in
    let (t, eq, rep', framed, prev) =
      push s l linked rep o h inside prev_size size pos short (l.heads (bin_of size)) refl in
    rw (nonempty, check_access-ok s rep.space o inside 24 (omega arith), eq)
      (t, refl, rep', framed, prev)
