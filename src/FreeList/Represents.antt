-- ===== src/FreeList/Represents.antt =====
-- How the state of src/allocator.rs stores the free lists, and the steps that only read it.
use picoalloc.Base.{
  ℕ, ◌+◌, ◌*◌, ◌≤◌, ◌<◌, ◌^◌, ◌≡◌, true, false, Option, none, some, update, arith, is_some, ap, sym,
  ◌∙◌,
}
use picoalloc.Size.{Size, max_allocation_size}
use picoalloc.BitMask
use picoalloc.BitMask.{BitIndex}
use picoalloc.BitMask.Members.{contains, IsWf, index_lem}
use picoalloc.Bins.{bin_config, to_bin_index}
use picoalloc.Bins.Order.{to_bin_index-lt}
use picoalloc.Chunk.{Pointer, Granule, is_null, new_unallocated}
use picoalloc.Chunk.Laws.{bytes-eq}
use picoalloc.Machine.{
  State, ok, paranoid_assert, load, set_prev_in_list, set_next_in_list, set_prev_chunk_size,
  write_free_header,
}
use picoalloc.Allocator.{size_to_bin_round_down, paranoid_check_access, first_of, clamped}
use picoalloc.FreeList.{Lists, bin_of}

-- The address of the granule at an offset, and a link in memory.
abbrev pub at : Pointer → ℕ → Pointer
at base o = base + o * 32

abbrev pub link : Pointer → Option ℕ → Pointer
link base none = 0
link base (some o) = at base o

-- The initialised part of the space lies in the 64-bit address space, below 4 GiB in length.
pub record InSpace (base : Pointer) (allocated : Size) : Type 0 where
  pub based : 0 < base
  pub short : allocated < 2 ^ 27
  pub no_wrap : at base allocated < 2 ^ 64

pub record Represents {E : Type 0} (s : State E) (l : Lists) : Type 0 where
  pub space : InSpace s.base_address s.allocated_space
  pub inside :
      (o : ℕ) → l.is_free o ≡ true → (o < s.allocated_space) × (0 < l.size o) × (l.size o < 2 ^ 27)
  pub header :
      (o : ℕ)
      → l.is_free o ≡ true
      → ((s.memory (at s.base_address o)).size ≡ new_unallocated (l.size o))
        × ((s.memory (at s.base_address o)).next_in_list ≡ link s.base_address (l.succ o))
        × ((s.memory (at s.base_address o)).prev_in_list ≡ link s.base_address (l.pred o))
  pub first : (bin : ℕ) → s.first_in_free_list bin ≡ link s.base_address (l.heads bin)
  pub mask : IsWf s.free_lists_with_unallocated_memory
  pub bit :
      (bin : ℕ)
      → bin < bin_config.bin_count
      → contains s.free_lists_with_unallocated_memory bin ≡ is_some (l.heads bin)

-- What an operation on the lists leaves alone: the space, the environment, the size of every chunk
-- and of the one before it, and each granule that is no free chunk of `l`.
pub record Framed {E : Type 0} (l : Lists) (s t : State E) : Type 0 where
  pub base : t.base_address ≡ s.base_address
  pub space : t.allocated_space ≡ s.allocated_space
  pub env : t.env ≡ s.env
  pub sizes :
      (p : Pointer)
      → ((t.memory p).size ≡ (s.memory p).size)
        × ((t.memory p).prev_chunk_size ≡ (s.memory p).prev_chunk_size)
  pub others :
      (p : Pointer)
      → ((o : ℕ) → l.is_free o ≡ true → at s.base_address o ≡ p → ⊥)
      → t.memory p ≡ s.memory p

pub bin_of-lt : (size : Size) → bin_of size < bin_config.bin_count
unfolding bin_of size_to_bin_round_down clamped
bin_of-lt size = ground (
  arith,
  index_lem (to_bin_index false size),
  index_lem (to_bin_index false max_allocation_size),
  to_bin_index-lt false size,
  to_bin_index-lt false max_allocation_size,
)

pub round_down-index : (size : Size) → size_to_bin_round_down size ≡ BitMask.index (bin_of size)
unfolding size_to_bin_round_down bin_of clamped
round_down-index size = ground (arith, index_lem (to_bin_index false (clamped size)))

-- Changing the links of a free chunk is within the frame.
pub Framed-update :
    {E : Type 0} (l : Lists) (s t : State E) (n : ℕ) (g : Granule)
    → l.is_free n ≡ true
    → g.size ≡ (s.memory (at s.base_address n)).size
    → g.prev_chunk_size ≡ (s.memory (at s.base_address n)).prev_chunk_size
    → t.base_address ≡ s.base_address
    → t.allocated_space ≡ s.allocated_space
    → t.env ≡ s.env
    → t.memory ≡ update s.memory (at s.base_address n) g
    → Framed l s t
Framed-update l s t n g free same_size same_prev base space env memory = record {
  base = base;
  space = space;
  env = env;
  sizes = λ p. rw memory (ground arith);
  others = λ p apart. rw memory (ground (arith, apart n));
}

pub Framed-trans :
    {E : Type 0} {l : Lists} {s t u : State E} → Framed l s t → Framed l t u → Framed l s u
Framed-trans a b = record {
  base = b.base ∙ a.base;
  space = b.space ∙ a.space;
  env = b.env ∙ a.env;
  sizes = λ p. ((b.sizes p).0 ∙ (a.sizes p).0, (b.sizes p).1 ∙ (a.sizes p).1);
  others = λ p apart.
      b.others p (λ o free e. apart o free (ap (λ base. at base o) (sym a.base) ∙ e))
      ∙ a.others p apart;
}

module _ {E : Type 0} (s : State E) (space : InSpace s.base_address s.allocated_space) (o : ℕ)
    (h : o < s.allocated_space) where
  pub not_null : is_null (at s.base_address o) ≡ false
  unfolding is_null
  not_null = ground (arith, space.based)

  pub check_access-ok :
      (size_of : ℕ) → size_of ≤ 32 → paranoid_check_access size_of (at s.base_address o) s ≡ ok tt s
  unfolding paranoid_check_access paranoid_assert is_null
  check_access-ok size_of small =
      ground
        (arith, space.based, space.short, space.no_wrap, bytes-eq s.allocated_space space.short)

  pub load-ok : load (at s.base_address o) s ≡ ok (s.memory (at s.base_address o)) s
  unfolding load is_null
  load-ok = ground (arith, space.based)

  abbrev pub stored : Granule → State E
  stored g = record s { memory = update s.memory (at s.base_address o) g }

  abbrev granule : Granule
  granule = s.memory (at s.base_address o)

  pub set_prev_in_list-ok :
      (q : Pointer)
      → set_prev_in_list (at s.base_address o) q s
        ≡ ok tt (stored (record granule { prev_in_list = q }))
  unfolding set_prev_in_list
  set_prev_in_list-ok q = ground (arith, space.based)

  pub set_next_in_list-ok :
      (q : Pointer)
      → set_next_in_list (at s.base_address o) q s
        ≡ ok tt (stored (record granule { next_in_list = q }))
  unfolding set_next_in_list
  set_next_in_list-ok q = ground (arith, space.based)

  pub set_prev_chunk_size-ok :
      (size : Size)
      → set_prev_chunk_size (at s.base_address o) size s
        ≡ ok tt (stored (record granule { prev_chunk_size = size }))
  unfolding set_prev_chunk_size
  set_prev_chunk_size-ok size = ground (arith, space.based)

  pub write_free_header-ok :
      (prev_size : Size) (raw : ℕ) (next prev : Pointer)
      → write_free_header (at s.base_address o) prev_size raw next prev s
        ≡ ok tt (
            stored (record granule {
              prev_chunk_size = prev_size;
              size = raw;
              next_in_list = next;
              prev_in_list = prev;
            }))
  unfolding write_free_header
  write_free_header-ok prev_size raw next prev = ground (arith, space.based)

pub first_of-ok :
    {E : Type 0} (s : State E) (size : Size)
    → first_of (size_to_bin_round_down size) s ≡ ok (s.first_in_free_list (bin_of size)) s
unfolding first_of bin_of
first_of-ok s size = ground (arith, bin_of-lt size)
