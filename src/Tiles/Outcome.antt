-- ===== src/Tiles/Outcome.antt =====
-- The two ways in which `alloc_impl` of src/allocator.rs ends.
use picoalloc.Base.{
  ◌-◌, ◌<◌, ◌⊎◌, ◌==◌, ◌||◌, Bool, not, update, is_power_of_two, if◌then◌else◌, ℕ, ◌+◌, ◌%◌, ◌≤◌,
  ◌≡◌, true, false, ◌&&◌, leb, ltb, Option, none, some,
}
use picoalloc.Size.{Size, bytes, max_allocation_size}
use picoalloc.Bins.{to_bin_index}
use picoalloc.Allocator.{clamped}
use picoalloc.Chunk.{Pointer, zero_granule}
use picoalloc.Env.{Env, Limited}
use picoalloc.Machine.{State, Outcome, ok}
use picoalloc.FreeList.{Lists, bin_of}
use picoalloc.FreeList.Represents.{at}
use picoalloc.Tiles.{Tiles, allotted, allocation}
use picoalloc.Tiles.Holds.{Holds}

-- Whether an address is that of a granule from `lo` on and before `hi`.
abbrev pub covers : Pointer → ℕ → ℕ → Pointer → Bool
covers base lo hi p = leb (at base lo) p && ltb p (at base hi)

-- An allocation of `r` granules behind a header at `h`, out of the free chunk at `c`. The data is
-- zeroed on demand, where it may have been used before.
pub record Allocated {E : Type 0} (env : Env E) (total : Size) (s : State E) (t : Tiles)
    (align r : Size) (is_calloc : Bool) (result : Outcome E (Option Pointer)) : Type 0 where
  pub c : ℕ
  pub h : ℕ
  pub from : t.starts c ≡ true
  pub unused : t.used c ≡ false
  pub low : c ≤ h
  pub high : h + 1 + r ≤ c + t.size c
  pub aligned : at s.base_address (h + 1) % bytes align ≡ 0
  pub small : r + 1 + (align - 1) ≤ max_allocation_size
  pub s' : State E
  pub l' : Lists
  pub returns : result ≡ ok (some (at s.base_address (h + 1))) s'
  pub holds : Holds env total s' (allotted t c h (h + 1 + r)) l'
  pub base : s'.base_address ≡ s.base_address
  pub space : s.allocated_space ≤ s'.allocated_space
  pub limits :
      (limit : Size) → Limited env limit → s.allocated_space ≤ limit → s'.allocated_space ≤ limit
  pub contents :
      (p : Pointer)
      → ((x : ℕ) → (allotted t c h (h + 1 + r)).starts x ≡ true → at s.base_address x ≡ p → ⊥)
      → s'.memory p ≡ (
          if ltb (h + 1) s.allocated_space
            && is_calloc
            && covers s.base_address (h + 1) (h + 1 + r) p
          then zero_granule
          else s.memory p)
  -- The map of allocations has one more, apart from the others.
  pub map :
      (x : ℕ) → allocation (allotted t c h (h + 1 + r)) x ≡ update (allocation t) h (some (r + 1)) x
  pub apart : (x z : ℕ) → allocation t x ≡ some z → (x + z ≤ h) ⊎ (h + 1 + r ≤ x)

-- Why a request may be refused: the alignment, the size, no free chunk in a bin whose chunks surely
-- fit, or no memory.
pub data Refusal {E : Type 0} (env : Env E) (total : Size) (s : State E) (t : Tiles)
    (align r : Size) : Type 0 where
  invalid_alignment :
      (align == 0 || not (is_power_of_two 32 align)) ≡ true → Refusal env total s t align r
  too_large : max_allocation_size < r + 1 + (align - 1) → Refusal env total s t align r
  nothing_fits :
      ((o : ℕ)
        → t.starts o ≡ true
        → t.used o ≡ false
        → bin_of (t.size o) < to_bin_index true (clamped (r + 1 + (align - 1))))
      → Refusal env total s t align r
  no_memory :
      (end : ℕ)
      → end ≤ total
      → (env.expand_memory_until s.env s.base_address end).0 ≡ false
      → Refusal env total s t align r

-- No allocation: the chunks and all memory are as before.
pub record Declined {E : Type 0} (env : Env E) (total : Size) (s : State E) (t : Tiles) (l : Lists)
    (align r : Size) (result : Outcome E (Option Pointer)) : Type 0 where
  pub reason : Refusal env total s t align r
  pub s' : State E
  pub returns : result ≡ ok none s'
  pub holds : Holds env total s' t l
  pub base : s'.base_address ≡ s.base_address
  pub space : s.allocated_space ≤ s'.allocated_space
  pub limits :
      (limit : Size) → Limited env limit → s.allocated_space ≤ limit → s'.allocated_space ≤ limit
  pub memory : s'.memory ≡ s.memory
