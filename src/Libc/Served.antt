-- ===== src/Libc/Served.antt =====
-- What a call of src/global_allocator_libc.rs that allocates leaves, with the lock and `errno`.
use picoalloc.Base.{
  ℕ, ◌+◌, ◌-◌, ◌*◌, ◌%◌, ◌^◌, ◌≤◌, ◌≡◌, ◌≢◌, ◌⊎◌, Bool, false, update, arith, refl, Option, none,
  some,
}
use picoalloc.Size.{Size, from_bytes_usize}
use picoalloc.Size.Convert.{from_bytes_usize_iff}
use picoalloc.Size.Powers.{align-bytes}
use picoalloc.Chunk.{Pointer, null}
use picoalloc.Env.{Env, KeepsTotal}
use picoalloc.Machine
use picoalloc.Machine.{State}
use picoalloc.Allocator.Alloc.{alloc_impl}
use picoalloc.FreeList.{Lists}
use picoalloc.FreeList.Represents.{at}
use picoalloc.Tiles.{Tiles, allocation}
use picoalloc.Tiles.Holds.{Holds}
use picoalloc.Tiles.Outcome.{Allocated, Declined, Refusal}
use picoalloc.Libc.{Process, returned, with_lock}

-- Between two calls: the lock is free, and the allocator is in a state between two calls.
pub record Idle {E : Type 0} (env : Env E) (total : Size) (p : Process E) (t : Tiles) (l : Lists)
    : Type 0 where
  pub unlocked : p.locked ≡ false
  pub holds : Holds env total p.heap t l
  pub granular : p.heap.base_address % 32 ≡ 0

-- The caller has a new allocation of at least `size` bytes, apart from all others.
pub record Served {E : Type 0} (env : Env E) (total : Size) (p p' : Process E) (t : Tiles)
    (align size : ℕ) (pointer : Pointer) : Type 0 where
  pub h : ℕ
  pub granules : Size
  pub chunks : Tiles
  pub lists : Lists
  pub place : pointer ≡ at p.heap.base_address (h + 1)
  pub not_null : pointer ≢ null
  pub aligned : pointer % align ≡ 0
  pub enough : size ≤ granules * 32
  pub map : (x : ℕ) → allocation chunks x ≡ update (allocation t) h (some (granules + 1)) x
  pub apart : (x z : ℕ) → allocation t x ≡ some z → (x + z ≤ h) ⊎ (h + 1 + granules ≤ x)
  pub idle : Idle env total p' chunks lists
  pub errno : p'.errno ≡ p.errno

-- The caller has nothing; chunks and memory are as before.
pub record Unserved {E : Type 0} (env : Env E) (total : Size) (p p' : Process E) (t : Tiles)
    (l : Lists) (pointer : Pointer) : Type 0 where
  pub is_null : pointer ≡ null
  pub idle : Idle env total p' t l
  pub memory : p'.heap.memory ≡ p.heap.memory

-- Why a call may find no memory: the size, the alignment, or a refusal of the allocator.
pub data Shortage {E : Type 0} (env : Env E) (total : Size) (s : State E) (t : Tiles)
    (align size : ℕ) : Type 0 where
  size_too_large : from_bytes_usize size ≡ none → Shortage env total s t align size
  alignment_too_large : from_bytes_usize align ≡ none → Shortage env total s t align size
  refused :
      (align_granules granules : Size)
      → from_bytes_usize align ≡ some align_granules
      → from_bytes_usize size ≡ some granules
      → Refusal env total s t align_granules granules
      → Shortage env total s t align size

pub room : (size granules : ℕ) → from_bytes_usize size ≡ some granules → size ≤ granules * 32
room size granules e = ground (arith, (from_bytes_usize_iff size granules).0 e)

module _ {E : Type 0} (env : Env E) (total : Size) (p : Process E) (t : Tiles) (l : Lists)
    (idle : Idle env total p t l) (keeps : KeepsTotal env) where
  open idle use {unlocked, holds, granular}

  -- Nothing has happened but for `errno`.
  pub nothing : (code : ℕ) → Unserved env total p (record p { errno = code }) t l null
  nothing code = record {
    is_null = refl;
    idle = record { unlocked = unlocked; holds = holds; granular = granular };
    memory = refl;
  }

  abbrev pub after : State E → Process E
  after s = record p { heap = s; locked = false }

  module _ (k size granules : ℕ) (size_eq : from_bytes_usize size ≡ some granules)
      (is_calloc : Bool) where
    abbrev align_granules_of : Size
    align_granules_of = 2 ^ (k - 5)

    abbrev request : Machine.M E (Option Pointer)
    request = alloc_impl env align_granules_of granules is_calloc

    unfoldable pub served :
        (new : Allocated env total p.heap t align_granules_of granules is_calloc (request p.heap))
        → Served env total p (after new.s') t (2 ^ k) size (at p.heap.base_address (new.h + 1))
    served new = record {
      h = new.h;
      granules = granules;
      chunks = _;
      lists = new.l';
      place = refl;
      not_null = λ e. absurd (omega (arith, e, holds.spans.based));
      aligned =
          align-bytes k (at p.heap.base_address (new.h + 1)) (omega (arith, new.small))
            (omega (arith, granular)) new.aligned;
      enough = room size granules size_eq;
      map = new.map;
      apart = new.apart;
      idle = record { unlocked = refl; holds = new.holds; granular = rw new.base granular };
      errno = refl;
    }

    pub unserved :
        (none_left : Declined env total p.heap t l align_granules_of granules (request p.heap))
        → Unserved env total p (after none_left.s') t l null
    unserved none_left = record {
      is_null = refl;
      idle = record {
        unlocked = refl;
        holds = none_left.holds;
        granular = rw none_left.base granular;
      };
      memory = none_left.memory;
    }

  -- A call under the lock, which is free again behind it.
  pub with_lock-ok :
      {A : Type 0} (m : Machine.M E A) (a : A) (s : State E)
      → m p.heap ≡ Machine.ok a s
      → with_lock m p ≡ returned a (after s)
  unfolding with_lock
  with_lock-ok m a s e = rw (with_lock, e, unlocked) refl

  pub keep_errno_apart :
      (p' : Process E) (q : Pointer) (code : ℕ)
      → Unserved env total p p' t l q
      → Unserved env total p (record p' { errno = code }) t l q
  keep_errno_apart p' q code u = record {
    is_null = u.is_null;
    idle = record { unlocked = u.idle.unlocked; holds = u.idle.holds; granular = u.idle.granular };
    memory = u.memory;
  }
