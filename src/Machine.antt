-- ===== src/Machine.antt =====
-- The state that the methods of `Allocator` in src/allocator.rs work on, and the monad of their
-- steps. The build is the one with the `paranoid` feature: each assertion is a step that can fault.
use picoalloc.Base.{ℕ, Bool, Option, none, some, leb, ltb, ◌&&◌, ◌+◌, ◌-◌, update, if◌then◌else◌}
use picoalloc.Size.{Size}
use picoalloc.Chunk.{Pointer, Granule, zero_granule, is_null}
use picoalloc.BitMask.{BitMask}
use picoalloc.Env.{Env}

-- `struct Allocator<E>`, and the memory behind its pointers: the granule at each address. Memory
-- that the environment has not handed out yet stands there with the content that it will have.
pub record State (E : Type 0) : Type 0 where
  pub allocated_space : Size
  pub base_address : Pointer
  pub free_lists_with_unallocated_memory : BitMask
  pub first_in_free_list : ℕ → Pointer
  pub env : E
  pub memory : Pointer → Granule

-- `fault`: a failed assertion, an index out of range, or an access through a null pointer.
-- `aborted`: the environment has called `abort`.
pub data Outcome (E A : Type 0) : Type 0 where
  ok : A → State E → Outcome E A
  fault : Outcome E A
  aborted : Outcome E A

module _ {E : Type 0} where
  abbrev pub and_then : {A B : Type 0} → Outcome E A → (A → State E → Outcome E B) → Outcome E B
  and_then (ok a s) k = k a s
  and_then fault k = fault
  and_then aborted k = aborted

abbrev pub M : Type 0 → Type 0 → Type 0
M E A = State E → Outcome E A

module _ {E : Type 0} where
  infixl 5 ◌>>=◌ ◌>>◌
  abbrev pub ◌>>=◌ : {A B : Type 0} → M E A → (A → M E B) → M E B
  ◌>>=◌ m k s = and_then (m s) k

  abbrev pub ◌>>◌ : {A B : Type 0} → M E A → M E B → M E B
  ◌>>◌ m k s = and_then (m s) (λ _. k)

  abbrev pub pure : {A : Type 0} → A → M E A
  pure a s = ok a s

  abbrev pub reads : {A : Type 0} → (State E → A) → M E A
  reads f s = ok (f s) s

  abbrev pub modify : (State E → State E) → M E (Unit {0})
  modify f s = ok tt (f s)

  -- A checked access of an array: the index is in range, or the step faults.
  abbrev pub of_option : {A : Type 0} → Option A → M E A
  of_option none s = fault
  of_option (some a) s = ok a s

  -- `paranoid_assert!` and `paranoid_assert_eq!`
  unfoldable pub paranoid_assert : Bool → M E (Unit {0})
  paranoid_assert b s = if b then ok tt s else fault

  -- `get_unchecked` of a pointer, and a write of the whole granule through `get_mut_unchecked`.
  unfoldable pub load : Pointer → M E Granule
  unfolding is_null
  load p s = if is_null p then fault else ok (s.memory p) s

  unfoldable pub store : Pointer → Granule → M E (Unit {0})
  unfolding is_null
  store p g s = if is_null p then fault else ok tt (record s { memory = update s.memory p g })

  -- `p.get_mut_unchecked().field = value`
  unfoldable pub set_prev_chunk_size : Pointer → Size → M E (Unit {0})
  unfolding load store
  set_prev_chunk_size p size = do g ← load p; store p (record g { prev_chunk_size = size })

  unfoldable pub set_size : Pointer → ℕ → M E (Unit {0})
  unfolding load store
  set_size p raw = do g ← load p; store p (record g { size = raw })

  unfoldable pub set_next_in_list : Pointer → Pointer → M E (Unit {0})
  unfolding load store
  set_next_in_list p q = do g ← load p; store p (record g { next_in_list = q })

  unfoldable pub set_prev_in_list : Pointer → Pointer → M E (Unit {0})
  unfolding load store
  set_prev_in_list p q = do g ← load p; store p (record g { prev_in_list = q })

  -- `write_no_drop` of a `ChunkHeader`, which leaves the rest of the granule alone.
  unfoldable pub write_header : Pointer → Size → ℕ → M E (Unit {0})
  unfolding load store
  write_header p prev_size raw = do
    g ← load p
    store p (record g { prev_chunk_size = prev_size; size = raw })

  -- `write_no_drop` of a `FreeChunkHeader`.
  unfoldable pub write_free_header : Pointer → Size → ℕ → Pointer → Pointer → M E (Unit {0})
  unfolding load store
  write_free_header p prev_size raw next prev = do
    g ← load p
    store p (record g {
      prev_chunk_size = prev_size;
      size = raw;
      next_in_list = next;
      prev_in_list = prev;
    })

  -- `write_bytes(0, len)` and `copy_nonoverlapping`, on whole granules.
  unfoldable pub write_zeros : Pointer → ℕ → M E (Unit {0})
  write_zeros p len = modify λ s. record s {
    memory = λ q. if leb p q && ltb q (p + len) then zero_granule else s.memory q;
  }

  unfoldable pub copy_nonoverlapping : Pointer → Pointer → ℕ → M E (Unit {0})
  copy_nonoverlapping src dst len = modify λ s. record s {
    memory = λ q. if leb dst q && ltb q (dst + len) then s.memory (src + (q - dst)) else s.memory q;
  }

-- The calls of the environment.
module _ {E : Type 0} (env : Env E) where
  unfoldable pub total_space : M E Size
  total_space s = ok (env.total_space s.env) s

  unfoldable pub allocate_address_space : M E Pointer
  allocate_address_space s = elim (env.allocate_address_space s.env) [
    | none ↦ aborted
    | some (p, e) ↦ ok p (record s { env = e })
  ]

  unfoldable pub expand_memory_until : Pointer → Size → M E Bool
  expand_memory_until base size s =
      let (done, e) = env.expand_memory_until s.env base size in ok done (record s { env = e })

  unfoldable pub free_address_space : Pointer → M E (Unit {0})
  free_address_space base s = elim (env.free_address_space s.env base) [
    | none ↦ aborted
    | some e ↦ ok tt (record s { env = e })
  ]
