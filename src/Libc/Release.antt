-- ===== src/Libc/Release.antt =====
-- What `free` of src/global_allocator_libc.rs does with an allocation.
use picoalloc.Base.{ℕ, ◌+◌, ◌≡◌, ◌==◌, true, false, arith, refl}
use picoalloc.Size.{Size}
use picoalloc.Chunk.{null}
use picoalloc.Env.{Env, KeepsTotal}
use picoalloc.FreeList.{Lists}
use picoalloc.FreeList.Represents.{at}
use picoalloc.Tiles.{Tiles, freed}
use picoalloc.Tiles.Loose.{Kept}
use picoalloc.Tiles.Free.{free-Holds}
use picoalloc.Allocator.Free
use picoalloc.Libc.{Process, returned, free}
use picoalloc.Libc.Served.{Idle, with_lock-ok, after}

module _ {E : Type 0} (env : Env E) (total : Size) (p : Process E) (t : Tiles) (l : Lists)
    (idle : Idle env total p t l) (keeps : KeepsTotal env) where
  open idle use {holds, granular}

  free_null : free env null p ≡ returned tt p
  unfolding free
  free_null = refl

  pub not_null : (o : ℕ) → (at p.heap.base_address (o + 1) == null) ≡ false
  not_null o = ground (arith, holds.spans.based)

  -- On an initialised allocator between two calls, `free` of the null pointer does nothing; `free` of an allocated chunk
  -- always returns, with the chunk merged with its free neighbours into one free chunk, the other
  -- chunks and the data as before, the lock free again and `errno` unchanged.
  pub free-Idle :
      (o : ℕ)
      → t.starts o ≡ true
      → t.used o ≡ true
      → (free env null p ≡ returned tt p)
        × (p' : Process E) × (l' : Lists) × (free env (at p.heap.base_address (o + 1)) p
            ≡ returned tt p')
        × Idle env total p' (freed total t o) l'
        × Kept t p.heap p'.heap
        × (p'.errno ≡ p.errno)
  unfolding free
  free-Idle o on used =
      let (s', l', eq, holds', kept) = free-Holds env total p.heap t l o holds on used in
      (
        free_null,
        after env total p t l idle keeps s',
        l',
        rw
            (
              free,
              not_null o,
              with_lock-ok env total p t l idle keeps
                  (Free.free env (at p.heap.base_address (o + 1))) tt s' eq,
            )
            refl,
        record { unlocked = refl; holds = holds'; granular = rw kept.base granular },
        kept,
        refl,
      )
