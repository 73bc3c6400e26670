-- ===== src/Fuzz/Step.antt =====
-- What the operations of fuzz/fuzz_targets/allocator_buffer.rs on one allocation leave alone.
use picoalloc.Base.{
  ℕ, ◌+◌, ◌%◌, ◌≤◌, ◌<◌, ◌≡◌, ◌≢◌, Bool, true, false, ◌==◌, if◌then◌else◌, arith, refl, sym, ap,
  ◌∙◌, subst, Option, some, ℕ_discrete,
}
use picoalloc.Base.Vec
use picoalloc.Base.Vec.{Vec}
use picoalloc.Size.{Size}
use picoalloc.Chunk.{Pointer}
use picoalloc.Env.{Limited, KeepsTotal}
use picoalloc.Machine.{State}
use picoalloc.FreeList.{Lists}
use picoalloc.FreeList.Represents.{at}
use picoalloc.Tiles.{Tiles, IsTiled, allocation, either}
use picoalloc.Tiles.Holds.{Holds}
use picoalloc.Tiles.Loose.{Kept}
use picoalloc.Tiles.Promises.{Untouched}
use picoalloc.Tiles.Allocations.{allocation-some}
use picoalloc.Fuzz.{test_env, Allocation, Fuzz, default_memory, default_env, total, limit}
use picoalloc.Fuzz.Tracked.{Tracked, Sound, Tracked-kept, header-apart}

module _ (rand : ℕ → ℕ → ℕ) (buffer : Pointer) (f : Fuzz) (t : Tiles) (l : Lists)
    (sound : Sound buffer f t l) where
  open sound use {holds, base, limited, untouched, tracked, distinct}

  -- The next state, and what it is sound for.
  abbrev pub Passes : Option Fuzz → Type 0
  Passes r = (g : Fuzz) × (t' : Tiles) × (l' : Lists) × (r ≡ some g) × Sound buffer g t' l'

  -- What stays is beyond what is handed out.
  pub Kept-Untouched :
      (u : Tiles) (s' : State (Unit {0}))
      → Kept u f.allocator s'
      → ((x : ℕ) → u.starts x ≡ true → x < f.allocator.allocated_space)
      → Untouched (default_memory buffer) s'
  Kept-Untouched u s' kept touched p above =
      kept.contents p
        (λ x on e. absurd (ground (arith, e, above, kept.base, kept.space, touched x on)))
      ∙ untouched p (rw (sym kept.base, sym kept.space) above)

  pub env-Limited : Limited (default_env buffer) limit
  unfolding test_env
  env-Limited e base until granted = ground (arith, granted)

  pub env-KeepsTotal : KeepsTotal (default_env buffer)
  unfolding test_env
  env-KeepsTotal = record { on_allocate = λ e e' p h. refl; on_expand = λ e base size. refl }

  -- A request that only asks for memory.
  pub asked-Sound :
      (s' : State (Unit {0}))
      → Holds (default_env buffer) total s' t l
      → s'.base_address ≡ f.allocator.base_address
      → s'.memory ≡ f.allocator.memory
      → f.allocator.allocated_space ≤ s'.allocated_space
      → ((top : Size)
          → Limited (default_env buffer) top
          → f.allocator.allocated_space ≤ top
          → s'.allocated_space ≤ top)
      → Sound buffer (record f { allocator = s' }) t l
  asked-Sound s' holds' base' memory space limits = record {
    holds = holds';
    base = base' ∙ base;
    limited = limits limit env-Limited limited;
    untouched = λ p above. ap (λ m. m p) memory ∙ untouched p (ground (arith, above, base', space));
    tracked = λ i lt.
        Tracked-kept buffer (f.allocations.get i) (tracked i lt) refl (tracked i lt).alive_address
          (λ j below. ap (λ m. m (at buffer ((tracked i lt).offset + 1 + j))) memory);
    distinct = distinct;
  }

  module _ (index : ℕ) (some_entry : (f.allocations.length == 0) ≡ false) where
    abbrev pub i : ℕ
    i = index % f.allocations.length

    abbrev pub a : Allocation
    a = f.allocations.get i

    pub in_range : i < f.allocations.length
    in_range = ground (arith, some_entry)

    pub entry_i : Tracked buffer f.allocator t f.alive_addresses a
    entry_i = tracked i in_range

    abbrev pub o : ℕ
    o = entry_i.offset

    pub header : (t.starts o ≡ true) × (t.used o ≡ true) × (t.size o ≡ a.contents.length + 1)
    header = allocation-some t o (a.contents.length + 1) entry_i.entry

    pub pointer-eq : at f.allocator.base_address (o + 1) ≡ a.pointer
    pointer-eq = ap (λ b. at b (o + 1)) base ∙ sym entry_i.pointer

    -- Other entries are other allocations.
    other : (j : ℕ) → (lt : j < f.allocations.length) → j ≢ i → (tracked j lt).offset ≢ o
    other j lt ne e = absurd (
        ne (
          distinct j i lt in_range
            ((tracked j lt).pointer ∙ ap (λ x. at buffer (x + 1)) e ∙ sym entry_i.pointer)))

    -- What happens to one allocation leaves the other entries tracked.
    pub others-Tracked :
        (s' : State (Unit {0})) (t' : Tiles) (alive' : Pointer → Bool)
        → ((x : ℕ) → x ≢ o → allocation t' x ≡ allocation t x)
        → ((p : Pointer) → p ≢ a.pointer → alive' p ≡ f.alive_addresses p)
        → ((x n j : ℕ)
            → allocation t x ≡ some (n + 1)
            → x ≢ o
            → j < n
            → s'.memory (at buffer (x + 1 + j)) ≡ f.allocator.memory (at buffer (x + 1 + j)))
        → (k : ℕ) → k < f.allocations.length
        → k ≢ i
        → Tracked buffer s' t' alive' (f.allocations.get k)
    others-Tracked s' t' alive' map alive same k lt ne =
        let entry_k = tracked k lt in
        Tracked-kept buffer (f.allocations.get k) entry_k (map entry_k.offset (other k lt ne))
          (alive (f.allocations.get k).pointer (λ e. absurd (ne (distinct k i lt in_range e)))
            ∙ entry_k.alive_address)
          (λ j below.
            same entry_k.offset (f.allocations.get k).contents.length j entry_k.entry
              (other k lt ne) below)

    -- Contents that a step keeps, but for headers before and after.
    pub same_data :
        (s' : State (Unit {0})) (t' : Tiles)
        → IsTiled total t'
        → ((p : Pointer)
            → ((x : ℕ) → (either t t').starts x ≡ true → at f.allocator.base_address x ≡ p → ⊥)
            → s'.memory p ≡ f.allocator.memory p)
        → (x n m j : ℕ) → allocation t x ≡ some (n + 1)
        → allocation t' x ≡ some (m + 1)
        → j < n
        → j < m
        → s'.memory (at buffer (x + 1 + j)) ≡ f.allocator.memory (at buffer (x + 1 + j))
    same_data s' t' tiled' contents x n m j e e' lt lt' =
        contents (at buffer (x + 1 + j)) (λ y on eq.
          either_header (t.starts y) (t'.starts y) refl refl on (ap (λ b. at b y) (sym base) ∙ eq))
      where
        either_header :
            {y : ℕ} (b c : Bool)
            → t.starts y ≡ b
            → t'.starts y ≡ c
            → (either t t').starts y ≡ true
            → at buffer y ≡ at buffer (x + 1 + j)
            → ⊥
        either_header {y} true c on_t on_t' on eq =
            header-apart buffer holds.tiled x n e j lt y on_t eq
        either_header {y} false true on_t on_t' on eq =
            header-apart buffer tiled' x m e' j lt' y on_t' eq
        either_header {y} false false on_t on_t' on eq = absurd (ground (arith, on, on_t, on_t'))

    -- So an entry that stays in the map of allocations has its data.
    pub kept_data :
        (s' : State (Unit {0})) (t' : Tiles)
        → IsTiled total t'
        → ((x : ℕ) → x ≢ o → allocation t' x ≡ allocation t x)
        → ((p : Pointer)
            → ((x : ℕ) → (either t t').starts x ≡ true → at f.allocator.base_address x ≡ p → ⊥)
            → s'.memory p ≡ f.allocator.memory p)
        → (x n j : ℕ) → allocation t x ≡ some (n + 1)
        → x ≢ o
        → j < n
        → s'.memory (at buffer (x + 1 + j)) ≡ f.allocator.memory (at buffer (x + 1 + j))
    kept_data s' t' tiled' map contents x n j e ne lt =
        same_data s' t' tiled' contents x n n j e (map x ne ∙ e) lt lt

    -- An entry that is replaced, with the same pointer.
    pub replaced-Tracked :
        (s' : State (Unit {0})) (t' : Tiles) (b : Allocation)
        → Tracked buffer s' t' f.alive_addresses b
        → ((k : ℕ)
            → k < f.allocations.length
            → k ≢ i
            → Tracked buffer s' t' f.alive_addresses (f.allocations.get k))
        → (j : ℕ) → j < f.allocations.length
        → Tracked buffer s' t' f.alive_addresses ((Vec.set f.allocations i b).get j)
    replaced-Tracked s' t' b here others j lt = by_test (i == j) refl
      where
        by_test :
            (c : Bool)
            → (i == j) ≡ c
            → Tracked buffer s' t' f.alive_addresses (if c then b else f.allocations.get j)
        by_test true e = here
        by_test false e = others j lt (λ eq. absurd (ground (arith, e, eq)))

    pub replaced-distinct :
        (b : Allocation)
        → b.pointer ≡ a.pointer
        → (j k : ℕ) → j < f.allocations.length
        → k < f.allocations.length
        → ((Vec.set f.allocations i b).get j).pointer ≡ ((Vec.set f.allocations i b).get k).pointer
        → j ≡ k
    replaced-distinct b same j k lt_j lt_k e = distinct j k lt_j lt_k (sym (old j) ∙ e ∙ old k)
      where
        old : (x : ℕ) → ((Vec.set f.allocations i b).get x).pointer ≡ (f.allocations.get x).pointer
        old x = elim (ℕ_discrete i x) [
          | yes eq ↦
              subst
                (λ y. ((Vec.set f.allocations i b).get y).pointer ≡ (f.allocations.get y).pointer)
                eq (let self : (i == i) ≡ true = ground arith in rw self same)
          | no ne ↦ let differs : (i == x) ≡ false = ground (arith, ne) in rw differs refl
        ]
