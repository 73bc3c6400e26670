-- ===== src/Fuzz/Tracked.antt =====
-- What the target of fuzz/fuzz_targets/allocator_buffer.rs keeps track of, against the chunks of the
-- allocator.
use picoalloc.Base.{
  ℕ, zero, suc, ◌+◌, ◌*◌, ◌≤◌, ◌<◌, ◌≡◌, ◌≢◌, ◌⊎◌, inl, inr, Bool, true, arith, refl, ap, ◌∙◌,
  subst, some, dec_lt,
}
use picoalloc.Chunk.{Pointer, Granule}
use picoalloc.Machine.{State}
use picoalloc.FreeList.{Lists}
use picoalloc.FreeList.Represents.{at}
use picoalloc.Tiles.{Tiles, IsTiled, allocation}
use picoalloc.Tiles.Holds.{Holds}
use picoalloc.Tiles.Promises.{Untouched}
use picoalloc.Tiles.Allocations.{allocation-some, data-apart}
use picoalloc.Fuzz.{
  Allocation, Fuzz, granule_eq, slice_eq, slice, default_memory, default_env, intact, total, limit,
}

-- Equal slices pass the comparison.
granule_eq_self : (g : Granule) → granule_eq g g ≡ true
granule_eq_self g = ground arith

pub slice_eq-same :
    (n : ℕ) (a b : ℕ → Granule) → ((i : ℕ) → i < n → a i ≡ b i) → slice_eq n a b ≡ true
unfolding slice_eq
slice_eq-same zero a b same = refl
slice_eq-same (suc n) a b same =
    let here : granule_eq (a n) (b n) ≡ true =
      subst (λ g. granule_eq (a n) g ≡ true) (same n (omega arith)) (granule_eq_self (a n)) in
    rw (here, slice_eq-same n a b (λ i lt. same i (omega arith))) refl

-- Two allocations do not overlap.
pub allocations-apart :
    {total : ℕ} {t : Tiles}
    → IsTiled total t
    → (o q y z : ℕ) → allocation t o ≡ some y
    → allocation t q ≡ some z
    → o ≢ q
    → (o + y ≤ q) ⊎ (q + z ≤ o)
allocations-apart {total} {t} tiled o q y z eo eq ne =
    let (on_o, used_o, size_o) = allocation-some t o y eo in
    let (on_q, used_q, size_q) = allocation-some t q z eq in
    elim (dec_lt o q) [
      | yes before ↦ inl (omega (arith, size_o, tiled.gap o q on_o on_q before))
      | no behind ↦
          inr (omega (arith, size_q, ne, tiled.gap q o on_q on_o (omega (arith, behind, ne))))
    ]

module _ (buffer : Pointer) where
  -- An entry of `allocations` is an allocation of the chunks, with its data behind the header.
  pub record Tracked (s : State (Unit {0})) (t : Tiles) (alive : Pointer → Bool) (a : Allocation)
      : Type 0 where
    pub offset : ℕ
    pub pointer : a.pointer ≡ at buffer (offset + 1)
    pub entry : allocation t offset ≡ some (a.contents.length + 1)
    pub alive_address : alive a.pointer ≡ true
    pub stored :
        (i : ℕ) → i < a.contents.length → s.memory (at buffer (offset + 1 + i)) ≡ a.contents.get i

  -- The state of the target between two operations, once the allocator is initialised.
  pub record Sound (f : Fuzz) (t : Tiles) (l : Lists) : Type 0 where
    pub holds : Holds (default_env buffer) total f.allocator t l
    pub base : f.allocator.base_address ≡ buffer
    pub limited : f.allocator.allocated_space ≤ limit
    pub untouched : Untouched (default_memory buffer) f.allocator
    pub tracked :
        (i : ℕ)
        → i < f.allocations.length
        → Tracked f.allocator t f.alive_addresses (f.allocations.get i)
    pub distinct :
        (i j : ℕ)
        → i < f.allocations.length
        → j < f.allocations.length
        → (f.allocations.get i).pointer ≡ (f.allocations.get j).pointer
        → i ≡ j

  -- What is tracked is intact.
  pub Tracked-intact :
      {s : State (Unit {0})} {t : Tiles} {alive : Pointer → Bool} (a : Allocation)
      → Tracked s t alive a
      → intact s a ≡ true
  Tracked-intact {s} a tracked =
      slice_eq-same a.contents.length (slice s a.pointer) a.contents.get (λ i lt.
        ap s.memory (ap (λ p. p + i * 32) tracked.pointer ∙ omega arith) ∙ tracked.stored i lt)

  -- A step that keeps the entry and its data keeps track of it.
  pub Tracked-kept :
      {s s' : State (Unit {0})} {t t' : Tiles} {alive alive' : Pointer → Bool} (a : Allocation)
      (tracked : Tracked s t alive a)
      → allocation t' tracked.offset ≡ allocation t tracked.offset
      → alive' a.pointer ≡ true
      → ((i : ℕ)
          → i < a.contents.length
          → s'.memory (at buffer (tracked.offset + 1 + i))
            ≡ s.memory (at buffer (tracked.offset + 1 + i)))
      → Tracked s' t' alive' a
  Tracked-kept a tracked entry alive same = record {
    offset = tracked.offset;
    pointer = tracked.pointer;
    entry = entry ∙ tracked.entry;
    alive_address = alive;
    stored = λ i lt. same i lt ∙ tracked.stored i lt;
  }

  -- The data of an allocation holds no header.
  pub header-apart :
      {t : Tiles}
      → IsTiled total t
      → (o n : ℕ) → allocation t o ≡ some (n + 1)
      → (i : ℕ) → i < n
      → (x : ℕ) → t.starts x ≡ true
      → at buffer x ≡ at buffer (o + 1 + i)
      → ⊥
  header-apart tiled o n e i lt x on eq =
      absurd
        (omega (arith, eq, data-apart tiled o (n + 1) e i (omega arith) x on (omega (arith, eq))))
