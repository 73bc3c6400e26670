-- ===== src/Fuzz/Release.antt =====
-- `Op::Free` of fuzz/fuzz_targets/allocator_buffer.rs passes every assertion.
use picoalloc.Base.{
  ℕ, ◌+◌, ◌-◌, ◌%◌, ◌<◌, ◌≡◌, ◌≢◌, Bool, true, false, ◌==◌, update, if◌then◌else◌, arith, refl, sym,
  ap, ◌∙◌, subst,
}
use picoalloc.Base.Vec
use picoalloc.Base.Vec.{Vec}
use picoalloc.Chunk.{Pointer}
use picoalloc.Machine.{ok}
use picoalloc.Allocator.Free.{free}
use picoalloc.FreeList.{Lists}
use picoalloc.FreeList.Represents.{at}
use picoalloc.Tiles.{Tiles, allocation, freed}
use picoalloc.Tiles.Free.{free-Holds}
use picoalloc.Tiles.Allocations.{allocation-freed}
use picoalloc.Fuzz.{Allocation, Fuzz, default_env, total, on_free, assert, call}
use picoalloc.Fuzz.Tracked.{Tracked, Sound, Tracked-intact, header-apart}
use picoalloc.Fuzz.Step.{
  Passes, Kept-Untouched, others-Tracked, in_range, entry_i, header, pointer-eq,
}

module _ (rand : ℕ → ℕ → ℕ) (buffer : Pointer) (f : Fuzz) (t : Tiles) (l : Lists)
    (sound : Sound buffer f t l) (index : ℕ)
    (some_entry : (f.allocations.length == 0) ≡ false) where
  open sound use {holds, base, limited, untouched, tracked, distinct}

  abbrev i : ℕ
  i = index % f.allocations.length

  abbrev a : Allocation
  a = f.allocations.get i

  abbrev o : ℕ
  o = (entry_i rand buffer f t l sound index some_entry).offset

  -- `swap_remove` keeps the entries but one.
  abbrev last : ℕ
  last = f.allocations.length - 1

  abbrev origin : ℕ → ℕ
  origin j = if i == j then last else j

  origin-in : (j : ℕ) → j < last → (origin j < f.allocations.length) × (origin j ≢ i)
  origin-in j lt = ground (arith, lt, (in_range rand buffer f t l sound index some_entry))

  swapped : (j : ℕ) → (Vec.swap_remove f.allocations i).get j ≡ f.allocations.get (origin j)
  swapped j = by_test (i == j) refl
    where
      by_test :
          (b : Bool)
          → (i == j) ≡ b
          → (Vec.swap_remove f.allocations i).get j ≡ f.allocations.get (origin j)
      by_test true e = rw e refl
      by_test false e = rw e refl

  pub frees : Passes rand buffer f t l sound (on_free rand buffer f index)
  unfolding on_free assert call
  frees =
      let (on, used, size) = (header rand buffer f t l sound index some_entry) in
      let map : (x : ℕ) → x ≢ o → allocation (freed total t o) x ≡ allocation t x =
        λ x ne. ground (arith, allocation-freed total t o holds.tiled on used x, ne) in
      let (s', l', eq, holds', kept) =
        free-Holds (default_env buffer) total f.allocator t l o holds on used in
      rw
        (
          some_entry,
          (entry_i rand buffer f t l sound index some_entry).alive_address,
          Tracked-intact buffer a (entry_i rand buffer f t l sound index some_entry),
          subst (λ p. free (default_env buffer) p f.allocator ≡ ok tt s')
              (pointer-eq rand buffer f t l sound index some_entry) eq,
        )
        (
          _,
          freed total t o,
          l',
          refl,
          record {
            holds = holds';
            base = kept.base ∙ base;
            limited = rw kept.space limited;
            untouched = Kept-Untouched rand buffer f t l sound t s' kept holds.headers.touched;
            tracked = λ j lt.
                subst
                  (Tracked buffer s' (freed total t o) (update f.alive_addresses a.pointer false))
                  (sym (swapped j))
                  (others-Tracked rand buffer f t l sound index some_entry s' (freed total t o)
                    (update f.alive_addresses a.pointer false) map (λ p ne. ground (arith, ne))
                    (λ x n j' e ne below. kept.contents (at buffer (x + 1 + j')) (λ y on_y eq'.
                      header-apart buffer holds.tiled x n e j' below y on_y
                        (ap (λ b. at b y) (sym base) ∙ eq')))
                    (origin j) (origin-in j lt).0 (origin-in j lt).1);
            distinct = λ j k lt_j lt_k e. ground (
              arith,
              lt_j,
              lt_k,
              (in_range rand buffer f t l sound index some_entry),
              distinct (origin j) (origin k) (origin-in j lt_j).0 (origin-in k lt_k).0
                  (ap (λ x. x.pointer) (sym (swapped j)) ∙ e ∙ ap (λ x. x.pointer) (swapped k)),
            );
          },
        )
