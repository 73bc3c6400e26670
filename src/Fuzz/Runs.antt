-- ===== src/Fuzz/Runs.antt =====
-- Every run of fuzz/fuzz_targets/allocator_buffer.rs passes every assertion.
use picoalloc.Base.{
  ℕ, ◌+◌, ◌-◌, ◌*◌, ◌/◌, ◌%◌, ◌^◌, ◌≤◌, ◌<◌, ◌≡◌, ◌⊎◌, inl, inr, Bool, true, false, ◌==◌, ltb,
  arith, refl, sym, ap, ◌∙◌, subst, Option, some,
}
use picoalloc.Size.Align.{is_power_of_two-pow}
use picoalloc.Size.{from_bytes_usize}
use picoalloc.Size.Convert.{from_bytes_usize-small}
use picoalloc.Chunk.{Pointer, Granule}
use picoalloc.Env.{Env}
use picoalloc.Machine.{State, ok}
use picoalloc.FreeList.{Lists}
use picoalloc.FreeList.Represents.{at}
use picoalloc.Tiles.{Tiles}
use picoalloc.Fuzz.{
  test_env, Fuzz, default_memory, default_env, total, limit, on_free, on_shrink, on_grow,
}
use picoalloc.Fuzz.Tracked.{Sound, slice_eq-same}
use picoalloc.Fuzz.Step.{Passes}
use picoalloc.Base.{max}
use picoalloc.Allocator.Alloc.{alloc_zeroed, alloc_impl}
use picoalloc.Fuzz.{pattern_granule, slice, on_alloc}
use picoalloc.Bits.Fields.{two-pow_mono, two-pow-pos}
use picoalloc.Fuzz.Powers.{next_power_of_two-eq}
use picoalloc.Size.Powers.{align_granules}
use picoalloc.Base.{List, [], ◌∷◌, is_power_of_two, not, ◌||◌}
use picoalloc.Chunk.{is_null}
use picoalloc.Allocator.{new, initialize}
use picoalloc.FreeList.{insert, empty}
use picoalloc.Tiles.{whole}
use picoalloc.Tiles.Initialize.{Grants, initialize-Holds}
use picoalloc.Fuzz.{buffer_size, Op, alloc, release, shrink, grow, step, run, start, dropped}
use picoalloc.Fuzz.Release.{frees}
use picoalloc.Fuzz.Shorten.{shrinks}
use picoalloc.Fuzz.Lengthen.{grows}
use picoalloc.Fuzz.Fill.{allocs}

-- The numbers of an operation that are `u16`.
abbrev pub FitsU16 : Op → Type 0
FitsU16 (alloc align size) = (align < 2 ^ 16) × (size < 2 ^ 16)
FitsU16 (release index) = Unit {0}
FitsU16 (shrink index size) = size < 2 ^ 16
FitsU16 (grow index size) = size < 2 ^ 16

abbrev pub AllFit : List Op → Type 0
AllFit [] = Unit {0}
AllFit (op ∷ ops) = FitsU16 op × AllFit ops

module _ (rand : ℕ → ℕ → ℕ) (buffer : Pointer) (based : 0 < buffer) (granular : buffer % 32 ≡ 0)
    (no_wrap : at buffer total < 2 ^ 64) where
  abbrev env : Env (Unit {0})
  env = default_env buffer

  abbrev first : Pointer → Granule
  first = default_memory buffer

  -- Between two operations the allocator is new, with nothing allocated, or sound.
  abbrev Ready : Fuzz → Type 0
  Ready f = (f ≡ start rand buffer) ⊎ ((t : Tiles) × (l : Lists) × Sound buffer f t l)

  abbrev Proceeds : Option Fuzz → Type 0
  Proceeds r = (g : Fuzz) × (r ≡ some g) × Ready g

  proceeds :
      (f : Fuzz) (t : Tiles) (l : Lists) (sound : Sound buffer f t l) (r : Option Fuzz)
      → Passes rand buffer f t l sound r
      → Proceeds r
  proceeds f t l sound r (g, t', l', eq, sound') = (g, eq, inr (t', l', sound'))

  -- Operations without an allocation to work on.
  nothing_freed :
      (f : Fuzz) (index : ℕ)
      → (f.allocations.length == 0) ≡ true
      → on_free rand buffer f index ≡ some f
  unfolding on_free
  nothing_freed f index e = rw e refl

  nothing_shrunk :
      (f : Fuzz) (index size : ℕ)
      → size < 2 ^ 16
      → (f.allocations.length == 0) ≡ true
      → on_shrink rand buffer f index size ≡ some f
  unfolding on_shrink
  nothing_shrunk f index size small e =
      rw (on_shrink, from_bytes_usize-small (size + 1) (omega (arith, small)), e) refl

  nothing_grown :
      (f : Fuzz) (index size : ℕ)
      → size < 2 ^ 16
      → (f.allocations.length == 0) ≡ true
      → on_grow rand buffer f index size ≡ some f
  unfolding on_grow
  nothing_grown f index size small e =
      rw (on_grow, from_bytes_usize-small (size + 1) (omega (arith, small)), e) refl

  -- Operations on a sound state.
  module _ (f : Fuzz) (t : Tiles) (l : Lists) (sound : Sound buffer f t l) where
    abbrev Goes : Op → Bool → Type 0
    Goes op b = (f.allocations.length == 0) ≡ b → FitsU16 op → Proceeds (step rand buffer op f)

    stays : Ready f
    stays = inr (t, l, sound)

    by_length : (op : Op) (b : Bool) → Goes op b
    unfolding step
    by_length (alloc align size) b e (small_align, small) =
        proceeds f t l sound (on_alloc rand buffer f align size)
          (allocs rand buffer granular f t l sound align size small_align small)
    by_length (release index) true e fits = (f, nothing_freed f index e, stays)
    by_length (release index) false e fits =
        proceeds f t l sound (on_free rand buffer f index) (frees rand buffer f t l sound index e)
    by_length (shrink index size) true e fits = (f, nothing_shrunk f index size fits e, stays)
    by_length (shrink index size) false e fits =
        proceeds f t l sound (on_shrink rand buffer f index size)
          (shrinks rand buffer f t l sound index e size fits)
    by_length (grow index size) true e fits = (f, nothing_grown f index size fits e, stays)
    by_length (grow index size) false e fits =
        proceeds f t l sound (on_grow rand buffer f index size)
          (grows rand buffer f t l sound index e size fits)

    from_sound : (op : Op) → FitsU16 op → Proceeds (step rand buffer op f)
    from_sound op = by_length op (f.allocations.length == 0) refl

  -- The first allocation initialises the allocator.
  grants : Grants env tt buffer total tt
  unfolding test_env
  grants = record {
    e' = tt;
    allocates = refl;
    expands = refl;
    total_eq = refl;
    aligned = granular;
    based = based;
    nonempty = omega arith;
    short = omega arith;
    no_wrap = no_wrap;
  }

  abbrev initial : State (Unit {0})
  initial = (initialize-Holds env tt first buffer total tt grants).0

  abbrev f0 : Fuzz
  f0 = record (start rand buffer) { allocator = initial }

  f0-Sound : Sound buffer f0 (whole total) (insert empty 0 total)
  f0-Sound =
      let (s, eq, base, holds, space, memory) =
        initialize-Holds env tt first buffer total tt grants in
      record {
        holds = holds;
        base = base;
        limited = omega (arith, space);
        untouched = λ p above. memory p (λ e. absurd (omega (arith, above, e, base, space)));
        tracked = λ i lt. absurd (omega (arith, lt));
        distinct = λ i j lt_i lt_j e. absurd (omega (arith, lt_i));
      }

  initial_again : initialize env initial ≡ ok true initial
  unfolding initialize is_null
  initial_again =
      let c1 : (initial.base_address == 0) ≡ false = ground (arith, f0-Sound.base, based) in
      rw c1 refl

  same_result :
      (m r : ℕ)
      → m ≤ 16
      → alloc_impl env (2 ^ (m - 5)) r true (new tt first)
        ≡ alloc_impl env (2 ^ (m - 5)) r true initial
  unfolding alloc_impl
  same_result m r small =
      let power : is_power_of_two 32 (2 ^ (m - 5)) ≡ true =
        is_power_of_two-pow 32 (m - 5) (omega (arith, small)) in
      let valid : (2 ^ (m - 5) == 0 || not (is_power_of_two 32 (2 ^ (m - 5)))) ≡ false =
        ground (arith, power, two-pow-pos (m - 5)) in
      rw
        (alloc_impl, valid, (initialize-Holds env tt first buffer total tt grants).1, initial_again)
        refl

  same_start :
      (align size : ℕ)
      → align < 2 ^ 16
      → size < 2 ^ 16
      → on_alloc rand buffer (start rand buffer) align size ≡ on_alloc rand buffer f0 align size
  unfolding on_alloc alloc_zeroed
  same_start align size small_align small_size =
      let (m, small, power) = next_power_of_two-eq align small_align in
      let align_size : from_bytes_usize (2 ^ m) ≡ some (2 ^ (m - 5)) =
        from_bytes_usize-small (2 ^ m) (omega (arith, two-pow_mono m 16 small))
        ∙ ap (λ x. some x) (align_granules m) in
      let granules : from_bytes_usize (max 1 size) ≡ some ((max 1 size + 31) / 32) =
        from_bytes_usize-small (max 1 size) (omega (arith, small_size)) in
      rw (on_alloc, power, align_size, granules, same_result m ((max 1 size + 31) / 32) small) refl

  from_start : (op : Op) → FitsU16 op → Proceeds (step rand buffer op (start rand buffer))
  unfolding step
  from_start (alloc align size) (small_align, small) =
      subst Proceeds (sym (same_start align size small_align small)) (
        proceeds f0 (whole total) (insert empty 0 total) f0-Sound
          (on_alloc rand buffer f0 align size)
          (allocs rand buffer granular f0 (whole total) (insert empty 0 total) f0-Sound align size
            small_align small))
  from_start (release index) fits =
      (start rand buffer, nothing_freed (start rand buffer) index refl, inl refl)
  from_start (shrink index size) fits =
      (start rand buffer, nothing_shrunk (start rand buffer) index size fits refl, inl refl)
  from_start (grow index size) fits =
      (start rand buffer, nothing_grown (start rand buffer) index size fits refl, inl refl)

  step-Proceeds : (f : Fuzz) → Ready f → (op : Op) → FitsU16 op → Proceeds (step rand buffer op f)
  step-Proceeds f ready op fits = elim ready [
    | inl e ↦ subst (λ g. Proceeds (step rand buffer op g)) (sym e) (from_start op fits)
    | inr (t, l, sound) ↦ from_sound f t l sound op fits
  ]

  runs : (ops : List Op) → AllFit ops → (f : Fuzz) → Ready f → Proceeds (run rand buffer ops f)
  unfolding run
  runs [] fits f ready = (f, refl, ready)
  runs (op ∷ ops) (fits, rest) f ready =
      let (g, eq, ready') = step-Proceeds f ready op fits in rw (run, eq) (runs ops rest g ready')

  -- What stands behind the limit.
  behind_limit :
      (f : Fuzz) → Ready f → (i : ℕ) → slice f.allocator (buffer + limit * 32) i ≡ pattern_granule
  unfolding new
  behind_limit f ready i = elim ready [
    | inl e ↦
        subst (λ g. slice g.allocator (buffer + limit * 32) i ≡ pattern_granule) (sym e) pattern
    | inr (t, l, sound) ↦
        sound.untouched (buffer + limit * 32 + i * 32) (omega (arith, sound.base, sound.limited))
        ∙ pattern
  ]
    where
      pattern : first (buffer + limit * 32 + i * 32) ≡ pattern_granule
      pattern =
          let test : ltb (buffer + limit * 32 + i * 32) (buffer + limit * 32) ≡ false =
            ground arith in
          rw test refl

  drops : (f : Fuzz) → Ready f → dropped rand buffer f ≡ true
  unfolding dropped
  drops f ready =
      slice_eq-same (buffer_size - limit) (slice f.allocator (buffer + limit * 32))
        (λ _. pattern_granule) (λ i lt. behind_limit f ready i)

-- On a buffer at an aligned address, with any generator of numbers, every sequence of operations
-- whose sizes and alignments are `u16` runs to its end: no assertion of the target or of the
-- allocator fails, and the assertion of `drop` holds, so nothing is written behind the limit.
pub run-passes :
    (rand : ℕ → ℕ → ℕ) (buffer : Pointer) (ops : List Op)
    → 0 < buffer
    → buffer % 32 ≡ 0
    → at buffer total < 2 ^ 64
    → AllFit ops
    → (f : Fuzz) × (run rand buffer ops (start rand buffer) ≡ some f)
      × (dropped rand buffer f ≡ true)
run-passes rand buffer ops based granular no_wrap fits =
    let (f, eq, ready) =
      runs rand buffer based granular no_wrap ops fits (start rand buffer) (inl refl) in
    (f, eq, drops rand buffer based granular no_wrap f ready)
