-- ===== src/Fuzz/Fill.antt =====
-- `Op::Alloc` of fuzz/fuzz_targets/allocator_buffer.rs passes every assertion.
use picoalloc.Base.{
  ℕ, ◌+◌, ◌-◌, ◌*◌, ◌/◌, ◌%◌, ◌^◌, ◌≤◌, ◌<◌, ◌≡◌, ◌≢◌, ◌⊎◌, inl, inr, Bool, true, false, ◌&&◌, ◌==◌,
  leb, ltb, update, if◌then◌else◌, arith, refl, sym, ap, ◌∙◌, subst, some, dec_lt,
}
use picoalloc.Base.Vec
use picoalloc.Base.Vec.{Vec}
use picoalloc.Size.{from_bytes_usize}
use picoalloc.Size.Convert.{from_bytes_usize-small}
use picoalloc.Chunk.{Pointer, Granule}
use picoalloc.Machine.{State, ok}
use picoalloc.FreeList.{Lists}
use picoalloc.FreeList.Represents.{at}
use picoalloc.Tiles.{Tiles, allocation}
use picoalloc.Tiles.Promises.{Untouched}
use picoalloc.Tiles.Allocations.{allocation-some}
use picoalloc.Fuzz.{
  Allocation, Fuzz, default_memory, default_env, total, limit, fill_slice, write_slice, assert,
  call,
}
use picoalloc.Fuzz.Tracked.{Tracked, Sound, Tracked-kept, header-apart, slice_eq-same}
use picoalloc.Tiles.Expand.{written-Holds}
use picoalloc.Tiles.Allocations.{data-apart}
use picoalloc.Fuzz.Step.{Passes, env-Limited, env-KeepsTotal, asked-Sound}
use picoalloc.Chunk.{zero_granule}
use picoalloc.Base.{max}
use picoalloc.Allocator.Free.{usable_size}
use picoalloc.Allocator.Alloc.{alloc_zeroed, alloc_impl}
use picoalloc.Tiles.{allotted}
use picoalloc.Tiles.Usable.{usable_size_lem}
use picoalloc.Tiles.Outcome.{Allocated, covers}
use picoalloc.Tiles.Allocate.{alloc_impl-Holds}
use picoalloc.Tiles.Promises.{data_zero, Allocated-Untouched}
use picoalloc.Fuzz.{pattern_granule, slice, slice_eq, on_alloc, fill_new}
use picoalloc.Bits.Fields.{two-pow_mono}
use picoalloc.Fuzz.Powers.{next_power_of_two-eq}
use picoalloc.Size.Powers.{align_granules, align-bytes}

module _ (rand : ℕ → ℕ → ℕ) (buffer : Pointer) (granular : buffer % 32 ≡ 0) (f : Fuzz) (t : Tiles)
    (l : Lists) (sound : Sound buffer f t l) where
  open sound use {holds, base, limited, untouched, tracked, distinct}

  module _ (m r size : ℕ) (small : m ≤ 16) (enough : size ≤ r * 32)
      (new : Allocated
        (default_env buffer)
        total
        f.allocator
        t
        (2 ^ (m - 5))
        r
        true
        (alloc_impl (default_env buffer) (2 ^ (m - 5)) r true f.allocator)) where
    abbrev h : ℕ
    h = new.h

    abbrev t' : Tiles
    t' = allotted t new.c h (h + 1 + r)

    abbrev s' : State (Unit {0})
    s' = new.s'

    abbrev pointer : Pointer
    pointer = at f.allocator.base_address (h + 1)

    pointer-eq : pointer ≡ at buffer (h + 1)
    pointer-eq = ap (λ b. at b (h + 1)) base

    base' : s'.base_address ≡ buffer
    base' = new.base ∙ base

    entry' : allocation t' h ≡ some (r + 1)
    entry' = new.map h ∙ ground arith

    header : (t'.starts h ≡ true) × (t'.used h ≡ true) × (t'.size h ≡ r + 1)
    header = allocation-some t' h (r + 1) entry'

    reach : h + (r + 1) ≤ s'.allocated_space
    reach = new.holds.backed h (r + 1) entry'

    in_memory : s'.allocated_space ≤ limit
    in_memory = new.limits limit (env-Limited rand buffer f t l sound) limited

    aligned : (pointer % 2 ^ m == 0) ≡ true
    aligned = ground (
      arith,
      align-bytes m pointer (omega (arith, two-pow_mono (m - 5) 11 (omega (arith, small))))
          (omega (arith, pointer-eq, granular)) new.aligned,
    )

    usable-eq : usable_size pointer s' ≡ ok (r * 32) s'
    usable-eq =
        subst (λ n. usable_size pointer s' ≡ ok (n * 32) s') (omega (arith, header.2))
          (subst (λ b. usable_size (at b (h + 1)) s' ≡ ok ((t'.size h - 1) * 32) s') new.base
            (usable_size_lem (default_env buffer) total s' t' new.l' h new.holds header.0))

    zero_granules : (i : ℕ) → i < r → slice s' pointer i ≡ zero_granule
    zero_granules i lt =
        let place : pointer + i * 32 ≡ at f.allocator.base_address (h + 1 + i) = omega arith in
        let low : ltb (at f.allocator.base_address (h + 1 + i)) (buffer + limit * 32) ≡ true =
          ground (arith, base, reach, in_memory, lt) in
        ap s'.memory place
        ∙ data_zero new (default_memory buffer) untouched refl i lt
            (ap (λ b. if b then zero_granule else pattern_granule) low)

    zeroed : slice_eq r (slice s' pointer) (λ _. zero_granule) ≡ true
    zeroed = slice_eq-same r (slice s' pointer) (λ _. zero_granule) zero_granules

    abbrev fill : ℕ → Granule
    fill = fill_slice rand pointer r

    abbrev s1 : State (Unit {0})
    s1 = write_slice s' pointer r fill

    outside :
        (x : ℕ) → (x < h + 1) ⊎ (h + 1 + r ≤ x) → s1.memory (at buffer x) ≡ s'.memory (at buffer x)
    outside x away =
        let test : (leb pointer (at buffer x) && ltb (at buffer x) (pointer + r * 32)) ≡ false =
          elim away [
            | inl lt ↦ ground (arith, pointer-eq, lt)
            | inr ge ↦ ground (arith, pointer-eq, ge)
          ] in
        rw test refl

    away : (x : ℕ) → t'.starts x ≡ true → (x < h + 1) ⊎ (h + 1 + r ≤ x)
    away x on_x = elim (dec_lt x (h + 1)) [
      | yes lt ↦ inl lt
      | no ge ↦ elim (dec_lt x (h + 1 + r)) [
        | yes within ↦ absurd (
            data-apart new.holds.tiled h (r + 1) entry' (x - (h + 1)) (omega (arith, ge, within)) x
              on_x (omega (arith, ge)))
        | no behind ↦ inr (omega (arith, behind))
      ]
    ]

    headers_stay :
        (x : ℕ)
        → t'.starts x ≡ true
        → s1.memory (at s'.base_address x) ≡ s'.memory (at s'.base_address x)
    headers_stay x on_x =
        subst (λ b. s1.memory (at b x) ≡ s'.memory (at b x)) (sym base') (outside x (away x on_x))

    beyond : Untouched (default_memory buffer) s1
    beyond p above =
        let test : (leb pointer p && ltb p (pointer + r * 32)) ≡ false =
          ground (arith, pointer-eq, above, reach, base') in
        rw test (Allocated-Untouched new (default_memory buffer) untouched p above)

    abbrev entry_new : Allocation
    entry_new = record {
      pointer = pointer;
      contents = record { length = r; get = slice s1 pointer };
    }

    alive' : Pointer → Bool
    alive' = update f.alive_addresses pointer true

    new-Tracked : Tracked buffer s1 t' (update f.alive_addresses pointer true) entry_new
    new-Tracked = record {
      offset = h;
      pointer = pointer-eq;
      entry = entry';
      alive_address = ground arith;
      stored = λ j lt. ap s1.memory (omega (arith, pointer-eq));
    }

    -- The entries before are other allocations.
    other : (k : ℕ) → (lt : k < f.allocations.length) → (tracked k lt).offset ≢ h
    other k lt e = absurd (
        omega (
          arith,
          e,
          new.apart (tracked k lt).offset ((f.allocations.get k).contents.length + 1)
              (tracked k lt).entry,
        ))

    clear :
        (k j : ℕ)
        → (lt : k < f.allocations.length) → j < (f.allocations.get k).contents.length
        → ((tracked k lt).offset + 1 + j < h + 1) ⊎ (h + 1 + r ≤ (tracked k lt).offset + 1 + j)
    clear k j lt below =
        elim (new.apart (tracked k lt).offset ((f.allocations.get k).contents.length + 1)
          (tracked k lt).entry) [
            | inl before ↦ inl (omega (arith, before, below))
            | inr behind ↦ inr (omega (arith, behind))
          ]

    old_entry :
        (k : ℕ)
        → (lt : k < f.allocations.length)
        → allocation t' (tracked k lt).offset ≡ allocation t (tracked k lt).offset
    old_entry k lt = new.map (tracked k lt).offset ∙ ground (arith, other k lt)

    old_data :
        (k j : ℕ)
        → (lt : k < f.allocations.length) → j < (f.allocations.get k).contents.length
        → s1.memory (at buffer ((tracked k lt).offset + 1 + j))
          ≡ f.allocator.memory (at buffer ((tracked k lt).offset + 1 + j))
    old_data k j lt below =
        let x : ℕ = (tracked k lt).offset in
        let place : Pointer = at buffer (x + 1 + j) in
        let uncovered : covers f.allocator.base_address (h + 1) (h + 1 + r) place ≡ false =
          elim (clear k j lt below) [
            | inl lo ↦ ground (arith, lo, base)
            | inr up ↦ ground (arith, up, base)
          ] in
        let test : (ltb (h + 1) f.allocator.allocated_space
              && true
              && covers f.allocator.base_address (h + 1) (h + 1 + r) place)
            ≡ false =
          ground (arith, uncovered) in
        outside (x + 1 + j) (clear k j lt below)
        ∙ new.contents place (λ y on_y e.
          header-apart buffer new.holds.tiled x (f.allocations.get k).contents.length
            (old_entry k lt ∙ (tracked k lt).entry) j below y on_y
            (ap (λ b. at b y) (sym base) ∙ e))
        ∙ ap (λ b. if b then zero_granule else f.allocator.memory place) test

    old-Tracked :
        (k : ℕ)
        → k < f.allocations.length
        → Tracked buffer s1 t' (update f.alive_addresses pointer true) (f.allocations.get k)
    old-Tracked k lt =
        Tracked-kept buffer (f.allocations.get k) (tracked k lt) (old_entry k lt)
          (ground (arith, (tracked k lt).alive_address)) (λ j below. old_data k j lt below)

    abbrev pushed : Vec Allocation
    pushed = Vec.push f.allocations entry_new

    -- An index of the longer list is the last one, or one of before.
    pushed-cases :
        (P : Allocation → Type 0)
        → P entry_new
        → ((k : ℕ) → k < f.allocations.length → P (f.allocations.get k))
        → (j : ℕ) → j < f.allocations.length + 1
        → P (pushed.get j)
    pushed-cases P last before j lt = elim (dec_lt j f.allocations.length) [
      | yes below ↦
          let test : (f.allocations.length == j) ≡ false = ground arith in rw test (before j below)
      | no above ↦
          let test : (f.allocations.length == j) ≡ true = ground (arith, lt) in rw test last
    ]

    all-Tracked :
        (j : ℕ)
        → j < f.allocations.length + 1
        → Tracked buffer s1 t' (update f.alive_addresses pointer true) (pushed.get j)
    all-Tracked =
        pushed-cases (Tracked buffer s1 t' (update f.alive_addresses pointer true)) new-Tracked
          old-Tracked

    new_pointer : (k : ℕ) → k < f.allocations.length → (f.allocations.get k).pointer ≢ pointer
    new_pointer k lt e =
        absurd (other k lt (omega (arith, sym (tracked k lt).pointer ∙ e ∙ pointer-eq)))

    pushed_old :
        (k : ℕ) → k < f.allocations.length → (pushed.get k).pointer ≡ (f.allocations.get k).pointer
    pushed_old k lt =
        let test : (f.allocations.length == k) ≡ false = ground (arith, lt) in rw test refl

    pushed_last :
        (k : ℕ)
        → f.allocations.length ≤ k
        → k < f.allocations.length + 1
        → (pushed.get k).pointer ≡ pointer
    pushed_last k le lt =
        let test : (f.allocations.length == k) ≡ true = ground (arith, le, lt) in rw test refl

    distinct_all :
        (j k : ℕ)
        → j < f.allocations.length + 1
        → k < f.allocations.length + 1
        → (pushed.get j).pointer ≡ (pushed.get k).pointer
        → j ≡ k
    distinct_all j k lt_j lt_k e = elim (dec_lt j f.allocations.length) [
      | yes old_j ↦ elim (dec_lt k f.allocations.length) [
        | yes old_k ↦ distinct j k old_j old_k (sym (pushed_old j old_j) ∙ e ∙ pushed_old k old_k)
        | no last_k ↦
            absurd (
              new_pointer j old_j (sym (pushed_old j old_j) ∙ e ∙ pushed_last k (omega arith) lt_k))
      ]
      | no last_j ↦ elim (dec_lt k f.allocations.length) [
        | yes old_k ↦ absurd (
            new_pointer k old_k
              (sym (pushed_old k old_k) ∙ sym e ∙ pushed_last j (omega arith) lt_j))
        | no last_k ↦ omega (arith, lt_j, lt_k)
      ]
    ]

    fills : Passes rand buffer f t l sound (fill_new rand buffer f s' pointer (2 ^ m) size)
    unfolding fill_new assert call
    fills =
        let whole : r * 32 / 32 ≡ r = omega arith in
        let fits : leb size (r * 32) ≡ true = ground (arith, enough) in
        rw (aligned, usable-eq, fits, whole, zeroed)
          (
            _,
            t',
            new.l',
            refl,
            record {
              holds =
                  written-Holds (default_env buffer) total s' t' new.l' new.holds s1.memory
                    headers_stay;
              base = base';
              limited = in_memory;
              untouched = beyond;
              tracked = all-Tracked;
              distinct = distinct_all;
            },
          )

  pub allocs :
      (align size : ℕ)
      → align < 2 ^ 16
      → size < 2 ^ 16
      → Passes rand buffer f t l sound (on_alloc rand buffer f align size)
  unfolding on_alloc call alloc_zeroed
  allocs align size small_align small_size =
      let (m, small, power) = next_power_of_two-eq align small_align in
      let r : ℕ = (max 1 size + 31) / 32 in
      let align_size : from_bytes_usize (2 ^ m) ≡ some (2 ^ (m - 5)) =
        from_bytes_usize-small (2 ^ m) (omega (arith, two-pow_mono m 16 small))
        ∙ ap (λ x. some x) (align_granules m) in
      let granules : from_bytes_usize (max 1 size) ≡ some r =
        from_bytes_usize-small (max 1 size) (omega (arith, small_size)) in
      elim (alloc_impl-Holds (default_env buffer) total f.allocator t l (2 ^ (m - 5)) r true holds
        (env-KeepsTotal rand buffer f t l sound) (rw base granular)) [
          | inl new ↦
              rw (on_alloc, power, align_size, granules, new.returns)
                (subst
                  (λ z. Passes rand buffer f t l sound (
                    fill_new rand buffer f new.s' (at f.allocator.base_address (new.h + 1)) z
                      (max 1 size)))
                  (sym power) (fills m r (max 1 size) small (omega arith) new))
          | inr refused ↦
              rw (on_alloc, power, align_size, granules, refused.returns)
                (
                  record f { allocator = refused.s' },
                  t,
                  l,
                  refl,
                  asked-Sound rand buffer f t l sound refused.s' refused.holds refused.base
                      refused.memory refused.space refused.limits,
                )
        ]
