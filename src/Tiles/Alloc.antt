-- ===== src/Tiles/Alloc.antt =====
-- The second half of `alloc_impl` in src/allocator.rs as a step of the tiling: a free chunk has been
-- found, and the place of the allocation within it is known.
use picoalloc.Base.{
  ℕ, ◌+◌, ◌-◌, ◌*◌, ◌%◌, ◌≤◌, ◌<◌, ◌≡◌, ◌⊎◌, inl, inr, Bool, true, false, ◌&&◌, ◌==◌, ltb, arith,
  if◌then◌else◌, refl, sym, ap, ◌∙◌, subst, Option, none, some,
}
use picoalloc.Size.{Size, bytes}
use picoalloc.Chunk.{zero_granule, Pointer, unchecked_add, unchecked_sub}
use picoalloc.Chunk.Laws.{unchecked_sub-eq, bytes-eq}
use picoalloc.Env.{Env, KeepsTotal, Limited}
use picoalloc.Machine.{State, Outcome, ok, paranoid_assert, write_zeros, ◌>>◌}
use picoalloc.Allocator.{size_to_bin_round_down}
use picoalloc.Allocator.Alloc.{Layout, alloc_at, ensure_space, carve, hand_out}
use picoalloc.FreeList.{Lists}
use picoalloc.FreeList.Represents.{at}
use picoalloc.Tiles.{Tiles, allotted}
use picoalloc.Tiles.Outcome.{covers}
use picoalloc.Tiles.Holds.{Holds, add-at}
use picoalloc.Tiles.Check.{check_chunk-ok}
use picoalloc.Tiles.Carve.{carve-Carved, l3, starts_h, used_h, size_h}
use picoalloc.Tiles.Expand.{ensure_space-Holds, filled-Holds}

module _ {E : Type 0} (env : Env E) (total : Size) (s : State E) (t : Tiles) (l : Lists)
    (holds : Holds env total s t l) (h n : ℕ) (on : t.starts h ≡ true) (used : t.used h ≡ true)
    (size_h : t.size h ≡ n - h) (some_size : h < n) (align r : Size) (n_eq : n ≡ h + 1 + r)
    (aligned : at s.base_address (h + 1) % bytes align ≡ 0) where
  open holds use {spans, tiled, tight, headers}

  n_in : n ≤ total
  n_in = omega (arith, tiled.within h on)

  data_at : unchecked_add (at s.base_address h) 1 ≡ at s.base_address (h + 1)
  data_at = add-at spans h 1 (omega (arith, n_in))

  back_at : unchecked_sub (at s.base_address (h + 1)) 1 ≡ at s.base_address h
  back_at = ground (arith, unchecked_sub-eq (at s.base_address (h + 1)) 1, spans.no_wrap, n_in)

  -- The allocation is handed out; of memory, only its data may change.
  abbrev pub HandsOut : Bool → Outcome E (Option Pointer) → Type 0
  HandsOut z r =
      (s' : State E) × (r ≡ ok (some (at s.base_address (h + 1))) s')
      × Holds env total s' t l
      × (s'.base_address ≡ s.base_address)
      × ((p : Pointer)
          → s'.memory p
            ≡ (if z && covers s.base_address (h + 1) n p then zero_granule else s.memory p))
      × (s'.allocated_space ≡ s.allocated_space)

  fits : (at s.base_address (h + 1) % bytes align == 0) ≡ true
  fits = ground arith

  len : bytes r ≡ r * 32
  len = bytes-eq r (omega (arith, n_in, spans.short))

  pub hand_out-Holds : (z : Bool) → HandsOut z (hand_out env (at s.base_address h) align r z s)
  unfolding hand_out paranoid_assert write_zeros
  hand_out-Holds false =
      rw (data_at, fits, back_at, check_chunk-ok env total s spans t tiled tight headers h on)
        (s, refl, holds, refl, λ p. refl, refl)
  hand_out-Holds true =
      rw (data_at, fits, back_at, check_chunk-ok env total s spans t tiled tight headers h on, len)
        (
          _,
          refl,
          filled-Holds env total s t l holds h r on used (omega arith) (λ _. zero_granule),
          refl,
          λ p. ground arith,
          refl,
        )

-- What `alloc_at` does: it hands the granules from `h + 1` to `n` out, or has no memory for them.
module _ {E : Type 0} (env : Env E) (total : Size) (s : State E) (t : Tiles) (l : Lists)
    (holds : Holds env total s t l) (keeps : KeepsTotal env) (c h n : ℕ) (from : t.starts c ≡ true)
    (unused : t.used c ≡ false) (low : c ≤ h) (some_size : h < n) (high : n ≤ c + t.size c)
    (top : l.pred c ≡ none) (align r data_offset end_offset : Size) (n_eq : n ≡ h + 1 + r)
    (aligned : at s.base_address (h + 1) % bytes align ≡ 0)
    (end_eq : end_offset ≡ (if c + t.size c - n == 0 then n else n + 1)) where
  open holds use {spans, tiled, tight, headers}

  abbrev place : Layout
  place = record {
    data_offset = data_offset;
    allocation_chunk = at s.base_address h;
    free_space_lhs = h - c;
    free_space_rhs = c + t.size c - n;
    end_offset = end_offset;
  }

  abbrev pub Granted : Bool → Outcome E (Option Pointer) → Type 0
  Granted z r =
      (s' : State E) × (l' : Lists) × (r ≡ ok (some (at s.base_address (h + 1))) s')
      × Holds env total s' (allotted t c h n) l'
      × (s'.base_address ≡ s.base_address)
      × ((p : Pointer)
          → ((x : ℕ) → (allotted t c h n).starts x ≡ true → at s.base_address x ≡ p → ⊥)
          → s'.memory p
            ≡ (if z && covers s.base_address (h + 1) n p then zero_granule else s.memory p))
      × (s.allocated_space ≤ s'.allocated_space)
      × ((limit : Size)
          → Limited env limit
          → s.allocated_space ≤ limit
          → s'.allocated_space ≤ limit)

  abbrev pub Refused : Outcome E (Option Pointer) → Type 0
  Refused r =
      (s' : State E) × (r ≡ ok none s')
      × Holds env total s' t l
      × (s'.base_address ≡ s.base_address)
      × (s'.memory ≡ s.memory)
      × (s.allocated_space ≤ s'.allocated_space)
      × ((limit : Size)
          → Limited env limit
          → s.allocated_space ≤ limit
          → s'.allocated_space ≤ limit)
      × ((env.expand_memory_until s.env s.base_address end_offset).0 ≡ false)

  pub end_in : end_offset ≤ total
  end_in = ground (arith, tiled.within c)

  abbrev run : Bool → Outcome E (Option Pointer)
  run z = alloc_at env (at s.base_address c) (size_to_bin_round_down (t.size c)) align r z place s

  abbrev pub zero_memory : Bool → Bool
  zero_memory z = ltb data_offset s.allocated_space && z

  -- The allocation once it has been cut out.
  handed :
      (z : Bool) (s1 s2 : State E) (l' : Lists)
      → carve env (at s.base_address c) (size_to_bin_round_down (t.size c)) r place s1 ≡ ok tt s2
      → Holds env total s2 (allotted t c h n) l'
      → s2.base_address ≡ s.base_address
      → ((p : Pointer)
          → ((x : ℕ) → (allotted t c h n).starts x ≡ true → at s.base_address x ≡ p → ⊥)
          → s2.memory p ≡ s.memory p)
      → (allotted t c h n).starts h ≡ true
      → (allotted t c h n).used h ≡ true
      → (allotted t c h n).size h ≡ n - h
      → s2.allocated_space ≡ s1.allocated_space
      → s.allocated_space ≤ s1.allocated_space
      → ((limit : Size)
          → Limited env limit
          → s.allocated_space ≤ limit
          → s1.allocated_space ≤ limit)
      → Granted z (
          (do
            carve env (at s.base_address c) (size_to_bin_round_down (t.size c)) r place
            hand_out env (at s.base_address h) align r z)
            s1)
  handed z s1 s2 l' eq holds2 base contents on used size space2 more limits =
      let (s3, eq3, holds3, base3, contents3, space3) =
        hand_out-Holds env total s2 (allotted t c h n) l' holds2 h n on used size some_size align r
          n_eq (rw base aligned) z in
      rw
        (eq, subst (λ b. hand_out env (at b h) align r z s2 ≡ ok (some (at b (h + 1))) s3) base eq3)
        (
          s3,
          l',
          refl,
          holds3,
          base3 ∙ base,
          λ p apart.
              contents3 p
              ∙ subst
                  (λ b. (if z && covers b (h + 1) n p then zero_granule else s2.memory p) ≡ (
                    if z && covers s.base_address (h + 1) n p then zero_granule else s2.memory p))
                  (sym base) refl
              ∙ ap (λ m. if z && covers s.base_address (h + 1) n p then zero_granule else m)
                  (contents p apart),
          rw (space3, space2) more,
          λ limit limited le. rw (space3, space2) (limits limit limited le),
        )

  -- The rest once there is memory.
  granted :
      (z : Bool) (s1 : State E)
      → Holds env total s1 t l
      → s1.base_address ≡ s.base_address
      → s1.memory ≡ s.memory
      → end_offset ≤ s1.allocated_space
      → s.allocated_space ≤ s1.allocated_space
      → ((limit : Size)
          → Limited env limit
          → s.allocated_space ≤ limit
          → s1.allocated_space ≤ limit)
      → Granted z (
          (do
            carve env (at s.base_address c) (size_to_bin_round_down (t.size c)) r place
            hand_out env (at s.base_address h) align r z)
            s1)
  granted z s1 holds1 base memory reach more limits =
      let backs : n ≤ s1.allocated_space = ground arith in
      let reach_n : n < c + t.size c → n < s1.allocated_space = λ lt. ground arith in
      let (s2, eq, holds2, base2, space2, kept) =
        carve-Carved env total s1 t l holds1 c h n from unused low some_size high top backs reach_n
          r data_offset end_offset n_eq in
      handed z s1 s2
        (l3 env total s1 t l holds1 c h n from unused low some_size high top backs reach_n)
        (subst
          (λ b.
            carve env (at b c) (size_to_bin_round_down (t.size c)) r
              (record place { allocation_chunk = at b h }) s1
            ≡ ok tt s2)
          base eq)
        holds2 (base2 ∙ base)
        (λ p apart.
          kept.contents p (λ x on e. apart x on (ap (λ b. at b x) (sym base) ∙ e))
          ∙ ap (λ m. m p) memory)
        (starts_h env total s1 t l holds1 c h n from unused low some_size high top backs reach_n)
        (used_h env total s1 t l holds1 c h n from unused low some_size high top backs reach_n)
        (size_h env total s1 t l holds1 c h n from unused low some_size high top backs reach_n)
        space2 more limits

  by_memory :
      (z b : Bool) (s1 : State E)
      → ensure_space env end_offset s ≡ ok b s1
      → Holds env total s1 t l
      → s1.base_address ≡ s.base_address
      → s1.memory ≡ s.memory
      → (b ≡ true → end_offset ≤ s1.allocated_space)
      → (b ≡ false → (env.expand_memory_until s.env s.base_address end_offset).0 ≡ false)
      → s.allocated_space ≤ s1.allocated_space
      → ((limit : Size)
          → Limited env limit
          → s.allocated_space ≤ limit
          → s1.allocated_space ≤ limit)
      → Granted (zero_memory z) (run z) ⊎ Refused (run z)
  unfolding alloc_at
  by_memory z true s1 eq holds1 base memory reach refused more limits =
      rw eq (inl (granted (zero_memory z) s1 holds1 base memory (reach refl) more limits))
  by_memory z false s1 eq holds1 base memory reach refused more limits =
      rw eq (inr (s1, refl, holds1, base, memory, more, limits, refused refl))

  pub alloc_at-Holds : (z : Bool) → Granted (zero_memory z) (run z) ⊎ Refused (run z)
  alloc_at-Holds z =
      let (b, s1, eq, holds1, base, memory, reach, refused, more, limits) =
        ensure_space-Holds env total s t l holds keeps end_offset end_in in
      by_memory z b s1 eq holds1 base memory reach refused more limits
