-- ===== src/Fuzz/Lengthen.antt =====
-- `Op::Grow` of fuzz/fuzz_targets/allocator_buffer.rs passes every assertion.
use picoalloc.Base.{
  ℕ, ◌+◌, ◌-◌, ◌*◌, ◌/◌, ◌%◌, ◌^◌, ◌≤◌, ◌<◌, ◌≡◌, ◌≢◌, ◌⊎◌, inl, inr, true, false, ◌&&◌, ◌==◌, leb,
  ltb, if◌then◌else◌, arith, refl, sym, ap, ◌∙◌, subst, Option, none, some, dec_lt, bit_xor,
}
use picoalloc.Size.{Size}
use picoalloc.Size.Convert.{from_bytes_usize-small}
use picoalloc.Chunk.{Pointer, Granule}
use picoalloc.Machine.{State, Outcome}
use picoalloc.FreeList.{Lists}
use picoalloc.FreeList.Represents.{at}
use picoalloc.Tiles.{Tiles, allocation, either}
use picoalloc.Tiles.Promises.{Untouched}
use picoalloc.Fuzz.{
  Allocation, Fuzz, default_memory, default_env, total, limit, on_grow, fill_grown, fill_slice,
  write_slice, assert, call,
}
use picoalloc.Fuzz.Tracked.{Tracked, Sound, Tracked-intact, allocations-apart}
use picoalloc.Tiles.{grown}
use picoalloc.Tiles.Extend.{Grown}
use picoalloc.Tiles.Enlarge.{grow_inplace-Holds}
use picoalloc.Tiles.Expand.{written-Holds}
use picoalloc.Tiles.Allocations.{data-apart}
use picoalloc.Allocator.Resize.{grow_inplace}
use picoalloc.Fuzz.Step.{
  Passes, env-Limited, env-KeepsTotal, asked-Sound, others-Tracked, kept_data, same_data,
  replaced-Tracked, replaced-distinct, entry_i, header, pointer-eq,
}

module _ (rand : ℕ → ℕ → ℕ) (buffer : Pointer) (f : Fuzz) (t : Tiles) (l : Lists)
    (sound : Sound buffer f t l) (index : ℕ)
    (some_entry : (f.allocations.length == 0) ≡ false) where
  open sound use {holds, base, limited, untouched, tracked, distinct}

  abbrev i : ℕ
  i = index % f.allocations.length

  abbrev a : Allocation
  a = f.allocations.get i

  abbrev o : ℕ
  o = (entry_i rand buffer f t l sound index some_entry).offset

  abbrev length : ℕ
  length = a.contents.length

  on : t.starts o ≡ true
  on = (header rand buffer f t l sound index some_entry).0

  used : t.used o ≡ true
  used = (header rand buffer f t l sound index some_entry).1

  size_o : t.size o ≡ length + 1
  size_o = (header rand buffer f t l sound index some_entry).2

  -- The chunk has grown, and its new part gets data.
  module _ (size : Size)
      (g : Grown (default_env buffer) total f.allocator t o size (
        grow_inplace
          (default_env buffer)
          (at f.allocator.base_address (o + 1))
          size
          f.allocator)) where
    abbrev t' : Tiles
    t' = grown t o (o + (size + 1))

    abbrev s' : State (Unit {0})
    s' = g.s'

    more : length < size
    more = omega (arith, g.smaller, size_o)

    abbrev fill : ℕ → Granule
    fill = fill_slice rand (bit_xor a.pointer 0b1010_1010) (size - length)

    abbrev s1 : State (Unit {0})
    s1 = write_slice s' (a.pointer + length * 32) (size - length) fill

    abbrev longer : Allocation
    longer = record a {
      contents = record {
        length = size;
        get = λ j. if ltb j length then a.contents.get j else fill (j - length);
      };
    }

    base' : s'.base_address ≡ buffer
    base' = g.base ∙ base

    entry' : allocation t' o ≡ some (size + 1)
    entry' = g.map o ∙ ground arith

    others : (x : ℕ) → x ≢ o → allocation t' x ≡ allocation t x
    others x ne = g.map x ∙ ground (arith, ne)

    start : a.pointer + length * 32 ≡ at buffer (o + 1 + length)
    start =
        ap (λ p. p + length * 32) (entry_i rand buffer f t l sound index some_entry).pointer
        ∙ omega arith

    -- What the write does.
    outside :
        (x : ℕ)
        → (x < o + 1 + length) ⊎ (o + 1 + size ≤ x)
        → s1.memory (at buffer x) ≡ s'.memory (at buffer x)
    outside x away =
        let test : (leb (a.pointer + length * 32) (at buffer x)
              && ltb (at buffer x) (a.pointer + length * 32 + (size - length) * 32))
            ≡ false =
          elim away [ inl lt ↦ ground (arith, start, lt) | inr ge ↦ ground (arith, start, ge) ] in
        rw test refl

    written :
        (j : ℕ) → length ≤ j → j < size → s1.memory (at buffer (o + 1 + j)) ≡ fill (j - length)
    written j low high =
        let test : (leb (a.pointer + length * 32) (at buffer (o + 1 + j))
              && ltb (at buffer (o + 1 + j)) (a.pointer + length * 32 + (size - length) * 32))
            ≡ true =
          ground (arith, start, low, high) in
        let place : (at buffer (o + 1 + j) - (a.pointer + length * 32)) / 32 ≡ j - length =
          omega (arith, start, low) in
        rw (test, place) refl

    away : (x : ℕ) → t'.starts x ≡ true → (x < o + 1 + length) ⊎ (o + 1 + size ≤ x)
    away x on_x = elim (dec_lt x (o + 1 + length)) [
      | yes lt ↦ inl lt
      | no ge ↦ elim (dec_lt x (o + 1 + size)) [
        | yes within ↦ absurd (
            data-apart g.holds.tiled o (size + 1) entry' (x - (o + 1)) (omega (arith, ge, within)) x
              on_x (omega (arith, ge)))
        | no behind ↦ inr (omega (arith, behind))
      ]
    ]

    headers_stay :
        (x : ℕ)
        → t'.starts x ≡ true
        → s1.memory (at s'.base_address x) ≡ s'.memory (at s'.base_address x)
    headers_stay x on_x =
        subst (λ b. s1.memory (at b x) ≡ s'.memory (at b x)) (sym base') (outside x (away x on_x))

    beyond : Untouched (default_memory buffer) s1
    beyond p above =
        let reach : o + (size + 1) ≤ s'.allocated_space = g.holds.backed o (size + 1) entry' in
        let test : (leb (a.pointer + length * 32) p
              && ltb p (a.pointer + length * 32 + (size - length) * 32))
            ≡ false =
          ground (arith, start, above, reach, base', more) in
        rw test (
          g.contents p
            (λ x on_x e. absurd (ground (arith, e, above, base', base, g.space, reached x on_x)))
          ∙ untouched p (ground (arith, above, g.base, g.space)))
      where
        reached : (x : ℕ) → (either t t').starts x ≡ true → x < s'.allocated_space
        reached x on_x =
            ground (arith, on_x, holds.headers.touched x, g.holds.headers.touched x, g.space)

    clear :
        (x n j : ℕ)
        → allocation t x ≡ some (n + 1)
        → x ≢ o
        → j < n
        → (x + 1 + j < o + 1 + length) ⊎ (o + 1 + size ≤ x + 1 + j)
    clear x n j e ne lt =
        elim (allocations-apart g.holds.tiled o x (size + 1) (n + 1) entry' (others x ne ∙ e)
          (λ eq. ne (sym eq))) [
            | inl before ↦ inr (omega (arith, before))
            | inr behind ↦ inl (omega (arith, behind, lt))
          ]

    longer-Tracked : Tracked buffer s1 t' f.alive_addresses longer
    longer-Tracked = record {
      offset = o;
      pointer = (entry_i rand buffer f t l sound index some_entry).pointer;
      entry = entry';
      alive_address = (entry_i rand buffer f t l sound index some_entry).alive_address;
      stored = λ j lt. elim (dec_lt j length) [
        | yes below ↦
            let test : ltb j length ≡ true = ground arith in
            rw test (
              outside (o + 1 + j) (inl (omega (arith, below)))
              ∙ same_data rand buffer f t l sound index some_entry s' t' g.holds.tiled g.contents o
                  length size j (entry_i rand buffer f t l sound index some_entry).entry entry'
                  below lt
              ∙ (entry_i rand buffer f t l sound index some_entry).stored j below)
        | no above ↦
            let test : ltb j length ≡ false = ground arith in rw test (written j (omega arith) lt)
      ];
    }

    grows_to : Passes rand buffer f t l sound (fill_grown rand buffer f s' i size)
    unfolding fill_grown assert
    grows_to =
        let in_order : leb length size ≡ true = ground (arith, more) in
        rw (in_order, Tracked-intact buffer longer longer-Tracked)
          (
            _,
            t',
            g.l',
            refl,
            record {
              holds =
                  written-Holds (default_env buffer) total s' t' g.l' g.holds s1.memory
                    headers_stay;
              base = base';
              limited = g.limits limit (env-Limited rand buffer f t l sound) limited;
              untouched = beyond;
              tracked =
                  replaced-Tracked rand buffer f t l sound index some_entry s1 t' longer
                    longer-Tracked
                    (others-Tracked rand buffer f t l sound index some_entry s1 t' f.alive_addresses
                      others (λ p ne. refl)
                      (λ x n j e ne lt.
                        outside (x + 1 + j) (clear x n j e ne lt)
                        ∙ kept_data rand buffer f t l sound index some_entry s' t' g.holds.tiled
                            others g.contents x n j e ne lt));
              distinct = replaced-distinct rand buffer f t l sound index some_entry longer refl;
            },
          )

  -- The call, by its outcomes.
  module _ (size : Size) (run_eq : at f.allocator.base_address (o + 1) ≡ a.pointer) where
    pub grows_by : Passes rand buffer f t l sound (
        call (grow_inplace (default_env buffer) a.pointer size f.allocator) (λ result s.
          elim result [
            | none ↦ some (record f { allocator = s })
            | some new_size ↦
                if a.contents.length == new_size
                then some (record f { allocator = s })
                else fill_grown rand buffer f s i new_size
          ]))
    unfolding call
    grows_by =
        elim (grow_inplace-Holds (default_env buffer) total f.allocator t l o size holds
          (env-KeepsTotal rand buffer f t l sound) on used) [
            | inl (enough, eq) ↦
                let same : (length == t.size o - 1) ≡ true = ground (arith, size_o) in
                rw (at_pointer _ eq, same) (f, t, l, refl, sound)
            | inr (inl g) ↦
                let differs : (length == size) ≡ false = ground (arith, more size g) in
                rw (at_pointer _ g.returns, differs) (grows_to size g)
            | inr (inr stuck) ↦ rw (at_pointer _ stuck.returns) (
              record f { allocator = stuck.s' },
              t,
              l,
              refl,
              asked-Sound rand buffer f t l sound stuck.s' stuck.holds stuck.base stuck.memory
                  stuck.space stuck.limits,
            )
          ]
      where
        at_pointer :
            (r : Outcome (Unit {0}) (Option Size))
            → grow_inplace
                (default_env buffer)
                (at f.allocator.base_address (o + 1))
                size
                f.allocator
              ≡ r
            → grow_inplace (default_env buffer) a.pointer size f.allocator ≡ r
        at_pointer r e =
            subst (λ p. grow_inplace (default_env buffer) p size f.allocator ≡ r) run_eq e

  pub grows :
      (size : ℕ) → size < 2 ^ 16 → Passes rand buffer f t l sound (on_grow rand buffer f index size)
  unfolding on_grow
  grows size small =
      rw (on_grow, from_bytes_usize-small (size + 1) (omega (arith, small)), some_entry)
        (grows_by ((size + 1 + 31) / 32) (pointer-eq rand buffer f t l sound index some_entry))
