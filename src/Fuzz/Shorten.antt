-- ===== src/Fuzz/Shorten.antt =====
-- `Op::Shrink` of fuzz/fuzz_targets/allocator_buffer.rs passes every assertion.
use picoalloc.Base.{
  ℕ, ◌+◌, ◌/◌, ◌%◌, ◌^◌, ◌<◌, ◌≡◌, ◌≢◌, true, false, ◌==◌, leb, ltb, if◌then◌else◌, arith, refl,
  sym, ◌∙◌, subst, none, some, dec_lt, u32_max,
}
use picoalloc.Base.Vec
use picoalloc.Base.Vec.{Vec}
use picoalloc.Size.{Size}
use picoalloc.Size.Convert.{from_bytes_usize-small}
use picoalloc.Chunk.{Pointer}
use picoalloc.Machine.{ok}
use picoalloc.Allocator.Resize.{shrink_inplace}
use picoalloc.FreeList.{Lists}
use picoalloc.Tiles.{Tiles, allocation, trimmed, either}
use picoalloc.Tiles.Trim.{shrink_inplace-Holds}
use picoalloc.Fuzz.{Allocation, Fuzz, default_env, intact, total, on_shrink, assert, call}
use picoalloc.Fuzz.Tracked.{Tracked, Sound, Tracked-intact}
use picoalloc.Fuzz.Step.{
  Passes, Kept-Untouched, others-Tracked, kept_data, same_data, replaced-Tracked, replaced-distinct,
  entry_i, header, pointer-eq,
}

module _ (rand : ℕ → ℕ → ℕ) (buffer : Pointer) (f : Fuzz) (t : Tiles) (l : Lists)
    (sound : Sound buffer f t l) (index : ℕ)
    (some_entry : (f.allocations.length == 0) ≡ false) where
  open sound use {holds, base, limited, untouched, tracked, distinct}

  abbrev i : ℕ
  i = index % f.allocations.length

  abbrev a : Allocation
  a = f.allocations.get i

  abbrev o : ℕ
  o = (entry_i rand buffer f t l sound index some_entry).offset

  abbrev length : ℕ
  length = a.contents.length

  module _ (granules : Size) (some_size : 0 < granules) (small : granules < u32_max) where
    abbrev t' : Tiles
    t' = trimmed total t o granules

    abbrev shorter : Allocation
    shorter = record a { contents = Vec.truncate a.contents granules }

    on : t.starts o ≡ true
    on = (header rand buffer f t l sound index some_entry).0

    used : t.used o ≡ true
    used = (header rand buffer f t l sound index some_entry).1

    size_o : t.size o ≡ length + 1
    size_o = (header rand buffer f t l sound index some_entry).2

    some_granules : (granules == 0) ≡ false
    some_granules = ground arith

    shorter-length : shorter.contents.length ≡ (if ltb granules length then granules else length)
    shorter-length = elim (dec_lt granules length) [
      | yes lt ↦ let test : ltb granules length ≡ true = ground arith in rw test refl
      | no ge ↦ let test : ltb granules length ≡ false = ground arith in rw test refl
    ]

    shorter-get : (j : ℕ) → shorter.contents.get j ≡ a.contents.get j
    shorter-get j = elim (dec_lt granules length) [
      | yes lt ↦ let test : ltb granules length ≡ true = ground arith in rw test refl
      | no ge ↦ let test : ltb granules length ≡ false = ground arith in rw test refl
    ]

    -- The size that is left is that of the truncated data.
    left-eq :
        (if granules == 0
          then none
          else some (if leb (t.size o) (granules + 1) then t.size o else granules + 1))
        ≡ some (shorter.contents.length + 1)
    left-eq = rw (some_granules, size_o, shorter-length) (ground arith)

    shrinks_to : Passes rand buffer f t l sound (
        assert (intact f.allocator a) (
          call (shrink_inplace (default_env buffer) a.pointer granules f.allocator) (λ _ s.
            assert
              (intact s shorter)
              (some (record f { allocator = s; allocations = Vec.set f.allocations i shorter })))))
    unfolding assert call
    shrinks_to =
        let (s', l', eq, holds', kept, map) =
          shrink_inplace-Holds (default_env buffer) total f.allocator t l o granules holds on used
            small in
        let others : (x : ℕ) → x ≢ o → allocation t' x ≡ allocation t x =
          λ x ne. map x ∙ ground (arith, ne) in
        let entry' : allocation t' o ≡ some (shorter.contents.length + 1) =
          map o ∙ ground arith ∙ left-eq in
        let tracked' : Tracked buffer s' t' f.alive_addresses shorter = record {
          offset = o;
          pointer = (entry_i rand buffer f t l sound index some_entry).pointer;
          entry = entry';
          alive_address = (entry_i rand buffer f t l sound index some_entry).alive_address;
          stored = λ j lt.
              let below : j < length = ground (arith, lt, shorter-length) in
              same_data rand buffer f t l sound index some_entry s' t' holds'.tiled kept.contents o
                length shorter.contents.length j
                (entry_i rand buffer f t l sound index some_entry).entry entry' below lt
              ∙ (entry_i rand buffer f t l sound index some_entry).stored j below
              ∙ sym (shorter-get j);
        } in
        rw
          (
            Tracked-intact buffer a (entry_i rand buffer f t l sound index some_entry),
            subst (λ p. shrink_inplace (default_env buffer) p granules f.allocator ≡ ok tt s')
                (pointer-eq rand buffer f t l sound index some_entry) eq,
            Tracked-intact buffer shorter tracked',
          )
          (
            _,
            t',
            l',
            refl,
            record {
              holds = holds';
              base = kept.base ∙ base;
              limited = rw kept.space limited;
              untouched = Kept-Untouched rand buffer f t l sound (either t t') s' kept (λ x on.
                  ground
                    (arith, on, holds.headers.touched x, holds'.headers.touched x, kept.space));
              tracked =
                  replaced-Tracked rand buffer f t l sound index some_entry s' t' shorter tracked' (
                    others-Tracked rand buffer f t l sound index some_entry s' t' f.alive_addresses
                      others (λ p ne. refl)
                      (kept_data rand buffer f t l sound index some_entry s' t' holds'.tiled others
                        kept.contents));
              distinct = replaced-distinct rand buffer f t l sound index some_entry shorter refl;
            },
          )

  pub shrinks :
      (size : ℕ)
      → size < 2 ^ 16
      → Passes rand buffer f t l sound (on_shrink rand buffer f index size)
  unfolding on_shrink
  shrinks size small =
      rw (on_shrink, from_bytes_usize-small (size + 1) (omega (arith, small)), some_entry)
        (shrinks_to ((size + 1 + 31) / 32) (omega arith) (omega (arith, small)))
