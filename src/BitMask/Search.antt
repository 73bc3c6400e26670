-- ===== src/BitMask/Search.antt =====
-- `BitMask::find_first` of src/allocator.rs finds the least member from an index on.
use picoalloc.Base.{
  ℕ, ◌+◌, ◌*◌, ◌/◌, ◌%◌, ◌≤◌, ◌<◌, true, false, ◌==◌, ◌≡◌, refl, inl, inr, arith, Bool-cases,
  Option, none, some, u32_max, trailing_zeros,
}
use picoalloc.Bits.Test.{test_bit, test_bit-zero}
use picoalloc.Bits.Zeros.{trailing_zeros-set, trailing_zeros-clear}
use picoalloc.Bits.Fields.{bit_or-sum}
use picoalloc.BitMask.{
  BitIndex, BitMask, secondary_length, index, find_same, find_above, found, found_above, find_first,
  lowest_set_bit_after,
}
use picoalloc.BitMask.Words.{and-bit, IsLowest, lowest_set_bit_after-IsLowest}
use picoalloc.BitMask.Members.{contains, bit_count, IsWf, index_lem}

-- The result of a search from `start`: no member from there on, or the least one.
abbrev pub IsFirst : BitMask → ℕ → Option BitIndex → Type 0
IsFirst m start none = (j : ℕ) → start ≤ j → j < bit_count → contains m j ≡ false
IsFirst m start (some b) =
    (b ≡ index b.index)
    × (b.index < bit_count)
    × (start ≤ b.index)
    × (contains m b.index ≡ true)
    × ((j : ℕ) → start ≤ j → j < b.index → contains m j ≡ false)

module _ (m : BitMask) (wf : IsWf m) (start : ℕ) (h : start < bit_count) where
  abbrev p₀ : ℕ
  p₀ = start / 64

  abbrev word : ℕ
  word = m.secondary_masks p₀

  -- A clear primary bit means an empty word.
  empty_word :
      (p : ℕ)
      → test_bit m.primary_mask p ≡ false
      → p < secondary_length
      → (k : ℕ) → test_bit (m.secondary_masks p) k ≡ false
  empty_word p clear below k =
      let zero_word : m.secondary_masks p ≡ 0 = ground (arith, wf.summary p) in
      rw zero_word (test_bit-zero k)

  -- The first round looks at the rest of the word of `start`.
  find_same-IsLowest : (r : ℕ) × (find_same m (index start) ≡ some r) × IsLowest word (start % 64) r
  unfolding find_same
  find_same-IsLowest =
      rw (index_lem start, and-bit m.primary_mask p₀ (omega arith) wf.primary_word)
        (elim (Bool-cases (test_bit m.primary_mask p₀)) [
          | inl nonempty ↦ rw nonempty (
            lowest_set_bit_after word (start % 64),
            ground arith,
            lowest_set_bit_after-IsLowest word (start % 64) (wf.words p₀) (omega arith),
          )
          | inr empty ↦
              rw empty (u32_max, refl, inl (refl, λ j from. empty_word p₀ empty (omega arith) j))
        ])

  -- What the second round returns: no nonempty word above that of `start`, or the lowest bit of
  -- the first such word.
  abbrev IsAbove : Option (ℕ × ℕ) → Type 0
  IsAbove none =
      (p k : ℕ) → p₀ < p → p < secondary_length → test_bit (m.secondary_masks p) k ≡ false
  IsAbove (some (r, s)) =
      (r < secondary_length)
      × (p₀ < r)
      × (s < 64)
      × (test_bit (m.secondary_masks r) s ≡ true)
      × ((k : ℕ) → k < s → test_bit (m.secondary_masks r) k ≡ false)
      × ((p k : ℕ) → p₀ < p → p < r → test_bit (m.secondary_masks p) k ≡ false)

  abbrev q : ℕ
  q = lowest_set_bit_after m.primary_mask (p₀ + 1)

  find_above-IsAbove : (o : Option (ℕ × ℕ)) × (find_above m (index start) ≡ some o) × IsAbove o
  unfolding find_above
  find_above-IsAbove =
      rw (index_lem start)
        (elim (lowest_set_bit_after-IsLowest m.primary_mask (p₀ + 1) wf.primary_word
          (omega arith)) [
            | inl (max, clear) ↦
                (none, rw max, λ p k from below. empty_word p (clear p (omega arith)) below k)
            | inr (small, from, set, before) ↦
                let in_range : q < secondary_length = ground (arith, wf.summary q) in
                let some_bit =
                  trailing_zeros-set 64 (m.secondary_masks q) (wf.words q)
                    (ground (arith, wf.summary q)) in
                (
                  some (q, trailing_zeros 64 (m.secondary_masks q)),
                  ground arith,
                  (
                    in_range,
                    omega arith,
                    some_bit.0,
                    some_bit.1,
                    trailing_zeros-clear 64 (m.secondary_masks q),
                    λ p k above below. empty_word p (before p (omega arith) below) (omega arith) k,
                  ),
                )
          ])

  found-index :
      (p s : ℕ) → s < 64 → (found p s ≡ index (found p s).index) × ((found p s).index ≡ p * 64 + s)
  found-index p s hs = ground (arith, index_lem (found p s).index, bit_or-sum 6 p s)

  -- The word of `start` has a bit left.
  found_here :
      {r : ℕ}
      → r < 64
      → start % 64 ≤ r
      → test_bit word r ≡ true
      → ((j : ℕ) → start % 64 ≤ j → j < r → test_bit word j ≡ false)
      → IsFirst m start (some (found p₀ r))
  unfolding contains
  found_here {r} small from set before =
      let (same, at) = found-index p₀ r small in
      (same, ground arith, ground arith, ground arith, λ j lo hi. ground (arith, before (j % 64)))

  -- It has none, and a word above has one.
  found_there :
      {p s : ℕ}
      → ((j : ℕ) → start % 64 ≤ j → test_bit word j ≡ false)
      → IsAbove (some (p, s))
      → IsFirst m start (some (found p s))
  unfolding contains
  found_there {p} {s} clear (below, above, small, set, before, between) =
      let (same, at) = found-index p s small in
      (
        same,
        ground arith,
        ground arith,
        ground arith,
        λ j lo hi. ground (arith, clear (j % 64), before (j % 64), between (j / 64) (j % 64)),
      )

  found_nowhere :
      ((j : ℕ) → start % 64 ≤ j → test_bit word j ≡ false) → IsAbove none → IsFirst m start none
  unfolding contains
  found_nowhere clear nothing j lo hi = ground (arith, clear (j % 64), nothing (j / 64) (j % 64))

  Found : Option (Option BitIndex) → Type 0
  Found result = (o : Option BitIndex) × (result ≡ some o) × IsFirst m start o

  after_above :
      (o : Option (ℕ × ℕ))
      → ((j : ℕ) → start % 64 ≤ j → test_bit word j ≡ false)
      → find_above m (index start) ≡ some o
      → IsAbove o
      → Found (found_above m (index start))
  unfolding Found found_above
  after_above none clear above nothing = rw above (none, refl, found_nowhere clear nothing)
  after_above (some (p, s)) clear above hit =
      rw above (some (found p s), refl, found_there clear hit)

-- `find_first` from an index in range faults nowhere on a well-formed mask, and finds the least
-- member from there on, as a `BitIndex` whose three fields agree, or `None` when there is none.
pub find_first-IsFirst :
    (m : BitMask) (start : ℕ)
    → IsWf m
    → start < bit_count
    → (o : Option BitIndex) × (find_first m (index start) ≡ some o) × IsFirst m start o
unfolding find_first Found
find_first-IsFirst m start wf h =
    let (r, same, low) = find_same-IsLowest m wf start h in
    rw same (elim low [
      | inl (max, clear) ↦
          let (o, above, is) = find_above-IsAbove m wf start h in
          rw max (after_above m wf start h o clear above is)
      | inr (small, from, set, before) ↦
          let not_max : (r == u32_max) ≡ false = ground arith in
          rw (not_max, index_lem start)
            (some (found (start / 64) r), refl, found_here m wf start h small from set before)
    ])
