-- ===== src/BitMask.antt =====
-- src/allocator.rs: the two-level bit mask that records which bins hold free chunks, with the
-- 64-bit `Mask` of the x86_64, wasm and riscv64 targets.
mod Words
pub mod Members
pub mod Search
use picoalloc.Base.{
  ℕ, zero, suc, ◌+◌, ◌-◌, ◌*◌, ◌/◌, ◌%◌, ◌^◌, bit_and, bit_or, Bool, true, false, ◌==◌, ◌!=◌, ltb,
  shl, shr, u32_max, u64_max, update, get_unchecked, set_unchecked, trailing_zeros, if◌then◌else◌,
  Option, none, some,
}

-- `size_of::<Mask>() * 8`.
abbrev pub mask_bits : ℕ
mask_bits = 64

-- `1 << index` on a `Mask`: the amount is taken modulo the width.
abbrev pub bit : ℕ → ℕ
bit i = 2 ^ (i % 64)

-- `!mask`
abbrev pub complement : ℕ → ℕ
complement m = 2 ^ 64 - 1 - m

unfoldable pub lowest_set_bit_after : ℕ → ℕ → ℕ
lowest_set_bit_after value bit_index =
    let mask_before = bit bit_index - 1 in
    let mask_after = complement mask_before in
    let bits_after = bit_and value mask_after in
    if bits_after == 0 then u32_max else trailing_zeros 64 bits_after

-- The number of masks of the second level, `SECONDARY_LENGTH`, for a bin count.
unfoldable pub secondary_length_for : ℕ → ℕ
secondary_length_for bits =
    let items = bits / mask_bits in if bits % mask_bits != 0 then items + 1 else items

-- Its value at the bin count of `BIN_CONFIG`.
abbrev pub secondary_length : ℕ
secondary_length = 38

pub record BitIndex : Type 0 where
  pub index : ℕ
  pub primary : ℕ
  pub secondary : ℕ

pub record BitMask : Type 0 where
  pub primary_mask : ℕ
  pub secondary_masks : ℕ → ℕ

-- `BitMask::new`
unfoldable pub new : BitMask
new = record { primary_mask = 0; secondary_masks = λ _. 0 }

-- `BitMask::index`: `PRIMARY_BIN_SHIFT` is 6 and `SECONDARY_BIN_MASK` is 63.
unfoldable pub index : ℕ → BitIndex
index i = record { index = i; primary = shr i 6; secondary = bit_and i (2 ^ 6 - 1) }

infixl 5 ◌>>=◌
abbrev ◌>>=◌ : {A B : Type 0} → Option A → (A → Option B) → Option B
none >>= k = none
some a >>= k = k a

unfoldable pub set : BitMask → BitIndex → Option BitMask
unfolding get_unchecked set_unchecked
set m i = do
  old ← get_unchecked secondary_length m.secondary_masks i.primary
  masks ← set_unchecked secondary_length m.secondary_masks i.primary (bit_or old (bit i.secondary))
  some (record { primary_mask = bit_or m.primary_mask (bit i.primary); secondary_masks = masks })

unfoldable pub unset : BitMask → BitIndex → Option BitMask
unfolding get_unchecked set_unchecked
unset m i = do
  old ← get_unchecked secondary_length m.secondary_masks i.primary
  let secondary = bit_and old (complement (bit i.secondary))
  masks ← set_unchecked secondary_length m.secondary_masks i.primary secondary
  some (record {
    primary_mask =
        if secondary == 0
        then bit_and m.primary_mask (complement (bit i.primary))
        else m.primary_mask;
    secondary_masks = masks;
  })

-- The first test of `find_first`: the bits of the same secondary mask.
unfoldable pub find_same : BitMask → BitIndex → Option ℕ
unfolding get_unchecked
find_same m min_index =
    if bit_and m.primary_mask (bit min_index.primary) != 0
    then (do
      mask ← get_unchecked secondary_length m.secondary_masks min_index.primary
      some (lowest_set_bit_after mask min_index.secondary))
    else some u32_max

-- The second: the first nonempty secondary mask above.
unfoldable pub find_above : BitMask → BitIndex → Option (Option (ℕ × ℕ))
unfolding get_unchecked
find_above m min_index =
    let primary = lowest_set_bit_after m.primary_mask (min_index.primary + 1) in
    if primary == u32_max then some none else (do
      mask ← get_unchecked secondary_length m.secondary_masks primary
      some (some (primary, trailing_zeros 64 mask)))

abbrev found : ℕ → ℕ → BitIndex
found primary secondary = record {
  index = bit_or (shl primary 6) secondary;
  primary = primary;
  secondary = secondary;
}

found_above : BitMask → BitIndex → Option (Option BitIndex)
unfolding find_above
found_above m min_index = do
  above ← find_above m min_index
  some (elim above [ none ↦ none | some (p, s) ↦ some (found p s) ])

-- `BitMask::find_first`. The outer `none` is a read out of range, the inner one is the method's.
unfoldable pub find_first : BitMask → BitIndex → Option (Option BitIndex)
unfolding find_same found_above
find_first m min_index = do
  secondary ← find_same m min_index
  if secondary == u32_max
      then found_above m min_index
      else some (some (found min_index.primary secondary))
