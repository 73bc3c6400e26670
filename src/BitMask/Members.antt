-- ===== src/BitMask/Members.antt =====
-- The bit mask of src/allocator.rs as a set of bin indices: `new`, `set` and `unset`.
use picoalloc.Base.{
  ℕ, ◌/◌, ◌%◌, ◌^◌, ◌<◌, bit_and, bit_or, Bool, false, not, ◌&&◌, ◌||◌, ◌==◌, ◌!=◌, ltb, ◌≡◌, arith,
  if◌then◌else◌, some, update, bit_and,
}
use picoalloc.Bits.Test.{test_bit, test_bit-zero, bit-ne-zero, bit_and-le, bit_or-lt}
use picoalloc.Bits.Fields.{bit_and-low}
use picoalloc.BitMask.{BitMask, bit, complement, secondary_length, new, index, set, unset}
use picoalloc.BitMask.Words.{bit-lt, test_bit-set, test_bit-clear}

-- Bin `j` is in the set.
unfoldable pub contains : BitMask → ℕ → Bool
contains m j = test_bit (m.secondary_masks (j / 64)) (j % 64)

-- The number of bits, `64 * SECONDARY_LENGTH`.
abbrev pub bit_count : ℕ
bit_count = 2432

-- The masks are 64-bit words, and bit `p` of the primary mask says that secondary mask `p` is not
-- empty.
pub record IsWf (m : BitMask) : Type 0 where
  pub primary_word : m.primary_mask < 2 ^ 64
  pub words : (p : ℕ) → m.secondary_masks p < 2 ^ 64
  pub summary :
      (p : ℕ) → test_bit m.primary_mask p ≡ (ltb p secondary_length && m.secondary_masks p != 0)

pub index_lem : (i : ℕ) → index i ≡ record { index = i; primary = i / 64; secondary = i % 64 }
unfolding index
index_lem i = ground (arith, bit_and-low 6 i)

pub new-IsWf : IsWf new
unfolding new
new-IsWf = record {
  primary_word = omega arith;
  words = λ p. omega arith;
  summary = λ p. ground (arith, test_bit-zero p);
}

pub new-contains : (j : ℕ) → contains new j ≡ false
unfolding new contains
new-contains j = test_bit-zero (j % 64)

module _ (m : BitMask) (wf : IsWf m) (i : ℕ) (h : i < bit_count) where
  abbrev word : ℕ
  word = m.secondary_masks (i / 64)

  abbrev with_bit : BitMask
  with_bit = record {
    primary_mask = bit_or m.primary_mask (bit (i / 64));
    secondary_masks = update m.secondary_masks (i / 64) (bit_or word (bit (i % 64)));
  }

  set-eq : set m (index i) ≡ some with_bit
  unfolding set
  set-eq = rw (index_lem i) (ground arith)

  with_bit-ne-zero : bit_or word (bit (i % 64)) ≡ 0 → ⊥
  with_bit-ne-zero = bit-ne-zero _ (i % 64) (ground (arith, test_bit-set word (i % 64) (i % 64)))

  with_bit-IsWf : IsWf with_bit
  with_bit-IsWf = record {
    primary_word = bit_or-lt 64 _ _ wf.primary_word (bit-lt _);
    words = λ p.
        ground
          (arith, wf.words p, bit_or-lt 64 word (bit (i % 64)), wf.words (i / 64), bit-lt (i % 64));
    summary =
        λ p. ground (arith, wf.summary p, test_bit-set m.primary_mask (i / 64) p, with_bit-ne-zero);
  }

  with_bit-contains : (j : ℕ) → contains with_bit j ≡ (i == j || contains m j)
  unfolding contains
  with_bit-contains j = ground (arith, test_bit-set word (i % 64) (j % 64))

  abbrev cleared : ℕ
  cleared = bit_and word (complement (bit (i % 64)))

  abbrev without_bit : BitMask
  without_bit = record {
    primary_mask =
        if cleared == 0 then bit_and m.primary_mask (complement (bit (i / 64))) else m.primary_mask;
    secondary_masks = update m.secondary_masks (i / 64) cleared;
  }

  unset-eq : unset m (index i) ≡ some without_bit
  unfolding unset
  unset-eq = rw (index_lem i) (ground arith)

  -- A word with another bit stays nonempty, and its bit of the primary mask was set.
  without_bit-IsWf : IsWf without_bit
  without_bit-IsWf = record {
    primary_word =
        ground (arith, wf.primary_word, bit_and-le 64 m.primary_mask (complement (bit (i / 64))));
    words = λ p.
        ground
          (arith, wf.words p, wf.words (i / 64), bit_and-le 64 word (complement (bit (i % 64))));
    summary = λ p. ground (
      arith,
      wf.summary p,
      wf.words (i / 64),
      wf.primary_word,
      bit_and-le 64 word (complement (bit (i % 64))),
      test_bit-clear m.primary_mask (i / 64) p,
    );
  }

  without_bit-contains : (j : ℕ) → contains without_bit j ≡ (not (i == j) && contains m j)
  unfolding contains
  without_bit-contains j = ground (arith, test_bit-clear word (i % 64) (j % 64), wf.words (i / 64))

-- Setting bit `i` of a well-formed mask, `i` in range, faults nowhere, keeps the mask well-formed,
-- adds `i` to the set and changes the membership of no other index.
pub set-contains :
    (m : BitMask) (i : ℕ)
    → IsWf m
    → i < bit_count
    → (m' : BitMask) × (set m (index i) ≡ some m')
      × IsWf m'
      × ((j : ℕ) → contains m' j ≡ (i == j || contains m j))
set-contains m i wf h =
    (with_bit m wf i h, set-eq m wf i h, with_bit-IsWf m wf i h, with_bit-contains m wf i h)

-- Clearing bit `i` of a well-formed mask, `i` in range, faults nowhere, keeps the mask well-formed
-- (the primary bit goes when the word becomes empty), removes `i` and nothing else.
pub unset-contains :
    (m : BitMask) (i : ℕ)
    → IsWf m
    → i < bit_count
    → (m' : BitMask) × (unset m (index i) ≡ some m')
      × IsWf m'
      × ((j : ℕ) → contains m' j ≡ (not (i == j) && contains m j))
unset-contains m i wf h = (
  without_bit m wf i h,
  unset-eq m wf i h,
  without_bit-IsWf m wf i h,
  without_bit-contains m wf i h,
)
