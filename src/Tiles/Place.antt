-- ===== src/Tiles/Place.antt =====
-- Where `alloc_impl` of src/allocator.rs places an allocation within a free chunk.
use native.Mathlib.Nat.{mul-mod_left, mul_assoc, div-add-mod'}
use picoalloc.Base.{
  ℕ, ◌+◌, ◌-◌, ◌*◌, ◌/◌, ◌%◌, ◌≤◌, ◌<◌, ◌^◌, ◌≡◌, ◌==◌, arith, if◌then◌else◌, refl, sym, ap, ◌∙◌,
}
use picoalloc.Size
use picoalloc.Size.{Size, bytes, align_offset, is_empty}
use picoalloc.Size.Align.{align_offset-aligned}
use picoalloc.Bits.Fields.{two-pow-pos}
use picoalloc.Chunk.{Pointer}
use picoalloc.Chunk.Laws.{unchecked_add-eq, bytes-eq}
use picoalloc.Allocator.Alloc.{layout, end_offset_for, free_space_behind}
use picoalloc.FreeList.Represents.{at}
use picoalloc.Tiles.Absorb.{offset-eq, size_sum-eq}

pub size_difference-eq : (a b : Size) → b ≤ a → a < 2 ^ 32 → Size.unchecked_sub a b ≡ a - b
unfolding Size.unchecked_sub
size_difference-eq a b le h = ground arith

-- `k` is the exponent of the alignment.
module _ (base : Pointer) (c size k r total : ℕ) (total_short : total < 2 ^ 27)
    (no_wrap : at base total < 2 ^ 64) (granular : base % 32 ≡ 0) (inside : c + size ≤ total)
    (hk : 2 ^ k ≤ 2 ^ 25) (small : k < 32) (room : r + 1 + (2 ^ k - 1) ≤ size) where
  abbrev pub d : ℕ
  d = align_offset (c + 1) (2 ^ k) base

  d_lem : (c + 1 ≤ d) × (d < c + 1 + 2 ^ k) × ((base / 32 + d) % 2 ^ k ≡ 0)
  d_lem = align_offset-aligned k (c + 1) base small (omega (arith, two-pow-pos k)) (omega arith)

  pub d_low : c + 1 ≤ d
  d_low = d_lem.0

  pub d_high : d + r ≤ c + size
  d_high = omega (arith, d_lem.1, two-pow-pos k)

  -- The data is aligned.
  pub data_aligned : at base d % bytes (2 ^ k) ≡ 0
  data_aligned =
      let unit : bytes (2 ^ k) ≡ 2 ^ k * 32 = bytes-eq (2 ^ k) (omega arith) in
      let whole : (base / 32 + d) / 2 ^ k * 2 ^ k ≡ base / 32 + d =
        omega (arith, d_lem.2, div-add-mod' (base / 32 + d) (2 ^ k)) in
      let address : at base d ≡ (base / 32 + d) / 2 ^ k * (2 ^ k * 32) =
        (omega arith)
        ∙ ap (λ n. n * 32) (sym whole)
        ∙ mul_assoc ((base / 32 + d) / 2 ^ k) (2 ^ k) 32 in
      ap (λ n. at base d % n) unit ∙ ap (λ n. n % (2 ^ k * 32)) address ∙ mul-mod_left _ _

  pub layout-eq : layout base (at base c) size (2 ^ k) r ≡ record {
    data_offset = d;
    allocation_chunk = at base (d - 1);
    free_space_lhs = d - 1 - c;
    free_space_rhs = c + size - (d + r);
    end_offset = if c + size - (d + r) == 0 then d + r else d + r + 1;
  }
  unfolding layout end_offset_for free_space_behind is_empty
  layout-eq =
      let short_c : c < 2 ^ 27 = omega (arith, d_low, d_high) in
      let lt1 = d_high in
      let lt2 = d_low in
      rw
        (
          offset-eq base c (omega arith) (omega arith),
          size_sum-eq c 1 (omega arith),
          size_difference-eq d 1 (omega arith) (omega arith),
          size_difference-eq (d - 1) c (omega arith) (omega arith),
          size_difference-eq size r (omega (arith, two-pow-pos k)) (omega arith),
          size_difference-eq (size - r) (d - 1 - c) (omega arith) (omega arith),
          size_difference-eq (size - r - (d - 1 - c)) 1 (omega arith) (omega arith),
          unchecked_add-eq base (d - 1) (omega arith) (omega arith),
          size_sum-eq d r (omega arith),
          size_sum-eq (d + r) 1 (omega arith),
          rest,
        )
        refl
    where
      rest : size - r - (d - 1 - c) - 1 ≡ c + size - (d + r)
      rest = omega (arith, d_low, d_high)

  -- The same, by the offset `h` of the header.
  pub layout-at :
      (h : ℕ)
      → d ≡ h + 1
      → layout base (at base c) size (2 ^ k) r ≡ record {
        data_offset = d;
        allocation_chunk = at base h;
        free_space_lhs = h - c;
        free_space_rhs = c + size - (h + 1 + r);
        end_offset = if c + size - (h + 1 + r) == 0 then h + 1 + r else h + 1 + r + 1;
      }
  layout-at h eq =
      let header : d - 1 ≡ h = omega arith in
      let end : d + r ≡ h + 1 + r = omega arith in rw (layout-eq, header, end) refl
