-- ===== src/Size/Powers.antt =====
-- Alignments of src/allocator.rs in bytes and in granules.
use picoalloc.Base.{
  ℕ, zero, suc, ◌+◌, ◌-◌, ◌*◌, ◌/◌, ◌%◌, ◌^◌, ◌<◌, ◌≡◌, arith, ap, ◌∙◌, sym, subst, dec_lt, pow-suc,
}
use picoalloc.Bits.Fields.{two-pow-pos, two-pow_mono}
use picoalloc.Size.{bytes}
use picoalloc.Chunk.Laws.{bytes-eq}

-- In granules, an alignment below one is one.
shifted : (j : ℕ) → 2 ^ (j + 5) ≡ 2 ^ j * 32
shifted j =
    let e : j + 5 ≡ suc (suc (suc (suc (suc j)))) = omega arith in
    ap (λ x. 2 ^ x) e
    ∙ omega (
      arith,
      pow-suc 2 j,
      pow-suc 2 (suc j),
      pow-suc 2 (suc (suc j)),
      pow-suc 2 (suc (suc (suc j))),
      pow-suc 2 (suc (suc (suc (suc j)))),
    )

pub align_granules : (m : ℕ) → (2 ^ m + 31) / 32 ≡ 2 ^ (m - 5)
align_granules m = elim (dec_lt m 5) [
  | yes lt ↦
      let e : m - 5 ≡ 0 = omega arith in
      omega (arith, ap (λ x. 2 ^ x) e, two-pow-pos m, two-pow_mono m 4 (omega arith))
  | no ge ↦ let e : m - 5 + 5 ≡ m = omega arith in omega (arith, ap (λ x. 2 ^ x) e, shifted (m - 5))
]

granular : (m : ℕ) → m < 5 → (q : ℕ) → q * 32 % 2 ^ m ≡ 0
granular zero lt q = omega arith
granular (suc zero) lt q = omega arith
granular (suc (suc zero)) lt q = omega arith
granular (suc (suc (suc zero))) lt q = omega arith
granular (suc (suc (suc (suc zero)))) lt q = omega arith
granular (suc (suc (suc (suc (suc n))))) lt q = absurd (omega arith)

-- A pointer that is aligned in granules is aligned in bytes.
pub align-bytes :
    (m p : ℕ) → 2 ^ (m - 5) < 2 ^ 27 → p % 32 ≡ 0 → p % bytes (2 ^ (m - 5)) ≡ 0 → p % 2 ^ m ≡ 0
align-bytes m p small whole aligned = elim (dec_lt m 5) [
  | yes lt ↦
      let e : p / 32 * 32 ≡ p = omega (arith, whole) in
      ap (λ x. x % 2 ^ m) (sym e) ∙ granular m lt (p / 32)
  | no ge ↦
      let e : m - 5 + 5 ≡ m = omega arith in
      let unit : bytes (2 ^ (m - 5)) ≡ 2 ^ m =
        bytes-eq (2 ^ (m - 5)) small ∙ sym (shifted (m - 5)) ∙ ap (λ x. 2 ^ x) e in
      subst (λ x. p % x ≡ 0) unit aligned
]
