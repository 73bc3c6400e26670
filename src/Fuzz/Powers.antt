-- ===== src/Fuzz/Powers.antt =====
-- The alignments of fuzz/fuzz_targets/allocator_buffer.rs.
use picoalloc.Base.{
  ℕ, zero, suc, ◌+◌, ◌^◌, ◌≤◌, ◌<◌, ◌≡◌, max, true, false, leb, arith, refl, ap, dec_lt,
}
use picoalloc.Bits.Fields.{two-pow-pos}
use picoalloc.Fuzz.{next_power_from, next_power_of_two}

-- The next power of two of a `u16` is a power of two up to 2 ^ 16.
next_power_from-eq :
    (fuel k n : ℕ) → k ≤ 16 → n ≤ 2 ^ 16 → (m : ℕ) × (m ≤ 16) × (next_power_from fuel k n ≡ 2 ^ m)
unfolding next_power_from
next_power_from-eq zero k n small le = (k, small, refl)
next_power_from-eq (suc fuel) k n small le = elim (dec_lt (2 ^ k) n) [
  | yes above ↦
      let test : leb n (2 ^ k) ≡ false = ground arith in
      rw test (next_power_from-eq fuel (k + 1) n (below above) le)
  | no within ↦ let test : leb n (2 ^ k) ≡ true = ground arith in rw test (k, small, refl)
]
  where
    below : 2 ^ k < n → k + 1 ≤ 16
    below above = elim (dec_lt k 16) [
      | yes lt ↦ omega arith
      | no ge ↦ let e : k ≡ 16 = omega arith in absurd (omega (arith, ap (λ x. 2 ^ x) e))
    ]

pub next_power_of_two-eq :
    (n : ℕ) → n < 2 ^ 16 → (m : ℕ) × (m ≤ 16) × (max 1 (next_power_of_two n) ≡ 2 ^ m)
next_power_of_two-eq n lt =
    let (m, small, e) = next_power_from-eq 64 0 n (omega arith) (omega (arith, lt)) in
    (m, small, omega (arith, e, two-pow-pos m))
