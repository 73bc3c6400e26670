-- ===== src/Bins/Order.antt =====
-- How the bin numbers of src/allocator.rs order sizes: what makes a bin that was rounded up fit.
use native.Mathlib.Nat.{mul-le-mul_left, mul-le-mul_right, add-mul, mul_assoc}
use picoalloc.Base.{
  ℕ, zero, suc, ◌+◌, ◌*◌, ◌^◌, ◌≤◌, ◌<◌, Bool, true, false, ◌≡◌, refl, arith, pow-suc, dec_lt,
  ℕ_discrete, ap, leading_zeros,
}
use picoalloc.Bits.Fields.{two-pow-pos, two-pow_mono}
use picoalloc.Size.{Size, max_allocation_size}
use picoalloc.Bins.{to_bin_index_generic, to_bin_index, bin_config}
use picoalloc.Bins.Shape.{Shape, has-Shape, small_bin, carry}

module _ {k s : ℕ} (a : Shape k s) where
  succ_lead : (a.q + 1) * 2 ^ a.e ≡ a.q * 2 ^ a.e + 2 ^ a.e
  succ_lead = omega (arith, add-mul a.q 1 (2 ^ a.e))

  lower : 2 ^ k * 2 ^ a.e ≤ s
  lower = omega (arith, a.value, mul-le-mul_right (2 ^ a.e) a.lead)

  upper : s < 2 ^ k * 2 ^ suc a.e
  upper = omega (
    arith,
    a.value,
    a.low,
    succ_lead,
    lead_next,
    mul_assoc 2 (2 ^ k) (2 ^ a.e),
    ap (λ (t : ℕ). 2 ^ k * t) (pow-suc 2 a.e),
  )
    where
      lead_next : (a.q + 1) * 2 ^ a.e ≤ 2 * 2 ^ k * 2 ^ a.e
      lead_next =
          let next : a.q + 1 ≤ 2 * 2 ^ k = omega (arith, a.lead_lt) in
          mul-le-mul_right (2 ^ a.e) next

module _ (k : ℕ) {s c : ℕ} (a : Shape k s) (b : Shape k c) (s_le_c : s ≤ c) where
  exp_le : a.e ≤ b.e
  exp_le = elim (dec_lt b.e a.e) [
    | yes less ↦
        absurd (
          omega
            (arith, lower a, upper b, mul-le-mul_left (2 ^ k) (two-pow_mono (suc b.e) a.e less)))
    | no fine ↦ omega arith
  ]

  -- With equal exponents the leading parts are ordered, and the rounded ones too.
  lead_le : a.e ≡ b.e → (a.q ≤ b.q) × (a.q + carry a.r ≤ b.q + carry b.r)
  lead_le same = elim (dec_lt b.q a.q) [
    | yes less ↦ absurd (
        omega (
          arith,
          a.value,
          b.value,
          b.low,
          same_pow,
          succ_lead b,
          mul-le-mul_right (2 ^ b.e) (next less),
          ap (λ (t : ℕ). a.q * t) same_pow,
        ))
    | no fine ↦ elim (ℕ_discrete a.q b.q) [
      | yes equal ↦ ground (
        arith,
        a.value,
        b.value,
        same_pow,
        ap (λ (t : ℕ). a.q * t) same_pow,
        ap (λ (t : ℕ). t * 2 ^ b.e) equal,
      )
      | no less ↦ ground arith
    ]
  ]
    where
      same_pow : 2 ^ a.e ≡ 2 ^ b.e
      same_pow = ap (λ n. 2 ^ n) same

      next : b.q < a.q → b.q + 1 ≤ a.q
      next less = omega arith

  -- A step of the exponent outweighs any leading part.
  exp_step : a.e < b.e → a.e * 2 ^ k + 2 ^ k ≤ b.e * 2 ^ k
  exp_step less = omega (arith, add-mul a.e 1 (2 ^ k), mul-le-mul_right (2 ^ k) (next less))
    where
      next : a.e < b.e → a.e + 1 ≤ b.e
      next h = omega arith

  big_mono :
      (to_bin_index_generic k false s ≤ to_bin_index_generic k false c)
      × (to_bin_index_generic k true s ≤ to_bin_index_generic k true c)
  big_mono =
      rw (a.down, b.down, a.up, b.up)
        (elim (dec_lt a.e b.e) [
          | yes less ↦ ground (arith, exp_step less, a.lead_lt, b.lead)
          | no fine ↦
              let same : a.e ≡ b.e = omega (arith, exp_le) in
              ground (arith, lead_le same, ap (λ (t : ℕ). t * 2 ^ k) same)
        ])

  -- A larger size rounds up to a later bin than a smaller one rounds down to.
  big_strict : s < c → to_bin_index_generic k false s < to_bin_index_generic k true c
  big_strict less =
      rw (a.down, b.up)
        (elim (dec_lt a.e b.e) [
          | yes gap ↦ ground (arith, exp_step gap, a.lead_lt, b.lead, two-pow-pos k, a.lead)
          | no fine ↦
              let same : a.e ≡ b.e = omega (arith, exp_le) in
              ground (arith, lead_next same, ap (λ (t : ℕ). t * 2 ^ k) same, a.lead, two-pow-pos k)
        ])
    where
      lead_next : a.e ≡ b.e → a.q < b.q + carry b.r
      lead_next same = elim (ℕ_discrete a.q b.q) [
        | yes equal ↦ ground (
          arith,
          a.value,
          b.value,
          ap (λ n. 2 ^ n) same,
          ap (λ (t : ℕ). t * 2 ^ b.e) equal,
          ap (λ (t : ℕ). a.q * t) (ap (λ n. 2 ^ n) same),
        )
        | no less' ↦ ground (arith, lead_le same)
      ]

zero_bin : (k : ℕ) (up : Bool) → to_bin_index_generic k up 0 ≡ 0
unfolding to_bin_index_generic
zero_bin k up = refl

module _ (k s c : ℕ) (hs : s < 2 ^ 32) (hc : c < 2 ^ 32) where
  -- A size below `2 ^ k` has a lower bin than one from there on.
  small_below :
      (up up' : Bool)
      → 0 < s
      → s < 2 ^ k
      → (b : Shape k c) → to_bin_index_generic k up s < to_bin_index_generic k up' c
  small_below up true pos small b = rw (small_bin k up s pos small, b.up) (ground (arith, b.lead))
  small_below up false pos small b =
      rw (small_bin k up s pos small, b.down) (ground (arith, b.lead))

  mono_pos : (up : Bool) → 0 < s → s ≤ c → to_bin_index_generic k up s ≤ to_bin_index_generic k up c
  mono_pos up pos s_le_c = elim (dec_lt c (2 ^ k)) [
    | yes c_small ↦
        rw (small_bin k up s pos (omega arith), small_bin k up c (omega arith) c_small)
          (omega arith)
    | no c_big ↦
        let b = has-Shape k c hc (omega arith) in
        elim (dec_lt s (2 ^ k)) [
          | yes s_small ↦ omega (arith, small_below up up pos s_small b)
          | no s_big ↦ both up (has-Shape k s hs (omega arith)) b
        ]
  ]
    where
      both :
          (up : Bool)
          → Shape k s
          → Shape k c
          → to_bin_index_generic k up s ≤ to_bin_index_generic k up c
      both true a b = (big_mono k a b s_le_c).1
      both false a b = (big_mono k a b s_le_c).0

  strict_pos : 0 < s → s < c → to_bin_index_generic k false s < to_bin_index_generic k true c
  strict_pos pos less = elim (dec_lt c (2 ^ k)) [
    | yes c_small ↦
        rw (small_bin k false s pos (omega arith), small_bin k true c (omega arith) c_small)
          (omega arith)
    | no c_big ↦
        let b = has-Shape k c hc (omega arith) in
        elim (dec_lt s (2 ^ k)) [
          | yes s_small ↦ small_below false true pos s_small b
          | no s_big ↦ big_strict k (has-Shape k s hs (omega arith)) b (omega arith) less
        ]
  ]

-- Bin numbers grow with the size, with either rounding and any number of mantissa bits.
pub to_bin_index_generic_mono :
    (k s c : ℕ) (up : Bool)
    → c < 2 ^ 32
    → s ≤ c
    → to_bin_index_generic k up s ≤ to_bin_index_generic k up c
to_bin_index_generic_mono k zero c up hc s_le_c = rw (zero_bin k up) (omega arith)
to_bin_index_generic_mono k (suc s) c up hc s_le_c =
    mono_pos k (suc s) c (omega arith) hc up (omega arith) s_le_c

-- A chunk whose rounded-down bin is not below the rounded-up bin of a request is large enough for
-- it: this is why the first chunk of any bin from `size_to_bin_round_up` on fits.
pub fits_of_bin-le :
    (k request chunk : ℕ)
    → request < 2 ^ 32
    → 0 < chunk
    → chunk < 2 ^ 32
    → to_bin_index_generic k true request ≤ to_bin_index_generic k false chunk
    → request ≤ chunk
fits_of_bin-le k request chunk hr pos hc le = elim (dec_lt chunk request) [
  | yes too_small ↦ absurd (omega (arith, strict_pos k chunk request hc hr pos too_small))
  | no fits ↦ omega arith
]

-- Rounding up gives the rounded-down bin or the next one.
pub round_up_gap :
    (k size : ℕ)
    → size < 2 ^ 32
    → (to_bin_index_generic k false size ≤ to_bin_index_generic k true size)
      × (to_bin_index_generic k true size ≤ to_bin_index_generic k false size + 1)
round_up_gap k zero h = rw (zero_bin k true, zero_bin k false) (omega arith)
round_up_gap k (suc n) h = elim (dec_lt (suc n) (2 ^ k)) [
  | yes small ↦
      rw
        (
          small_bin k true (suc n) (omega arith) small,
          small_bin k false (suc n) (omega arith) small,
        )
        (omega arith)
  | no big ↦
      let a = has-Shape k (suc n) h (omega arith) in
      rw (a.up, a.down) (ground (arith, a.lead, two-pow-pos k))
]

top_bins :
    (to_bin_index true max_allocation_size ≡ 2431) × (to_bin_index false max_allocation_size ≡ 2431)
unfolding to_bin_index leading_zeros
top_bins = (refl, refl)

-- Every size up to `MAX_ALLOCATION_SIZE` has a bin below `BIN_CONFIG.bin_count`, either way.
pub to_bin_index-lt :
    (up : Bool) (size : Size)
    → size ≤ max_allocation_size
    → to_bin_index up size < bin_config.bin_count
unfolding to_bin_index
to_bin_index-lt true size h =
    omega
      (arith, to_bin_index_generic_mono 7 size max_allocation_size true (omega arith) h, top_bins)
to_bin_index-lt false size h =
    omega
      (arith, to_bin_index_generic_mono 7 size max_allocation_size false (omega arith) h, top_bins)
