-- ===== src/Tiles/Merge.antt =====
-- Merging chunks keeps the tiling of the address space of src/allocator.rs.
use picoalloc.Base.{
  ℕ, ◌+◌, ◌-◌, ◌≤◌, ◌<◌, ◌≡◌, ◌⊎◌, inl, inr, Bool, true, false, ◌≢◌, arith, ℕ_discrete, subst, sym,
}
use picoalloc.Size.{Size}
use picoalloc.Tiles.{Tiles, IsTiled, IsCoalesced, merge}

-- A place where a chunk may end.
unfoldable pub Boundary : Size → Tiles → ℕ → Type 0
Boundary total t o = (o ≡ total) ⊎ (t.starts o ≡ true)

module _ (total : Size) (t : Tiles) (tiled : IsTiled total t) (lo hi : ℕ) (used : Bool)
    (from : t.starts lo ≡ true) (to : Boundary total t hi) (up : lo < hi) where
  pub hi_in : hi ≤ total
  unfolding Boundary
  hi_in = elim to [ inl e ↦ omega arith | inr e ↦ ground (arith, tiled.within hi e) ]

  -- No chunk of `t` straddles `hi`.
  not_across : (o : ℕ) → t.starts o ≡ true → o < hi → o + t.size o ≤ hi
  unfolding Boundary
  not_across o e lt = elim to [
    | inl at_end ↦ ground (arith, tiled.within o e)
    | inr starts ↦ tiled.gap o hi e starts lt
  ]

  abbrev merged : Tiles
  merged = merge t lo hi used

  next_lo : hi < total → (merged.starts hi ≡ true) × (merged.prev hi ≡ hi - lo)
  unfolding Boundary
  next_lo lt = elim to [ inl e ↦ absurd (omega arith) | inr e ↦ ground arith ]

  abbrev HasNext : ℕ → Type 0
  HasNext o =
      (merged.starts (o + merged.size o) ≡ true) × (merged.prev (o + merged.size o) ≡ merged.size o)

  next_at_lo : lo + merged.size lo < total → HasNext lo
  next_at_lo lt = let eq : lo + (hi - lo) ≡ hi = omega arith in ground (arith, eq, next_lo)

  next_elsewhere : (o : ℕ) → merged.starts o ≡ true → o ≢ lo → o + t.size o < total → HasNext o
  next_elsewhere o e ne lt = ground (arith, tiled.next o, tiled.gap o lo, tiled.within o)

  abbrev HasBefore : ℕ → Type 0
  HasBefore o =
      (0 < merged.prev o)
      × (merged.prev o ≤ o)
      × (merged.starts (o - merged.prev o) ≡ true)
      × (merged.size (o - merged.prev o) ≡ merged.prev o)

  before_hi : HasBefore hi
  before_hi = let eq : hi - (hi - lo) ≡ lo = omega arith in ground (arith, eq)

  before_elsewhere : (o : ℕ) → merged.starts o ≡ true → o ≢ hi → 0 < o → HasBefore o
  before_elsewhere o e ne lt =
      ground (arith, tiled.before o, tiled.gap o lo, not_across (o - t.prev o))

  pub merge-IsTiled : IsTiled total merged
  merge-IsTiled = record {
    origin = ground (arith, tiled.origin);
    within = λ o e. ground (arith, tiled.within o, hi_in);
    next = λ o e lt. elim (ℕ_discrete o lo) [
      | yes eq ↦ subst HasNext (sym eq) (next_at_lo (subst (λ x. x + merged.size x < total) eq lt))
      | no ne ↦ next_elsewhere o e ne (ground arith)
    ];
    before = λ o e lt. elim (ℕ_discrete o hi) [
      | yes eq ↦ subst HasBefore (sym eq) before_hi
      | no ne ↦ before_elsewhere o e ne lt
    ];
    gap = λ o q e e' lt. ground (arith, tiled.gap o q);
  }

  -- The merged chunk is allocated, or has no free neighbour.
  unfoldable pub Fits : Type 0
  Fits =
      (used ≡ false) → ((0 < lo → t.used (lo - t.prev lo) ≡ true) × (hi < total → t.used hi ≡ true))

  abbrev NextUsed : ℕ → Type 0
  NextUsed o =
      merged.used o ≡ false → o + merged.size o < total → merged.used (o + merged.size o) ≡ true

  abbrev BeforeUsed : ℕ → Type 0
  BeforeUsed o = merged.used o ≡ false → 0 < o → merged.used (o - merged.prev o) ≡ true

  module _ (tight : IsCoalesced total t) (fits : Fits) where
    used_behind_lo : NextUsed lo
    unfolding Fits
    used_behind_lo free lt = let eq : lo + (hi - lo) ≡ hi = omega arith in ground (arith, eq, fits)

    used_behind : (o : ℕ) → merged.starts o ≡ true → o ≢ lo → NextUsed o
    unfolding Fits
    used_behind o e ne free lt = elim (ℕ_discrete (o + t.size o) lo) [
      | yes at_lo ↦
          let eq : lo - t.size o ≡ o = omega arith in
          ground (arith, eq, tight.next o, tiled.next o, tiled.within o, fits)
      | no elsewhere ↦ ground (arith, tight.next o)
    ]

    used_before_hi : merged.starts hi ≡ true → BeforeUsed hi
    unfolding Fits
    used_before_hi e free lt =
        let eq : hi - (hi - lo) ≡ lo = omega arith in ground (arith, eq, fits, tiled.within hi)

    used_before : (o : ℕ) → merged.starts o ≡ true → o ≢ hi → BeforeUsed o
    unfolding Fits
    used_before o e ne free lt =
        ground (arith, tight.before o, tiled.before o, not_across (o - t.prev o), fits)

  pub merge-IsCoalesced : IsCoalesced total t → Fits → IsCoalesced total merged
  merge-IsCoalesced tight fits = record {
    next = λ o e free lt. elim (ℕ_discrete o lo) [
      | yes eq ↦ subst NextUsed (sym eq) (used_behind_lo tight fits) free lt
      | no ne ↦ used_behind tight fits o e ne free lt
    ];
    before = λ o e free lt. elim (ℕ_discrete o hi) [
      | yes eq ↦
          subst (λ x. merged.starts x ≡ true → BeforeUsed x) (sym eq) (used_before_hi tight fits) e
            free lt
      | no ne ↦ used_before tight fits o e ne free lt
    ];
  }
