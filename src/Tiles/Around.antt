-- ===== src/Tiles/Around.antt =====
-- Freeing a chunk and merging it with its free neighbours keeps the space tiled, and leaves no two
-- free neighbours.
use picoalloc.Base.{
  ℕ, ◌+◌, ◌-◌, ◌≤◌, ◌<◌, ◌≡◌, Bool, true, false, arith, refl, inl, inr, dec_lt, ◌⊎◌, sym, subst,
}
use picoalloc.Size.{Size}
use picoalloc.Tiles.{Tiles, IsTiled, IsCoalesced, free_from, free_to, freed}
use picoalloc.Tiles.Merge.{Boundary, Fits, merge-IsTiled, merge-IsCoalesced}

module _ (total : Size) (t : Tiles) (tiled : IsTiled total t) where
  pub chunk_end : (o : ℕ) → t.starts o ≡ true → Boundary total t (o + t.size o)
  unfolding Boundary
  chunk_end o h = elim (dec_lt (o + t.size o) total) [
    | yes lt ↦ inr (tiled.next o h lt).0
    | no at_end ↦ inl (omega (arith, tiled.within o h))
  ]

  pub free_from-starts :
      (o : ℕ) → t.starts o ≡ true → (t.starts (free_from t o) ≡ true) × (free_from t o ≤ o)
  unfolding free_from
  free_from-starts o h = ground (arith, tiled.before o h)

  abbrev FromCases : ℕ → Type 0
  FromCases o =
      ((free_from t o ≡ o) × (0 < o → t.used (o - t.prev o) ≡ true))
      ⊎ ((free_from t o ≡ o - t.prev o) × (0 < o) × (t.used (o - t.prev o) ≡ false))

  from_by : (o : ℕ) (b : Bool) → t.used (o - t.prev o) ≡ b → FromCases o
  unfolding free_from
  from_by o true e = inl (ground arith, λ pos. e)
  from_by o false e = elim (dec_lt 0 o) [
    | yes pos ↦ inr (ground arith, pos, e)
    | no at_0 ↦ inl (ground arith, λ pos. absurd (at_0 pos))
  ]

  abbrev ToCases : ℕ → Type 0
  ToCases n =
      ((free_to total t n ≡ n) × (n < total → t.used n ≡ true))
      ⊎ ((free_to total t n ≡ n + t.size n) × (n < total) × (t.used n ≡ false))

  to_by : (n : ℕ) (b : Bool) → t.used n ≡ b → ToCases n
  unfolding free_to
  to_by n true e = inl (ground arith, λ lt. e)
  to_by n false e = elim (dec_lt n total) [
    | yes lt ↦ inr (ground arith, lt, e)
    | no at_end ↦ inl (ground arith, λ lt. absurd (at_end lt))
  ]

  starts_inside : (n : ℕ) → Boundary total t n → n < total → t.starts n ≡ true
  unfolding Boundary
  starts_inside n to lt = elim to [ inl e ↦ absurd (omega arith) | inr h ↦ h ]

  pub free_to-Boundary :
      (n : ℕ) → Boundary total t n → Boundary total t (free_to total t n) × (n ≤ free_to total t n)
  free_to-Boundary n to = elim (to_by n (t.used n) refl) [
    | inl (e, f) ↦ (subst (Boundary total t) (sym e) to, omega (arith, e))
    | inr (e, lt, f) ↦
        (subst (Boundary total t) (sym e) (chunk_end n (starts_inside n to lt)), omega (arith, e))
  ]

  module _ (o : ℕ) (h : t.starts o ≡ true) where
    abbrev lo : ℕ
    lo = free_from t o

    abbrev n : ℕ
    n = o + t.size o

    abbrev hi : ℕ
    hi = free_to total t n

    pub from : t.starts lo ≡ true
    from = (free_from-starts o h).0

    pub to : Boundary total t hi
    to = (free_to-Boundary n (chunk_end o h)).0

    pub up : lo < hi
    up =
        omega (
          arith,
          (free_from-starts o h).1,
          (free_to-Boundary n (chunk_end o h)).1,
          tiled.within o h,
        )

    pub freed-IsTiled : IsTiled total (freed total t o)
    unfolding freed
    freed-IsTiled = merge-IsTiled total t tiled lo hi false from to up

    free_before : IsCoalesced total t → 0 < lo → t.used (lo - t.prev lo) ≡ true
    free_before tight pos = elim (from_by o (t.used (o - t.prev o)) refl) [
      | inl (e, f) ↦ subst (λ x. 0 < x → t.used (x - t.prev x) ≡ true) (sym e) f pos
      | inr (e, lt, f) ↦
          subst (λ x. 0 < x → t.used (x - t.prev x) ≡ true) (sym e)
            (tight.before (o - t.prev o) (tiled.before o h lt).2 f) pos
    ]

    pub free_behind : IsCoalesced total t → hi < total → t.used hi ≡ true
    free_behind tight lt = elim (to_by n (t.used n) refl) [
      | inl (e, f) ↦ subst (λ x. x < total → t.used x ≡ true) (sym e) f lt
      | inr (e, below, f) ↦
          subst (λ x. x < total → t.used x ≡ true) (sym e)
            (tight.next n (starts_inside n (chunk_end o h) below) f) lt
    ]

    pub freed-IsCoalesced : IsCoalesced total t → IsCoalesced total (freed total t o)
    unfolding freed Fits
    freed-IsCoalesced tight =
        merge-IsCoalesced total t tiled lo hi false from to up tight
          (λ e. (free_before tight, free_behind tight))
