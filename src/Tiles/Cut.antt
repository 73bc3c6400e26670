-- ===== src/Tiles/Cut.antt =====
-- Cutting a chunk in two keeps the tiling of the address space of src/allocator.rs.
use picoalloc.Base.{
  ℕ, ◌+◌, ◌-◌, ◌≤◌, ◌<◌, ◌≡◌, ◌≢◌, Bool, true, false, arith, ℕ_discrete, subst, sym,
}
use picoalloc.Size.{Size}
use picoalloc.Tiles.{Tiles, IsTiled, IsCoalesced, cut}

module _ (total : Size) (t : Tiles) (tiled : IsTiled total t) (o a : ℕ) (front back : Bool)
    (from : t.starts o ≡ true) (low : o < a) (high : a < o + t.size o) where
  abbrev c : Tiles
  c = cut t o a front back

  abbrev e : ℕ
  e = o + t.size o

  -- A chunk of `t` but the one at `o` is as before.
  outside : (x : ℕ) → t.starts x ≡ true → x ≢ o → (x ≢ a) × (x + t.size x ≢ a)
  outside x h ne = (
    ground (arith, tiled.gap o x, tiled.gap x o),
    ground (arith, tiled.gap o x, tiled.gap x o, tiled.within x),
  )

  abbrev HasNext : ℕ → Type 0
  HasNext x =
      x + c.size x < total → (c.starts (x + c.size x) ≡ true) × (c.prev (x + c.size x) ≡ c.size x)

  next_o : HasNext o
  next_o lt = let eq : o + (a - o) ≡ a = omega arith in ground (arith, eq)

  next_a : HasNext a
  next_a lt = let eq : a + (e - a) ≡ e = omega arith in ground (arith, eq, tiled.next o)

  next_else : (x : ℕ) → t.starts x ≡ true → x ≢ o → HasNext x
  next_else x h ne lt =
      ground (arith, tiled.next x, tiled.within x, tiled.gap x o, tiled.gap o x, outside x)

  abbrev HasBefore : ℕ → Type 0
  HasBefore x =
      0 < x
      → (0 < c.prev x)
        × (c.prev x ≤ x)
        × (c.starts (x - c.prev x) ≡ true)
        × (c.size (x - c.prev x) ≡ c.prev x)

  before_a : HasBefore a
  before_a lt = let eq : a - (a - o) ≡ o = omega arith in ground (arith, eq)

  before_e : HasBefore e
  before_e lt = let eq : e - (e - a) ≡ a = omega arith in ground (arith, eq)

  before_else : (x : ℕ) → t.starts x ≡ true → x ≢ e → HasBefore x
  before_else x h ne lt =
      let not_o : x - t.prev x ≢ o = λ eq. ne (ground (arith, eq, tiled.before x)) in
      ground (arith, tiled.before x, not_o, outside x, outside (x - t.prev x))

  abbrev Ends : ℕ → ℕ → Type 0
  Ends x y = x < y → x + c.size x ≤ y

  gap_a : (y : ℕ) → t.starts y ≡ true → Ends a y
  gap_a y h lt = ground (arith, tiled.gap o y)

  gap_o : (y : ℕ) → c.starts y ≡ true → Ends o y
  gap_o y h lt = ground (arith, tiled.gap o y)

  gap_to_a : (x : ℕ) → t.starts x ≡ true → x ≢ o → Ends x a
  gap_to_a x h ne lt = ground (arith, tiled.gap x o, tiled.gap o x)

  gap_else : (x y : ℕ) → t.starts x ≡ true → t.starts y ≡ true → x ≢ o → Ends x y
  gap_else x y h h' ne lt = ground (arith, tiled.gap x y, outside x)

  module _ (P : ℕ → Type 0) where
    -- A property of the new chunks, by the chunk.
    by_chunk :
        P a → P o → ((x : ℕ) → t.starts x ≡ true → x ≢ o → P x) → (x : ℕ) → c.starts x ≡ true → P x
    by_chunk at_a at_o elsewhere x h = elim (ℕ_discrete x a) [
      | yes eq ↦ subst P (sym eq) at_a
      | no ne ↦ elim (ℕ_discrete x o) [
        | yes eq ↦ subst P (sym eq) at_o
        | no ne' ↦ elsewhere x (ground arith) ne'
      ]
    ]

    by_end :
        P a → P e → ((x : ℕ) → t.starts x ≡ true → x ≢ e → P x) → (x : ℕ) → c.starts x ≡ true → P x
    by_end at_a at_e elsewhere x h = elim (ℕ_discrete x a) [
      | yes eq ↦ subst P (sym eq) at_a
      | no ne ↦ elim (ℕ_discrete x e) [
        | yes eq ↦ subst P (sym eq) at_e
        | no ne' ↦ elsewhere x (ground arith) ne'
      ]
    ]

  gap_from : (x y : ℕ) → t.starts x ≡ true → x ≢ o → c.starts y ≡ true → Ends x y
  gap_from x y h ne h' = elim (ℕ_discrete y a) [
    | yes eq ↦ subst (Ends x) (sym eq) (gap_to_a x h ne)
    | no ne' ↦ gap_else x y h (ground arith) ne
  ]

  gap_from_a : (y : ℕ) → c.starts y ≡ true → Ends a y
  gap_from_a y h lt = gap_a y (ground arith) lt

  pub cut-IsTiled : IsTiled total c
  cut-IsTiled = record {
    origin = ground (arith, tiled.origin, tiled.within o);
    within = λ x h. ground (arith, tiled.within x, tiled.within o);
    next = by_chunk HasNext next_a next_o next_else;
    before = by_end HasBefore before_a before_e before_else;
    gap = λ x y h h'.
        by_chunk (λ z. Ends z y) (gap_from_a y h') (gap_o y h') (λ z g ne. gap_from z y g ne h') x
          h;
  }

  -- A free part has no free neighbour.
  unfoldable pub CutFits : Type 0
  CutFits =
      (front ≡ false → (back ≡ true) × (0 < o → t.used (o - t.prev o) ≡ true))
      × (back ≡ false → (front ≡ true) × (e < total → t.used e ≡ true))

  abbrev UsedBehind : ℕ → Type 0
  UsedBehind x = c.used x ≡ false → x + c.size x < total → c.used (x + c.size x) ≡ true

  abbrev UsedBefore : ℕ → Type 0
  UsedBefore x = c.used x ≡ false → 0 < x → c.used (x - c.prev x) ≡ true

  module _ (tight : IsCoalesced total t) (used : t.used o ≡ true) (fits : CutFits) where
    next_used_o : UsedBehind o
    unfolding CutFits
    next_used_o f lt = let eq : o + (a - o) ≡ a = omega arith in ground (arith, eq, fits)

    next_used_a : UsedBehind a
    unfolding CutFits
    next_used_a f lt = let eq : a + (e - a) ≡ e = omega arith in ground (arith, eq, fits)

    next_used_else : (x : ℕ) → t.starts x ≡ true → x ≢ o → UsedBehind x
    unfolding CutFits
    next_used_else x h ne f lt = elim (ℕ_discrete (x + t.size x) o) [
      | yes at_o ↦
          let back_to_x : o - t.size x ≡ x = omega arith in
          ground (arith, back_to_x, tight.next x, tiled.next x, tiled.within x, outside x, fits)
      | no elsewhere ↦ ground (arith, tight.next x, outside x)
    ]

    before_used_a : UsedBefore a
    unfolding CutFits
    before_used_a f lt = let eq : a - (a - o) ≡ o = omega arith in ground (arith, eq, fits)

    before_used_e : c.starts e ≡ true → UsedBefore e
    unfolding CutFits
    before_used_e h f lt =
        let eq : e - (e - a) ≡ a = omega arith in ground (arith, eq, fits, tiled.within e)

    before_used_else : (x : ℕ) → t.starts x ≡ true → x ≢ e → UsedBefore x
    unfolding CutFits
    before_used_else x h ne f lt =
        let not_o : x - t.prev x ≢ o = λ eq. ne (ground (arith, eq, tiled.before x)) in
        ground
          (arith, tight.before x, tiled.before x, not_o, outside x, outside (x - t.prev x), fits)

  pub cut-IsCoalesced : IsCoalesced total t → t.used o ≡ true → CutFits → IsCoalesced total c
  cut-IsCoalesced tight used fits = record {
    next =
        by_chunk UsedBehind (next_used_a tight used fits) (next_used_o tight used fits)
          (next_used_else tight used fits);
    before = λ x h.
        by_end (λ z. c.starts z ≡ true → UsedBefore z) (λ g. before_used_a tight used fits)
          (before_used_e tight used fits) (λ z g ne g'. before_used_else tight used fits z g ne) x h
          h;
  }
