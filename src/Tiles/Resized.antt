-- ===== src/Tiles/Resized.antt =====
-- Shrinking and growing an allocation as steps of the tiling.
use picoalloc.Base.{
  ℕ, ◌+◌, ◌-◌, ◌≤◌, ◌<◌, ◌≡◌, true, false, ◌==◌, ltb, update, arith, if◌then◌else◌, refl, inl, inr,
  some, dec_lt,
}
use picoalloc.Size.{Size}
use picoalloc.Tiles.{
  Tiles, IsTiled, IsCoalesced, Covers, merge, cut, free_to, shrunk, grown, allocation, resized,
  placed, placed_free,
}
use picoalloc.Tiles.Merge.{Boundary, Fits, merge-IsTiled, merge-IsCoalesced}
use picoalloc.Tiles.Cut.{cut-IsTiled, cut-IsCoalesced, CutFits}
use picoalloc.Tiles.Around.{chunk_end, free_to-Boundary, free_behind}
use picoalloc.Tiles.Settle.{linked_behind}

module _ (total : Size) (t : Tiles) (tiled : IsTiled total t) (tight : IsCoalesced total t) (o : ℕ)
    (on : t.starts o ≡ true) (used : t.used o ≡ true) where
  abbrev n : ℕ
  n = o + t.size o

  module _ (a : ℕ) (low : o < a) (high : a < n) where
    abbrev hi : ℕ
    hi = free_to total t n

    abbrev c : Tiles
    c = cut t o a true true

    c-IsTiled : IsTiled total c
    c-IsTiled = cut-IsTiled total t tiled o a true true on low high

    c-IsCoalesced : IsCoalesced total c
    unfolding CutFits
    c-IsCoalesced =
        cut-IsCoalesced total t tiled o a true true on low high tight used
          (ground arith, ground arith)

    end_of_c : Boundary total c hi
    unfolding Boundary
    end_of_c = elim (free_to-Boundary total t tiled n (chunk_end total t tiled o on)).0 [
      | inl e ↦ inl e
      | inr e ↦ inr (ground (arith, e))
    ]

    up : a < hi
    up = omega (arith, (free_to-Boundary total t tiled n (chunk_end total t tiled o on)).1)

    pub shrunk-IsTiled : IsTiled total (shrunk total t o a)
    unfolding shrunk
    shrunk-IsTiled = merge-IsTiled total c c-IsTiled a hi false (ground arith) end_of_c up

    used_before : 0 < a → c.used (a - c.prev a) ≡ true
    used_before pos = let eq : a - (a - o) ≡ o = omega arith in ground (arith, eq)

    used_behind : hi < total → c.used hi ≡ true
    used_behind lt = ground (arith, free_behind total t tiled o on tight lt, up)

    pub shrunk-IsCoalesced : IsCoalesced total (shrunk total t o a)
    unfolding shrunk Fits
    shrunk-IsCoalesced =
        merge-IsCoalesced total c c-IsTiled a hi false (ground arith) end_of_c up c-IsCoalesced
          (λ e. (used_before, used_behind))

    -- What the code writes down.
    abbrev pub shrunk_headers : Tiles
    shrunk_headers =
        linked_behind (placed (resized t o (a - o)) a (a - o) (hi - a) false) hi (hi - a)

    pub shrunk-Covers : (x : ℕ) → Covers shrunk_headers (shrunk total t o a) x
    unfolding shrunk free_to
    shrunk-Covers x h =
        ground (arith, tiled.next o, tiled.gap n x, tiled.gap o x, tiled.within x, tiled.within o)

    pub allocation-shrunk :
        (x : ℕ) → allocation (shrunk total t o a) x ≡ update (allocation t) o (some (a - o)) x
    unfolding shrunk free_to
    allocation-shrunk x =
        ground (arith, tiled.next o, tiled.gap n x, tiled.gap o x, tiled.within x, tiled.within o)

  -- Growth takes from the free chunk behind.
  module _ (lt : n < total) (unused : t.used n ≡ false) (a : ℕ) (low : n < a)
      (high : a ≤ n + t.size n) where
    abbrev e : ℕ
    e = n + t.size n

    n_on : t.starts n ≡ true
    n_on = (tiled.next o on lt).0

    abbrev m : Tiles
    m = merge t o e true

    end_of_m : Boundary total t e
    end_of_m = chunk_end total t tiled n n_on

    o-lt-e : o < e
    o-lt-e = omega (arith, low, high)

    m-IsTiled : IsTiled total m
    m-IsTiled = merge-IsTiled total t tiled o e true on end_of_m o-lt-e

    m-IsCoalesced : IsCoalesced total m
    unfolding Fits
    m-IsCoalesced =
        merge-IsCoalesced total t tiled o e true on end_of_m o-lt-e tight
          (λ f. absurd (ground arith))

    m_end : o + m.size o ≡ e
    m_end = ground (arith, o-lt-e)

    m_on : m.starts o ≡ true
    m_on = ground arith

    m_used : m.used o ≡ true
    m_used = ground arith

    abbrev Laws : Tiles → Type 0
    Laws g = IsTiled total g × IsCoalesced total g

    cut_fits : a < e → Laws (cut m o a true false)
    unfolding CutFits
    cut_fits inside =
        let inside' : a < o + m.size o = omega (arith, m_end) in
        (
          cut-IsTiled total m m-IsTiled o a true false m_on (omega (arith, low)) inside',
          cut-IsCoalesced total m m-IsTiled o a true false m_on (omega (arith, low)) inside'
              m-IsCoalesced m_used
              (ground arith, λ f. (refl, λ lt'. ground (arith, m_end, tight.next n n_on))),
        )

    -- What holds of each form that `grown` may have.
    pub grown_cases :
        (P : Tiles → Type 0) → (a < e → P (cut m o a true false)) → (a ≡ e → P m) → P (grown t o a)
    unfolding grown
    grown_cases P on_cut on_all = elim (dec_lt a e) [
      | yes inside ↦
          let test : ltb a (o + m.size o) ≡ true = ground (arith, m_end) in rw test (on_cut inside)
      | no at_end ↦
          let test : ltb a (o + m.size o) ≡ false = ground (arith, m_end) in
          rw test (on_all (omega arith))
    ]

    both_hold : Laws (grown t o a)
    both_hold = grown_cases Laws cut_fits (λ eq. (m-IsTiled, m-IsCoalesced))

    pub grown-IsTiled : IsTiled total (grown t o a)
    grown-IsTiled = both_hold.0

    pub grown-IsCoalesced : IsCoalesced total (grown t o a)
    grown-IsCoalesced = both_hold.1

    abbrev pub grown_headers : Tiles
    grown_headers =
        linked_behind (placed_free (resized t o (a - o)) a (a - o) (e - a)) e
          (if e - a == 0 then a - o else e - a)

    cut-Covers : a < e → (x : ℕ) → Covers grown_headers (cut m o a true false) x
    cut-Covers inside x h =
        let rhs : (e - a == 0) ≡ false = ground arith in
        rw (m_end, rhs)
          (ground (arith, m_end, tiled.next n, tiled.gap n x, tiled.gap o x, tiled.within x))

    all-Covers : a ≡ e → (x : ℕ) → Covers grown_headers m x
    all-Covers eq x h =
        let rhs : (e - a == 0) ≡ true = ground arith in
        rw rhs (ground (arith, m_end, tiled.next n, tiled.gap n x, tiled.gap o x, tiled.within x))

    pub grown-Covers : (x : ℕ) → Covers grown_headers (grown t o a) x
    grown-Covers x =
        grown_cases (λ g. Covers grown_headers g x) (λ lt'. cut-Covers lt' x)
          (λ eq. all-Covers eq x)

    abbrev Map : ℕ → Tiles → Type 0
    Map x g = allocation g x ≡ update (allocation t) o (some (a - o)) x

    pub allocation-grown : (x : ℕ) → Map x (grown t o a)
    allocation-grown x =
        grown_cases (Map x) (λ inside. ground (arith, n_on, tiled.gap n x, tiled.gap o x))
          (λ eq. ground (arith, n_on, tiled.gap n x, tiled.gap o x))
