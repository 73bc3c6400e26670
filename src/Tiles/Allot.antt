-- ===== src/Tiles/Allot.antt =====
-- Cutting an allocation out of a free chunk, as a step of the tiling.
use picoalloc.Base.{
  ℕ, ◌+◌, ◌-◌, ◌≤◌, ◌<◌, ◌≡◌, true, false, arith, ltb, ◌==◌, if◌then◌else◌, dec_lt,
}
use picoalloc.Size.{Size}
use picoalloc.Tiles.{
  Tiles, IsTiled, IsCoalesced, cut, claimed, cut_before, cut_behind, allotted, placed, placed_free,
  Same,
}
use picoalloc.Tiles.Cut.{cut-IsTiled, cut-IsCoalesced, CutFits}
use picoalloc.Tiles.Settle.{linked_behind}

module _ (total : Size) (t : Tiles) (tiled : IsTiled total t) (tight : IsCoalesced total t)
    (c h n : ℕ) (from : t.starts c ≡ true) (unused : t.used c ≡ false) (low : c ≤ h)
    (some_size : h < n) (high : n ≤ c + t.size c) where
  abbrev e : ℕ
  e = c + t.size c

  abbrev t0 : Tiles
  t0 = claimed t c

  t0-IsTiled : IsTiled total t0
  t0-IsTiled = record {
    origin = tiled.origin;
    within = tiled.within;
    next = tiled.next;
    before = tiled.before;
    gap = tiled.gap;
  }

  t0-IsCoalesced : IsCoalesced total t0
  t0-IsCoalesced = record {
    next = λ o g f lt. ground (arith, tight.next o);
    before = λ o g f lt. ground (arith, tight.before o);
  }

  abbrev t1 : Tiles
  t1 = cut_before t0 c h

  -- What the first cut leaves at `h`.
  record IsCutBefore (m : Tiles) : Type 0 where
    is_tiled : IsTiled total m
    is_tight : IsCoalesced total m
    starts : m.starts h ≡ true
    used : m.used h ≡ true
    size : m.size h ≡ e - h
    behind : e < total → m.used e ≡ true

  middle_cut : c < h → IsCutBefore (cut t0 c h false true)
  unfolding CutFits
  middle_cut lt =
      let inside : h < c + t0.size c = omega arith in
      record {
        is_tiled = cut-IsTiled total t0 t0-IsTiled c h false true from lt inside;
        is_tight =
            cut-IsCoalesced total t0 t0-IsTiled c h false true from lt inside t0-IsCoalesced
              (ground arith) (ground (arith, tight.before c, tiled.before c), ground arith);
        starts = ground arith;
        used = ground arith;
        size = ground arith;
        behind = λ lt'. ground (arith, tight.next c);
      }

  middle_same : c ≡ h → IsCutBefore t0
  middle_same eq = record {
    is_tiled = t0-IsTiled;
    is_tight = t0-IsCoalesced;
    starts = ground arith;
    used = ground arith;
    size = ground arith;
    behind = λ lt'. ground (arith, tight.next c, tiled.within c);
  }

  middle : IsCutBefore t1
  middle = elim (dec_lt c h) [
    | yes lt ↦ let on : ltb c h ≡ true = ground arith in rw on (middle_cut lt)
    | no ge ↦ let off : ltb c h ≡ false = ground arith in rw off (middle_same (omega arith))
  ]

  -- The second cut.
  record IsCutBehind (m : Tiles) : Type 0 where
    is_tiled : IsTiled total m
    is_tight : IsCoalesced total m

  last_cut : (m : Tiles) → IsCutBefore m → n < e → IsCutBehind (cut m h n true false)
  unfolding CutFits
  last_cut m middle lt =
      let end : h + m.size h ≡ e = ground (arith, middle.size) in
      let inside : n < h + m.size h = omega arith in
      record {
        is_tiled =
            cut-IsTiled total m middle.is_tiled h n true false middle.starts some_size inside;
        is_tight =
            cut-IsCoalesced total m middle.is_tiled h n true false middle.starts some_size inside
              middle.is_tight middle.used (ground arith, ground (arith, end, middle.behind));
      }

  last : (m : Tiles) → IsCutBefore m → IsCutBehind (cut_behind m h n)
  last m middle =
      let end : h + m.size h ≡ e = ground (arith, middle.size) in
      elim (dec_lt n e) [
        | yes lt ↦
            let on : ltb n (h + m.size h) ≡ true = ground (arith, end) in
            rw on (last_cut m middle lt)
        | no ge ↦
            let off : ltb n (h + m.size h) ≡ false = ground (arith, end) in
            rw off (record { is_tiled = middle.is_tiled; is_tight = middle.is_tight })
      ]

  pub allotted-IsTiled : IsTiled total (allotted t c h n)
  unfolding allotted
  allotted-IsTiled = (last t1 middle).is_tiled

  pub allotted-IsCoalesced : IsCoalesced total (allotted t c h n)
  unfolding allotted
  allotted-IsCoalesced = (last t1 middle).is_tight

  -- What the code writes down.
  abbrev prev_of_h : Size
  prev_of_h = if h - c == 0 then t.prev c else h - c

  abbrev prev_of_e : Size
  prev_of_e = if e - n == 0 then n - h else e - n

  abbrev pub written : Tiles
  written =
      linked_behind
        (placed_free (placed (placed_free t c (t.prev c) (h - c)) h prev_of_h (n - h) true) n
          (n - h) (e - n))
        e prev_of_e

  abbrev first_cut : Tiles
  first_cut = cut t0 c h false true

  module _ (x : ℕ) where
    both : c < h → n < e → Same written (allotted t c h n) x
    unfolding allotted
    both lt lt' =
        let on : ltb c h ≡ true = ground arith in
        let lhs : (h - c == 0) ≡ false = ground arith in
        let rhs : (e - n == 0) ≡ false = ground arith in
        let end : h + first_cut.size h ≡ e = ground arith in
        let inner : ltb n e ≡ true = ground arith in
        rw (on, lhs, rhs, end, inner) (ground (arith, tiled.next c, tiled.within e))

    left : c < h → (n < e → ⊥) → Same written (allotted t c h n) x
    unfolding allotted
    left lt ge' =
        let on : ltb c h ≡ true = ground arith in
        let lhs : (h - c == 0) ≡ false = ground arith in
        let rhs : (e - n == 0) ≡ true = ground arith in
        let end : h + first_cut.size h ≡ e = ground arith in
        let inner : ltb n e ≡ false = ground arith in
        rw (on, lhs, rhs, end, inner) (ground (arith, tiled.next c, tiled.within e))

    right : c ≡ h → n < e → Same written (allotted t c h n) x
    unfolding allotted
    right eq lt' =
        let off : ltb c h ≡ false = ground arith in
        let lhs : (h - c == 0) ≡ true = ground arith in
        let rhs : (e - n == 0) ≡ false = ground arith in
        let end : h + t.size h ≡ e = ground arith in
        let inner : ltb n e ≡ true = ground arith in
        rw (off, lhs, rhs, end, inner) (ground (arith, tiled.next c, tiled.within e))

    neither : c ≡ h → n ≡ e → Same written (allotted t c h n) x
    unfolding allotted
    neither eq eq' =
        let off : ltb c h ≡ false = ground arith in
        let lhs : (h - c == 0) ≡ true = ground arith in
        let rhs : (e - n == 0) ≡ true = ground arith in
        let end : h + t.size h ≡ e = ground arith in
        let inner : ltb n e ≡ false = ground arith in
        rw (off, lhs, rhs, end, inner) (ground (arith, tiled.next c, tiled.within e))

  pub written-allotted : (x : ℕ) → Same written (allotted t c h n) x
  written-allotted x = elim (dec_lt c h) [
    | yes lt ↦ elim (dec_lt n e) [ yes lt' ↦ both x lt lt' | no ge' ↦ left x lt ge' ]
    | no ge ↦ elim (dec_lt n e) [
      | yes lt' ↦ right x (omega arith) lt'
      | no ge' ↦ neither x (omega arith) (omega arith)
    ]
  ]
