-- ===== src/Tiles/Allocations.antt =====
-- What the steps of the tiling do to the map of allocations.
use picoalloc.Base.{
  Bool, refl, ℕ, ◌+◌, ◌-◌, ◌≤◌, ◌<◌, ◌≡◌, ◌≢◌, true, false, update, arith, none, some, sym, ◌∙◌,
}
use picoalloc.Size.{Size}
use picoalloc.Tiles.{
  Tiles, IsTiled, IsCoalesced, Same, free_from, free_to, freed, allotted, allocation,
}
use picoalloc.Tiles.Allot.{written, written-allotted}

-- Freeing the chunk at `o` takes it out of the map, and nothing else.
pub allocation-freed :
    (total : Size) (t : Tiles) (o : ℕ)
    → IsTiled total t
    → t.starts o ≡ true
    → t.used o ≡ true
    → (x : ℕ) → allocation (freed total t o) x ≡ update (allocation t) o none x
unfolding freed free_from free_to
allocation-freed total t o tiled h used x = ground (
  arith,
  tiled.gap o x,
  tiled.gap x o,
  tiled.gap (o + t.size o) x,
  tiled.gap x (o + t.size o),
  tiled.gap (o - t.prev o) x,
  tiled.before o,
  tiled.next o,
  tiled.within o,
  tiled.within x,
)

-- An allocation enters the map.
pub allocation-allotted :
    (total : Size) (t : Tiles) (c h n : ℕ)
    → IsTiled total t
    → IsCoalesced total t
    → t.starts c ≡ true
    → t.used c ≡ false
    → c ≤ h
    → h < n
    → n ≤ c + t.size c
    → (x : ℕ) → allocation (allotted t c h n) x ≡ update (allocation t) h (some (n - h)) x
allocation-allotted total t c h n tiled tight from unused low some_size high x =
    sym (
      same_allocation (written total t tiled tight c h n from unused low some_size high)
        (allotted t c h n)
        (written-allotted total t tiled tight c h n from unused low some_size high x))
    ∙ ground (arith, tiled.gap c x)
  where
    same_allocation : (a b : Tiles) → Same a b x → allocation a x ≡ allocation b x
    same_allocation a b same = ground (arith, same)

-- What an entry of the map says.
pub allocation-some :
    (t : Tiles) (x z : ℕ)
    → allocation t x ≡ some z
    → (t.starts x ≡ true) × (t.used x ≡ true) × (t.size x ≡ z)
allocation-some t x z e = by_use (t.starts x) (t.used x) refl refl
  where
    by_use :
        (a b : Bool)
        → t.starts x ≡ a
        → t.used x ≡ b
        → (t.starts x ≡ true) × (t.used x ≡ true) × (t.size x ≡ z)
    by_use true true on used = (on, used, ground (arith, e, on, used))
    by_use true false on used = absurd (ground (arith, e, on, used))
    by_use false b on used = absurd (ground (arith, e, on))

-- No header stands within the data of an allocation.
pub data-apart :
    {total : Size} {t : Tiles}
    → IsTiled total t
    → (o z : ℕ) → allocation t o ≡ some z
    → (i : ℕ) → i + 1 < z
    → (x : ℕ) → t.starts x ≡ true
    → x ≢ o + 1 + i
data-apart {total} {t} tiled o z e i lt x on eq =
    let (on_o, used_o, size_o) = allocation-some t o z e in
    omega (arith, eq, lt, size_o, tiled.gap o x on_o on (omega (arith, eq)))
