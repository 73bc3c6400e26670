-- ===== src/Tiles/Move.antt =====
-- The end of `realloc` in src/allocator.rs: a new allocation, a copy, and the release of the old one.
use picoalloc.Base.{
  ℕ, ◌+◌, ◌-◌, ◌*◌, ◌%◌, ◌≤◌, ◌<◌, ◌≡◌, ◌≢◌, ◌⊎◌, inl, inr, true, false, ◌&&◌, ltb, leb, arith,
  if◌then◌else◌, refl, sym, ap, ◌∙◌, subst, update, Option, none, some,
}
use picoalloc.Size.{Size, bytes}
use picoalloc.Chunk.{Pointer, zero_granule}
use picoalloc.Chunk.Laws.{bytes-eq}
use picoalloc.Env.{Env, KeepsTotal}
use picoalloc.Machine.{State, Outcome, ok, copy_nonoverlapping}
use picoalloc.Allocator.Alloc.{alloc, alloc_impl}
use picoalloc.Allocator.Free.{free}
use picoalloc.Allocator.Resize.{move_to_new}
use picoalloc.FreeList.{Lists}
use picoalloc.FreeList.Represents.{at}
use picoalloc.Tiles.{Tiles, allotted, freed, allocation}
use picoalloc.Tiles.Holds.{Holds}
use picoalloc.Tiles.Outcome.{Allocated, Declined, covers}
use picoalloc.Tiles.Allocations.{allocation-some, allocation-freed}
use picoalloc.Tiles.Allocate.{alloc_impl-Holds}
use picoalloc.Tiles.Expand.{filled-Holds}
use picoalloc.Tiles.Free.{free-Holds}

-- The data of the allocation at `o` stands in a new one of `size` granules at `h`, and `o` is free.
pub record Moved {E : Type 0} (env : Env E) (total : Size) (s : State E) (t : Tiles) (o : ℕ)
    (align size : Size) (result : Outcome E (Option Pointer)) : Type 0 where
  pub h : ℕ
  pub chunks : Tiles
  pub s' : State E
  pub l' : Lists
  pub aligned : at s.base_address (h + 1) % bytes align ≡ 0
  pub returns : result ≡ ok (some (at s.base_address (h + 1))) s'
  pub holds : Holds env total s' chunks l'
  pub base : s'.base_address ≡ s.base_address
  pub apart : (x z : ℕ) → allocation t x ≡ some z → (x + z ≤ h) ⊎ (h + 1 + size ≤ x)
  pub map :
      (x : ℕ) → allocation chunks x ≡ update (update (allocation t) h (some (size + 1))) o none x
  pub copied :
      (i : ℕ)
      → i < t.size o - 1
      → s'.memory (at s.base_address (h + 1 + i)) ≡ s.memory (at s.base_address (o + 1 + i))

module _ {E : Type 0} (env : Env E) (total : Size) (s : State E) (t : Tiles) (l : Lists)
    (holds : Holds env total s t l) (keeps : KeepsTotal env) (granular : s.base_address % 32 ≡ 0)
    (o : ℕ) (on : t.starts o ≡ true) (used : t.used o ≡ true) (align size : Size)
    (more : t.size o ≤ size + 1) where
  open holds use {spans, tiled}

  abbrev current : Size
  current = t.size o - 1

  abbrev run : Outcome E (Option Pointer)
  run = move_to_new env (at s.base_address (o + 1)) align current size s

  abbrev Moves : Outcome E (Option Pointer) → Type 0
  Moves r = Moved env total s t o align size r ⊎ Declined env total s t l align size r

  length : bytes current ≡ current * 32
  length = bytes-eq current (omega (arith, tiled.within o on, spans.short))

  module _
      (new : Allocated env total s t align size false (alloc_impl env align size false s)) where
    abbrev h : ℕ
    h = new.h

    abbrev t1 : Tiles
    t1 = allotted t new.c h (h + 1 + size)

    abbrev s1 : State E
    s1 = new.s'

    here : allocation t o ≡ some (t.size o)
    here = ground arith

    other : o ≢ h
    other e = absurd (omega (arith, e, new.apart o (t.size o) here, tiled.within o on))

    old_entry : (t1.starts o ≡ true) × (t1.used o ≡ true) × (t1.size o ≡ t.size o)
    old_entry = allocation-some t1 o (t.size o) (new.map o ∙ ground (arith, other))

    new_entry : (t1.starts h ≡ true) × (t1.used h ≡ true) × (t1.size h ≡ size + 1)
    new_entry = allocation-some t1 h (size + 1) (new.map h ∙ ground arith)

    -- The data of the old allocation and that of the new one hold no header.
    old_apart :
        (i : ℕ)
        → i < current
        → (x : ℕ) → t1.starts x ≡ true
        → at s.base_address x ≡ at s.base_address (o + 1 + i)
        → ⊥
    old_apart i lt x on_x e =
        let (on1, used1, size1) = old_entry in
        absurd (omega (arith, e, lt, size1, new.holds.tiled.gap o x on1 on_x (omega (arith, e))))

    new_apart :
        (i : ℕ)
        → i < current
        → (x : ℕ) → t1.starts x ≡ true
        → at s.base_address x ≡ at s.base_address (h + 1 + i)
        → ⊥
    new_apart i lt x on_x e =
        let (on1, used1, size1) = new_entry in
        absurd
          (omega (arith, e, lt, size1, more, new.holds.tiled.gap h x on1 on_x (omega (arith, e))))

    abbrev s2 : State E
    s2 = record s1 {
      memory = λ q.
          if leb (at s.base_address (h + 1)) q && ltb q (at s.base_address (h + 1) + current * 32)
          then s1.memory (at s.base_address (o + 1) + (q - at s.base_address (h + 1)))
          else s1.memory q;
    }

    holds2 : Holds env total s2 t1 new.l'
    holds2 =
        let (on1, used1, size1) = new_entry in
        subst
          (λ b.
            Holds env total
              (record s1 {
                memory = λ q.
                    if leb (at b (h + 1)) q && ltb q (at b (h + 1) + current * 32)
                    then s1.memory (at s.base_address (o + 1) + (q - at s.base_address (h + 1)))
                    else s1.memory q;
              })
              t1 new.l')
          new.base
          (filled-Holds env total s1 t1 new.l' new.holds h current on1 used1
            (omega (arith, size1, more, tiled.within o on))
            (λ q. s1.memory (at s.base_address (o + 1) + (q - at s.base_address (h + 1)))))

    -- What the copy puts there.
    filled :
        (i : ℕ)
        → i < current
        → s2.memory (at s.base_address (h + 1 + i)) ≡ s.memory (at s.base_address (o + 1 + i))
    filled i lt =
        let test : (leb (at s.base_address (h + 1)) (at s.base_address (h + 1 + i))
              && ltb (at s.base_address (h + 1 + i)) (at s.base_address (h + 1) + current * 32))
            ≡ true =
          ground (arith, lt) in
        let source : at s.base_address (o + 1)
              + (at s.base_address (h + 1 + i) - at s.base_address (h + 1))
            ≡ at s.base_address (o + 1 + i) =
          omega arith in
        rw test (
          ap s1.memory source
          ∙ new.contents (at s.base_address (o + 1 + i)) (old_apart i lt)
          ∙ untouched)
      where
        untouched :
            (if ltb (h + 1) s.allocated_space
                && false
                && covers s.base_address (h + 1) (h + 1 + size) (at s.base_address (o + 1 + i))
              then zero_granule
              else s.memory (at s.base_address (o + 1 + i)))
            ≡ s.memory (at s.base_address (o + 1 + i))
        untouched = ground arith

    moved : Moves run
    unfolding move_to_new alloc copy_nonoverlapping
    moved =
        let (on1, used1, size1) = old_entry in
        let (s3, l3, eq3, holds3, kept3) = free-Holds env total s2 t1 new.l' o holds2 on1 used1 in
        inl (record {
          h = h;
          chunks = freed total t1 o;
          s' = s3;
          l' = l3;
          aligned = new.aligned;
          returns =
              rw
                (
                  new.returns,
                  length,
                  subst (λ b. free env (at b (o + 1)) s2 ≡ ok tt s3) new.base eq3,
                )
                refl;
          holds = holds3;
          base = kept3.base ∙ new.base;
          apart = new.apart;
          map = λ x.
              allocation-freed total t1 o new.holds.tiled on1 used1 x ∙ ground (arith, new.map x);
          copied = λ i lt.
              kept3.contents (at s.base_address (h + 1 + i))
                (λ x h' e. new_apart i lt x h' (ap (λ b. at b x) (sym new.base) ∙ e))
              ∙ filled i lt;
        })

  pub move_to_new-Holds : Moves run
  unfolding move_to_new alloc
  move_to_new-Holds =
      elim (alloc_impl-Holds env total s t l align size false holds keeps granular) [
        | inl new ↦ moved new
        | inr refused ↦ inr (record {
          reason = refused.reason;
          s' = refused.s';
          returns = rw refused.returns refl;
          holds = refused.holds;
          base = refused.base;
          space = refused.space;
          limits = refused.limits;
          memory = refused.memory;
        })
      ]
