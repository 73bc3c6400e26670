-- ===== src/Tiles/Realloc.antt =====
-- `realloc` of src/allocator.rs as a step of the tiling.
use picoalloc.Base.{
  ℕ, ◌+◌, ◌-◌, ◌%◌, ◌≤◌, ◌<◌, ◌≡◌, ◌≢◌, ◌⊎◌, inl, inr, Bool, true, false, ◌==◌, ltb, arith, refl,
  subst, Option, none, some, dec_lt, ℕ_discrete,
}
use picoalloc.Size.{Size, is_empty}
use picoalloc.Chunk.{Pointer}
use picoalloc.Env.{Env, KeepsTotal}
use picoalloc.Machine.{State, Outcome, ok}
use picoalloc.Allocator.Resize.{grow_inplace, realloc, resize_inplace, move_to_new}
use picoalloc.FreeList.{Lists}
use picoalloc.FreeList.Represents.{at}
use picoalloc.Tiles.{Tiles, freed, trimmed, either}
use picoalloc.Tiles.Holds.{Holds}
use picoalloc.Tiles.Loose.{Kept}
use picoalloc.Tiles.Usable.{usable_granules}
use picoalloc.Tiles.Free.{free-Holds}
use picoalloc.Tiles.Trim.{shrink_inplace-Holds}
use picoalloc.Tiles.Extend.{Grown}
use picoalloc.Tiles.Enlarge.{grow_inplace-Holds}
use picoalloc.Tiles.Outcome.{Declined}
use picoalloc.Tiles.Move.{Moved, move_to_new-Holds}

-- The state in which the allocator moves an allocation: a failed attempt to grow it in place may
-- have asked the environment for memory, and changes nothing else.
pub record Retried {E : Type 0} (env : Env E) (total : Size) (s s1 : State E) (t : Tiles)
    (l : Lists) : Type 0 where
  pub holds : Holds env total s1 t l
  pub base : s1.base_address ≡ s.base_address
  pub memory : s1.memory ≡ s.memory

-- How `realloc` of the allocation at `o` ends.
pub data Reallocated {E : Type 0} (env : Env E) (total : Size) (s : State E) (t : Tiles) (l : Lists)
    (o : ℕ) (align size : Size) (inplace : Bool) (result : Outcome E (Option Pointer))
    : Type 0 where
  unchanged :
      size + 1 ≡ t.size o
      → result ≡ ok (some (at s.base_address (o + 1))) s
      → Reallocated env total s t l o align size inplace result
  released :
      (s' : State E) (l' : Lists)
      → size ≡ 0
      → result ≡ ok none s'
      → Holds env total s' (freed total t o) l'
      → Kept t s s'
      → Reallocated env total s t l o align size inplace result
  cut_short :
      (s' : State E) (l' : Lists)
      → inplace ≡ true
      → size + 1 < t.size o
      → result ≡ ok (some (at s.base_address (o + 1))) s'
      → Holds env total s' (trimmed total t o size) l'
      → Kept (either t (trimmed total t o size)) s s'
      → Reallocated env total s t l o align size inplace result
  extended :
      (g : Grown env total s t o size (grow_inplace env (at s.base_address (o + 1)) size s))
      → inplace ≡ true
      → result ≡ ok (some (at s.base_address (o + 1))) g.s'
      → Reallocated env total s t l o align size inplace result
  moved :
      (s1 : State E)
      → Retried env total s s1 t l
      → t.size o < size + 1
      → Moved env total s1 t o align size result
      → Reallocated env total s t l o align size inplace result
  declined :
      (s1 : State E)
      → Retried env total s s1 t l
      → t.size o < size + 1
      → Declined env total s1 t l align size result
      → Reallocated env total s t l o align size inplace result

module _ {E : Type 0} (env : Env E) (total : Size) (s : State E) (t : Tiles) (l : Lists)
    (holds : Holds env total s t l) (keeps : KeepsTotal env) (granular : s.base_address % 32 ≡ 0)
    (o : ℕ) (on : t.starts o ≡ true) (used : t.used o ≡ true) (align size : Size) where
  open holds use {spans, tiled}

  abbrev p : Pointer
  p = at s.base_address (o + 1)

  abbrev current : Size
  current = t.size o - 1

  abbrev Ends : Bool → Outcome E (Option Pointer) → Type 0
  Ends = Reallocated env total s t l o align size

  abbrev run : Bool → Outcome E (Option Pointer)
  run inplace = realloc env inplace p align size s

  pos : 0 < t.size o
  pos = (tiled.within o on).0

  -- The move.
  moving :
      (b : Bool) (s1 : State E)
      → Retried env total s s1 t l
      → t.size o < size + 1
      → Ends b (move_to_new env p align current size s1)
  moving b s1 retried more =
      elim (move_to_new-Holds env total s1 t l retried.holds keeps (rw retried.base granular) o on
        used align size (omega (arith, more))) [
          | inl m ↦ moved s1 retried more (
              subst
                (λ b.
                  Moved env total s1 t o align size
                    (move_to_new env (at b (o + 1)) align current size s1))
                retried.base m)
          | inr d ↦ declined s1 retried more (
              subst
                (λ b.
                  Declined env total s1 t l align size
                    (move_to_new env (at b (o + 1)) align current size s1))
                retried.base d)
        ]

  same : (b : Bool) → size + 1 ≡ t.size o → Ends b (run b)
  unfolding realloc
  same b e =
      let test : (size == current) ≡ true = ground arith in
      rw (usable_granules env total s t l o holds on, test) (unchanged e refl)

  module _ (differs : size + 1 ≢ t.size o) where
    test : (size == current) ≡ false
    test = ground (arith, differs, pos)

    gone : (b : Bool) → size ≡ 0 → Ends b (run b)
    unfolding realloc is_empty
    gone b e =
        let (s', l', eq, holds', same_else) = free-Holds env total s t l o holds on used in
        let empty : (size == 0) ≡ true = ground arith in
        rw (usable_granules env total s t l o holds on, test, empty, eq)
          (released s' l' e refl holds' same_else)

    module _ (some_size : 0 < size) where
      nonempty : (size == 0) ≡ false
      nonempty = ground arith

      without : t.size o < size + 1 → Ends false (run false)
      unfolding realloc is_empty
      without more =
          rw (usable_granules env total s t l o holds on, test, nonempty)
            (moving false s (record { holds = holds; base = refl; memory = refl }) more)

      down : size + 1 < t.size o → Ends true (run true)
      unfolding realloc is_empty resize_inplace
      down less =
          let (s', l', eq, holds', same_else, map) =
            shrink_inplace-Holds env total s t l o size holds on used
              (omega (arith, less, tiled.within o on, spans.short)) in
          let below : ltb size current ≡ true = ground arith in
          rw (usable_granules env total s t l o holds on, test, nonempty, below, eq)
            (cut_short s' l' refl less refl holds' same_else)

      up : t.size o < size + 1 → Ends true (run true)
      unfolding realloc is_empty resize_inplace
      up more =
          let below : ltb size current ≡ false = ground arith in
          elim (grow_inplace-Holds env total s t l o size holds keeps on used) [
            | inl (enough, eq) ↦ absurd (omega (arith, enough, more))
            | inr (inl g) ↦
                rw (usable_granules env total s t l o holds on, test, nonempty, below, g.returns)
                  (extended g refl refl)
            | inr (inr stuck) ↦
                rw
                  (usable_granules env total s t l o holds on, test, nonempty, below, stuck.returns)
                  (moving true stuck.s'
                    (record { holds = stuck.holds; base = stuck.base; memory = stuck.memory }) more)
          ]

      differently : (b : Bool) → (b ≡ true) ⊎ (t.size o ≤ size + 1) → Ends b (run b)
      differently true allowed = elim (dec_lt (t.size o) (size + 1)) [
        | yes more ↦ up more
        | no less ↦ down (omega (arith, less, differs))
      ]
      differently false (inl e) = absurd (ground (arith, e))
      differently false (inr more) = without (omega (arith, more, differs))

  by_size : (b : Bool) → (b ≡ true) ⊎ (t.size o ≤ size + 1) ⊎ (size ≡ 0) → Ends b (run b)
  by_size b allowed = elim (ℕ_discrete (size + 1) (t.size o)) [
    | yes e ↦ same b e
    | no differs ↦ elim (dec_lt 0 size) [
      | no at_0 ↦ gone differs b (omega arith)
      | yes pos ↦ elim allowed [
        | inl e ↦ differently differs pos b (inl e)
        | inr (inl more) ↦ differently differs pos b (inr more)
        | inr (inr e) ↦ absurd (omega (arith, e, pos))
      ]
    ]
  ]

-- `realloc` of the pointer of an allocated chunk, in a state between two calls at an aligned base,
-- with the feature realloc_inplace or a size that is 0 or not below the current one, fails no
-- assertion and returns. The pointer comes back where the size is as before, where the chunk has
-- been cut short, or where it has grown into the chunk behind; a size of 0 frees the chunk, with no
-- pointer. Else a new allocation, aligned and apart from all others, has a copy of the data and the
-- old one is free, or there is no such allocation, and chunks and memory are as before. The state
-- after each is one between two calls.
pub realloc-Holds :
    {E : Type 0} (env : Env E) (total : Size) (s : State E) (t : Tiles) (l : Lists) (o : ℕ)
    (align size : Size) (realloc_inplace : Bool)
    → Holds env total s t l
    → KeepsTotal env
    → s.base_address % 32 ≡ 0
    → t.starts o ≡ true
    → t.used o ≡ true
    → (realloc_inplace ≡ true) ⊎ (t.size o ≤ size + 1) ⊎ (size ≡ 0)
    → Reallocated env total s t l o align size realloc_inplace
        (realloc env realloc_inplace (at s.base_address (o + 1)) align size s)
realloc-Holds env total s t l o align size realloc_inplace holds keeps granular on used allowed =
    by_size env total s t l holds keeps granular o on used align size realloc_inplace allowed
