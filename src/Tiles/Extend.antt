-- ===== src/Tiles/Extend.antt =====
-- What `grow_inplace` of src/allocator.rs does once the chunk behind is free and large enough.
use picoalloc.Base.{
  ℕ, ◌+◌, ◌-◌, ◌≤◌, ◌<◌, ◌≡◌, ◌⊎◌, Bool, true, false, not, ◌&&◌, ◌==◌, leb, ltb, arith,
  if◌then◌else◌, refl, sym, ap, subst, update, inl, inr, ◌∙◌, Option, none, some,
}
use picoalloc.Size.{Size, is_empty}
use picoalloc.Chunk.{Pointer, unchecked_add}
use picoalloc.Env.{Env, KeepsTotal, Limited}
use picoalloc.Machine.{State, Outcome, ok}
use picoalloc.Allocator.Alloc.{ensure_space}
use picoalloc.Allocator.Resize.{grown_end_offset, take_over}
use picoalloc.FreeList.{Lists}
use picoalloc.FreeList.Represents.{at}
use picoalloc.Tiles.{Tiles, grown, either, allocation, resized, placed_free}
use picoalloc.Tiles.Holds.{Holds, add-at}
use picoalloc.Tiles.Absorb.{offset-eq, size_sum-eq}
use picoalloc.Tiles.Expand.{ensure_space-Holds}
use picoalloc.Tiles.Resized.{allocation-grown, grown_cases}
use picoalloc.Tiles.Grow.{takes, take_over-refused}

-- Whether `size` granules of data fit into the chunk and a free chunk behind it.
unfoldable pub room : Size → Tiles → ℕ → Size → Bool
room total t o size =
    ltb (o + t.size o) total
    && not (t.used (o + t.size o))
    && leb (size + 1) (t.size o + t.size (o + t.size o))

-- Up to where there must be memory: a header more, if a free chunk stays behind.
unfoldable pub memory_end : Tiles → ℕ → Size → Size
memory_end t o size =
    if t.size o + t.size (o + t.size o) - (size + 1) == 0
    then o + (size + 1)
    else o + (size + 1) + 1

-- The chunk was smaller, and now has the new size.
pub record Grown {E : Type 0} (env : Env E) (total : Size) (s : State E) (t : Tiles) (o : ℕ)
    (size : Size) (result : Outcome E (Option Size)) : Type 0 where
  pub smaller : t.size o < size + 1
  pub fits : room total t o size ≡ true
  pub s' : State E
  pub l' : Lists
  pub returns : result ≡ ok (some size) s'
  pub holds : Holds env total s' (grown t o (o + (size + 1))) l'
  pub base : s'.base_address ≡ s.base_address
  pub space : s.allocated_space ≤ s'.allocated_space
  pub limits :
      (limit : Size) → Limited env limit → s.allocated_space ≤ limit → s'.allocated_space ≤ limit
  pub contents :
      (p : Pointer)
      → ((x : ℕ)
          → (either t (grown t o (o + (size + 1)))).starts x ≡ true
          → at s.base_address x ≡ p
          → ⊥)
      → s'.memory p ≡ s.memory p
  pub map :
      (x : ℕ)
      → allocation (grown t o (o + (size + 1))) x ≡ update (allocation t) o (some (size + 1)) x

-- The chunk is smaller, and there is no room behind it or no memory.
pub record Stuck {E : Type 0} (env : Env E) (total : Size) (s : State E) (t : Tiles) (l : Lists)
    (o : ℕ) (size : Size) (result : Outcome E (Option Size)) : Type 0 where
  pub smaller : t.size o < size + 1
  pub reason :
      (room total t o size ≡ false)
      ⊎ ((env.expand_memory_until s.env s.base_address (memory_end t o size)).0 ≡ false)
  pub s' : State E
  pub returns : result ≡ ok none s'
  pub holds : Holds env total s' t l
  pub base : s'.base_address ≡ s.base_address
  pub space : s.allocated_space ≤ s'.allocated_space
  pub limits :
      (limit : Size) → Limited env limit → s.allocated_space ≤ limit → s'.allocated_space ≤ limit
  pub memory : s'.memory ≡ s.memory

module _ {E : Type 0} (env : Env E) (total : Size) (s : State E) (t : Tiles) (l : Lists)
    (holds : Holds env total s t l) (keeps : KeepsTotal env) (o : ℕ) (on : t.starts o ≡ true)
    (used : t.used o ≡ true) (size : Size) where
  open holds use {spans, tiled, tight, headers}

  abbrev n : ℕ
  n = o + t.size o

  abbrev a : ℕ
  a = o + (size + 1)

  abbrev pub Grows : Outcome E (Option Size) → Type 0
  Grows r = Grown env total s t o size r ⊎ Stuck env total s t l o size r

  pub stuck_here : t.size o < size + 1 → room total t o size ≡ false → Grows (ok none s)
  stuck_here smaller no_room = inr (record {
    smaller = smaller;
    reason = inl no_room;
    s' = s;
    returns = refl;
    holds = holds;
    base = refl;
    space = omega arith;
    limits = λ limit limited le. le;
    memory = refl;
  })

  module _ (smaller : t.size o < size + 1) (lt : n < total) (unused : t.used n ≡ false)
      (high : size + 1 ≤ t.size o + t.size n) where
    abbrev rest : Size
    rest = t.size o + t.size n - (size + 1)

    abbrev taking : Outcome E (Option Size)
    taking = take_over env (at s.base_address o) (at s.base_address n) (t.size n) (size + 1) rest s

    has_room : room total t o size ≡ true
    unfolding room
    has_room = ground (arith, lt, unused, high)

    n_on : t.starts n ≡ true
    n_on = (tiled.next o on lt).0

    end_in : memory_end t o size ≤ total
    unfolding memory_end
    end_in = ground (arith, tiled.within n n_on, smaller, high)

    rest_eq : n + t.size n - a ≡ rest
    rest_eq = omega arith

    size_eq : a - o ≡ size + 1
    size_eq = omega arith

    usable : a - o - 1 ≡ size
    usable = omega arith

    new_starts :
        (x : ℕ)
        → (placed_free (resized t o (a - o)) a (a - o) (n + t.size n - a)).starts x ≡ true
        → (either t (grown t o a)).starts x ≡ true
    new_starts x h =
        grown_cases total t tiled tight o on used lt unused a (omega arith) (omega arith)
          (λ g. (either t g).starts x ≡ true) (λ inside. ground (arith, h))
          (λ eq.
            let rest : (n + t.size n - a == 0) ≡ true = ground arith in ground (arith, h, rest))

    end_eq :
        grown_end_offset env s.base_address (unchecked_add (at s.base_address o) (size + 1)) rest
        ≡ memory_end t o size
    unfolding grown_end_offset memory_end is_empty
    end_eq =
        rw
          (
            add-at spans o (size + 1) (omega (arith, tiled.within n n_on)),
            offset-eq s.base_address a (omega (arith, tiled.within n n_on, spans.short))
                (omega (arith, tiled.within n n_on, spans.no_wrap)),
            size_sum-eq a 1 (omega (arith, tiled.within n n_on, spans.short)),
          )
          refl

    by_memory :
        (b : Bool) (s1 : State E)
        → ensure_space env (memory_end t o size) s ≡ ok b s1
        → Holds env total s1 t l
        → s1.base_address ≡ s.base_address
        → s1.memory ≡ s.memory
        → (b ≡ true → memory_end t o size ≤ s1.allocated_space)
        → (b ≡ false
            → (env.expand_memory_until s.env s.base_address (memory_end t o size)).0 ≡ false)
        → s.allocated_space ≤ s1.allocated_space
        → ((limit : Size)
            → Limited env limit
            → s.allocated_space ≤ limit
            → s1.allocated_space ≤ limit)
        → Grows taking
    unfolding memory_end
    by_memory true s1 eq holds1 base memory reach refused space limits =
        let reach_end : (if n + t.size n - a == 0 then a else a + 1) ≤ s1.allocated_space =
          subst (λ z. (if z == 0 then a else a + 1) ≤ s1.allocated_space) (sym rest_eq)
            (reach refl) in
        let (s5, eq5, holds5, base5, kept) =
          takes env total t l o on used lt unused a (omega arith) (omega arith) s1 holds1
            (ground (arith, reach_end)) (λ inside. ground (arith, reach_end)) s (sym base)
            (subst (λ z. ensure_space env (if z == 0 then a else a + 1) s ≡ ok true s1)
              (sym rest_eq) eq) in
        inl (record {
          smaller = smaller;
          fits = has_room;
          s' = s5;
          l' = _;
          returns =
              subst (λ z. taking ≡ ok (some z) s5) usable
                (subst
                  (λ z.
                    take_over env (at s.base_address o) (at s.base_address n) (t.size n) (size + 1)
                      z s
                    ≡ ok (some (a - o - 1)) s5)
                  rest_eq
                  (subst
                    (λ z.
                      take_over env (at s.base_address o) (at s.base_address n) (t.size n) z
                        (n + t.size n - a) s
                      ≡ ok (some (a - o - 1)) s5)
                    size_eq
                    (subst
                      (λ b.
                        take_over env (at b o) (at b n) (t.size n) (a - o) (n + t.size n - a) s
                        ≡ ok (some (a - o - 1)) s5)
                      base eq5)));
          holds = holds5;
          base = base5 ∙ base;
          space = rw kept.space space;
          limits = λ limit limited le. rw kept.space (limits limit limited le);
          contents = λ p apart.
              kept.contents p (λ x h e. apart x (new_starts x h) (ap (λ b. at b x) (sym base) ∙ e))
              ∙ ap (λ m. m p) memory;
          map = λ x.
              allocation-grown total t tiled tight o on used lt unused a (omega arith) (omega arith)
                x
              ∙ ap (λ z. update (allocation t) o (some z) x) size_eq;
        })
    by_memory false s1 eq holds1 base memory reach refused space limits = inr (record {
      smaller = smaller;
      reason = inr (refused refl);
      s' = s1;
      returns =
          take_over-refused env s s1 (at s.base_address o) (at s.base_address n) (t.size n)
            (size + 1) rest (memory_end t o size) end_eq eq;
      holds = holds1;
      base = base;
      space = space;
      limits = limits;
      memory = memory;
    })

    pub takes_over : Grows taking
    takes_over =
        let (b, s1, eq, holds1, base, memory, reach, refused, space, limits) =
          ensure_space-Holds env total s t l holds keeps (memory_end t o size) end_in in
        by_memory b s1 eq holds1 base memory reach refused space limits
