-- ===== src/Tiles/Shrink.antt =====
-- The part of `shrink_inplace` in src/allocator.rs that gives memory back, as a step of the tiling.
use picoalloc.Base.{
  ℕ, ◌+◌, ◌-◌, ◌≤◌, ◌<◌, ◌^◌, ◌≡◌, true, false, arith, refl, ap, subst, inl, inr, ◌∙◌,
}
use picoalloc.Size
use picoalloc.Size.{Size, is_empty}
use picoalloc.Chunk.{Pointer, unchecked_add, new_allocated}
use picoalloc.Env.{Env}
use picoalloc.Machine.{State, Outcome, ok, set_size}
use picoalloc.Allocator.{register_free_space, link_behind, paranoid_check_chunk}
use picoalloc.Allocator.Free.{merge_next}
use picoalloc.Allocator.Resize.{give_back}
use picoalloc.FreeList.{Lists, IsLinked, insert}
use picoalloc.FreeList.Represents.{at, Represents}
use picoalloc.Tiles.{Tiles, free_to, shrunk, resized, placed}
use picoalloc.Tiles.Merge.{Boundary}
use picoalloc.Tiles.Holds.{Spans, Headers, Agrees, Holds, add-at, Covers-Headers}
use picoalloc.Tiles.Check.{check_limit-ok}
use picoalloc.Tiles.Loose.{Kept, Kept-trans, Kept-fewer}
use picoalloc.Tiles.Settle.{link_behind-Headers}
use picoalloc.Tiles.Write.{Holds-Writes, free_Written}
use picoalloc.Tiles.Inplace.{set_size-Writes, merge_next-Writes, taken}
use picoalloc.Tiles.Around.{chunk_end, free_to-Boundary}
use picoalloc.Tiles.Place.{size_difference-eq}
use picoalloc.Tiles.Resized.{
  shrunk_headers, shrunk-IsTiled, shrunk-IsCoalesced, shrunk-Covers, allocation-shrunk,
}

-- The calls of `give_back` one by one, each with its result.
module _ {E : Type 0} (env : Env E) (s s1 s2 s3 s4 : State E) (po pn pa pe : Pointer)
    (current size released free_space value : Size)
    (released_eq : Size.unchecked_sub current size ≡ released)
    (eq1 : set_size po (new_allocated size) s ≡ ok tt s1) (next_eq : unchecked_add po current ≡ pn)
    (eq2 : merge_next env pn released s1 ≡ ok free_space s2)
    (middle_eq : unchecked_add po size ≡ pa)
    (eq3 : register_free_space pa size free_space s2 ≡ ok value s3)
    (end_eq : unchecked_add pa free_space ≡ pe)
    (eq4 : link_behind env 8 pe free_space s3 ≡ ok tt s4)
    (check_o : paranoid_check_chunk env po s4 ≡ ok tt s4)
    (check_a : paranoid_check_chunk env pa s4 ≡ ok tt s4)
    (check_e : paranoid_check_chunk env pe s4 ≡ ok tt s4) where
  give_back_run : give_back env po current size s ≡ ok tt s4
  unfolding give_back
  give_back_run =
      rw (released_eq, eq1, next_eq, eq2, middle_eq, eq3, end_eq, eq4, check_o, check_a, check_e)
        refl

module _ {E : Type 0} (env : Env E) (total : Size) (s : State E) (t : Tiles) (l : Lists)
    (holds : Holds env total s t l) (o : ℕ) (on : t.starts o ≡ true) (used : t.used o ≡ true)
    (a : ℕ) (low : o < a) (high : a < o + t.size o) where
  open holds use {spans, tiled, tight, headers, agrees, linked, lists, backed}

  abbrev n : ℕ
  n = o + t.size o

  abbrev hi : ℕ
  hi = free_to total t n

  abbrev t' : Tiles
  t' = shrunk total t o a

  abbrev u1 : Tiles
  u1 = resized t o (a - o)

  abbrev u2 : Tiles
  u2 = placed u1 a (a - o) (hi - a) false

  abbrev l2 : Lists
  l2 = taken total t l n

  abbrev l3 : Lists
  l3 = insert l2 a (hi - a)

  to_n : Boundary total t n
  to_n = chunk_end total t tiled o on

  to_hi : Boundary total t hi
  to_hi = (free_to-Boundary total t tiled n to_n).0

  n-le-hi : n ≤ hi
  n-le-hi = (free_to-Boundary total t tiled n to_n).1

  hi_in : hi ≤ total
  unfolding Boundary
  hi_in = elim to_hi [ inl e ↦ omega arith | inr h ↦ omega (arith, tiled.within hi h) ]

  carried :
      (u : Tiles) (x : ℕ)
      → (t.starts x ≡ true → u.starts x ≡ true)
      → Boundary total t x
      → Boundary total u x
  unfolding Boundary
  carried u x keeps to = elim to [ inl e ↦ inl e | inr h ↦ inr (keeps h) ]

  agree : Agrees t' l3
  unfolding shrunk free_to
  agree = record {
    free = λ x. ground (
      arith,
      agrees.free x,
      tiled.gap o x,
      tiled.gap n x,
      tiled.next o,
      tiled.within o,
      tiled.within n,
    );
    size = λ x g f. ground (arith, agrees.free x, agrees.size x, tiled.gap o x);
  }

  hi_same : free_to total u1 n ≡ hi
  unfolding free_to
  hi_same = ground (arith, low, high)

  -- What the merge needs to know of the chunk behind.
  behind :
      u1.starts n ≡ true
      → (0 < u1.size n)
        × (n + u1.size n ≤ total)
        × (n - a + u1.size n < 2 ^ 32)
        × (u1.used n ≡ false → (l.is_free n ≡ true) × (l.size n ≡ u1.size n))
  behind h =
      let (pos, fits) = tiled.within n h in
      ground (arith, spans.short, low, high, agrees.free n, agrees.size n, h)

  -- The last state.
  abbrev Final : Outcome E (Unit {0}) → Type 0
  Final r = (s' : State E) × (l' : Lists) × (r ≡ ok tt s') × Holds env total s' t' l' × Kept u2 s s'

  abbrev run : Outcome E (Unit {0})
  run = give_back env (at s.base_address o) (t.size o) (a - o) s

  not_free_a : l2.is_free a ≡ false
  not_free_a = ground (arith, agrees.free a, tiled.gap o a, low, high)

  not_free_o : l.is_free o ≡ false
  not_free_o = ground (arith, agrees.free o, used)

  ends :
      (s4 : State E)
      → Spans env total s4
      → s4.allocated_space ≡ s.allocated_space
      → Headers s4 (shrunk_headers total t tiled tight o on used a low high)
      → Represents s4 l3
      → IsLinked l3
      → Holds env total s4 t' l3
  ends s4 spans4 space headers4 lists4 linked4 = record {
    spans = spans4;
    tiled = shrunk-IsTiled total t tiled tight o on used a low high;
    tight = shrunk-IsCoalesced total t tiled tight o on used a low high;
    headers =
        Covers-Headers s4 (shrunk_headers total t tiled tight o on used a low high) t'
          (shrunk-Covers total t tiled tight o on used a low high) headers4;
    agrees = agree;
    linked = linked4;
    lists = lists4;
    backed = λ x z e. rw space (
        ground (
          arith,
          allocation-shrunk total t tiled tight o on used a low high x,
          backed x z,
          backed o (t.size o),
        ));
  }

  check :
      (s4 : State E)
      → Holds env total s4 t' l3
      → s4.base_address ≡ s.base_address
      → (x : ℕ) → Boundary total t' x
      → paranoid_check_chunk env (at s.base_address x) s4 ≡ ok tt s4
  check s4 holds4 base x to =
      subst (λ b. paranoid_check_chunk env (at b x) s4 ≡ ok tt s4) base
        (check_limit-ok env total s4 t' x holds4.spans holds4.tiled holds4.tight holds4.headers to)

  to_o' : Boundary total t' o
  unfolding Boundary shrunk
  to_o' = inr (ground arith)

  to_a' : Boundary total t' a
  unfolding Boundary shrunk
  to_a' = inr (ground arith)

  to_hi' : Boundary total t' hi
  unfolding shrunk
  to_hi' = carried t' hi (λ h. ground (arith, h)) to_hi

  -- Addresses within the space.
  reaches :
      (x d : ℕ) → x + d ≤ total → unchecked_add (at s.base_address x) d ≡ at s.base_address (x + d)
  reaches = add-at spans

  before_a : o + (a - o) ≡ a
  before_a = omega (arith, low)

  before_hi : a + (hi - a) ≡ hi
  before_hi = omega (arith, n-le-hi, high)

  whole_free : n - a + (hi - n) ≡ hi - a
  whole_free = omega (arith, n-le-hi, high)

  inside_a : a < s.allocated_space
  inside_a = omega (arith, backed o (t.size o) (ground arith), high)

  pub give_back-Holds : Final run
  unfolding shrunk
  give_back-Holds =
      let (s1, eq1, w1, k1) =
        set_size-Writes env total s t l (Holds-Writes env total s t l holds) o on used not_free_o
          (a - o) in
      let (s2, eq2, w2, k2) =
        merge_next-Writes env total s1 u1 l w1 n (n - a) behind (carried u1 n (λ h. h) to_n) in
      let inside : a < s2.allocated_space = rw (k2.space, k1.space) inside_a in
      let (s3, eq3, w3, k3) =
        free_Written env total s2 u1 l2 w2 a inside not_free_a (a - o) (hi - a)
          (omega (arith, hi_in, spans.short)) (omega (arith, n-le-hi, high)) in
      let (s4, eq4, spans4, headers4, lists4, k4) =
        link_behind-Headers env total s3 w3.spans u2 w3.headers l3 w3.lists hi (hi - a) 8
          (omega arith) (carried u2 hi (λ h. ground (arith, h)) to_hi) in
      let base2 : s2.base_address ≡ s.base_address = k2.base ∙ k1.base in
      let base3 : s3.base_address ≡ s.base_address = k3.base ∙ base2 in
      let holds4 =
        ends s4 spans4 (k4.space ∙ k3.space ∙ k2.space ∙ k1.space) headers4 lists4 w3.linked in
      let base4 : s4.base_address ≡ s.base_address = k4.base ∙ base3 in
      let kept : Kept u2 s s4 =
        Kept-trans (Kept-fewer (λ x h. ground (arith, h)) k1)
          (Kept-trans (Kept-fewer (λ x h. ground (arith, h)) k2) (Kept-trans k3 k4)) in
      (
        s4,
        l3,
        give_back_run env s s1 s2 s3 s4 (at s.base_address o) (at s.base_address n)
            (at s.base_address a) (at s.base_address hi) (t.size o) (a - o) (n - a) (hi - a)
            (hi - a)
            (size_difference-eq (t.size o) (a - o) (omega (arith, high))
                (omega (arith, tiled.within o on, spans.short))
              ∙ omega (arith, low))
            eq1 (reaches o (t.size o) (omega (arith, tiled.within o on)))
            (subst (λ b. merge_next env (at b n) (n - a) s1 ≡ ok (hi - a) s2) k1.base
              (subst (λ z. merge_next env (at s1.base_address n) (n - a) s1 ≡ ok z s2)
                (ap (λ z. n - a + (z - n)) hi_same ∙ whole_free) eq2))
            (reaches o (a - o) (omega (arith, hi_in, n-le-hi, high))
              ∙ ap (at s.base_address) before_a)
            (subst (λ b. register_free_space (at b a) (a - o) (hi - a) s2 ≡ ok (hi - a) s3) base2
              eq3)
            (reaches a (hi - a) (omega (arith, hi_in, before_hi))
              ∙ ap (at s.base_address) before_hi)
            (subst (λ b. link_behind env 8 (at b hi) (hi - a) s3 ≡ ok tt s4) base3 eq4)
            (check s4 holds4 base4 o to_o') (check s4 holds4 base4 a to_a')
            (check s4 holds4 base4 hi to_hi'),
        holds4,
        kept,
      )
