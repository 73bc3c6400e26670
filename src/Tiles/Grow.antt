-- ===== src/Tiles/Grow.antt =====
-- The part of `grow_inplace` in src/allocator.rs that takes memory from the chunk behind, as a step
-- of the tiling.
use picoalloc.Base.{
  ℕ, ◌+◌, ◌-◌, ◌≤◌, ◌<◌, ◌≡◌, ◌⊎◌, true, false, ◌==◌, arith, if◌then◌else◌, refl, sym, ap, subst,
  inl, inr, ◌∙◌, Option, none, some,
}
use picoalloc.Size
use picoalloc.Size.{Size, is_empty, from_pointer_and_base_unchecked}
use picoalloc.Chunk.{Pointer, unchecked_add, new_allocated}
use picoalloc.Env.{Env}
use picoalloc.Machine.{State, Outcome, ok, set_size}
use picoalloc.Allocator.{
  size_to_bin_round_down, register_free_space, unregister_free_space, link_behind,
  paranoid_check_chunk,
}
use picoalloc.Allocator.Alloc.{ensure_space}
use picoalloc.Allocator.Resize.{grown_end_offset, take_over}
use picoalloc.FreeList.{Lists, IsLinked, remove}
use picoalloc.FreeList.Represents.{at, Represents}
use picoalloc.Tiles.{Tiles, cut, merge, grown, resized, placed_free}
use picoalloc.Tiles.Merge.{Boundary}
use picoalloc.Tiles.Holds.{Spans, Headers, Agrees, Holds, add-at, Covers-Headers}
use picoalloc.Tiles.Check.{check_limit-ok}
use picoalloc.Tiles.Loose.{Kept, Kept-trans, Kept-fewer}
use picoalloc.Tiles.Settle.{link_behind-Headers}
use picoalloc.Tiles.Write.{Holds-Writes, insert_free, register_free_space-Writes}
use picoalloc.Tiles.Inplace.{set_size-Writes, unregister-Writes}
use picoalloc.Tiles.Around.{chunk_end}
use picoalloc.Tiles.Place.{size_difference-eq}
use picoalloc.Tiles.Absorb.{offset-eq, size_sum-eq}
use picoalloc.Tiles.Resized.{
  grown_headers, grown_cases, grown-IsTiled, grown-IsCoalesced, grown-Covers, allocation-grown,
}

-- The calls of `take_over` one by one, each with its result.
module _ {E : Type 0} (env : Env E) (s1 s2 s3 s4 s5 : State E) (po pn pa pe : Pointer)
    (old size remaining value : Size)
    (eq2 : unregister_free_space pn (size_to_bin_round_down old) s1 ≡ ok tt s2)
    (eq3 : set_size po (new_allocated size) s2 ≡ ok tt s3) (middle_eq : unchecked_add po size ≡ pa)
    (eq4 : register_free_space pa size remaining s3 ≡ ok value s4)
    (end_eq : unchecked_add pa remaining ≡ pe) (eq5 : link_behind env 8 pe value s4 ≡ ok tt s5)
    (check_o : paranoid_check_chunk env po s5 ≡ ok tt s5)
    (check_a : paranoid_check_chunk env pa s5 ≡ ok tt s5)
    (check_e : paranoid_check_chunk env pe s5 ≡ ok tt s5) (usable : Size)
    (usable_eq : Size.unchecked_sub size 1 ≡ usable) (s : State E)
    (eq1 : ensure_space env (grown_end_offset env s.base_address pa remaining) s ≡ ok true s1) where
  take_over_run : take_over env po pn old size remaining s ≡ ok (some usable) s5
  unfolding take_over
  take_over_run =
      rw (middle_eq, eq1, eq2, eq3, eq4, end_eq, eq5, check_o, check_a, check_e, usable_eq) refl

-- Without memory, nothing happens.
pub take_over-refused :
    {E : Type 0} (env : Env E) (s s1 : State E) (po pn : Pointer) (old size remaining end : Size)
    → grown_end_offset env s.base_address (unchecked_add po size) remaining ≡ end
    → ensure_space env end s ≡ ok false s1
    → take_over env po pn old size remaining s ≡ ok none s1
unfolding take_over
take_over-refused env s s1 po pn old size remaining end end_eq eq = rw (end_eq, eq) refl

module _ {E : Type 0} (env : Env E) (total : Size) (t : Tiles) (l : Lists) (o : ℕ)
    (on : t.starts o ≡ true) (used : t.used o ≡ true) (lt : o + t.size o < total)
    (unused : t.used (o + t.size o) ≡ false) (a : ℕ) (low : o + t.size o < a)
    (high : a ≤ o + t.size o + t.size (o + t.size o)) where
  abbrev n : ℕ
  n = o + t.size o

  abbrev e : ℕ
  e = n + t.size n

  abbrev t' : Tiles
  t' = grown t o a

  abbrev u1 : Tiles
  u1 = resized t o (a - o)

  abbrev u2 : Tiles
  u2 = placed_free u1 a (a - o) (e - a)

  abbrev l1 : Lists
  l1 = remove l n

  abbrev l2 : Lists
  l2 = insert_free l1 a (e - a)

  -- The states from the one on in which there is memory.
  module _ (s : State E) (holds : Holds env total s t l) (reach : a ≤ s.allocated_space)
      (more : a < e → a < s.allocated_space) where
    open holds use {spans, tiled, tight, headers, agrees, linked, lists, backed}

    n_on : t.starts n ≡ true
    n_on = (tiled.next o on lt).0

    e_in : e ≤ total
    e_in = (tiled.within n n_on).1

    to_e : Boundary total t e
    to_e = chunk_end total t tiled n n_on

    agree_cut : a < e → Agrees (cut (merge t o e true) o a true false) l2
    agree_cut inside =
        let rest : (e - a == 0) ≡ false = ground arith in
        rw rest (record {
          free = λ x. ground (arith, agrees.free x, n_on, tiled.gap o x, tiled.gap n x);
          size = λ x g f. ground (arith, agrees.free x, agrees.size x, n_on, low, tiled.gap o x);
        })

    agree_all : a ≡ e → Agrees (merge t o e true) l2
    agree_all eq =
        let rest : (e - a == 0) ≡ true = ground arith in
        rw rest (record {
          free = λ x. ground (arith, agrees.free x, n_on, tiled.gap o x, tiled.gap n x);
          size = λ x g f. ground (arith, agrees.free x, agrees.size x, n_on, low, tiled.gap o x);
        })

    agree : Agrees t' l2
    agree =
        grown_cases total t tiled tight o on used lt unused a low high (λ g. Agrees g l2) agree_cut
          agree_all

    ends :
        (s5 : State E)
        → Spans env total s5
        → s5.allocated_space ≡ s.allocated_space
        → Headers s5 (grown_headers total t tiled tight o on used lt unused a low high)
        → Represents s5 l2
        → IsLinked l2
        → Holds env total s5 t' l2
    ends s5 spans5 space headers5 lists5 linked5 = record {
      spans = spans5;
      tiled = grown-IsTiled total t tiled tight o on used lt unused a low high;
      tight = grown-IsCoalesced total t tiled tight o on used lt unused a low high;
      headers =
          Covers-Headers s5 (grown_headers total t tiled tight o on used lt unused a low high) t'
            (grown-Covers total t tiled tight o on used lt unused a low high) headers5;
      agrees = agree;
      linked = linked5;
      lists = lists5;
      backed = λ x z eq. rw space (
          ground (
            arith,
            allocation-grown total t tiled tight o on used lt unused a low high x,
            backed x z,
            reach,
          ));
    }

    check :
        (s5 : State E)
        → Holds env total s5 t' l2
        → s5.base_address ≡ s.base_address
        → (x : ℕ) → Boundary total t' x
        → paranoid_check_chunk env (at s.base_address x) s5 ≡ ok tt s5
    check s5 holds5 base x to =
        subst (λ b. paranoid_check_chunk env (at b x) s5 ≡ ok tt s5) base
          (check_limit-ok env total s5 t' x holds5.spans holds5.tiled holds5.tight holds5.headers
            to)

    at_o : Boundary total t' o
    unfolding Boundary grown
    at_o = inr (ground arith)

    at_a : Boundary total t' a
    unfolding Boundary
    at_a =
        grown_cases total t tiled tight o on used lt unused a low high
          (λ g. (a ≡ total) ⊎ (g.starts a ≡ true)) (λ inside. inr (ground arith))
          (λ eq. elim to_e [
            | inl end ↦ inl (omega arith)
            | inr h ↦ inr (ground (arith, h, eq, low))
          ])

    at_e : Boundary total t' e
    unfolding Boundary
    at_e =
        grown_cases total t tiled tight o on used lt unused a low high
          (λ g. (e ≡ total) ⊎ (g.starts e ≡ true))
          (λ inside. elim to_e [
            | inl end ↦ inl (omega arith)
            | inr h ↦ inr (ground (arith, h, low))
          ])
          (λ eq. elim to_e [ inl end ↦ inl (omega arith) | inr h ↦ inr (ground (arith, h, low)) ])

    to_e2 : Boundary total u2 e
    unfolding Boundary
    to_e2 = elim to_e [ inl end ↦ inl (omega arith) | inr h ↦ inr (ground (arith, h)) ]

    -- The contents of memory other than headers stay.
    abbrev pub Takes : State E → Outcome E (Option Size) → Type 0
    Takes s0 r =
        (s5 : State E) × (r ≡ ok (some (a - o - 1)) s5)
        × Holds env total s5 t' l2
        × (s5.base_address ≡ s.base_address)
        × Kept u2 s s5

    not_free_a : a < e → l1.is_free a ≡ false
    not_free_a inside = ground (arith, agrees.free a, tiled.gap n a, n_on, low, inside)

    offset : from_pointer_and_base_unchecked (at s.base_address a) s.base_address ≡ a
    offset =
        offset-eq s.base_address a (omega (arith, e_in, high, spans.short))
          (omega (arith, e_in, high, spans.no_wrap))

    pub end_offset :
        grown_end_offset env s.base_address (at s.base_address a) (e - a)
        ≡ (if e - a == 0 then a else a + 1)
    unfolding grown_end_offset is_empty
    end_offset = rw (offset, size_sum-eq a 1 (omega (arith, e_in, high, spans.short))) refl

    sum_a : o + (a - o) ≡ a
    sum_a = omega (arith, low)

    sum_e : a + (e - a) ≡ e
    sum_e = omega (arith, high)

    pub takes :
        (s0 : State E)
        → s0.base_address ≡ s.base_address
        → ensure_space env (if e - a == 0 then a else a + 1) s0 ≡ ok true s
        → Takes s0 (
            take_over env (at s.base_address o) (at s.base_address n) (t.size n) (a - o) (e - a) s0)
    takes s0 base0 eq1 =
        let is_free : l.is_free n ≡ true = ground (arith, agrees.free n, n_on) in
        let not_free_o : l1.is_free o ≡ false = ground (arith, agrees.free o, used) in
        let (s2, eq2, w2, k2) =
          unregister-Writes env total s t l (Holds-Writes env total s t l holds) n (t.size n)
            is_free (agrees.size n n_on unused) in
        let (s3, eq3, w3, k3) = set_size-Writes env total s2 t l1 w2 o on used not_free_o (a - o) in
        let space3 : s3.allocated_space ≡ s.allocated_space = k3.space ∙ k2.space in
        let (s4, eq4, w4, k4) =
          register_free_space-Writes env total s3 u1 l1 a (a - o) (e - a) w3
            (λ pos. (rw space3 (more (omega arith)), not_free_a (omega arith)))
            (omega (arith, e_in, spans.short)) in
        let (s5, eq5, spans5, headers5, lists5, k5) =
          link_behind-Headers env total s4 w4.spans u2 w4.headers l2 w4.lists e
            (if e - a == 0 then a - o else e - a) 8 (omega arith) to_e2 in
        let base3 : s3.base_address ≡ s.base_address = k3.base ∙ k2.base in
        let base4 : s4.base_address ≡ s.base_address = k4.base ∙ base3 in
        let base5 : s5.base_address ≡ s.base_address = k5.base ∙ base4 in
        let holds5 = ends s5 spans5 (k5.space ∙ k4.space ∙ space3) headers5 lists5 w4.linked in
        (
          s5,
          take_over_run env s s2 s3 s4 s5 (at s.base_address o) (at s.base_address n)
              (at s.base_address a) (at s.base_address e) (t.size n) (a - o) (e - a)
              (if e - a == 0 then a - o else e - a) eq2
              (subst (λ b. set_size (at b o) (new_allocated (a - o)) s2 ≡ ok tt s3) k2.base eq3)
              (add-at spans o (a - o) (omega (arith, e_in, high, low))
                ∙ ap (at s.base_address) sum_a)
              (subst
                (λ b.
                  register_free_space (at b a) (a - o) (e - a) s3
                  ≡ ok (if e - a == 0 then a - o else e - a) s4)
                base3 eq4)
              (add-at spans a (e - a) (omega (arith, e_in, high)) ∙ ap (at s.base_address) sum_e)
              (subst
                (λ b.
                  link_behind env 8 (at b e) (if e - a == 0 then a - o else e - a) s4 ≡ ok tt s5)
                base4 eq5)
              (check s5 holds5 base5 o at_o) (check s5 holds5 base5 a at_a)
              (check s5 holds5 base5 e at_e) (a - o - 1)
              (size_difference-eq (a - o) 1 (omega (arith, low))
                (omega (arith, e_in, high, spans.short)))
              s0
              (subst (λ z. ensure_space env z s0 ≡ ok true s)
                (sym (
                  ap (λ b. grown_end_offset env b (at s.base_address a) (e - a)) base0
                  ∙ end_offset))
                eq1),
          holds5,
          base5,
          Kept-trans (Kept-fewer (λ x h. ground (arith, h)) k2) (
              Kept-trans (Kept-fewer (λ x h. ground (arith, h)) k3)
                (Kept-trans k4 (Kept-fewer (λ x h. ground (arith, h)) k5))),
        )
