-- ===== src/Tiles/Carve.antt =====
-- The steps of `alloc_impl` in src/allocator.rs that cut an allocation out of a free chunk.
use picoalloc.Base.{
  some, ℕ, ◌+◌, ◌-◌, ◌≤◌, ◌<◌, ◌^◌, ◌≡◌, Bool, true, false, not, ◌&&◌, ◌==◌, Bool-cases, arith,
  if◌then◌else◌, sym, ap, ap₂, ◌∙◌, subst, dec_lt, none, inl, inr,
}
use picoalloc.Size
use picoalloc.Size.{Size}
use picoalloc.Chunk.Laws.{unchecked_sub-eq}
use picoalloc.Tiles.Absorb.{size_sum-eq}
use picoalloc.Chunk.{unchecked_add, unchecked_sub, chunk_size}
use picoalloc.Env.{Env}
use picoalloc.Machine.{State, Outcome, ok, load}
use picoalloc.Allocator.{
  size_to_bin_round_down, unregister_free_space_first_chunk, register_free_space,
  register_allocation, link_behind, paranoid_check_chunk,
}
use picoalloc.Allocator.Alloc.{carve}
use picoalloc.FreeList.{Lists, IsLinked, removed}
use picoalloc.FreeList.Remove.{remove-IsLinked}
use picoalloc.FreeList.Represents.{at, load-ok}
use picoalloc.FreeList.Unregister.{unregister_first-Represents}
use picoalloc.Tiles.{allocation, Tiles, placed, placed_free, allotted, Same}
use picoalloc.Tiles.Merge.{Boundary}
use picoalloc.Tiles.Holds.{
  Spans-InSpace, Spans-kept, Headers, header, header_lem, Agrees, Holds, add-at,
}
use picoalloc.Tiles.Check.{check_chunk-ok, check_end-ok}
use picoalloc.Tiles.Loose.{Kept, Kept-trans, Kept-fewer, Framed-Headers}
use picoalloc.Tiles.Settle.{linked_behind, link_behind-Headers}
use picoalloc.Tiles.Write.{
  Writes, insert_free, register_allocation-Writes, register_free_space-Writes,
}
use picoalloc.Tiles.Calls.{carve_run}
use picoalloc.Tiles.Allocations.{allocation-allotted}
use picoalloc.Tiles.Allot.{written-allotted, allotted-IsTiled, allotted-IsCoalesced}
use picoalloc.Tiles.Around.{chunk_end}

-- Headers of the same chunks are as good.
pub Headers-same :
    {E : Type 0} (s : State E) (a b : Tiles) → ((x : ℕ) → Same a b x) → Headers s a → Headers s b
unfolding header
Headers-same s a b same headers = record {
  touched = λ o h. headers.touched o ((same o).0 ∙ h);
  size = λ o h. headers.size o ((same o).0 ∙ h) ∙ ground (arith, (same o).1 h);
  prev = λ o h. headers.prev o ((same o).0 ∙ h) ∙ ((same o).1 h).1;
}

module _ {E : Type 0} (env : Env E) (total : Size) (s : State E) (t : Tiles) (l : Lists)
    (holds : Holds env total s t l) (c h n : ℕ) (from : t.starts c ≡ true)
    (unused : t.used c ≡ false) (low : c ≤ h) (some_size : h < n) (high : n ≤ c + t.size c)
    (top : l.pred c ≡ none) (reach : n ≤ s.allocated_space)
    (reach_n : n < c + t.size c → n < s.allocated_space) where
  open holds use {spans, tiled, tight, headers, agrees, linked, lists}

  abbrev e : ℕ
  e = c + t.size c

  e_in : e ≤ total
  e_in = (tiled.within c from).1

  abbrev t' : Tiles
  t' = allotted t c h n

  is_free : l.is_free c ≡ true
  is_free = ground (arith, agrees.free c)

  -- The lists on the way.
  abbrev l1 : Lists
  l1 = removed l c (l.succ c) none

  abbrev l2 : Lists
  l2 = insert_free l1 c (h - c)

  abbrev pub l3 : Lists
  l3 = insert_free l2 n (e - n)

  l1-IsLinked : IsLinked l1
  l1-IsLinked =
      subst (λ p. IsLinked (removed l c (l.succ c) p)) top (remove-IsLinked l c linked is_free)

  abbrev p1 : Size
  p1 = if h - c == 0 then t.prev c else h - c

  abbrev u1 : Tiles
  u1 = placed_free t c (t.prev c) (h - c)

  abbrev u2 : Tiles
  u2 = placed u1 h p1 (n - h) true

  abbrev u3 : Tiles
  u3 = placed_free u2 n (n - h) (e - n)

  abbrev p3 : Size
  p3 = if e - n == 0 then n - h else e - n

  abbrev Reaches : {A : Type 0} → Tiles → Lists → A → State E → Outcome E A → Type 0
  Reaches u k a before r =
      (s' : State E) × (r ≡ ok a s')
      × Writes env total s' u k
      × (s'.base_address ≡ s.base_address)
      × (s'.allocated_space ≡ s.allocated_space)
      × Kept u before s'

  unregistered : Reaches t l1 tt s (
      unregister_free_space_first_chunk (at s.base_address c) (size_to_bin_round_down (t.size c)) s)
  unregistered =
      let (s1, eq, rep, framed) = unregister_first-Represents s l c linked lists is_free top in
      (
        s1,
        subst
            (λ z.
              unregister_free_space_first_chunk (at s.base_address c) (size_to_bin_round_down z) s
              ≡ ok tt s1)
            (agrees.size c from unused) eq,
        record {
          spans = Spans-kept spans framed.base framed.space framed.env;
          headers = Framed-Headers s s1 t l framed headers;
          linked = l1-IsLinked;
          lists = rep;
          free_starts = λ x f. ground (arith, agrees.free x);
        },
        framed.base,
        framed.space,
        record {
          base = framed.base;
          space = framed.space;
          env = framed.env;
          contents = λ p apart. framed.others p (λ x f. apart x (ground (arith, agrees.free x)));
        },
      )

  -- Within the chunk nothing else starts.
  inner : (x : ℕ) → c < x → x < e → t.starts x ≡ false
  inner x lt lt' = ground (arith, tiled.gap c x)

  not_free_l1 : (x : ℕ) → c ≤ x → x < e → l1.is_free x ≡ false
  not_free_l1 x le lt = ground (arith, agrees.free x, inner x)

  not_free_l2 : (x : ℕ) → h ≤ x → x < e → l2.is_free x ≡ false
  not_free_l2 x le lt = ground (arith, not_free_l1 x)

  -- One write in a state on the way.
  module _ (s1 : State E) (u : Tiles) (k : Lists) (writes : Writes env total s1 u k)
      (base : s1.base_address ≡ s.base_address) (space : s1.allocated_space ≡ s.allocated_space)
      (o prev size : ℕ) (small : size ≤ total) where
    short : size < 2 ^ 27
    short = omega (arith, spans.short)

    free_step :
        (0 < size → (o < s.allocated_space) × (k.is_free o ≡ false))
        → Reaches
            (placed_free u o prev size)
            (insert_free k o size)
            (if size == 0 then prev else size)
            s1
            (register_free_space (at s.base_address o) prev size s1)
    free_step ready =
        let (s2, eq, writes2, kept) =
          register_free_space-Writes env total s1 u k o prev size writes
            (λ pos. rw space (ready pos)) short in
        (
          s2,
          subst
              (λ b.
                register_free_space (at b o) prev size s1
                ≡ ok (if size == 0 then prev else size) s2)
              base eq,
          writes2,
          kept.base ∙ base,
          kept.space ∙ space,
          kept,
        )

    allocation_step :
        o < s.allocated_space
        → k.is_free o ≡ false
        → Reaches
            (placed u o prev size true)
            k
            tt
            s1
            (register_allocation (at s.base_address o) prev size s1)
    allocation_step inside not_free =
        let (s2, eq, writes2, kept) =
          register_allocation-Writes env total s1 u k writes o (rw space inside) not_free prev size
            short in
        (
          s2,
          subst (λ b. register_allocation (at b o) prev size s1 ≡ ok tt s2) base eq,
          writes2,
          kept.base ∙ base,
          kept.space ∙ space,
          kept,
        )

  to_u3 : Boundary total u3 e
  unfolding Boundary
  to_u3 = elim (chunk_end total t tiled c from) [
    | inl at_end ↦ inl at_end
    | inr starts ↦ inr (ground (arith, starts))
  ]

  -- The end: the chunk behind is told, and the headers are those of `allotted`.
  abbrev Ends : State E → Outcome E (Unit {0}) → Type 0
  Ends s3 r =
      (s' : State E) × (r ≡ ok tt s')
      × Holds env total s' t' l3
      × (s'.base_address ≡ s.base_address)
      × (s'.allocated_space ≡ s.allocated_space)
      × Kept u3 s3 s'

  same : (x : ℕ) → Same (linked_behind u3 e p3) t' x
  same = written-allotted total t tiled tight c h n from unused low some_size high

  free_u3 : (x : ℕ) → l3.is_free x ≡ (u3.starts x && not (u3.used x))
  free_u3 x = ground (arith, agrees.free x, inner x)

  size_u3 : (x : ℕ) → u3.starts x ≡ true → u3.used x ≡ false → l3.size x ≡ u3.size x
  size_u3 x g f = ground (arith, agrees.size x)

  agree : Agrees t' l3
  agree = record {
    free = λ x. free_same x (free_u3 x) (same x);
    size = λ x g f. size_same x (size_u3 x) (same x) g f;
  }
    where
      and_off : (a b : Bool) → a ≡ false → (a && b) ≡ false
      and_off a b off = ground arith

      free_same :
          (x : ℕ)
          → l3.is_free x ≡ (u3.starts x && not (u3.used x))
          → Same (linked_behind u3 e p3) t' x
          → l3.is_free x ≡ (t'.starts x && not (t'.used x))
      free_same x free (starts, rest) = elim (Bool-cases (t'.starts x)) [
        | inl on ↦ free ∙ ap₂ (λ a b. a && not b) starts (rest on).2
        | inr off ↦ free ∙ and_off _ _ (starts ∙ off) ∙ sym (and_off _ _ off)
      ]

      size_same :
          (x : ℕ)
          → (u3.starts x ≡ true → u3.used x ≡ false → l3.size x ≡ u3.size x)
          → Same (linked_behind u3 e p3) t' x
          → t'.starts x ≡ true
          → t'.used x ≡ false
          → l3.size x ≡ t'.size x
      size_same x size (starts, rest) g f =
          let (size_eq, prev_eq, used_eq) = rest g in size (starts ∙ g) (used_eq ∙ f) ∙ size_eq

  backed_after :
      (s4 : State E)
      → s4.allocated_space ≡ s.allocated_space
      → (x z : ℕ) → allocation t' x ≡ some z
      → x + z ≤ s4.allocated_space
  backed_after s4 space4 x z eq =
      let map = allocation-allotted total t c h n tiled tight from unused low some_size high x in
      rw space4 (ground (arith, map, holds.backed x z))

  last_step :
      (s3 : State E)
      → Writes env total s3 u3 l3
      → s3.base_address ≡ s.base_address
      → s3.allocated_space ≡ s.allocated_space
      → Ends s3 (link_behind env 24 (at s.base_address e) p3 s3)
  last_step s3 writes base space =
      let (s4, eq, spans4, headers4, lists4, kept) =
        link_behind-Headers env total s3 writes.spans u3 writes.headers l3 writes.lists e p3 24
          (omega arith) to_u3 in
      (
        s4,
        subst (λ b. link_behind env 24 (at b e) p3 s3 ≡ ok tt s4) base eq,
        record {
          spans = spans4;
          tiled = allotted-IsTiled total t tiled tight c h n from unused low some_size high;
          tight = allotted-IsCoalesced total t tiled tight c h n from unused low some_size high;
          headers =
              Headers-same s4 (linked_behind u3 e p3) t'
                (written-allotted total t tiled tight c h n from unused low some_size high)
                headers4;
          agrees = agree;
          linked = writes.linked;
          lists = lists4;
          backed = backed_after s4 (kept.space ∙ space);
        },
        kept.base ∙ base,
        kept.space ∙ space,
        kept,
      )

  u3_starts : (x : ℕ) → t.starts x ≡ true → u3.starts x ≡ true
  u3_starts x g = ground arith

  t'_starts : (x : ℕ) → u3.starts x ≡ true → t'.starts x ≡ true
  t'_starts x g = sym (same x).0 ∙ g

  starts_c : t'.starts c ≡ true
  starts_c = t'_starts c (u3_starts c from)

  pub starts_h : t'.starts h ≡ true
  starts_h = t'_starts h (ground arith)

  end_n : Boundary total t' n
  unfolding Boundary
  end_n = elim (dec_lt n e) [
    | yes lt ↦ inr (t'_starts n (ground arith))
    | no ge ↦ elim (chunk_end total t tiled c from) [
      | inl at_end ↦ inl (omega arith)
      | inr starts ↦
          inr (t'_starts n (u3_starts n (subst (λ x. t.starts x ≡ true) (omega arith) starts)))
    ]
  ]

  pub used_h : t'.used h ≡ true
  used_h = sym ((same h).1 starts_h).2 ∙ ground arith

  pub size_h : t'.size h ≡ n - h
  size_h = sym ((same h).1 starts_h).0 ∙ ground arith

  -- The checks after the writes.
  module _ (s5 : State E) (holds5 : Holds env total s5 t' l3)
      (base : s5.base_address ≡ s.base_address) where
    check_at :
        (o : ℕ) → Boundary total t' o → paranoid_check_chunk env (at s.base_address o) s5 ≡ ok tt s5
    unfolding Boundary
    check_at o to = elim to [
      | inl at_end ↦
          subst (λ b. paranoid_check_chunk env (at b o) s5 ≡ ok tt s5) base
            (subst (λ x. paranoid_check_chunk env (at s5.base_address x) s5 ≡ ok tt s5) (sym at_end)
              (check_end-ok env total s5 holds5.spans))
      | inr starts ↦
          subst (λ b. paranoid_check_chunk env (at b o) s5 ≡ ok tt s5) base
            (check_chunk-ok env total s5 holds5.spans t' holds5.tiled holds5.tight holds5.headers o
              starts)
    ]

    load_h : load (at s.base_address h) s5 ≡ ok (s5.memory (at s.base_address h)) s5
    load_h =
        subst (λ b. load (at b h) s5 ≡ ok (s5.memory (at b h)) s5) base
          (load-ok s5 (Spans-InSpace holds5.spans) h (holds5.headers.touched h starts_h))

    size_read : chunk_size ((s5.memory (at s.base_address h)).size) ≡ n - h
    size_read =
        ap chunk_size (
          subst (λ b. (s5.memory (at b h)).size ≡ header t' h) base
            (holds5.headers.size h starts_h))
        ∙ (header_lem t' h (omega (arith, size_h, e_in, spans.short))).0
        ∙ size_h

  boundary : (x : ℕ) → t'.starts x ≡ true → Boundary total t' x
  unfolding Boundary
  boundary x on = inr on

  full_eq : (r : Size) → n ≡ h + 1 + r → Size.unchecked_add r 1 ≡ n - h
  full_eq r n_eq = size_sum-eq r 1 (omega (arith, e_in, spans.short)) ∙ omega arith

  next_eq :
      (r : Size)
      → n ≡ h + 1 + r
      → unchecked_add (unchecked_add (at s.base_address h) 1) r ≡ at s.base_address n
  next_eq r n_eq =
      ap (λ p. unchecked_add p r) (add-at spans h 1 (omega (arith, e_in)))
      ∙ add-at spans (h + 1) r (omega (arith, e_in))
      ∙ ap (at s.base_address) (sym n_eq)

  end_eq : unchecked_add (at s.base_address n) (e - n) ≡ at s.base_address e
  end_eq = add-at spans n (e - n) (omega (arith, e_in)) ∙ ap (at s.base_address) (omega arith)

  back_eq : unchecked_sub (at s.base_address h) (h - c) ≡ at s.base_address c
  back_eq =
      ground
        (arith, unchecked_sub-eq (at s.base_address h) (h - c), spans.short, spans.no_wrap, e_in)

  all-Kept :
      (s1 s2 s3 s4 s5 : State E)
      → Kept t s s1
      → Kept u1 s1 s2
      → Kept u2 s2 s3
      → Kept u3 s3 s4
      → Kept u3 s4 s5
      → Kept t' s s5
  all-Kept s1 s2 s3 s4 s5 k1 k2 k3 k4 k5 =
      Kept-trans (Kept-fewer (λ x g. t'_starts x (u3_starts x g)) k1) (
        Kept-trans (Kept-fewer (λ x g. t'_starts x (ground arith)) k2) (
          Kept-trans (Kept-fewer (λ x g. t'_starts x (ground arith)) k3)
            (Kept-trans (Kept-fewer t'_starts k4) (Kept-fewer t'_starts k5))))

  abbrev pub Carved : Outcome E (Unit {0}) → Type 0
  Carved r =
      (s' : State E) × (r ≡ ok tt s')
      × Holds env total s' t' l3
      × (s'.base_address ≡ s.base_address)
      × (s'.allocated_space ≡ s.allocated_space)
      × Kept t' s s'

  pub carve-Carved :
      (r data_offset end_offset : Size)
      → n ≡ h + 1 + r
      → Carved (
          carve env
            (at s.base_address c)
            (size_to_bin_round_down (t.size c))
            r
            (record {
              data_offset = data_offset;
              allocation_chunk = at s.base_address h;
              free_space_lhs = h - c;
              free_space_rhs = e - n;
              end_offset = end_offset;
            })
            s)
  carve-Carved r data_offset end_offset n_eq =
      let (s1, eq1, w1, b1, a1, k1) = unregistered in
      let (s2, eq2, w2, b2, a2, k2) =
        free_step s1 t l1 w1 b1 a1 c (t.prev c) (h - c) (omega (arith, e_in))
          (λ pos. (headers.touched c from, ground arith)) in
      let (s3, eq3, w3, b3, a3, k3) =
        allocation_step s2 u1 l2 w2 b2 a2 h p1 (n - h) (omega (arith, e_in)) (omega arith)
          (not_free_l2 h (omega arith) (omega arith)) in
      let (s4, eq4, w4, b4, a4, k4) =
        free_step s3 u2 l2 w3 b3 a3 n (n - h) (e - n) (omega (arith, e_in))
          (λ pos. (reach_n (omega arith), not_free_l2 n (omega arith) (omega arith))) in
      let (s5, eq5, holds5, b5, a5, k5) = last_step s4 w4 b4 a4 in
      (
        s5,
        carve_run env s s1 s2 s3 s4 s5 (at s.base_address c) (at s.base_address h)
            (at s.base_address n) (at s.base_address e) (size_to_bin_round_down (t.size c))
            (t.prev c) p1 p3 (h - c) (e - n) (n - h) r data_offset end_offset
            (load-ok s (Spans-InSpace spans) c (headers.touched c from)) (headers.prev c from) eq1
            eq2 (full_eq r n_eq) eq3 (next_eq r n_eq) eq4 end_eq eq5 back_eq
            (check_at s5 holds5 b5 h (boundary h starts_h))
            (check_at s5 holds5 b5 c (boundary c starts_c)) (check_at s5 holds5 b5 n end_n)
            (load_h s5 holds5 b5) (size_read s5 holds5 b5),
        holds5,
        b5,
        a5,
        all-Kept s1 s2 s3 s4 s5 k1 k2 k3 k4 k5,
      )
