-- ===== src/FreeList/Unregister.antt =====
-- `unregister_free_space` of src/allocator.rs takes a chunk out of the lists that memory stores.
use picoalloc.Base.{
  ℕ, ◌≡◌, true, false, ◌==◌, ◌!=◌, Option, none, some, update, if◌then◌else◌, arith, refl,
  Option-cases, inl, inr,
}
use picoalloc.BitMask.{BitIndex}
use picoalloc.BitMask.Members.{unset-contains}
use picoalloc.Chunk.{Pointer, null, Granule, is_null, is_allocated}
use picoalloc.Chunk.Laws.{chunk_size_round_trip}
use picoalloc.Machine.{State, Outcome, ok, paranoid_assert, set_prev_in_list, pure}
use picoalloc.Allocator.{
  size_to_bin_round_down, set_first, unset_bin, unregister_free_space_first_chunk,
  unregister_free_space, unlink,
}
use picoalloc.FreeList.{Lists, IsLinked, bin_of, remove, removed}
use picoalloc.FreeList.Represents.{
  at, Represents, Framed, bin_of-lt, not_null, check_access-ok, load-ok, first_of-ok,
  round_down-index, set_prev_in_list-ok, set_next_in_list-ok, Framed-update, Framed-trans,
}

-- The outcome: a normal return to a state that stores the lists without the chunk.
abbrev pub Unregistered : {E : Type 0} → Lists → State E → Lists → Outcome E (Unit {0}) → Type 0
Unregistered {E} l s l' r = (t : State E) × (r ≡ ok tt t) × Represents t l' × Framed l s t

module _ {E : Type 0} (s : State E) (l : Lists) (linked : IsLinked l) (rep : Represents s l) (o : ℕ)
    (h : l.is_free o ≡ true) where
  abbrev chunk : Pointer
  chunk = at s.base_address o

  abbrev g : Granule
  g = s.memory chunk

  abbrev bin : BitIndex
  bin = size_to_bin_round_down (l.size o)

  free_header : is_allocated g.size ≡ false
  free_header = ground (arith, rep.header o, rep.inside o, chunk_size_round_trip (l.size o))

  set_first-ok :
      (p : Pointer)
      → set_first bin p s
        ≡ ok tt
            (record s { first_in_free_list = update s.first_in_free_list (bin_of (l.size o)) p })
  unfolding set_first bin_of
  set_first-ok p = ground (arith, bin_of-lt (l.size o))

  next_ne_self : (g.next_in_list != chunk) ≡ true
  next_ne_self = elim (Option-cases (l.succ o)) [
    | inl none_next ↦ ground (arith, rep.header o, rep.space.based)
    | inr (n, next) ↦ ground (arith, rep.header o, linked.succ_node o n)
  ]

  prev_ne_self : (g.prev_in_list != chunk) ≡ true
  prev_ne_self = elim (Option-cases (l.pred o)) [
    | inl none_prev ↦ ground (arith, rep.header o, rep.space.based)
    | inr (p, prev) ↦ ground (arith, rep.header o, linked.pred_node o p, linked.succ_node p o)
  ]

  abbrev unheaded : State E
  unheaded = record s {
    first_in_free_list = update s.first_in_free_list (bin_of (l.size o)) g.next_in_list;
  }

  -- The head of a list: every assertion holds, and the next chunk becomes the head.
  first_steps :
      l.pred o ≡ none
      → unregister_free_space_first_chunk chunk bin s
        ≡ (if is_null g.next_in_list then unset_bin bin else set_prev_in_list g.next_in_list null)
            unheaded
  unfolding unregister_free_space_first_chunk paranoid_assert
  first_steps hp =
      rw
        (
          check_access-ok s rep.space o (rep.inside o h).0 24 (omega arith),
          first_of-ok s (l.size o),
          is_head,
          load-ok s rep.space o (rep.inside o h).0,
          free_header,
          no_prev,
          next_ne_self,
          set_first-ok g.next_in_list,
        )
        refl
    where
      is_head : (s.first_in_free_list (bin_of (l.size o)) == chunk) ≡ true
      is_head = ground (arith, rep.first (bin_of (l.size o)), linked.top o)

      no_prev : is_null g.prev_in_list ≡ true
      no_prev = unfold is_null in ground (arith, rep.header o)

  -- The head of a list with one chunk: the bit of the bin goes.
  first_alone :
      l.pred o ≡ none
      → l.succ o ≡ none
      → Unregistered l s (removed l o none none) (unregister_free_space_first_chunk chunk bin s)
  unfolding unset_bin
  first_alone hp hs =
      let (m, eq, wf, contains_m) =
        unset-contains s.free_lists_with_unallocated_memory (bin_of (l.size o)) rep.mask
          (bin_of-lt (l.size o)) in
      rw (first_steps hp, no_next, round_down-index (l.size o), eq)
        (
          record unheaded { free_lists_with_unallocated_memory = m },
          refl,
          record {
            space = rep.space;
            inside = λ x e. ground (arith, rep.inside x);
            header = λ x e. ground (arith, rep.header x);
            first = λ b. ground (arith, rep.first b, rep.header o);
            mask = wf;
            bit = λ b lt. ground (arith, rep.bit b, contains_m b);
          },
          record {
            base = refl;
            space = refl;
            env = refl;
            sizes = λ p. (refl, refl);
            others = λ p apart. refl;
          },
        )
    where
      no_next : is_null g.next_in_list ≡ true
      no_next = unfold is_null in ground (arith, rep.header o)

  -- The head of a longer list: the next chunk loses its predecessor.
  first_of_many :
      (n : ℕ)
      → l.pred o ≡ none
      → l.succ o ≡ some n
      → Unregistered l s (removed l o (some n) none) (unregister_free_space_first_chunk chunk bin s)
  first_of_many n hp hs =
      let (n_free, same_bin, back, older) = linked.succ_node o n h hs in
      rw
        (
          first_steps hp,
          is_next,
          next_eq,
          set_prev_in_list-ok unheaded' rep.space n (rep.inside n n_free).0 null,
        )
        (
          _,
          refl,
          record {
            space = rep.space;
            inside = λ x e. ground (arith, rep.inside x);
            header = λ x e. ground (arith, rep.header x, rep.header n, linked.succ_node o n);
            first = λ b. ground (arith, rep.first b);
            mask = rep.mask;
            bit = λ b lt. ground (arith, rep.bit b, linked.top o);
          },
          Framed-update l s _ n _ n_free refl refl refl refl refl refl,
        )
    where
      is_next : is_null g.next_in_list ≡ false
      is_next = unfold is_null in ground (arith, rep.header o, rep.space.based)

      next_eq : g.next_in_list ≡ at s.base_address n
      next_eq = ground (arith, rep.header o)

      unheaded' : State E
      unheaded' = record s {
        first_in_free_list = update s.first_in_free_list (bin_of (l.size o)) (at s.base_address n);
      }

  -- Behind the head: every assertion holds, and the neighbours are linked to each other.
  unlink_steps :
      (p : ℕ)
      → l.pred o ≡ some p
      → unregister_free_space chunk bin s
        ≡ (if is_null g.next_in_list
              then pure tt
              else set_prev_in_list g.next_in_list (at s.base_address p))
            (record s {
              memory =
                  update s.memory
                    (at s.base_address p)
                    (record (s.memory (at s.base_address p)) { next_in_list = g.next_in_list });
            })
  unfolding unregister_free_space unlink paranoid_assert
  unlink_steps p hp =
      let (p_free, same_bin, ahead) = linked.pred_node o p h hp in
      rw
        (
          check_access-ok s rep.space o (rep.inside o h).0 24 (omega arith),
          first_of-ok s (l.size o),
          not_head,
          load-ok s rep.space o (rep.inside o h).0,
          free_header,
          next_ne_self,
          prev_ne_self,
          prev_eq,
          not_null s rep.space p (rep.inside p p_free).0,
          set_next_in_list-ok s rep.space p (rep.inside p p_free).0 g.next_in_list,
        )
        refl
    where
      not_head : (s.first_in_free_list (bin_of (l.size o)) == chunk) ≡ false
      not_head = elim (Option-cases (l.heads (bin_of (l.size o)))) [
        | inl none_head ↦ ground (arith, rep.first (bin_of (l.size o)), rep.space.based)
        | inr (x, head) ↦
            ground (arith, rep.first (bin_of (l.size o)), linked.head_node (bin_of (l.size o)) x)
      ]

      prev_eq : g.prev_in_list ≡ at s.base_address p
      prev_eq = ground (arith, rep.header o)

  abbrev linked_past : ℕ → State E
  linked_past p = record s {
    memory =
        update s.memory (at s.base_address p)
          (record (s.memory (at s.base_address p)) { next_in_list = g.next_in_list });
  }

  -- The last chunk of a list with others.
  unlink_last :
      (p : ℕ)
      → l.pred o ≡ some p
      → l.succ o ≡ none
      → Unregistered l s (removed l o none (some p)) (unregister_free_space chunk bin s)
  unlink_last p hp hs =
      let (p_free, same_bin, ahead) = linked.pred_node o p h hp in
      rw (unlink_steps p hp, no_next)
        (
          linked_past p,
          refl,
          record {
            space = rep.space;
            inside = λ x e. ground (arith, rep.inside x);
            header = λ x e. ground (arith, rep.header x, rep.header o);
            first = rep.first;
            mask = rep.mask;
            bit = rep.bit;
          },
          Framed-update l s _ p _ p_free refl refl refl refl refl refl,
        )
    where
      no_next : is_null g.next_in_list ≡ true
      no_next = unfold is_null in ground (arith, rep.header o)

  abbrev linked_to : ℕ → ℕ → State E
  linked_to p n = record s {
    memory =
        update s.memory (at s.base_address p)
          (record (s.memory (at s.base_address p)) { next_in_list = at s.base_address n });
  }

  -- A chunk between two others.
  unlink_middle :
      (p n : ℕ)
      → l.pred o ≡ some p
      → l.succ o ≡ some n
      → Unregistered l s (removed l o (some n) (some p)) (unregister_free_space chunk bin s)
  unlink_middle p n hp hs =
      let (p_free, p_bin, ahead) = linked.pred_node o p h hp in
      let (n_free, n_bin, back, older) = linked.succ_node o n h hs in
      let (_, _, _, newer) = linked.succ_node p o p_free ahead in
      let p_written = Framed-update l s (linked_to p n) p _ p_free refl refl refl refl refl refl in
      rw
        (
          unlink_steps p hp,
          is_next,
          next_eq,
          set_prev_in_list-ok (linked_to p n) rep.space n (rep.inside n n_free).0
              (at s.base_address p),
        )
        (
          _,
          refl,
          record {
            space = rep.space;
            inside = λ x e. ground (arith, rep.inside x);
            header = λ x e. ground (arith, rep.header x, rep.header n);
            first = rep.first;
            mask = rep.mask;
            bit = rep.bit;
          },
          Framed-trans p_written
              (Framed-update l (linked_to p n) _ n _ n_free refl refl refl refl refl refl),
        )
    where
      is_next : is_null g.next_in_list ≡ false
      is_next = unfold is_null in ground (arith, rep.header o, rep.space.based)

      next_eq : g.next_in_list ≡ at s.base_address n
      next_eq = ground (arith, rep.header o)

  -- `unregister_free_space` of the head is `unregister_free_space_first_chunk`.
  head_steps :
      l.pred o ≡ none
      → unregister_free_space chunk bin s ≡ unregister_free_space_first_chunk chunk bin s
  unfolding unregister_free_space
  head_steps hp =
      rw
        (
          check_access-ok s rep.space o (rep.inside o h).0 24 (omega arith),
          first_of-ok s (l.size o),
          is_head,
        )
        refl
    where
      is_head : (s.first_in_free_list (bin_of (l.size o)) == chunk) ≡ true
      is_head = ground (arith, rep.first (bin_of (l.size o)), linked.top o)

  unregister_by_links :
      (next prev : Option ℕ)
      → l.succ o ≡ next
      → l.pred o ≡ prev
      → Unregistered l s (removed l o next prev) (unregister_free_space chunk bin s)
  unregister_by_links none none hs hp = rw (head_steps hp) (first_alone hp hs)
  unregister_by_links (some n) none hs hp = rw (head_steps hp) (first_of_many n hp hs)
  unregister_by_links none (some p) hs hp = unlink_last p hp hs
  unregister_by_links (some n) (some p) hs hp = unlink_middle p n hp hs

  first_by_link :
      (next : Option ℕ)
      → l.succ o ≡ next
      → l.pred o ≡ none
      → Unregistered l s (removed l o next none) (unregister_free_space_first_chunk chunk bin s)
  first_by_link none hs hp = first_alone hp hs
  first_by_link (some n) hs hp = first_of_many n hp hs

-- `unregister_free_space` of a chunk that the stored lists hold as free, wherever it stands in the
-- list of its bin, fails no assertion and returns. The state then stores the lists without the
-- chunk, with the bit of a bin whose list is empty cleared; no header size and no granule that is
-- not a free chunk changes.
pub unregister_free_space-Represents :
    {E : Type 0} (s : State E) (l : Lists) (o : ℕ)
    → IsLinked l
    → Represents s l
    → l.is_free o ≡ true
    → Unregistered l s
        (remove l o)
        (unregister_free_space (at s.base_address o) (size_to_bin_round_down (l.size o)) s)
unregister_free_space-Represents s l o linked rep h =
    unregister_by_links s l linked rep o h (l.succ o) (l.pred o) refl refl

-- The same of `unregister_free_space_first_chunk` for a chunk that heads its list.
pub unregister_first-Represents :
    {E : Type 0} (s : State E) (l : Lists) (o : ℕ)
    → IsLinked l
    → Represents s l
    → l.is_free o ≡ true
    → l.pred o ≡ none
    → Unregistered l s (removed l o (l.succ o) none) (
        unregister_free_space_first_chunk
          (at s.base_address o)
          (size_to_bin_round_down (l.size o))
          s)
unregister_first-Represents s l o linked rep h hp =
    first_by_link s l linked rep o h (l.succ o) refl hp
