-- ===== src/Tiles/Find.antt =====
-- The search of `alloc_impl` in src/allocator.rs for a bin with free chunks.
use picoalloc.Base.{
  zero, suc, is_some, ℕ, ◌+◌, ◌≤◌, ◌<◌, ◌≡◌, ◌⊎◌, inl, inr, Bool, true, false, arith, refl, sym, ap,
  ◌∙◌, subst, Option, none, some, Option-cases, dec_lt,
}
use picoalloc.Size.{Size}
use picoalloc.BitMask
use picoalloc.BitMask.{BitIndex}
use picoalloc.BitMask.Members.{contains}
use picoalloc.BitMask.Search.{IsFirst, find_first-IsFirst}
use picoalloc.Bins.{bin_config, to_bin_index}
use picoalloc.Bins.Order.{to_bin_index-lt}
use picoalloc.Env.{Env}
use picoalloc.Machine.{State, Outcome, ok}
use picoalloc.Allocator.{size_to_bin_round_down, size_to_bin_round_up, clamped}
use picoalloc.Allocator.Alloc.{find_bin}
use picoalloc.FreeList.{Lists, IsLinked, bin_of}
use picoalloc.FreeList.Represents.{bin_of-lt, round_down-index}
use picoalloc.Tiles.{Tiles}
use picoalloc.Tiles.Holds.{Holds}

-- Every free chunk stands in the list of its bin, so that list is not empty.
module _ (l : Lists) (linked : IsLinked l) where
  head_above :
      (fuel o : ℕ)
      → l.clock ≤ l.rank o + fuel
      → l.is_free o ≡ true
      → is_some (l.heads (bin_of (l.size o))) ≡ true
  head_above zero o enough free = absurd (omega (arith, linked.fresh o free))
  head_above (suc fuel) o enough free = elim (Option-cases (l.pred o)) [
    | inl top ↦ ap is_some (linked.top o free top)
    | inr (p, before) ↦
        let (free_p, same_bin, succ_p) = linked.pred_node o p free before in
        let (free_o, bin_o, back, higher) = linked.succ_node p o free_p succ_p in
        subst (λ bin. is_some (l.heads bin) ≡ true) same_bin
          (head_above fuel p (omega arith) free_p)
  ]

  pub is_free-head : (o : ℕ) → l.is_free o ≡ true → is_some (l.heads (bin_of (l.size o))) ≡ true
  is_free-head o free = head_above l.clock o (omega arith) free

module _ {E : Type 0} (env : Env E) (total : Size) (s : State E) (t : Tiles) (l : Lists)
    (holds : Holds env total s t l) where
  open holds use {agrees, linked, lists}

  -- A bin that the search returns has a chunk.
  abbrev pub Nonempty : Option BitIndex → Type 0
  Nonempty none = Unit {0}
  Nonempty (some b) = (c : ℕ) × (l.heads b.index ≡ some c) × (b ≡ size_to_bin_round_down (t.size c))

  nonempty :
      (b : BitIndex)
      → b ≡ BitMask.index b.index
      → b.index < bin_config.bin_count
      → contains s.free_lists_with_unallocated_memory b.index ≡ true
      → (c : ℕ) × (l.heads b.index ≡ some c) × (b ≡ size_to_bin_round_down (t.size c))
  nonempty b whole lt set = elim (Option-cases (l.heads b.index)) [
    | inl empty ↦ absurd (ground (arith, lists.bit b.index lt, empty))
    | inr (c, head) ↦
        let (free, bin, no_pred) = linked.head_node b.index c head in
        let size_eq : l.size c ≡ t.size c = ground (arith, agrees.free c, agrees.size c) in
        (
          c,
          head,
          whole
              ∙ ap BitMask.index (sym bin ∙ ap bin_of size_eq)
              ∙ sym (round_down-index (t.size c)),
        )
  ]

  searched :
      (start : ℕ)
      → start < bin_config.bin_count
      → (o : Option BitIndex) × (BitMask.find_first s.free_lists_with_unallocated_memory
            (BitMask.index start)
          ≡ some o)
        × Nonempty o
        × IsFirst s.free_lists_with_unallocated_memory start o
  searched start lt =
      let (o, eq, first) =
        find_first-IsFirst s.free_lists_with_unallocated_memory start lists.mask lt in
      (o, eq, by_first o first, first)
    where
      by_first :
          (o : Option BitIndex) → IsFirst s.free_lists_with_unallocated_memory start o → Nonempty o
      by_first none first = tt
      by_first (some b) (whole, below, reached, set, earlier) = nonempty b whole below set

  module _ (min_size : Size) where
    -- No free chunk is in a bin from the rounded-up one on.
    abbrev pub Missing : Type 0
    Missing =
        (o : ℕ)
        → t.starts o ≡ true
        → t.used o ≡ false
        → bin_of (t.size o) < to_bin_index true (clamped min_size)

    -- A bin is one from the rounded-up bin on, unless there is none.
    abbrev pub Origin : Option BitIndex → Type 0
    Origin none = Missing
    Origin (some b) = Missing ⊎ (to_bin_index true (clamped min_size) ≤ b.index)

    abbrev pub Found : Outcome E (Option BitIndex) → Type 0
    Found result = (o : Option BitIndex) × (result ≡ ok o s) × Nonempty o × Origin o

    bins : (up : Bool) → to_bin_index up (clamped min_size) < bin_config.bin_count
    unfolding clamped
    bins up = to_bin_index-lt up (clamped min_size) (ground arith)

    -- Where no bit is set from the rounded-up bin on, no free chunk is there.
    clear-Missing :
        IsFirst s.free_lists_with_unallocated_memory (to_bin_index true (clamped min_size)) none
        → Missing
    clear-Missing clear o from unused =
        elim (dec_lt (bin_of (t.size o)) (to_bin_index true (clamped min_size))) [
          | yes below ↦ below
          | no above ↦
              let is_free : l.is_free o ≡ true = ground (arith, agrees.free o) in
              let set : is_some (l.heads (bin_of (t.size o))) ≡ true =
                subst (λ z. is_some (l.heads (bin_of z)) ≡ true) (agrees.size o from unused)
                  (is_free-head l linked o is_free) in
              absurd (
                ground (
                  arith,
                  clear (bin_of (t.size o)) (omega arith) (bin_of-lt (t.size o)),
                  lists.bit (bin_of (t.size o)) (bin_of-lt (t.size o)),
                  set,
                ))
        ]

    first_of-Origin :
        (o : Option BitIndex)
        → IsFirst s.free_lists_with_unallocated_memory (to_bin_index true (clamped min_size)) o
        → Origin o
    first_of-Origin none first = clear-Missing first
    first_of-Origin (some b) first = inr first.2

    still : Missing → (o : Option BitIndex) → Origin o
    still missing none = missing
    still missing (some b) = inl missing

    second :
        (o : Option BitIndex)
        → BitMask.find_first s.free_lists_with_unallocated_memory (size_to_bin_round_up min_size)
          ≡ some o
        → Nonempty o
        → Origin o
        → Found (find_bin env min_size s)
    unfolding find_bin size_to_bin_round_down
    second (some b) eq chunk origin = rw eq (some b, refl, chunk, origin)
    second none eq chunk missing =
        let (o, eq', chunk', first') =
          searched (to_bin_index false (clamped min_size)) (bins false) in
        rw (eq, eq') (o, refl, chunk', still missing o)

    pub find_bin-Found : Found (find_bin env min_size s)
    unfolding size_to_bin_round_up
    find_bin-Found =
        let (o, eq, chunk, first) = searched (to_bin_index true (clamped min_size)) (bins true) in
        second o eq chunk (first_of-Origin o first)
