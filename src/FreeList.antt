-- ===== src/FreeList.antt =====
-- The specification of the free lists of src/allocator.rs: which chunks are free, at offsets in
-- granules from the base address, and how the lists of the bins link them.
pub mod Insert
pub mod Remove
pub mod Represents
pub mod Unregister
pub mod Register
use picoalloc.Base.{
  ℕ, suc, ◌+◌, ◌*◌, ◌<◌, ◌≡◌, Bool, true, false, ◌==◌, Option, none, some, update, if◌then◌else◌,
}
use picoalloc.Size.{Size}
use picoalloc.BitMask.{BitIndex}
use picoalloc.Allocator.{size_to_bin_round_down}

unfoldable pub bin_of : Size → ℕ
bin_of size = (size_to_bin_round_down size).index

-- The lists as functions of the offset. `rank` grows towards the head of a list: it is the time at
-- which the chunk was put there, counted by `clock`.
pub record Lists : Type 0 where
  pub is_free : ℕ → Bool
  pub size : ℕ → Size
  pub succ : ℕ → Option ℕ
  pub pred : ℕ → Option ℕ
  pub rank : ℕ → ℕ
  pub heads : ℕ → Option ℕ
  pub clock : ℕ

abbrev pub empty : Lists
empty = record {
  is_free = λ _. false;
  size = λ _. 0;
  succ = λ _. none;
  pred = λ _. none;
  rank = λ _. 0;
  heads = λ _. none;
  clock = 0;
}

-- The lists are doubly linked, end, hold free chunks of their bin only, and every free chunk
-- without a predecessor heads the list of its bin.
pub record IsLinked (l : Lists) : Type 0 where
  pub head_node :
      (bin o : ℕ)
      → l.heads bin ≡ some o
      → (l.is_free o ≡ true) × (bin_of (l.size o) ≡ bin) × (l.pred o ≡ none)
  pub top : (o : ℕ) → l.is_free o ≡ true → l.pred o ≡ none → l.heads (bin_of (l.size o)) ≡ some o
  pub succ_node :
      (o n : ℕ)
      → l.is_free o ≡ true
      → l.succ o ≡ some n
      → (l.is_free n ≡ true)
        × (bin_of (l.size n) ≡ bin_of (l.size o))
        × (l.pred n ≡ some o)
        × (l.rank n < l.rank o)
  pub pred_node :
      (o p : ℕ)
      → l.is_free o ≡ true
      → l.pred o ≡ some p
      → (l.is_free p ≡ true) × (bin_of (l.size p) ≡ bin_of (l.size o)) × (l.succ p ≡ some o)
  pub fresh : (o : ℕ) → l.is_free o ≡ true → l.rank o < l.clock

-- Writes through a link that may be missing.
abbrev pub update_at {ℓ} : {A : Type ℓ} → (ℕ → A) → Option ℕ → A → ℕ → A
update_at f none v = f
update_at f (some o) v = update f o v

-- The free chunk `o` of a size goes to the front of the list of its bin.
abbrev pub insert : Lists → ℕ → Size → Lists
insert l o size = record {
  is_free = update l.is_free o true;
  size = update l.size o size;
  succ = update l.succ o (l.heads (bin_of size));
  pred = update (update_at l.pred (l.heads (bin_of size)) (some o)) o none;
  rank = update l.rank o l.clock;
  heads = update l.heads (bin_of size) (some o);
  clock = suc l.clock;
}

-- The lists without `o`, given the links `s` and `p` of `o`.
abbrev pub removed : Lists → ℕ → Option ℕ → Option ℕ → Lists
removed l o s p = record {
  is_free = update l.is_free o false;
  size = l.size;
  succ = update_at l.succ p s;
  pred = update_at l.pred s p;
  rank = l.rank;
  heads = elim p [ none ↦ update l.heads (bin_of (l.size o)) s | some _ ↦ l.heads ];
  clock = l.clock;
}

-- The free chunk `o` leaves its list.
abbrev pub remove : Lists → ℕ → Lists
remove l o = removed l o (l.succ o) (l.pred o)
