-- ===== src/FreeList/Insert.antt =====
-- A free chunk at the front of its list.
use picoalloc.Base.{
  ℕ, ◌<◌, ◌≡◌, true, false, Option, none, some, update, arith, inl, inr, Option-cases, refl,
}
use picoalloc.Size.{Size}
use picoalloc.FreeList.{Lists, IsLinked, bin_of, empty, insert, update_at}

module _ (l : Lists) (linked : IsLinked l) (o : ℕ) (size : Size) (h : l.is_free o ≡ false) where
  open linked use {head_node, top, succ_node, pred_node, fresh}

  abbrev l' : Lists
  l' = insert l o size

  insert_head :
      (bin x : ℕ)
      → l'.heads bin ≡ some x
      → (l'.is_free x ≡ true) × (bin_of (l'.size x) ≡ bin) × (l'.pred x ≡ none)
  insert_head bin x e = elim (Option-cases (l.heads (bin_of size))) [
    | inl empty ↦ rw empty (ground (arith, head_node bin x))
    | inr (old, e') ↦ rw e' (ground (arith, head_node bin x, head_node (bin_of size) old))
  ]

  top_at :
      (b : Option ℕ)
      → l.heads (bin_of size) ≡ b
      → (x : ℕ) → l'.is_free x ≡ true
      → update (update_at l.pred b (some o)) o none x ≡ none
      → l'.heads (bin_of (l'.size x)) ≡ some x
  top_at none at x e p = ground (arith, top x)
  top_at (some old) at x e p = ground (arith, top x)

  insert_top :
      (x : ℕ) → l'.is_free x ≡ true → l'.pred x ≡ none → l'.heads (bin_of (l'.size x)) ≡ some x
  insert_top = top_at (l.heads (bin_of size)) refl

  insert_succ :
      (x n : ℕ)
      → l'.is_free x ≡ true
      → l'.succ x ≡ some n
      → (l'.is_free n ≡ true)
        × (bin_of (l'.size n) ≡ bin_of (l'.size x))
        × (l'.pred n ≡ some x)
        × (l'.rank n < l'.rank x)
  insert_succ x n e q = elim (Option-cases (l.heads (bin_of size))) [
    | inl empty ↦ rw empty (ground (arith, succ_node x n))
    | inr (old, e') ↦
        rw e' (ground (arith, succ_node x n, head_node (bin_of size) old, fresh old, fresh n))
  ]

  pred_at :
      (b : Option ℕ)
      → l.heads (bin_of size) ≡ b
      → (x p : ℕ) → l'.is_free x ≡ true
      → update (update_at l.pred b (some o)) o none x ≡ some p
      → (l'.is_free p ≡ true)
        × (bin_of (l'.size p) ≡ bin_of (l'.size x))
        × (update l.succ o b p ≡ some x)
  pred_at none at x p e q = ground (arith, pred_node x p)
  pred_at (some old) at x p e q = ground (arith, pred_node x p, head_node (bin_of size) old)

  insert_pred :
      (x p : ℕ)
      → l'.is_free x ≡ true
      → l'.pred x ≡ some p
      → (l'.is_free p ≡ true) × (bin_of (l'.size p) ≡ bin_of (l'.size x)) × (l'.succ p ≡ some x)
  insert_pred = pred_at (l.heads (bin_of size)) refl

  insert_fresh : (x : ℕ) → l'.is_free x ≡ true → l'.rank x < l'.clock
  insert_fresh x e = ground (arith, fresh x)

  -- Putting a chunk that is not free at the front of its list keeps the lists well linked.
  pub insert-IsLinked : IsLinked l'
  insert-IsLinked = record {
    head_node = insert_head;
    top = insert_top;
    succ_node = insert_succ;
    pred_node = insert_pred;
    fresh = insert_fresh;
  }

pub empty-IsLinked : IsLinked empty
empty-IsLinked = record {
  head_node = λ bin o e. absurd (ground arith);
  top = λ o e p. absurd (ground arith);
  succ_node = λ o n e p. absurd (ground arith);
  pred_node = λ o n e p. absurd (ground arith);
  fresh = λ o e. absurd (ground arith);
}
