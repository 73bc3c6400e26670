-- ===== src/Tiles/Loose.antt =====
-- States within a call of src/allocator.rs: the chunks of a range are off the free lists.
use picoalloc.Base.{
  ℕ, ◌≡◌, Bool, true, false, not, ◌&&◌, ◌||◌, ◌==◌, leb, ltb, arith, refl, sym, ap, ◌∙◌, subst,
}
use picoalloc.Size.{Size}
use picoalloc.Chunk.{Pointer}
use picoalloc.Env.{Env}
use picoalloc.Machine.{State, Outcome, ok}
use picoalloc.Allocator.{size_to_bin_round_down, unregister_free_space}
use picoalloc.FreeList.{Lists, IsLinked, remove}
use picoalloc.FreeList.Remove.{remove-IsLinked}
use picoalloc.FreeList.Represents.{at, Represents, Framed}
use picoalloc.FreeList.Unregister.{unregister_free_space-Represents}
use picoalloc.Tiles.{Tiles}
use picoalloc.Tiles.Holds.{Spans, Spans-kept, Headers}

abbrev pub within : ℕ → ℕ → ℕ → Bool
within lo hi o = leb lo o && ltb o hi

pub record Loose {E : Type 0} (env : Env E) (total : Size) (s : State E) (t : Tiles) (l : Lists)
    (lo hi : ℕ) : Type 0 where
  pub spans : Spans env total s
  pub headers : Headers s t
  pub linked : IsLinked l
  pub lists : Represents s l
  pub free : (o : ℕ) → l.is_free o ≡ (t.starts o && not (t.used o) && not (within lo hi o))
  pub size : (o : ℕ) → l.is_free o ≡ true → l.size o ≡ t.size o

-- The fields and every granule that is no header of the tiling are the same.
pub record Kept {E : Type 0} (t : Tiles) (s s' : State E) : Type 0 where
  pub base : s'.base_address ≡ s.base_address
  pub space : s'.allocated_space ≡ s.allocated_space
  pub env : s'.env ≡ s.env
  pub contents :
      (p : Pointer)
      → ((o : ℕ) → t.starts o ≡ true → at s.base_address o ≡ p → ⊥)
      → s'.memory p ≡ s.memory p

pub Kept-refl : {E : Type 0} (t : Tiles) (s : State E) → Kept t s s
Kept-refl t s = record { base = refl; space = refl; env = refl; contents = λ p apart. refl }

pub Kept-trans :
    {E : Type 0} {t : Tiles} {s s' s'' : State E} → Kept t s s' → Kept t s' s'' → Kept t s s''
Kept-trans a b = record {
  base = b.base ∙ a.base;
  space = b.space ∙ a.space;
  env = b.env ∙ a.env;
  contents = λ p apart.
      b.contents p (λ o h e. apart o h (ap (λ base. at base o) (sym a.base) ∙ e))
      ∙ a.contents p apart;
}

pub Framed-Headers :
    {E : Type 0} (s s' : State E) (t : Tiles) (l : Lists)
    → Framed l s s'
    → Headers s t
    → Headers s' t
Framed-Headers s s' t l framed headers = record {
  touched = λ o h. rw framed.space (headers.touched o h);
  size = λ o h. rw framed.base ((framed.sizes (at s.base_address o)).0 ∙ headers.size o h);
  prev = λ o h. rw framed.base ((framed.sizes (at s.base_address o)).1 ∙ headers.prev o h);
}

module _ {E : Type 0} (env : Env E) (total : Size) (s : State E) (t : Tiles) (l : Lists) (lo hi : ℕ)
    (loose : Loose env total s t l lo hi) where
  -- Taking a free chunk that the range gains off its list.
  abbrev Taken : ℕ → ℕ → Lists → Outcome E (Unit {0}) → Type 0
  Taken lo' hi' l' r =
      (s' : State E) × (r ≡ ok tt s') × Loose env total s' t l' lo' hi' × Kept t s s'

  pub take-Loose :
      (q lo' hi' : ℕ)
      → t.starts q ≡ true
      → t.used q ≡ false
      → within lo hi q ≡ false
      → ((x : ℕ) → t.starts x ≡ true → within lo' hi' x ≡ (within lo hi x || (x == q)))
      → Taken lo' hi'
          (remove l q)
          (unregister_free_space (at s.base_address q) (size_to_bin_round_down (t.size q)) s)
  take-Loose q lo' hi' h unused outside covers =
      let is_free : l.is_free q ≡ true = ground (arith, loose.free q) in
      let (s', eq, rep, framed) =
        unregister_free_space-Represents s l q loose.linked loose.lists is_free in
      (
        s',
        subst
            (λ n.
              unregister_free_space (at s.base_address q) (size_to_bin_round_down n) s ≡ ok tt s')
            (loose.size q is_free) eq,
        record {
          spans = Spans-kept loose.spans framed.base framed.space framed.env;
          headers = Framed-Headers s s' t l framed loose.headers;
          linked = remove-IsLinked l q loose.linked is_free;
          lists = rep;
          free = λ o. ground (arith, loose.free o, loose.free q, covers o);
          size = λ o e. ground (arith, loose.size o);
        },
        record {
          base = framed.base;
          space = framed.space;
          env = framed.env;
          contents = λ p apart. framed.others p (λ o e. apart o (ground (arith, loose.free o)));
        },
      )

-- What a smaller set of headers leaves alone, a larger one does.
pub Kept-fewer :
    {E : Type 0} {t u : Tiles} {s s' : State E}
    → ((o : ℕ) → u.starts o ≡ true → t.starts o ≡ true)
    → Kept u s s'
    → Kept t s s'
Kept-fewer sub kept = record {
  base = kept.base;
  space = kept.space;
  env = kept.env;
  contents = λ p apart. kept.contents p (λ o h. apart o (sub o h));
}
