-- ===== src/FreeList/Remove.antt =====
-- A free chunk out of its list.
use picoalloc.Base.{ℕ, ◌≡◌, true, Option, none, some, arith, refl}
use picoalloc.FreeList.{Lists, IsLinked, removed, remove}

-- One field for each shape of the links; the neighbours of `o` are looked up beside the chunk
-- that the field is about.
module _ (l : Lists) (linked : IsLinked l) (o : ℕ) (h : l.is_free o ≡ true) where
  open linked use {head_node, top, succ_node, pred_node, fresh}

  removed-IsLinked : (s p : Option ℕ) → l.succ o ≡ s → l.pred o ≡ p → IsLinked (removed l o s p)
  removed-IsLinked none none hs hp = record {
    head_node = λ bin x e. ground (arith, head_node bin x, head_node bin o);
    top = λ x e q. ground (arith, top x, top o);
    succ_node = λ x y e q. ground (arith, succ_node x y, succ_node x o, pred_node y x);
    pred_node = λ x y e q. ground (arith, pred_node x y, pred_node x o, succ_node y x);
    fresh = λ x e. ground (arith, fresh x);
  }
  removed-IsLinked (some n) none hs hp = record {
    head_node = λ bin x e. ground (arith, head_node bin x, head_node bin o, succ_node o n);
    top = λ x e q. ground (arith, top x, top o, succ_node o n);
    succ_node =
        λ x y e q. ground (arith, succ_node x y, succ_node x o, pred_node y x, succ_node o n);
    pred_node =
        λ x y e q. ground (arith, pred_node x y, pred_node x o, succ_node y x, succ_node o n);
    fresh = λ x e. ground (arith, fresh x);
  }
  removed-IsLinked none (some p) hs hp = record {
    head_node = λ bin x e. ground (arith, head_node bin x, head_node bin o, pred_node o p);
    top = λ x e q. ground (arith, top x, top o, pred_node o p);
    succ_node =
        λ x y e q. ground (arith, succ_node x y, succ_node x o, pred_node y x, pred_node o p);
    pred_node =
        λ x y e q. ground (arith, pred_node x y, pred_node x o, succ_node y x, pred_node o p);
    fresh = λ x e. ground (arith, fresh x);
  }
  removed-IsLinked (some n) (some p) hs hp = record {
    head_node =
        λ bin x e. ground (arith, head_node bin x, head_node bin o, succ_node o n, pred_node o p);
    top = λ x e q. ground (arith, top x, top o, succ_node o n, pred_node o p);
    succ_node = λ x y e q.
        ground (arith, succ_node x y, succ_node x o, pred_node y x, succ_node o n, pred_node o p);
    pred_node = λ x y e q.
        ground (arith, pred_node x y, pred_node x o, succ_node y x, succ_node o n, pred_node o p);
    fresh = λ x e. ground (arith, fresh x);
  }

-- Taking a free chunk out of its list, wherever it stands in it, keeps the lists well linked.
pub remove-IsLinked : (l : Lists) (o : ℕ) → IsLinked l → l.is_free o ≡ true → IsLinked (remove l o)
remove-IsLinked l o linked h = removed-IsLinked l linked o h (l.succ o) (l.pred o) refl refl
