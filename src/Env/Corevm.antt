-- ===== src/Env/Corevm.antt =====
-- src/env/corevm.rs: `System` over the imported `alloc` and `free`, which are parameters.
use picoalloc.Base.{ℕ, true, some, refl}
use picoalloc.Size.{Size, bytes}
use picoalloc.Env.{Env, KeepsTotal}

module _ {E : Type 0} (host_alloc : E → ℕ → ℕ × E) (host_free : E → ℕ → ℕ → E) (total : Size) where
  unfoldable pub corevm_env : Env E
  corevm_env = record {
    total_space = λ _. total;
    allocate_address_space = λ e. some (host_alloc e (bytes total));
    expand_memory_until = λ e _ _. (true, e);
    free_address_space = λ e base. some (host_free e base (bytes total));
  }

  pub corevm_env-KeepsTotal : KeepsTotal corevm_env
  unfolding corevm_env
  corevm_env-KeepsTotal = record { on_allocate = λ e e' p h. refl; on_expand = λ e base size. refl }
