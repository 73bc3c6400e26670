-- ===== src/Env/Linux.antt =====
-- src/env/linux.rs: `System` over `mmap` and `munmap`. The two system calls are parameters: each
-- returns the value of `rax`.
use picoalloc.Base.{ℕ, ◌-◌, ◌^◌, true, leb, Option, none, some, if◌then◌else◌, refl}
use picoalloc.Size.{Size, bytes}
use picoalloc.Env.{Env, KeepsTotal}

-- `abort_on_fail`: as an `isize` the result lies in [-4095, 0).
unfoldable pub abort_on_fail : ℕ → Option ℕ
abort_on_fail result = if leb (2 ^ 64 - 4095) result then none else some result

module _ {E : Type 0} (mmap : E → ℕ → ℕ × E) (munmap : E → ℕ → ℕ → ℕ × E) (total : Size) where
  map_space : E → Option (ℕ × E)
  unfolding abort_on_fail
  map_space e =
      let (result, e') = mmap e (bytes total) in
      elim (abort_on_fail result) [ none ↦ none | some p ↦ some (p, e') ]

  unmap_space : E → ℕ → Option E
  unfolding abort_on_fail
  unmap_space e base =
      let (result, e') = munmap e base (bytes total) in
      elim (abort_on_fail result) [ none ↦ none | some _ ↦ some e' ]

  unfoldable pub linux_env : Env E
  unfolding map_space unmap_space
  linux_env = record {
    total_space = λ _. total;
    allocate_address_space = map_space;
    expand_memory_until = λ e _ _. (true, e);
    free_address_space = unmap_space;
  }

  pub linux_env-KeepsTotal : KeepsTotal linux_env
  unfolding linux_env
  linux_env-KeepsTotal = record { on_allocate = λ e e' p h. refl; on_expand = λ e base size. refl }
