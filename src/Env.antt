-- ===== src/Env.antt =====
-- src/env.rs: the interface `Env` between the allocator and the system.
pub mod Array
pub mod Linux
pub mod Wasm
pub mod Polkavm
pub mod Corevm
use picoalloc.Base.{ℕ, Bool, Option, some, ◌≡◌, ◌≤◌, true}
use picoalloc.Size.{Size}

-- The trait `Env` over a type of environments. A method with `&mut self` returns the new
-- environment; `none` is a call of `abort`.
pub record Env (E : Type 0) : Type 0 where
  pub total_space : E → Size
  pub allocate_address_space : E → Option (ℕ × E)
  pub expand_memory_until : E → ℕ → Size → Bool × E
  pub free_address_space : E → ℕ → Option E

-- What the allocator relies on: `total_space` is the same before and after each call.
pub record KeepsTotal {E : Type 0} (env : Env E) : Type 0 where
  pub on_allocate :
      (e e' : E) (p : ℕ)
      → env.allocate_address_space e ≡ some (p, e')
      → env.total_space e' ≡ env.total_space e
  pub on_expand :
      (e : E) (base : ℕ) (size : Size)
      → env.total_space (env.expand_memory_until e base size).1 ≡ env.total_space e

-- The environment has memory up to `limit` granules at most.
abbrev pub Limited : {E : Type 0} → Env E → Size → Type 0
Limited {E} env limit =
    (e : E) (base : ℕ) (until : Size)
    → (env.expand_memory_until e base until).0 ≡ true
    → until ≤ limit
