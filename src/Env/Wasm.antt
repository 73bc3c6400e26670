-- ===== src/Env/Wasm.antt =====
-- src/env/wasm.rs: `System` over the linear memory of wasm32, with its two instructions and the
-- address `__heap_base` as parameters. `usize` has 32 bits there.
use picoalloc.Base.{
  ℕ, ◌+◌, ◌-◌, ◌*◌, ◌/◌, ◌%◌, Bool, true, ◌==◌, ◌!=◌, leb, u32, u32_max, some, if◌then◌else◌, refl,
}
use picoalloc.Size.{Size, bytes}
use picoalloc.Env.{Env, KeepsTotal}

-- `usize::next_multiple_of`
unfoldable pub next_multiple_of : ℕ → ℕ → ℕ
next_multiple_of x n = if x % n == 0 then x else x + (n - x % n)

abbrev pub page_size : ℕ
page_size = 64 * 1024

module _ {E : Type 0} (memory_size : E → ℕ) (memory_grow : E → ℕ → ℕ × E) (raw_heap_base : ℕ)
    (total : Size) where
  unfoldable pub heap_base : ℕ
  unfolding next_multiple_of
  heap_base = next_multiple_of raw_heap_base 32

  unfoldable pub grow_until : E → ℕ → Size → Bool × E
  unfolding next_multiple_of
  grow_until e base size =
      let current_size = u32 (memory_size e * page_size) in
      let required_size = u32 (base + bytes size) in
      let delta = next_multiple_of (required_size - current_size) page_size in
      let grown = memory_grow e (delta / page_size) in
      if leb required_size current_size then (true, e) else (grown.0 != u32_max, grown.1)

  unfoldable pub wasm_env : Env E
  unfolding heap_base grow_until
  wasm_env = record {
    total_space = λ _. total;
    allocate_address_space = λ e. some (heap_base, e);
    expand_memory_until = grow_until;
    free_address_space = λ e _. some e;
  }

  pub wasm_env-KeepsTotal : KeepsTotal wasm_env
  unfolding wasm_env
  wasm_env-KeepsTotal = record { on_allocate = λ e e' p h. refl; on_expand = λ e base size. refl }
