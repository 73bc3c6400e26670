-- ===== src/Env/Polkavm.antt =====
-- src/env/polkavm.rs: `System` over the `sbrk` instruction of PolkaVM and the one that reads the
-- start of the heap, which are parameters.
use picoalloc.Base.{
  ℕ, ◌+◌, ◌-◌, Bool, true, ◌==◌, ◌!=◌, leb, ltb, u64, u64_mod, some, if◌then◌else◌, refl,
}
use picoalloc.Size.{Size, bytes}
use picoalloc.Env.{Env, KeepsTotal}
use picoalloc.Env.Wasm.{next_multiple_of}

module _ {E : Type 0} (heap_start : E → ℕ) (sbrk : E → ℕ → ℕ × E) (total : Size) where
  -- Moves the break up to the first aligned address.
  unfoldable pub align_heap : E → ℕ × E
  align_heap e =
      let aligned_pointer = next_multiple_of (heap_start e) 32 in
      let (sbrk_pointer, e₁) = sbrk e 0 in
      let (moved, e₂) = sbrk e₁ (aligned_pointer - sbrk_pointer) in
      if ltb sbrk_pointer aligned_pointer
      then (if moved == 0 then (0, e₂) else (aligned_pointer, e₂))
      else (aligned_pointer, e₁)

  unfoldable pub sbrk_until : E → ℕ → Size → Bool × E
  sbrk_until e base size =
      let (break, e₁) = sbrk e 0 in
      let already = u64 (break + u64_mod - base) in
      let (moved, e₂) = sbrk e₁ (bytes size - already) in
      if leb (bytes size) already then (true, e₁) else (moved != 0, e₂)

  unfoldable pub polkavm_env : Env E
  unfolding align_heap sbrk_until
  polkavm_env = record {
    total_space = λ _. total;
    allocate_address_space = λ e. some (align_heap e);
    expand_memory_until = sbrk_until;
    free_address_space = λ e _. some e;
  }

  pub polkavm_env-KeepsTotal : KeepsTotal polkavm_env
  unfolding polkavm_env
  polkavm_env-KeepsTotal = record {
    on_allocate = λ e e' p h. refl;
    on_expand = λ e base size. refl;
  }
