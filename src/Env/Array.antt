-- ===== src/Env/Array.antt =====
-- src/env.rs: `ArrayPointer`, an environment over a byte array of fixed size.
use mathlib.Core.Option
use picoalloc.Base.{ℕ, leb, Option, some, refl}
use picoalloc.Size.{Size, from_bytes_usize}
use picoalloc.Env.{Env, KeepsTotal}

-- `ArrayPointer<SIZE>`: the address of the array. `total` is the unwrapped size of `SIZE` bytes.
unfoldable pub array_env : Size → Env ℕ
array_env total = record {
  total_space = λ _. total;
  allocate_address_space = λ array. some (array, array);
  expand_memory_until = λ array _ size. (leb size total, array);
  free_address_space = λ array _. some array;
}

-- The constant `Size::from_bytes_usize(SIZE).unwrap()`; `none` does not compile.
unfoldable pub array_pointer : ℕ → Option (Env ℕ)
array_pointer size_in_bytes = Option.map array_env (from_bytes_usize size_in_bytes)

pub array_env-KeepsTotal : (total : Size) → KeepsTotal (array_env total)
unfolding array_env
array_env-KeepsTotal total = record {
  on_allocate = λ e e' p h. refl;
  on_expand = λ e base size. refl;
}
