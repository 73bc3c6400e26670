-- ===== src/Base/Slice.antt =====
-- A fixed-length array of the crate as a function with its length. A read or a write out of range
-- is `none`: a panic of the checked builds, undefined behaviour of the others.
use Prim.Native.Nat.{ℕ}
use mathlib.Core.Option.{Option, none, some}
use picoalloc.Base.Tests.{ltb, ◌==◌, if◌then◌else◌}

abbrev pub update {ℓ} : {A : Type ℓ} → (ℕ → A) → ℕ → A → ℕ → A
update f i v j = if i == j then v else f j

unfoldable pub get_unchecked {ℓ} : {A : Type ℓ} → ℕ → (ℕ → A) → ℕ → Option A
get_unchecked len f i = if ltb i len then some (f i) else none

unfoldable pub set_unchecked {ℓ} : {A : Type ℓ} → ℕ → (ℕ → A) → ℕ → A → Option (ℕ → A)
set_unchecked len f i v = if ltb i len then some (update f i v) else none
