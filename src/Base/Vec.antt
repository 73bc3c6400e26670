-- ===== src/Base/Vec.antt =====
-- `Vec` and slices of the standard library, as a length with a function of the index.
use Prim.Native.Nat.{ℕ, ◌+◌, ◌-◌}
use picoalloc.Base.Tests.{ltb, if◌then◌else◌}
use picoalloc.Base.Slice.{update}

pub record Vec {ℓ} (A : Type ℓ) : Type ℓ where
  pub length : ℕ
  pub get : ℕ → A

abbrev pub empty {ℓ} : {A : Type ℓ} → A → Vec A
empty a = record { length = 0; get = λ _. a }

abbrev pub push {ℓ} : {A : Type ℓ} → Vec A → A → Vec A
push v a = record { length = v.length + 1; get = update v.get v.length a }

-- `swap_remove` of an index in range: the last element takes its place.
abbrev pub swap_remove {ℓ} : {A : Type ℓ} → Vec A → ℕ → Vec A
swap_remove v i = record { length = v.length - 1; get = update v.get i (v.get (v.length - 1)) }

abbrev pub set {ℓ} : {A : Type ℓ} → Vec A → ℕ → A → Vec A
set v i a = record v { get = update v.get i a }

abbrev pub truncate {ℓ} : {A : Type ℓ} → Vec A → ℕ → Vec A
truncate v n = if ltb n v.length then record v { length = n } else v
