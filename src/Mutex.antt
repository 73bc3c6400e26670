-- ===== src/Mutex.antt =====
-- src/mutex.rs: the spin lock, as steps of any number of threads over one flag and one value.
pub mod Exclusion
pub mod Progress
use picoalloc.Base.{ℕ, ◌+◌, ◌-◌, ◌<◌, Bool, true, false, ◌≡◌, ◌≢◌, update}

-- `Mutex<T>` and the threads that share it: whether each is in the loop of `lock`, and how many
-- values `MutexGuard` each has.
pub record Shared (T : Type 0) : Type 0 where
  pub value : T
  pub flag : Bool
  pub spinning : ℕ → Bool
  pub guards : ℕ → ℕ

-- `Mutex::new`
abbrev pub new : {T : Type 0} → T → Shared T
new value = record { value = value; flag = false; spinning = λ _. false; guards = λ _. 0 }

-- One step of thread `i`, which may also have a guard when it calls `lock`. A thread in the loop
-- does nothing else.
pub data Step {T : Type 0} (i : ℕ) (s : Shared T) : Shared T → Type 0 where
  lock : s.spinning i ≡ false → Step i s (record s { spinning = update s.spinning i true })
  -- `compare_exchange_weak` wins only on a clear flag, and may fail on any.
  win :
      s.spinning i ≡ true
      → s.flag ≡ false
      → Step i s (record s {
        flag = true;
        spinning = update s.spinning i false;
        guards = update s.guards i (s.guards i + 1);
      })
  fail : s.spinning i ≡ true → Step i s s
  -- `deref_mut` of a guard, and a write of the value.
  deref_mut : (v : T) → s.spinning i ≡ false → 0 < s.guards i → Step i s (record s { value = v })
  -- `drop` of a guard.
  drop :
      s.spinning i ≡ false
      → 0 < s.guards i
      → Step i s (record s { flag = false; guards = update s.guards i (s.guards i - 1) })
  -- A guard is a value: it may go to another thread, or be forgotten without its `drop`.
  send :
      (j : ℕ)
      → s.spinning i ≡ false
      → 0 < s.guards i
      → j ≢ i
      → Step i s
          (record s { guards = update (update s.guards i (s.guards i - 1)) j (s.guards j + 1) })
  forget :
      s.spinning i ≡ false
      → 0 < s.guards i
      → Step i s (record s { guards = update s.guards i (s.guards i - 1) })

pub data Reach {T : Type 0} (initial : T) : Shared T → Type 0 where
  start : Reach initial (new initial)
  later : {i : ℕ} {s t : Shared T} → Reach initial s → Step i s t → Reach initial t
