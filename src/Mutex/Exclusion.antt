-- ===== src/Mutex/Exclusion.antt =====
-- The lock of src/mutex.rs excludes.
use picoalloc.Base.{ℕ, ◌<◌, ◌==◌, true, ◌≡◌, ◌≢◌, refl, ◌∙◌, ◌⊎◌, inl, inr, arith, if◌then◌else◌}
use picoalloc.Mutex.{
  Shared, Step, lock, win, fail, deref_mut, drop, send, forget, Reach, start, later,
}

-- Thread `i` has the one guard.
abbrev pub Held : {T : Type 0} → ℕ → Shared T → Type 0
Held i s = (s.flag ≡ true) × ((j : ℕ) → s.guards j ≡ (if j == i then 1 else 0))

-- No thread has a guard, or one thread has the one guard and the flag is set.
abbrev pub Inv : {T : Type 0} → Shared T → Type 0
Inv s = ((j : ℕ) → s.guards j ≡ 0) ⊎ ((i : ℕ) × Held i s)

Step-Inv : {T : Type 0} {i : ℕ} {s t : Shared T} → Step i s t → Inv s → Inv t
Step-Inv (lock e) inv = inv
Step-Inv {i = i} (win e clear) (inl none) = inr (i, (refl, λ j. ground (arith, none j, none i)))
Step-Inv (win e clear) (inr (k, (set, guard))) = absurd (ground arith)
Step-Inv (fail e) inv = inv
Step-Inv (deref_mut v e has) inv = inv
Step-Inv {i = i} (drop e has) (inl none) = absurd (omega (arith, has, none i))
Step-Inv {i = i} (drop e has) (inr (k, (set, guard))) = inl (λ j. ground (arith, guard j, guard i))
Step-Inv {i = i} (send k e has apart) (inl none) = absurd (omega (arith, has, none i))
Step-Inv {i = i} (send k e has apart) (inr (h, (set, guard))) =
    inr (k, (set, λ j. ground (arith, guard j, guard i, guard k)))
Step-Inv {i = i} (forget e has) (inl none) = absurd (omega (arith, has, none i))
Step-Inv {i = i} (forget e has) (inr (k, (set, guard))) =
    inl (λ j. ground (arith, guard j, guard i))

pub Reach-Inv : {T : Type 0} {initial : T} {s : Shared T} → Reach initial s → Inv s
Reach-Inv start = inl (λ j. refl)
Reach-Inv (later r st) = Step-Inv st (Reach-Inv r)

pub Reach-Held :
    {T : Type 0} {initial : T} {s : Shared T}
    → Reach initial s
    → (i : ℕ) → 0 < s.guards i
    → Held i s
Reach-Held r i has = elim (Reach-Inv r) [
  | inl none ↦ absurd (omega (arith, has, none i))
  | inr (k, (set, guard)) ↦ (set, λ j. ground (arith, guard j, guard i))
]

-- In every reachable state two threads with guards are one thread, it has one guard, and the flag
-- is set.
pub mutual_exclusion :
    {T : Type 0} {initial : T} {s : Shared T}
    → Reach initial s
    → (i j : ℕ) → 0 < s.guards i
    → 0 < s.guards j
    → (i ≡ j) × (s.guards i ≡ 1) × (s.flag ≡ true)
mutual_exclusion r i j hi hj =
    let (set, guard) = Reach-Held r i hi in (ground (arith, guard j), ground (arith, guard i), set)

-- Any steps of threads other than `i`.
pub data Others {T : Type 0} (i : ℕ) (s : Shared T) : Shared T → Type 0 where
  none : Others i s s
  more : {j : ℕ} {t u : Shared T} → Others i s t → j ≢ i → Step j t u → Others i s u

Step-Held :
    {T : Type 0} {i j : ℕ} {s t : Shared T}
    → Step j s t
    → j ≢ i
    → Held i s
    → Held i t × (t.value ≡ s.value)
Step-Held (lock e) apart held = (held, refl)
Step-Held (win e clear) apart (set, guard) = absurd (ground arith)
Step-Held (fail e) apart held = (held, refl)
Step-Held {j = j} (deref_mut v e has) apart (set, guard) = absurd (ground (arith, guard j))
Step-Held {j = j} (drop e has) apart (set, guard) = absurd (ground (arith, guard j))
Step-Held {j = j} (send k e has other) apart (set, guard) = absurd (ground (arith, guard j))
Step-Held {j = j} (forget e has) apart (set, guard) = absurd (ground (arith, guard j))

Others-Held :
    {T : Type 0} {i : ℕ} {s t : Shared T} → Others i s t → Held i s → Held i t × (t.value ≡ s.value)
Others-Held none held = (held, refl)
Others-Held (more o apart st) held =
    let (held1, e1) = Others-Held o held in
    let (held2, e2) = Step-Held st apart held1 in (held2, e2 ∙ e1)

-- A thread that has a guard in a reachable state has the value to itself: whatever the other
-- threads do, in any number of steps, the value is the same, the thread still has its one guard, the
-- flag is set, and no other thread has a guard.
pub critical_section :
    {T : Type 0} {initial : T} {s t : Shared T}
    → Reach initial s
    → (i : ℕ) → 0 < s.guards i
    → Others i s t
    → (t.value ≡ s.value) × (t.flag ≡ true) × ((j : ℕ) → t.guards j ≡ (if j == i then 1 else 0))
critical_section r i has o =
    let ((set, guard), e) = Others-Held o (Reach-Held r i has) in (e, set, guard)
