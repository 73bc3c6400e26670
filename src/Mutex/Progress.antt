-- ===== src/Mutex/Progress.antt =====
-- When a thread can take the lock of src/mutex.rs, and when none ever can again.
use picoalloc.Base.{ℕ, ◌+◌, ◌<◌, true, false, ◌≡◌, ◌↔◌, refl, ap, ◌⊎◌, inl, inr, arith, Bool-cases}
use picoalloc.Mutex.{Shared, Step, lock, win, fail, deref_mut, drop, send, forget, Reach}
use picoalloc.Mutex.Exclusion.{Reach-Inv}

pub data Later {T : Type 0} (s : Shared T) : Shared T → Type 0 where
  now : Later s s
  next : {i : ℕ} {t u : Shared T} → Later s t → Step i t u → Later s u

-- The flag is set, and whoever has a guard is in the loop of `lock`.
abbrev pub IsWedged : {T : Type 0} → Shared T → Type 0
IsWedged s = (s.flag ≡ true) × ((i : ℕ) → 0 < s.guards i → s.spinning i ≡ true)

Step-IsWedged : {T : Type 0} {i : ℕ} {s t : Shared T} → Step i s t → IsWedged s → IsWedged t
Step-IsWedged (lock e) (set, spins) = (set, λ j has. ground (arith, spins j has))
Step-IsWedged (win e clear) (set, spins) = absurd (ground arith)
Step-IsWedged (fail e) w = w
Step-IsWedged {i = i} (deref_mut v e has) (set, spins) = absurd (ground (arith, spins i has))
Step-IsWedged {i = i} (drop e has) (set, spins) = absurd (ground (arith, spins i has))
Step-IsWedged {i = i} (send k e has apart) (set, spins) = absurd (ground (arith, spins i has))
Step-IsWedged {i = i} (forget e has) (set, spins) = absurd (ground (arith, spins i has))

Later-IsWedged : {T : Type 0} {s t : Shared T} → Later s t → IsWedged s → IsWedged t
Later-IsWedged now w = w
Later-IsWedged (next l st) w = Step-IsWedged st (Later-IsWedged l w)

clears :
    {T : Type 0} (s : Shared T) (i : ℕ)
    → s.spinning i ≡ false
    → 0 < s.guards i
    → (t : Shared T) × Step i s t × (t.flag ≡ false) × (t.spinning ≡ s.spinning)
clears s i e has = (_, drop e has, refl, refl)

-- No thread will ever find the flag clear exactly when it is set and each thread that has a guard
-- is in the loop of `lock` itself: the holder has called `lock` again, or the guard was forgotten.
pub IsWedged-iff :
    {T : Type 0} (s : Shared T)
    → ((t : Shared T) → Later s t → t.flag ≡ true)
      ↔ ((s.flag ≡ true) × ((i : ℕ) → 0 < s.guards i → s.spinning i ≡ true))
IsWedged-iff s = (
  λ always. (
    always s now,
    λ i has. elim (Bool-cases (s.spinning i)) [
      | inl e ↦ e
      | inr e ↦
          let (t, st, clear, same) = clears s i e has in
          absurd (ground (arith, always t (next now st), clear))
    ],
  ),
  λ w t l. (Later-IsWedged l w).0,
)

-- In a reachable state with a thread in the loop of `lock`, one of three holds: the thread can take
-- the lock in its next step; or another thread has the guard and can drop it in its next step, which
-- clears the flag; or the flag is set and each thread that has a guard is in the loop of `lock` itself.
pub no_wedge :
    {T : Type 0} {initial : T} {s : Shared T}
    → Reach initial s
    → (i : ℕ) → s.spinning i ≡ true
    → ((t : Shared T) × Step i s t × (t.guards i ≡ s.guards i + 1))
      ⊎ ((j : ℕ) × (t : Shared T) × Step j s t × (t.flag ≡ false) × (t.spinning i ≡ true))
      ⊎ ((s.flag ≡ true) × ((j : ℕ) → 0 < s.guards j → s.spinning j ≡ true))
no_wedge {s} r i e = elim (Bool-cases s.flag) [
  | inr clear ↦ inl (_, win e clear, ground arith)
  | inl set ↦ elim (Reach-Inv r) [
    | inl none ↦ inr (inr (set, λ j has. absurd (omega (arith, has, none j))))
    | inr (k, (held, guard)) ↦ elim (Bool-cases (s.spinning k)) [
      | inl spins ↦ inr (inr (set, λ j has. ground (arith, guard j)))
      | inr free ↦
          let (t, st, clear, same) = clears s k free (ground (arith, guard k)) in
          inr (inl (k, t, st, clear, ground (arith, ap (λ f. f i) same)))
    ]
  ]
]
