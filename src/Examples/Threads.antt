-- ===== src/Examples/Threads.antt =====
-- The theorems about src/mutex.rs with two threads.
use picoalloc.Base.{
  ℕ, ◌+◌, ◌<◌, ◌==◌, true, false, ◌≡◌, refl, ◌⊎◌, ◌↔◌, update, arith, if◌then◌else◌,
}
use picoalloc.Mutex.{Shared, new, Step, lock, win, fail, Reach, start, later}
use picoalloc.Mutex.Exclusion.{mutual_exclusion, critical_section, none, more}
use picoalloc.Mutex.Progress.{Later, IsWedged-iff, no_wedge}

abbrev entered : Shared ℕ
entered = record (new {T = ℕ} 5) { spinning = update (new {T = ℕ} 5).spinning 0 true }

entered-Reach : Reach 5 entered
entered-Reach = later {i = 0} start (lock refl)

abbrev taken : Shared ℕ
taken = record entered {
  flag = true;
  spinning = update entered.spinning 0 false;
  guards = update entered.guards 0 1;
}

taken-Reach : Reach 5 taken
taken-Reach = later {i = 0} entered-Reach (win refl refl)

-- Thread 1 waits for thread 0.
abbrev contended : Shared ℕ
contended = record taken { spinning = update taken.spinning 1 true }

contended-Reach : Reach 5 contended
contended-Reach = later {i = 1} taken-Reach (lock refl)

abbrev thread : ℕ
thread = 0

mutual_exclusion_example : (thread ≡ thread) × (taken.guards thread ≡ 1) × (taken.flag ≡ true)
mutual_exclusion_example = mutual_exclusion taken-Reach thread thread (omega arith) (omega arith)

critical_section_example :
    (contended.value ≡ taken.value)
    × (contended.flag ≡ true)
    × ((j : ℕ) → contended.guards j ≡ (if j == thread then 1 else 0))
critical_section_example = critical_section taken-Reach thread (omega arith) (
    more {j = 1} (more {j = 1} none (λ e. absurd (omega (arith, e))) (lock refl))
      (λ e. absurd (omega (arith, e))) (fail refl))

IsWedged-iff_example :
    ((t : Shared ℕ) → Later contended t → t.flag ≡ true)
    ↔ ((contended.flag ≡ true) × ((i : ℕ) → 0 < contended.guards i → contended.spinning i ≡ true))
IsWedged-iff_example = IsWedged-iff contended

no_wedge_example :
    ((t : Shared ℕ) × Step 1 contended t × (t.guards 1 ≡ contended.guards 1 + 1))
    ⊎ ((j : ℕ) × (t : Shared ℕ) × Step j contended t × (t.flag ≡ false) × (t.spinning 1 ≡ true))
    ⊎ ((contended.flag ≡ true) × ((j : ℕ) → 0 < contended.guards j → contended.spinning j ≡ true))
no_wedge_example = no_wedge contended-Reach 1 refl
