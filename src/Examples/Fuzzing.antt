-- ===== src/Examples/Fuzzing.antt =====
-- A run of the target of fuzz/fuzz_targets/allocator_buffer.rs.
use picoalloc.Base.{ℕ, ◌+◌, ◌≡◌, List, [], ◌∷◌, some, true, arith, refl}
use picoalloc.Fuzz.{Op, alloc, release, shrink, grow, Fuzz, run, start, dropped}
use picoalloc.Fuzz.Runs.{run-passes}

abbrev numbers : ℕ → ℕ → ℕ
numbers seed i = seed + i

abbrev operations : List Op
operations = alloc 32 100 ∷ alloc 1 5 ∷ grow 1 200 ∷ shrink 0 3 ∷ release 0 ∷ []

run-passes_example :
    (f : Fuzz) × (run numbers 0x1000 operations (start numbers 0x1000) ≡ some f)
    × (dropped numbers 0x1000 f ≡ true)
run-passes_example = run-passes numbers 0x1000 operations (omega arith) refl (omega arith) (
  (omega arith, omega arith),
  ((omega arith, omega arith), (omega arith, (omega arith, (tt, tt)))),
)
