-- ===== src/Examples.antt =====
-- The theorems about src/ at concrete inputs.
mod Masks
mod Lists
mod Spaces
mod Fuzzing
mod Calls
mod Threads
