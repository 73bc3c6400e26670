-- ===== src/Fuzz.antt =====
-- fuzz/fuzz_targets/allocator_buffer.rs: the operations that the fuzzer sends to an allocator on a
-- buffer, with every assertion of the target.
pub mod Tracked
pub mod Powers
pub mod Step
pub mod Release
pub mod Shorten
pub mod Lengthen
pub mod Fill
pub mod Runs
use picoalloc.Base.{
  ℕ, zero, suc, ◌+◌, ◌-◌, ◌*◌, ◌/◌, ◌%◌, ◌^◌, bit_xor, max, Bool, true, false, ◌&&◌, ◌==◌, leb, ltb,
  update, if◌then◌else◌, Option, none, some, List, [], ◌∷◌,
}
use picoalloc.Base.Vec
use picoalloc.Base.Vec.{Vec}
use picoalloc.Size.{Size, from_bytes_usize}
use picoalloc.Chunk.{Pointer, Granule, zero_granule}
use picoalloc.Env.{Env}
use picoalloc.Machine.{State, Outcome, ok, fault, aborted}
use picoalloc.Allocator.{new}
use picoalloc.Allocator.Alloc.{alloc_zeroed}
use picoalloc.Allocator.Free.{free, usable_size}
use picoalloc.Allocator.Resize.{shrink_inplace, grow_inplace}

-- The operations; sizes and alignments are `u16`.
pub data Op : Type 0 where
  alloc : ℕ → ℕ → Op
  release : ℕ → Op
  shrink : ℕ → ℕ → Op
  grow : ℕ → ℕ → Op

-- A pointer with the data that was written behind it, in granules.
pub record Allocation : Type 0 where
  pub pointer : Pointer
  pub contents : Vec Granule

-- The variables of the target: `alive_addresses` is a set.
pub record Fuzz : Type 0 where
  pub allocator : State (Unit {0})
  pub allocations : Vec Allocation
  pub alive_addresses : Pointer → Bool

-- `TestEnv<SIZE, LIMIT>` with its buffer at an address: the space is 16 times the buffer, and there
-- is memory up to the limit.
unfoldable pub test_env : Size → Size → Pointer → Env (Unit {0})
test_env total limit buffer = record {
  total_space = λ _. total;
  allocate_address_space = λ e. some (buffer, e);
  expand_memory_until = λ e _ size. (leb size limit, e);
  free_address_space = λ e _. some e;
}

-- `TestEnv<16384, 2048>`, in granules.
abbrev pub buffer_size : Size
buffer_size = 512

abbrev pub total : Size
total = 8192

abbrev pub limit : Size
limit = 64

-- Four words of eight bytes, in memory order.
abbrev pub granule_of : ℕ → ℕ → ℕ → ℕ → Granule
granule_of a b c d = record {
  prev_chunk_size = a % 2 ^ 32;
  size = a / 2 ^ 32;
  next_in_list = b;
  prev_in_list = c;
  rest = d;
}

-- 32 bytes of 0b10101010.
abbrev pub pattern_granule : Granule
pattern_granule =
    granule_of 0xaaaa_aaaa_aaaa_aaaa 0xaaaa_aaaa_aaaa_aaaa 0xaaaa_aaaa_aaaa_aaaa
      0xaaaa_aaaa_aaaa_aaaa

-- `TestEnv::default`: zeros up to the limit, and the pattern behind.
abbrev pub default_memory : Pointer → Pointer → Granule
default_memory buffer p = if ltb p (buffer + limit * 32) then zero_granule else pattern_granule

-- Equality of slices of `n` granules.
abbrev pub granule_eq : Granule → Granule → Bool
granule_eq a b =
    (a.prev_chunk_size == b.prev_chunk_size)
    && (a.size == b.size)
    && (a.next_in_list == b.next_in_list)
    && (a.prev_in_list == b.prev_in_list)
    && (a.rest == b.rest)

unfoldable pub slice_eq : ℕ → (ℕ → Granule) → (ℕ → Granule) → Bool
slice_eq zero a b = true
slice_eq (suc n) a b = let rest = slice_eq n a b in granule_eq (a n) (b n) && rest

-- `from_raw_parts` and a copy to `from_raw_parts_mut`, from a pointer on.
abbrev pub slice : State (Unit {0}) → Pointer → ℕ → Granule
slice s p i = s.memory (p + i * 32)

abbrev pub write_slice : State (Unit {0}) → Pointer → ℕ → (ℕ → Granule) → State (Unit {0})
write_slice s p n contents = record s {
  memory = λ q. if leb p q && ltb q (p + n * 32) then contents ((q - p) / 32) else s.memory q;
}

-- `usize::next_power_of_two`: the first power of two from `2 ^ k` on that is not below.
unfoldable pub next_power_from : ℕ → ℕ → ℕ → ℕ
next_power_from zero k n = 2 ^ k
next_power_from (suc fuel) k n =
    let rest = next_power_from fuel (k + 1) n in if leb n (2 ^ k) then 2 ^ k else rest

abbrev pub next_power_of_two : ℕ → ℕ
next_power_of_two n = next_power_from 64 0 n

unfoldable pub assert : Bool → Option Fuzz → Option Fuzz
assert b f = if b then f else none

unfoldable pub call :
    {A : Type 0} → Outcome (Unit {0}) A → (A → State (Unit {0}) → Option Fuzz) → Option Fuzz
call (ok a s) k = k a s
call fault k = none
call aborted k = none

abbrev pub default_env : Pointer → Env (Unit {0})
default_env buffer = test_env total limit buffer

-- The data behind a pointer is still what was written there.
abbrev pub intact : State (Unit {0}) → Allocation → Bool
intact s a = slice_eq a.contents.length (slice s a.pointer) a.contents.get

-- `rand seed i` is the number that `oorandom::Rand64` with a seed returns as its `i`-th.
module _ (rand : ℕ → ℕ → ℕ) where
  -- The last eight bytes of `fill_slice`, one number each.
  last_word : ℕ → ℕ → ℕ → ℕ
  last_word zero seed i = 0
  last_word (suc n) seed i = let rest = last_word n seed (i + 1) in rand seed i % 256 + 256 * rest

  -- `fill_slice`: the granules of a slice of `n`.
  unfoldable pub fill_slice : ℕ → ℕ → ℕ → Granule
  unfolding last_word
  fill_slice seed n i =
      granule_of (rand seed (4 * i)) (rand seed (4 * i + 1)) (rand seed (4 * i + 2))
        (if ltb (i + 1) n then rand seed (4 * i + 3) else last_word 8 seed (4 * i + 3))

  module _ (buffer : Pointer) where
    -- `Op::Alloc` once there is a pointer: it is aligned, large enough and zeroed, and gets data.
    unfoldable pub fill_new : Fuzz → State (Unit {0}) → Pointer → ℕ → ℕ → Option Fuzz
    unfolding assert call
    fill_new f s pointer align size = assert (pointer % align == 0) (
        call (usable_size pointer s) (λ usable s1. assert (leb size usable) (
          assert (slice_eq (usable / 32) (slice s1 pointer) (λ _. zero_granule)) (
            let s2 = write_slice s1 pointer (usable / 32) (fill_slice pointer (usable / 32)) in
            some (record {
              allocator = s2;
              allocations = Vec.push f.allocations (record {
                pointer = pointer;
                contents = record { length = usable / 32; get = slice s2 pointer };
              });
              alive_addresses = update f.alive_addresses pointer true;
            })))))

    unfoldable pub on_alloc : Fuzz → ℕ → ℕ → Option Fuzz
    unfolding fill_new call
    on_alloc f align size =
        let align = max 1 (next_power_of_two align) in
        let size = max 1 size in
        elim (from_bytes_usize align) [
          | none ↦ none
          | some align_size ↦ elim (from_bytes_usize size) [
            | none ↦ none
            | some granules ↦
                call (alloc_zeroed (default_env buffer) align_size granules f.allocator)
                  (λ result s. elim result [
                    | none ↦ some (record f { allocator = s })
                    | some pointer ↦ fill_new f s pointer align size
                  ])
          ]
        ]

    unfoldable pub on_free : Fuzz → ℕ → Option Fuzz
    unfolding assert call
    on_free f index =
        if f.allocations.length == 0
        then some f
        else (let index = index % f.allocations.length in
            let a = f.allocations.get index in
            assert (f.alive_addresses a.pointer) (
              assert (intact f.allocator a) (
                call (free (default_env buffer) a.pointer f.allocator) (λ _ s. some (record {
                  allocator = s;
                  allocations = Vec.swap_remove f.allocations index;
                  alive_addresses = update f.alive_addresses a.pointer false;
                })))))

    unfoldable pub on_shrink : Fuzz → ℕ → ℕ → Option Fuzz
    unfolding assert call
    on_shrink f index size = elim (from_bytes_usize (size + 1)) [
      | none ↦ none
      | some granules ↦
          if f.allocations.length == 0
          then some f
          else (let index = index % f.allocations.length in
              let a = f.allocations.get index in
              let shorter = record a { contents = Vec.truncate a.contents granules } in
              assert (intact f.allocator a) (
                call (shrink_inplace (default_env buffer) a.pointer granules f.allocator) (λ _ s.
                  assert (intact s shorter) (
                    some (record f {
                      allocator = s;
                      allocations = Vec.set f.allocations index shorter;
                    })))))
    ]

    -- `Op::Grow` once the allocation has another size: the new part gets data.
    unfoldable pub fill_grown : Fuzz → State (Unit {0}) → ℕ → Size → Option Fuzz
    unfolding assert
    fill_grown f s index new_size =
        let a = f.allocations.get index in
        let old_size = a.contents.length in
        let fill = fill_slice (bit_xor a.pointer 0b1010_1010) (new_size - old_size) in
        let longer : Allocation = record a {
          contents = record {
            length = new_size;
            get = λ i. if ltb i old_size then a.contents.get i else fill (i - old_size);
          };
        } in
        let s1 = write_slice s (a.pointer + old_size * 32) (new_size - old_size) fill in
        assert (leb old_size new_size) (
          assert (intact s1 longer)
            (some (record f { allocator = s1; allocations = Vec.set f.allocations index longer })))

    unfoldable pub on_grow : Fuzz → ℕ → ℕ → Option Fuzz
    unfolding fill_grown call
    on_grow f index size = elim (from_bytes_usize (size + 1)) [
      | none ↦ none
      | some granules ↦
          if f.allocations.length == 0
          then some f
          else (let index = index % f.allocations.length in
              let a = f.allocations.get index in
              call (grow_inplace (default_env buffer) a.pointer granules f.allocator) (λ result s.
                elim result [
                  | none ↦ some (record f { allocator = s })
                  | some new_size ↦
                      if a.contents.length == new_size
                      then some (record f { allocator = s })
                      else fill_grown f s index new_size
                ]))
    ]

    unfoldable pub step : Op → Fuzz → Option Fuzz
    unfolding on_alloc on_free on_shrink on_grow
    step (alloc align size) f = on_alloc f align size
    step (release index) f = on_free f index
    step (shrink index size) f = on_shrink f index size
    step (grow index size) f = on_grow f index size

    unfoldable pub run : List Op → Fuzz → Option Fuzz
    unfolding step
    run [] f = some f
    run (op ∷ ops) f = elim (step op f) [ none ↦ none | some g ↦ run ops g ]

    -- Before the first operation.
    abbrev pub start : Fuzz
    start = record {
      allocator = new tt (default_memory buffer);
      allocations = Vec.empty (record { pointer = 0; contents = Vec.empty zero_granule });
      alive_addresses = λ _. false;
    }

    -- The assertion of `drop`: nothing has been written behind the limit.
    unfoldable pub dropped : Fuzz → Bool
    unfolding slice_eq
    dropped f =
        slice_eq (buffer_size - limit) (slice f.allocator (buffer + limit * 32))
          (λ _. pattern_granule)
