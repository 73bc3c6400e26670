-- ===== src/Size/Convert.antt =====
-- Bytes and granules in src/allocator.rs: `from_bytes_usize`, `bytes` and the checked sum.
use picoalloc.Base.{ℕ, ◌+◌, ◌*◌, ◌/◌, ◌≤◌, ◌<◌, ◌^◌, ◌≡◌, ◌↔◌, some, arith, u32_max}
use picoalloc.Size.{Size, from_bytes_usize, bytes}

-- A byte count has a size exactly when it is at most `32 * u32::MAX`, and the size is then the
-- least number of granules that hold it.
pub from_bytes_usize_iff :
    (n s : ℕ) → (from_bytes_usize n ≡ some s) ↔ ((s ≤ u32_max) × (n ≤ s * 32) × (s * 32 < n + 32))
unfolding from_bytes_usize
from_bytes_usize_iff n s = ground arith

-- Below 4 GiB `bytes` loses nothing: it is a whole number of granules that holds the request, and
-- comes back as the same size.
pub from_bytes_usize-bytes : (s : Size) → s < 2 ^ 27 → from_bytes_usize (bytes s) ≡ some s
unfolding from_bytes_usize bytes
from_bytes_usize-bytes s h = ground arith

-- Small byte counts have a size.
pub from_bytes_usize-small : (n : ℕ) → n < 2 ^ 32 → from_bytes_usize n ≡ some ((n + 31) / 32)
unfolding from_bytes_usize
from_bytes_usize-small n h = ground arith
