-- ===== src/Clock.antt =====
-- What one call reads from the kernel: `clock_gettime(CLOCK_MONOTONIC)` and `getrandom`, which are
-- parameters, and `vecu_now_ms` of src/vecu.c over such a reading.
use vecu_uds.Base.{ℕ, ◌+◌, ◌*◌, ◌/◌, Option, u64}

-- `struct timespec`
pub record Timespec : Type 0 where
  pub tv_sec : ℕ
  pub tv_nsec : ℕ

-- The kernel's answers to one call of an operation. At most two clock readings and one draw are
-- made; an answer that the call does not ask for is ignored. `none` is a short or failed draw.
pub record Env : Type 0 where
  pub clock : Timespec
  pub clock_again : Timespec
  pub entropy : Option ℕ

-- vecu_now_ms
unfoldable pub now_ms : Timespec → ℕ
now_ms ts = u64 (u64 (ts.tv_sec * 1000) + ts.tv_nsec / 1000000)
