-- ===== src/Security/Inv.antt =====
-- What holds of `security_state_t` between two calls, from `security_init` on.
use vecu_uds.Base.{ℕ, ◌+◌, ◌≤◌, ◌<◌, ◌^◌, ◌≡◌, false, arith}
use vecu_uds.Clock.{Env, now_ms}
use vecu_uds.Security.{
  SecurityState, max_fails, lock_duration_ms, init, request_seed, send_key, relock, soft_reset,
}

pub record IsValid (s : SecurityState) : Type 0 where
  pub level_known : s.unlocked_level ≤ 1
  pub fails_capped : s.fail_count ≤ max_fails
  pub armed_at_limit : s.fail_count ≡ max_fails → 0 < s.lock_until_ms
  pub locked_out_counts : 0 < s.lock_until_ms → s.fail_count ≡ max_fails
  pub locked_out_no_seed : 0 < s.lock_until_ms → s.seed_issued ≡ false
  pub unlocked_no_seed : 0 < s.unlocked_level → s.seed_issued ≡ false
  pub unlocked_clean : 0 < s.unlocked_level → s.lock_until_ms ≡ 0

-- The end of a lock-out armed now fits `uint64_t`.
abbrev pub IsSane : Env → Type 0
IsSane env = now_ms env.clock_again + lock_duration_ms < 2 ^ 64

pub init-IsValid : IsValid init
unfolding init
init-IsValid = ground arith

pub request_seed-IsValid :
    (env : Env) (level : ℕ) (s : SecurityState) → IsValid s → IsValid (request_seed env level s).1
unfolding request_seed
request_seed-IsValid env level s v = ground arith

pub send_key-IsValid :
    (env : Env) (level key : ℕ) (s : SecurityState)
    → IsSane env
    → IsValid s
    → IsValid (send_key env level key s).1
unfolding send_key
send_key-IsValid env level key s sane v = ground arith

pub relock-IsValid : (s : SecurityState) → IsValid s → IsValid (relock s)
unfolding relock
relock-IsValid s v = ground arith

pub soft_reset-IsValid : (s : SecurityState) → IsValid s → IsValid (soft_reset s)
unfolding soft_reset
soft_reset-IsValid s v = ground arith
