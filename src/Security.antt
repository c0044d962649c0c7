-- ===== src/Security.antt =====
-- The SecurityAccess state machine of src/security.c and include/security.h. Each function runs
-- under the state's mutex, so a call is one step; `*nrc` and `*out_seed` are part of the result.
pub mod Inv
pub mod Access
pub mod LockOut
mod Examples
use vecu_uds.Base.{
  ℕ, ◌+◌, Bool, true, false, not, ◌&&◌, Option, none, some, bit_xor, u8, u64, ltb, leb, ◌==◌, ◌!=◌,
  if◌then◌else◌,
}
use vecu_uds.Clock.{Env, now_ms}
use vecu_uds.Types.Nrc

abbrev pub key_constant : ℕ
key_constant = 0xDEADBEEF

abbrev pub max_fails : ℕ
max_fails = 3

abbrev pub lock_duration_ms : ℕ
lock_duration_ms = 10000

-- the seed that stands in for a failed draw, or for a draw of 0
abbrev pub fallback_seed : ℕ
fallback_seed = 0xA5A5A5A5

-- `security_state_t`
pub record SecurityState : Type 0 where
  pub unlocked_level : ℕ  -- uint8_t, 0 = locked
  pub pending_seed : ℕ  -- uint32_t
  pub seed_issued : Bool
  pub fail_count : ℕ  -- uint8_t
  pub lock_until_ms : ℕ  -- uint64_t, 0 = not locked out

-- The result of `security_request_seed`: its return codes 0, 1 (`*out_seed` is 0) and -1.
pub data SeedResult : Type 0 where
  issued : ℕ → SeedResult
  already_unlocked : SeedResult
  refused : ℕ → SeedResult

-- The result of `security_send_key`: its return codes 0 and -1.
pub data KeyResult : Type 0 where
  accepted : KeyResult
  rejected : ℕ → KeyResult

unfoldable pub init : SecurityState
init = record {
  unlocked_level = 0;
  pending_seed = 0;
  seed_issued = false;
  fail_count = 0;
  lock_until_ms = 0;
}

unfoldable pub level_supported : ℕ → Bool
level_supported level = level == 0x01

-- the seed made of what `getrandom` gave
unfoldable pub seed_of : Option ℕ → ℕ
seed_of none = fallback_seed
seed_of (some seed) = if seed == 0 then fallback_seed else seed

-- the lock-out window, read against the first clock reading of the call
unfoldable pub in_lock_out : Env → SecurityState → Bool
in_lock_out env s = s.lock_until_ms != 0 && ltb (now_ms env.clock) s.lock_until_ms

unfoldable pub issue_seed : Env → SecurityState → SeedResult × SecurityState
unfolding seed_of
issue_seed env s =
    let seed = seed_of env.entropy in
    (issued seed, record s { pending_seed = seed; seed_issued = true })

unfoldable pub request_seed : Env → ℕ → SecurityState → SeedResult × SecurityState
unfolding level_supported in_lock_out issue_seed
request_seed env level s =
    if not (level_supported level)
    then (refused Nrc.sub_function_not_supported, s)
    else if leb level s.unlocked_level
    then (already_unlocked, record s { seed_issued = false })
    else if in_lock_out env s
    then (refused Nrc.required_time_delay_not_expired, s)
    else issue_seed env
        (if s.lock_until_ms != 0 then record s { lock_until_ms = 0; fail_count = 0 } else s)

-- a wrong key: count it, and arm the lock-out at the limit
unfoldable pub count_failure : Env → SecurityState → KeyResult × SecurityState
count_failure env s =
    let fails = u8 (s.fail_count + 1) in
    if leb max_fails fails
    then (
      rejected Nrc.exceeded_number_of_attempts,
      record s {
        fail_count = fails;
        lock_until_ms = u64 (now_ms env.clock_again + lock_duration_ms);
      },
    )
    else (rejected Nrc.invalid_key, record s { fail_count = fails })

unfoldable pub send_key : Env → ℕ → ℕ → SecurityState → KeyResult × SecurityState
unfolding level_supported in_lock_out count_failure
send_key env level key s =
    if not (level_supported level)
    then (rejected Nrc.sub_function_not_supported, s)
    else if not s.seed_issued
    then (rejected Nrc.request_sequence_error, s)
    else if in_lock_out env s
    then (rejected Nrc.required_time_delay_not_expired, s)
    else if key == bit_xor s.pending_seed key_constant
    then (accepted, record s { seed_issued = false; unlocked_level = level; fail_count = 0 })
    else count_failure env (record s { seed_issued = false })

unfoldable pub is_unlocked : ℕ → SecurityState → Bool
is_unlocked level s = leb level s.unlocked_level

-- The state after `s3_thread_main` relocks, and after `h_ecu_reset` clears the soft state.
unfoldable pub relock : SecurityState → SecurityState
relock s = record s { unlocked_level = 0; seed_issued = false }

unfoldable pub soft_reset : SecurityState → SecurityState
soft_reset s = record s {
  unlocked_level = 0;
  seed_issued = false;
  fail_count = 0;
  lock_until_ms = 0;
}
