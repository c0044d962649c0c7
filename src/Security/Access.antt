-- ===== src/Security/Access.antt =====
-- When src/security.c hands out a seed, what a seed is, and when a key is accepted.
use vecu_uds.Base.{ℕ, ◌≤◌, ◌<◌, ◌≡◌, ◌≢◌, ◌↔◌, true, bit_xor, arith}
use vecu_uds.Clock.{Env, now_ms}
use vecu_uds.Security.{
  SecurityState, issued, accepted, rejected, key_constant, max_fails, request_seed, send_key,
  is_unlocked,
}
use vecu_uds.Security.Inv.{IsValid}
use vecu_uds.Types.Nrc

-- A key is accepted exactly when the level is 1, a seed is pending and the key is the pending seed
-- XOR the constant; this in every state that satisfies the invariant, so that the lock-out test of
-- sendKey never stands in the way of a pending seed.
pub accepted_iff :
    (env : Env) (level key : ℕ) (s : SecurityState)
    → IsValid s
    → ((send_key env level key s).0 ≡ accepted)
      ↔ ((level ≡ 1) × (s.seed_issued ≡ true) × (key ≡ bit_xor s.pending_seed key_constant))
unfolding send_key
accepted_iff env level key s v = (λ h. ground arith, λ h. ground arith)

-- Asking for a seed and answering it with the seed XOR the constant unlocks level 1, from every
-- state that satisfies the invariant: if the request issues the seed, the key is accepted.
pub seed_then_key_unlocks :
    (env env' : Env) (n : ℕ) (s : SecurityState)
    → IsValid s
    → (request_seed env 1 s).0 ≡ issued n
    → let (r, t) = send_key env' 1 (bit_xor n key_constant) (request_seed env 1 s).1 in
      (r ≡ accepted) × (is_unlocked 1 t ≡ true) × (t.fail_count ≡ 0)
unfolding request_seed send_key is_unlocked
seed_then_key_unlocks env env' n s v h = ground arith

-- A pending seed serves one key: whatever the first key was, and however the component answered
-- it, a second sendKey at level 1 with no seed requested in between is out of sequence (0x24).
pub second_key_refused :
    (env env' : Env) (k k' : ℕ) (s : SecurityState)
    → IsValid s
    → (send_key env' 1 k' (send_key env 1 k s).1).0 ≡ rejected Nrc.request_sequence_error
unfolding send_key
second_key_refused env env' k k' s v = ground arith

-- sendKey never answers 0x37 in a state that satisfies the invariant: its lock-out test is
-- unreachable.
pub send_key_lock_test_dead :
    (env : Env) (level key : ℕ) (s : SecurityState)
    → IsValid s
    → (send_key env level key s).0 ≢ rejected Nrc.required_time_delay_not_expired
unfolding send_key
send_key_lock_test_dead env level key s v = ground arith

-- Outside the lock-out window a locked component answers requestSeed at level 1 by a seed that is
-- not 0; the seed is pending, the lock-out is over, and fewer failures than the limit are counted.
pub seed_after_lock_out :
    (env : Env) (s : SecurityState)
    → IsValid s
    → s.unlocked_level ≡ 0
    → s.lock_until_ms ≤ now_ms env.clock
    → let (r, t) = request_seed env 1 s in
      (r ≡ issued t.pending_seed)
      × (t.pending_seed ≢ 0)
      × (t.seed_issued ≡ true)
      × (t.lock_until_ms ≡ 0)
      × (t.fail_count < max_fails)
unfolding request_seed
seed_after_lock_out env s v u l = ground arith
