-- ===== src/Security/LockOut.antt =====
-- The lock-out of src/security.c: what it refuses, when it is armed, how many guesses it allows.
use vecu_uds.Base.{
  ℕ, ◌+◌, ◌-◌, ◌≤◌, ◌<◌, ◌≡◌, ◌≢◌, refl, Bool, true, false, List, [], ◌∷◌, bit_xor, arith, ltb, leb,
  ◌==◌, if◌then◌else◌, u64,
}
use vecu_uds.Clock.{Env, now_ms}
use vecu_uds.Security.{
  SecurityState, SeedResult, KeyResult, issued, accepted, rejected, key_constant, max_fails,
  lock_duration_ms, seed_of, request_seed, send_key,
}
use vecu_uds.Security.Inv.{IsValid, IsSane, request_seed-IsValid, send_key-IsValid}
use vecu_uds.Types.Nrc

-- A tester's call of the component, with the kernel's answers to it.
pub data Call : Type 0 where
  seed : Env → ℕ → Call
  key : Env → ℕ → ℕ → Call

abbrev pub env_of : Call → Env
env_of (seed env level) = env
env_of (key env level k) = env

pub after : Call → SecurityState → SecurityState
after (seed env level) s = (request_seed env level s).1
after (key env level k) s = (send_key env level k s).1

pub run : List Call → SecurityState → SecurityState
run [] s = s
run (c ∷ cs) s = run cs (after c s)

-- The call hands out no seed and accepts no key.
abbrev is_issued : SeedResult → Bool
is_issued (issued n) = true
is_issued _ = false

abbrev is_accepted : KeyResult → Bool
is_accepted accepted = true
is_accepted (rejected n) = false

pub gains : Call → SecurityState → Bool
gains (seed env level) s = is_issued (request_seed env level s).0
gains (key env level k) s = is_accepted (send_key env level k s).0

-- A key that was compared and found wrong.
abbrev is_wrong : KeyResult → ℕ
is_wrong accepted = 0
is_wrong (rejected nrc) =
    if nrc == Nrc.invalid_key then 1 else if nrc == Nrc.exceeded_number_of_attempts then 1 else 0

abbrev wrong : Call → SecurityState → ℕ
wrong (seed env level) s = 0
wrong (key env level k) s = is_wrong (send_key env level k s).0

pub wrong_keys : List Call → SecurityState → ℕ
wrong_keys [] s = 0
wrong_keys (c ∷ cs) s = wrong c s + wrong_keys cs (after c s)

-- None of the calls hands out a seed or accepts a key.
abbrev pub GainsNothing : List Call → SecurityState → Type 0
GainsNothing [] s = Unit {0}
GainsNothing (c ∷ cs) s = (gains c s ≡ false) × GainsNothing cs (after c s)

abbrev pub All : (Call → Type 0) → List Call → Type 0
All P [] = Unit {0}
All P (c ∷ cs) = P c × All P cs

after_locked_out :
    (c : Call) (s : SecurityState)
    → IsValid s
    → now_ms (env_of c).clock < s.lock_until_ms
    → (after c s ≡ s) × (gains c s ≡ false)
unfolding after gains request_seed send_key
after_locked_out (seed env level) s v h = ground arith
after_locked_out (key env level k) s v h = ground arith

-- While every clock reading is before the end of the lock-out, no sequence of requestSeed and
-- sendKey calls, at any level and with any keys, changes the state, hands out a seed or accepts a
-- key.
pub locked_out_refuses :
    (cs : List Call) (s : SecurityState)
    → IsValid s
    → All (λ c. now_ms (env_of c).clock < s.lock_until_ms) cs
    → (run cs s ≡ s) × GainsNothing cs s
unfolding run
locked_out_refuses [] s v h = (refl, tt)
locked_out_refuses (c ∷ cs) s v h =
    let (same, none_gained) = after_locked_out c s v h.0 in
    let (rest, rest_gained) = locked_out_refuses cs s v h.1 in
    rw same (rest, (none_gained, rest_gained))

-- How many more wrong keys can be counted before `until`.
abbrev budget : ℕ → SecurityState → ℕ
budget until s =
    if ltb 0 s.unlocked_level
    then 0
    else if s.lock_until_ms == 0
    then max_fails - s.fail_count
    else if leb until s.lock_until_ms
    then 0
    else max_fails

-- The readings of a call lie in a window of the length of the lock-out.
pub record InWindow (start : ℕ) (c : Call) : Type 0 where
  pub first_before_end : now_ms (env_of c).clock < start + lock_duration_ms
  pub second_after_start : start ≤ now_ms (env_of c).clock_again

after-IsValid : (c : Call) (s : SecurityState) → IsSane (env_of c) → IsValid s → IsValid (after c s)
unfolding after
after-IsValid (seed env level) s h v = request_seed-IsValid env level s v
after-IsValid (key env level k) s h v = send_key-IsValid env level k s h v

wrong-budget :
    (start : ℕ) (c : Call) (s : SecurityState)
    → InWindow start c
    → IsSane (env_of c)
    → IsValid s
    → wrong c s + budget (start + lock_duration_ms) (after c s)
      ≤ budget (start + lock_duration_ms) s
unfolding after request_seed send_key
wrong-budget start (seed env level) s w sane v = ground arith
wrong-budget start (key env level k) s w sane v = ground arith

wrong_keys-budget :
    (start : ℕ) (cs : List Call) (s : SecurityState)
    → All (InWindow start) cs
    → All (λ c. IsSane (env_of c)) cs
    → IsValid s
    → wrong_keys cs s ≤ budget (start + lock_duration_ms) s
unfolding wrong_keys
wrong_keys-budget start [] s h sane v = omega arith
wrong_keys-budget start (c ∷ cs) s h sane v = omega (
  arith,
  wrong-budget start c s h.0 sane.0 v,
  wrong_keys-budget start cs (after c s) h.1 sane.1 (after-IsValid c s sane.0 v),
)

-- In any sequence of requestSeed and sendKey calls, with no reset and no relocking in between, whose
-- clock readings lie within one lock-out duration and are not at the end of their range, at most
-- SECURITY_MAX_FAILS keys are compared and found wrong, from every state that satisfies the
-- invariant.
pub wrong_keys_bounded :
    (start : ℕ) (cs : List Call) (s : SecurityState)
    → All (InWindow start) cs
    → All (λ c. IsSane (env_of c)) cs
    → IsValid s
    → wrong_keys cs s ≤ max_fails
wrong_keys_bounded start cs s h sane v = ground (arith, wrong_keys-budget start cs s h sane v)

-- One guess: ask for a seed, then send a key.
abbrev pub guess : Env → ℕ → SecurityState → KeyResult × SecurityState
guess env k s = send_key env 0x01 k (request_seed env 0x01 s).1

-- The key does not answer the seed that the kernel's draw leads to.
abbrev pub IsWrong : Env → ℕ → Type 0
IsWrong env k = k ≢ bit_xor (seed_of env.entropy) key_constant

wrong_guess :
    (env : Env) (k : ℕ) (s : SecurityState)
    → s.unlocked_level ≡ 0
    → s.lock_until_ms ≡ 0
    → s.fail_count < 2
    → IsWrong env k
    → ((guess env k s).0 ≡ rejected Nrc.invalid_key)
      × ((guess env k s).1.unlocked_level ≡ 0)
      × ((guess env k s).1.lock_until_ms ≡ 0)
      × ((guess env k s).1.fail_count ≡ s.fail_count + 1)
unfolding request_seed send_key
wrong_guess env k s u l f w = ground arith

last_wrong_guess :
    (env : Env) (k : ℕ) (s : SecurityState)
    → s.unlocked_level ≡ 0
    → s.lock_until_ms ≡ 0
    → s.fail_count ≡ 2
    → IsWrong env k
    → ((guess env k s).0 ≡ rejected Nrc.exceeded_number_of_attempts)
      × ((guess env k s).1.lock_until_ms ≡ u64 (now_ms env.clock_again + lock_duration_ms))
unfolding request_seed send_key
last_wrong_guess env k s u l f w = ground arith

-- From a locked state with no failure counted, three guesses in a row with wrong keys are answered
-- 0x35, 0x35 and 0x36, and the third arms the lock-out for SECURITY_LOCK_DURATION_MS from its
-- clock reading.
pub three_wrong_guesses :
    (e₁ e₂ e₃ : Env) (k₁ k₂ k₃ : ℕ) (s : SecurityState)
    → s.unlocked_level ≡ 0
    → s.lock_until_ms ≡ 0
    → s.fail_count ≡ 0
    → IsWrong e₁ k₁
    → IsWrong e₂ k₂
    → IsWrong e₃ k₃
    → let (r₁, s₁) = guess e₁ k₁ s in
      let (r₂, s₂) = guess e₂ k₂ s₁ in
      let (r₃, s₃) = guess e₃ k₃ s₂ in
      (r₁ ≡ rejected Nrc.invalid_key)
      × (r₂ ≡ rejected Nrc.invalid_key)
      × (r₃ ≡ rejected Nrc.exceeded_number_of_attempts)
      × (s₃.lock_until_ms ≡ u64 (now_ms e₃.clock_again + lock_duration_ms))
three_wrong_guesses e₁ e₂ e₃ k₁ k₂ k₃ s u l f w₁ w₂ w₃ =
    let first = wrong_guess e₁ k₁ s u l (omega arith) w₁ in
    let s₁ = (guess e₁ k₁ s).1 in
    let second = wrong_guess e₂ k₂ s₁ first.1 first.2 (omega (arith, first.3)) w₂ in
    let s₂ = (guess e₂ k₂ s₁).1 in
    let third = last_wrong_guess e₃ k₃ s₂ second.1 second.2 (omega (arith, first.3, second.3)) w₃ in
    (first.0, second.0, third.0, third.1)
