-- ===== src/Security/Examples.antt =====
-- The seed and key exchange of src/security.c on concrete states.

use vecu_uds.Security.{max_fails, seed_of, SecurityState}
use vecu_uds.Security.LockOut.{
  wrong_keys_bounded, locked_out_refuses, key, GainsNothing, seed, InWindow, Call, IsWrong,
  wrong_keys, run,
}
use vecu_uds.Base.{false, [], true, ◌∷◌, arith, some, ◌≡◌, ◌≤◌, ◌<◌, ℕ, List}
use vecu_uds.Clock.{Env, now_ms}
use vecu_uds.Security.Inv.{IsValid, IsSane}

abbrev at : ℕ → Env
at seconds = record {
  clock = record { tv_sec = seconds; tv_nsec = 0 };
  clock_again = record { tv_sec = seconds; tv_nsec = 0 };
  entropy = some 0x12345678;
}

at-IsSane : IsSane (at 20)
unfolding now_ms
at-IsSane = omega arith

-- a seed is pending
abbrev asked : SecurityState
asked = record {
  unlocked_level = 0;
  pending_seed = 0x12345678;
  seed_issued = true;
  fail_count = 0;
  lock_until_ms = 0;
}

asked-IsValid : IsValid asked
asked-IsValid = ground arith

-- locked out until 30 seconds
abbrev locked_out : SecurityState
locked_out = record {
  unlocked_level = 0;
  pending_seed = 0;
  seed_issued = false;
  fail_count = 3;
  lock_until_ms = 30000;
}

locked_out-IsValid : IsValid locked_out
locked_out-IsValid = ground arith

over : locked_out.lock_until_ms ≤ now_ms (at 40).clock
unfolding now_ms
over = omega arith

abbrev calls : List Call
calls = seed (at 20) 1 ∷ key (at 20) 1 7 ∷ []

before_end : now_ms (at 20).clock < locked_out.lock_until_ms
unfolding now_ms
before_end = omega arith

locked_out_refuses_example : (run calls locked_out ≡ locked_out) × GainsNothing calls locked_out
locked_out_refuses_example =
    locked_out_refuses calls locked_out locked_out-IsValid (before_end, (before_end, tt))

calls-InWindow : InWindow 15000 (seed (at 20) 1) × InWindow 15000 (key (at 20) 1 7)
unfolding now_ms
calls-InWindow = omega (arith, at-IsSane)

wrong_keys_bounded_example : wrong_keys calls asked ≤ max_fails
wrong_keys_bounded_example =
    wrong_keys_bounded 15000 calls asked (calls-InWindow.0, (calls-InWindow.1, tt))
      (at-IsSane, (at-IsSane, tt)) asked-IsValid

IsWrong-seven : IsWrong (at 20) 7
unfolding seed_of
IsWrong-seven = ground arith
