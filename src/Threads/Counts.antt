-- ===== src/Threads/Counts.antt =====
-- Schedules of the process of src/main.c and src/threads.c: how many turns each thread has.
use vecu_uds.Base.{arith, [], ◌+◌, ◌∷◌, ◌≤◌, ℕ, List, ◌-◌, zero, suc}
use vecu_uds.App.{Doubles}
use vecu_uds.Threads.Process.{timer, dispatch, receive, engine, main_goes_on, Action}

-- The turns of each thread in a schedule.
abbrev pub receives : {d : Doubles} → Action d → ℕ
receives (receive answer) = 1
receives other_action = 0

abbrev pub dispatches : {d : Doubles} → Action d → ℕ
dispatches (dispatch env) = 1
dispatches other_action = 0

abbrev pub timers : {d : Doubles} → Action d → ℕ
timers (timer clock) = 1
timers other_action = 0

abbrev pub engines : {d : Doubles} → Action d → ℕ
engines engine = 1
engines other_action = 0

abbrev pub mains : {d : Doubles} → Action d → ℕ
mains main_goes_on = 1
mains other_action = 0

abbrev pub turns : {d : Doubles} → (Action d → ℕ) → List (Action d) → ℕ
turns f [] = 0
turns f (a ∷ rest) = f a + turns f rest

abbrev pub spend : ℕ → ℕ → ℕ
spend zero k = k
spend (suc n) k = k - suc n

pub spend-le : (f : ℕ) {k n : ℕ} → k ≤ f + n → spend f k ≤ n
spend-le zero h = omega arith
spend-le (suc f) h = omega arith
