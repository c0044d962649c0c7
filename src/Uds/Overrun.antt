-- ===== src/Uds/Overrun.antt =====
-- The response buffer of src/uds.c when it is smaller than a seed response.
use vecu_uds.Base.{arith, [], ◌∷◌, true, ◌≡◌, ◌≤◌, length, ◌<◌, ℕ}
use vecu_uds.Uds.Dispatch.{process_request}
use vecu_uds.Uds.Reply.{is_extended_session, dropped, suppressed, reply, Outcome}
use vecu_uds.Uds.Access.{security_access}
use vecu_uds.Security.{request_seed}
use vecu_uds.Clock.{Env}
use vecu_uds.Vecu.{Vecu}

abbrev pub Overruns : ℕ → Outcome → Type 0
Overruns resp_cap (reply out) = resp_cap < length out
Overruns resp_cap (suppressed out) = resp_cap < length out
Overruns resp_cap dropped = ⊥

-- With room for three to five bytes only, which uds_process_request accepts, the answer to a seed
-- request (27 01) in a non-default session, while no lock-out is set, is written past the end of
-- the buffer.
pub seed_response-Overruns :
    (env : Env) (resp_cap : ℕ) (s : Vecu)
    → 3 ≤ resp_cap
    → resp_cap ≤ 5
    → is_extended_session s ≡ true
    → s.security.lock_until_ms ≡ 0
    → Overruns resp_cap (process_request env (0x27 ∷ 0x01 ∷ []) resp_cap s).0
unfolding process_request security_access request_seed
seed_response-Overruns env resp_cap s low high session free = ground arith
