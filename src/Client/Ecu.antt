-- ===== src/Client/Ecu.antt =====
-- The other end of the connection of client/diag_tool.py: the ECU of src/. Each request is answered
-- before the next is sent, and no other thread runs in between.
use vecu_uds.Base.{◌+◌, ℕ}
use vecu_uds.Vecu.{Vecu}
use vecu_uds.Clock.{Env}
use vecu_uds.Client.Documented.{Wire}
use vecu_uds.Uds.Dispatch.{process_request}
use vecu_uds.Types.{max_msg_len}

pub record Bench : Type 0 where
  pub asked : ℕ  -- the requests so far
  pub vecu : Vecu

-- `envs n` is what the kernel answers during request `n`.
unfoldable pub wire : (ℕ → Env) → Wire Bench
wire envs req b =
    let (o, t) = process_request (envs b.asked) req max_msg_len b.vecu in
    (o, record { asked = b.asked + 1; vecu = t })
