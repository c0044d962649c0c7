-- ===== src/Client/Identify.antt =====
-- The read-vin and read-serial commands of client/diag_tool.py against the ECU of src/.
use vecu_uds.Base.{ℕ, ◌≡◌, refl, [], ◌∷◌, some}
use vecu_uds.Client.{Udsoncan, text, ◌>>=◌, ◌>>◌}
use vecu_uds.Client.Commands.{cmd_read_serial, cmd_read_vin, main, read_vin, read_serial}
use vecu_uds.Client.Ecu.{wire, Bench}
use vecu_uds.Clock.{Env}
use vecu_uds.Client.Documented.{Documented}
use vecu_uds.Vecu.{codes, registered_dids}
use vecu_uds.Client.Values.{serial_call, vin_call}
use vecu_uds.Client.Calls.{next}

-- If the package does as documented and the table is that of vecu_init, the read-vin and the
-- read-serial command end with exit code 0 and print what vecu_init registered.
pub read_vin_serial :
    (lib : Udsoncan Bench) (envs : ℕ → Env) (b : Bench)
    → Documented lib (wire envs)
    → b.vecu.dids ≡ registered_dids
    → (main lib read_vin b ≡ (
      some 0,
      next b b.vecu,
      (text (codes "VIN: ") ∷ text (codes "VF1234567890ABCDE") ∷ []) ∷ [],
    ))
      × (main lib read_serial b ≡ (
        some 0,
        next b b.vecu,
        (text (codes "Serial: ") ∷ text (codes "ECU-DEMO-001") ∷ []) ∷ [],
      ))
unfolding main cmd_read_vin cmd_read_serial
read_vin_serial lib envs b doc table = (
  rw (◌>>=◌, ◌>>◌, vin_call lib envs doc b table) refl,
  rw (◌>>=◌, ◌>>◌, serial_call lib envs doc b table) refl,
)
