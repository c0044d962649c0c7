-- ===== src/Client/ClearDtc.antt =====
-- The clear-dtc command of client/diag_tool.py against the ECU of src/.
use vecu_uds.Base.{List, ℕ, ◌≡◌, refl, arith, [], ◌∷◌, some}
use vecu_uds.Client.{Udsoncan, ok, text, ◌>>=◌, ◌>>◌}
use vecu_uds.Client.Commands.{cmd_clear_dtc, cmd_read_dtc, main, read_dtc, clear_dtc}
use vecu_uds.Types.Sid
use vecu_uds.Client.Documented.{Documented, dtc_entries}
use vecu_uds.Client.Ecu.{wire, Bench}
use vecu_uds.Clock.{Env}
use vecu_uds.Vecu.{codes}
use vecu_uds.Client.Calls.{wire_step, wire_lem, after}
use vecu_uds.Uds.RoundTrip.{read-clear_dtc}
use vecu_uds.Types.{max_msg_len}

-- If the package does as documented, the clear-dtc command ends with exit code 0, and the read-dtc
-- command after it says that there is no active code.
pub read-clear_command :
    (lib : Udsoncan Bench) (envs : ℕ → Env) (b : Bench)
    → Documented lib (wire envs)
    → let (code, c, lines) = main lib clear_dtc b in
      let (code', d, lines') = main lib read_dtc c in
      (code ≡ some 0)
      × (lines ≡ (text (codes "DTCs cleared.") ∷ []) ∷ [])
      × (code' ≡ some 0)
      × (lines' ≡ (text (codes "No active DTCs.") ∷ []) ∷ [])
unfolding main cmd_read_dtc cmd_clear_dtc dtc_entries
read-clear_command lib envs b doc =
    let clear_request : List ℕ = Sid.clear_dtc ∷ 0xFF ∷ 0xFF ∷ 0xFF ∷ [] in
    let c = after envs clear_request b in
    let steps =
      read-clear_dtc (envs b.asked) (envs c.asked) 0x09 max_msg_len b.vecu (omega arith) in
    let cleared = doc.clear.accepted b c _ tt (wire_lem envs clear_request _ b steps.0) refl in
    let read = (doc.dtcs 0x09).accepted c _ _ [] (wire_step envs _ _ c c.vecu steps.1) refl in
    let ran : cmd_clear_dtc lib (record { ecu = b; printed = [] })
        ≡ (ok 0, record { ecu = c; printed = (text (codes "DTCs cleared.") ∷ []) ∷ [] }) =
      rw (◌>>=◌, ◌>>◌, cleared) refl in
    rw (main, ran, ◌>>=◌, read) (refl, refl, refl, refl)
