-- ===== src/Uds/Sections/Request.antt =====
-- uds_process_request of src/uds.c over the handlers cut into sections.
use vecu_uds.Types.Nrc
use vecu_uds.Types.Sid
use vecu_uds.Base.{ltb, length, ℕ, if◌then◌else◌, List, [], ◌||◌, ◌∷◌, ◌==◌}
use vecu_uds.Uds.Sections.{return, refusal, Sectioned}
use vecu_uds.Uds.Sections.Simple.{
  tester_present_program, read_dtc_program, clear_dtc_program, ecu_reset_program,
  session_control_program,
}
use vecu_uds.Uds.Reply.{dropped, byte_at}
use vecu_uds.Uds.Sections.Data.{write_did_program, read_did_program}
use vecu_uds.Uds.Sections.Keys.{security_access_program}

-- DISPATCH and the scan of uds_process_request
abbrev pub dispatch_program : List (ℕ × Sectioned)
dispatch_program =
    (Sid.diagnostic_session_control, session_control_program)
    ∷ (Sid.ecu_reset, ecu_reset_program)
    ∷ (Sid.clear_dtc, clear_dtc_program)
    ∷ (Sid.read_dtc, read_dtc_program)
    ∷ (Sid.read_data_by_identifier, read_did_program)
    ∷ (Sid.security_access, security_access_program)
    ∷ (Sid.write_data_by_identifier, write_did_program)
    ∷ (Sid.tester_present, tester_present_program)
    ∷ []

unfoldable pub scan_program : List (ℕ × Sectioned) → Sectioned
scan_program [] env req resp_cap = refusal req Nrc.service_not_supported
scan_program ((sid, handler) ∷ rest) env req resp_cap =
    if sid == byte_at req 0 then handler env req resp_cap else scan_program rest env req resp_cap

-- uds_process_request
unfoldable pub request_program : Sectioned
request_program env req resp_cap =
    if length req == 0 || ltb resp_cap 3
    then return dropped
    else scan_program dispatch_program env req resp_cap
