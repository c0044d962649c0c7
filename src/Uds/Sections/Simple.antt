-- ===== src/Uds/Sections/Simple.antt =====
-- The handlers of src/uds.c for sessions, resets and trouble codes, cut into sections.
use vecu_uds.Types.Nrc
use vecu_uds.Types.Session
use vecu_uds.Base.{
  if◌then◌else◌, not, ltb, ℕ, length, List, [], ◌*◌, ◌&&◌, ◌||◌, ◌+◌, ◌!=◌, ◌∷◌, ◌==◌,
}
use vecu_uds.Clock.{Env}
use vecu_uds.Uds.Sections.{return, look, Program, section, refuse_if, Sectioned}
use vecu_uds.Uds.Reply.{reply, dropped, answer, byte_at, sub_function}
use vecu_uds.Vecu.{mark_tester_present, set_session}
use vecu_uds.Dtc.{mask_of, dtc_max, snapshot_by_mask, clear_all}
use vecu_uds.Security.{soft_reset}
use vecu_uds.Types.{pos_resp}
use vecu_uds.Uds.Faults.{encode_entries}

-- DiagnosticSessionControl
abbrev pub session_program : Env → List ℕ → ℕ → Program
session_program env req resp_cap =
    let sub = sub_function (byte_at req 1) in
    section (set_session env.clock sub) (λ _.
      if ltb resp_cap 6
      then return dropped
      else return (
          answer (byte_at req 1) (pos_resp (byte_at req 0) ∷ sub ∷ 0x00 ∷ 0x32 ∷ 0x01 ∷ 0xF4 ∷ [])))

unfoldable pub session_control_program : Sectioned
session_control_program env req resp_cap =
    let sub = sub_function (byte_at req 1) in
    refuse_if (length req != 2) req Nrc.incorrect_message_length (
      refuse_if
        (not (sub == Session.default || sub == Session.programming || sub == Session.extended)) req
        Nrc.sub_function_not_supported (session_program env req resp_cap))

-- ECUReset
unfoldable pub ecu_reset_program : Sectioned
ecu_reset_program env req resp_cap =
    let sub = sub_function (byte_at req 1) in
    refuse_if (length req != 2) req Nrc.incorrect_message_length (
      refuse_if (sub != 0x01 && sub != 0x02 && sub != 0x03) req Nrc.sub_function_not_supported (
        section (set_session env.clock Session.default) (λ _.
          section (λ s. record s { security = soft_reset s.security })
            (λ _. return (answer (byte_at req 1) (pos_resp (byte_at req 0) ∷ sub ∷ []))))))

-- TesterPresent
unfoldable pub tester_present_program : Sectioned
tester_present_program env req resp_cap =
    let sub = sub_function (byte_at req 1) in
    refuse_if (length req != 2) req Nrc.incorrect_message_length (
      refuse_if (sub != 0x00) req Nrc.sub_function_not_supported (
        section (mark_tester_present env.clock)
          (λ _. return (answer (byte_at req 1) (pos_resp (byte_at req 0) ∷ sub ∷ [])))))

-- ClearDiagnosticInformation
unfoldable pub clear_dtc_program : Sectioned
clear_dtc_program env req resp_cap = refuse_if (length req != 4) req Nrc.incorrect_message_length (
    refuse_if (not (byte_at req 1 == 0xFF && byte_at req 2 == 0xFF && byte_at req 3 == 0xFF)) req
      Nrc.request_out_of_range
      (section (λ s. record s { dtcs = (clear_all s.dtcs).1 })
        (λ _. return (reply (pos_resp (byte_at req 0) ∷ [])))))

-- ReadDTCInformation: the snapshot, then the availability mask.
unfoldable pub read_dtc_program : Sectioned
read_dtc_program env req resp_cap =
    let sub = sub_function (byte_at req 1) in
    refuse_if (ltb (length req) 2) req Nrc.incorrect_message_length (
      refuse_if (sub != 0x02) req Nrc.sub_function_not_supported (
        refuse_if (length req != 3) req Nrc.incorrect_message_length (
          look (λ s.
            let snap = snapshot_by_mask (byte_at req 2) dtc_max s.dtcs in
            refuse_if (ltb resp_cap (3 + length snap * 4)) req Nrc.response_too_long (
              look (λ t. return (
                answer (byte_at req 1)
                  (pos_resp (byte_at req 0) ∷ sub ∷ mask_of t.dtcs ∷ encode_entries snap))))))))
