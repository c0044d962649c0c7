-- ===== src/Uds/Sessions.antt =====
-- Services 0x10, 0x11 and 0x3E of src/uds.c.
use vecu_uds.Base.{[], ◌∷◌, ◌==◌, ◌!=◌, ◌||◌, ◌&&◌, if◌then◌else◌, ltb, length}
use vecu_uds.Types.{pos_resp}
use vecu_uds.Types.Nrc
use vecu_uds.Types.Session
use vecu_uds.Security.{soft_reset}
use vecu_uds.Vecu.{set_session, mark_tester_present}
use vecu_uds.Uds.Reply.{dropped, Handler, byte_at, refuse, sub_function, answer}

-- DiagnosticSessionControl. The session is set before the response buffer is looked at.
unfoldable pub session_control : Handler
unfolding set_session
session_control env req resp_cap s =
    if length req != 2
    then refuse req Nrc.incorrect_message_length s
    else let sub_raw = byte_at req 1 in
      let sub = sub_function sub_raw in
      if sub == Session.default || sub == Session.programming || sub == Session.extended
      then (let s' = set_session env.clock sub s in
          if ltb resp_cap 6 then (dropped, s') else (
            answer sub_raw (pos_resp (byte_at req 0) ∷ sub ∷ 0x00 ∷ 0x32 ∷ 0x01 ∷ 0xF4 ∷ []),
            s',
          ))
      else refuse req Nrc.sub_function_not_supported s

-- ECUReset
unfoldable pub ecu_reset : Handler
unfolding set_session soft_reset
ecu_reset env req resp_cap s =
    if length req != 2
    then refuse req Nrc.incorrect_message_length s
    else let sub_raw = byte_at req 1 in
      let sub = sub_function sub_raw in
      if sub != 0x01 && sub != 0x02 && sub != 0x03
      then refuse req Nrc.sub_function_not_supported s
      else let s' = set_session env.clock Session.default s in
        (
          answer sub_raw (pos_resp (byte_at req 0) ∷ sub ∷ []),
          record s' { security = soft_reset s'.security },
        )

-- TesterPresent
unfoldable pub tester_present : Handler
unfolding mark_tester_present
tester_present env req resp_cap s =
    if length req != 2
    then refuse req Nrc.incorrect_message_length s
    else let sub_raw = byte_at req 1 in
      let sub = sub_function sub_raw in
      if sub != 0x00
      then refuse req Nrc.sub_function_not_supported s
      else (answer sub_raw (pos_resp (byte_at req 0) ∷ sub ∷ []), mark_tester_present env.clock s)
