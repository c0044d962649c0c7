-- ===== src/Uds/Sections/Keys.antt =====
-- h_security_access of src/uds.c, cut into sections.
use vecu_uds.Types.Nrc
use vecu_uds.Base.{bit_and, not, u8, length, ℕ, ltb, List, Bool, true, false, ◌-◌, ◌+◌, ◌!=◌, ◌==◌}
use vecu_uds.Clock.{Env}
use vecu_uds.Uds.Sections.{return, section, look, Program, refuse_if, Sectioned}
use vecu_uds.Uds.Reply.{is_extended_session, rd32_be, byte_at, sub_function}
use vecu_uds.Security.{send_key, request_seed}
use vecu_uds.Uds.Access.{key_outcome, seed_outcome}

-- SecurityAccess: the session, then the call of src/security.c.
unfoldable pub seed_program : Env → List ℕ → Program
seed_program env req =
    let sub = sub_function (byte_at req 1) in
    refuse_if (length req != 2) req Nrc.incorrect_message_length (
      section (λ s. record s { security = (request_seed env sub s.security).1 })
        (λ s. return (seed_outcome (request_seed env sub s.security).0 req)))

unfoldable pub key_program : Env → List ℕ → Program
key_program env req =
    let level = u8 (sub_function (byte_at req 1) + 256 - 1) in
    let key = rd32_be req 2 in
    refuse_if (length req != 6) req Nrc.incorrect_message_length (
      section (λ s. record s { security = (send_key env level key s.security).1 })
        (λ s. return (key_outcome (send_key env level key s.security).0 req)))

-- by the lowest bit of the sub-function
abbrev pub access_program : Bool → Env → List ℕ → Program
access_program true env req = seed_program env req
access_program false env req = key_program env req

unfoldable pub security_access_program : Sectioned
security_access_program env req resp_cap =
    refuse_if (ltb (length req) 2) req Nrc.incorrect_message_length (
      look (λ s.
        refuse_if (not (is_extended_session s)) req Nrc.service_not_supported_in_session
          (access_program (bit_and (sub_function (byte_at req 1)) 0x01 == 0x01) env req)))
