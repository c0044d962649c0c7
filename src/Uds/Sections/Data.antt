-- ===== src/Uds/Sections/Data.antt =====
-- h_read_did and h_write_did of src/uds.c, cut into sections.
use vecu_uds.Types.Nrc
use vecu_uds.Base.{
  drop, not, ℕ, length, ltb, List, Option, Bool, true, false, none, some, [], ◌+◌, ◌!=◌,
}
use vecu_uds.Uds.Identifiers.{did_response, entry_payload, Payload, filled, too_large, not_correct}
use vecu_uds.Uds.Sections.{return, section, refusal, look, Program, refuse_if, Sectioned}
use vecu_uds.Did.{lookup, DidEntry, WriteFn}
use vecu_uds.Vecu.{call_write, Vecu}
use vecu_uds.Uds.Reply.{byte_at, rd16_be, build_nrc, dropped, is_extended_session, reply, Outcome}
use vecu_uds.Security.{is_unlocked}

-- The rest of ReadDataByIdentifier once the payload is there, and once the entry is.
abbrev pub payload_program : Payload → List ℕ → ℕ → Program
payload_program too_large req resp_cap = return dropped
payload_program not_correct req resp_cap = refusal req Nrc.conditions_not_correct
payload_program (filled payload) req resp_cap =
    refuse_if (ltb resp_cap (3 + length payload)) req Nrc.response_too_long
      (return (reply (did_response req payload)))

abbrev pub read_entry_program : Option DidEntry → List ℕ → ℕ → Program
read_entry_program none req resp_cap = refusal req Nrc.request_out_of_range
read_entry_program (some e) req resp_cap =
    look (λ s. payload_program (entry_payload e.static_data e s) req resp_cap)

-- ReadDataByIdentifier
unfoldable pub read_did_program : Sectioned
read_did_program env req resp_cap =
    refuse_if (length req != 3) req Nrc.incorrect_message_length
      (look (λ s. read_entry_program (lookup (rd16_be req 1) s.dids) req resp_cap))

-- WriteDataByIdentifier: the session, the security level, and the write, each if the entry asks for
-- it.
abbrev pub wrote : Vecu → Option Vecu → Vecu
wrote s none = s
wrote s (some t) = t

abbrev pub written_outcome : Option Vecu → List ℕ → Outcome
written_outcome none req = reply (build_nrc (byte_at req 0) Nrc.conditions_not_correct)
written_outcome (some t) req = reply (did_response req [])

abbrev pub write_program : WriteFn → List ℕ → Program
write_program fn req =
    section (λ s. wrote s (call_write fn (drop 3 req) s))
      (λ s. return (written_outcome (call_write fn (drop 3 req) s) req))

abbrev pub unlocked_program : Bool → WriteFn → List ℕ → Program
unlocked_program false fn req = write_program fn req
unlocked_program true fn req = look (λ s.
    refuse_if (not (is_unlocked 0x01 s.security)) req Nrc.security_access_denied
      (write_program fn req))

abbrev pub extended_program : Bool → Bool → WriteFn → List ℕ → Program
extended_program false security fn req = unlocked_program security fn req
extended_program true security fn req = look (λ s.
    refuse_if (not (is_extended_session s)) req Nrc.service_not_supported_in_session
      (unlocked_program security fn req))

abbrev pub write_entry_program : Option WriteFn → DidEntry → List ℕ → Program
write_entry_program none e req = refusal req Nrc.request_out_of_range
write_entry_program (some fn) e req =
    extended_program e.requires_extended_session e.requires_security fn req

abbrev pub write_found_program : Option DidEntry → List ℕ → Program
write_found_program none req = refusal req Nrc.request_out_of_range
write_found_program (some e) req = write_entry_program e.write e req

unfoldable pub write_did_program : Sectioned
write_did_program env req resp_cap =
    refuse_if (ltb (length req) 4) req Nrc.incorrect_message_length
      (look (λ s. write_found_program (lookup (rd16_be req 1) s.dids) req))
