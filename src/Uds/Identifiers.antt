-- ===== src/Uds/Identifiers.antt =====
-- Services 0x22 and 0x2E of src/uds.c.
use vecu_uds.Base.{
  ℕ, ◌+◌, List, [], ◌∷◌, Option, none, some, ◌!=◌, ◌&&◌, not, if◌then◌else◌, ltb, length, take,
  drop, bit_and, u8, ◌>>>◌,
}
use vecu_uds.Types.{pos_resp}
use vecu_uds.Types.Nrc
use vecu_uds.Did.{DidEntry, ReadFn, WriteFn, lookup}
use vecu_uds.Security.{is_unlocked}
use vecu_uds.Vecu.{Vecu, call_read, call_write}
use vecu_uds.Uds.Reply.{
  Outcome, reply, dropped, Handler, byte_at, refuse, rd16_be, is_extended_session,
}

-- What building the payload of 0x22 comes to: its bytes, NRC 0x22, or the return code -1.
pub data Payload : Type 0 where
  filled : List ℕ → Payload
  not_correct : Payload
  too_large : Payload

-- sizeof(payload)
abbrev pub payload_cap : ℕ
payload_cap = 256

abbrev pub of_callback : Option (List ℕ) → Payload
of_callback none = not_correct
of_callback (some out) = filled out

abbrev pub dynamic_payload : Option ReadFn → Vecu → Payload
dynamic_payload none s = not_correct
dynamic_payload (some fn) s = of_callback (call_read fn payload_cap s)

abbrev pub entry_payload : Option (List ℕ) → DidEntry → Vecu → Payload
entry_payload (some from) e s =
    if ltb payload_cap e.static_len then too_large else filled (take e.static_len from)
entry_payload none e s = dynamic_payload e.read s

-- The positive response, with the identifier echoed.
abbrev pub did_response : List ℕ → List ℕ → List ℕ
did_response req payload =
    let did = rd16_be req 1 in
    pos_resp (byte_at req 0) ∷ u8 (did >>> 8) ∷ u8 (bit_and did 0xFF) ∷ payload

abbrev pub send_payload : Payload → List ℕ → ℕ → Vecu → Outcome × Vecu
send_payload too_large req resp_cap s = (dropped, s)
send_payload not_correct req resp_cap s = refuse req Nrc.conditions_not_correct s
send_payload (filled payload) req resp_cap s =
    if ltb resp_cap (3 + length payload)
    then refuse req Nrc.response_too_long s
    else (reply (did_response req payload), s)

abbrev pub read_entry : Option DidEntry → List ℕ → ℕ → Vecu → Outcome × Vecu
read_entry none req resp_cap s = refuse req Nrc.request_out_of_range s
read_entry (some e) req resp_cap s = send_payload (entry_payload e.static_data e s) req resp_cap s

-- ReadDataByIdentifier
unfoldable pub read_did : Handler
read_did env req resp_cap s =
    if length req != 3
    then refuse req Nrc.incorrect_message_length s
    else read_entry (lookup (rd16_be req 1) s.dids) req resp_cap s

abbrev pub written : Option Vecu → List ℕ → Vecu → Outcome × Vecu
written none req s = refuse req Nrc.conditions_not_correct s
written (some t) req s = (reply (did_response req []), t)

abbrev pub write_entry : Option WriteFn → DidEntry → List ℕ → Vecu → Outcome × Vecu
write_entry none e req s = refuse req Nrc.request_out_of_range s
write_entry (some fn) e req s =
    if e.requires_extended_session && not (is_extended_session s)
    then refuse req Nrc.service_not_supported_in_session s
    else if e.requires_security && not (is_unlocked 0x01 s.security)
    then refuse req Nrc.security_access_denied s
    else written (call_write fn (drop 3 req) s) req s

abbrev pub write_found : Option DidEntry → List ℕ → Vecu → Outcome × Vecu
write_found none req s = refuse req Nrc.request_out_of_range s
write_found (some e) req s = write_entry e.write e req s

-- WriteDataByIdentifier
unfoldable pub write_did : Handler
write_did env req resp_cap s =
    if ltb (length req) 4
    then refuse req Nrc.incorrect_message_length s
    else write_found (lookup (rd16_be req 1) s.dids) req s
