-- ===== src/Uds/Sections/Whole.antt =====
-- The handlers of src/uds.c run without interruption.
use vecu_uds.Uds.Reply.{refuse, is_extended_session, rd16_be, Handler}
use vecu_uds.Uds.Faults
use vecu_uds.Uds.Identifiers
use vecu_uds.Uds.Access
use vecu_uds.Types.Nrc
use vecu_uds.Uds.Sections.{refuse_if, run, Sectioned}
use vecu_uds.Uds.Sessions.{ecu_reset, tester_present, session_control}
use vecu_uds.Clock.{Env}
use vecu_uds.Uds.Faults.{clear_dtc}
use vecu_uds.Base.{
  false, true, drop, refl, not, ◌&&◌, none, some, if◌then◌else◌, Bool, Option, ◌≡◌, ℕ, List, arith,
}
use vecu_uds.Vecu.{call_write, Vecu}
use vecu_uds.Uds.Identifiers.{
  too_large, entry_payload, not_correct, write_entry, filled, write_found, send_payload, read_did,
  write_did, Payload,
}
use vecu_uds.Did.{lookup, DidEntry, WriteFn}
use vecu_uds.Uds.Dispatch.{process_request}
use vecu_uds.Security.{is_unlocked}
use vecu_uds.Uds.Sections.Data.{
  wrote, read_did_program, write_found_program, payload_program, written_outcome, write_did_program,
  extended_program, read_entry_program, write_entry_program,
}
use vecu_uds.Uds.Sections.Request.{scan_program, request_program}
use vecu_uds.Uds.Sections.Simple.{
  ecu_reset_program, tester_present_program, session_control_program, clear_dtc_program,
  read_dtc_program,
}
use vecu_uds.Uds.Sections.Keys.{key_program, seed_program, security_access_program}

-- The sections in a row do what the handler does.
abbrev Whole : Sectioned → Handler → Type 0
Whole p h =
    (env : Env) (req : List ℕ) (resp_cap : ℕ) (s : Vecu)
    → run (p env req resp_cap) s ≡ h env req resp_cap s

session_control-Whole : Whole session_control_program session_control
unfolding run refuse_if session_control session_control_program
session_control-Whole env req resp_cap s = ground arith

ecu_reset-Whole : Whole ecu_reset_program ecu_reset
unfolding run refuse_if ecu_reset ecu_reset_program
ecu_reset-Whole env req resp_cap s = ground arith

tester_present-Whole : Whole tester_present_program tester_present
unfolding run refuse_if tester_present tester_present_program
tester_present-Whole env req resp_cap s = ground arith

clear_dtc-Whole : Whole clear_dtc_program clear_dtc
unfolding run refuse_if clear_dtc clear_dtc_program
clear_dtc-Whole env req resp_cap s = ground arith

read_dtc-Whole : Whole read_dtc_program Faults.read_dtc
unfolding run refuse_if Faults.read_dtc read_dtc_program
read_dtc-Whole env req resp_cap s = ground arith

payload-Whole :
    (p : Payload) (req : List ℕ) (resp_cap : ℕ) (s : Vecu)
    → run (payload_program p req resp_cap) s ≡ send_payload p req resp_cap s
unfolding run refuse_if
payload-Whole (filled payload) req resp_cap s = ground arith
payload-Whole not_correct req resp_cap s = refl
payload-Whole too_large req resp_cap s = refl

read_entry-Whole :
    (e : Option DidEntry) (req : List ℕ) (resp_cap : ℕ) (s : Vecu)
    → run (read_entry_program e req resp_cap) s ≡ Identifiers.read_entry e req resp_cap s
unfolding run refuse_if
read_entry-Whole none req resp_cap s = refl
read_entry-Whole (some e) req resp_cap s =
    payload-Whole (entry_payload e.static_data e s) req resp_cap s

read_did-Whole : Whole read_did_program read_did
unfolding run refuse_if read_did read_did_program
read_did-Whole env req resp_cap s =
    ground (arith, read_entry-Whole (lookup (rd16_be req 1) s.dids) req resp_cap s)

security_access-Whole : Whole security_access_program Access.security_access
unfolding run refuse_if Access.security_access security_access_program seed_program key_program
security_access-Whole env req resp_cap s = ground arith

write-Whole :
    (o : Option Vecu) (req : List ℕ) (s : Vecu)
    → (written_outcome o req, wrote s o) ≡ Identifiers.written o req s
write-Whole none req s = refl
write-Whole (some t) req s = refl

extended-Whole :
    (extended security : Bool) (fn : WriteFn) (req : List ℕ) (s : Vecu)
    → run (extended_program extended security fn req) s ≡ (
        if extended && not (is_extended_session s)
        then refuse req Nrc.service_not_supported_in_session s
        else if security && not (is_unlocked 0x01 s.security)
        then refuse req Nrc.security_access_denied s
        else Identifiers.written (call_write fn (drop 3 req) s) req s)
unfolding run refuse_if
extended-Whole false false fn req s = write-Whole (call_write fn (drop 3 req) s) req s
extended-Whole false true fn req s =
    ground (arith, write-Whole (call_write fn (drop 3 req) s) req s)
extended-Whole true false fn req s =
    ground (arith, write-Whole (call_write fn (drop 3 req) s) req s)
extended-Whole true true fn req s = ground (arith, write-Whole (call_write fn (drop 3 req) s) req s)

write_entry-Whole :
    (w : Option WriteFn) (e : DidEntry) (req : List ℕ) (s : Vecu)
    → run (write_entry_program w e req) s ≡ write_entry w e req s
unfolding run refuse_if
write_entry-Whole none e req s = refl
write_entry-Whole (some fn) e req s =
    extended-Whole e.requires_extended_session e.requires_security fn req s

write_found-Whole :
    (o : Option DidEntry) (req : List ℕ) (s : Vecu)
    → run (write_found_program o req) s ≡ write_found o req s
unfolding run refuse_if
write_found-Whole none req s = refl
write_found-Whole (some e) req s = write_entry-Whole e.write e req s

write_did-Whole : Whole write_did_program write_did
unfolding run refuse_if write_did write_did_program
write_did-Whole env req resp_cap s =
    ground (arith, write_found-Whole (lookup (rd16_be req 1) s.dids) req s)

-- The sections of a request, run with no other thread in between, come to the outcome and the state
-- of uds_process_request, for every request, response capacity, state and answer of the kernel.
pub request-Whole :
    (env : Env) (req : List ℕ) (resp_cap : ℕ) (s : Vecu)
    → run (request_program env req resp_cap) s ≡ process_request env req resp_cap s
unfolding run request_program scan_program process_request
request-Whole env req resp_cap s = ground (
  arith,
  session_control-Whole env req resp_cap s,
  ecu_reset-Whole env req resp_cap s,
  clear_dtc-Whole env req resp_cap s,
  read_dtc-Whole env req resp_cap s,
  read_did-Whole env req resp_cap s,
  security_access-Whole env req resp_cap s,
  write_did-Whole env req resp_cap s,
  tester_present-Whole env req resp_cap s,
)
