-- ===== src/Uds/Format.antt =====
-- The shape and the length of what src/uds.c writes to the response buffer.
use vecu_uds.Types.Sid
use vecu_uds.Base.{
  ◌-◌, u8, drop, none, some, ltb, refl, Option, inr, inl, ◌!=◌, Bool-cases, ℕ, ◌+◌, ◌*◌, ◌≤◌, ◌<◌,
  ◌≡◌, ◌≢◌, ◌⊎◌, List, [], ◌∷◌, arith, length, bit_and,
}
use vecu_uds.Uds.Reply.{
  rd32_be, sub_function, rd16_be, dropped, suppressed, reply, byte_at, Outcome, Handler, answer,
}
use vecu_uds.Dtc.{dtc_max, snapshot_by_mask, DtcEntry}
use vecu_uds.Uds.Sessions.{tester_present, ecu_reset, session_control}
use vecu_uds.Uds.Faults.{read_dtc, clear_dtc, encode_entries}
use vecu_uds.Clock.{Env}
use vecu_uds.Types.{suppress_pos_resp_bit, pos_resp}
use vecu_uds.Vecu.{call_write, Vecu}
use vecu_uds.Security.{
  send_key, request_seed, already_unlocked, issued, accepted, refused, rejected, KeyResult,
  SeedResult,
}
use vecu_uds.Uds.Identifiers.{
  too_large, filled, entry_payload, not_correct, read_entry, write_entry, write_found, written,
  send_payload, write_did, Payload, read_did,
}
use vecu_uds.Uds.Access.{key_outcome, seed_outcome, security_access}
use vecu_uds.Uds.Dispatch.{process_rule, process_request}
use vecu_uds.Did.{lookup, WriteFn, DidEntry}

-- A negative response: 7F, the request's service, and a code.
abbrev pub IsNegative : List ℕ → List ℕ → Type 0
IsNegative req bytes =
    (length bytes ≡ 3)
    × (byte_at bytes 0 ≡ Sid.negative_response)
    × (byte_at bytes 1 ≡ byte_at req 0)

-- A positive response begins with the request's service plus 0x40.
abbrev pub IsPositive : List ℕ → List ℕ → Type 0
IsPositive req bytes = (0 < length bytes) × (byte_at bytes 0 ≡ pos_resp (byte_at req 0))

-- What the caller of uds_process_request may rely on: a response fits the buffer and is negative or
-- positive; only a positive one is suppressed, and only at a request that asks for it.
abbrev pub Answers : List ℕ → ℕ → Outcome → Type 0
Answers req resp_cap (reply bytes) =
    (length bytes ≤ resp_cap) × (IsNegative req bytes ⊎ IsPositive req bytes)
Answers req resp_cap (suppressed bytes) =
    (length bytes ≤ resp_cap)
    × IsPositive req bytes
    × (2 ≤ length req)
    × (bit_and (byte_at req 1) suppress_pos_resp_bit ≢ 0)
Answers req resp_cap dropped = Unit {0}

abbrev Answered : Handler → Type 0
Answered h =
    (env : Env) (req : List ℕ) (resp_cap : ℕ) (s : Vecu)
    → 6 ≤ resp_cap
    → Answers req resp_cap (h env req resp_cap s).0

-- A response that is sent or suppressed by bit 7 of the sub-function.
pub Answers-answer :
    (req : List ℕ) (resp_cap : ℕ) (bytes : List ℕ)
    → length bytes ≤ resp_cap
    → IsPositive req bytes
    → 2 ≤ length req
    → Answers req resp_cap (answer (byte_at req 1) bytes)
Answers-answer req resp_cap bytes fits pos two =
    elim (Bool-cases (bit_and (byte_at req 1) suppress_pos_resp_bit != 0)) [
      | inl on ↦ rw on (fits, pos, two, ground arith)
      | inr off ↦ rw off (fits, inr pos)
    ]

session_control-Answers : Answered session_control
unfolding session_control
session_control-Answers env req resp_cap s room = ground arith

pub length-encode_entries : (es : List DtcEntry) → length (encode_entries es) ≡ length es * 4
length-encode_entries [] = refl
length-encode_entries (e ∷ es) = omega (arith, length-encode_entries es)

read_dtc-Answers : Answered read_dtc
unfolding read_dtc
read_dtc-Answers env req resp_cap s room =
    ground (arith, length-encode_entries (snapshot_by_mask (byte_at req 2) dtc_max s.dtcs))

ecu_reset-Answers : Answered ecu_reset
unfolding ecu_reset
ecu_reset-Answers env req resp_cap s room = ground arith

tester_present-Answers : Answered tester_present
unfolding tester_present
tester_present-Answers env req resp_cap s room = ground arith

clear_dtc-Answers : Answered clear_dtc
unfolding clear_dtc
clear_dtc-Answers env req resp_cap s room = ground arith

pub send_payload-Answers :
    (p : Payload) (req : List ℕ) (resp_cap : ℕ) (s : Vecu)
    → 6 ≤ resp_cap
    → Answers req resp_cap (send_payload p req resp_cap s).0
send_payload-Answers (filled payload) req resp_cap s room = ground arith
send_payload-Answers not_correct req resp_cap s room = ground arith
send_payload-Answers too_large req resp_cap s room = tt

read_entry-Answers :
    (e : Option DidEntry) (req : List ℕ) (resp_cap : ℕ) (s : Vecu)
    → 6 ≤ resp_cap
    → Answers req resp_cap (read_entry e req resp_cap s).0
read_entry-Answers none req resp_cap s room = ground arith
read_entry-Answers (some e) req resp_cap s room =
    send_payload-Answers (entry_payload e.static_data e s) req resp_cap s room

read_did-Answers : Answered read_did
unfolding read_did
read_did-Answers env req resp_cap s room = elim (Bool-cases (length req != 3)) [
  | inl bad ↦ rw bad (ground arith)
  | inr good ↦ rw good (read_entry-Answers (lookup (rd16_be req 1) s.dids) req resp_cap s room)
]

written-Answers :
    (o : Option Vecu) (req : List ℕ) (resp_cap : ℕ) (s : Vecu)
    → 6 ≤ resp_cap
    → Answers req resp_cap (written o req s).0
written-Answers none req resp_cap s room = ground arith
written-Answers (some t) req resp_cap s room = ground arith

write_entry-Answers :
    (w : Option WriteFn) (e : DidEntry) (req : List ℕ) (resp_cap : ℕ) (s : Vecu)
    → 6 ≤ resp_cap
    → Answers req resp_cap (write_entry w e req s).0
write_entry-Answers none e req resp_cap s room = ground arith
write_entry-Answers (some fn) e req resp_cap s room =
    ground (arith, written-Answers (call_write fn (drop 3 req) s) req resp_cap s room)

write_found-Answers :
    (e : Option DidEntry) (req : List ℕ) (resp_cap : ℕ) (s : Vecu)
    → 6 ≤ resp_cap
    → Answers req resp_cap (write_found e req s).0
write_found-Answers none req resp_cap s room = ground arith
write_found-Answers (some e) req resp_cap s room = write_entry-Answers e.write e req resp_cap s room

write_did-Answers : Answered write_did
unfolding write_did
write_did-Answers env req resp_cap s room = elim (Bool-cases (ltb (length req) 4)) [
  | inl bad ↦ rw bad (ground arith)
  | inr good ↦ rw good (write_found-Answers (lookup (rd16_be req 1) s.dids) req resp_cap s room)
]

pub seed_outcome-Answers :
    (r : SeedResult) (req : List ℕ) (resp_cap : ℕ)
    → 6 ≤ resp_cap
    → 2 ≤ length req
    → Answers req resp_cap (seed_outcome r req)
seed_outcome-Answers (refused nrc) req resp_cap room two = ground arith
seed_outcome-Answers already_unlocked req resp_cap room two = ground arith
seed_outcome-Answers (issued seed) req resp_cap room two = ground arith

pub key_outcome-Answers :
    (r : KeyResult) (req : List ℕ) (resp_cap : ℕ)
    → 6 ≤ resp_cap
    → 2 ≤ length req
    → Answers req resp_cap (key_outcome r req)
key_outcome-Answers (rejected nrc) req resp_cap room two = ground arith
key_outcome-Answers accepted req resp_cap room two = ground arith

security_access-Answers : Answered security_access
unfolding security_access
security_access-Answers env req resp_cap s room = ground (
  arith,
  seed_outcome-Answers (request_seed env (sub_function (byte_at req 1)) s.security).0 req resp_cap,
  key_outcome-Answers
      (send_key env (u8 (sub_function (byte_at req 1) + 256 - 1)) (rd32_be req 2) s.security).0 req
      resp_cap,
)

-- With room for six bytes, whatever uds_process_request writes fits the response buffer and is a
-- negative response with the request's service or a positive one; and what it suppresses is
-- positive and answers a request with bit 7 of its second byte set.
pub process_request-Answers :
    (env : Env) (req : List ℕ) (resp_cap : ℕ) (s : Vecu)
    → 6 ≤ resp_cap
    → Answers req resp_cap (process_request env req resp_cap s).0
process_request-Answers env req resp_cap s room =
    process_rule (λ out. Answers req resp_cap out.0) env req resp_cap s tt (λ _. ground arith)
      λ _. (
        λ hit. session_control-Answers env req resp_cap s room,
        (
          λ hit. ecu_reset-Answers env req resp_cap s room,
          (
            λ hit. clear_dtc-Answers env req resp_cap s room,
            (
              λ hit. read_dtc-Answers env req resp_cap s room,
              (
                λ hit. read_did-Answers env req resp_cap s room,
                (
                  λ hit. security_access-Answers env req resp_cap s room,
                  (
                    λ hit. write_did-Answers env req resp_cap s room,
                    (λ hit. tester_present-Answers env req resp_cap s room, tt),
                  ),
                ),
              ),
            ),
          ),
        ),
      )
