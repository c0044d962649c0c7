-- ===== src/Uds/Examples.antt =====
-- Requests to src/uds.c on the state that vecu_init builds, and on states of a session.
use vecu_uds.Vecu
use vecu_uds.Security
use vecu_uds.Types.Sid
use vecu_uds.Types.Session
use vecu_uds.Uds.Invariant
use vecu_uds.Uds.Reply
use vecu_uds.Uds.Access
use vecu_uds.Uds.Handshake.{
  handshake_unlocks, reset_lifts_lock_out, key_request, seed_request, FourBytes,
}
use vecu_uds.Clock.{Env, now_ms, Timespec}
use vecu_uds.Uds.Format.{process_request-Answers, Answers}
use vecu_uds.Base.{inr, ◌≢◌, [], refl, false, arith, ℕ, some, ◌∷◌, true, List, bit_xor, ◌≡◌}
use vecu_uds.Uds.Dispatch.{process_request}
use vecu_uds.Uds.Gate.{unlock_only_by_key, KeyMatches}
use vecu_uds.Uds.OwnerName.{OwnerChanged, owner_write_guarded, WriteAllowed}
use vecu_uds.Vecu.{write_owner, call_write, registered_dids, Vecu}
use vecu_uds.Uds.Overrun.{seed_response-Overruns, Overruns}
use vecu_uds.Security.{key_constant, send_key, is_unlocked}
use vecu_uds.Uds.Reply.{wr32_be, reply}
use vecu_uds.Security.Inv.{IsSane}
use vecu_uds.Uds.Identifiers.{write_did}
use vecu_uds.Uds.Invariant.{process_request-IsValid}
use vecu_uds.Uds.Silence.{suppress_bit_silences, silence}
use vecu_uds.Did.{lookup}

abbrev twenty_seconds : Timespec
twenty_seconds = record { tv_sec = 20; tv_nsec = 0 }

abbrev env : Env
env = record { clock = twenty_seconds; clock_again = twenty_seconds; entropy = some 0x12345678 }

env-IsSane : IsSane env
unfolding now_ms
env-IsSane = omega arith

env-FourBytes : FourBytes env
env-FourBytes n e = ground arith

abbrev start : Vecu
start = Vecu.init twenty_seconds

-- an extended session
abbrev in_session : Vecu
in_session = record start { session = Session.extended }

-- an extended session with a seed pending
abbrev asked : Vecu
asked = record in_session {
  security = record Security.init { pending_seed = 0x12345678; seed_issued = true };
}

-- an extended session, unlocked
abbrev unlocked : Vecu
unlocked = record in_session { security = record Security.init { unlocked_level = 1 } }

right_key : bit_xor 0x12345678 key_constant ≡ 0xCC99E897
right_key = refl

process_request-IsValid_example : Invariant.IsValid (process_request env seed_request 4095 start).1
process_request-IsValid_example =
    process_request-IsValid env seed_request 4095 start env-IsSane
      (Invariant.init-IsValid twenty_seconds)

locked : is_unlocked 0x01 asked.security ≡ false
unfolding is_unlocked Security.init
locked = refl

unlocks :
    is_unlocked 0x01 (process_request env (key_request 0xCC99E897) 4095 asked).1.security ≡ true
unfolding process_request Access.security_access send_key is_unlocked Vecu.init Security.init
    Reply.is_extended_session
unlocks = refl

unlock_only_by_key_example : KeyMatches (key_request 0xCC99E897) asked
unlock_only_by_key_example =
    unlock_only_by_key env (key_request 0xCC99E897) 4095 asked locked unlocks

abbrev write_request : List ℕ
write_request = Sid.write_data_by_identifier ∷ 0xF2 ∷ 0x00 ∷ 66 ∷ 79 ∷ 66 ∷ []

boot : unlocked.dids ≡ registered_dids
unfolding Vecu.init
boot = refl

changed : OwnerChanged unlocked (process_request env write_request 4095 unlocked).1
unfolding process_request write_did call_write write_owner Vecu.init is_unlocked lookup
    registered_dids Reply.is_extended_session
changed = inr (omega arith)

owner_write_guarded_example : WriteAllowed write_request unlocked
owner_write_guarded_example = owner_write_guarded env write_request 4095 unlocked boot changed

session : Reply.is_extended_session in_session ≡ true
unfolding Reply.is_extended_session
session = refl

not_unlocked : in_session.security.unlocked_level ≡ 0
unfolding Vecu.init Security.init
not_unlocked = refl

not_locked_out : in_session.security.lock_until_ms ≡ 0
unfolding Vecu.init Security.init
not_locked_out = refl

handshake_unlocks_example :
    let (o, t) = process_request env seed_request 4095 in_session in
    let seed = t.security.pending_seed in
    let (o', u) = process_request env (key_request (bit_xor seed key_constant)) 4095 t in
    (o ≡ reply (0x67 ∷ 0x01 ∷ wr32_be seed))
    × (seed ≢ 0)
    × (o' ≡ reply (0x67 ∷ 0x02 ∷ []))
    × (is_unlocked 0x01 u.security ≡ true)
handshake_unlocks_example =
    handshake_unlocks env env 4095 in_session (omega arith) env-FourBytes session not_unlocked
      (omega (arith, not_locked_out))

reset_lifts_lock_out_example :
    let (o₁, t) = process_request env (Sid.ecu_reset ∷ 0x01 ∷ []) 4095 asked in
    let (o₂, u) = process_request env (Sid.diagnostic_session_control ∷ 0x03 ∷ []) 4095 t in
    let (o₃, v) = process_request env seed_request 4095 u in
    (o₁ ≡ reply (0x51 ∷ 0x01 ∷ []))
    × (o₂ ≡ reply (0x50 ∷ 0x03 ∷ 0x00 ∷ 0x32 ∷ 0x01 ∷ 0xF4 ∷ []))
    × (o₃ ≡ reply (0x67 ∷ 0x01 ∷ wr32_be v.security.pending_seed))
    × (v.security.seed_issued ≡ true)
reset_lifts_lock_out_example = reset_lifts_lock_out env env env 4095 asked (omega arith)

process_request-Answers_example :
    Answers write_request 4095 (process_request env write_request 4095 start).0
process_request-Answers_example = process_request-Answers env write_request 4095 start (omega arith)

suppress_bit_silences_example :
    process_request env (Sid.tester_present ∷ 128 ∷ []) 4095 start
    ≡ (let (o, t) = process_request env (Sid.tester_present ∷ 0 ∷ []) 4095 start in (silence o, t))
suppress_bit_silences_example =
    suppress_bit_silences env Sid.tester_present 0 [] 4095 start (inr (inr (inr (inr refl))))
      (omega arith)

seed_response-Overruns_example : Overruns 3 (process_request env (0x27 ∷ 0x01 ∷ []) 3 in_session).0
seed_response-Overruns_example =
    seed_response-Overruns env 3 in_session (omega arith) (omega arith) session not_locked_out
