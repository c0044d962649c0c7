-- ===== src/Uds/Gate.antt =====
-- Which requests to src/uds.c unlock the ECU.
use vecu_uds.Types.Nrc
use vecu_uds.Uds.Faults
use vecu_uds.Uds.Access
use vecu_uds.Uds.Sessions
use vecu_uds.Types.Sid
use vecu_uds.Base.{bit_xor, refl, true, length, false, ap, arith, ◌≡◌, List, ℕ}
use vecu_uds.Vecu.{Vecu, write_owner}
use vecu_uds.Uds.Sessions.{tester_present, session_control}
use vecu_uds.Uds.Faults.{clear_dtc}
use vecu_uds.Security.{key_constant, send_key, request_seed, is_unlocked}
use vecu_uds.Clock.{Env}
use vecu_uds.Uds.Invariant.{Wrote-write_did, state-read_did, nothing, owner_name, Wrote}
use vecu_uds.Uds.Reply.{refuse, dropped, rd32_be, is_extended_session, byte_at, Outcome}
use vecu_uds.Uds.Dispatch.{process_rule, process_request}

-- A key message that answers the pending seed, in a non-default session.
abbrev pub KeyMatches : List ℕ → Vecu → Type 0
KeyMatches req s =
    (byte_at req 0 ≡ Sid.security_access)
    × (length req ≡ 6)
    × (is_extended_session s ≡ true)
    × (s.security.seed_issued ≡ true)
    × (rd32_be req 2 ≡ bit_xor s.security.pending_seed key_constant)

-- Of a locked ECU: if it is unlocked afterwards, the key matched.
record Unlocks (req : List ℕ) (s : Vecu) (out : Outcome × Vecu) : Type 0 where
  guarded :
      is_unlocked 0x01 s.security ≡ false
      → is_unlocked 0x01 out.1.security ≡ true
      → KeyMatches req s

same_security :
    (req : List ℕ) (s : Vecu) (out : Outcome × Vecu)
    → out.1.security ≡ s.security
    → Unlocks req s out
same_security req s out e = record { guarded = λ locked unlocked. cc (ap (is_unlocked 0x01) e) }

security-session_control :
    (env : Env) (req : List ℕ) (resp_cap : ℕ) (s : Vecu)
    → (session_control env req resp_cap s).1.security ≡ s.security
unfolding session_control
security-session_control env req resp_cap s = ground arith

security-tester_present :
    (env : Env) (req : List ℕ) (resp_cap : ℕ) (s : Vecu)
    → (tester_present env req resp_cap s).1.security ≡ s.security
unfolding tester_present
security-tester_present env req resp_cap s = ground arith

security-clear_dtc :
    (env : Env) (req : List ℕ) (resp_cap : ℕ) (s : Vecu)
    → (clear_dtc env req resp_cap s).1.security ≡ s.security
unfolding clear_dtc
security-clear_dtc env req resp_cap s = ground arith

security-read_dtc :
    (env : Env) (req : List ℕ) (resp_cap : ℕ) (s : Vecu)
    → (Faults.read_dtc env req resp_cap s).1.security ≡ s.security
unfolding Faults.read_dtc
security-read_dtc env req resp_cap s = ground arith

security-Wrote : {s t : Vecu} → Wrote s t → t.security ≡ s.security
unfolding write_owner
security-Wrote nothing = refl
security-Wrote (owner_name payload h) = ground arith

Unlocks-ecu_reset :
    (env : Env) (req : List ℕ) (resp_cap : ℕ) (s : Vecu)
    → Unlocks req s (Sessions.ecu_reset env req resp_cap s)
unfolding Sessions.ecu_reset is_unlocked
Unlocks-ecu_reset env req resp_cap s = record { guarded = λ locked unlocked. ground arith }

Unlocks-security_access :
    (env : Env) (req : List ℕ) (resp_cap : ℕ) (s : Vecu)
    → Sid.security_access ≡ byte_at req 0
    → Unlocks req s (Access.security_access env req resp_cap s)
unfolding Access.security_access is_unlocked request_seed send_key
Unlocks-security_access env req resp_cap s hit = record {
  guarded = λ locked unlocked. ground arith;
}

-- The only request that unlocks a locked ECU is a sendKey message of six bytes, in a non-default
-- session, while a seed is pending, whose key is that seed XOR the constant.
pub unlock_only_by_key :
    (env : Env) (req : List ℕ) (resp_cap : ℕ) (s : Vecu)
    → is_unlocked 0x01 s.security ≡ false
    → is_unlocked 0x01 (process_request env req resp_cap s).1.security ≡ true
    → KeyMatches req s
unlock_only_by_key env req resp_cap s = each.guarded
  where
    each : Unlocks req s (process_request env req resp_cap s)
    each =
        process_rule (Unlocks req s) env req resp_cap s (same_security req s (dropped, s) refl)
          (λ room. same_security req s (refuse req Nrc.service_not_supported s) refl)
          λ room. (
            λ hit. same_security req s _ (security-session_control env req resp_cap s),
            (
              λ hit. Unlocks-ecu_reset env req resp_cap s,
              (
                λ hit. same_security req s _ (security-clear_dtc env req resp_cap s),
                (
                  λ hit. same_security req s _ (security-read_dtc env req resp_cap s),
                  (
                    λ hit.
                        same_security req s _
                          (ap (λ t. t.security) (state-read_did env req resp_cap s)),
                    (
                      λ hit. Unlocks-security_access env req resp_cap s hit,
                      (
                        λ hit.
                            same_security req s _
                              (security-Wrote (Wrote-write_did env req resp_cap s)),
                        (
                          λ hit. same_security req s _ (security-tester_present env req resp_cap s),
                          tt,
                        ),
                      ),
                    ),
                  ),
                ),
              ),
            ),
          )
