-- ===== src/Uds/Sections/Safe.antt =====
-- What the sections of the handlers of src/uds.c keep, whatever runs between them.

use vecu_uds.Dtc.Stored
use vecu_uds.Types.Session
use vecu_uds.Base.{
  ◌+◌, u8, ltb, ◌||◌, bit_and, ◌==◌, Bool-cases, ◌≡◌, Bool, arith, length, Option, ◌≤◌, ℕ, List,
  ◌∷◌, [], ◌-◌, suc, inl, inr, true, false, none, some,
}
use vecu_uds.Uds.Sections.{Sectioned}
use vecu_uds.Did.{lookup, DidEntry}
use vecu_uds.Uds.Identifiers.{entry_payload, Payload, filled, too_large, not_correct}
use vecu_uds.Uds.Sections.Sound.{
  answer-IsSound, look-IsSound, refuse_if-IsSound, IsSound, returns, sections,
}
use vecu_uds.Clock.{Env}
use vecu_uds.Security.Inv.{send_key-IsValid, request_seed-IsValid, soft_reset-IsValid, IsSane}
use vecu_uds.Uds.Sections.Simple.{
  session_program, tester_present_program, ecu_reset_program, read_dtc_program,
  session_control_program, clear_dtc_program,
}
use vecu_uds.Uds.Sections.Request.{dispatch_program, request_program, scan_program}
use vecu_uds.Vecu.{mark_tester_present, set_session}
use vecu_uds.Uds.Sections.Data.{read_entry_program, payload_program, read_did_program}
use vecu_uds.Uds.Sections.Keys.{access_program, key_program, security_access_program, seed_program}
use vecu_uds.Uds.Reply.{rd32_be, rd16_be, byte_at, sub_function}
use vecu_uds.Uds.Format.{key_outcome-Answers, seed_outcome-Answers, length-encode_entries}
use vecu_uds.Dtc.{dtc_max, snapshot_by_mask}
use vecu_uds.Security.{send_key, request_seed}
use vecu_uds.Uds.Sections.SafeWrites.{write_did-IsSound}

module _ (env : Env) (req : List ℕ) (resp_cap : ℕ) (sane : IsSane env) (room : 6 ≤ resp_cap) where
  session-IsSound :
      (n : ℕ)
      → length req ≡ 2
      → (Session.default ≤ sub_function (byte_at req 1))
        × (sub_function (byte_at req 1) ≤ Session.extended)
      → IsSound req resp_cap (suc n) (session_program env req resp_cap)
  unfolding set_session
  session-IsSound n two known =
      sections (λ s v. ground (arith, v))
        λ s v. elim (Bool-cases (ltb resp_cap 6)) [
          | inl small ↦ rw small (returns tt)
          | inr large ↦ rw large (answer-IsSound _ _ (omega arith) (ground arith) (ground arith))
        ]

  session_control-IsSound :
      (n : ℕ) → IsSound req resp_cap (suc n) (session_control_program env req resp_cap)
  unfolding session_control_program
  session_control-IsSound n =
      refuse_if-IsSound room _ _ _ _ λ two.
        refuse_if-IsSound room _ _ _ _ λ known. session-IsSound n (ground arith) (ground arith)

  ecu_reset-IsSound :
      (n : ℕ) → IsSound req resp_cap (suc (suc n)) (ecu_reset_program env req resp_cap)
  unfolding ecu_reset_program set_session
  ecu_reset-IsSound n = refuse_if-IsSound room _ _ _ _ λ two.
      refuse_if-IsSound room _ _ _ _ λ known.
        sections (λ s v. ground (arith, v))
          λ s v.
            sections (λ t w. ground (arith, w, soft_reset-IsValid t.security w.security))
              λ t w. answer-IsSound _ _ (omega arith) (ground arith) (ground arith)

  tester_present-IsSound :
      (n : ℕ) → IsSound req resp_cap (suc n) (tester_present_program env req resp_cap)
  unfolding tester_present_program mark_tester_present
  tester_present-IsSound n = refuse_if-IsSound room _ _ _ _ λ two.
      refuse_if-IsSound room _ _ _ _ λ known.
        sections (λ s v. ground (arith, v))
          λ s v. answer-IsSound _ _ (omega arith) (ground arith) (ground arith)

  clear_dtc-IsSound : (n : ℕ) → IsSound req resp_cap (suc n) (clear_dtc_program env req resp_cap)
  unfolding clear_dtc_program
  clear_dtc-IsSound n = refuse_if-IsSound room _ _ _ _ λ four. refuse_if-IsSound room _ _ _ _ λ all.
      sections (λ s v. ground (arith, v, Stored.clear_all_lem s.dtcs v.dtcs))
        λ s v. returns (ground arith)

  read_dtc-IsSound :
      (n : ℕ) → IsSound req resp_cap (suc (suc n)) (read_dtc_program env req resp_cap)
  unfolding read_dtc_program
  read_dtc-IsSound n = refuse_if-IsSound room _ _ _ _ λ two. refuse_if-IsSound room _ _ _ _ λ known.
      refuse_if-IsSound room _ _ _ _ λ three. look-IsSound λ s v.
        refuse_if-IsSound room _ _ _ _ λ fits. look-IsSound λ t w.
          answer-IsSound _ _
            (ground
              (arith, length-encode_entries (snapshot_by_mask (byte_at req 2) dtc_max s.dtcs)))
            (ground arith) (ground arith)

  payload-IsSound : (n : ℕ) (p : Payload) → IsSound req resp_cap n (payload_program p req resp_cap)
  payload-IsSound n (filled payload) = refuse_if-IsSound room _ _ _ _ λ fits. returns (ground arith)
  payload-IsSound n not_correct = returns (ground arith)
  payload-IsSound n too_large = returns tt

  read_entry-IsSound :
      (n : ℕ) (e : Option DidEntry)
      → IsSound req resp_cap (suc n) (read_entry_program e req resp_cap)
  read_entry-IsSound n none = returns (ground arith)
  read_entry-IsSound n (some e) =
      look-IsSound λ s v. payload-IsSound n (entry_payload e.static_data e s)

  read_did-IsSound :
      (n : ℕ) → IsSound req resp_cap (suc (suc n)) (read_did_program env req resp_cap)
  unfolding read_did_program
  read_did-IsSound n =
      refuse_if-IsSound room _ _ _ _
        λ three. look-IsSound λ s v. read_entry-IsSound n (lookup (rd16_be req 1) s.dids)

  access-IsSound : (n : ℕ) (odd : Bool) → IsSound req resp_cap (suc n) (access_program odd env req)
  unfolding seed_program key_program
  access-IsSound n true =
      let sub = sub_function (byte_at req 1) in
      refuse_if-IsSound room _ _ _ _ λ exact.
        sections (λ s v. ground (arith, v, request_seed-IsValid env sub s.security v.security))
          λ s v. returns (
            seed_outcome-Answers (request_seed env sub s.security).0 req resp_cap room
              (ground arith))
  access-IsSound n false =
      let level = u8 (sub_function (byte_at req 1) + 256 - 1) in
      let key = rd32_be req 2 in
      refuse_if-IsSound room _ _ _ _ λ exact.
        sections
          (λ s v. ground (arith, v, send_key-IsValid env level key s.security sane v.security))
          λ s v. returns (
            key_outcome-Answers (send_key env level key s.security).0 req resp_cap room
              (ground arith))

  security_access-IsSound :
      (n : ℕ) → IsSound req resp_cap (suc (suc n)) (security_access_program env req resp_cap)
  unfolding security_access_program
  security_access-IsSound n = refuse_if-IsSound room _ _ _ _ λ two. look-IsSound λ s v.
      refuse_if-IsSound room _ _ _ _
        λ extended. access-IsSound n (bit_and (sub_function (byte_at req 1)) 0x01 == 0x01)

  abbrev AllSound : List (ℕ × Sectioned) → Type 0
  AllSound [] = Unit {0}
  AllSound ((sid, handler) ∷ rest) =
      IsSound req resp_cap 4 (handler env req resp_cap) × AllSound rest

  scan-IsSound :
      (table : List (ℕ × Sectioned))
      → AllSound table
      → IsSound req resp_cap 4 (scan_program table env req resp_cap)
  unfolding scan_program
  scan-IsSound [] all = returns (ground arith)
  scan-IsSound ((sid, handler) ∷ rest) all = elim (Bool-cases (sid == byte_at req 0)) [
    | inl hit ↦ rw hit all.0
    | inr miss ↦ rw miss (scan-IsSound rest all.1)
  ]

  -- A request has at most four sections, every one keeps the invariant, and its return answers the
  -- request, whatever other threads do to the state between the sections, as long as they keep the invariant.
  pub request-IsSound : IsSound req resp_cap 4 (request_program env req resp_cap)
  unfolding request_program
  request-IsSound = elim (Bool-cases (length req == 0 || ltb resp_cap 3)) [
    | inl bad ↦ rw bad (returns tt)
    | inr good ↦ rw good (
        scan-IsSound dispatch_program (
          session_control-IsSound 3,
          (
            ecu_reset-IsSound 2,
            (
              clear_dtc-IsSound 3,
              (
                read_dtc-IsSound 2,
                (
                  read_did-IsSound 2,
                  (
                    security_access-IsSound 2,
                    (write_did-IsSound env req resp_cap room 0, (tester_present-IsSound 3, tt)),
                  ),
                ),
              ),
            ),
          ),
        ))
  ]
