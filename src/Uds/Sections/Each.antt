-- ===== src/Uds/Sections/Each.antt =====
-- What holds of each section of the handlers of src/uds.c.
use vecu_uds.Types.Sid
use vecu_uds.Base.{
  ==_iff, [], ◌∷◌, ◌||◌, ◌==◌, false, none, true, arith, inr, ◌!=◌, length, some, inl, ltb, ◌≡◌,
  Bool-cases, Option, Bool, ℕ, List,
}
use vecu_uds.Uds.Sections.{Sectioned, look, refuse_if, Program, section, return}
use vecu_uds.Clock.{Env}
use vecu_uds.Vecu.{mark_tester_present, set_session, Vecu}
use vecu_uds.Uds.Reply.{dropped, rd32_be, rd16_be, byte_at, sub_function, Outcome}
use vecu_uds.Uds.Identifiers.{too_large, not_correct, entry_payload, filled, Payload}
use vecu_uds.Uds.Sections.Simple.{
  session_control_program, tester_present_program, clear_dtc_program, ecu_reset_program,
  read_dtc_program,
}
use vecu_uds.Uds.Sections.Keys.{access_program, key_program, seed_program, security_access_program}
use vecu_uds.Uds.Sections.Data.{read_entry_program, payload_program, read_did_program}
use vecu_uds.Security.{send_key, request_seed, soft_reset}
use vecu_uds.Did.{lookup, DidEntry}
use vecu_uds.Dtc.{clear_all}
use vecu_uds.Uds.Sections.Request.{dispatch_program, scan_program, request_program}

-- Each section updates the state in this way.
pub data Each (P : (Vecu → Vecu) → Type 0) : Program → Type 0 where
  returns : {o : Outcome} → Each P (return o)
  sections :
      {f : Vecu → Vecu} {k : Vecu → Program}
      → P f
      → ((s : Vecu) → Each P (k s))
      → Each P (section f k)

-- The updates of all handlers but h_write_did: the calls of other files that run under a lock.
pub record Covers (env : Env) (req : List ℕ) (P : (Vecu → Vecu) → Type 0) : Type 0 where
  pub identity : P (λ s. s)
  pub session : (session : ℕ) → P (set_session env.clock session)
  pub reset : P (λ s. record s { security = soft_reset s.security })
  pub present : P (mark_tester_present env.clock)
  pub cleared : P (λ s. record s { dtcs = (clear_all s.dtcs).1 })
  pub seed : (sub : ℕ) → P (λ s. record s { security = (request_seed env sub s.security).1 })
  pub key :
      (level : ℕ)
      → byte_at req 0 ≡ Sid.security_access
      → length req ≡ 6
      → P (λ s. record s { security = (send_key env level (rd32_be req 2) s.security).1 })

module _ (P : (Vecu → Vecu) → Type 0) (env : Env) (req : List ℕ) (resp_cap : ℕ)
    (c : Covers env req P) where
  pub refuse_if-Each :
      (b : Bool) (nrc : ℕ) (p : Program) → Each P p → Each P (refuse_if b req nrc p)
  unfolding refuse_if
  refuse_if-Each true nrc p h = returns
  refuse_if-Each false nrc p h = h

  pub look-Each : {k : Vecu → Program} → ((s : Vecu) → Each P (k s)) → Each P (look k)
  look-Each h = sections c.identity h

  pub session_control-Each : Each P (session_control_program env req resp_cap)
  unfolding session_control_program
  session_control-Each = refuse_if-Each _ _ _ (
      refuse_if-Each _ _ _ (
        sections (c.session _) (λ s. elim (Bool-cases (ltb resp_cap 6)) [
          | inl small ↦ rw small returns
          | inr large ↦ rw large returns
        ])))

  pub ecu_reset-Each : Each P (ecu_reset_program env req resp_cap)
  unfolding ecu_reset_program
  ecu_reset-Each =
      refuse_if-Each _ _ _
        (refuse_if-Each _ _ _ (sections (c.session _) (λ s. sections c.reset (λ t. returns))))

  pub tester_present-Each : Each P (tester_present_program env req resp_cap)
  unfolding tester_present_program
  tester_present-Each =
      refuse_if-Each _ _ _ (refuse_if-Each _ _ _ (sections c.present (λ s. returns)))

  pub clear_dtc-Each : Each P (clear_dtc_program env req resp_cap)
  unfolding clear_dtc_program
  clear_dtc-Each = refuse_if-Each _ _ _ (refuse_if-Each _ _ _ (sections c.cleared (λ s. returns)))

  pub read_dtc-Each : Each P (read_dtc_program env req resp_cap)
  unfolding read_dtc_program
  read_dtc-Each = refuse_if-Each _ _ _ (
      refuse_if-Each _ _ _
        (refuse_if-Each _ _ _ (look-Each (λ s. refuse_if-Each _ _ _ (look-Each (λ t. returns))))))

  payload-Each : (p : Payload) → Each P (payload_program p req resp_cap)
  payload-Each (filled payload) = refuse_if-Each _ _ _ returns
  payload-Each not_correct = returns
  payload-Each too_large = returns

  read_entry-Each : (e : Option DidEntry) → Each P (read_entry_program e req resp_cap)
  read_entry-Each none = returns
  read_entry-Each (some e) = look-Each (λ s. payload-Each (entry_payload e.static_data e s))

  pub read_did-Each : Each P (read_did_program env req resp_cap)
  unfolding read_did_program
  read_did-Each =
      refuse_if-Each _ _ _ (look-Each (λ s. read_entry-Each (lookup (rd16_be req 1) s.dids)))

  seed-Each : Each P (seed_program env req)
  unfolding seed_program
  seed-Each = refuse_if-Each _ _ _ (sections (c.seed (sub_function (byte_at req 1))) (λ s. returns))

  key-Each : byte_at req 0 ≡ Sid.security_access → Each P (key_program env req)
  unfolding key_program refuse_if
  key-Each sid = elim (Bool-cases (length req != 6)) [
    | inl other ↦ rw other returns
    | inr six ↦ rw six (sections (c.key _ sid (ground arith)) (λ s. returns))
  ]

  access-Each :
      (odd : Bool) → byte_at req 0 ≡ Sid.security_access → Each P (access_program odd env req)
  access-Each true sid = seed-Each
  access-Each false sid = key-Each sid

  pub security_access-Each :
      byte_at req 0 ≡ Sid.security_access → Each P (security_access_program env req resp_cap)
  unfolding security_access_program
  security_access-Each sid =
      refuse_if-Each _ _ _ (look-Each (λ s. refuse_if-Each _ _ _ (access-Each _ sid)))

-- uds_process_request from its handlers.
module _ (Q : Program → Type 0) (returned : (o : Outcome) → Q (return o)) (env : Env) (req : List ℕ)
    (resp_cap : ℕ) where
  abbrev pub AllHold : List (ℕ × Sectioned) → Type 0
  AllHold [] = Unit {0}
  AllHold ((sid, handler) ∷ rest) =
      (sid ≡ byte_at req 0 → Q (handler env req resp_cap)) × AllHold rest

  scan_rule :
      (table : List (ℕ × Sectioned)) → AllHold table → Q (scan_program table env req resp_cap)
  unfolding scan_program
  scan_rule [] all = returned _
  scan_rule ((sid, handler) ∷ rest) all = elim (Bool-cases (sid == byte_at req 0)) [
    | inl hit ↦ rw hit (all.0 ((==_iff sid (byte_at req 0)).0 hit))
    | inr miss ↦ rw miss (scan_rule rest all.1)
  ]

  pub request_rule : AllHold dispatch_program → Q (request_program env req resp_cap)
  unfolding request_program
  request_rule all = elim (Bool-cases (length req == 0 || ltb resp_cap 3)) [
    | inl bad ↦ rw bad (returned dropped)
    | inr good ↦ rw good (scan_rule dispatch_program all)
  ]
