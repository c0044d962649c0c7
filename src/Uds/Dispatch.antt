-- ===== src/Uds/Dispatch.antt =====
-- `uds_process_request` of src/uds.c: the guards and the linear scan of the table.
use vecu_uds.Base.{
  arith, inr, ==_iff, inl, Bool-cases, ◌≤◌, ◌≡◌, ℕ, List, [], ◌∷◌, ◌==◌, ◌||◌, if◌then◌else◌, ltb,
  length,
}
use vecu_uds.Types.Sid
use vecu_uds.Types.Nrc
use vecu_uds.Uds.Reply.{Outcome, dropped, Handler, byte_at, refuse}
use vecu_uds.Uds.Sessions.{session_control, ecu_reset, tester_present}
use vecu_uds.Uds.Faults.{clear_dtc, read_dtc}
use vecu_uds.Uds.Identifiers.{read_did, write_did}
use vecu_uds.Uds.Access.{security_access}
use vecu_uds.Vecu.{Vecu}
use vecu_uds.Clock.{Env}

-- DISPATCH
abbrev pub dispatch : List (ℕ × Handler)
dispatch =
    (Sid.diagnostic_session_control, session_control)
    ∷ (Sid.ecu_reset, ecu_reset)
    ∷ (Sid.clear_dtc, clear_dtc)
    ∷ (Sid.read_dtc, read_dtc)
    ∷ (Sid.read_data_by_identifier, read_did)
    ∷ (Sid.security_access, security_access)
    ∷ (Sid.write_data_by_identifier, write_did)
    ∷ (Sid.tester_present, tester_present)
    ∷ []

-- the loop over the table, from an entry on
abbrev pub scan : List (ℕ × Handler) → Handler
scan [] env req resp_cap s = refuse req Nrc.service_not_supported s
scan ((sid, handler) ∷ rest) env req resp_cap s =
    if sid == byte_at req 0 then handler env req resp_cap s else scan rest env req resp_cap s

-- uds_process_request
unfoldable pub process_request : Handler
process_request env req resp_cap s =
    if length req == 0 || ltb resp_cap 3 then (dropped, s) else scan dispatch env req resp_cap s

-- What each handler of a table guarantees.
abbrev pub EachHandler : (ℕ → Handler → Type 0) → List (ℕ × Handler) → Type 0
EachHandler P [] = Unit {0}
EachHandler P ((sid, handler) ∷ rest) = P sid handler × EachHandler P rest

module _ (Q : Outcome × Vecu → Type 0) (env : Env) (req : List ℕ) (resp_cap : ℕ) (s : Vecu) where
  scan_rule :
      (table : List (ℕ × Handler))
      → EachHandler (λ sid handler. sid ≡ byte_at req 0 → Q (handler env req resp_cap s)) table
      → Q (refuse req Nrc.service_not_supported s)
      → Q (scan table env req resp_cap s)
  scan_rule [] each unknown = unknown
  scan_rule ((sid, handler) ∷ rest) each unknown = elim (Bool-cases (sid == byte_at req 0)) [
    | inl hit ↦ rw hit (each.0 ((==_iff _ _).0 hit))
    | inr miss ↦ rw miss (scan_rule rest each.1 unknown)
  ]

  -- A property of the outcome and the new state holds if it holds of a dropped request, of the
  -- answer to an unknown service, and of each handler on the requests that reach it.
  pub process_rule :
      Q (dropped, s)
      → (3 ≤ resp_cap → Q (refuse req Nrc.service_not_supported s))
      → (3 ≤ resp_cap
          → EachHandler
              (λ sid handler. sid ≡ byte_at req 0 → Q (handler env req resp_cap s))
              dispatch)
      → Q (process_request env req resp_cap s)
  unfolding process_request
  process_rule none unknown each = elim (Bool-cases (length req == 0 || ltb resp_cap 3)) [
    | inl bad ↦ rw bad none
    | inr good ↦
        let room : 3 ≤ resp_cap = ground arith in
        rw good (scan_rule dispatch (each room) (unknown room))
  ]
