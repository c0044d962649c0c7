-- ===== src/Uds/OwnerName.antt =====
-- Who writes the identifier 0xF200 behind src/uds.c.
use vecu_uds.Types.Nrc
use vecu_uds.Uds.Faults
use vecu_uds.Uds.Access
use vecu_uds.Uds.Sessions
use vecu_uds.Types.Sid
use vecu_uds.Base.{
  sym, inr, inl, refl, length, ltb, Bool-cases, ap, ◌≢◌, Option, List, true, ◌⊎◌, arith, none, some,
  ◌≡◌, ℕ,
}
use vecu_uds.Did.{WriteFn, lookup, DidEntry}
use vecu_uds.Vecu.{Vecu, registered_dids}
use vecu_uds.Uds.Sessions.{session_control, tester_present}
use vecu_uds.Clock.{Env}
use vecu_uds.Uds.Identifiers.{write_entry, write_found, read_did, write_did}
use vecu_uds.Uds.Faults.{clear_dtc}
use vecu_uds.Uds.Reply.{refuse, dropped, is_extended_session, rd16_be, Outcome, byte_at}
use vecu_uds.Uds.Dispatch.{process_rule, process_request}
use vecu_uds.Uds.Invariant.{state-read_did}
use vecu_uds.Security.{is_unlocked}

-- Of the entries that `vecu_init` registers only the owner name can be written, and it asks for
-- both a non-default session and security access.
abbrev pub IsGuardedEntry : ℕ → DidEntry → Type 0
IsGuardedEntry did e =
    (e.write ≡ none)
    ⊎ ((did ≡ 0xF200) × (e.requires_security ≡ true) × (e.requires_extended_session ≡ true))

pub registered-IsGuardedEntry :
    (did : ℕ) (e : DidEntry) → lookup did registered_dids ≡ some e → IsGuardedEntry did e
unfolding lookup registered_dids
registered-IsGuardedEntry did e h = ground arith

abbrev pub WriteAllowed : List ℕ → Vecu → Type 0
WriteAllowed req s =
    (byte_at req 0 ≡ Sid.write_data_by_identifier)
    × (rd16_be req 1 ≡ 0xF200)
    × (is_extended_session s ≡ true)
    × (is_unlocked 0x01 s.security ≡ true)

abbrev pub OwnerChanged : Vecu → Vecu → Type 0
OwnerChanged s t = (t.owner_name ≢ s.owner_name) ⊎ (t.owner_len ≢ s.owner_len)

record Guarded (req : List ℕ) (s : Vecu) (out : Outcome × Vecu) : Type 0 where
  allowed : OwnerChanged s out.1 → WriteAllowed req s

same_owner :
    (req : List ℕ) (s : Vecu) (out : Outcome × Vecu)
    → out.1.owner_name ≡ s.owner_name
    → out.1.owner_len ≡ s.owner_len
    → Guarded req s out
same_owner req s out e e' = record { allowed = λ c. ground arith }

Guarded-write_entry :
    (w : Option WriteFn) (e : DidEntry) (req : List ℕ) (s : Vecu)
    → Sid.write_data_by_identifier ≡ byte_at req 0
    → e.write ≡ w
    → IsGuardedEntry (rd16_be req 1) e
    → Guarded req s (write_entry w e req s)
Guarded-write_entry none e req s hit same g = same_owner req s _ refl refl
Guarded-write_entry (some fn) e req s hit same g = record { allowed = λ c. ground arith }

Guarded-write_found :
    (o : Option DidEntry) (req : List ℕ) (s : Vecu)
    → Sid.write_data_by_identifier ≡ byte_at req 0
    → lookup (rd16_be req 1) registered_dids ≡ o
    → Guarded req s (write_found o req s)
Guarded-write_found none req s hit found =
    same_owner req s (refuse req Nrc.request_out_of_range s) refl refl
Guarded-write_found (some e) req s hit found =
    Guarded-write_entry e.write e req s hit refl (registered-IsGuardedEntry _ e found)

Guarded-write_did :
    (env : Env) (req : List ℕ) (resp_cap : ℕ) (s : Vecu)
    → s.dids ≡ registered_dids
    → Sid.write_data_by_identifier ≡ byte_at req 0
    → Guarded req s (write_did env req resp_cap s)
unfolding write_did
Guarded-write_did env req resp_cap s boot hit = elim (Bool-cases (ltb (length req) 4)) [
  | inl short ↦ rw short (same_owner req s (refuse req Nrc.incorrect_message_length s) refl refl)
  | inr long ↦ rw (long) (
      Guarded-write_found (lookup (rd16_be req 1) s.dids) req s hit
        (ap (lookup (rd16_be req 1)) (sym boot)))
]

owner-session_control :
    (env : Env) (req : List ℕ) (resp_cap : ℕ) (s : Vecu)
    → Guarded req s (session_control env req resp_cap s)
unfolding session_control
owner-session_control env req resp_cap s = same_owner req s _ (ground arith) (ground arith)

owner-ecu_reset :
    (env : Env) (req : List ℕ) (resp_cap : ℕ) (s : Vecu)
    → Guarded req s (Sessions.ecu_reset env req resp_cap s)
unfolding Sessions.ecu_reset
owner-ecu_reset env req resp_cap s = same_owner req s _ (ground arith) (ground arith)

owner-tester_present :
    (env : Env) (req : List ℕ) (resp_cap : ℕ) (s : Vecu)
    → Guarded req s (tester_present env req resp_cap s)
unfolding tester_present
owner-tester_present env req resp_cap s = same_owner req s _ (ground arith) (ground arith)

owner-clear_dtc :
    (env : Env) (req : List ℕ) (resp_cap : ℕ) (s : Vecu)
    → Guarded req s (clear_dtc env req resp_cap s)
unfolding clear_dtc
owner-clear_dtc env req resp_cap s = same_owner req s _ (ground arith) (ground arith)

owner-read_dtc :
    (env : Env) (req : List ℕ) (resp_cap : ℕ) (s : Vecu)
    → Guarded req s (Faults.read_dtc env req resp_cap s)
unfolding Faults.read_dtc
owner-read_dtc env req resp_cap s = same_owner req s _ (ground arith) (ground arith)

owner-read_did :
    (env : Env) (req : List ℕ) (resp_cap : ℕ) (s : Vecu)
    → Guarded req s (read_did env req resp_cap s)
owner-read_did env req resp_cap s =
    same_owner req s _ (ap (λ t. t.owner_name) (state-read_did env req resp_cap s))
      (ap (λ t. t.owner_len) (state-read_did env req resp_cap s))

owner-security_access :
    (env : Env) (req : List ℕ) (resp_cap : ℕ) (s : Vecu)
    → Guarded req s (Access.security_access env req resp_cap s)
unfolding Access.security_access
owner-security_access env req resp_cap s = same_owner req s _ (ground arith) (ground arith)

-- With the table that vecu_init builds, the owner name changes only by a WriteDataByIdentifier
-- request for the identifier 0xF200, in a non-default session of an unlocked ECU.
pub owner_write_guarded :
    (env : Env) (req : List ℕ) (resp_cap : ℕ) (s : Vecu)
    → s.dids ≡ registered_dids
    → OwnerChanged s (process_request env req resp_cap s).1
    → WriteAllowed req s
owner_write_guarded env req resp_cap s boot = each.allowed
  where
    each : Guarded req s (process_request env req resp_cap s)
    each =
        process_rule (Guarded req s) env req resp_cap s (same_owner req s (dropped, s) refl refl)
          (λ room. same_owner req s (refuse req Nrc.service_not_supported s) refl refl)
          λ room. (
            λ hit. owner-session_control env req resp_cap s,
            (
              λ hit. owner-ecu_reset env req resp_cap s,
              (
                λ hit. owner-clear_dtc env req resp_cap s,
                (
                  λ hit. owner-read_dtc env req resp_cap s,
                  (
                    λ hit. owner-read_did env req resp_cap s,
                    (
                      λ hit. owner-security_access env req resp_cap s,
                      (
                        λ hit. Guarded-write_did env req resp_cap s boot hit,
                        (λ hit. owner-tester_present env req resp_cap s, tt),
                      ),
                    ),
                  ),
                ),
              ),
            ),
          )
