-- ===== src/Uds/Invariant.antt =====
-- What holds of the ECU state of src/vecu.c from `vecu_init` on, whatever requests src/uds.c is
-- given.
use vecu_uds.Uds.Reply
use vecu_uds.Base.{
  ◌-◌, ◌+◌, u8, false, drop, true, if◌then◌else◌, length, not, ltb, Bool, ◌&&◌, refl, none, some,
  ◌≡◌, Option, ℕ, ◌≤◌, List, arith,
}
use vecu_uds.Clock.{Timespec, Env}
use vecu_uds.Types.Session
use vecu_uds.Dtc.Stored
use vecu_uds.Did.Lookup
use vecu_uds.Security.Inv
use vecu_uds.Security.Inv.{IsSane, request_seed-IsValid, send_key-IsValid, soft_reset-IsValid}
use vecu_uds.Vecu.{init, call_write, write_owner, Vecu}
use vecu_uds.Vecu.Owner.{write_owner-IsOwner, IsOwner}
use vecu_uds.Uds.Reply.{rd32_be, sub_function, Outcome, byte_at, Handler}
use vecu_uds.Uds.Sessions.{session_control, ecu_reset, tester_present}
use vecu_uds.Uds.Faults.{clear_dtc, read_dtc}
use vecu_uds.Uds.Access.{security_access}
use vecu_uds.Uds.Identifiers.{
  filled, write_found, write_entry, too_large, write_did, not_correct, entry_payload, read_entry,
  written, send_payload, read_did, Payload,
}
use vecu_uds.Did.{owner_write, WriteFn, lookup, DidEntry}
use vecu_uds.Uds.Dispatch.{process_rule, process_request}
use vecu_uds.Security.{is_unlocked}

pub record IsValid (s : Vecu) : Type 0 where
  pub session_known : (Session.default ≤ s.session) × (s.session ≤ Session.extended)
  pub security : Inv.IsValid s.security
  pub dtcs : Stored.IsValid s.dtcs
  pub owner : IsOwner s
  pub dids : Lookup.IsValid s.dids

abbrev Keeps : Handler → Type 0
Keeps h =
    (env : Env) (req : List ℕ) (resp_cap : ℕ) (s : Vecu)
    → IsSane env
    → IsValid s
    → IsValid (h env req resp_cap s).1

session_control-IsValid : Keeps session_control
unfolding session_control
session_control-IsValid env req resp_cap s sane v = ground arith

ecu_reset-IsValid : Keeps ecu_reset
unfolding ecu_reset
ecu_reset-IsValid env req resp_cap s sane v = ground arith

tester_present-IsValid : Keeps tester_present
unfolding tester_present
tester_present-IsValid env req resp_cap s sane v = ground arith

clear_dtc-IsValid : Keeps clear_dtc
unfolding clear_dtc
clear_dtc-IsValid env req resp_cap s sane v = ground (arith, Stored.clear_all_lem s.dtcs v.dtcs)

read_dtc-IsValid : Keeps read_dtc
unfolding read_dtc
read_dtc-IsValid env req resp_cap s sane v = ground arith

security_access-IsValid : Keeps security_access
unfolding security_access
security_access-IsValid env req resp_cap s sane v = ground (
  arith,
  request_seed-IsValid env (sub_function (byte_at req 1)) s.security v.security,
  send_key-IsValid env (u8 (sub_function (byte_at req 1) + 256 - 1)) (rd32_be req 2) s.security sane
      v.security,
)

state-send_payload :
    (p : Payload) (req : List ℕ) (resp_cap : ℕ) (s : Vecu) → (send_payload p req resp_cap s).1 ≡ s
state-send_payload (filled payload) req resp_cap s = ground arith
state-send_payload not_correct req resp_cap s = refl
state-send_payload too_large req resp_cap s = refl

state-read_entry :
    (e : Option DidEntry) (req : List ℕ) (resp_cap : ℕ) (s : Vecu)
    → (read_entry e req resp_cap s).1 ≡ s
state-read_entry none req resp_cap s = refl
state-read_entry (some e) req resp_cap s =
    state-send_payload (entry_payload e.static_data e s) req resp_cap s

-- ReadDataByIdentifier changes nothing.
pub state-read_did :
    (env : Env) (req : List ℕ) (resp_cap : ℕ) (s : Vecu) → (read_did env req resp_cap s).1 ≡ s
unfolding read_did
state-read_did env req resp_cap s =
    ground (arith, state-read_entry (lookup (Reply.rd16_be req 1) s.dids) req resp_cap s)

read_did-IsValid : Keeps read_did
read_did-IsValid env req resp_cap s sane v = rw (state-read_did env req resp_cap s) v

-- A write changes the owner name or nothing.
pub data Wrote (s : Vecu) : Vecu → Type 0 where
  nothing : Wrote s s
  owner_name : {t : Vecu} (payload : List ℕ) → write_owner payload s ≡ some t → Wrote s t

pub written-Wrote :
    (payload req : List ℕ) (s : Vecu) (o : Option Vecu)
    → write_owner payload s ≡ o
    → Wrote s (written o req s).1
written-Wrote payload req s none h = nothing
written-Wrote payload req s (some t) h = owner_name payload h

Wrote-if :
    {s : Vecu} (b : Bool) (x y : Outcome × Vecu)
    → Wrote s x.1
    → Wrote s y.1
    → Wrote s (if b then x else y).1
Wrote-if true x y hx hy = hx
Wrote-if false x y hx hy = hy

Wrote-write_entry :
    (w : Option WriteFn) (e : DidEntry) (req : List ℕ) (s : Vecu)
    → Wrote s (write_entry w e req s).1
unfolding call_write
Wrote-write_entry none e req s = nothing
Wrote-write_entry (some owner_write) e req s =
    Wrote-if (e.requires_extended_session && not (Reply.is_extended_session s)) _ _ nothing (
      Wrote-if (e.requires_security && not (is_unlocked 0x01 s.security)) _ _ nothing
        (written-Wrote (drop 3 req) req s (write_owner (drop 3 req) s) refl))

Wrote-write_found :
    (e : Option DidEntry) (req : List ℕ) (s : Vecu) → Wrote s (write_found e req s).1
Wrote-write_found none req s = nothing
Wrote-write_found (some e) req s = Wrote-write_entry e.write e req s

pub Wrote-write_did :
    (env : Env) (req : List ℕ) (resp_cap : ℕ) (s : Vecu) → Wrote s (write_did env req resp_cap s).1
unfolding write_did
Wrote-write_did env req resp_cap s =
    Wrote-if (ltb (length req) 4) _ _ nothing
      (Wrote-write_found (lookup (Reply.rd16_be req 1) s.dids) req s)

pub Wrote-IsValid : {s t : Vecu} → Wrote s t → IsValid s → IsValid t
unfolding write_owner
Wrote-IsValid nothing v = v
Wrote-IsValid {s} {t} (owner_name payload h) v =
    ground (arith, write_owner-IsOwner payload s t v.owner h)

write_did-IsValid : Keeps write_did
write_did-IsValid env req resp_cap s sane v = Wrote-IsValid (Wrote-write_did env req resp_cap s) v

-- The state after `vecu_init` satisfies the invariant.
pub init-IsValid : (clock : Timespec) → IsValid (init clock)
unfolding init
init-IsValid clock = ground arith

-- uds_process_request keeps the invariant of the ECU state, for every request, every response
-- capacity and whatever the kernel answers, as long as the clock is not at the end of its range.
pub process_request-IsValid :
    (env : Env) (req : List ℕ) (resp_cap : ℕ) (s : Vecu)
    → IsSane env
    → IsValid s
    → IsValid (process_request env req resp_cap s).1
process_request-IsValid env req resp_cap s sane v =
    process_rule (λ out. IsValid out.1) env req resp_cap s v (λ room. v)
      λ room. (
        λ hit. session_control-IsValid env req resp_cap s sane v,
        (
          λ hit. ecu_reset-IsValid env req resp_cap s sane v,
          (
            λ hit. clear_dtc-IsValid env req resp_cap s sane v,
            (
              λ hit. read_dtc-IsValid env req resp_cap s sane v,
              (
                λ hit. read_did-IsValid env req resp_cap s sane v,
                (
                  λ hit. security_access-IsValid env req resp_cap s sane v,
                  (
                    λ hit. write_did-IsValid env req resp_cap s sane v,
                    (λ hit. tester_present-IsValid env req resp_cap s sane v, tt),
                  ),
                ),
              ),
            ),
          ),
        ),
      )
