-- ===== src/Uds/Silence.antt =====
-- Bit 7 of a sub-function in src/uds.c, which asks for no positive response.
use vecu_uds.Types.Sid
use vecu_uds.Uds.Faults
use vecu_uds.Uds.Access
use vecu_uds.Base.{
  length, suc, inr, inl, ◌-◌, u8, ltb, Bool-cases, ◌⊎◌, refl, ◌==◌, ◌∷◌, bit_and_top_bit,
  bit_and_seven_bits, if◌then◌else◌, arith, ◌+◌, List, bit_and, ◌<◌, ℕ, ◌≡◌, false,
}
use vecu_uds.Uds.Sessions.{session_control, ecu_reset, tester_present}
use vecu_uds.Uds.Reply.{
  rd32_be, dropped, suppressed, byte_at, sub_function, reply, Handler, Outcome,
}
use vecu_uds.Clock.{Env}
use vecu_uds.Types.{suppress_pos_resp_bit}
use vecu_uds.Vecu.{Vecu}
use vecu_uds.Security.{
  send_key, request_seed, already_unlocked, issued, accepted, refused, rejected, KeyResult,
  SeedResult,
}
use vecu_uds.Uds.Access.{seed_outcome, key_outcome}
use vecu_uds.Uds.Dispatch.{process_request}

-- The outcome with a positive response taken back; a negative one is still sent.
abbrev pub silence : Outcome → Outcome
silence (reply out) = if byte_at out 0 == Sid.negative_response then reply out else suppressed out
silence (suppressed out) = suppressed out
silence dropped = dropped

low_bits : (x : ℕ) → x < 128 → (sub_function x ≡ x) × (sub_function (x + 128) ≡ x)
low_bits x h = omega (arith, bit_and_seven_bits x, bit_and_seven_bits (x + 128))

top_bit :
    (x : ℕ)
    → x < 128
    → (bit_and x suppress_pos_resp_bit ≡ 0) × (bit_and (x + 128) suppress_pos_resp_bit ≡ 128)
top_bit x h =
    omega (arith, bit_and_top_bit x (omega arith), bit_and_top_bit (x + 128) (omega arith))

-- The same request with bit 7 of its sub-function set.
abbrev Silenced : ℕ → Handler → Type 0
Silenced sid h =
    (env : Env) (x : ℕ) (rest : List ℕ) (resp_cap : ℕ) (s : Vecu)
    → x < 128
    → h env (sid ∷ (x + 128) ∷ rest) resp_cap s
      ≡ (let (o, t) = h env (sid ∷ x ∷ rest) resp_cap s in (silence o, t))

session_control-Silenced : Silenced Sid.diagnostic_session_control session_control
unfolding session_control
session_control-Silenced env x rest resp_cap s h = ground (arith, low_bits x h, top_bit x h)

ecu_reset-Silenced : Silenced Sid.ecu_reset ecu_reset
unfolding ecu_reset
ecu_reset-Silenced env x rest resp_cap s h = ground (arith, low_bits x h, top_bit x h)

read_dtc-Silenced : Silenced Sid.read_dtc Faults.read_dtc
unfolding Faults.read_dtc
read_dtc-Silenced env x rest resp_cap s h = ground (arith, low_bits x h, top_bit x h)

tester_present-Silenced : Silenced Sid.tester_present tester_present
unfolding tester_present
tester_present-Silenced env x rest resp_cap s h = ground (arith, low_bits x h, top_bit x h)

seed_outcome-Silenced :
    (r : SeedResult) (x : ℕ) (rest : List ℕ)
    → x < 128
    → seed_outcome r (Sid.security_access ∷ (x + 128) ∷ rest)
      ≡ silence (seed_outcome r (Sid.security_access ∷ x ∷ rest))
seed_outcome-Silenced (refused nrc) x rest h = refl
seed_outcome-Silenced already_unlocked x rest h = ground (arith, low_bits x h, top_bit x h)
seed_outcome-Silenced (issued seed) x rest h = ground (arith, low_bits x h, top_bit x h)

key_outcome-Silenced :
    (r : KeyResult) (x : ℕ) (rest : List ℕ)
    → x < 128
    → key_outcome r (Sid.security_access ∷ (x + 128) ∷ rest)
      ≡ silence (key_outcome r (Sid.security_access ∷ x ∷ rest))
key_outcome-Silenced (rejected nrc) x rest h = refl
key_outcome-Silenced accepted x rest h = ground (arith, low_bits x h, top_bit x h)

security_access-Silenced : Silenced Sid.security_access Access.security_access
unfolding Access.security_access
security_access-Silenced env x rest resp_cap s h =
    rw ((low_bits x h).0, (low_bits x h).1)
      (ground (
        arith,
        seed_outcome-Silenced (request_seed env x s.security).0 x rest h,
        key_outcome-Silenced
            (send_key env (u8 (x + 256 - 1)) (rd32_be (Sid.security_access ∷ x ∷ rest) 2)
              s.security).0
            x rest h,
      ))

-- The services of the dispatch table that have a sub-function.
abbrev pub HasSubFunction : ℕ → Type 0
HasSubFunction sid =
    (sid ≡ Sid.diagnostic_session_control)
    ⊎ (sid ≡ Sid.ecu_reset)
    ⊎ (sid ≡ Sid.read_dtc)
    ⊎ (sid ≡ Sid.security_access)
    ⊎ (sid ≡ Sid.tester_present)

-- For every service with a sub-function, the request with bit 7 of the sub-function set leads to
-- the same new state as the request without it; its outcome is the same too, but that a positive
-- response is suppressed. A negative response is sent in both cases.
pub suppress_bit_silences :
    (env : Env) (sid x : ℕ) (rest : List ℕ) (resp_cap : ℕ) (s : Vecu)
    → HasSubFunction sid
    → x < 128
    → process_request env (sid ∷ (x + 128) ∷ rest) resp_cap s
      ≡ (let (o, t) = process_request env (sid ∷ x ∷ rest) resp_cap s in (silence o, t))
unfolding process_request
suppress_bit_silences env sid x rest resp_cap s has h = elim (Bool-cases (ltb resp_cap 3)) [
  | inl small ↦ rw (some_bytes, small)
  | inr room ↦
      rw (some_bytes, room)
        (elim has [
          | inl e ↦ rw e (session_control-Silenced env x rest resp_cap s h)
          | inr (inl e) ↦ rw e (ecu_reset-Silenced env x rest resp_cap s h)
          | inr (inr (inl e)) ↦ rw e (read_dtc-Silenced env x rest resp_cap s h)
          | inr (inr (inr (inl e))) ↦ rw e (security_access-Silenced env x rest resp_cap s h)
          | inr (inr (inr (inr e))) ↦ rw e (tester_present-Silenced env x rest resp_cap s h)
        ])
]
  where
    some_bytes : (suc (suc (length rest)) == 0) ≡ false
    some_bytes = ground arith
