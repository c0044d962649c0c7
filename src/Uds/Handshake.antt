-- ===== src/Uds/Handshake.antt =====
-- The seed and key exchange as requests to src/uds.c, and what a reset does to the lock-out.
use vecu_uds.Types.Sid
use vecu_uds.Uds.Access
use vecu_uds.Uds.Sessions
use vecu_uds.Base.{
  bit_xor-lt, ◌≢◌, ◌%◌, refl, ◌/◌, none, bit_or_four_bytes, bit_xor, true, arith, [], some, ◌≤◌,
  ◌∷◌, Option, ◌≡◌, ◌^◌, List, ◌<◌, ℕ,
}
use vecu_uds.Uds.Dispatch.{process_request}
use vecu_uds.Clock.{now_ms, Env}
use vecu_uds.Security.{key_constant, is_unlocked, request_seed, send_key, seed_of}
use vecu_uds.Uds.Reply.{reply, rd32_be, wr32_be, is_extended_session}
use vecu_uds.Vecu.{Vecu}
use vecu_uds.Uds.Sessions.{session_control}

-- rd32_be reads what wr32_be wrote.
pub rd32_be-wr32_be : (a b v : ℕ) → v < 2 ^ 32 → rd32_be (a ∷ b ∷ wr32_be v) 2 ≡ v
rd32_be-wr32_be a b v h = omega (
  arith,
  bit_or_four_bytes (v / 2 ^ 24 % 256) (v / 2 ^ 16 % 256) (v / 2 ^ 8 % 256) (v % 256) (omega arith)
      (omega arith) (omega arith),
)

-- getrandom writes four bytes.
abbrev pub FourBytes : Env → Type 0
FourBytes env = (n : ℕ) → env.entropy ≡ some n → n < 2 ^ 32

pub seed_of-lt : (o : Option ℕ) → ((n : ℕ) → o ≡ some n → n < 2 ^ 32) → seed_of o < 2 ^ 32
unfolding seed_of
seed_of-lt none h = omega arith
seed_of-lt (some n) h = ground (arith, h n refl)

pub seed_of-ne_zero : (o : Option ℕ) → seed_of o ≢ 0
unfolding seed_of
seed_of-ne_zero none = omega arith
seed_of-ne_zero (some n) = ground arith

abbrev pub seed_request : List ℕ
seed_request = Sid.security_access ∷ 0x01 ∷ []

abbrev pub key_request : ℕ → List ℕ
key_request key = Sid.security_access ∷ 0x02 ∷ wr32_be key

pub seed_step :
    (env : Env) (resp_cap : ℕ) (s : Vecu)
    → 3 ≤ resp_cap
    → is_extended_session s ≡ true
    → s.security.unlocked_level ≡ 0
    → s.security.lock_until_ms ≤ now_ms env.clock
    → let (o, t) = process_request env seed_request resp_cap s in
      (o ≡ reply (0x67 ∷ 0x01 ∷ wr32_be (seed_of env.entropy)))
      × (t.session ≡ s.session)
      × (t.security.pending_seed ≡ seed_of env.entropy)
      × (t.security.seed_issued ≡ true)
      × (t.security.lock_until_ms ≡ 0)
unfolding process_request Access.security_access request_seed
seed_step env resp_cap s room ext locked free = ground arith

pub key_step :
    (env : Env) (resp_cap : ℕ) (key : ℕ) (s : Vecu)
    → 3 ≤ resp_cap
    → is_extended_session s ≡ true
    → s.security.seed_issued ≡ true
    → s.security.lock_until_ms ≡ 0
    → key < 2 ^ 32
    → key ≡ bit_xor s.security.pending_seed key_constant
    → let (o, t) = process_request env (key_request key) resp_cap s in
      (o ≡ reply (0x67 ∷ 0x02 ∷ [])) × (is_unlocked 0x01 t.security ≡ true)
unfolding process_request Access.security_access send_key is_unlocked
key_step env resp_cap key s room ext pending free fits match =
    ground (arith, rd32_be-wr32_be Sid.security_access 0x02 key fits)

-- The exchange of include/security.h, in bytes: in a non-default session of a locked ECU outside
-- the lock-out, 27 01 is answered by 67 01 and a seed of four bytes that is not 0, and 27 02 with
-- the four bytes of that seed XOR the constant is answered by 67 02 and unlocks level 1.
pub handshake_unlocks :
    (env env' : Env) (resp_cap : ℕ) (s : Vecu)
    → 3 ≤ resp_cap
    → FourBytes env
    → is_extended_session s ≡ true
    → s.security.unlocked_level ≡ 0
    → s.security.lock_until_ms ≤ now_ms env.clock
    → let (o, t) = process_request env seed_request resp_cap s in
      let seed = t.security.pending_seed in
      let (o', u) = process_request env' (key_request (bit_xor seed key_constant)) resp_cap t in
      (o ≡ reply (0x67 ∷ 0x01 ∷ wr32_be seed))
      × (seed ≢ 0)
      × (o' ≡ reply (0x67 ∷ 0x02 ∷ []))
      × (is_unlocked 0x01 u.security ≡ true)
unfolding is_extended_session
handshake_unlocks env env' resp_cap s room four ext locked free =
    let first = seed_step env resp_cap s room ext locked free in
    let t = (process_request env seed_request resp_cap s).1 in
    let fits : bit_xor t.security.pending_seed key_constant < 2 ^ 32 =
      bit_xor-lt 32 _ _ (rw first.2 (seed_of-lt env.entropy four)) (omega arith) in
    let second =
      key_step env' resp_cap (bit_xor t.security.pending_seed key_constant) t room (rw first.1 ext)
        first.3 first.4 fits refl in
    (rw first.2 first.0, rw first.2 (seed_of-ne_zero env.entropy), second.0, second.1)

reset_step :
    (env : Env) (resp_cap : ℕ) (s : Vecu)
    → 6 ≤ resp_cap
    → let (o, t) = process_request env (Sid.ecu_reset ∷ 0x01 ∷ []) resp_cap s in
      (o ≡ reply (0x51 ∷ 0x01 ∷ []))
      × (t.security.unlocked_level ≡ 0)
      × (t.security.lock_until_ms ≡ 0)
unfolding process_request Sessions.ecu_reset
reset_step env resp_cap s room = ground arith

pub extended_step :
    (env : Env) (resp_cap : ℕ) (s : Vecu)
    → 6 ≤ resp_cap
    → let (o, t) = process_request env (Sid.diagnostic_session_control ∷ 0x03 ∷ []) resp_cap s in
      (o ≡ reply (0x50 ∷ 0x03 ∷ 0x00 ∷ 0x32 ∷ 0x01 ∷ 0xF4 ∷ []))
      × (is_extended_session t ≡ true)
      × (t.security ≡ s.security)
unfolding process_request session_control is_extended_session
extended_step env resp_cap s room = ground arith

-- In every state, also inside the lock-out window and however many keys were wrong, the requests
-- 11 01, 10 03 and 27 01 are all answered positively, the last with a seed: the reset, which asks
-- for no session and no access, ends the lock-out.
pub reset_lifts_lock_out :
    (e₁ e₂ e₃ : Env) (resp_cap : ℕ) (s : Vecu)
    → 6 ≤ resp_cap
    → let (o₁, t) = process_request e₁ (Sid.ecu_reset ∷ 0x01 ∷ []) resp_cap s in
      let (o₂, u) = process_request e₂ (Sid.diagnostic_session_control ∷ 0x03 ∷ []) resp_cap t in
      let (o₃, v) = process_request e₃ seed_request resp_cap u in
      (o₁ ≡ reply (0x51 ∷ 0x01 ∷ []))
      × (o₂ ≡ reply (0x50 ∷ 0x03 ∷ 0x00 ∷ 0x32 ∷ 0x01 ∷ 0xF4 ∷ []))
      × (o₃ ≡ reply (0x67 ∷ 0x01 ∷ wr32_be v.security.pending_seed))
      × (v.security.seed_issued ≡ true)
reset_lifts_lock_out e₁ e₂ e₃ resp_cap s room =
    let t = (process_request e₁ (Sid.ecu_reset ∷ 0x01 ∷ []) resp_cap s).1 in
    let first = reset_step e₁ resp_cap s room in
    let u = (process_request e₂ (Sid.diagnostic_session_control ∷ 0x03 ∷ []) resp_cap t).1 in
    let second = extended_step e₂ resp_cap t room in
    let free : u.security.lock_until_ms ≡ 0 = rw second.2 first.2 in
    let third =
      seed_step e₃ resp_cap u (omega arith) second.1 (rw second.2 first.1) (omega arith) in
    (first.0, second.0, rw third.2 third.0, third.3)
