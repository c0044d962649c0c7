-- ===== src/Client/Calls.antt =====
-- The package's methods against the ECU of src/: what comes of each call of a command.
use vecu_uds.Types.Sid
use vecu_uds.Base.{bit_xor, ◌^◌, ◌≤◌, ◌<◌, ◌+◌, List, ℕ, ◌≡◌, refl, arith, true, [], ◌∷◌}
use vecu_uds.Client.{Udsoncan, ok}
use vecu_uds.Uds.Reply.{wr32_be, is_extended_session, reply}
use vecu_uds.Client.Ecu.{wire, Bench}
use vecu_uds.Clock.{now_ms, Env}
use vecu_uds.Uds.Dispatch.{process_request}
use vecu_uds.Vecu.{Vecu}
use vecu_uds.Client.Documented.{Documented}
use vecu_uds.Uds.Handshake.{
  FourBytes, key_step, seed_step, key_request, seed_request, extended_step,
}
use vecu_uds.Types.{max_msg_len}
use vecu_uds.Security.{is_unlocked, seed_of, key_constant}

-- The bench after one more request.
abbrev pub next : Bench → Vecu → Bench
next b t = record { asked = b.asked + 1; vecu = t }

-- The ECU after a request to it.
abbrev pub after : (ℕ → Env) → List ℕ → Bench → Bench
after envs req b = next b (process_request (envs b.asked) req max_msg_len b.vecu).1

abbrev pub start_session : List ℕ
start_session = Sid.diagnostic_session_control ∷ 0x03 ∷ []

-- Level 1 can be had: it is unlocked, or locked and outside the lock-out at request `n`.
pub data IsOpen (envs : ℕ → Env) (b : Bench) (n : ℕ) : Type 0 where
  held : is_unlocked 0x01 b.vecu.security ≡ true → IsOpen envs b n
  available :
      FourBytes (envs n)
      → b.vecu.security.unlocked_level ≡ 0
      → b.vecu.security.lock_until_ms ≤ now_ms (envs n).clock
      → IsOpen envs b n

pub wire_lem :
    (envs : ℕ → Env) (req bytes : List ℕ) (b : Bench)
    → (process_request (envs b.asked) req max_msg_len b.vecu).0 ≡ reply bytes
    → wire envs req b ≡ (reply bytes, after envs req b)
unfolding wire
wire_lem envs req bytes b h = rw h refl

pub wire_step :
    (envs : ℕ → Env) (req bytes : List ℕ) (b : Bench) (t : Vecu)
    → process_request (envs b.asked) req max_msg_len b.vecu ≡ (reply bytes, t)
    → wire envs req b ≡ (reply bytes, next b t)
unfolding wire
wire_step envs req bytes b t h = rw h refl

pub session_kept :
    (s t : Vecu)
    → t.session ≡ s.session
    → is_extended_session s ≡ true
    → is_extended_session t ≡ true
unfolding is_extended_session
session_kept s t same h = rw same h

module _ (lib : Udsoncan Bench) (envs : ℕ → Env) (doc : Documented lib (wire envs)) where
  pub session_call :
      (b : Bench)
      → let c = after envs start_session b in
        (lib.change_session 0x03 b ≡ (ok tt, c))
        × (is_extended_session c.vecu ≡ true)
        × (c.vecu.security ≡ b.vecu.security)
  session_call b =
      let step = extended_step (envs b.asked) max_msg_len b.vecu (omega arith) in
      (doc.session.accepted b _ _ tt (wire_lem envs start_session _ b step.0) refl, step.1, step.2)

  pub seed_call :
      (b : Bench)
      → is_extended_session b.vecu ≡ true
      → b.vecu.security.unlocked_level ≡ 0
      → b.vecu.security.lock_until_ms ≤ now_ms (envs b.asked).clock
      → let c = after envs seed_request b in
        (lib.request_seed 1 b ≡ (ok (wr32_be (seed_of (envs b.asked).entropy)), c))
        × (is_extended_session c.vecu ≡ true)
        × (c.vecu.security.pending_seed ≡ seed_of (envs b.asked).entropy)
        × (c.vecu.security.seed_issued ≡ true)
        × (c.vecu.security.lock_until_ms ≡ 0)
  seed_call b extended locked free =
      let step = seed_step (envs b.asked) max_msg_len b.vecu (omega arith) extended locked free in
      (
        doc.seed.accepted b _ _ _ (wire_lem envs seed_request _ b step.0) refl,
        session_kept b.vecu _ step.1 extended,
        step.2,
        step.3,
        step.4,
      )

  pub key_call :
      (b : Bench) (key : ℕ)
      → is_extended_session b.vecu ≡ true
      → b.vecu.security.seed_issued ≡ true
      → b.vecu.security.lock_until_ms ≡ 0
      → key < 2 ^ 32
      → key ≡ bit_xor b.vecu.security.pending_seed key_constant
      → let c = after envs (key_request key) b in
        (lib.send_key 1 (wr32_be key) b ≡ (ok tt, c)) × (is_unlocked 0x01 c.vecu.security ≡ true)
  key_call b key extended pending free fits match =
      let step =
        key_step (envs b.asked) max_msg_len key b.vecu (omega arith) extended pending free fits
          match in
      (
        (doc.key (wr32_be key)).accepted b _ _ tt (wire_lem envs (key_request key) _ b step.0) refl,
        step.1,
      )
