-- ===== src/Client/Access.antt =====
-- udsoncan's seed and key exchange, as client/diag_tool.py calls it, against the ECU of src/.
use vecu_uds.Uds.Access
use vecu_uds.Uds.Sessions
use vecu_uds.Base.{bit_xor-lt, ◌^◌, ◌<◌, bit_xor, ◌∙◌, ◌≤◌, ◌+◌, ℕ, ◌≡◌, refl, arith, true}
use vecu_uds.Client.{Udsoncan, ok}
use vecu_uds.Uds.Dispatch.{process_request}
use vecu_uds.Clock.{now_ms, Env}
use vecu_uds.Client.Ecu.{wire, Bench}
use vecu_uds.Client.Documented.{Documented}
use vecu_uds.Security.{key_constant, seed_of, is_unlocked}
use vecu_uds.Uds.Reply.{is_extended_session}
use vecu_uds.Vecu.{owner_name_cap, read_owner, registered_dids, Vecu}
use vecu_uds.Client.Codecs.{security_algo}
use vecu_uds.Uds.Handshake.{seed_of-ne_zero, seed_of-lt, key_request, FourBytes, seed_request}
use vecu_uds.Client.Calls.{
  available, held, IsOpen, session_kept, key_call, session_call, seed_call, after, start_session,
}
use vecu_uds.Client.Unlocked.{seed_call_again}
use vecu_uds.Client.Unlock.{security_algo-wr32_be, from_bytes-wr32_be}
use vecu_uds.Types.{max_msg_len}

-- A step that touches neither the table of identifiers nor the owner name.
abbrev pub Kept : Vecu → Vecu → Type 0
Kept s t = (t.dids ≡ s.dids) × (read_owner owner_name_cap t ≡ read_owner owner_name_cap s)

pub session_request-Kept :
    (env : Env) (resp_cap : ℕ) (s : Vecu) → Kept s (process_request env start_session resp_cap s).1
unfolding process_request Sessions.session_control read_owner
session_request-Kept env resp_cap s = ground arith

seed_request-Kept :
    (env : Env) (resp_cap : ℕ) (s : Vecu) → Kept s (process_request env seed_request resp_cap s).1
unfolding process_request Access.security_access read_owner
seed_request-Kept env resp_cap s = ground arith

key_request-Kept :
    (env : Env) (resp_cap key : ℕ) (s : Vecu)
    → Kept s (process_request env (key_request key) resp_cap s).1
unfolding process_request Access.security_access read_owner
key_request-Kept env resp_cap key s = ground arith

session-key_request :
    (env : Env) (resp_cap key : ℕ) (s : Vecu)
    → (process_request env (key_request key) resp_cap s).1.session ≡ s.session
unfolding process_request Access.security_access
session-key_request env resp_cap key s = ground arith

-- The other end lets the owner name be written.
pub record IsWritable (b : Bench) : Type 0 where
  pub extended : is_extended_session b.vecu ≡ true
  pub unlocked : is_unlocked 0x01 b.vecu.security ≡ true
  pub table : b.vecu.dids ≡ registered_dids

abbrev pub Unlocks : Udsoncan Bench → Bench → Type 0
Unlocks lib b =
    (c : Bench) × (lib.unlock_security_access security_algo 1 b ≡ (ok tt, c))
    × IsWritable c
    × (read_owner owner_name_cap c.vecu ≡ read_owner owner_name_cap b.vecu)

module _ (lib : Udsoncan Bench) (envs : ℕ → Env) (doc : Documented lib (wire envs)) where
  unlock_held :
      (b : Bench)
      → is_extended_session b.vecu ≡ true
      → b.vecu.dids ≡ registered_dids
      → is_unlocked 0x01 b.vecu.security ≡ true
      → Unlocks lib b
  unfolding is_unlocked
  unlock_held b extended table unlocked =
      let second = seed_call_again lib envs doc b extended unlocked in
      let kept = seed_request-Kept (envs b.asked) max_msg_len b.vecu in
      (
        after envs seed_request b,
        doc.already security_algo b _ _ second.0 (omega arith) (from_bytes-wr32_be 0 (omega arith)),
        record { extended = second.1; unlocked = rw second.2 unlocked; table = kept.0 ∙ table },
        kept.1,
      )

  unlock_free :
      (b : Bench)
      → is_extended_session b.vecu ≡ true
      → b.vecu.dids ≡ registered_dids
      → FourBytes (envs b.asked)
      → b.vecu.security.unlocked_level ≡ 0
      → b.vecu.security.lock_until_ms ≤ now_ms (envs b.asked).clock
      → Unlocks lib b
  unlock_free b extended table four locked outside =
      let second = seed_call lib envs doc b extended locked outside in
      let seed = seed_of (envs b.asked).entropy in
      let small = seed_of-lt (envs b.asked).entropy four in
      let key_small : bit_xor seed key_constant < 2 ^ 32 =
        bit_xor-lt 32 seed key_constant small (omega arith) in
      let c = after envs seed_request b in
      let third =
        key_call lib envs doc c (bit_xor seed key_constant) second.1 second.3 second.4 key_small
          (rw second.2 refl) in
      let kept = seed_request-Kept (envs b.asked) max_msg_len b.vecu in
      let kept' = key_request-Kept (envs c.asked) max_msg_len (bit_xor seed key_constant) c.vecu in
      let same =
        session-key_request (envs c.asked) max_msg_len (bit_xor seed key_constant) c.vecu in
      (
        after envs (key_request (bit_xor seed key_constant)) c,
        doc.unlock security_algo b c _ _ second.0
              (rw (from_bytes-wr32_be seed small) (seed_of-ne_zero (envs b.asked).entropy))
              (security_algo-wr32_be seed small)
            ∙ third.0,
        record {
          extended = session_kept c.vecu _ same second.1;
          unlocked = third.1;
          table = kept'.0 ∙ kept.0 ∙ table;
        },
        kept'.1 ∙ kept.1,
      )

  pub unlock_call :
      (b : Bench)
      → b.vecu.dids ≡ registered_dids
      → IsOpen envs b (b.asked + 1)
      → Unlocks lib (after envs start_session b)
  unlock_call b table (held unlocked) =
      let first = session_call lib envs doc b in
      unlock_held (after envs start_session b) first.1
        ((session_request-Kept (envs b.asked) max_msg_len b.vecu).0 ∙ table) (rw first.2 unlocked)
  unlock_call b table (available four locked outside) =
      let first = session_call lib envs doc b in
      unlock_free (after envs start_session b) first.1
        ((session_request-Kept (envs b.asked) max_msg_len b.vecu).0 ∙ table) four
        (rw first.2 locked) (rw first.2 outside)
