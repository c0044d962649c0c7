-- ===== src/Client/Unlocked.antt =====
-- The unlock command of client/diag_tool.py against an ECU that is unlocked already.
use vecu_uds.Uds.Access
use vecu_uds.Security
use vecu_uds.Base.{
  if◌then◌else◌, List, Option, ◌+◌, Bool, ◌≤◌, bit_xor, some, ℕ, ◌≡◌, refl, arith, true, false, [],
  ◌∷◌,
}
use vecu_uds.Client.{Piece, Udsoncan, ok, raised, negative_response, ◌>>=◌, ◌>>◌}
use vecu_uds.Client.Calls.{IsOpen, held, available}
use vecu_uds.Client.Commands.{cmd_unlock, main, unlock}
use vecu_uds.Uds.Reply.{wr32_be, is_extended_session, reply}
use vecu_uds.Uds.Dispatch.{process_request}
use vecu_uds.Client.Ecu.{wire, Bench}
use vecu_uds.Clock.{Env}
use vecu_uds.Client.Documented.{Documented}
use vecu_uds.Security.{seed_of, SecurityState, key_constant, is_unlocked}
use vecu_uds.Client.Calls.{session_kept, wire_lem, session_call, start_session, after}
use vecu_uds.Uds.Handshake.{seed_request, key_request}
use vecu_uds.Client.Unlock.{
  cmd_unlock_unlocks, unlocked_line, from_bytes-wr32_be, security_algo-wr32_be, seed_line,
}
use vecu_uds.Types.{max_msg_len}
use vecu_uds.Vecu.{Vecu}

seed_again :
    (env : Env) (resp_cap : ℕ) (s : Vecu)
    → 3 ≤ resp_cap
    → is_extended_session s ≡ true
    → is_unlocked 0x01 s.security ≡ true
    → let (o, t) = process_request env seed_request resp_cap s in
      (o ≡ reply (0x67 ∷ 0x01 ∷ wr32_be 0))
      × (t.session ≡ s.session)
      × (t.security ≡ record s.security { seed_issued = false })
unfolding process_request Access.security_access Security.request_seed is_unlocked
seed_again env resp_cap s room extended unlocked = ground arith

key_again :
    (env : Env) (resp_cap key : ℕ) (s : Vecu)
    → 3 ≤ resp_cap
    → is_extended_session s ≡ true
    → s.security.seed_issued ≡ false
    → let (o, t) = process_request env (key_request key) resp_cap s in
      (o ≡ reply (0x7F ∷ 0x27 ∷ 0x24 ∷ [])) × (t.security ≡ s.security)
unfolding process_request Access.security_access Security.send_key
key_again env resp_cap key s room extended none_issued = ground arith

module _ (lib : Udsoncan Bench) (envs : ℕ → Env) (doc : Documented lib (wire envs)) where
  pub seed_call_again :
      (b : Bench)
      → is_extended_session b.vecu ≡ true
      → is_unlocked 0x01 b.vecu.security ≡ true
      → let c = after envs seed_request b in
        (lib.request_seed 1 b ≡ (ok (wr32_be 0), c))
        × (is_extended_session c.vecu ≡ true)
        × (c.vecu.security ≡ record b.vecu.security { seed_issued = false })
  seed_call_again b extended unlocked =
      let step = seed_again (envs b.asked) max_msg_len b.vecu (omega arith) extended unlocked in
      (
        doc.seed.accepted b _ _ _ (wire_lem envs seed_request _ b step.0) refl,
        session_kept b.vecu _ step.1 extended,
        step.2,
      )

  key_call_again :
      (b : Bench) (key : ℕ)
      → is_extended_session b.vecu ≡ true
      → b.vecu.security.seed_issued ≡ false
      → let c = after envs (key_request key) b in
        (lib.send_key 1 (wr32_be key) b ≡ (raised negative_response, c))
        × (c.vecu.security ≡ b.vecu.security)
  key_call_again b key extended none_issued =
      let step =
        key_again (envs b.asked) max_msg_len key b.vecu (omega arith) extended none_issued in
      (
        (doc.key (wr32_be key)).refused b _ 0x24 (wire_lem envs (key_request key) _ b step.0)
            (omega arith),
        step.1,
      )

cmd_unlock_again :
    (lib : Udsoncan Bench) (envs : ℕ → Env) (b : Bench)
    → Documented lib (wire envs)
    → is_unlocked 0x01 b.vecu.security ≡ true
    → let (code, c, lines) = main lib (unlock 1) b in
      (code ≡ some 2) × (is_unlocked 0x01 c.vecu.security ≡ true) × (lines ≡ seed_line 0 ∷ [])
unfolding main cmd_unlock is_unlocked
cmd_unlock_again lib envs b doc unlocked =
    let b₁ = after envs start_session b in
    let first = session_call lib envs doc b in
    let second = seed_call_again lib envs doc b₁ first.1 (rw first.2 unlocked) in
    let key = bit_xor 0 key_constant in
    let b₂ = after envs seed_request b₁ in
    let third = key_call_again lib envs doc b₂ key second.1 (rw second.2 refl) in
    let ran : cmd_unlock lib 1 (record { ecu = b; printed = [] }) ≡ (
      raised negative_response,
      record { ecu = after envs (key_request key) b₂; printed = seed_line 0 ∷ [] },
    ) =
      rw
        (
          ◌>>=◌,
          ◌>>◌,
          first.0,
          second.0,
          security_algo-wr32_be 0 (omega arith),
          from_bytes-wr32_be 0 (omega arith),
          from_bytes-wr32_be key (omega arith),
          third.0,
        )
        refl in
    rw (main, ran) (refl, rw (third.1, second.2, first.2) unlocked, refl)

-- What the unlock command comes to: it does not test for the seed 0, which tells that the level is
-- unlocked, and the key that it then sends is refused.
abbrev pub unlock_code : Bool → Option ℕ
unlock_code unlocked = if unlocked then some 2 else some 0

abbrev pub unlock_lines : Bool → ℕ → List (List Piece)
unlock_lines unlocked seed =
    if unlocked then seed_line 0 ∷ [] else seed_line seed ∷ unlocked_line ∷ []

locked_level : (s : SecurityState) → s.unlocked_level ≡ 0 → is_unlocked 0x01 s ≡ false
unfolding is_unlocked
locked_level s h = rw h refl

-- If the package does as documented and level 1 can be had, that is, it is unlocked, or it is
-- locked, outside the lock-out at the seed request, and getrandom writes four bytes, the unlock
-- command for level 1 leaves the level unlocked. From a locked level it ends with exit code 0 and
-- prints the seed, the key and that the level is unlocked; from an unlocked one it prints the seed 0
-- and ends with exit code 2: the key that it sends for the seed 0 is refused.
pub cmd_unlock_lem :
    (lib : Udsoncan Bench) (envs : ℕ → Env) (b : Bench)
    → Documented lib (wire envs)
    → IsOpen envs b (b.asked + 1)
    → let (code, c, lines) = main lib (unlock 1) b in
      let before = is_unlocked 0x01 b.vecu.security in
      (is_unlocked 0x01 c.vecu.security ≡ true)
      × (code ≡ unlock_code before)
      × (lines ≡ unlock_lines before (seed_of (envs (b.asked + 1)).entropy))
cmd_unlock_lem lib envs b doc (held unlocked) =
    let ran = cmd_unlock_again lib envs b doc unlocked in rw unlocked (ran.1, ran.0, ran.2)
cmd_unlock_lem lib envs b doc (available four locked outside) =
    let ran = cmd_unlock_unlocks lib envs b doc four locked outside in
    rw (locked_level b.vecu.security locked) (ran.1, ran.0, ran.2)
