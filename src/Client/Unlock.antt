-- ===== src/Client/Unlock.antt =====
-- The unlock command of client/diag_tool.py against the ECU of src/.
use vecu_uds.Base.{
  ap, lt→ltb, ◌≤◌, ◌+◌, ◌>>>◌, u8, ◌/◌, bit_xor-lt, some, bit_xor, ◌^◌, ◌<◌, List, ℕ, ◌≡◌, refl,
  arith, true, [], ◌∷◌,
}
use vecu_uds.Client.{◌>>◌, ◌>>=◌, Udsoncan, Piece, ok, text, hex, decimal}
use vecu_uds.Client.Commands.{cmd_unlock, main, unlock}
use vecu_uds.Uds.Reply.{wr32_be}
use vecu_uds.Client.Codecs.{from_bytes, security_algo}
use vecu_uds.Vecu.{codes}
use vecu_uds.Client.Ecu.{wire, Bench}
use vecu_uds.Clock.{now_ms, Env}
use vecu_uds.Security.{seed_of, is_unlocked, key_constant}
use vecu_uds.Client.Documented.{Documented}
use vecu_uds.Uds.Handshake.{key_request, seed_request, seed_of-lt, FourBytes}
use vecu_uds.Client.Calls.{key_call, seed_call, session_call, start_session, after}

pub from_bytes-wr32_be : (v : ℕ) → v < 2 ^ 32 → from_bytes 0 (wr32_be v) ≡ v
unfolding from_bytes
from_bytes-wr32_be v h = omega arith

-- The client computes the key that the ECU expects.
pub security_algo-wr32_be :
    (v : ℕ) → v < 2 ^ 32 → security_algo (wr32_be v) ≡ some (wr32_be (bit_xor v key_constant))
unfolding security_algo
security_algo-wr32_be v h =
    let k = bit_xor v key_constant in
    let fits : k < 2 ^ 32 = bit_xor-lt 32 v key_constant h (omega arith) in
    let first : k / 2 ^ 24 ≡ u8 (k >>> 24) = omega arith in
    rw (from_bytes-wr32_be v h, lt→ltb k (2 ^ 32) fits)
      (ap (λ b. some (b ∷ u8 (k >>> 16) ∷ u8 (k >>> 8) ∷ u8 k ∷ [])) first)

-- What is printed of a seed and its key.
abbrev pub seed_line : ℕ → List Piece
seed_line seed =
    text (codes "Seed: 0x")
    ∷ hex 8 seed
    ∷ text (codes " -> Key: 0x")
    ∷ hex 8 (bit_xor seed key_constant)
    ∷ []

abbrev pub unlocked_line : List Piece
unlocked_line = text (codes "Security unlocked (level ") ∷ decimal 1 ∷ text (codes ").") ∷ []

pub cmd_unlock_unlocks :
    (lib : Udsoncan Bench) (envs : ℕ → Env) (b : Bench)
    → Documented lib (wire envs)
    → FourBytes (envs (b.asked + 1))
    → b.vecu.security.unlocked_level ≡ 0
    → b.vecu.security.lock_until_ms ≤ now_ms (envs (b.asked + 1)).clock
    → let (code, c, lines) = main lib (unlock 1) b in
      (code ≡ some 0)
      × (is_unlocked 0x01 c.vecu.security ≡ true)
      × (lines ≡ seed_line (seed_of (envs (b.asked + 1)).entropy) ∷ unlocked_line ∷ [])
unfolding main cmd_unlock
cmd_unlock_unlocks lib envs b doc four locked free =
    let b₁ = after envs start_session b in
    let first = session_call lib envs doc b in
    let second = seed_call lib envs doc b₁ first.1 (rw first.2 locked) (rw first.2 free) in
    let seed = seed_of (envs b₁.asked).entropy in
    let small = seed_of-lt (envs b₁.asked).entropy four in
    let key_small : bit_xor seed key_constant < 2 ^ 32 =
      bit_xor-lt 32 seed key_constant small (omega arith) in
    let third =
      key_call lib envs doc (after envs seed_request b₁) (bit_xor seed key_constant) second.1
        second.3 second.4 key_small (rw second.2 refl) in
    let ran : cmd_unlock lib 1 (record { ecu = b; printed = [] }) ≡ (
      ok 0,
      record {
        ecu = after envs (key_request (bit_xor seed key_constant)) (after envs seed_request b₁);
        printed = seed_line seed ∷ unlocked_line ∷ [];
      },
    ) =
      rw
        (
          ◌>>=◌,
          ◌>>◌,
          first.0,
          second.0,
          security_algo-wr32_be seed small,
          from_bytes-wr32_be seed small,
          from_bytes-wr32_be (bit_xor seed key_constant) key_small,
          third.0,
        )
        refl in
    rw (main, ran) (refl, third.1, refl)
