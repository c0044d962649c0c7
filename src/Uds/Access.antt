-- ===== src/Uds/Access.antt =====
-- Service 0x27 of src/uds.c.
use vecu_uds.Base.{
  ℕ, ◌+◌, ◌-◌, List, [], ◌∷◌, ◌==◌, ◌!=◌, not, if◌then◌else◌, ltb, length, bit_and, u8,
}
use vecu_uds.Types.{pos_resp}
use vecu_uds.Types.Nrc
use vecu_uds.Security.{
  SeedResult, KeyResult, issued, already_unlocked, refused, accepted, rejected, request_seed,
  send_key,
}
use vecu_uds.Uds.Reply.{
  Outcome, reply, Handler, byte_at, build_nrc, refuse, sub_function, answer, rd32_be, wr32_be,
  is_extended_session,
}

abbrev pub seed_response : List ℕ → ℕ → List ℕ
seed_response req seed = pos_resp (byte_at req 0) ∷ sub_function (byte_at req 1) ∷ wr32_be seed

abbrev pub seed_outcome : SeedResult → List ℕ → Outcome
seed_outcome (refused nrc) req = reply (build_nrc (byte_at req 0) nrc)
seed_outcome already_unlocked req = answer (byte_at req 1) (seed_response req 0)
seed_outcome (issued seed) req = answer (byte_at req 1) (seed_response req seed)

abbrev pub key_outcome : KeyResult → List ℕ → Outcome
key_outcome (rejected nrc) req = reply (build_nrc (byte_at req 0) nrc)
key_outcome accepted req =
    answer (byte_at req 1) (pos_resp (byte_at req 0) ∷ sub_function (byte_at req 1) ∷ [])

-- SecurityAccess. The level of a key is `(uint8_t)(sub - 1)`.
unfoldable pub security_access : Handler
security_access env req resp_cap s =
    if ltb (length req) 2
    then refuse req Nrc.incorrect_message_length s
    else let sub = sub_function (byte_at req 1) in
      if not (is_extended_session s)
      then refuse req Nrc.service_not_supported_in_session s
      else if bit_and sub 0x01 == 0x01
      then (if length req != 2
          then refuse req Nrc.incorrect_message_length s
          else let (r, security) = request_seed env sub s.security in
            (seed_outcome r req, record s { security = security }))
      else if length req != 6
      then refuse req Nrc.incorrect_message_length s
      else let (r, security) = send_key env (u8 (sub + 256 - 1)) (rd32_be req 2) s.security in
        (key_outcome r req, record s { security = security })
