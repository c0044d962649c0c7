-- ===== src/Threads/Race.antt =====
-- h_write_did of src/uds.c while the S3 timer of src/threads.c expires.
use vecu_uds.Types.Session
use vecu_uds.Types.Sid
use vecu_uds.Base.{
  some, ◌≤◌, true, refl, ltb, arith, false, ◌==◌, ◌≡◌, length, ◌<◌, ℕ, List, ◌∷◌, [], suc,
}
use vecu_uds.Uds.Sections.Request.{scan_program, request_program}
use vecu_uds.Uds.Sections.Data.{write_program, write_found_program, write_did_program}
use vecu_uds.Uds.Sections.{advance, run, look, refuse_if}
use vecu_uds.Clock.{now_ms, Timespec, Env}
use vecu_uds.Types.{max_msg_len}
use vecu_uds.Did.{owner_write, lookup}
use vecu_uds.Threads.{expired, s3_step}
use vecu_uds.Vecu.{
  owner_entry, read_owner, owner_name_cap, registered_dids, Vecu, call_write, set_session,
}
use vecu_uds.Security.{SecurityState, is_unlocked, relock}
use vecu_uds.Uds.Reply.{reply, is_extended_session}
use vecu_uds.Uds.Identifiers.{payload_cap}
use vecu_uds.Uds.RoundTrip.{write_owner_lem, owner_entry_found}
use vecu_uds.Vecu.Owner.{read-write_owner}

abbrev pub write_request : List ℕ → List ℕ
write_request payload = Sid.write_data_by_identifier ∷ 0xF2 ∷ 0x00 ∷ payload

starts :
    (env : Env) (payload : List ℕ)
    → 0 < length payload
    → request_program env (write_request payload) max_msg_len
      ≡ look (λ s. write_found_program (lookup 0xF200 s.dids) (write_request payload))
unfolding request_program scan_program write_did_program refuse_if
starts env payload some_bytes = rw (not_empty, long) refl
  where
    not_empty : (suc (suc (suc (length payload))) == 0) ≡ false
    not_empty = ground arith

    long : ltb (suc (suc (suc (length payload)))) 4 ≡ false
    long = ground arith

write_program_lem :
    (payload : List ℕ) (u : Vecu)
    → 0 < length payload
    → length payload ≤ owner_name_cap
    → let (o, t) = run (write_program owner_write (write_request payload)) u in
      (o ≡ reply (0x6E ∷ 0xF2 ∷ 0x00 ∷ [])) × (read_owner payload_cap t ≡ payload)
unfolding run call_write
write_program_lem payload u some_bytes fits =
    let (t, wrote_it) = write_owner_lem payload u some_bytes fits in
    rw wrote_it (refl, read-write_owner payload payload_cap u t wrote_it (omega arith))

relock-locked : (s : SecurityState) → is_unlocked 0x01 (relock s) ≡ false
unfolding is_unlocked relock
relock-locked s = refl

-- When the S3 timer expires between h_write_did's check of the security level and its write, the
-- write is carried out and confirmed, although the ECU is by then locked and in the default
-- session: the owner name is the payload of 1 to 32 bytes, if the ECU had the table that vecu_init
-- builds, was unlocked and was not in the default session when the request began.
pub write_did_races :
    (c₁ c₂ : Timespec) (env : Env) (payload : List ℕ) (s : Vecu)
    → s.dids ≡ registered_dids
    → is_extended_session s ≡ true
    → is_unlocked 0x01 s.security ≡ true
    → 0 < length payload
    → length payload ≤ owner_name_cap
    → let (p₁, s₁) = advance (request_program env (write_request payload) max_msg_len) s in
      let (p₂, s₂) = advance p₁ s₁ in
      let (p₃, s₃) = advance p₂ s₂ in
      let (pc, s₄) = s3_step c₁ expired s₃ in
      let (napped, s₅) = s3_step c₂ pc s₄ in
      let (o, t) = run p₃ s₅ in
      (s₅.session ≡ Session.default)
      × (is_unlocked 0x01 s₅.security ≡ false)
      × (o ≡ reply (0x6E ∷ 0xF2 ∷ 0x00 ∷ []))
      × (read_owner payload_cap t ≡ payload)
unfolding run s3_step set_session relock refuse_if call_write
write_did_races c₁ c₂ env payload s boot ext unl some_bytes fits =
    rw (starts env payload some_bytes) (
      rw found (
        rw (ext, refuse_if)
          (rw (unl, refuse_if) (refl, relock-locked s.security, written.0, written.1))))
  where
    found : lookup 0xF200 s.dids ≡ some owner_entry
    found = rw boot owner_entry_found

    written :
        let u = record s {
          session = Session.default;
          last_tester_present_ms = now_ms c₁;
          security = relock s.security;
        } in
        let (o, t) = run (write_program owner_write (write_request payload)) u in
        (o ≡ reply (0x6E ∷ 0xF2 ∷ 0x00 ∷ [])) × (read_owner payload_cap t ≡ payload)
    written = write_program_lem payload _ some_bytes fits
