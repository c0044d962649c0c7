-- ===== src/Uds/Sections/Keyed.antt =====
-- Which sections of src/uds.c unlock the ECU.
use vecu_uds.Types.Sid
use vecu_uds.Base.{
  sym, bit_xor, none, true, false, some, length, arith, drop, ◌≡◌, Option, Bool, ℕ, List,
}
use vecu_uds.Uds.Sections.Each.{
  tester_present-Each, security_access-Each, read_did-Each, read_dtc-Each, clear_dtc-Each,
  ecu_reset-Each, session_control-Each, look-Each, request_rule, refuse_if-Each, Each, Covers,
  returns, sections,
}
use vecu_uds.Clock.{Env}
use vecu_uds.Security.{key_constant, is_unlocked, request_seed, send_key, soft_reset}
use vecu_uds.Uds.Sections.Data.{
  wrote, write_found_program, write_entry_program, unlocked_program, write_program,
  extended_program, write_did_program,
}
use vecu_uds.Uds.Sections.{Program}
use vecu_uds.Uds.Sections.Request.{request_program}
use vecu_uds.Vecu.{write_owner, mark_tester_present, call_write, Vecu, set_session}
use vecu_uds.Did.{lookup, owner_write, DidEntry, WriteFn}
use vecu_uds.Uds.Reply.{rd32_be, rd16_be, byte_at}

-- A key message that answers the pending seed.
abbrev pub AnswersSeed : List ℕ → Vecu → Type 0
AnswersSeed req s =
    (byte_at req 0 ≡ Sid.security_access)
    × (length req ≡ 6)
    × (s.security.seed_issued ≡ true)
    × (rd32_be req 2 ≡ bit_xor s.security.pending_seed key_constant)

-- A section that unlocks the ECU finds the key to its pending seed in the request.
abbrev pub NeedsKey : List ℕ → (Vecu → Vecu) → Type 0
NeedsKey req f =
    (s : Vecu)
    → is_unlocked 0x01 s.security ≡ false
    → is_unlocked 0x01 (f s).security ≡ true
    → AnswersSeed req s

abbrev pub IsKeyed : List ℕ → Program → Type 0
IsKeyed req = Each (NeedsKey req)

module _ (env : Env) (req : List ℕ) (resp_cap : ℕ) where
  reset-NeedsKey : NeedsKey req (λ s. record s { security = soft_reset s.security })
  unfolding soft_reset is_unlocked
  reset-NeedsKey s locked unlocked = ground arith

  seed-NeedsKey :
      (sub : ℕ) → NeedsKey req (λ s. record s { security = (request_seed env sub s.security).1 })
  unfolding request_seed is_unlocked
  seed-NeedsKey sub s locked unlocked = ground arith

  key-NeedsKey :
      (level : ℕ)
      → byte_at req 0 ≡ Sid.security_access
      → length req ≡ 6
      → NeedsKey req
          (λ s. record s { security = (send_key env level (rd32_be req 2) s.security).1 })
  unfolding send_key is_unlocked
  key-NeedsKey level sid six s locked unlocked = ground arith

  covers : Covers env req (NeedsKey req)
  unfolding set_session mark_tester_present
  covers = record {
    identity = λ s locked unlocked. cc;
    session = λ n s locked unlocked. cc;
    reset = reset-NeedsKey;
    present = λ s locked unlocked. cc;
    cleared = λ s locked unlocked. cc;
    seed = seed-NeedsKey;
    key = key-NeedsKey;
  }

  write-NeedsKey :
      (fn : WriteFn) (payload : List ℕ) → NeedsKey req (λ s. wrote s (call_write fn payload s))
  unfolding call_write write_owner
  write-NeedsKey owner_write payload = λ s locked unlocked. ground arith

  write-IsKeyed : (fn : WriteFn) → IsKeyed req (write_program fn req)
  write-IsKeyed fn = sections (write-NeedsKey fn (drop 3 req)) (λ s. returns)

  unlocked-IsKeyed : (b : Bool) (fn : WriteFn) → IsKeyed req (unlocked_program b fn req)
  unlocked-IsKeyed false fn = write-IsKeyed fn
  unlocked-IsKeyed true fn =
      look-Each (NeedsKey req) env req resp_cap covers
        (λ s. refuse_if-Each (NeedsKey req) env req resp_cap covers _ _ _ (write-IsKeyed fn))

  extended-IsKeyed : (b c : Bool) (fn : WriteFn) → IsKeyed req (extended_program b c fn req)
  extended-IsKeyed false c fn = unlocked-IsKeyed c fn
  extended-IsKeyed true c fn =
      look-Each (NeedsKey req) env req resp_cap covers
        (λ s. refuse_if-Each (NeedsKey req) env req resp_cap covers _ _ _ (unlocked-IsKeyed c fn))

  write_entry-IsKeyed :
      (w : Option WriteFn) (e : DidEntry) → IsKeyed req (write_entry_program w e req)
  write_entry-IsKeyed none e = returns
  write_entry-IsKeyed (some fn) e =
      extended-IsKeyed e.requires_extended_session e.requires_security fn

  write_found-IsKeyed : (o : Option DidEntry) → IsKeyed req (write_found_program o req)
  write_found-IsKeyed none = returns
  write_found-IsKeyed (some e) = write_entry-IsKeyed e.write e

  write_did-IsKeyed : IsKeyed req (write_did_program env req resp_cap)
  unfolding write_did_program
  write_did-IsKeyed = refuse_if-Each (NeedsKey req) env req resp_cap covers _ _ _ (
      look-Each (NeedsKey req) env req resp_cap covers
        (λ s. write_found-IsKeyed (lookup (rd16_be req 1) s.dids)))

  -- Of a request only the section that compares the key unlocks the ECU, and it finds the key to
  -- the seed that is pending then.
  pub request-IsKeyed : IsKeyed req (request_program env req resp_cap)
  request-IsKeyed =
      let P = NeedsKey req in
      request_rule (IsKeyed req) (λ o. returns) env req resp_cap
        (
          λ h. session_control-Each P env req resp_cap covers,
          (
            λ h. ecu_reset-Each P env req resp_cap covers,
            (
              λ h. clear_dtc-Each P env req resp_cap covers,
              (
                λ h. read_dtc-Each P env req resp_cap covers,
                (
                  λ h. read_did-Each P env req resp_cap covers,
                  (
                    λ h. security_access-Each P env req resp_cap covers (sym h),
                    (
                      λ h. write_did-IsKeyed,
                      (λ h. tester_present-Each P env req resp_cap covers, tt),
                    ),
                  ),
                ),
              ),
            ),
          ),
        )
