-- ===== src/Threads/Unlocked.antt =====
-- Whether the S3 timer of src/threads.c locks the ECU again.
use vecu_uds.Types.Sid
use vecu_uds.Types.Session
use vecu_uds.Base.{true, refl, [], ◌∷◌, ◌≡◌, List}
use vecu_uds.Clock.{Env, Timespec}
use vecu_uds.Threads.Timer.{run_on, poll}
use vecu_uds.Uds.Dispatch.{process_request}
use vecu_uds.Uds.Sessions.{session_control}
use vecu_uds.Vecu.{set_session, Vecu}
use vecu_uds.Threads.{s3_step}
use vecu_uds.Uds.Reply.{reply, is_extended_session}
use vecu_uds.Security.{is_unlocked}
use vecu_uds.Types.{max_msg_len}

-- Polls of the S3 thread at these clock readings.
abbrev pub polls : List Timespec → Vecu → Vecu
polls [] s = s
polls (clock ∷ rest) s = polls rest (poll clock s)

-- A poll leaves the default session alone.
poll-default : (clock : Timespec) (s : Vecu) → s.session ≡ Session.default → poll clock s ≡ s
unfolding poll run_on s3_step
poll-default clock s h = simp h refl

polls-default :
    (clocks : List Timespec) (s : Vecu) → s.session ≡ Session.default → polls clocks s ≡ s
polls-default [] s h = refl
polls-default (clock ∷ rest) s h = simp (poll-default clock s h) (polls-default rest s h)

-- A tester that unlocks the ECU and asks for the default session leaves it unlocked: both it and,
-- after any polls of the S3 timer, the request for the extended session are answered positively, and
-- the ECU is then in the extended session with the security level unlocked, without a key.
pub default_session_unlocked :
    (env₁ env₂ : Env) (clocks : List Timespec) (s : Vecu)
    → is_unlocked 0x01 s.security ≡ true
    → let (o₁, s₁) =
        process_request env₁ (Sid.diagnostic_session_control ∷ 0x01 ∷ []) max_msg_len s in
      let (o₂, s₂) =
        process_request env₂
          (Sid.diagnostic_session_control ∷ 0x03 ∷ [])
          max_msg_len
          (polls clocks s₁) in
      (o₁ ≡ reply (0x50 ∷ 0x01 ∷ 0x00 ∷ 0x32 ∷ 0x01 ∷ 0xF4 ∷ []))
      × (o₂ ≡ reply (0x50 ∷ 0x03 ∷ 0x00 ∷ 0x32 ∷ 0x01 ∷ 0xF4 ∷ []))
      × (is_extended_session s₂ ≡ true)
      × (is_unlocked 0x01 s₂.security ≡ true)
unfolding process_request session_control set_session is_extended_session is_unlocked
default_session_unlocked env₁ env₂ clocks s open_now =
    let s₁ = (process_request env₁ (Sid.diagnostic_session_control ∷ 0x01 ∷ []) max_msg_len s).1 in
    simp (polls-default clocks s₁ refl) (refl, refl, refl, open_now)
