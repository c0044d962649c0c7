-- ===== src/Threads/Timer.antt =====
-- The S3 timer of src/threads.c: when it takes the ECU back to the default session.
use vecu_uds.Base.{
  inr, refl, sub_u64, inl, Bool-cases, arith, ◌^◌, false, [], ◌∷◌, ◌+◌, ◌<◌, true, ltb, ◌&&◌, ◌!=◌,
  if◌then◌else◌, zero, ◌≡◌, ◌≤◌, suc, ℕ,
}
use vecu_uds.Types.Session
use vecu_uds.Types.Sid
use vecu_uds.Threads.{s3_timeout_ms, relocking, expired, in_session, timed, napping, S3, s3_step}
use vecu_uds.Clock.{Env, now_ms, Timespec}
use vecu_uds.Vecu.{mark_tester_present, Vecu, set_session}
use vecu_uds.Uds.Dispatch.{process_request}
use vecu_uds.Uds.Sessions.{tester_present}
use vecu_uds.Uds.Reply.{reply, is_extended_session}
use vecu_uds.Security.{relock, is_unlocked}
use vecu_uds.Types.{max_msg_len}

-- The S3 thread runs on from a point until it naps, with no other thread in between; a poll makes
-- at most five calls.
unfoldable pub run_on : ℕ → Timespec → S3 → Vecu → Vecu
run_on zero clock pc s = s
run_on (suc n) clock napping s = s
run_on (suc n) clock in_session s = let (pc, t) = s3_step clock in_session s in run_on n clock pc t
run_on (suc n) clock (timed now) s =
    let (pc, t) = s3_step clock (timed now) s in run_on n clock pc t
run_on (suc n) clock expired s = let (pc, t) = s3_step clock expired s in run_on n clock pc t
run_on (suc n) clock relocking s = let (pc, t) = s3_step clock relocking s in run_on n clock pc t

unfoldable pub poll : Timespec → Vecu → Vecu
poll clock s = let (pc, t) = s3_step clock napping s in run_on 4 clock pc t

now_ms-lt : (clock : Timespec) → now_ms clock < 2 ^ 64
unfolding now_ms
now_ms-lt clock = omega arith

-- The unsigned difference of the two times, in order and out of order.
no_wrap :
    (last now : ℕ)
    → last ≤ now
    → now < 2 ^ 64
    → ltb s3_timeout_ms (sub_u64 now last) ≡ ltb (last + s3_timeout_ms) now
no_wrap last now h fits = ground arith

wraps :
    (now last : ℕ)
    → now < last
    → last ≤ now + 1000
    → last < 2 ^ 64
    → ltb s3_timeout_ms (sub_u64 now last) ≡ true
wraps now last h near fits = ground arith

not_default : (s : Vecu) → is_extended_session s ≡ true → (s.session != Session.default) ≡ true
unfolding is_extended_session
not_default s h = ground arith

-- A poll at one clock reading that no other thread interrupts, with a tester-present time that is
-- not in the future, goes back to the default session and relocks the ECU if it was in another
-- session and that time is more than five seconds ago, and otherwise changes nothing.
pub poll_lem :
    (clock : Timespec) (s : Vecu)
    → s.last_tester_present_ms ≤ now_ms clock
    → poll clock s ≡ (
        if s.session != Session.default
          && ltb (s.last_tester_present_ms + s3_timeout_ms) (now_ms clock)
        then record s {
          session = Session.default;
          last_tester_present_ms = now_ms clock;
          security = relock s.security;
        }
        else s)
unfolding poll run_on s3_step set_session
poll_lem clock s past = elim (Bool-cases (s.session != Session.default)) [
  | inl away ↦
      rw (away, run_on, s3_step)
        (rw (no_wrap s.last_tester_present_ms (now_ms clock) past (now_ms-lt clock))
          (elim (Bool-cases (ltb (s.last_tester_present_ms + s3_timeout_ms) (now_ms clock))) [
            | inl late ↦ rw (late, run_on, s3_step) refl
            | inr early ↦ rw (early, run_on, s3_step) refl
          ]))
  | inr home ↦ rw (home, run_on, s3_step) refl
]

-- When a TesterPresent request is served between the S3 thread's reading of the clock and its
-- reading of the tester-present time, at a later clock reading by at most a second, the timer
-- expires: the request is answered positively, and the ECU falls back to the default session and is
-- locked, however short the silence was.
pub tester_present_expires :
    (c₁ c₂ c₃ c₄ : Timespec) (env : Env) (s : Vecu)
    → is_extended_session s ≡ true
    → now_ms c₁ < now_ms env.clock
    → now_ms env.clock ≤ now_ms c₁ + 1000
    → let (p₀, s₀) = s3_step c₁ napping s in
      let (p₁, s₁) = s3_step c₁ p₀ s₀ in
      let (o, t) = process_request env (Sid.tester_present ∷ 0x00 ∷ []) max_msg_len s₁ in
      let (p₂, s₂) = s3_step c₂ p₁ t in
      let (p₃, s₃) = s3_step c₃ p₂ s₂ in
      let (p₄, s₄) = s3_step c₄ p₃ s₃ in
      (o ≡ reply (0x7E ∷ 0x00 ∷ []))
      × (p₂ ≡ expired)
      × (s₄.session ≡ Session.default)
      × (is_unlocked 0x01 s₄.security ≡ false)
unfolding s3_step process_request tester_present is_unlocked set_session relock mark_tester_present
tester_present_expires c₁ c₂ c₃ c₄ env s ext later near =
    rw (not_default s ext, s3_step)
      (rw (wraps (now_ms c₁) (now_ms env.clock) later near (now_ms-lt env.clock), s3_step)
        (refl, refl, refl, refl))
