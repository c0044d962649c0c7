-- ===== src/Threads/AccessExamples.antt =====
-- The S3 timer and SecurityAccess of src/threads.c and src/security.c on the state that vecu_init
-- builds.
use vecu_uds.Vecu
use vecu_uds.Security
use vecu_uds.Types.Session
use vecu_uds.Types.Sid
use vecu_uds.Sockets.{eagain, failed, got}
use vecu_uds.Sockets.KernelIo.{read_answered}
use vecu_uds.Base.{
  inr, false, replicate, ltb, ◌++◌, ◌&&◌, ◌!=◌, [], ◌+◌, refl, ◌≤◌, ◌∷◌, arith, if◌then◌else◌, true,
  ℕ, ◌<◌, ◌≡◌, List,
}
use vecu_uds.Threads.{
  s3_timeout_ms, expired, rx_thread_main, dispatch_thread_main, napping, s3_step,
}
use vecu_uds.Threads.Process.{dispatch, receive, Action, act, act_all}
use vecu_uds.Security.{send_key, request_seed, relock, is_unlocked}
use vecu_uds.Clock.{Timespec, now_ms}
use vecu_uds.Uds.Sections.{run, refuse_if, advance}
use vecu_uds.Uds.Reply.{reply, is_extended_session}
use vecu_uds.Threads.Unlocking.{act-unlocks, ServesKey}
use vecu_uds.Vecu.{call_write, write_owner, read_owner, set_session, registered_dids, Vecu}
use vecu_uds.Uds.Dispatch.{process_request}
use vecu_uds.Threads.Timer.{poll_lem, tester_present_expires, poll}
use vecu_uds.Threads.Fixtures.{main-ecu, granted, still, env, in_extended, ecu, at}
use vecu_uds.Uds.Sections.Request.{scan_program, request_program}
use vecu_uds.Threads.Race.{write_did_races, write_request}
use vecu_uds.Types.{max_msg_len}
use vecu_uds.Threads.Unlocked.{default_session_unlocked, polls}
use vecu_uds.Queue.{queue_init, pop_blocking, push}
use vecu_uds.Uds.Sections.Simple.{session_control_program}
use vecu_uds.Uds.Sections.Keys.{key_program, seed_program, security_access_program}
use vecu_uds.Uds.Identifiers.{payload_cap}
use vecu_uds.Uds.Sections.Data.{write_did_program}
use vecu_uds.Threads.Findings.{found, WritesOwner}
use vecu_uds.Did.{lookup}
use vecu_uds.Threads.OwnerWrites.{act-changes_owner}

abbrev unlocked : Vecu
unlocked = record in_extended { security = record in_extended.security { unlocked_level = 1 } }

unlocked_now : is_unlocked 0x01 unlocked.security ≡ true
unfolding is_unlocked
unlocked_now = refl

default_session_unlocked_example :
    let (o₁, s₁) =
      process_request env (Sid.diagnostic_session_control ∷ 0x01 ∷ []) max_msg_len unlocked in
    let (o₂, s₂) =
      process_request env
        (Sid.diagnostic_session_control ∷ 0x03 ∷ [])
        max_msg_len
        (polls (at 60 ∷ at 3600 ∷ []) s₁) in
    (o₁ ≡ reply (0x50 ∷ 0x01 ∷ 0x00 ∷ 0x32 ∷ 0x01 ∷ 0xF4 ∷ []))
    × (o₂ ≡ reply (0x50 ∷ 0x03 ∷ 0x00 ∷ 0x32 ∷ 0x01 ∷ 0xF4 ∷ []))
    × (is_extended_session s₂ ≡ true)
    × (is_unlocked 0x01 s₂.security ≡ true)
default_session_unlocked_example =
    default_session_unlocked env env (at 60 ∷ at 3600 ∷ []) unlocked unlocked_now

past : in_extended.last_tester_present_ms ≤ now_ms (at 30)
unfolding now_ms Vecu.init
past = omega arith

poll_lem_example : poll (at 30) in_extended ≡ (
    if in_extended.session != Session.default
      && ltb (in_extended.last_tester_present_ms + s3_timeout_ms) (now_ms (at 30))
    then record in_extended {
      session = Session.default;
      last_tester_present_ms = now_ms (at 30);
      security = relock in_extended.security;
    }
    else in_extended)
poll_lem_example = poll_lem (at 30) in_extended past

abbrev just_before : Timespec
just_before = record { tv_sec = 19; tv_nsec = 999000000 }

extended_now : is_extended_session in_extended ≡ true
unfolding is_extended_session
extended_now = refl

later : now_ms just_before < now_ms (at 20)
unfolding now_ms
later = omega arith

near : now_ms (at 20) ≤ now_ms just_before + 1000
unfolding now_ms
near = omega arith

tester_present_expires_example :
    let (p₀, s₀) = s3_step just_before napping in_extended in
    let (p₁, s₁) = s3_step just_before p₀ s₀ in
    let (o, t) = process_request env (Sid.tester_present ∷ 0x00 ∷ []) max_msg_len s₁ in
    let (p₂, s₂) = s3_step (at 20) p₁ t in
    let (p₃, s₃) = s3_step (at 20) p₂ s₂ in
    let (p₄, s₄) = s3_step (at 20) p₃ s₃ in
    (o ≡ reply (0x7E ∷ 0x00 ∷ []))
    × (p₂ ≡ expired)
    × (s₄.session ≡ Session.default)
    × (is_unlocked 0x01 s₄.security ≡ false)
tester_present_expires_example =
    tester_present_expires just_before (at 20) (at 20) (at 20) env in_extended extended_now later
      near

-- A request is read and queued, and the dispatcher takes so many turns.
abbrev served : List ℕ → ℕ → List (Action still)
served bytes n =
    receive (failed eagain)
    ∷ receive (failed eagain)
    ∷ receive (got bytes)
    ∷ receive (failed eagain)
    ∷ replicate n (dispatch env)

-- The extended session, a seed, and the key up to where it is compared.
abbrev up_to_key : List (Action still)
up_to_key =
    served (Sid.diagnostic_session_control ∷ 0x03 ∷ []) 5
    ++ served (Sid.security_access ∷ 0x01 ∷ []) 6
    ++ served (Sid.security_access ∷ 0x02 ∷ 0xCC ∷ 0x99 ∷ 0xE8 ∷ 0x97 ∷ []) 3

still_locked : is_unlocked 0x01 (act_all up_to_key ecu).state.security ≡ false
unfolding act_all act dispatch_thread_main rx_thread_main read_answered push pop_blocking queue_init
    request_program scan_program session_control_program security_access_program seed_program
    key_program refuse_if set_session Vecu.init is_unlocked request_seed send_key
    is_extended_session now_ms Security.init
still_locked = refl

then_unlocked :
    is_unlocked 0x01 (act {d = still} (dispatch env) (act_all up_to_key ecu)).state.security ≡ true
unfolding act_all act dispatch_thread_main rx_thread_main read_answered push pop_blocking queue_init
    request_program scan_program session_control_program security_access_program seed_program
    key_program refuse_if set_session Vecu.init is_unlocked request_seed send_key
    is_extended_session now_ms Security.init
then_unlocked = refl

act-unlocks_example : ServesKey (act_all up_to_key ecu).dispatcher (act_all up_to_key ecu).state
act-unlocks_example =
    act-unlocks still granted [] (at 20) up_to_key (dispatch env) ecu main-ecu still_locked
      then_unlocked

boot_dids : unlocked.dids ≡ registered_dids
unfolding Vecu.init
boot_dids = refl

unlocked_extended : is_extended_session unlocked ≡ true
unfolding is_extended_session
unlocked_extended = refl

write_did_races_example :
    let (p₁, s₁) = advance (request_program env (write_request (0x41 ∷ [])) max_msg_len) unlocked in
    let (p₂, s₂) = advance p₁ s₁ in
    let (p₃, s₃) = advance p₂ s₂ in
    let (pc, s₄) = s3_step (at 20) expired s₃ in
    let (napped, s₅) = s3_step (at 20) pc s₄ in
    let (o, t) = run p₃ s₅ in
    (s₅.session ≡ Session.default)
    × (is_unlocked 0x01 s₅.security ≡ false)
    × (o ≡ reply (0x6E ∷ 0xF2 ∷ 0x00 ∷ []))
    × (read_owner payload_cap t ≡ 0x41 ∷ [])
write_did_races_example =
    write_did_races (at 20) (at 20) env (0x41 ∷ []) unlocked boot_dids unlocked_extended
      unlocked_now (omega arith) (omega arith)

-- The key is accepted, and a new owner name is let through up to the write.
abbrev up_to_write : List (Action still)
up_to_write =
    up_to_key
    ++ replicate 3 (dispatch env)
    ++ served (Sid.write_data_by_identifier ∷ 0xF2 ∷ 0x00 ∷ 0x41 ∷ []) 5

old_name : (act_all up_to_write ecu).state.owner_len ≡ 9
unfolding act_all act dispatch_thread_main rx_thread_main read_answered push pop_blocking queue_init
    request_program scan_program session_control_program security_access_program seed_program
    key_program refuse_if set_session Vecu.init is_unlocked request_seed send_key
    is_extended_session now_ms Security.init write_did_program lookup
old_name = refl

new_name : (act {d = still} (dispatch env) (act_all up_to_write ecu)).state.owner_len ≡ 1
unfolding act_all act dispatch_thread_main rx_thread_main read_answered push pop_blocking queue_init
    request_program scan_program session_control_program security_access_program seed_program
    key_program refuse_if set_session Vecu.init is_unlocked request_seed send_key
    is_extended_session now_ms Security.init write_did_program lookup registered_dids write_owner
    call_write
new_name = refl

act-changes_owner_example :
    WritesOwner (act_all up_to_write ecu).dispatcher (found up_to_write ecu false false)
act-changes_owner_example =
    act-changes_owner still granted [] (at 20) up_to_write (dispatch env) ecu main-ecu
      (inr (omega (arith, old_name, new_name)))
