-- ===== src/Threads/OwnerWrites.antt =====
-- Which turn of a thread of src/threads.c changes the owner name.
use mathlib.Core.Option.{some-injective}
use vecu_uds.Base.{◌∙◌, true, sym, some, [], ◌∷◌, false, ℕ, List, Bool, ◌≡◌, refl}
use vecu_uds.Vecu
use vecu_uds.Vecu.{set_session, registered_dids, Vecu}
use vecu_uds.Uds.OwnerName.{OwnerChanged}
use vecu_uds.Threads.Process.{
  on_signal, main_thread, spawned, act_all, main, act, Action, timer, dispatch, receive, engine,
  main_goes_on, signal,
}
use vecu_uds.Threads.{
  relocking, expired, in_session, napping, timed, app_thread_main, s3_turn, rx_thread_main,
  S3Thread, dispatch_thread_main, app_turn, s3_thread_main, AppThread, s3_step, Ecu, Dispatcher,
  ticking, polling,
}
use vecu_uds.App.{Doubles}
use vecu_uds.Clock.{Timespec}
use vecu_uds.Sockets.KernelIo.{OpenAnswers, KernelIo}
use vecu_uds.Threads.Findings.{
  dispatch_turn-WritesOwner, dispatch_turn-Tracked, unchanged, found_in, WritesOwner, Tracked,
  found,
}

-- The identifiers and the owner name are as before.
abbrev SameOwner : Vecu → Vecu → Type 0
SameOwner s t = (t.dids ≡ s.dids) × (t.owner_name ≡ s.owner_name) × (t.owner_len ≡ s.owner_len)

s3_turn-SameOwner :
    (clock : Timespec) (stop : Bool) (pc : S3Thread) (s : Vecu)
    → SameOwner s (s3_turn clock stop pc s).1
unfolding s3_step set_session
s3_turn-SameOwner clock stop S3Thread.testing s = (refl, refl, refl)
s3_turn-SameOwner clock stop (polling napping) s = (refl, refl, refl)
s3_turn-SameOwner clock stop (polling in_session) s = (refl, refl, refl)
s3_turn-SameOwner clock stop (polling (timed now)) s = (refl, refl, refl)
s3_turn-SameOwner clock stop (polling expired) s = (refl, refl, refl)
s3_turn-SameOwner clock stop (polling relocking) s = (refl, refl, refl)
s3_turn-SameOwner clock stop S3Thread.ended s = (refl, refl, refl)

app_turn-SameOwner :
    (d : Doubles) (stop : Bool) (pc : AppThread) (s : Vecu) → SameOwner s (app_turn d stop pc s).1
app_turn-SameOwner d stop AppThread.testing s = (refl, refl, refl)
app_turn-SameOwner d stop ticking s = (refl, refl, refl)
app_turn-SameOwner d stop AppThread.ended s = (refl, refl, refl)

module _ (d : Doubles) where
  act-Tracked :
      (x : Action d) (e : Ecu) (session access : Bool)
      → e.state.dids ≡ registered_dids
      → Tracked e.dispatcher (session, access)
      → ((act x e).state.dids ≡ registered_dids)
        × Tracked (act x e).dispatcher (found_in x e session access)
  unfolding act s3_thread_main dispatch_thread_main rx_thread_main app_thread_main main_thread
      on_signal
  act-Tracked (timer clock) e session access boot h =
      ((s3_turn-SameOwner clock e.stop e.s3 e.state).0 ∙ boot, h)
  act-Tracked (dispatch env) e session access boot h =
      dispatch_turn-Tracked env e.stop e.io e.state e.req_q session access e.dispatcher boot h
  act-Tracked (receive answer) e session access boot h = (boot, h)
  act-Tracked engine e session access boot h =
      ((app_turn-SameOwner d e.stop e.app e.state).0 ∙ boot, h)
  act-Tracked main_goes_on e session access boot h = (boot, h)
  act-Tracked (signal to_main) e session access boot h = (boot, h)

  act_all-Tracked :
      (rest : List (Action d)) (e : Ecu) (session access : Bool)
      → e.state.dids ≡ registered_dids
      → Tracked e.dispatcher (session, access)
      → ((act_all rest e).state.dids ≡ registered_dids)
        × Tracked (act_all rest e).dispatcher (found rest e session access)
  unfolding act_all found
  act_all-Tracked [] e session access boot h = (boot, h)
  act_all-Tracked (x ∷ rest) e session access boot h =
      let (boot', h') = act-Tracked x e session access boot h in
      act_all-Tracked rest (act x e) _ _ boot' h'

  act-WritesOwner :
      (x : Action d) (e : Ecu) (session access : Bool)
      → e.state.dids ≡ registered_dids
      → Tracked e.dispatcher (session, access)
      → OwnerChanged e.state (act x e).state
      → WritesOwner e.dispatcher (session, access)
  unfolding act s3_thread_main dispatch_thread_main rx_thread_main app_thread_main main_thread
      on_signal
  act-WritesOwner (timer clock) e session access boot h =
      let (dids, name, len) = s3_turn-SameOwner clock e.stop e.s3 e.state in
      unchanged e.state (s3_turn clock e.stop e.s3 e.state).1 name len
  act-WritesOwner (dispatch env) e session access boot h =
      dispatch_turn-WritesOwner env e.stop e.io e.state e.req_q session access e.dispatcher boot h
  act-WritesOwner (receive answer) e session access boot h = unchanged e.state e.state refl refl
  act-WritesOwner engine e session access boot h =
      let (dids, name, len) = app_turn-SameOwner d e.stop e.app e.state in
      unchanged e.state (app_turn d e.stop e.app e.state).1 name len
  act-WritesOwner main_goes_on e session access boot h = unchanged e.state e.state refl refl
  act-WritesOwner (signal to_main) e session access boot h = unchanged e.state e.state refl refl

spawned-booted :
    (ok : Bool) (io : KernelIo) (clock : Timespec) (e : Ecu)
    → spawned ok io clock ≡ some e
    → (e.dispatcher ≡ Dispatcher.testing) × (e.state.dids ≡ registered_dids)
unfolding Vecu.init
spawned-booted true io clock e h = let same = some-injective _ _ h in rw (sym same) (refl, refl)
spawned-booted false io clock e h = cc

-- From the start of the program on, whatever the kernel answers and in whatever order the threads
-- take their turns and signals arrive, a turn that changes the owner name is one in which the
-- dispatcher serves a WriteDataByIdentifier request for the identifier 0xF200, and earlier sections
-- of this same request have found the ECU in a non-default session, and unlocked.
pub act-changes_owner :
    (d : Doubles) (answers : OpenAnswers) (argv : List (List ℕ)) (clock : Timespec)
    (rest : List (Action d)) (x : Action d) (start : Ecu)
    → main answers argv clock ≡ some start
    → OwnerChanged (act_all rest start).state (act x (act_all rest start)).state
    → WritesOwner (act_all rest start).dispatcher (found rest start false false)
unfolding main
act-changes_owner d answers argv clock rest x start started changed =
    let (first, boot) = spawned-booted _ _ clock start started in
    let (boot', h) = act_all-Tracked d rest start false false boot (rw first tt) in
    act-WritesOwner d x (act_all rest start) _ _ boot' h changed
