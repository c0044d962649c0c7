-- ===== src/Threads/Unlocking.antt =====
-- Which turn of a thread of src/threads.c unlocks the ECU.
use vecu_uds.Base.{
  refl, inr, ◌==◌, [], inl, length, arith, true, false, Bool-cases, some, ◌∷◌, ◌≡◌, ℕ, Bool, List,
}
use vecu_uds.Sockets.KernelIo.{KernelIo, OpenAnswers}
use vecu_uds.Threads.{
  relocking, expired, in_session, napping, timed, ticking, polling, s3_turn, app_thread_main,
  app_turn, dispatch_turn, rx_thread_main, Ecu, took, dispatch_thread_main, s3_thread_main,
  answered, s3_step, Dispatcher, S3Thread, AppThread,
}
use vecu_uds.Threads.Process.{
  main_goes_on, engine, signal, receive, dispatch, timer, on_signal, main_thread, spawned, Action,
  main, act_all, act,
}
use vecu_uds.App.{Doubles}
use vecu_uds.Uds.Sections.Each.{Each}
use vecu_uds.Uds.Sections.Keyed.{request-IsKeyed, AnswersSeed, IsKeyed}
use vecu_uds.Vecu.{set_session, Vecu}
use vecu_uds.Uds.Reply.{dropped, suppressed, reply, Outcome}
use vecu_uds.Clock.{Timespec, Env}
use vecu_uds.Queue.{pop_waits, pop_blocking, pop_refused, popped, UdsQueue, Popped}
use vecu_uds.Security.{relock, is_unlocked}
use vecu_uds.Uds.Sections.{section, return, Program}
use vecu_uds.Types.{max_msg_len}

-- Every request that is being served has keyed sections left.
abbrev pub Watched : Dispatcher → Type 0
Watched Dispatcher.testing = Unit {0}
Watched Dispatcher.popping = Unit {0}
Watched (Dispatcher.serving req p) = IsKeyed req p
Watched (Dispatcher.sending bytes) = Unit {0}
Watched Dispatcher.ended = Unit {0}

-- The dispatcher serves a key message for the seed that is pending.
abbrev pub ServesKey : Dispatcher → Vecu → Type 0
ServesKey pc s =
    (req : List ℕ) × (p : Program) × (pc ≡ Dispatcher.serving req p) × AnswersSeed req s

answered-Watched : (o : Outcome) → Watched (answered o)
answered-Watched (reply bytes) = elim (Bool-cases (length bytes == 0)) [
  | inl empty ↦ rw empty tt
  | inr full ↦ rw full tt
]
answered-Watched (suppressed bytes) = tt
answered-Watched dropped = tt

took-Watched : (env : Env) (r : Popped) → Watched (took env r)
took-Watched env (popped msg) = request-IsKeyed env msg max_msg_len
took-Watched env pop_refused = tt
took-Watched env pop_waits = tt

module _ (env : Env) (stop : Bool) (io : KernelIo) (s : Vecu) (q : UdsQueue) where
  dispatch_turn-Watched :
      (pc : Dispatcher) → Watched pc → Watched (dispatch_turn env stop io pc s q).0
  dispatch_turn-Watched Dispatcher.testing h = elim (Bool-cases stop) [
    | inl up ↦ rw up tt
    | inr down ↦ rw down tt
  ]
  dispatch_turn-Watched Dispatcher.popping h = took-Watched env (pop_blocking q).0
  dispatch_turn-Watched (Dispatcher.serving req (return o)) h = answered-Watched o
  dispatch_turn-Watched (Dispatcher.serving req (section f k)) (Each.sections needs rest) = rest s
  dispatch_turn-Watched (Dispatcher.sending bytes) h = tt
  dispatch_turn-Watched Dispatcher.ended h = tt

  dispatch_turn-ServesKey :
      (pc : Dispatcher)
      → Watched pc
      → is_unlocked 0x01 s.security ≡ false
      → is_unlocked 0x01 (dispatch_turn env stop io pc s q).1.security ≡ true
      → ServesKey pc s
  dispatch_turn-ServesKey Dispatcher.testing h locked unlocked = cc
  dispatch_turn-ServesKey Dispatcher.popping h locked unlocked = cc
  dispatch_turn-ServesKey (Dispatcher.serving req (return o)) h locked unlocked = cc
  dispatch_turn-ServesKey (Dispatcher.serving req (section f k)) (Each.sections needs rest) locked
        unlocked =
      (req, section f k, refl, needs s locked unlocked)
  dispatch_turn-ServesKey (Dispatcher.sending bytes) h locked unlocked = cc
  dispatch_turn-ServesKey Dispatcher.ended h locked unlocked = cc

-- The S3 timer only locks.
s3_turn-locked :
    (clock : Timespec) (stop : Bool) (pc : S3Thread) (s : Vecu)
    → is_unlocked 0x01 s.security ≡ false
    → is_unlocked 0x01 (s3_turn clock stop pc s).1.security ≡ false
unfolding s3_step set_session relock is_unlocked
s3_turn-locked clock stop S3Thread.testing s locked = locked
s3_turn-locked clock stop (polling napping) s locked = locked
s3_turn-locked clock stop (polling in_session) s locked = locked
s3_turn-locked clock stop (polling (timed now)) s locked = locked
s3_turn-locked clock stop (polling expired) s locked = locked
s3_turn-locked clock stop (polling relocking) s locked = refl
s3_turn-locked clock stop S3Thread.ended s locked = locked

app_turn-locked :
    (d : Doubles) (stop : Bool) (pc : AppThread) (s : Vecu)
    → is_unlocked 0x01 s.security ≡ false
    → is_unlocked 0x01 (app_turn d stop pc s).1.security ≡ false
app_turn-locked d stop AppThread.testing s locked = locked
app_turn-locked d stop ticking s locked = locked
app_turn-locked d stop AppThread.ended s locked = locked

act-Watched :
    (d : Doubles) (x : Action d) (e : Ecu) → Watched e.dispatcher → Watched (act x e).dispatcher
unfolding act s3_thread_main dispatch_thread_main rx_thread_main app_thread_main main_thread
    on_signal
act-Watched d (timer clock) e h = h
act-Watched d (dispatch env) e h =
    dispatch_turn-Watched env e.stop e.io e.state e.req_q e.dispatcher h
act-Watched d (receive answer) e h = h
act-Watched d engine e h = h
act-Watched d main_goes_on e h = h
act-Watched d (signal to_main) e h = h

act_all-Watched :
    (d : Doubles) (rest : List (Action d)) (e : Ecu)
    → Watched e.dispatcher
    → Watched (act_all rest e).dispatcher
unfolding act_all
act_all-Watched d [] e h = h
act_all-Watched d (x ∷ rest) e h = act_all-Watched d rest (act x e) (act-Watched d x e h)

act-ServesKey :
    (d : Doubles) (x : Action d) (e : Ecu)
    → Watched e.dispatcher
    → is_unlocked 0x01 e.state.security ≡ false
    → is_unlocked 0x01 (act x e).state.security ≡ true
    → ServesKey e.dispatcher e.state
unfolding act s3_thread_main dispatch_thread_main rx_thread_main app_thread_main main_thread
    on_signal
act-ServesKey d (timer clock) e h locked unlocked =
    cc (s3_turn-locked clock e.stop e.s3 e.state locked)
act-ServesKey d (dispatch env) e h locked unlocked =
    dispatch_turn-ServesKey env e.stop e.io e.state e.req_q e.dispatcher h locked unlocked
act-ServesKey d (receive answer) e h locked unlocked = cc
act-ServesKey d engine e h locked unlocked = cc (app_turn-locked d e.stop e.app e.state locked)
act-ServesKey d main_goes_on e h locked unlocked = cc
act-ServesKey d (signal to_main) e h locked unlocked = cc

spawned-testing :
    (ok : Bool) (io : KernelIo) (clock : Timespec) (e : Ecu)
    → spawned ok io clock ≡ some e
    → e.dispatcher ≡ Dispatcher.testing
spawned-testing true io clock e h = ground arith
spawned-testing false io clock e h = cc

-- From the start of the program on, whatever the kernel answers and in whatever order the threads
-- take their turns and signals arrive, a turn that unlocks a locked ECU is one in which the
-- dispatcher serves a SecurityAccess message of six bytes while a seed is pending, and the key in
-- the message is the seed that is pending at this moment, XOR the constant.
pub act-unlocks :
    (d : Doubles) (answers : OpenAnswers) (argv : List (List ℕ)) (clock : Timespec)
    (rest : List (Action d)) (x : Action d) (start : Ecu)
    → main answers argv clock ≡ some start
    → is_unlocked 0x01 (act_all rest start).state.security ≡ false
    → is_unlocked 0x01 (act x (act_all rest start)).state.security ≡ true
    → ServesKey (act_all rest start).dispatcher (act_all rest start).state
unfolding main
act-unlocks d answers argv clock rest x start started locked unlocked =
    let first = spawned-testing _ _ clock start started in
    act-ServesKey d x (act_all rest start) (act_all-Watched d rest start (rw first tt)) locked
      unlocked
