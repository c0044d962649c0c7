-- ===== src/Threads/Lifetime.antt =====
-- main of src/main.c destroys the queue and the ECU state after it has joined the threads.
use vecu_uds.Base.{
  ◌⊎◌, false, ◌∙◌, [], some, ℕ, inr, ◌∷◌, inl, append-nil, List, true, Bool, ◌≡◌, refl, arith,
}
use vecu_uds.Threads.Process.{
  main_turn, woken, act_all, main_goes_on, engine, signal, receive, dispatch, timer, Action,
  on_signal, main_thread, act, main, spawned, all_ended,
}
use vecu_uds.Threads.{
  joining, closing_socket, paused, closing_queue, about_to_pause, checking, Main, app_thread_main,
  rx_thread_main, dispatch_thread_main, s3_thread_main, S3Thread, AppThread, Dispatcher, Rx, Ecu,
  finished,
}
use vecu_uds.Sockets.KernelIo.{KernelIo, OpenAnswers}
use vecu_uds.App.{Doubles}
use vecu_uds.Clock.{Timespec}
use vecu_uds.Queue.{UdsQueue}

all_ended-each :
    (rx : Rx) (dispatcher : Dispatcher) (app : AppThread) (s3 : S3Thread)
    → all_ended rx dispatcher app s3 ≡ true
    → (rx ≡ Rx.ended)
      × (dispatcher ≡ Dispatcher.ended)
      × (app ≡ AppThread.ended)
      × (s3 ≡ S3Thread.ended)
unfolding all_ended
all_ended-each rx dispatcher app s3 h = ground arith

-- main is at its end, and so are the threads.
record AllOver (e : Ecu) : Type 0 where
  pub main : e.main ≡ finished
  pub rx : e.rx ≡ Rx.ended
  pub dispatcher : e.dispatcher ≡ Dispatcher.ended
  pub app : e.app ≡ AppThread.ended
  pub s3 : e.s3 ≡ S3Thread.ended

-- The ECU state, the queue and the descriptor are as before.
abbrev pub Untouched : Ecu → Ecu → Type 0
Untouched e after =
    (after.main ≡ e.main)
    × (after.state ≡ e.state)
    × (after.req_q ≡ e.req_q)
    × (after.io ≡ e.io)
    × (after.transmitted ≡ e.transmitted)

act-AllOver :
    (d : Doubles) (x : Action d) (e : Ecu) → AllOver e → AllOver (act x e) × Untouched e (act x e)
unfolding act s3_thread_main dispatch_thread_main rx_thread_main app_thread_main main_thread
    on_signal
act-AllOver d (timer clock) e v = (
  record { main = v.main; rx = v.rx; dispatcher = v.dispatcher; app = v.app; s3 = simp v.s3 refl },
  (refl, simp v.s3 refl, refl, refl, refl),
)
act-AllOver d (dispatch env) e v = (
  record { main = v.main; rx = v.rx; dispatcher = simp v.dispatcher refl; app = v.app; s3 = v.s3 },
  (
    refl,
    simp v.dispatcher refl,
    simp v.dispatcher refl,
    refl,
    simp v.dispatcher (append-nil e.transmitted),
  ),
)
act-AllOver d (receive answer) e v = (
  record { main = v.main; rx = simp v.rx refl; dispatcher = v.dispatcher; app = v.app; s3 = v.s3 },
  (refl, refl, simp v.rx refl, refl, refl),
)
act-AllOver d engine e v = (
  record { main = v.main; rx = v.rx; dispatcher = v.dispatcher; app = simp v.app refl; s3 = v.s3 },
  (refl, simp v.app refl, refl, refl, refl),
)
act-AllOver d main_goes_on e v = (
  record { main = simp v.main refl; rx = v.rx; dispatcher = v.dispatcher; app = v.app; s3 = v.s3 },
  (simp v.main refl, refl, simp v.main refl, simp v.main refl, refl),
)
act-AllOver d (signal to_main) e v = (
  record { main = simp v.main refl; rx = v.rx; dispatcher = v.dispatcher; app = v.app; s3 = v.s3 },
  (simp v.main refl, refl, refl, refl, refl),
)

ended-all_ended : (e : Ecu) → AllOver e → all_ended e.rx e.dispatcher e.app e.s3 ≡ true
unfolding all_ended
ended-all_ended e v = rw (v.rx, v.dispatcher, v.app, v.s3) refl

act_all-AllOver :
    (d : Doubles) (rest : List (Action d)) (e : Ecu) → AllOver e → Untouched e (act_all rest e)
unfolding act_all
act_all-AllOver d [] e v = (refl, refl, refl, refl, refl)
act_all-AllOver d (x ∷ rest) e v =
    let (over, same) = act-AllOver d x e v in
    let (main, state, req_q, io, written) = act_all-AllOver d rest (act x e) over in
    let (main', state', req_q', io', written') = same in
    (main ∙ main', state ∙ state', req_q ∙ req_q', io ∙ io', written ∙ written')

main_turn-finished :
    (stop joined : Bool) (pc : Main) (io : KernelIo) (q : UdsQueue)
    → (main_turn stop joined pc io q).0 ≡ finished
    → (pc ≡ finished) ⊎ (joined ≡ true)
main_turn-finished true joined checking io q h = cc
main_turn-finished false joined checking io q h = cc
main_turn-finished stop joined about_to_pause io q h = cc
main_turn-finished stop joined paused io q h = cc
main_turn-finished stop joined closing_queue io q h = cc
main_turn-finished stop joined closing_socket io q h = cc
main_turn-finished stop true joining io q h = inr refl
main_turn-finished stop false joining io q h = cc
main_turn-finished stop joined finished io q h = inl refl

woken-finished : (to_main : Bool) (pc : Main) → woken to_main pc ≡ finished → pc ≡ finished
woken-finished to_main checking h = cc
woken-finished to_main about_to_pause h = cc
woken-finished true paused h = cc
woken-finished false paused h = cc
woken-finished to_main closing_queue h = cc
woken-finished to_main closing_socket h = cc
woken-finished to_main joining h = cc
woken-finished to_main finished h = refl

-- main does not come to its end before the threads.
act-ends_last :
    (d : Doubles) (x : Action d) (e : Ecu)
    → (e.main ≡ finished → AllOver e)
    → (act x e).main ≡ finished
    → AllOver (act x e)
unfolding act s3_thread_main dispatch_thread_main rx_thread_main app_thread_main main_thread
    on_signal
act-ends_last d (timer clock) e before h = (act-AllOver d (timer clock) e (before h)).0
act-ends_last d (dispatch env) e before h = (act-AllOver d (dispatch env) e (before h)).0
act-ends_last d (receive answer) e before h = (act-AllOver d (receive answer) e (before h)).0
act-ends_last d engine e before h = (act-AllOver d engine e (before h)).0
act-ends_last d main_goes_on e before h =
    elim (main_turn-finished e.stop (all_ended e.rx e.dispatcher e.app e.s3) e.main e.io e.req_q
      h) [
        | inl over ↦ (act-AllOver d main_goes_on e (before over)).0
        | inr joined ↦
            let (rx, dispatcher, app, s3) = all_ended-each e.rx e.dispatcher e.app e.s3 joined in
            record { main = h; rx = rx; dispatcher = dispatcher; app = app; s3 = s3 }
      ]
act-ends_last d (signal to_main) e before h =
    (act-AllOver d (signal to_main) e (before (woken-finished to_main e.main h))).0

act_all-ends_last :
    (d : Doubles) (rest : List (Action d)) (e : Ecu)
    → (e.main ≡ finished → AllOver e)
    → (act_all rest e).main ≡ finished
    → AllOver (act_all rest e)
unfolding act_all
act_all-ends_last d [] e before h = before h
act_all-ends_last d (x ∷ rest) e before h =
    act_all-ends_last d rest (act x e) (act-ends_last d x e before) h

spawned-checking :
    (ok : Bool) (io : KernelIo) (clock : Timespec) (e : Ecu)
    → spawned ok io clock ≡ some e
    → e.main ≡ checking
spawned-checking true io clock e h = ground arith
spawned-checking false io clock e h = cc

-- From the start of the program on, in whatever order the threads take their turns and signals
-- arrive: when main has come to its end, where it destroys the queue and the ECU state, all four
-- threads have ended, and whatever comes after leaves the ECU state, the queue, the descriptor and
-- what was written as they are.
pub main-ends_last :
    (d : Doubles) (answers : OpenAnswers) (argv : List (List ℕ)) (clock : Timespec)
    (rest more : List (Action d)) (start : Ecu)
    → main answers argv clock ≡ some start
    → let after = act_all rest start in
      after.main ≡ finished
      → (all_ended after.rx after.dispatcher after.app after.s3 ≡ true)
        × Untouched after (act_all more after)
unfolding main
main-ends_last d answers argv clock rest more start started h =
    let first = spawned-checking _ _ clock start started in
    let over = act_all-ends_last d rest start (λ at_end. cc) h in
    (ended-all_ended (act_all rest start) over, act_all-AllOver d more (act_all rest start) over)
