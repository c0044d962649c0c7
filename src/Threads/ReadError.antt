-- ===== src/Threads/ReadError.antt =====
-- rx_thread_main of src/threads.c after an error of read().
use vecu_uds.Base.{
  Bool-cases, ◌<◌, ℕ, ◌∙◌, ◌⊎◌, zero, suc, inl, inr, [], ◌∷◌, refl, arith, ◌≤◌, ◌≡◌, false, true,
  Bool, List,
}
use vecu_uds.Threads.{
  finished, joining, closing_socket, closing_queue, paused, about_to_pause, checking, rx_turn,
  receiving, reading, dispatch_turn, leaving, Ecu, app_thread_main, pushing, dispatch_thread_main,
  s3_thread_main, Main, rx_thread_main, Rx, Dispatcher,
}
use vecu_uds.Queue.{UdsQueue, shutdown, pop_blocking}
use vecu_uds.Threads.Process.{
  main_goes_on, engine, signal, receive, dispatch, timer, on_signal, main_turn, main_thread, Action,
  act, act_all,
}
use vecu_uds.Sockets.KernelIo.{KernelIo, read_answered}
use vecu_uds.Clock.{Env}
use vecu_uds.Sockets.{other, failed, Errno, ReadAnswer}
use vecu_uds.App.{Doubles}
use vecu_uds.Vecu.{Vecu}
use vecu_uds.Threads.Wakeup.{act_all-waiting, signals, waiting}
use vecu_uds.Threads.Counts.{turns}
use vecu_uds.Uds.Sections.{section, return}

-- The receive thread is behind its loop.
abbrev pub gone : Rx → Bool
gone leaving = true
gone Rx.ended = true
gone Rx.testing = false
gone receiving = false
gone reading = false
gone (pushing bytes) = false

-- No message was pushed: a push writes a slot and moves the index behind it.
abbrev pub Untaken : UdsQueue → UdsQueue → Type 0
Untaken q r = (r.slots ≡ q.slots) × (r.tail ≡ q.tail) × (r.count ≤ q.count)

-- It stays there, and puts nothing in the queue.
rx_turn-gone :
    (answer : ReadAnswer) (stop : Bool) (io : KernelIo) (pc : Rx) (errno : Errno) (q : UdsQueue)
    → gone pc ≡ true
    → let (after, errno', r) = rx_turn answer stop io pc errno q in
      (gone after ≡ true) × Untaken q r
unfolding shutdown
rx_turn-gone answer stop io leaving errno q h = (refl, (refl, refl, omega arith))
rx_turn-gone answer stop io Rx.ended errno q h = (refl, (refl, refl, omega arith))
rx_turn-gone answer stop io Rx.testing errno q h = cc
rx_turn-gone answer stop io receiving errno q h = cc
rx_turn-gone answer stop io reading errno q h = cc
rx_turn-gone answer stop io (pushing bytes) errno q h = cc

dispatch_turn-Untaken :
    (env : Env) (stop : Bool) (io : KernelIo) (pc : Dispatcher) (s : Vecu) (q : UdsQueue)
    → Untaken q (dispatch_turn env stop io pc s q).2
unfolding pop_blocking
dispatch_turn-Untaken env stop io Dispatcher.testing s q = (refl, refl, omega arith)
dispatch_turn-Untaken env stop io Dispatcher.popping s q = ground arith
dispatch_turn-Untaken env stop io (Dispatcher.serving req (return o)) s q =
    (refl, refl, omega arith)
dispatch_turn-Untaken env stop io (Dispatcher.serving req (section f k)) s q =
    (refl, refl, omega arith)
dispatch_turn-Untaken env stop io (Dispatcher.sending bytes) s q = (refl, refl, omega arith)
dispatch_turn-Untaken env stop io Dispatcher.ended s q = (refl, refl, omega arith)

main_turn-Untaken :
    (stop joined : Bool) (pc : Main) (io : KernelIo) (q : UdsQueue)
    → Untaken q (main_turn stop joined pc io q).2
unfolding shutdown
main_turn-Untaken stop joined checking io q = (refl, refl, omega arith)
main_turn-Untaken stop joined about_to_pause io q = (refl, refl, omega arith)
main_turn-Untaken stop joined paused io q = (refl, refl, omega arith)
main_turn-Untaken stop joined closing_queue io q = (refl, refl, omega arith)
main_turn-Untaken stop joined closing_socket io q = (refl, refl, omega arith)
main_turn-Untaken stop joined joining io q = (refl, refl, omega arith)
main_turn-Untaken stop joined finished io q = (refl, refl, omega arith)

act-gone :
    (d : Doubles) (x : Action d) (e : Ecu)
    → gone e.rx ≡ true
    → (gone (act x e).rx ≡ true) × Untaken e.req_q (act x e).req_q
unfolding act s3_thread_main dispatch_thread_main rx_thread_main app_thread_main main_thread
    on_signal
act-gone d (timer clock) e h = (h, (refl, refl, omega arith))
act-gone d (dispatch env) e h =
    (h, dispatch_turn-Untaken env e.stop e.io e.dispatcher e.state e.req_q)
act-gone d (receive answer) e h = rx_turn-gone answer e.stop e.io e.rx e.errno e.req_q h
act-gone d engine e h = (h, (refl, refl, omega arith))
act-gone d main_goes_on e h = (h, main_turn-Untaken e.stop _ e.main e.io e.req_q)
act-gone d (signal to_main) e h = (h, (refl, refl, omega arith))

Untaken-trans : (q r t : UdsQueue) → Untaken q r → Untaken r t → Untaken q t
Untaken-trans q r t h k = (k.0 ∙ h.0, k.1 ∙ h.1, omega (arith, h.2, k.2))

pub act_all-gone :
    (d : Doubles) (rest : List (Action d)) (e : Ecu)
    → gone e.rx ≡ true
    → (gone (act_all rest e).rx ≡ true) × Untaken e.req_q (act_all rest e).req_q
unfolding act_all
act_all-gone d [] e h = (h, (refl, refl, omega arith))
act_all-gone d (x ∷ rest) e h =
    let one = act-gone d x e h in
    let more = act_all-gone d rest (act x e) one.0 in
    (more.0, Untaken-trans e.req_q (act x e).req_q (act_all rest (act x e)).req_q one.1 more.1)

zero_or_more : (n : ℕ) → (n ≡ 0) ⊎ (0 < n)
zero_or_more zero = inl refl
zero_or_more (suc n) = inr (omega arith)

-- main waits on until a signal comes, if it waited.
waits_on :
    (d : Doubles) (rest : List (Action d)) (e : Ecu)
    → (waiting e.main ≡ false) ⊎ ((0 < turns signals rest) ⊎ (waiting (act_all rest e).main ≡ true))
waits_on d rest e = elim (Bool-cases (waiting e.main)) [
  | inl waits ↦ elim (zero_or_more (turns signals rest)) [
    | inl none_sent ↦ inr (inr (act_all-waiting d rest e none_sent waits))
    | inr some_sent ↦ inr (inl some_sent)
  ]
  | inr other_state ↦ inl other_state
]

-- After one answer of read() with an error other than EINTR and EAGAIN, in every schedule: the
-- receive thread is behind its loop, and no message has been pushed on the queue, whose slots and
-- tail index are as they were; and if main waited at the error, it waits on, unless a signal has
-- come since.
pub read_error-deaf :
    (d : Doubles) (rest : List (Action d)) (e : Ecu)
    → e.rx ≡ reading
    → let after = act_all rest (rx_thread_main (failed other) e) in
      (gone after.rx ≡ true)
      × (after.req_q.slots ≡ e.req_q.slots)
      × (after.req_q.tail ≡ e.req_q.tail)
      × (after.req_q.count ≤ e.req_q.count)
      × ((waiting e.main ≡ false) ⊎ ((0 < turns signals rest) ⊎ (waiting after.main ≡ true)))
unfolding rx_thread_main read_answered
read_error-deaf d rest e at_read =
    let e₁ = rx_thread_main (failed other) e in
    let first : (gone e₁.rx ≡ true) × Untaken e.req_q e₁.req_q =
      simp at_read (refl, (refl, refl, omega arith)) in
    let more = act_all-gone d rest e₁ first.0 in
    let kept = Untaken-trans e.req_q e₁.req_q (act_all rest e₁).req_q first.1 more.1 in
    (more.0, kept.0, kept.1, kept.2, waits_on d rest e₁)
