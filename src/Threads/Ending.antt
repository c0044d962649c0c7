-- ===== src/Threads/Ending.antt =====
-- The threads of src/threads.c on their way out, once the flag is up and the queue is closed.
use vecu_uds.Base.{[], ◌∷◌, refl, ◌&&◌, ◌≤◌, arith, true, ◌≡◌, ℕ, Bool, List, ◌-◌}
use vecu_uds.Uds.Invariant
use vecu_uds.Threads.{
  S3Thread, app_thread_main, rx_thread_main, AppThread, Dispatcher, dispatch_thread_main, Rx,
  s3_thread_main, Ecu,
}
use vecu_uds.Threads.Process.{
  main_goes_on, engine, signal, receive, dispatch, timer, on_signal, main_thread, Action, all_ended,
  act, act_all,
}
use vecu_uds.App.{Doubles}
use vecu_uds.Threads.Dispatching.{dispatch_turn-Serves, Serves-more, Serves, left}
use vecu_uds.Threads.Interleaving.{act-IsEcu, IsSaneAction, SaneClocks, IsEcu}
use vecu_uds.Threads.Turns.{
  app_turn-left, rx_turn-left, rx_turn-closed, dispatch_turn-closed, s3_turn-left, s3_left-ended,
  app_left-ended, rx_left-ended, s3_left, app_left-le, app_left, s3_left-le, rx_left-le, rx_left,
}
use vecu_uds.Threads.Stopping.{main_turn-closed, act-stop, Stops}
use vecu_uds.Threads.Counts.{spend-le, engines, timers, spend, dispatches, receives, turns}

-- The threads, with at most so many turns to their ends.
pub record Ends (r k s a : ℕ) (e : Ecu) : Type 0 where
  pub closed : e.req_q.closed ≡ true
  pub rx : rx_left e.rx ≤ r
  pub dispatcher : Serves k e.dispatcher
  pub few : k ≤ 8
  pub s3 : s3_left e.s3 ≤ s
  pub app : app_left e.app ≤ a

pub left-up :
    (stop closed : Bool) (k : ℕ) → stop ≡ true → closed ≡ true → left (stop && closed) k ≡ k - 1
left-up stop closed k up shut = rw (up, shut) refl

pub act-Ends :
    (d : Doubles) (r k s a : ℕ) (x : Action d) (e : Ecu)
    → IsSaneAction x
    → e.stop ≡ true
    → Invariant.IsValid e.state
    → Ends r k s a e
    → Ends
        (spend (receives x) r)
        (spend (dispatches x) k)
        (spend (timers x) s)
        (spend (engines x) a)
        (act x e)
unfolding act s3_thread_main dispatch_thread_main rx_thread_main app_thread_main main_thread
    on_signal
act-Ends d r k s a (timer clock) e sane up valid v = record {
  closed = v.closed;
  rx = v.rx;
  dispatcher = v.dispatcher;
  few = v.few;
  s3 = simp up (omega (arith, s3_turn-left clock e.s3 e.state, v.s3));
  app = v.app;
}
act-Ends d r k s a (dispatch env) e sane up valid v =
    let rest =
      dispatch_turn-Serves env sane e.stop e.io e.state e.req_q k v.few valid v.dispatcher in
    record {
      closed = dispatch_turn-closed env e.stop e.io e.dispatcher e.state e.req_q v.closed;
      rx = v.rx;
      dispatcher = rw (left-up e.stop e.req_q.closed k up v.closed) at rest;
      few = omega (arith, v.few);
      s3 = v.s3;
      app = v.app;
    }
act-Ends d r k s a (receive answer) e sane up valid v = record {
  closed = rx_turn-closed answer e.stop e.io e.rx e.errno e.req_q v.closed;
  rx = simp up (omega (arith, rx_turn-left answer e.io e.rx e.errno e.req_q v.closed, v.rx));
  dispatcher = v.dispatcher;
  few = v.few;
  s3 = v.s3;
  app = v.app;
}
act-Ends d r k s a engine e sane up valid v = record {
  closed = v.closed;
  rx = v.rx;
  dispatcher = v.dispatcher;
  few = v.few;
  s3 = v.s3;
  app = simp up (omega (arith, app_turn-left d e.app e.state, v.app));
}
act-Ends d r k s a main_goes_on e sane up valid v = record {
  closed = main_turn-closed e.stop _ e.main e.io e.req_q v.closed;
  rx = v.rx;
  dispatcher = v.dispatcher;
  few = v.few;
  s3 = v.s3;
  app = v.app;
}
act-Ends d r k s a (signal to_main) e sane up valid v = record {
  closed = v.closed;
  rx = v.rx;
  dispatcher = v.dispatcher;
  few = v.few;
  s3 = v.s3;
  app = v.app;
}

pub act_all-Ends :
    (d : Doubles) (r k s a : ℕ) (rest : List (Action d)) (e : Ecu)
    → SaneClocks rest
    → IsEcu e
    → e.stop ≡ true
    → Ends r k s a e
    → r ≤ turns receives rest
    → k ≤ turns dispatches rest
    → s ≤ turns timers rest
    → a ≤ turns engines rest
    → Ends 0 0 0 0 (act_all rest e)
unfolding act_all
act_all-Ends d r k s a [] e sane v up ends hr hk hs ha = record {
  closed = ends.closed;
  rx = omega (arith, ends.rx);
  dispatcher = Serves-more 0 ends.dispatcher hk;
  few = omega arith;
  s3 = omega (arith, ends.s3);
  app = omega (arith, ends.app);
}
act_all-Ends d r k s a (x ∷ rest) e sane v up ends hr hk hs ha =
    act_all-Ends d (spend (receives x) r) (spend (dispatches x) k) (spend (timers x) s)
      (spend (engines x) a) rest (act x e) sane.1 (act-IsEcu d x e sane.0 v) (act-stop d x e up)
      (act-Ends d r k s a x e sane.0 up v.state ends) (spend-le (receives x) hr)
      (spend-le (dispatches x) hk) (spend-le (timers x) hs) (spend-le (engines x) ha)

pub none_left-ended :
    (rx : Rx) {dispatcher : Dispatcher} (app : AppThread) (s3 : S3Thread)
    → rx_left rx ≡ 0
    → Serves 0 dispatcher
    → app_left app ≡ 0
    → s3_left s3 ≡ 0
    → all_ended rx dispatcher app s3 ≡ true
unfolding all_ended
none_left-ended rx app s3 hr (Serves.testing h) ha hs = absurd (omega arith)
none_left-ended rx app s3 hr (Serves.popping h) ha hs = absurd (omega arith)
none_left-ended rx app s3 hr (Serves.serving h p) ha hs = absurd (omega arith)
none_left-ended rx app s3 hr (Serves.sending h c) ha hs = absurd (omega arith)
none_left-ended rx app s3 hr Serves.ended ha hs =
    rw (rx_left-ended rx hr, app_left-ended app ha, s3_left-ended s3 hs) refl

-- At the ends of their counts.
pub Ends-all_ended : (e : Ecu) → Ends 0 0 0 0 e → all_ended e.rx e.dispatcher e.app e.s3 ≡ true
Ends-all_ended e v =
    none_left-ended e.rx e.app e.s3 (omega (arith, v.rx)) v.dispatcher (omega (arith, v.app))
      (omega (arith, v.s3))

pub still-Ends :
    (d : Doubles) (x : Action d) (e : Ecu)
    → IsSaneAction x
    → IsEcu e
    → Stops 0 e
    → Ends 0 0 0 0 e
    → Ends 0 0 0 0 (act x e)
unfolding act_all
still-Ends d x e sane v stops ends =
    act_all-Ends d 0 0 0 0 (x ∷ []) e (sane, tt) v stops.stop ends (omega arith) (omega arith)
      (omega arith) (omega arith)

pub starts-Ends : (e : Ecu) → e.req_q.closed ≡ true → IsEcu e → Ends 5 8 6 2 e
starts-Ends e closed v = record {
  closed = closed;
  rx = rx_left-le e.rx;
  dispatcher = v.dispatcher;
  few = omega arith;
  s3 = s3_left-le e.s3;
  app = app_left-le e.app;
}
