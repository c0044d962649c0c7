-- ===== src/Threads/Interleaving.antt =====
-- What holds of the shared state behind src/threads.c in whatever order the threads take their
-- turns.
use vecu_uds.Base.{[], ◌∷◌, false, true, arith, ◌≤◌, Bool, List}
use vecu_uds.Uds.Invariant
use vecu_uds.Queue.Fifo
use vecu_uds.Threads.{
  app_thread_main, rx_thread_main, dispatch_thread_main, s3_thread_main, relocking, expired,
  finished, joining, in_session, napping, closing_socket, leaving, closing_queue, reading,
  receiving, paused, timed, pushing, polling, ticking, about_to_pause, app_turn, s3_turn, rx_turn,
  S3, checking, Rx, S3Thread, AppThread, s3_step, Main, Ecu,
}
use vecu_uds.Clock.{Timespec}
use vecu_uds.Queue.{UdsQueue, shutdown}
use vecu_uds.App.{Doubles}
use vecu_uds.Sockets.{Errno, ReadAnswer}
use vecu_uds.Vecu.{Vecu, set_session}
use vecu_uds.Threads.Dispatching.{
  dispatch_turn-Serves, Serves-more, AllCarried-append, dispatch_turn-IsValid, AllCarried, Serves,
  left,
}
use vecu_uds.Threads.Process.{
  on_signal, main_thread, act_all, act, main_goes_on, engine, signal, receive, timer, dispatch,
  main_turn, Action,
}
use vecu_uds.Security.Inv.{relock-IsValid, IsSane}
use vecu_uds.Queue.Fifo.{push-Refines}
use vecu_uds.Sockets.KernelIo.{KernelIo}

-- The ECU state and the queue are well formed, every message handed to write() can be carried, and
-- what the dispatcher is at will keep it so.
pub record IsEcu (e : Ecu) : Type 0 where
  pub state : Invariant.IsValid e.state
  pub queue : Fifo.IsValid e.req_q
  pub carried : AllCarried e.transmitted
  pub dispatcher : Serves 8 e.dispatcher

s3_step-IsValid :
    (clock : Timespec) (pc : S3) (s : Vecu)
    → Invariant.IsValid s
    → Invariant.IsValid (s3_step clock pc s).1
unfolding s3_step set_session
s3_step-IsValid clock napping s v = v
s3_step-IsValid clock in_session s v = v
s3_step-IsValid clock (timed now) s v = v
s3_step-IsValid clock expired s v = ground (arith, v)
s3_step-IsValid clock relocking s v = ground (arith, v, relock-IsValid s.security v.security)

shutdown-IsValid : (q : UdsQueue) → Fifo.IsValid q → Fifo.IsValid (shutdown q)
unfolding shutdown
shutdown-IsValid q v = ground (arith, v)

s3_turn-IsValid :
    (clock : Timespec) (stop : Bool) (pc : S3Thread) (s : Vecu)
    → Invariant.IsValid s
    → Invariant.IsValid (s3_turn clock stop pc s).1
s3_turn-IsValid clock stop S3Thread.testing s v = v
s3_turn-IsValid clock stop (polling pc) s v = s3_step-IsValid clock pc s v
s3_turn-IsValid clock stop S3Thread.ended s v = v

pub rx_turn-IsValid :
    (answer : ReadAnswer) (stop : Bool) (io : KernelIo) (pc : Rx) (errno : Errno) (q : UdsQueue)
    → Fifo.IsValid q
    → Fifo.IsValid (rx_turn answer stop io pc errno q).2
rx_turn-IsValid answer stop io Rx.testing errno q v = v
rx_turn-IsValid answer stop io receiving errno q v = v
rx_turn-IsValid answer stop io reading errno q v = v
rx_turn-IsValid answer stop io (pushing bytes) errno q v = (push-Refines bytes q v).valid
rx_turn-IsValid answer stop io leaving errno q v = shutdown-IsValid q v
rx_turn-IsValid answer stop io Rx.ended errno q v = v

app_turn-IsValid :
    (d : Doubles) (stop : Bool) (pc : AppThread) (s : Vecu)
    → Invariant.IsValid s
    → Invariant.IsValid (app_turn d stop pc s).1
app_turn-IsValid d stop AppThread.testing s v = v
app_turn-IsValid d stop ticking s v = ground (arith, v)
app_turn-IsValid d stop AppThread.ended s v = v

pub main_turn-IsValid :
    (stop joined : Bool) (pc : Main) (io : KernelIo) (q : UdsQueue)
    → Fifo.IsValid q
    → Fifo.IsValid (main_turn stop joined pc io q).2
main_turn-IsValid stop joined checking io q v = v
main_turn-IsValid stop joined about_to_pause io q v = v
main_turn-IsValid stop joined paused io q v = v
main_turn-IsValid stop joined closing_queue io q v = shutdown-IsValid q v
main_turn-IsValid stop joined closing_socket io q v = v
main_turn-IsValid stop joined joining io q v = v
main_turn-IsValid stop joined finished io q v = v

left-le-8 : (b : Bool) → left b 8 ≤ 8
left-le-8 true = omega arith
left-le-8 false = omega arith

-- The clock of a dispatcher's turn is not at the end of its range.
abbrev pub IsSaneAction : {d : Doubles} → Action d → Type 0
IsSaneAction (dispatch env) = IsSane env
IsSaneAction (timer clock) = Unit {0}
IsSaneAction (receive answer) = Unit {0}
IsSaneAction engine = Unit {0}
IsSaneAction main_goes_on = Unit {0}
IsSaneAction (signal to_main) = Unit {0}

abbrev pub SaneClocks : {d : Doubles} → List (Action d) → Type 0
SaneClocks [] = Unit {0}
SaneClocks (a ∷ rest) = IsSaneAction a × SaneClocks rest

pub act-IsEcu : (d : Doubles) (a : Action d) (e : Ecu) → IsSaneAction a → IsEcu e → IsEcu (act a e)
unfolding act s3_thread_main dispatch_thread_main rx_thread_main app_thread_main main_thread
    on_signal
act-IsEcu d (timer clock) e h v = record {
  state = s3_turn-IsValid clock e.stop e.s3 e.state v.state;
  queue = v.queue;
  carried = v.carried;
  dispatcher = v.dispatcher;
}
act-IsEcu d (dispatch env) e h v =
    let kept =
      dispatch_turn-IsValid env h e.stop e.io e.state e.req_q v.state v.queue v.dispatcher in
    record {
      state = kept.0;
      queue = kept.1;
      carried = AllCarried-append e.transmitted _ v.carried kept.2;
      dispatcher =
          Serves-more 8
            (dispatch_turn-Serves env h e.stop e.io e.state e.req_q 8 (omega arith) v.state
              v.dispatcher)
            (left-le-8 _);
    }
act-IsEcu d (receive answer) e h v = record {
  state = v.state;
  queue = rx_turn-IsValid answer e.stop e.io e.rx e.errno e.req_q v.queue;
  carried = v.carried;
  dispatcher = v.dispatcher;
}
act-IsEcu d engine e h v = record {
  state = app_turn-IsValid d e.stop e.app e.state v.state;
  queue = v.queue;
  carried = v.carried;
  dispatcher = v.dispatcher;
}
act-IsEcu d main_goes_on e h v = record {
  state = v.state;
  queue = main_turn-IsValid e.stop _ e.main e.io e.req_q v.queue;
  carried = v.carried;
  dispatcher = v.dispatcher;
}
act-IsEcu d (signal to_main) e h v = record {
  state = v.state;
  queue = v.queue;
  carried = v.carried;
  dispatcher = v.dispatcher;
}

-- In whatever order the receive, dispatch, engine and S3 threads and main take their turns and
-- signals arrive, each request served in its critical sections with other threads between them, the
-- ECU state and the queue stay valid and every message handed to the transport has 1 to 4095 bytes,
-- if they did at the start and no request's clock reading is at the end of its range.
pub act_all-IsEcu :
    (d : Doubles) (rest : List (Action d)) (e : Ecu)
    → SaneClocks rest
    → IsEcu e
    → IsEcu (act_all rest e)
unfolding act_all
act_all-IsEcu d [] e h v = v
act_all-IsEcu d (a ∷ rest) e h v = act_all-IsEcu d rest (act a e) h.1 (act-IsEcu d a e h.0 v)
