-- ===== src/Threads/Process.antt =====
-- src/main.c: the signal handler, main's start and its end, and the actions of the whole process.
use vecu_uds.Base.{
  get_or, length, ltb, ℕ, some, false, [], none, Option, ◌∷◌, if◌then◌else◌, true, Bool, List,
}
use vecu_uds.Vecu
use vecu_uds.Threads.{
  finished, joining, closing_socket, app_thread_main, paused, S3Thread, rx_thread_main,
  about_to_pause, checking, dispatch_thread_main, AppThread, closing_queue, s3_thread_main,
  Dispatcher, Main, Rx, Ecu,
}
use vecu_uds.App.{Doubles}
use vecu_uds.Clock.{Env, Timespec}
use vecu_uds.Sockets.KernelIo.{shut, isotp_kio_open, OpenAnswers, isotp_kio_close, KernelIo}
use vecu_uds.Sockets.{no_error, ReadAnswer}
use vecu_uds.Queue.{UdsQueue, queue_init, shutdown}

-- Whether pthread_join of the four threads returns.
unfoldable pub all_ended : Rx → Dispatcher → AppThread → S3Thread → Bool
all_ended Rx.ended Dispatcher.ended AppThread.ended S3Thread.ended = true
all_ended rx dispatcher app s3 = false

-- main over the flag, whether the threads have ended, the descriptor and the queue
abbrev pub main_turn : Bool → Bool → Main → KernelIo → UdsQueue → Main × KernelIo × UdsQueue
main_turn stop joined checking io q = (if stop then closing_queue else about_to_pause, io, q)
main_turn stop joined about_to_pause io q = (paused, io, q)
main_turn stop joined paused io q = (paused, io, q)
main_turn stop joined closing_queue io q = (closing_socket, io, shutdown q)
main_turn stop joined closing_socket io q = (joining, (isotp_kio_close io).0, q)
main_turn stop joined joining io q = (if joined then finished else joining, io, q)
main_turn stop joined finished io q = (finished, io, q)

unfoldable pub main_thread : Ecu → Ecu
main_thread e =
    let joined = all_ended e.rx e.dispatcher e.app e.s3 in
    let (pc, io, q) = main_turn e.stop joined e.main e.io e.req_q in
    record e { main = pc; io = io; req_q = q }

-- on_signal; pause() returns if the signal is delivered to main's thread while it is in it.
abbrev pub woken : Bool → Main → Main
woken to_main checking = checking
woken to_main about_to_pause = about_to_pause
woken to_main paused = if to_main then checking else paused
woken to_main closing_queue = closing_queue
woken to_main closing_socket = closing_socket
woken to_main joining = joining
woken to_main finished = finished

unfoldable pub on_signal : Bool → Ecu → Ecu
on_signal to_main e = record e { main = woken to_main e.main; stop = true }

-- main, up to its wait: `none` is EXIT_FAILURE
abbrev pub spawned : Bool → KernelIo → Timespec → Option Ecu
spawned false io clock = none
spawned true io clock = some (record {
  main = checking;
  rx = Rx.testing;
  errno = no_error;
  dispatcher = Dispatcher.testing;
  app = AppThread.testing;
  s3 = S3Thread.testing;
  stop = false;
  io = io;
  state = Vecu.init clock;
  req_q = queue_init;
  transmitted = [];
})

-- The name of the interface in ASCII: the first argument, or vcan0
abbrev pub interface_name : List (List ℕ) → List ℕ
interface_name argv =
    if ltb 1 (length argv) then get_or argv 1 [] else 0x76 ∷ 0x63 ∷ 0x61 ∷ 0x6E ∷ 0x30 ∷ []

unfoldable pub main : OpenAnswers → List (List ℕ) → Timespec → Option Ecu
main answers argv clock =
    let (ok, io, calls) = isotp_kio_open answers (some (interface_name argv)) 0x7E0 0x7E8 shut in
    spawned ok io clock

-- A turn of a thread, or a signal that is delivered to main's thread or to another.
pub data Action (d : Doubles) : Type 0 where
  timer : Timespec → Action d
  dispatch : Env → Action d
  receive : ReadAnswer → Action d
  engine : Action d
  main_goes_on : Action d
  signal : Bool → Action d

unfoldable pub act : {d : Doubles} → Action d → Ecu → Ecu
act (timer clock) e = s3_thread_main clock e
act (dispatch env) e = dispatch_thread_main env e
act (receive answer) e = rx_thread_main answer e
act {d = d} engine e = app_thread_main d e
act main_goes_on e = main_thread e
act (signal to_main) e = on_signal to_main e

unfoldable pub act_all : {d : Doubles} → List (Action d) → Ecu → Ecu
act_all [] e = e
act_all (a ∷ rest) e = act_all rest (act a e)
