-- ===== src/Threads.antt =====
-- The threads of src/threads.c over the shared ECU state, the socket and the request queue. A turn
-- of a thread is what it does between two points where another may run: a test of the stop flag, a
-- call of the kernel or of the queue, or one section under a lock of the ECU state.
use vecu_uds.Types.Session
use vecu_uds.Base.{
  [], some, ◌++◌, none, sub_u64, ltb, ◌==◌, ◌!=◌, length, if◌then◌else◌, Bool, ℕ, Option, List,
}
use vecu_uds.Sockets.{other, eintr, no_error, eagain, Errno, ReadAnswer}
use vecu_uds.Queue.{
  pop_refused, pop_waits, shutdown, push_refused, UdsQueue, push, popped, pop_blocking, push_waits,
  pushed, Popped, Pushed,
}
use vecu_uds.Clock.{now_ms, Env, Timespec}
use vecu_uds.Uds.Sections.{section, return, Program}
use vecu_uds.Uds.Reply.{dropped, suppressed, reply, Outcome}
use vecu_uds.App.{app_tick, Doubles}
use vecu_uds.Sockets.KernelIo.{
  refused, interrupted, isotp_kio_send, read_answered, KernelIo, message, Received,
}
use vecu_uds.Vecu.{get_last_tester_present, get_session, set_session, Vecu}
use vecu_uds.Types.{max_msg_len}
use vecu_uds.Security.{relock}
use vecu_uds.Uds.Sections.Request.{request_program}
pub mod Process
pub mod Dispatching
pub mod Interleaving
pub mod Turns
pub mod Counts
pub mod Stopping
pub mod Ending
pub mod Shutdown
pub mod Wakeup
pub mod ReadError
pub mod Timer
pub mod Unlocked
pub mod Unlocking
pub mod Race
pub mod Service
pub mod Sequential
pub mod Arrivals
pub mod InOrder
pub mod Lifetime
pub mod Findings
pub mod OwnerWrites
mod Fixtures
mod Examples
mod AccessExamples

-- S3_TIMEOUT_MS
abbrev pub s3_timeout_ms : ℕ
s3_timeout_ms = 5000

-- Where `s3_thread_main` stands: before it reads the session, before it reads the clock, with the
-- reading before it reads the tester-present time, and before each of its two writes.
pub data S3 : Type 0 where
  napping in_session : S3
  timed : ℕ → S3
  expired relocking : S3

-- s3_thread_main, up to its next call
unfoldable pub s3_step : Timespec → S3 → Vecu → S3 × Vecu
s3_step clock napping s = (if get_session s != Session.default then in_session else napping, s)
s3_step clock in_session s = (timed (now_ms clock), s)
s3_step clock (timed now) s =
    (if ltb s3_timeout_ms (sub_u64 now (get_last_tester_present s)) then expired else napping, s)
s3_step clock expired s = (relocking, set_session clock Session.default s)
s3_step clock relocking s = (napping, record s { security = relock s.security })

-- The same thread with the test of the flag in its loop.
pub data S3Thread : Type 0 where
  testing : S3Thread
  polling : S3 → S3Thread
  ended : S3Thread

abbrev pub looping : S3 → S3Thread
looping napping = S3Thread.testing
looping in_session = polling in_session
looping (timed now) = polling (timed now)
looping expired = polling expired
looping relocking = polling relocking

-- rx_thread_main: before the test of the flag, the call of isotp_kio_recv, the answer of read(),
-- the push of a message, and the shutdown of the queue.
pub data Rx : Type 0 where
  testing receiving reading : Rx
  pushing : List ℕ → Rx
  leaving ended : Rx

-- dispatch_thread_main: before the test of the flag, the pop, the next section of the request, and
-- isotp_kio_send.
pub data Dispatcher : Type 0 where
  testing popping : Dispatcher
  serving : List ℕ → Program → Dispatcher
  sending : List ℕ → Dispatcher
  ended : Dispatcher

-- app_thread_main
pub data AppThread : Type 0 where
  testing ticking ended : AppThread

-- main, from its wait for a signal on
pub data Main : Type 0 where
  checking about_to_pause paused closing_queue closing_socket joining finished : Main

-- `thread_ctx_t` with where the threads stand, the receive thread's errno, and what isotp_kio_send
-- has handed to write()
pub record Ecu : Type 0 where
  pub main : Main
  pub rx : Rx
  pub errno : Errno
  pub dispatcher : Dispatcher
  pub app : AppThread
  pub s3 : S3Thread
  pub stop : Bool
  pub io : KernelIo
  pub state : Vecu
  pub req_q : UdsQueue
  pub transmitted : List (List ℕ)

-- s3_thread_main, over the flag and the ECU state
abbrev pub s3_turn : Timespec → Bool → S3Thread → Vecu → S3Thread × Vecu
s3_turn clock stop S3Thread.testing s = (if stop then S3Thread.ended else polling napping, s)
s3_turn clock stop (polling pc) s = let (after, t) = s3_step clock pc s in (looping after, t)
s3_turn clock stop S3Thread.ended s = (S3Thread.ended, s)

unfoldable pub s3_thread_main : Timespec → Ecu → Ecu
s3_thread_main clock e =
    let (pc, s) = s3_turn clock e.stop e.s3 e.state in record e { s3 = pc; state = s }

-- dispatch_thread_main: what follows the return of uds_process_request
abbrev pub answered : Outcome → Dispatcher
answered (reply bytes) = if length bytes == 0 then Dispatcher.testing else sending bytes
answered (suppressed bytes) = Dispatcher.testing
answered dropped = Dispatcher.testing

-- The clock readings and random bytes that the request will meet are given when it is popped.
abbrev pub took : Env → Popped → Dispatcher
took env pop_waits = popping
took env pop_refused = Dispatcher.ended
took env (popped msg) = serving msg (request_program env msg max_msg_len)

-- Over the flag, the descriptor, the ECU state and the queue; the last part is what is written.
abbrev pub dispatch_turn :
    Env
    → Bool
    → KernelIo
    → Dispatcher
    → Vecu
    → UdsQueue
    → Dispatcher × Vecu × UdsQueue × List (List ℕ)
dispatch_turn env stop io Dispatcher.testing s q =
    (if stop then Dispatcher.ended else popping, s, q, [])
dispatch_turn env stop io popping s q =
    let (r, after) = pop_blocking q in (took env r, s, after, [])
dispatch_turn env stop io (serving req (return o)) s q = (answered o, s, q, [])
dispatch_turn env stop io (serving req (section f k)) s q = (serving req (k s), f s, q, [])
dispatch_turn env stop io (sending bytes) s q =
    let (ok, out) = isotp_kio_send none bytes io in (Dispatcher.testing, s, q, out)
dispatch_turn env stop io Dispatcher.ended s q = (Dispatcher.ended, s, q, [])

unfoldable pub dispatch_thread_main : Env → Ecu → Ecu
dispatch_thread_main env e =
    let (pc, s, q, out) = dispatch_turn env e.stop e.io e.dispatcher e.state e.req_q in
    record e { dispatcher = pc; state = s; req_q = q; transmitted = e.transmitted ++ out }

-- rx_thread_main: what follows isotp_kio_recv and uds_queue_push
abbrev pub after_error : Errno → Rx
after_error eagain = Rx.testing
after_error no_error = leaving
after_error eintr = leaving
after_error other = leaving

abbrev pub received : Received → Errno → Rx
received interrupted errno = Rx.testing
received refused errno = after_error errno
received (message bytes) errno = if length bytes == 0 then Rx.testing else pushing bytes

abbrev pub after_push : Pushed → List ℕ → Rx
after_push pushed bytes = Rx.testing
after_push push_waits bytes = pushing bytes
after_push push_refused bytes = leaving

-- isotp_kio_recv tests the descriptor, then waits in read().
abbrev pub rx_called : Option ℕ → Errno → Rx
rx_called none errno = received refused errno
rx_called (some s) errno = reading

-- Over the flag, the descriptor, errno and the queue.
abbrev pub rx_turn : ReadAnswer → Bool → KernelIo → Rx → Errno → UdsQueue → Rx × Errno × UdsQueue
rx_turn answer stop io Rx.testing errno q = (if stop then leaving else receiving, errno, q)
rx_turn answer stop io receiving errno q = (rx_called io.sock errno, errno, q)
rx_turn answer stop io reading errno q =
    let (r, after) = read_answered answer errno in (received r after, after, q)
rx_turn answer stop io (pushing bytes) errno q =
    let (r, after) = push bytes q in (after_push r bytes, errno, after)
rx_turn answer stop io leaving errno q = (Rx.ended, errno, shutdown q)
rx_turn answer stop io Rx.ended errno q = (Rx.ended, errno, q)

unfoldable pub rx_thread_main : ReadAnswer → Ecu → Ecu
rx_thread_main answer e =
    let (pc, errno, q) = rx_turn answer e.stop e.io e.rx e.errno e.req_q in
    record e { rx = pc; errno = errno; req_q = q }

-- app_thread_main, over the flag and the ECU state
abbrev pub app_turn : Doubles → Bool → AppThread → Vecu → AppThread × Vecu
app_turn d stop AppThread.testing s = (if stop then AppThread.ended else ticking, s)
app_turn d stop ticking s = (AppThread.testing, record s { app = app_tick d s.app })
app_turn d stop AppThread.ended s = (AppThread.ended, s)

unfoldable pub app_thread_main : Doubles → Ecu → Ecu
app_thread_main d e =
    let (pc, s) = app_turn d e.stop e.app e.state in record e { app = pc; state = s }
