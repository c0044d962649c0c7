-- ===== src/Threads/Turns.antt =====
-- What a turn of a thread of src/threads.c leaves to do, once the stop flag is up.
use vecu_uds.Base.{refl, none, ◌-◌, some, true, arith, ◌≤◌, ◌≡◌, Bool, Option, ℕ}
use vecu_uds.Queue.{UdsQueue, shutdown, push, pop_blocking}
use vecu_uds.Sockets.{other, eagain, eintr, no_error, ReadAnswer, Errno}
use vecu_uds.Threads.{
  napping, in_session, dispatch_turn, rx_turn, expired, receiving, reading, relocking, Dispatcher,
  timed, leaving, app_turn, s3_turn, polling, ticking, rx_called, received, pushing, after_error,
  S3Thread, Rx, AppThread, s3_step,
}
use vecu_uds.Sockets.KernelIo.{read_answered, message, KernelIo, Received}
use vecu_uds.App.{Doubles}
use vecu_uds.Clock.{Timespec, Env}
use vecu_uds.Vecu.{Vecu}
use vecu_uds.Uds.Sections.{section, return}

-- How many turns a thread takes at most to end.
abbrev pub rx_left : Rx → ℕ
rx_left Rx.ended = 0
rx_left leaving = 1
rx_left Rx.testing = 2
rx_left (pushing bytes) = 3
rx_left reading = 4
rx_left receiving = 5

abbrev pub s3_left : S3Thread → ℕ
s3_left S3Thread.ended = 0
s3_left S3Thread.testing = 1
s3_left (polling relocking) = 2
s3_left (polling expired) = 3
s3_left (polling (timed now)) = 4
s3_left (polling in_session) = 5
s3_left (polling napping) = 6

abbrev pub app_left : AppThread → ℕ
app_left AppThread.ended = 0
app_left AppThread.testing = 1
app_left ticking = 2

pub s3_turn-left :
    (clock : Timespec) (pc : S3Thread) (s : Vecu)
    → s3_left (s3_turn clock true pc s).0 ≤ s3_left pc - 1
unfolding s3_step
s3_turn-left clock S3Thread.testing s = ground arith
s3_turn-left clock (polling napping) s = ground arith
s3_turn-left clock (polling in_session) s = ground arith
s3_turn-left clock (polling (timed now)) s = ground arith
s3_turn-left clock (polling expired) s = ground arith
s3_turn-left clock (polling relocking) s = ground arith
s3_turn-left clock S3Thread.ended s = ground arith

pub app_turn-left :
    (d : Doubles) (pc : AppThread) (s : Vecu) → app_left (app_turn d true pc s).0 ≤ app_left pc - 1
app_turn-left d AppThread.testing s = ground arith
app_turn-left d ticking s = ground arith
app_turn-left d AppThread.ended s = ground arith

after_error-left : (errno : Errno) → rx_left (after_error errno) ≤ 2
after_error-left no_error = ground arith
after_error-left eintr = ground arith
after_error-left eagain = ground arith
after_error-left other = ground arith

received-left : (r : Received) (errno : Errno) → rx_left (received r errno) ≤ 3
received-left (message bytes) errno = ground arith
received-left Received.interrupted errno = ground arith
received-left Received.refused errno = omega (arith, after_error-left errno)

rx_called-left : (sock : Option ℕ) (errno : Errno) → rx_left (rx_called sock errno) ≤ 4
rx_called-left none errno = omega (arith, after_error-left errno)
rx_called-left (some s) errno = ground arith

pub rx_turn-left :
    (answer : ReadAnswer) (io : KernelIo) (pc : Rx) (errno : Errno) (q : UdsQueue)
    → q.closed ≡ true
    → rx_left (rx_turn answer true io pc errno q).0 ≤ rx_left pc - 1
unfolding push
rx_turn-left answer io Rx.testing errno q c = ground arith
rx_turn-left answer io receiving errno q c = rx_called-left io.sock errno
rx_turn-left answer io reading errno q c =
    received-left (read_answered answer errno).0 (read_answered answer errno).1
rx_turn-left answer io (pushing bytes) errno q c = ground arith
rx_turn-left answer io leaving errno q c = ground arith
rx_turn-left answer io Rx.ended errno q c = ground arith

-- Nothing opens the queue again.
pub rx_turn-closed :
    (answer : ReadAnswer) (stop : Bool) (io : KernelIo) (pc : Rx) (errno : Errno) (q : UdsQueue)
    → q.closed ≡ true
    → (rx_turn answer stop io pc errno q).2.closed ≡ true
unfolding push shutdown
rx_turn-closed answer stop io Rx.testing errno q c = c
rx_turn-closed answer stop io receiving errno q c = c
rx_turn-closed answer stop io reading errno q c = c
rx_turn-closed answer stop io (pushing bytes) errno q c = ground arith
rx_turn-closed answer stop io leaving errno q c = refl
rx_turn-closed answer stop io Rx.ended errno q c = c

pub dispatch_turn-closed :
    (env : Env) (stop : Bool) (io : KernelIo) (pc : Dispatcher) (s : Vecu) (q : UdsQueue)
    → q.closed ≡ true
    → (dispatch_turn env stop io pc s q).2.closed ≡ true
unfolding pop_blocking
dispatch_turn-closed env stop io Dispatcher.testing s q c = c
dispatch_turn-closed env stop io Dispatcher.popping s q c = ground arith
dispatch_turn-closed env stop io (Dispatcher.serving req (return o)) s q c = c
dispatch_turn-closed env stop io (Dispatcher.serving req (section f k)) s q c = c
dispatch_turn-closed env stop io (Dispatcher.sending bytes) s q c = c
dispatch_turn-closed env stop io Dispatcher.ended s q c = c

pub rx_left-ended : (rx : Rx) → rx_left rx ≡ 0 → rx ≡ Rx.ended
rx_left-ended Rx.ended h = refl
rx_left-ended leaving h = absurd (omega arith)
rx_left-ended Rx.testing h = absurd (omega arith)
rx_left-ended (pushing bytes) h = absurd (omega arith)
rx_left-ended reading h = absurd (omega arith)
rx_left-ended receiving h = absurd (omega arith)

pub app_left-ended : (app : AppThread) → app_left app ≡ 0 → app ≡ AppThread.ended
app_left-ended AppThread.ended h = refl
app_left-ended AppThread.testing h = absurd (omega arith)
app_left-ended ticking h = absurd (omega arith)

pub s3_left-ended : (s3 : S3Thread) → s3_left s3 ≡ 0 → s3 ≡ S3Thread.ended
s3_left-ended S3Thread.ended h = refl
s3_left-ended S3Thread.testing h = absurd (omega arith)
s3_left-ended (polling napping) h = absurd (omega arith)
s3_left-ended (polling in_session) h = absurd (omega arith)
s3_left-ended (polling (timed now)) h = absurd (omega arith)
s3_left-ended (polling expired) h = absurd (omega arith)
s3_left-ended (polling relocking) h = absurd (omega arith)

pub rx_left-le : (rx : Rx) → rx_left rx ≤ 5
rx_left-le Rx.ended = omega arith
rx_left-le leaving = omega arith
rx_left-le Rx.testing = omega arith
rx_left-le (pushing bytes) = omega arith
rx_left-le reading = omega arith
rx_left-le receiving = omega arith

pub app_left-le : (app : AppThread) → app_left app ≤ 2
app_left-le AppThread.ended = omega arith
app_left-le AppThread.testing = omega arith
app_left-le ticking = omega arith

pub s3_left-le : (s3 : S3Thread) → s3_left s3 ≤ 6
s3_left-le S3Thread.ended = omega arith
s3_left-le S3Thread.testing = omega arith
s3_left-le (polling napping) = omega arith
s3_left-le (polling in_session) = omega arith
s3_left-le (polling (timed now)) = omega arith
s3_left-le (polling expired) = omega arith
s3_left-le (polling relocking) = omega arith
