-- ===== src/Threads/Fixtures.antt =====
-- The process of src/main.c as main sets it up, and answers of the kernel, for the tests.
use vecu_uds.Vecu
use vecu_uds.Types.Session
use vecu_uds.Sockets.{no_error}
use vecu_uds.Sockets.KernelIo.{OpenAnswers, set_up}
use vecu_uds.Base.{◌^◌, refl, false, ◌%◌, ◌≡◌, ltb, [], true, ◌+◌, some, ℕ, ◌*◌}
use vecu_uds.Threads.{checking, Ecu, Rx, Dispatcher, AppThread, S3Thread}
use vecu_uds.App.{Doubles}
use vecu_uds.Threads.Process.{main}
use vecu_uds.Clock.{Timespec, Env}
use vecu_uds.Vecu.{Vecu}
use vecu_uds.Queue.{queue_init}

abbrev pub at : ℕ → Timespec
at seconds = record { tv_sec = seconds; tv_nsec = 0 }

abbrev pub env : Env
env = record { clock = at 20; clock_again = at 20; entropy = some 0x12345678 }

abbrev pub start : Vecu
start = Vecu.init (at 20)

abbrev pub in_extended : Vecu
in_extended = record start { session = Session.extended }

abbrev pub still : Doubles
still = record {
  Double = ℕ;
  decimal = λ n d. n;
  of_u32 = λ n. n;
  add = λ x y. x + y;
  mul = λ x y. x * y;
  less = λ x y. ltb x y;
  sin = λ x. 0;
  to_u16 = λ x. x % 2 ^ 16;
  to_u8 = λ x. x % 2 ^ 8;
}

-- The kernel grants every call that opens the socket.
abbrev pub granted : OpenAnswers
granted = record { socket = some 3; options_set = true; ifindex = 7; bound = true }

abbrev pub ecu : Ecu
ecu = record {
  main = checking;
  rx = Rx.testing;
  errno = no_error;
  dispatcher = Dispatcher.testing;
  app = AppThread.testing;
  s3 = S3Thread.testing;
  stop = false;
  io = record { sock = some 3 };
  state = start;
  req_q = queue_init;
  transmitted = [];
}

pub main-ecu : main granted [] (at 20) ≡ some ecu
unfolding main set_up
main-ecu = refl
