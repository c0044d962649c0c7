-- ===== src/Threads/Examples.antt =====
-- Schedules of the threads of src/threads.c.
use vecu_uds.Vecu
use vecu_uds.Uds.Invariant
use vecu_uds.Sockets.{is_open, other, eagain, failed, got}
use vecu_uds.Sockets.KernelIo.{isotp_kio_close, read_answered}
use vecu_uds.Base.{
  ◌<◌, ◌⊎◌, false, ◌≤◌, refl, none, ◌++◌, [], ◌≡◌, ◌∷◌, true, arith, replicate, List,
}
use vecu_uds.Threads.{
  reading, paused, s3_step, checking, finished, app_thread_main, rx_thread_main,
  dispatch_thread_main, about_to_pause, s3_thread_main, Ecu,
}
use vecu_uds.Threads.Dispatching.{Serves}
use vecu_uds.Threads.Process.{
  signal, main_thread, engine, timer, dispatch, woken, all_ended, receive, main_goes_on, on_signal,
  Action, act, act_all,
}
use vecu_uds.Threads.Interleaving.{act_all-IsEcu, SaneClocks, IsEcu}
use vecu_uds.Clock.{now_ms}
use vecu_uds.Threads.Fixtures.{main-ecu, granted, env, at, still, ecu}
use vecu_uds.Queue.Fifo.{contents, queue_init-IsValid}
use vecu_uds.Threads.Wakeup.{signals, on_signal-lost, waiting}
use vecu_uds.Queue.{shutdown, queue_init, pop_blocking, push}
use vecu_uds.Threads.Shutdown.{on_signal-finished}
use vecu_uds.Uds.Sections.Request.{scan_program, request_program}
use vecu_uds.Uds.Sections.Simple.{tester_present_program}
use vecu_uds.Uds.Sections.{refuse_if}
use vecu_uds.Vecu.{mark_tester_present}
use vecu_uds.Threads.ReadError.{read_error-deaf, gone}
use vecu_uds.Threads.Service.{serve_all, settled, pending, requests, events, AllUncut, arrivals}
use vecu_uds.Threads.InOrder.{main-in_order}
use vecu_uds.Threads.Lifetime.{main-ends_last, Untouched}
use vecu_uds.Threads.Counts.{turns}

ecu-IsEcu : IsEcu ecu
ecu-IsEcu = record {
  state = Invariant.init-IsValid (at 20);
  queue = queue_init-IsValid;
  carried = tt;
  dispatcher = Serves.testing (omega arith);
}

-- A TesterPresent request from the bus to the bus, with the timer and the engine in between.
abbrev exchange : List (Action still)
exchange =
    replicate 2 (receive (failed eagain))
    ++ receive (got (0x3E ∷ 0x00 ∷ [])) ∷ receive (failed eagain) ∷ replicate 3 (dispatch env)
    ++ timer (at 20) ∷ engine ∷ replicate 2 (dispatch env)

exchange-SaneClocks : SaneClocks exchange
unfolding now_ms
exchange-SaneClocks = omega arith

act_all-IsEcu_example : IsEcu (act_all exchange ecu)
act_all-IsEcu_example = act_all-IsEcu still exchange ecu exchange-SaneClocks ecu-IsEcu

exchange-transmitted : (act_all exchange ecu).transmitted ≡ (0x7E ∷ 0x00 ∷ []) ∷ []
unfolding act_all act s3_thread_main dispatch_thread_main rx_thread_main app_thread_main
    read_answered push pop_blocking queue_init request_program scan_program tester_present_program
    refuse_if s3_step mark_tester_present Vecu.init
exchange-transmitted = refl

abbrev to_joining : List (Action still)
to_joining = replicate 3 main_goes_on

abbrev to_ends : List (Action still)
to_ends =
    replicate 5 (receive (failed eagain))
    ++ replicate 8 (dispatch env)
    ++ replicate 6 (timer (at 20))
    ++ replicate 2 engine

to_ends-SaneClocks : SaneClocks to_ends
unfolding now_ms
to_ends-SaneClocks = omega arith

exchange-checking : woken true (act_all exchange ecu).main ≡ checking
unfolding act_all act s3_thread_main dispatch_thread_main rx_thread_main app_thread_main
exchange-checking = refl

on_signal-finished_example :
    let after =
      act_all {d = still}
        (main_goes_on ∷ [])
        (act_all to_ends (act_all to_joining (on_signal true (act_all exchange ecu)))) in
    (after.main ≡ finished)
    × (all_ended after.rx after.dispatcher after.app after.s3 ≡ true)
    × (after.io.sock ≡ none)
    × (after.req_q.closed ≡ true)
on_signal-finished_example =
    on_signal-finished still to_joining to_ends (main_goes_on ∷ []) (act_all exchange ecu)
      (omega arith) to_ends-SaneClocks (omega arith) act_all-IsEcu_example exchange-checking
      (omega arith) (omega arith) (omega arith) (omega arith) (omega arith) (omega arith)

abbrev before_pause : Ecu
before_pause = record ecu { main = about_to_pause }

on_signal-lost_example :
    let after = act_all {d = still} exchange (on_signal true before_pause) in
    (after.stop ≡ true) × (waiting after.main ≡ true)
on_signal-lost_example = on_signal-lost still true exchange before_pause refl (omega arith)

abbrev in_read : Ecu
in_read = record ecu { main = paused; rx = reading }

read_error-deaf_example :
    let after = act_all {d = still} exchange (rx_thread_main (failed other) in_read) in
    (gone after.rx ≡ true)
    × (after.req_q.slots ≡ in_read.req_q.slots)
    × (after.req_q.tail ≡ in_read.req_q.tail)
    × (after.req_q.count ≤ in_read.req_q.count)
    × ((waiting in_read.main ≡ false)
        ⊎ ((0 < turns {d = still} signals exchange) ⊎ (waiting after.main ≡ true)))
read_error-deaf_example = read_error-deaf still exchange in_read refl

-- Two requests are read, and one is served.
abbrev in_turn : List (Action still)
in_turn =
    replicate 2 (receive (failed eagain))
    ++ receive (got (0x3E ∷ 0x00 ∷ [])) ∷ replicate 3 (receive (failed eagain))
    ++ receive (got (0x22 ∷ 0xF1 ∷ 0x90 ∷ []))
      ∷ receive (failed eagain)
      ∷ replicate 5 (dispatch env)
    ++ timer (at 20) ∷ timer (at 20) ∷ engine ∷ engine ∷ []

in_turn-AllUncut : AllUncut in_turn ecu
unfolding AllUncut act s3_thread_main dispatch_thread_main rx_thread_main app_thread_main
    read_answered push pop_blocking queue_init request_program scan_program tester_present_program
    refuse_if s3_step mark_tester_present Vecu.init
in_turn-AllUncut = ground arith

in_turn-open : is_open (act_all in_turn ecu).io.sock ≡ true
unfolding act_all act s3_thread_main dispatch_thread_main rx_thread_main app_thread_main
in_turn-open = refl

in_turn-here : gone (act_all in_turn ecu).rx ≡ false
unfolding act_all act s3_thread_main dispatch_thread_main rx_thread_main app_thread_main
    read_answered push queue_init
in_turn-here = refl

main-in_order_example :
    let after = act_all in_turn ecu in
    (arrivals in_turn ecu
      ≡ requests (events in_turn ecu) ++ (contents after.req_q ++ pending after.rx))
    × (settled after.dispatcher after.state after.transmitted
        ≡ serve_all still (events in_turn ecu) (Vecu.init (at 20), []))
main-in_order_example =
    main-in_order still granted [] (at 20) in_turn ecu main-ecu in_turn-AllUncut in_turn-open
      in_turn-here

in_turn-requests : requests (events in_turn ecu) ≡ (0x3E ∷ 0x00 ∷ []) ∷ []
unfolding events act s3_thread_main dispatch_thread_main rx_thread_main app_thread_main
    read_answered push pop_blocking queue_init request_program scan_program tester_present_program
    refuse_if s3_step mark_tester_present Vecu.init
in_turn-requests = refl

in_turn-arrivals : arrivals in_turn ecu ≡ (0x3E ∷ 0x00 ∷ []) ∷ (0x22 ∷ 0xF1 ∷ 0x90 ∷ []) ∷ []
unfolding arrivals act s3_thread_main dispatch_thread_main rx_thread_main app_thread_main
    read_answered push queue_init
in_turn-arrivals = refl

abbrev to_finish : List (Action still)
to_finish = signal true ∷ to_joining ++ to_ends ++ main_goes_on ∷ []

to_finish-finished : (act_all to_finish ecu).main ≡ finished
unfolding act_all act s3_thread_main dispatch_thread_main rx_thread_main app_thread_main main_thread
    on_signal all_ended shutdown isotp_kio_close
to_finish-finished = refl

main-ends_last_example :
    let after = act_all to_finish ecu in
    (all_ended after.rx after.dispatcher after.app after.s3 ≡ true)
    × Untouched after (act_all exchange after)
main-ends_last_example =
    main-ends_last still granted [] (at 20) to_finish exchange ecu main-ecu to_finish-finished
