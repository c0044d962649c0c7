-- ===== src/Threads/Arrivals.antt =====
-- The messages that read() brings to src/threads.c, through the queue to the dispatcher.
use vecu_uds.Base.{
  ◌∙◌, append_assoc, append-nil, arith, length, Bool-cases, false, refl, none, true, some, ap, ◌≡◌,
  Bool, ℕ, Option, List, ◌∷◌, [], ◌++◌, ◌==◌, inl, inr,
}
use vecu_uds.Queue.Fifo
use vecu_uds.Queue.{shutdown, UdsQueue}
use vecu_uds.Sockets.{other, eintr, no_error, eagain, Errno, ReadAnswer, got, failed}
use vecu_uds.Threads.{
  finished, joining, closing_socket, closing_queue, paused, about_to_pause, app_thread_main,
  leaving, rx_thread_main, checking, reading, dispatch_thread_main, receiving, s3_thread_main, Main,
  pushing, Ecu, dispatch_turn, rx_turn, rx_called, received, after_push, Rx, Dispatcher, S3Thread,
  AppThread,
}
use vecu_uds.Threads.Service.{
  ticked_by, polled_by, event_by, brought_by, brought, ticked, taken_by, read_bytes, polled,
  popped_by, pending, requests, Event, request,
}
use vecu_uds.Sockets.KernelIo.{KernelIo, read_answered}
use vecu_uds.Threads.{polling, ticking}
use vecu_uds.Clock.{Timespec, Env}
use vecu_uds.Threads.ReadError.{gone}
use vecu_uds.Vecu.{Vecu}
use vecu_uds.Queue.Fifo.{push-Refines, pop_blocking-Refines, push_list, pop_list, contents}
use vecu_uds.Uds.Sections.{section, return}
use vecu_uds.Threads.Process.{
  main_goes_on, engine, signal, all_ended, receive, dispatch, timer, Action, on_signal, main_thread,
  main_turn, act,
}
use vecu_uds.App.{Doubles}

pub requests-append : (xs ys : List Event) → requests (xs ++ ys) ≡ requests xs ++ requests ys
requests-append [] ys = refl
requests-append (request env msg ∷ xs) ys = ap (λ ms. msg ∷ ms) (requests-append xs ys)
requests-append (polled clock pc ∷ xs) ys = requests-append xs ys
requests-append (ticked ∷ xs) ys = requests-append xs ys

pop_list-requests :
    (env : Env) (closed : Bool) (ms : List (List ℕ))
    → ms ≡ requests (popped_by env (pop_list closed ms).0) ++ (pop_list closed ms).1
pop_list-requests env true [] = refl
pop_list-requests env false [] = refl
pop_list-requests env closed (m ∷ ms) = refl

dispatch_turn-requests :
    (env : Env) (stop : Bool) (io : KernelIo) (pc : Dispatcher) (s : Vecu) (q : UdsQueue)
    → Fifo.IsValid q
    → contents q ≡ requests (taken_by env pc q) ++ contents (dispatch_turn env stop io pc s q).2
dispatch_turn-requests env stop io Dispatcher.testing s q v = refl
dispatch_turn-requests env stop io Dispatcher.popping s q v =
    let r = pop_blocking-Refines q v in
    rw (r.result, r.messages) (pop_list-requests env q.closed (contents q))
dispatch_turn-requests env stop io (Dispatcher.serving req (return o)) s q v = refl
dispatch_turn-requests env stop io (Dispatcher.serving req (section f k)) s q v = refl
dispatch_turn-requests env stop io (Dispatcher.sending bytes) s q v = refl
dispatch_turn-requests env stop io Dispatcher.ended s q v = refl

push_list-pending :
    (bytes : List ℕ) (closed : Bool) (ms : List (List ℕ))
    → gone (after_push (push_list bytes closed ms).0 bytes) ≡ false
    → ms ++ bytes ∷ []
      ≡ (push_list bytes closed ms).1 ++ pending (after_push (push_list bytes closed ms).0 bytes)
push_list-pending bytes closed ms h = ground (arith, append-nil (ms ++ bytes ∷ []))

rx_called-pending : (sock : Option ℕ) (errno : Errno) → pending (rx_called sock errno) ≡ []
rx_called-pending (some fd) errno = refl
rx_called-pending none eagain = refl
rx_called-pending none no_error = refl
rx_called-pending none eintr = refl
rx_called-pending none other = refl

read_answered-pending :
    (answer : ReadAnswer) (errno : Errno)
    → let (r, after) = read_answered answer errno in pending (received r after) ≡ read_bytes answer
unfolding read_answered
read_answered-pending (got bytes) errno = elim (Bool-cases (length bytes == 0)) [
  | inl empty ↦ rw empty refl
  | inr full ↦ rw full refl
]
read_answered-pending (failed no_error) errno = refl
read_answered-pending (failed eintr) errno = refl
read_answered-pending (failed eagain) errno = refl
read_answered-pending (failed other) errno = refl

rx_turn-pending :
    (answer : ReadAnswer) (stop : Bool) (io : KernelIo) (pc : Rx) (errno : Errno) (q : UdsQueue)
    → Fifo.IsValid q
    → let (after, errno', r) = rx_turn answer stop io pc errno q in
      gone after ≡ false
      → contents q ++ (pending pc ++ brought answer pc) ≡ contents r ++ pending after
rx_turn-pending answer stop io Rx.testing errno q v h = elim (Bool-cases stop) [
  | inl up ↦ rw up refl
  | inr down ↦ rw down refl
]
rx_turn-pending answer stop io receiving errno q v h = rw (rx_called-pending io.sock errno) refl
rx_turn-pending answer stop io reading errno q v h = rw (read_answered-pending answer errno) refl
rx_turn-pending answer stop io (pushing bytes) errno q v h =
    let r = push-Refines bytes q v in
    let h' = rw r.result at h in
    rw (r.result, r.messages) (push_list-pending bytes q.closed (contents q) h')
rx_turn-pending answer stop io leaving errno q v h = cc
rx_turn-pending answer stop io Rx.ended errno q v h = cc

main_turn-contents :
    (stop joined : Bool) (pc : Main) (io : KernelIo) (q : UdsQueue)
    → contents (main_turn stop joined pc io q).2 ≡ contents q
unfolding shutdown
main_turn-contents stop joined checking io q = refl
main_turn-contents stop joined about_to_pause io q = refl
main_turn-contents stop joined paused io q = refl
main_turn-contents stop joined closing_queue io q = refl
main_turn-contents stop joined closing_socket io q = refl
main_turn-contents stop joined joining io q = refl
main_turn-contents stop joined finished io q = refl

-- The messages in the queue, and the one that waits to be pushed.
abbrev pub waiting_of : Ecu → List (List ℕ)
waiting_of e = contents e.req_q ++ pending e.rx

requests-polled_by : (clock : Timespec) (pc : S3Thread) → requests (polled_by clock pc) ≡ []
requests-polled_by clock S3Thread.testing = refl
requests-polled_by clock (polling pc) = refl
requests-polled_by clock S3Thread.ended = refl

requests-ticked_by : (pc : AppThread) → requests (ticked_by pc) ≡ []
requests-ticked_by AppThread.testing = refl
requests-ticked_by ticking = refl
requests-ticked_by AppThread.ended = refl

pub act-waiting_of :
    (d : Doubles) (x : Action d) (e : Ecu)
    → Fifo.IsValid e.req_q
    → gone (act x e).rx ≡ false
    → waiting_of e ++ brought_by x e ≡ requests (event_by x e) ++ waiting_of (act x e)
unfolding act s3_thread_main dispatch_thread_main rx_thread_main app_thread_main main_thread
    on_signal
act-waiting_of d (timer clock) e v h =
    rw (requests-polled_by clock e.s3, append-nil (waiting_of e)) refl
act-waiting_of d (dispatch env) e v h =
    append-nil (waiting_of e)
    ∙ ap (λ ms. ms ++ pending e.rx)
        (dispatch_turn-requests env e.stop e.io e.dispatcher e.state e.req_q v)
    ∙ append_assoc (requests (taken_by env e.dispatcher e.req_q))
        (contents (dispatch_turn env e.stop e.io e.dispatcher e.state e.req_q).2) (pending e.rx)
act-waiting_of d (receive answer) e v h =
    append_assoc (contents e.req_q) (pending e.rx) (brought answer e.rx)
    ∙ rx_turn-pending answer e.stop e.io e.rx e.errno e.req_q v h
act-waiting_of d engine e v h = rw (requests-ticked_by e.app, append-nil (waiting_of e)) refl
act-waiting_of d main_goes_on e v h =
    rw (main_turn-contents e.stop (all_ended e.rx e.dispatcher e.app e.s3) e.main e.io e.req_q)
      (append-nil (waiting_of e))
act-waiting_of d (signal to_main) e v h = append-nil (waiting_of e)
