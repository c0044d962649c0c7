-- ===== src/Threads/InOrder.antt =====
-- The process of src/main.c and src/threads.c from its start on: the messages read, the requests
-- served in their order, and the responses.
use vecu_uds.Base.{
  inr, ◌∙◌, ap, append_assoc, sym, ◌∷◌, append-nil, inl, Bool-cases, true, ◌++◌, false, some, [], ℕ,
  ◌≡◌, Bool, List, refl,
}
use vecu_uds.Queue.Fifo
use vecu_uds.Vecu
use mathlib.Core.Option.{some-injective}
use vecu_uds.Vecu.{Vecu}
use vecu_uds.Threads.Process.{
  main_goes_on, engine, signal, receive, dispatch, timer, on_signal, main_thread, Action, act_all,
  act, main, spawned,
}
use vecu_uds.Threads.{
  dispatch_turn, app_thread_main, rx_thread_main, Dispatcher, dispatch_thread_main, s3_thread_main,
  Ecu,
}
use vecu_uds.Sockets.KernelIo.{KernelIo, OpenAnswers}
use vecu_uds.Queue.{UdsQueue, queue_init}
use vecu_uds.Clock.{Timespec, Env}
use vecu_uds.App.{Doubles}
use vecu_uds.Threads.Service.{
  event_by, brought_by, serve_all, settled, pending, requests, AllUncut, events, arrivals,
}
use vecu_uds.Threads.Arrivals.{requests-append, act-waiting_of, waiting_of}
use vecu_uds.Threads.ReadError.{act_all-gone, gone}
use vecu_uds.Threads.Sequential.{act_all-settled, settled_of}
use vecu_uds.Queue.Fifo.{queue_init-contents, queue_init-IsValid, contents, pop_blocking-Refines}
use vecu_uds.Sockets.{is_open}
use vecu_uds.Uds.Sections.{section, return}
use vecu_uds.Threads.Interleaving.{main_turn-IsValid, rx_turn-IsValid}

dispatch_turn-queue :
    (env : Env) (stop : Bool) (io : KernelIo) (pc : Dispatcher) (s : Vecu) (q : UdsQueue)
    → Fifo.IsValid q
    → Fifo.IsValid (dispatch_turn env stop io pc s q).2
dispatch_turn-queue env stop io Dispatcher.testing s q v = v
dispatch_turn-queue env stop io Dispatcher.popping s q v = (pop_blocking-Refines q v).valid
dispatch_turn-queue env stop io (Dispatcher.serving req (return o)) s q v = v
dispatch_turn-queue env stop io (Dispatcher.serving req (section f k)) s q v = v
dispatch_turn-queue env stop io (Dispatcher.sending bytes) s q v = v
dispatch_turn-queue env stop io Dispatcher.ended s q v = v

act-queue :
    (d : Doubles) (x : Action d) (e : Ecu) → Fifo.IsValid e.req_q → Fifo.IsValid (act x e).req_q
unfolding act s3_thread_main dispatch_thread_main rx_thread_main app_thread_main main_thread
    on_signal
act-queue d (timer clock) e v = v
act-queue d (dispatch env) e v = dispatch_turn-queue env e.stop e.io e.dispatcher e.state e.req_q v
act-queue d (receive answer) e v = rx_turn-IsValid answer e.stop e.io e.rx e.errno e.req_q v
act-queue d engine e v = v
act-queue d main_goes_on e v = main_turn-IsValid e.stop _ e.main e.io e.req_q v
act-queue d (signal to_main) e v = v

-- A receive thread that has not left its loop at the end never did.
act_all-not_gone :
    (d : Doubles) (rest : List (Action d)) (e : Ecu)
    → gone (act_all rest e).rx ≡ false
    → gone e.rx ≡ false
act_all-not_gone d rest e h = elim (Bool-cases (gone e.rx)) [
  | inl left ↦ cc ((act_all-gone d rest e left).0)
  | inr here ↦ here
]

act_all-waiting_of :
    (d : Doubles) (rest : List (Action d)) (e : Ecu)
    → Fifo.IsValid e.req_q
    → gone (act_all rest e).rx ≡ false
    → waiting_of e ++ arrivals rest e ≡ requests (events rest e) ++ waiting_of (act_all rest e)
unfolding act_all arrivals events
act_all-waiting_of d [] e v h = append-nil (waiting_of e)
act_all-waiting_of d (x ∷ rest) e v h =
    sym (append_assoc (waiting_of e) (brought_by x e) (arrivals rest (act x e)))
    ∙ ap (λ ms. ms ++ arrivals rest (act x e))
        (act-waiting_of d x e v (act_all-not_gone d rest (act x e) h))
    ∙ append_assoc (requests (event_by x e)) (waiting_of (act x e)) (arrivals rest (act x e))
    ∙ ap (λ ms. requests (event_by x e) ++ ms)
        (act_all-waiting_of d rest (act x e) (act-queue d x e v) h)
    ∙ sym (
        append_assoc (requests (event_by x e)) (requests (events rest (act x e)))
          (waiting_of (act_all rest (act x e))))
    ∙ ap (λ ms. ms ++ waiting_of (act_all rest (act x e)))
        (sym (requests-append (event_by x e) (events rest (act x e))))

-- Where the process starts.
record Starts (clock : Timespec) (e : Ecu) : Type 0 where
  pub queue : Fifo.IsValid e.req_q
  pub nothing : waiting_of e ≡ []
  pub settled : settled_of e ≡ (Vecu.init clock, [])

spawned-Starts :
    (ok : Bool) (io : KernelIo) (clock : Timespec) (e : Ecu)
    → spawned ok io clock ≡ some e
    → Starts clock e
unfolding queue_init
spawned-Starts true io clock e h =
    let same = some-injective _ _ h in
    rw (sym same) (record {
      queue = queue_init-IsValid;
      nothing = append-nil (contents queue_init) ∙ queue_init-contents;
      settled = refl;
    })
spawned-Starts false io clock e h = cc

-- From the start of the program on, in a schedule in which no turn of the S3 thread or the engine
-- falls between two sections of one request, with the socket still open and the receive thread in
-- its loop at the end: the messages that read() brought are, in this order, the requests that were
-- served, then those in the queue and the one that waits to be pushed; and the ECU state and the
-- responses written are those of a server that starts from vecu_init and runs uds_process_request
-- on each request in one piece, a request and a response that are not finished counted as done.
pub main-in_order :
    (d : Doubles) (answers : OpenAnswers) (argv : List (List ℕ)) (clock : Timespec)
    (rest : List (Action d)) (start : Ecu)
    → main answers argv clock ≡ some start
    → AllUncut rest start
    → let after = act_all rest start in
      is_open after.io.sock ≡ true
      → gone after.rx ≡ false
      → (arrivals rest start
          ≡ requests (events rest start) ++ (contents after.req_q ++ pending after.rx))
        × (settled after.dispatcher after.state after.transmitted
            ≡ serve_all d (events rest start) (Vecu.init clock, []))
unfolding main
main-in_order d answers argv clock rest start started uncut o h =
    let v = spawned-Starts _ _ clock start started in
    (
      ap (λ ms. ms ++ arrivals rest start) (sym v.nothing)
          ∙ act_all-waiting_of d rest start v.queue h,
      act_all-settled d rest start uncut o ∙ ap (serve_all d (events rest start)) v.settled,
    )
