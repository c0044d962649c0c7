-- ===== src/Queue/Examples.antt =====
-- The queue of src/queue.c with one message in it.
use vecu_uds.Base.Machine.{replay}
use vecu_uds.Base.{refl, false, [], ◌≡◌, ◌∷◌, List}
use vecu_uds.Queue.Fifo.{contents}
use vecu_uds.Queue.{
  pop_refused, popped, pushed, pop_waits, shutdown, queue_init, push, pop_blocking,
}
use vecu_uds.Queue.Calls.{shut_down, taken, queue_calls-list, given, list_call, call}
use vecu_uds.Queue.Order.{shutdown_call, push_call, pop_call, Call}

abbrev calls : List Call
calls = pop_call ∷ push_call (0x11 ∷ 0x01 ∷ []) ∷ shutdown_call ∷ pop_call ∷ pop_call ∷ []

queue_calls-list_example :
    let (answers, q) = replay call calls queue_init in
    let (list_answers, rest) = replay list_call calls (false, []) in
    (answers ≡ list_answers) × (q.closed ≡ rest.0) × (contents q ≡ rest.1)
queue_calls-list_example = queue_calls-list calls

queue_answers :
    (replay call calls queue_init).0
    ≡ given pop_waits
      ∷ taken pushed
      ∷ shut_down
      ∷ given (popped (0x11 ∷ 0x01 ∷ []))
      ∷ given pop_refused
      ∷ []
unfolding replay call queue_init push pop_blocking shutdown
queue_answers = refl
