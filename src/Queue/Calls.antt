-- ===== src/Queue/Calls.antt =====
-- Sequences of calls of src/queue.c against a bounded list that can be closed.
use vecu_uds.Base.{◌∙◌, refl, true, ◌≡◌, ap₂, [], ap, false, ℕ, Bool, List, arith}
use vecu_uds.Base.Machine.{replay, Simulates, replay-Simulates}
use vecu_uds.Queue.Order.{push_call, pop_call, shutdown_call, Call}
use vecu_uds.Queue.{pop_blocking, queue_init, push, Popped, Pushed, shutdown, UdsQueue}
use vecu_uds.Queue.Fifo.{
  queue_init-contents, queue_init-IsValid, pop_blocking-Refines, pop_list, push-Refines, contents,
  push_list, IsValid,
}

pub data Answer : Type 0 where
  taken : Pushed → Answer
  given : Popped → Answer
  shut_down : Answer

unfoldable pub call : Call → UdsQueue → Answer × UdsQueue
call (push_call bytes) q = let (r, after) = push bytes q in (taken r, after)
call pop_call q = let (r, after) = pop_blocking q in (given r, after)
call shutdown_call q = (shut_down, shutdown q)

-- The same on the messages, with whether the queue is closed.
unfoldable pub list_call : Call → Bool × List (List ℕ) → Answer × (Bool × List (List ℕ))
list_call (push_call bytes) (closed, ms) =
    let (r, after) = push_list bytes closed ms in (taken r, (closed, after))
list_call pop_call (closed, ms) = let (r, after) = pop_list closed ms in (given r, (closed, after))
list_call shutdown_call (closed, ms) = (shut_down, (true, ms))

abbrev pub view : UdsQueue → Bool × List (List ℕ)
view q = (q.closed, contents q)

call-Simulates :
    (c : Call) (q : UdsQueue) → IsValid q → Simulates IsValid view (call c q) (list_call c (view q))
unfolding call list_call shutdown
call-Simulates (push_call bytes) q v =
    let r = push-Refines bytes q v in
    record {
      valid = r.valid;
      answer = ap taken r.result;
      state = ap₂ (λ closed ms. (closed, ms)) r.same_closed r.messages;
    }
call-Simulates pop_call q v =
    let r = pop_blocking-Refines q v in
    record {
      valid = r.valid;
      answer = ap given r.result;
      state = ap₂ (λ closed ms. (closed, ms)) r.same_closed r.messages;
    }
call-Simulates shutdown_call q v = record { valid = ground (arith, v); answer = refl; state = refl }

-- Any sequence of uds_queue_push, uds_queue_pop_blocking and uds_queue_shutdown on a new queue is
-- answered as on a list of at most eight messages: a push appends, waits when eight are there, and
-- is refused when the queue is closed or the length is 0 or above 4095; a pop takes the oldest, also
-- of a closed queue, and of an empty one it waits or, when it is closed, is refused. The messages in
-- the ring are those of the list at the end.
pub queue_calls-list :
    (cs : List Call)
    → let (answers, q) = replay call cs queue_init in
      let (list_answers, rest) = replay list_call cs (false, []) in
      (answers ≡ list_answers) × (q.closed ≡ rest.0) × (contents q ≡ rest.1)
unfolding queue_init
queue_calls-list cs =
    let r =
      replay-Simulates IsValid view call list_call call-Simulates cs queue_init
        queue_init-IsValid in
    let same = ap (λ ms. replay list_call cs (false, ms)) queue_init-contents in
    (
      r.answer ∙ ap (λ out. out.0) same,
      ap (λ s. s.0) r.state ∙ ap (λ out. out.1.0) same,
      ap (λ s. s.1) r.state ∙ ap (λ out. out.1.1) same,
    )
