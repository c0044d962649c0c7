-- ===== src/Queue.antt =====
-- The bounded blocking queue of src/queue.c and include/queue.h. Each function runs under the
-- queue's mutex and waits on its condition variables, so a call is one step up to its first wait;
-- a thread that is woken tests again from the start, which is a further step of the same call.
use vecu_uds.Base.{
  set, ◌-◌, ◌%◌, ◌+◌, ltb, ◌||◌, get_or, ◌==◌, false, ◌&&◌, Bool, [], length, not, true, replicate,
  if◌then◌else◌, List, ℕ,
}
use vecu_uds.Types.{max_msg_len}
pub mod Fifo
pub mod Order
pub mod Calls
mod Examples

-- UDS_QUEUE_CAP
abbrev pub queue_cap : ℕ
queue_cap = 8

-- `uds_queue_t`; of `uds_msg_t` a slot holds the `len` bytes that are in use
pub record UdsQueue : Type 0 where
  pub slots : List (List ℕ)
  pub head : ℕ
  pub tail : ℕ
  pub count : ℕ
  pub closed : Bool

-- Return codes 0 and -1, or the thread waits.
pub data Pushed : Type 0 where
  pushed push_refused push_waits : Pushed

pub data Popped : Type 0 where
  popped : List ℕ → Popped
  pop_refused pop_waits : Popped

-- uds_queue_init
unfoldable pub queue_init : UdsQueue
queue_init = record {
  slots = replicate queue_cap [];
  head = 0;
  tail = 0;
  count = 0;
  closed = false;
}

-- uds_queue_shutdown
unfoldable pub shutdown : UdsQueue → UdsQueue
shutdown q = record q { closed = true }

-- uds_queue_push
unfoldable pub push : List ℕ → UdsQueue → Pushed × UdsQueue
push bytes q =
    if length bytes == 0 || ltb max_msg_len (length bytes)
    then (push_refused, q)
    else if not q.closed && q.count == queue_cap
    then (push_waits, q)
    else if q.closed
    then (push_refused, q)
    else (
      pushed,
      record q {
        slots = set q.slots q.tail bytes;
        tail = (q.tail + 1) % queue_cap;
        count = q.count + 1;
      },
    )

-- uds_queue_pop_blocking
unfoldable pub pop_blocking : UdsQueue → Popped × UdsQueue
pop_blocking q =
    if not q.closed && q.count == 0
    then (pop_waits, q)
    else if q.count == 0
    then (pop_refused, q)
    else (
      popped (get_or q.slots q.head []),
      record q { head = (q.head + 1) % queue_cap; count = q.count - 1 },
    )
