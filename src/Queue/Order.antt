-- ===== src/Queue/Order.antt =====
-- Sequences of calls of src/queue.c.
use vecu_uds.Base.{
  ap, append_assoc, refl, ◌∙◌, false, sym, true, arith, append-nil, [], ◌∷◌, ◌≡◌, ◌++◌, List, Bool,
  ℕ,
}
use vecu_uds.Queue.{
  push_waits, push_refused, pop_waits, pop_refused, pop_blocking, pushed, push, Pushed, popped,
  Popped, UdsQueue, shutdown,
}
use vecu_uds.Queue.Fifo.{pop_blocking-Refines, push_list, push-Refines, pop_list, contents, IsValid}

-- A call of the queue, and what a sequence of calls took in and gave out.
pub data Call : Type 0 where
  push_call : List ℕ → Call
  pop_call shutdown_call : Call

pub after : Call → UdsQueue → UdsQueue
after (push_call bytes) q = (push bytes q).1
after pop_call q = (pop_blocking q).1
after shutdown_call q = shutdown q

pub run : List Call → UdsQueue → UdsQueue
run [] q = q
run (c ∷ cs) q = run cs (after c q)

abbrev if_pushed : List ℕ → Pushed → List (List ℕ)
if_pushed bytes pushed = bytes ∷ []
if_pushed bytes push_refused = []
if_pushed bytes push_waits = []

abbrev if_popped : Popped → List (List ℕ)
if_popped (popped m) = m ∷ []
if_popped pop_refused = []
if_popped pop_waits = []

abbrev pub taken_in_by : Call → UdsQueue → List (List ℕ)
taken_in_by (push_call bytes) q = if_pushed bytes (push bytes q).0
taken_in_by pop_call q = []
taken_in_by shutdown_call q = []

abbrev pub given_out_by : Call → UdsQueue → List (List ℕ)
given_out_by (push_call bytes) q = []
given_out_by pop_call q = if_popped (pop_blocking q).0
given_out_by shutdown_call q = []

pub taken_in : List Call → UdsQueue → List (List ℕ)
taken_in [] q = []
taken_in (c ∷ cs) q = taken_in_by c q ++ taken_in cs (after c q)

pub given_out : List Call → UdsQueue → List (List ℕ)
given_out [] q = []
given_out (c ∷ cs) q = given_out_by c q ++ given_out cs (after c q)

after-IsValid : (c : Call) (q : UdsQueue) → IsValid q → IsValid (after c q)
unfolding after shutdown
after-IsValid (push_call bytes) q v = (push-Refines bytes q v).valid
after-IsValid pop_call q v = (pop_blocking-Refines q v).valid
after-IsValid shutdown_call q v = ground (arith, v)

if_pushed-push_list :
    (bytes : List ℕ) (closed : Bool) (ms : List (List ℕ))
    → ms ++ if_pushed bytes (push_list bytes closed ms).0 ≡ (push_list bytes closed ms).1
if_pushed-push_list bytes closed ms = ground (arith, append-nil ms)

if_popped-pop_list :
    (closed : Bool) (ms : List (List ℕ))
    → ms ≡ if_popped (pop_list closed ms).0 ++ (pop_list closed ms).1
if_popped-pop_list true [] = refl
if_popped-pop_list false [] = refl
if_popped-pop_list closed (m ∷ ms) = refl

after-contents :
    (c : Call) (q : UdsQueue)
    → IsValid q
    → contents q ++ taken_in_by c q ≡ given_out_by c q ++ contents (after c q)
unfolding after shutdown
after-contents (push_call bytes) q v =
    let r = push-Refines bytes q v in
    rw (r.result, r.messages) (if_pushed-push_list bytes q.closed (contents q))
after-contents pop_call q v =
    let r = pop_blocking-Refines q v in
    append-nil (contents q) ∙ rw (r.result, r.messages) (if_popped-pop_list q.closed (contents q))
after-contents shutdown_call q v = append-nil (contents q)

-- First in, first out: over any sequence of pushes, pops and shutdowns of a valid queue, the
-- messages that were in it followed by those that it took in are, in this order, those that it gave
-- out followed by those that are left.
pub run-contents :
    (cs : List Call) (q : UdsQueue)
    → IsValid q
    → contents q ++ taken_in cs q ≡ given_out cs q ++ contents (run cs q)
unfolding taken_in given_out run
run-contents [] q v = append-nil (contents q)
run-contents (c ∷ cs) q v =
    sym (append_assoc (contents q) (taken_in_by c q) (taken_in cs (after c q)))
    ∙ ap (λ xs. xs ++ taken_in cs (after c q)) (after-contents c q v)
    ∙ append_assoc (given_out_by c q) (contents (after c q)) (taken_in cs (after c q))
    ∙ ap (λ xs. given_out_by c q ++ xs) (run-contents cs (after c q) (after-IsValid c q v))
    ∙ sym
        (append_assoc (given_out_by c q) (given_out cs (after c q)) (contents (run cs (after c q))))
