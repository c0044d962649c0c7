-- ===== src/Queue/Fifo.antt =====
-- The ring of src/queue.c seen as the list of the messages in it, oldest first.
use vecu_uds.Base.{
  length-set, inr, inl, ==_iff, true, ◌≢◌, Bool-cases, false, get_or-set_ne, get_or-set_self, ap,
  ◌∙◌, ap₂, refl, zero, set, ◌-◌, ◌%◌, ltb, ◌∷◌, ◌||◌, ◌+◌, arith, ◌≤◌, ◌++◌, ◌==◌, get_or,
  if◌then◌else◌, ◌≡◌, suc, ◌<◌, [], length, Bool, List, ℕ,
}
use vecu_uds.Queue.{
  queue_init, pop_blocking, push, pushed, push_waits, push_refused, popped, pop_waits, pop_refused,
  queue_cap, Pushed, Popped, UdsQueue,
}
use vecu_uds.Types.{max_msg_len}

pub contents_from : List (List ℕ) → ℕ → ℕ → List (List ℕ)
contents_from slots i zero = []
contents_from slots i (suc n) = get_or slots i [] ∷ contents_from slots ((i + 1) % queue_cap) n

abbrev pub contents : UdsQueue → List (List ℕ)
contents q = contents_from q.slots q.head q.count

pub record IsValid (q : UdsQueue) : Type 0 where
  pub full_array : length q.slots ≡ queue_cap
  pub head_inside : q.head < queue_cap
  pub count_capped : q.count ≤ queue_cap
  pub tail_after : q.tail ≡ (q.head + q.count) % queue_cap

-- What a bounded queue that can be closed promises, over the list of its messages.
abbrev pub push_list : List ℕ → Bool → List (List ℕ) → Pushed × List (List ℕ)
push_list bytes closed ms =
    if length bytes == 0 || ltb max_msg_len (length bytes) || closed
    then (push_refused, ms)
    else if length ms == queue_cap
    then (push_waits, ms)
    else (pushed, ms ++ bytes ∷ [])

abbrev pub pop_list : Bool → List (List ℕ) → Popped × List (List ℕ)
pop_list closed [] = (if closed then pop_refused else pop_waits, [])
pop_list closed (m ∷ ms) = (popped m, ms)

length-contents : (slots : List (List ℕ)) (i n : ℕ) → length (contents_from slots i n) ≡ n
unfolding contents_from
length-contents slots i zero = refl
length-contents slots i (suc n) = omega (arith, length-contents slots ((i + 1) % queue_cap) n)

-- A slot outside the range may change.
contents-set :
    (slots : List (List ℕ)) (i n j : ℕ) (m : List ℕ)
    → i < queue_cap
    → j < queue_cap
    → n ≤ (j + queue_cap - i) % queue_cap
    → contents_from (set slots j m) i n ≡ contents_from slots i n
unfolding contents_from
contents-set slots i zero j m hi hj h = refl
contents-set slots i (suc n) j m hi hj h =
    ap₂ (λ x xs. x ∷ xs) (get_or-set_ne slots m [] (omega arith))
      (contents-set slots ((i + 1) % queue_cap) n j m (omega arith) (omega arith) (omega arith))

-- One message more is the one behind the last.
contents-next :
    (slots : List (List ℕ)) (i n k : ℕ)
    → i < queue_cap
    → k ≡ (i + n) % queue_cap
    → contents_from slots i (suc n) ≡ contents_from slots i n ++ get_or slots k [] ∷ []
unfolding contents_from
contents-next slots i zero k h e =
    let same : i ≡ k = omega arith in ap (λ t. get_or slots t [] ∷ []) same
contents-next slots i (suc n) k h e =
    ap (λ xs. get_or slots i [] ∷ xs)
      (contents-next slots ((i + 1) % queue_cap) n k (omega arith) (omega arith))

pub queue_init-IsValid : IsValid queue_init
unfolding queue_init
queue_init-IsValid = omega arith

pub queue_init-contents : contents queue_init ≡ []
unfolding queue_init contents_from
queue_init-contents = refl

pushed-contents :
    (bytes : List ℕ) (q : UdsQueue)
    → IsValid q
    → q.count < queue_cap
    → contents_from (set q.slots q.tail bytes) q.head (q.count + 1) ≡ contents q ++ bytes ∷ []
pushed-contents bytes q v room =
    ap (λ n. contents_from (set q.slots q.tail bytes) q.head n)
      (let more : q.count + 1 ≡ suc q.count = omega arith in more)
    ∙ contents-next (set q.slots q.tail bytes) q.head q.count q.tail v.head_inside v.tail_after
    ∙ ap₂ (λ xs x. xs ++ x ∷ [])
        (contents-set q.slots q.head q.count q.tail bytes v.head_inside (omega (arith, v))
          (omega (arith, v)))
        (get_or-set_self q.slots q.tail bytes [] (omega (arith, v)))

-- The new queue is valid, as closed as before, and behaves like the list.
pub record Refines {R : Type 0} (closed : Bool) (out : R × UdsQueue) (spec : R × List (List ℕ))
    : Type 0 where
  pub valid : IsValid out.1
  pub result : out.0 ≡ spec.0
  pub messages : contents out.1 ≡ spec.1
  pub same_closed : out.1.closed ≡ closed

stays :
    {R : Type 0} (r : R) (closed : Bool) (q : UdsQueue)
    → IsValid q
    → q.closed ≡ closed
    → Refines closed (r, q) (r, contents q)
stays r closed q v e = record { valid = v; result = refl; messages = refl; same_closed = e }

contents-none : (slots : List (List ℕ)) (i n : ℕ) → n ≡ 0 → contents_from slots i n ≡ []
unfolding contents_from
contents-none slots i zero e = refl
contents-none slots i (suc n) e = absurd (omega arith)

contents-first :
    (slots : List (List ℕ)) (i n : ℕ)
    → n ≢ 0
    → contents_from slots i n
      ≡ get_or slots i [] ∷ contents_from slots ((i + 1) % queue_cap) (n - 1)
unfolding contents_from
contents-first slots i zero h = absurd (h refl)
contents-first slots i (suc n) h =
    let same : n ≡ suc n - 1 = omega arith in
    ap (λ t. get_or slots i [] ∷ contents_from slots ((i + 1) % queue_cap) t) same

no_message :
    (q : UdsQueue)
    → IsValid q
    → (q.count == 0) ≡ true
    → (r : Popped) (closed : Bool) → q.closed ≡ closed
    → Refines closed (r, q) (r, [])
no_message q v empty r closed e = record {
  valid = v;
  result = refl;
  messages = contents-none q.slots q.head q.count ((==_iff _ _).0 empty);
  same_closed = e;
}

one_less :
    (q : UdsQueue)
    → IsValid q
    → (q.count == 0) ≡ false
    → (closed : Bool)
    → let ms = contents_from q.slots ((q.head + 1) % queue_cap) (q.count - 1) in
      let q' = record q { head = (q.head + 1) % queue_cap; count = q.count - 1; closed = closed } in
      let m = get_or q.slots q.head [] in Refines closed (popped m, q') (popped m, ms)
one_less q v some_left closed = record {
  valid = record {
    full_array = v.full_array;
    head_inside = omega arith;
    count_capped = omega (arith, v.count_capped);
    tail_after = ground (arith, v);
  };
  result = refl;
  messages = refl;
  same_closed = refl;
}

-- uds_queue_push does to the messages in the ring what a bounded queue promises: it appends the
-- message, waits when eight are there, or refuses when the queue is closed or the length is 0 or
-- above 4095; it keeps the invariant.
pub push-Refines :
    (bytes : List ℕ) (q : UdsQueue)
    → IsValid q
    → Refines q.closed (push bytes q) (push_list bytes q.closed (contents q))
unfolding push
push-Refines bytes q v = elim (Bool-cases (length bytes == 0)) [
  | inl empty ↦ simp empty (stays push_refused q.closed q v refl)
  | inr some_bytes ↦ elim (Bool-cases (ltb max_msg_len (length bytes))) [
    | inl long ↦ simp (some_bytes, long) (stays push_refused q.closed q v refl)
    | inr fits ↦ elim (Bool-cases q.closed) [
      | inl shut ↦ simp (some_bytes, fits, shut) (stays push_refused true q v shut)
      | inr open_still ↦ elim (Bool-cases (q.count == queue_cap)) [
        | inl full ↦
            simp (some_bytes, fits, open_still, length-contents q.slots q.head q.count, full)
              (stays push_waits false q v open_still)
        | inr room ↦
            simp (some_bytes, fits, open_still, length-contents q.slots q.head q.count, room)
              (record {
                valid = record {
                  full_array = length-set q.slots q.tail bytes ∙ v.full_array;
                  head_inside = v.head_inside;
                  count_capped = ground (arith, v.count_capped);
                  tail_after = omega (arith, v.tail_after);
                };
                result = refl;
                messages = pushed-contents bytes q v (ground (arith, v.count_capped));
                same_closed = refl;
              })
      ]
    ]
  ]
]

-- uds_queue_pop_blocking gives the oldest message and takes it out, also of a closed queue; of an
-- empty queue it waits, or refuses when the queue is closed; it keeps the invariant.
pub pop_blocking-Refines :
    (q : UdsQueue) → IsValid q → Refines q.closed (pop_blocking q) (pop_list q.closed (contents q))
unfolding pop_blocking
pop_blocking-Refines q v = elim (Bool-cases (q.count == 0)) [
  | inl empty ↦
      simp (contents-none q.slots q.head q.count ((==_iff _ _).0 empty), empty)
        (elim (Bool-cases q.closed) [
          | inl shut ↦ simp shut (no_message q v empty pop_refused true shut)
          | inr open_still ↦ simp open_still (no_message q v empty pop_waits false open_still)
        ])
  | inr some_left ↦
      simp (contents-first q.slots q.head q.count (ground arith), some_left)
        (elim (Bool-cases q.closed) [
          | inl shut ↦ simp shut (one_less q v some_left true)
          | inr open_still ↦ simp open_still (one_less q v some_left false)
        ])
]
