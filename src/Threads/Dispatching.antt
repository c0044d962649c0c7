-- ===== src/Threads/Dispatching.antt =====
-- What dispatch_thread_main of src/threads.c keeps, and what is left of its round.
use vecu_uds.Base.{
  refl, ◌==◌, inr, inl, ◌≢◌, Bool-cases, length, false, ◌+◌, [], arith, ◌&&◌, ◌≡◌, some, ◌≤◌, true,
  none, ◌<◌, ◌∷◌, Option, ℕ, Bool, List, ◌++◌, ◌-◌,
}
use vecu_uds.Uds.Invariant
use vecu_uds.Queue.Fifo
use vecu_uds.Sockets.KernelIo.{KernelIo, send_on}
use vecu_uds.IsoTp.Frame.{max_payload}
use vecu_uds.Queue.{pop_refused, popped, pop_waits, Popped, UdsQueue, pop_blocking}
use vecu_uds.Clock.{Env}
use vecu_uds.Threads.{took, answered, dispatch_turn, Dispatcher}
use vecu_uds.Uds.Reply.{dropped, suppressed, reply, Outcome}
use vecu_uds.Security.Inv.{IsSane}
use vecu_uds.Uds.Sections.{Program}
use vecu_uds.Uds.Format.{Answers}
use vecu_uds.Uds.Sections.Safe.{request-IsSound}
use vecu_uds.Uds.Sections.Sound.{sections, returns, IsSound}
use vecu_uds.Types.{max_msg_len}
use vecu_uds.Queue.Fifo.{pop_blocking-Refines}
use vecu_uds.Vecu.{Vecu}

-- A message that ISO-TP can carry.
abbrev pub Carried : List ℕ → Type 0
Carried m = (0 < length m) × (length m ≤ max_payload)

abbrev pub AllCarried : List (List ℕ) → Type 0
AllCarried [] = Unit {0}
AllCarried (m ∷ ms) = Carried m × AllCarried ms

-- The dispatcher takes at most so many turns until it is behind a test of the flag; the request
-- that it serves has sound sections, and the response that it sends can be carried.
pub data Serves : ℕ → Dispatcher → Type 0 where
  testing : {k : ℕ} → 1 ≤ k → Serves k Dispatcher.testing
  popping : {k : ℕ} → 8 ≤ k → Serves k Dispatcher.popping
  serving :
      {k n : ℕ} {req : List ℕ} {p : Program}
      → 3 + n ≤ k
      → IsSound req max_msg_len n p
      → Serves k (Dispatcher.serving req p)
  sending : {k : ℕ} {bytes : List ℕ} → 2 ≤ k → Carried bytes → Serves k (Dispatcher.sending bytes)
  ended : {k : ℕ} → Serves k Dispatcher.ended

pub Serves-more : {k : ℕ} {pc : Dispatcher} (m : ℕ) → Serves k pc → k ≤ m → Serves m pc
Serves-more m (Serves.testing h) le = Serves.testing (omega arith)
Serves-more m (Serves.popping h) le = Serves.popping (omega arith)
Serves-more m (Serves.serving h s) le = Serves.serving (omega arith) s
Serves-more m (Serves.sending h c) le = Serves.sending (omega arith) c
Serves-more m Serves.ended le = Serves.ended

-- How many turns are left after one: one less if the flag is up and the queue closed.
abbrev pub left : Bool → ℕ → ℕ
left true k = k - 1
left false k = 8

pub AllCarried-append :
    (ms ns : List (List ℕ)) → AllCarried ms → AllCarried ns → AllCarried (ms ++ ns)
AllCarried-append [] ns h k = k
AllCarried-append (m ∷ ms) ns h k = (h.0, AllCarried-append ms ns h.1 k)

answered-Serves :
    (req : List ℕ) (o : Outcome) (k : ℕ) → 2 ≤ k → Answers req max_msg_len o → Serves k (answered o)
answered-Serves req (reply bytes) k two a = elim (Bool-cases (length bytes == 0)) [
  | inl empty ↦ rw empty (Serves.testing (omega arith))
  | inr full ↦ rw full (Serves.sending two (ground (arith, a)))
]
answered-Serves req (suppressed bytes) k two a = Serves.testing (omega arith)
answered-Serves req dropped k two a = Serves.testing (omega arith)

took-Serves :
    (env : Env) (r : Popped) (b : Bool) (k : ℕ)
    → IsSane env
    → (b ≡ true → r ≢ pop_waits)
    → 8 ≤ k
    → Serves (left b k) (took env r)
took-Serves env pop_waits true k sane wait eight = absurd (wait refl refl)
took-Serves env pop_waits false k sane wait eight = Serves.popping (omega arith)
took-Serves env pop_refused b k sane wait eight = Serves.ended
took-Serves env (popped msg) true k sane wait eight =
    Serves.serving (omega arith) (request-IsSound env msg max_msg_len sane (omega arith))
took-Serves env (popped msg) false k sane wait eight =
    Serves.serving (omega arith) (request-IsSound env msg max_msg_len sane (omega arith))

closed-answers :
    (stop : Bool) (q : UdsQueue) → (stop && q.closed) ≡ true → (pop_blocking q).0 ≢ pop_waits
unfolding pop_blocking
closed-answers stop q c = ground arith

left-le : (b : Bool) (k m : ℕ) → k ≤ 8 → m + 1 ≤ k → m ≤ left b k
left-le true k m eight h = omega arith
left-le false k m eight h = omega arith

AllCarried-send_on :
    (sock : Option ℕ) (bytes : List ℕ) → Carried bytes → AllCarried (send_on sock none bytes).1
AllCarried-send_on none bytes c = tt
AllCarried-send_on (some s) bytes c = (c, tt)

module _ (env : Env) (sane : IsSane env) (stop : Bool) (io : KernelIo) (s : Vecu)
    (q : UdsQueue) where
  pub dispatch_turn-Serves :
      (k : ℕ) {pc : Dispatcher}
      → k ≤ 8
      → Invariant.IsValid s
      → Serves k pc
      → Serves (left (stop && q.closed) k) (dispatch_turn env stop io pc s q).0
  dispatch_turn-Serves k eight v (Serves.testing h) = elim (Bool-cases stop) [
    | inl up ↦ rw up Serves.ended
    | inr down ↦ rw down (Serves.popping (omega arith))
  ]
  dispatch_turn-Serves k eight v (Serves.popping h) =
      took-Serves env (pop_blocking q).0 (stop && q.closed) k sane (closed-answers stop q) h
  dispatch_turn-Serves k eight v (Serves.serving {req = req} h (returns a)) =
      answered-Serves req _ _ (left-le _ k 2 eight (omega arith)) a
  dispatch_turn-Serves k eight v (Serves.serving {req = req} h (sections {n = n} keep rest)) =
      Serves.serving (left-le _ k (3 + n) eight (omega arith)) (rest s v)
  dispatch_turn-Serves k eight v (Serves.sending h c) =
      Serves.testing (left-le _ k 1 eight (omega arith))
  dispatch_turn-Serves k eight v Serves.ended = Serves.ended

  pub dispatch_turn-IsValid :
      {k : ℕ} {pc : Dispatcher}
      → Invariant.IsValid s
      → Fifo.IsValid q
      → Serves k pc
      → let (after, t, r, out) = dispatch_turn env stop io pc s q in
        Invariant.IsValid t × Fifo.IsValid r × AllCarried out
  dispatch_turn-IsValid v w (Serves.testing h) = (v, w, tt)
  dispatch_turn-IsValid v w (Serves.popping h) = (v, (pop_blocking-Refines q w).valid, tt)
  dispatch_turn-IsValid v w (Serves.serving h (returns a)) = (v, w, tt)
  dispatch_turn-IsValid v w (Serves.serving h (sections keep rest)) = (keep s v, w, tt)
  dispatch_turn-IsValid v w (Serves.sending {bytes = bytes} h c) =
      (v, w, AllCarried-send_on io.sock bytes c)
  dispatch_turn-IsValid v w Serves.ended = (v, w, tt)
