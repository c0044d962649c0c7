-- ===== src/Threads/Stopping.antt =====
-- main of src/main.c on its way out, whatever the threads do.
use vecu_uds.Base.{refl, false, [], ◌≤◌, ◌∷◌, arith, true, none, ◌≡◌, ℕ, Bool, List, ◌-◌, zero, suc}
use vecu_uds.Threads.{
  joining, closing_socket, closing_queue, paused, about_to_pause, app_thread_main, finished,
  checking, rx_thread_main, dispatch_thread_main, s3_thread_main, Main, Ecu,
}
use vecu_uds.Threads.Process.{
  main_goes_on, engine, signal, receive, dispatch, timer, on_signal, main_thread, woken, main_turn,
  Action, act, act_all,
}
use vecu_uds.Queue.{UdsQueue, shutdown}
use vecu_uds.Sockets.KernelIo.{KernelIo, isotp_kio_close}
use vecu_uds.App.{Doubles}
use vecu_uds.Threads.Counts.{spend-le, spend, mains, turns}
use vecu_uds.Threads.Turns.{rx_turn-closed, dispatch_turn-closed}

-- Where main stands, with at most so many turns to its first join.
abbrev pub Stopping : ℕ → Main → KernelIo → UdsQueue → Type 0
Stopping m checking io q = 3 ≤ m
Stopping m about_to_pause io q = ⊥
Stopping m paused io q = ⊥
Stopping m closing_queue io q = 2 ≤ m
Stopping m closing_socket io q = (1 ≤ m) × (q.closed ≡ true)
Stopping m joining io q = (io.sock ≡ none) × (q.closed ≡ true)
Stopping m finished io q = (io.sock ≡ none) × (q.closed ≡ true)

pub record Stops (m : ℕ) (e : Ecu) : Type 0 where
  pub stop : e.stop ≡ true
  pub main : Stopping m e.main e.io e.req_q

pub main_turn-Stopping :
    (m : ℕ) (joined : Bool) (pc : Main) (io : KernelIo) (q : UdsQueue)
    → Stopping m pc io q
    → let (after, io', q') = main_turn true joined pc io q in Stopping (m - 1) after io' q'
unfolding shutdown isotp_kio_close
main_turn-Stopping m joined checking io q h = omega arith
main_turn-Stopping m joined about_to_pause io q h = absurd h
main_turn-Stopping m joined paused io q h = absurd h
main_turn-Stopping m joined closing_queue io q h = (omega arith, refl)
main_turn-Stopping m joined closing_socket io q h = (refl, h.1)
main_turn-Stopping m true joining io q h = h
main_turn-Stopping m false joining io q h = h
main_turn-Stopping m joined finished io q h = h

pub main_turn-closed :
    (stop joined : Bool) (pc : Main) (io : KernelIo) (q : UdsQueue)
    → q.closed ≡ true
    → (main_turn stop joined pc io q).2.closed ≡ true
unfolding shutdown
main_turn-closed stop joined checking io q c = c
main_turn-closed stop joined about_to_pause io q c = c
main_turn-closed stop joined paused io q c = c
main_turn-closed stop joined closing_queue io q c = refl
main_turn-closed stop joined closing_socket io q c = c
main_turn-closed stop joined joining io q c = c
main_turn-closed stop joined finished io q c = c

pub woken-Stopping :
    (m : ℕ) (to_main : Bool) (pc : Main) (io : KernelIo) (q : UdsQueue)
    → Stopping m pc io q
    → Stopping m (woken to_main pc) io q
woken-Stopping m to_main checking io q h = h
woken-Stopping m to_main about_to_pause io q h = absurd h
woken-Stopping m to_main paused io q h = absurd h
woken-Stopping m to_main closing_queue io q h = h
woken-Stopping m to_main closing_socket io q h = h
woken-Stopping m to_main joining io q h = h
woken-Stopping m to_main finished io q h = h

-- Another thread's use of the queue, which never opens it again.
pub queue-Stopping :
    (m : ℕ) (pc : Main) (io : KernelIo) (q r : UdsQueue)
    → (q.closed ≡ true → r.closed ≡ true)
    → Stopping m pc io q
    → Stopping m pc io r
queue-Stopping m checking io q r keep h = h
queue-Stopping m about_to_pause io q r keep h = h
queue-Stopping m paused io q r keep h = h
queue-Stopping m closing_queue io q r keep h = h
queue-Stopping m closing_socket io q r keep h = (h.0, keep h.1)
queue-Stopping m joining io q r keep h = (h.0, keep h.1)
queue-Stopping m finished io q r keep h = (h.0, keep h.1)

pub act-Stops :
    (d : Doubles) (m : ℕ) (x : Action d) (e : Ecu) → Stops m e → Stops (spend (mains x) m) (act x e)
unfolding act s3_thread_main dispatch_thread_main rx_thread_main app_thread_main main_thread
    on_signal
act-Stops d m (timer clock) e v = record { stop = v.stop; main = v.main }
act-Stops d m (dispatch env) e v = record {
  stop = v.stop;
  main =
      queue-Stopping m e.main e.io e.req_q _
        (dispatch_turn-closed env e.stop e.io e.dispatcher e.state e.req_q) v.main;
}
act-Stops d m (receive answer) e v = record {
  stop = v.stop;
  main =
      queue-Stopping m e.main e.io e.req_q _
        (rx_turn-closed answer e.stop e.io e.rx e.errno e.req_q) v.main;
}
act-Stops d m engine e v = record { stop = v.stop; main = v.main }
act-Stops d m main_goes_on e v = record {
  stop = v.stop;
  main = simp v.stop (main_turn-Stopping m _ e.main e.io e.req_q v.main);
}
act-Stops d m (signal to_main) e v = record {
  stop = refl;
  main = woken-Stopping m to_main e.main e.io e.req_q v.main;
}

pub act-stop : (d : Doubles) (x : Action d) (e : Ecu) → e.stop ≡ true → (act x e).stop ≡ true
unfolding act s3_thread_main dispatch_thread_main rx_thread_main app_thread_main main_thread
    on_signal
act-stop d (timer clock) e up = up
act-stop d (dispatch env) e up = up
act-stop d (receive answer) e up = up
act-stop d engine e up = up
act-stop d main_goes_on e up = up
act-stop d (signal to_main) e up = refl

pub act_all-Stops :
    (d : Doubles) (m : ℕ) (rest : List (Action d)) (e : Ecu)
    → Stops m e
    → m ≤ turns mains rest
    → Stops 0 (act_all rest e)
unfolding act_all
act_all-Stops d zero [] e v few = v
act_all-Stops d (suc m) [] e v few = absurd (omega arith)
act_all-Stops d m (x ∷ rest) e v few =
    act_all-Stops d (spend (mains x) m) rest (act x e) (act-Stops d m x e v)
      (spend-le (mains x) few)

pub Stopping-closed :
    (pc : Main) (io : KernelIo) (q : UdsQueue)
    → Stopping 0 pc io q
    → (io.sock ≡ none) × (q.closed ≡ true)
Stopping-closed checking io q h = absurd (omega arith)
Stopping-closed about_to_pause io q h = absurd h
Stopping-closed paused io q h = absurd h
Stopping-closed closing_queue io q h = absurd (omega arith)
Stopping-closed closing_socket io q h = absurd (omega arith)
Stopping-closed joining io q h = h
Stopping-closed finished io q h = h

pub Stops-closed : (e : Ecu) → Stops 0 e → (e.io.sock ≡ none) × (e.req_q.closed ≡ true)
Stops-closed e v = Stopping-closed e.main e.io e.req_q v.main

-- main joins threads that have ended, and then stays at its end.
pub joins :
    (joined : Bool) (pc : Main) (io : KernelIo) (q : UdsQueue)
    → joined ≡ true
    → Stopping 0 pc io q
    → (main_turn true joined pc io q).0 ≡ finished
joins joined checking io q all h = absurd (omega arith)
joins joined about_to_pause io q all h = absurd h
joins joined paused io q all h = absurd h
joins joined closing_queue io q all h = absurd (omega arith)
joins joined closing_socket io q all h = absurd (omega arith)
joins joined joining io q all h = rw all refl
joins joined finished io q all h = refl

pub still-Stops : (d : Doubles) (x : Action d) (e : Ecu) → Stops 0 e → Stops 0 (act x e)
unfolding act_all
still-Stops d x e stops = act_all-Stops d 0 (x ∷ []) e stops (omega arith)
