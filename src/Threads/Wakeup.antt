-- ===== src/Threads/Wakeup.antt =====
-- The wait for a signal in main of src/main.c.
use vecu_uds.Base.{[], arith, ◌∷◌, refl, ◌≡◌, ℕ, false, true, Bool, List}
use vecu_uds.Threads.Process.{
  main_goes_on, engine, receive, dispatch, timer, main_thread, main_turn, signal, Action, act,
  on_signal, act_all,
}
use vecu_uds.Threads.{
  finished, joining, closing_socket, closing_queue, checking, app_thread_main, paused,
  rx_thread_main, about_to_pause, dispatch_thread_main, Ecu, s3_thread_main, Main,
}
use vecu_uds.App.{Doubles}
use vecu_uds.Sockets.KernelIo.{KernelIo}
use vecu_uds.Queue.{UdsQueue}
use vecu_uds.Threads.Counts.{turns}
use vecu_uds.Threads.Stopping.{act-stop}

-- How many signals a schedule has.
abbrev pub signals : {d : Doubles} → Action d → ℕ
signals (signal to_main) = 1
signals other_action = 0

-- main is between its test of the flag and the return of pause().
abbrev pub waiting : Main → Bool
waiting about_to_pause = true
waiting paused = true
waiting checking = false
waiting closing_queue = false
waiting closing_socket = false
waiting joining = false
waiting finished = false

main_turn-waiting :
    (stop joined : Bool) (pc : Main) (io : KernelIo) (q : UdsQueue)
    → waiting pc ≡ true
    → waiting (main_turn stop joined pc io q).0 ≡ true
main_turn-waiting stop joined about_to_pause io q h = refl
main_turn-waiting stop joined paused io q h = refl
main_turn-waiting stop joined checking io q h = cc
main_turn-waiting stop joined closing_queue io q h = cc
main_turn-waiting stop joined closing_socket io q h = cc
main_turn-waiting stop joined joining io q h = cc
main_turn-waiting stop joined finished io q h = cc

act-waiting :
    (d : Doubles) (x : Action d) (e : Ecu)
    → signals x ≡ 0
    → waiting e.main ≡ true
    → waiting (act x e).main ≡ true
unfolding act s3_thread_main dispatch_thread_main rx_thread_main app_thread_main main_thread
    on_signal
act-waiting d (timer clock) e none_sent h = h
act-waiting d (dispatch env) e none_sent h = h
act-waiting d (receive answer) e none_sent h = h
act-waiting d engine e none_sent h = h
act-waiting d main_goes_on e none_sent h = main_turn-waiting e.stop _ e.main e.io e.req_q h
act-waiting d (signal to_main) e none_sent h = absurd (omega arith)

-- Without a signal main waits on.
pub act_all-waiting :
    (d : Doubles) (rest : List (Action d)) (e : Ecu)
    → turns signals rest ≡ 0
    → waiting e.main ≡ true
    → waiting (act_all rest e).main ≡ true
unfolding act_all
act_all-waiting d [] e none_sent h = h
act_all-waiting d (x ∷ rest) e none_sent h =
    act_all-waiting d rest (act x e) (omega arith) (act-waiting d x e (omega arith) h)

act_all-stop :
    (d : Doubles) (rest : List (Action d)) (e : Ecu) → e.stop ≡ true → (act_all rest e).stop ≡ true
unfolding act_all
act_all-stop d [] e up = up
act_all-stop d (x ∷ rest) e up = act_all-stop d rest (act x e) (act-stop d x e up)

-- A signal that arrives between main's test of the flag and its call of pause() raises the flag and
-- does not wake main: in every schedule with no further signal main waits on.
pub on_signal-lost :
    (d : Doubles) (to_main : Bool) (rest : List (Action d)) (e : Ecu)
    → e.main ≡ about_to_pause
    → turns signals rest ≡ 0
    → let after = act_all rest (on_signal to_main e) in
      (after.stop ≡ true) × (waiting after.main ≡ true)
unfolding on_signal
on_signal-lost d to_main rest e before none_sent = (
  act_all-stop d rest (on_signal to_main e) refl,
  act_all-waiting d rest (on_signal to_main e) none_sent (simp before refl),
)
