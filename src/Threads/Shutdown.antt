-- ===== src/Threads/Shutdown.antt =====
-- The end of the process of src/main.c and src/threads.c, once the stop flag is up.
use vecu_uds.Base.{none, refl, arith, inr, inl, ◌≤◌, [], true, ◌∷◌, ◌⊎◌, ◌≡◌, List}
use vecu_uds.Threads.{
  checking, app_thread_main, rx_thread_main, finished, dispatch_thread_main, Ecu, s3_thread_main,
}
use vecu_uds.Threads.Process.{
  woken, all_ended, engine, signal, receive, dispatch, timer, on_signal, main_goes_on, main_thread,
  Action, act_all, act,
}
use vecu_uds.App.{Doubles}
use vecu_uds.Threads.Interleaving.{act_all-IsEcu, act-IsEcu, IsEcu, SaneClocks}
use vecu_uds.Threads.Stopping.{Stops-closed, act_all-Stops, still-Stops, joins, Stops}
use vecu_uds.Threads.Ending.{act_all-Ends, starts-Ends, still-Ends, Ends-all_ended, Ends}
use vecu_uds.Threads.Counts.{engines, timers, dispatches, receives, turns, mains}

act-finished :
    (d : Doubles) (x : Action d) (e : Ecu) → e.main ≡ finished → (act x e).main ≡ finished
unfolding act s3_thread_main dispatch_thread_main rx_thread_main app_thread_main main_thread
    on_signal
act-finished d (timer clock) e h = h
act-finished d (dispatch env) e h = h
act-finished d (receive answer) e h = h
act-finished d engine e h = h
act-finished d main_goes_on e h = simp h refl
act-finished d (signal to_main) e h = simp h refl

act_all-finished :
    (d : Doubles) (rest : List (Action d)) (e : Ecu)
    → e.main ≡ finished
    → (act_all rest e).main ≡ finished
unfolding act_all
act_all-finished d [] e h = h
act_all-finished d (x ∷ rest) e h = act_all-finished d rest (act x e) (act-finished d x e h)

main-cases : (d : Doubles) (x : Action d) → (x ≡ main_goes_on) ⊎ (mains x ≡ 0)
main-cases d main_goes_on = inl refl
main-cases d (timer clock) = inr refl
main-cases d (dispatch env) = inr refl
main-cases d (receive answer) = inr refl
main-cases d engine = inr refl
main-cases d (signal to_main) = inr refl

main_goes_on-finished :
    (d : Doubles) (e : Ecu)
    → Stops 0 e
    → Ends 0 0 0 0 e
    → (act {d = d} main_goes_on e).main ≡ finished
unfolding act main_thread
main_goes_on-finished d e stops ends =
    simp stops.stop (joins _ e.main e.io e.req_q (Ends-all_ended e ends) stops.main)

finishes :
    (d : Doubles) (rest : List (Action d)) (e : Ecu)
    → SaneClocks rest
    → IsEcu e
    → Stops 0 e
    → Ends 0 0 0 0 e
    → 1 ≤ turns mains rest
    → (act_all rest e).main ≡ finished
unfolding act_all
finishes d [] e sane v stops ends one = absurd (omega arith)
finishes d (x ∷ rest) e sane v stops ends one = elim (main-cases d x) [
  | inl mine ↦ act_all-finished d rest (act x e) (rw mine (main_goes_on-finished d e stops ends))
  | inr others ↦
      finishes d rest (act x e) sane.1 (act-IsEcu d x e sane.0 v) (still-Stops d x e stops)
        (still-Ends d x e sane.0 v stops ends) (omega (arith, others))
]

signal-IsEcu : (e : Ecu) → IsEcu e → IsEcu (on_signal true e)
unfolding on_signal
signal-IsEcu e v = record {
  state = v.state;
  queue = v.queue;
  carried = v.carried;
  dispatcher = v.dispatcher;
}

-- A signal that main's thread takes in pause(), or before it tests the flag, brings the process
-- to its end, if the shared state was well formed and no request's clock reading is at the end
-- of its range: in any schedule in which main first takes three turns, then the receive,
-- dispatch, S3 and engine threads take 5, 8, 6 and 2 of their own, and then main one more,
-- whatever else happens in between, main returns, the four threads have ended, and the socket
-- and the queue are closed.
pub on_signal-finished :
    (d : Doubles) (a b c : List (Action d)) (e : Ecu)
    → SaneClocks a
    → SaneClocks b
    → SaneClocks c
    → IsEcu e
    → woken true e.main ≡ checking
    → 3 ≤ turns mains a
    → 5 ≤ turns receives b
    → 8 ≤ turns dispatches b
    → 6 ≤ turns timers b
    → 2 ≤ turns engines b
    → 1 ≤ turns mains c
    → let after = act_all c (act_all b (act_all a (on_signal true e))) in
      (after.main ≡ finished)
      × (all_ended after.rx after.dispatcher after.app after.s3 ≡ true)
      × (after.io.sock ≡ none)
      × (after.req_q.closed ≡ true)
unfolding on_signal
on_signal-finished d a b c e₀ sa sb sc v main three five eight six two one =
    let e = on_signal true e₀ in
    let v₀ : IsEcu e = signal-IsEcu e₀ v in
    let stops₀ : Stops 3 e = record { stop = refl; main = rw main (omega arith) } in
    let stops₁ = act_all-Stops d 3 a e stops₀ three in
    let v₁ = act_all-IsEcu d a e sa v₀ in
    let stops₂ = act_all-Stops d 0 b (act_all a e) stops₁ (omega arith) in
    let v₂ = act_all-IsEcu d b (act_all a e) sb v₁ in
    let ends₁ = starts-Ends (act_all a e) (Stops-closed (act_all a e) stops₁).1 v₁ in
    let ends₂ = act_all-Ends d 5 8 6 2 b (act_all a e) sb v₁ stops₁.stop ends₁ five eight six two in
    let stops₃ = act_all-Stops d 0 c (act_all b (act_all a e)) stops₂ (omega arith) in
    let ends₃ =
      act_all-Ends d 0 0 0 0 c (act_all b (act_all a e)) sc v₂ stops₂.stop ends₂ (omega arith)
        (omega arith) (omega arith) (omega arith) in
    let closed = Stops-closed (act_all c (act_all b (act_all a e))) stops₃ in
    (
      finishes d c (act_all b (act_all a e)) sc v₂ stops₂ ends₂ one,
      Ends-all_ended _ ends₃,
      closed.0,
      closed.1,
    )
