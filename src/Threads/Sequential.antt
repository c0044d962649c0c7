-- ===== src/Threads/Sequential.antt =====
-- The dispatcher of src/threads.c serves requests as uds_process_request does in one piece, where
-- no other thread falls between the sections of a request.
use vecu_uds.Sockets.KernelIo.{send_on}
use vecu_uds.Base.{
  some, none, false, Option, ◌∙◌, sym, true, length, Bool-cases, append-nil, refl, ap, Bool, ◌≡◌, ℕ,
  List, ◌∷◌, [], ◌++◌, ◌==◌, inl, inr,
}
use vecu_uds.Uds.Sections.{run, section, return}
use vecu_uds.Threads.{
  finished, joining, closing_socket, closing_queue, paused, app_thread_main, ticking,
  about_to_pause, polling, rx_thread_main, checking, app_turn, s3_turn, dispatch_thread_main, Main,
  s3_thread_main, Ecu, dispatch_turn, took, answered, Dispatcher, S3Thread, AppThread,
}
use vecu_uds.Threads.Service.{
  IsUncut, ticked_by, event_by, polled_by, AllUncut, events, is_serving, taken_by, popped_by,
  transmit, settled, Event, serve, serve_all,
}
use vecu_uds.Vecu.{Vecu}
use vecu_uds.Uds.Reply.{dropped, suppressed, reply, Outcome}
use vecu_uds.App.{Doubles}
use vecu_uds.Clock.{Timespec, Env}
use vecu_uds.Queue.{pop_waits, pop_blocking, pop_refused, popped, UdsQueue, Popped}
use vecu_uds.Sockets.KernelIo.{isotp_kio_close, KernelIo}
use vecu_uds.Sockets.{is_open}
use vecu_uds.Uds.Sections.Whole.{request-Whole}
use vecu_uds.Types.{max_msg_len}
use vecu_uds.Threads.Process.{
  main_goes_on, engine, signal, receive, dispatch, timer, on_signal, main_thread, main_turn, Action,
  act, act_all,
}

serve_all-append :
    (d : Doubles) (xs ys : List Event) (w : Vecu × List (List ℕ))
    → serve_all d (xs ++ ys) w ≡ serve_all d ys (serve_all d xs w)
unfolding serve_all
serve_all-append d [] ys w = refl
serve_all-append d (x ∷ xs) ys w = serve_all-append d xs ys (serve d x w)

settled-answered :
    (o : Outcome) (s : Vecu) (out : List (List ℕ))
    → settled (answered o) s out ≡ (s, out ++ transmit o)
settled-answered (reply bytes) s out = elim (Bool-cases (length bytes == 0)) [
  | inl empty ↦ rw empty (ap (λ xs. (s, xs)) (sym (append-nil out)))
  | inr full ↦ rw full refl
]
settled-answered (suppressed bytes) s out = ap (λ xs. (s, xs)) (sym (append-nil out))
settled-answered dropped s out = ap (λ xs. (s, xs)) (sym (append-nil out))

settled-took :
    (d : Doubles) (env : Env) (r : Popped) (s : Vecu) (out : List (List ℕ))
    → settled (took env r) s (out ++ []) ≡ serve_all d (popped_by env r) (s, out)
unfolding serve_all serve
settled-took d env (popped msg) s out =
    rw (append-nil out, request-Whole env msg max_msg_len s) refl
settled-took d env pop_refused s out = ap (λ xs. (s, xs)) (append-nil out)
settled-took d env pop_waits s out = ap (λ xs. (s, xs)) (append-nil out)

settled-nil :
    (pc : Dispatcher) (s : Vecu) (out : List (List ℕ)) → settled pc s (out ++ []) ≡ settled pc s out
settled-nil pc s out = ap (settled pc s) (append-nil out)

send_on-open :
    (sock : Option ℕ) (bytes : List ℕ)
    → is_open sock ≡ true
    → (send_on sock none bytes).1 ≡ bytes ∷ []
send_on-open (some fd) bytes o = refl
send_on-open none bytes o = cc

dispatch_turn-settled :
    (d : Doubles) (env : Env) (stop : Bool) (io : KernelIo) (s : Vecu) (q : UdsQueue)
    (out : List (List ℕ)) (pc : Dispatcher)
    → is_open io.sock ≡ true
    → let (after, t, r, written) = dispatch_turn env stop io pc s q in
      settled after t (out ++ written) ≡ serve_all d (taken_by env pc q) (settled pc s out)
unfolding serve_all run
dispatch_turn-settled d env stop io s q out Dispatcher.testing o = elim (Bool-cases stop) [
  | inl up ↦ rw up (settled-nil Dispatcher.ended s out)
  | inr down ↦ rw down (settled-nil Dispatcher.popping s out)
]
dispatch_turn-settled d env stop io s q out Dispatcher.popping o =
    settled-took d env (pop_blocking q).0 s out
dispatch_turn-settled d env stop io s q out (Dispatcher.serving req (return r)) o =
    settled-nil (answered r) s out ∙ settled-answered r s out
dispatch_turn-settled d env stop io s q out (Dispatcher.serving req (section f k)) o =
    settled-nil (Dispatcher.serving req (k s)) (f s) out
dispatch_turn-settled d env stop io s q out (Dispatcher.sending bytes) o =
    ap (λ xs. (s, out ++ xs)) (send_on-open io.sock bytes o)
dispatch_turn-settled d env stop io s q out Dispatcher.ended o = settled-nil Dispatcher.ended s out

s3_turn-settled :
    (d : Doubles) (clock : Timespec) (stop : Bool) (thread : S3Thread) (s : Vecu)
    (out : List (List ℕ)) (pc : Dispatcher)
    → is_serving pc ≡ false
    → settled pc (s3_turn clock stop thread s).1 out
      ≡ serve_all d (polled_by clock thread) (settled pc s out)
unfolding serve_all serve
s3_turn-settled d clock stop S3Thread.testing s out pc idle = refl
s3_turn-settled d clock stop S3Thread.ended s out pc idle = refl
s3_turn-settled d clock stop (polling at_pc) s out Dispatcher.testing idle = refl
s3_turn-settled d clock stop (polling at_pc) s out Dispatcher.popping idle = refl
s3_turn-settled d clock stop (polling at_pc) s out (Dispatcher.serving req p) idle = cc
s3_turn-settled d clock stop (polling at_pc) s out (Dispatcher.sending bytes) idle = refl
s3_turn-settled d clock stop (polling at_pc) s out Dispatcher.ended idle = refl

app_turn-settled :
    (d : Doubles) (stop : Bool) (thread : AppThread) (s : Vecu) (out : List (List ℕ))
    (pc : Dispatcher)
    → is_serving pc ≡ false
    → settled pc (app_turn d stop thread s).1 out
      ≡ serve_all d (ticked_by thread) (settled pc s out)
unfolding serve_all serve
app_turn-settled d stop AppThread.testing s out pc idle = refl
app_turn-settled d stop AppThread.ended s out pc idle = refl
app_turn-settled d stop ticking s out Dispatcher.testing idle = refl
app_turn-settled d stop ticking s out Dispatcher.popping idle = refl
app_turn-settled d stop ticking s out (Dispatcher.serving req p) idle = cc
app_turn-settled d stop ticking s out (Dispatcher.sending bytes) idle = refl
app_turn-settled d stop ticking s out Dispatcher.ended idle = refl

main_turn-open :
    (stop joined : Bool) (pc : Main) (io : KernelIo) (q : UdsQueue)
    → is_open (main_turn stop joined pc io q).1.sock ≡ true
    → is_open io.sock ≡ true
unfolding isotp_kio_close
main_turn-open stop joined checking io q h = h
main_turn-open stop joined about_to_pause io q h = h
main_turn-open stop joined paused io q h = h
main_turn-open stop joined closing_queue io q h = h
main_turn-open stop joined closing_socket io q h = cc
main_turn-open stop joined joining io q h = h
main_turn-open stop joined finished io q h = h

-- The socket is not opened again.
act-open :
    (d : Doubles) (x : Action d) (e : Ecu)
    → is_open (act x e).io.sock ≡ true
    → is_open e.io.sock ≡ true
unfolding act s3_thread_main dispatch_thread_main rx_thread_main app_thread_main main_thread
    on_signal
act-open d (timer clock) e h = h
act-open d (dispatch env) e h = h
act-open d (receive answer) e h = h
act-open d engine e h = h
act-open d main_goes_on e h = main_turn-open e.stop _ e.main e.io e.req_q h
act-open d (signal to_main) e h = h

act_all-open :
    (d : Doubles) (rest : List (Action d)) (e : Ecu)
    → is_open (act_all rest e).io.sock ≡ true
    → is_open e.io.sock ≡ true
unfolding act_all
act_all-open d [] e h = h
act_all-open d (x ∷ rest) e h = act-open d x e (act_all-open d rest (act x e) h)

abbrev pub settled_of : Ecu → Vecu × List (List ℕ)
settled_of e = settled e.dispatcher e.state e.transmitted

act-settled :
    (d : Doubles) (x : Action d) (e : Ecu)
    → IsUncut x e
    → is_open e.io.sock ≡ true
    → settled_of (act x e) ≡ serve_all d (event_by x e) (settled_of e)
unfolding act s3_thread_main dispatch_thread_main rx_thread_main app_thread_main main_thread
    on_signal serve_all
act-settled d (timer clock) e idle o =
    s3_turn-settled d clock e.stop e.s3 e.state e.transmitted e.dispatcher idle
act-settled d (dispatch env) e idle o =
    dispatch_turn-settled d env e.stop e.io e.state e.req_q e.transmitted e.dispatcher o
act-settled d (receive answer) e idle o = refl
act-settled d engine e idle o =
    app_turn-settled d e.stop e.app e.state e.transmitted e.dispatcher idle
act-settled d main_goes_on e idle o = refl
act-settled d (signal to_main) e idle o = refl

pub act_all-settled :
    (d : Doubles) (rest : List (Action d)) (e : Ecu)
    → AllUncut rest e
    → is_open (act_all rest e).io.sock ≡ true
    → settled_of (act_all rest e) ≡ serve_all d (events rest e) (settled_of e)
unfolding act_all events AllUncut serve_all
act_all-settled d [] e uncut o = refl
act_all-settled d (x ∷ rest) e uncut o =
    act_all-settled d rest (act x e) uncut.1 o
    ∙ ap (serve_all d (events rest (act x e)))
        (act-settled d x e uncut.0 (act-open d x e (act_all-open d rest (act x e) o)))
    ∙ sym (serve_all-append d (event_by x e) (events rest (act x e)) (settled_of e))
