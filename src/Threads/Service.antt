-- ===== src/Threads/Service.antt =====
-- The process of src/main.c and src/threads.c as a server that takes one request at a time: what a
-- schedule reads, and in which order it serves requests, polls the S3 timer and ticks the engine.
use vecu_uds.Uds.Sections.{run}
use vecu_uds.Base.{◌≡◌, false, length, true, Bool, ℕ, List, ◌∷◌, [], ◌++◌, if◌then◌else◌, ◌==◌}
use vecu_uds.Threads.{
  leaving, s3_step, reading, Ecu, ticking, receiving, S3, pushing, polling, Rx, Dispatcher,
  AppThread, S3Thread,
}
use vecu_uds.Sockets.{ReadAnswer, got, failed}
use vecu_uds.Clock.{Env, Timespec}
use vecu_uds.Uds.Reply.{dropped, suppressed, reply, Outcome}
use vecu_uds.Vecu.{Vecu}
use vecu_uds.App.{app_tick, Doubles}
use vecu_uds.Queue.{pop_waits, pop_refused, popped, pop_blocking, UdsQueue, Popped}
use vecu_uds.Uds.Dispatch.{process_request}
use vecu_uds.Threads.Process.{main_goes_on, engine, signal, dispatch, timer, act, receive, Action}
use vecu_uds.Types.{max_msg_len}

-- What happens to the ECU state: a request is served, a step of the S3 thread, a tick.
pub data Event : Type 0 where
  request : Env → List ℕ → Event
  polled : Timespec → S3 → Event
  ticked : Event

-- uds_process_request with its response handed to write(), and the other two.
abbrev pub transmit : Outcome → List (List ℕ)
transmit (reply bytes) = if length bytes == 0 then [] else bytes ∷ []
transmit (suppressed bytes) = []
transmit dropped = []

unfoldable pub serve : Doubles → Event → Vecu × List (List ℕ) → Vecu × List (List ℕ)
serve d (request env msg) (s, out) =
    let (o, t) = process_request env msg max_msg_len s in (t, out ++ transmit o)
serve d (polled clock pc) (s, out) = ((s3_step clock pc s).1, out)
serve d ticked (s, out) = (record s { app = app_tick d s.app }, out)

unfoldable pub serve_all : Doubles → List Event → Vecu × List (List ℕ) → Vecu × List (List ℕ)
serve_all d [] w = w
serve_all d (x ∷ xs) w = serve_all d xs (serve d x w)

abbrev pub requests : List Event → List (List ℕ)
requests [] = []
requests (request env msg ∷ xs) = msg ∷ requests xs
requests (polled clock pc ∷ xs) = requests xs
requests (ticked ∷ xs) = requests xs

-- The event of a turn, if it has one: the dispatcher's is the request that it pops.
abbrev pub popped_by : Env → Popped → List Event
popped_by env (popped msg) = request env msg ∷ []
popped_by env pop_refused = []
popped_by env pop_waits = []

abbrev pub taken_by : Env → Dispatcher → UdsQueue → List Event
taken_by env Dispatcher.testing q = []
taken_by env Dispatcher.popping q = popped_by env (pop_blocking q).0
taken_by env (Dispatcher.serving req p) q = []
taken_by env (Dispatcher.sending bytes) q = []
taken_by env Dispatcher.ended q = []

abbrev pub polled_by : Timespec → S3Thread → List Event
polled_by clock S3Thread.testing = []
polled_by clock (polling pc) = polled clock pc ∷ []
polled_by clock S3Thread.ended = []

abbrev pub ticked_by : AppThread → List Event
ticked_by AppThread.testing = []
ticked_by ticking = ticked ∷ []
ticked_by AppThread.ended = []

abbrev pub event_by : {d : Doubles} → Action d → Ecu → List Event
event_by (timer clock) e = polled_by clock e.s3
event_by (dispatch env) e = taken_by env e.dispatcher e.req_q
event_by (receive answer) e = []
event_by engine e = ticked_by e.app
event_by main_goes_on e = []
event_by (signal to_main) e = []

unfoldable pub events : {d : Doubles} → List (Action d) → Ecu → List Event
events [] e = []
events (x ∷ rest) e = event_by x e ++ events rest (act x e)

-- The messages that read() brings, and the one that waits to be pushed.
abbrev pub pending : Rx → List (List ℕ)
pending Rx.testing = []
pending receiving = []
pending reading = []
pending (pushing bytes) = bytes ∷ []
pending leaving = []
pending Rx.ended = []

abbrev pub read_bytes : ReadAnswer → List (List ℕ)
read_bytes (got bytes) = if length bytes == 0 then [] else bytes ∷ []
read_bytes (failed errno) = []

abbrev pub brought : ReadAnswer → Rx → List (List ℕ)
brought answer Rx.testing = []
brought answer receiving = []
brought answer reading = read_bytes answer
brought answer (pushing bytes) = []
brought answer leaving = []
brought answer Rx.ended = []

abbrev pub brought_by : {d : Doubles} → Action d → Ecu → List (List ℕ)
brought_by (receive answer) e = brought answer e.rx
brought_by (timer clock) e = []
brought_by (dispatch env) e = []
brought_by engine e = []
brought_by main_goes_on e = []
brought_by (signal to_main) e = []

unfoldable pub arrivals : {d : Doubles} → List (Action d) → Ecu → List (List ℕ)
arrivals [] e = []
arrivals (x ∷ rest) e = brought_by x e ++ arrivals rest (act x e)

-- The state and the messages written, once the dispatcher has finished its request.
abbrev pub settled : Dispatcher → Vecu → List (List ℕ) → Vecu × List (List ℕ)
settled Dispatcher.testing s out = (s, out)
settled Dispatcher.popping s out = (s, out)
settled (Dispatcher.serving req p) s out = let (o, t) = run p s in (t, out ++ transmit o)
settled (Dispatcher.sending bytes) s out = (s, out ++ bytes ∷ [])
settled Dispatcher.ended s out = (s, out)

-- No turn of the S3 thread or the engine falls between the sections of a request.
abbrev pub is_serving : Dispatcher → Bool
is_serving (Dispatcher.serving req p) = true
is_serving Dispatcher.testing = false
is_serving Dispatcher.popping = false
is_serving (Dispatcher.sending bytes) = false
is_serving Dispatcher.ended = false

abbrev pub IsUncut : {d : Doubles} → Action d → Ecu → Type 0
IsUncut (timer clock) e = is_serving e.dispatcher ≡ false
IsUncut engine e = is_serving e.dispatcher ≡ false
IsUncut (dispatch env) e = Unit {0}
IsUncut (receive answer) e = Unit {0}
IsUncut main_goes_on e = Unit {0}
IsUncut (signal to_main) e = Unit {0}

unfoldable pub AllUncut : {d : Doubles} → List (Action d) → Ecu → Type 0
AllUncut [] e = Unit {0}
AllUncut (x ∷ rest) e = IsUncut x e × AllUncut rest (act x e)
