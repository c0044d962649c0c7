-- ===== src/IsoTp/Examples.antt =====
-- A message of ten bytes over src/isotp.c, from the ECU to a tester.
use mathlib.Core.List.{Memᴰ}
use vecu_uds.Base.{inl, inr, arith, refl, some, true, ◌∷◌, [], ◌≡◌, Bool, List, ℕ}
use vecu_uds.IsoTp.Send.{waiting}
use vecu_uds.IsoTp.Written.{Unanswered, isotp_send-Ends, Ends}
use vecu_uds.IsoTp.Reassembly.{done, foreign, next, Delivery}
use vecu_uds.IsoTp.Capacity.{isotp_recv-WithinCapacity, WithinCapacity}
use vecu_uds.IsoTp.Send.{
  consecutive_frame, first_frame, sent, send_consecutive, wait_for_fc, isotp_send,
}
use vecu_uds.IsoTp.Frame.{arrived, Event, CanFrame, Addr}
use vecu_uds.IsoTp.Recv.{on_frame, recv_loop, recv_failed, flow_control, received, isotp_recv}
use vecu_uds.IsoTp.FlowControl.{wait_ignores_deadline}
use vecu_uds.IsoTp.RoundTrip.{isotp_recv-isotp_send}
use vecu_uds.IsoTp.Lost.{lost, Lossy, isotp_recv-Lossy}
use vecu_uds.IsoTp.Steps.{IsIntact}
use vecu_uds.IsoTp.Intact.{isotp_recv-Intact, AllFrom}
use vecu_uds.IsoTp.Layout.{numbered, layout}
use vecu_uds.IsoTp.Clearance.{Cleared}
use vecu_uds.IsoTp.Sent.{isotp_send-layout}

abbrev ecu : Addr
ecu = record { tx_id = 0x7E8; rx_id = 0x7E0 }

abbrev tester : Addr
tester = record { tx_id = 0x7E0; rx_id = 0x7E8 }

abbrev message : List ℕ
message = 1 ∷ 2 ∷ 3 ∷ 4 ∷ 5 ∷ 6 ∷ 7 ∷ 8 ∷ 9 ∷ 10 ∷ []

abbrev always : ℕ → Bool
always n = true

abbrev clearance : List Event
clearance = arrived (flow_control 0x7E0) 5 5 ∷ []

abbrev first : CanFrame
first = record { can_id = 0x7E8; payload = 0x10 ∷ 10 ∷ 1 ∷ 2 ∷ 3 ∷ 4 ∷ 5 ∷ 6 ∷ [] }

abbrev second : CanFrame
second = record { can_id = 0x7E8; payload = 0x21 ∷ 7 ∷ 8 ∷ 9 ∷ 10 ∷ 0 ∷ 0 ∷ 0 ∷ [] }

abbrev other : CanFrame
other = record { can_id = 0x123; payload = 0 ∷ [] }

frames_sent : isotp_send always 0 clearance ecu message ≡ some (sent (first ∷ second ∷ []))
unfolding isotp_send send_consecutive wait_for_fc
frames_sent = refl

abbrev arrivals : List Event
arrivals = arrived first 10 10 ∷ arrived other 11 11 ∷ arrived second 20 20 ∷ []

delivered : Delivery 0x7E8 1000 (first ∷ second ∷ []) arrivals
delivered =
    next first 10 10 (omega arith)
      (foreign other 11 11 (omega arith) (next second 20 20 (omega arith) done))

isotp_recv-isotp_send_example : isotp_recv always tester 64 arrivals ≡ received message
isotp_recv-isotp_send_example =
    isotp_recv-isotp_send always always 0 64 1000 clearance arrivals ecu tester message
      (first ∷ second ∷ []) (λ n. refl) refl refl (omega arith) (omega arith) (omega arith)
      frames_sent delivered

clearance-Cleared : Cleared 0x7E0 1000 clearance
clearance-Cleared = record {
  before = [];
  clearance = arrived (flow_control 0x7E0) 5 5;
  later_on = [];
  same = refl;
  pending = tt;
  cleared = refl;
}

isotp_send-layout_example :
    isotp_send always 0 clearance ecu message ≡ some (sent (layout 0x7E8 message))
isotp_send-layout_example =
    isotp_send-layout always 0 clearance ecu message (λ n. refl) (omega arith) (omega arith)
      (inr clearance-Cleared)

isotp_send-Ends_example :
    Ends
      (Unanswered ecu 0 [] message)
      []
      (layout 0x7E8 message)
      (isotp_send always 0 [] ecu message)
isotp_send-Ends_example = isotp_send-Ends always 0 [] ecu message (omega arith) (omega arith)

message_laid : layout 0x7E8 message ≡ first ∷ second ∷ []
unfolding numbered
message_laid = refl

still_waits : isotp_send always 0 [] ecu message ≡ some (waiting (first ∷ []))
unfolding isotp_send wait_for_fc
still_waits = refl

isotp_recv-WithinCapacity_example : WithinCapacity 64 (isotp_recv always tester 64 arrivals)
isotp_recv-WithinCapacity_example = isotp_recv-WithinCapacity always tester 64 arrivals

wait_ignores_deadline_example : wait_for_fc 0x7E0 1 clearance ≡ wait_for_fc 0x7E0 1000 clearance
wait_ignores_deadline_example = wait_ignores_deadline 0x7E0 1 1000 clearance (refl, tt)

-- A message of twenty bytes, of which the middle frame is lost.
abbrev long : List ℕ
long = 1 ∷ 2 ∷ 3 ∷ 4 ∷ 5 ∷ 6 ∷ 7 ∷ 8 ∷ 9 ∷ 10 ∷ 11 ∷ 12 ∷ 13 ∷ 14 ∷ 15 ∷ 16 ∷ 17 ∷ 18 ∷ 19 ∷ 20 ∷ []

abbrev middle : CanFrame
middle = consecutive_frame 0x7E8 long 6 1

abbrev last : CanFrame
last = consecutive_frame 0x7E8 long 13 2

long_sent :
    isotp_send always 0 clearance ecu long
    ≡ some (sent (first_frame 0x7E8 long ∷ middle ∷ last ∷ []))
unfolding isotp_send send_consecutive wait_for_fc
long_sent = refl

isotp_recv-Lossy_example :
    isotp_recv always tester 64
      (arrived (first_frame 0x7E8 long) 10 10 ∷ arrived other 11 11 ∷ arrived last 20 20 ∷ [])
    ≡ recv_failed
isotp_recv-Lossy_example =
    isotp_recv-Lossy always always 0 64 10 10 clearance
      (arrived other 11 11 ∷ arrived last 20 20 ∷ []) ecu tester long (first_frame 0x7E8 long)
      (middle ∷ last ∷ []) (λ n. refl) refl refl (omega arith) (omega arith) (omega arith) long_sent
      (Lossy.foreign other 11 11 (omega arith) (lost middle last 20 20))

-- The last frame comes first, and the first one three times.
abbrev shuffled : List Event
shuffled =
    arrived last 10 10
    ∷ arrived (first_frame 0x7E8 long) 20 20
    ∷ arrived (first_frame 0x7E8 long) 30 30
    ∷ arrived (first_frame 0x7E8 long) 40 40
    ∷ arrived middle 50 50
    ∷ arrived other 55 55
    ∷ arrived last 60 60
    ∷ []

shuffled-AllFrom : AllFrom 0x7E8 (first_frame 0x7E8 long ∷ middle ∷ last ∷ []) shuffled
shuffled-AllFrom =
    let is_first = inr (Memᴰ.head refl) in
    let is_middle = inr (Memᴰ.tail (Memᴰ.head refl)) in
    let is_last = inr (Memᴰ.tail (Memᴰ.tail (Memᴰ.head refl))) in
    (is_last, (is_first, (is_first, (is_first, (is_middle, (inl (omega arith), (is_last, tt)))))))

isotp_recv-Intact_example : IsIntact long (isotp_recv always tester 64 shuffled)
isotp_recv-Intact_example =
    isotp_recv-Intact always always 0 64 clearance shuffled ecu tester long
      (first_frame 0x7E8 long ∷ middle ∷ last ∷ []) (λ n. refl) (omega arith) long_sent
      shuffled-AllFrom

shuffled-received : isotp_recv always tester 64 shuffled ≡ received long
unfolding isotp_recv recv_loop on_frame
shuffled-received = refl
