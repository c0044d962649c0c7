-- ===== src/IsoTp/Clearance.antt =====
-- When the wait for flow control of src/isotp.c is over.
use vecu_uds.Base.{
  ◌&&◌, leb, ◌==◌, bit_and_eleven_bits, ◌/◌, ◌!=◌, ◌∙◌, ◌%◌, if◌then◌else◌, bit_and_nibble, ◌++◌,
  Bool, List, ℕ, ◌≡◌, refl, arith, [], ◌∷◌, true, false,
}
use vecu_uds.IsoTp.Frame.{data_at, Event, CanFrame, arrived, interrupted, broken}
use vecu_uds.IsoTp.Send.{wait_for_fc, clear_to_send, silent}

-- A flow control frame has the type 3 and its status in the low four bits of its first byte.
abbrev pub is_control : ℕ → CanFrame → Bool
is_control status f = data_at f 0 / 16 % 256 == 3 && data_at f 0 % 16 == status

-- The sender waits on: an interruption, a frame for someone else before the deadline, or the peer's
-- flow control with the status WAIT.
abbrev pub undecided : ℕ → ℕ → Event → Bool
undecided rx_id deadline interrupted = true
undecided rx_id deadline broken = false
undecided rx_id deadline (arrived f now later) =
    if f.can_id % 2048 != rx_id then leb now deadline else is_control 1 f

abbrev pub Pending : ℕ → ℕ → List Event → Type 0
Pending rx_id deadline [] = Unit {0}
Pending rx_id deadline (e ∷ es) = (undecided rx_id deadline e ≡ true) × Pending rx_id deadline es

-- The peer's flow control with the status CTS
abbrev pub clears : ℕ → Event → Bool
clears rx_id interrupted = false
clears rx_id broken = false
clears rx_id (arrived f now later) = f.can_id % 2048 == rx_id && is_control 0 f

pub record Cleared (rx_id deadline : ℕ) (events : List Event) : Type 0 where
  pub before : List Event
  pub clearance : Event
  pub later_on : List Event
  pub same : events ≡ before ++ clearance ∷ later_on
  pub pending : Pending rx_id deadline before
  pub cleared : clears rx_id clearance ≡ true

pub silent-Pending :
    (rx_id deadline : ℕ) (events : List Event)
    → wait_for_fc rx_id deadline events ≡ silent
    → Pending rx_id deadline events
unfolding wait_for_fc
silent-Pending rx_id deadline [] h = tt
silent-Pending rx_id deadline (interrupted ∷ es) h = (refl, silent-Pending rx_id deadline es h)
silent-Pending rx_id deadline (broken ∷ es) h = cc
silent-Pending rx_id deadline (arrived f now later ∷ es) h = ground (
  arith,
  bit_and_nibble (data_at f 0),
  bit_and_eleven_bits f.can_id,
  silent-Pending rx_id deadline es,
)

pending_wait :
    (rx_id deadline : ℕ) (e : Event) (es : List Event)
    → undecided rx_id deadline e ≡ true
    → wait_for_fc rx_id deadline (e ∷ es) ≡ wait_for_fc rx_id deadline es
unfolding wait_for_fc
pending_wait rx_id deadline interrupted es h = refl
pending_wait rx_id deadline broken es h = cc
pending_wait rx_id deadline (arrived f now later) es h =
    ground (arith, bit_and_nibble (data_at f 0), bit_and_eleven_bits f.can_id)

clear_wait :
    (rx_id deadline : ℕ) (e : Event) (es : List Event)
    → clears rx_id e ≡ true
    → wait_for_fc rx_id deadline (e ∷ es) ≡ clear_to_send
unfolding wait_for_fc
clear_wait rx_id deadline interrupted es h = cc
clear_wait rx_id deadline broken es h = cc
clear_wait rx_id deadline (arrived f now later) es h =
    ground (arith, bit_and_nibble (data_at f 0), bit_and_eleven_bits f.can_id)

wait-Pending :
    (rx_id deadline : ℕ) (before after : List Event) (e : Event)
    → Pending rx_id deadline before
    → clears rx_id e ≡ true
    → wait_for_fc rx_id deadline (before ++ e ∷ after) ≡ clear_to_send
wait-Pending rx_id deadline [] after e p h = clear_wait rx_id deadline e after h
wait-Pending rx_id deadline (x ∷ xs) after e p h =
    pending_wait rx_id deadline x (xs ++ e ∷ after) p.0
    ∙ wait-Pending rx_id deadline xs after e p.1 h

pub wait-Cleared :
    (rx_id deadline : ℕ) (events : List Event)
    → Cleared rx_id deadline events
    → wait_for_fc rx_id deadline events ≡ clear_to_send
wait-Cleared rx_id deadline events c =
    rw c.same (wait-Pending rx_id deadline c.before c.later_on c.clearance c.pending c.cleared)
