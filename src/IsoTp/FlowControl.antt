-- ===== src/IsoTp/FlowControl.antt =====
-- How long the sender of src/isotp.c waits for the peer's flow control.
use vecu_uds.Base.{refl, [], arith, bit_and, ◌≡◌, ◌∷◌, List, ℕ}
use vecu_uds.IsoTp.Send.{wait_for_fc}
use vecu_uds.IsoTp.Frame.{broken, interrupted, can_sff_mask, arrived, Event}

-- Every frame that the bus gives is for the sender.
abbrev pub AllFor : ℕ → List Event → Type 0
AllFor id [] = Unit {0}
AllFor id (arrived f now later ∷ es) = (bit_and f.can_id can_sff_mask ≡ id) × AllFor id es
AllFor id (interrupted ∷ es) = AllFor id es
AllFor id (broken ∷ es) = AllFor id es

-- As long as no frame for someone else is on the bus, the deadline of wait_for_fc has no influence:
-- whatever the clock reads at the peer's frames, the wait ends the same way with any other
-- deadline. So a flow control frame that comes after N_Cr is accepted like one in time, and a
-- silent bus is waited for without end.
pub wait_ignores_deadline :
    (expected_id deadline deadline' : ℕ) (es : List Event)
    → AllFor expected_id es
    → wait_for_fc expected_id deadline es ≡ wait_for_fc expected_id deadline' es
unfolding wait_for_fc
wait_ignores_deadline expected_id deadline deadline' [] h = refl
wait_ignores_deadline expected_id deadline deadline' (interrupted ∷ es) h =
    wait_ignores_deadline expected_id deadline deadline' es h
wait_ignores_deadline expected_id deadline deadline' (broken ∷ es) h = refl
wait_ignores_deadline expected_id deadline deadline' (arrived f now later ∷ es) h =
    ground (arith, h.0, wait_ignores_deadline expected_id deadline deadline' es h.1)
