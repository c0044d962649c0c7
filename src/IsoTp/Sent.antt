-- ===== src/IsoTp/Sent.antt =====
-- A message that the sender of src/isotp.c sends whole.
use vecu_uds.Base.{
  ap, ◌∙◌, ◌+◌, u64, ◌⊎◌, ◌≤◌, length, ◌<◌, List, Bool, ℕ, ◌≡◌, true, some, inl, inr,
}
use vecu_uds.IsoTp.Send.{isotp_send, sent}
use vecu_uds.IsoTp.Frame.{n_cr_ms, max_payload, Addr, Event}
use vecu_uds.IsoTp.Clearance.{wait-Cleared, Cleared}
use vecu_uds.IsoTp.Layout.{frames_of-layout, layout}
use vecu_uds.IsoTp.Segments.{isotp_send_lem}

-- A message of 1 to 4095 bytes is sent whole, in the frames that ISO 15765-2 lays out, counted out
-- from the front of the message, if no write fails and, for more than seven bytes, the bus brings
-- the peer's flow control with the status CTS, and before it only interruptions, frames for someone
-- else that come before the deadline, and the peer's flow control with the status WAIT.
pub isotp_send-layout :
    (writes : ℕ → Bool) (start : ℕ) (events : List Event) (addr : Addr) (bytes : List ℕ)
    → ((n : ℕ) → writes n ≡ true)
    → 0 < length bytes
    → length bytes ≤ max_payload
    → (length bytes ≤ 7) ⊎ Cleared addr.rx_id (u64 (start + n_cr_ms)) events
    → isotp_send writes start events addr bytes ≡ some (sent (layout addr.tx_id bytes))
isotp_send-layout writes start events addr bytes w some_bytes fits clear =
    isotp_send_lem writes start events addr bytes w some_bytes fits (elim clear [
      | inl short ↦ inl short
      | inr cleared ↦ inr (wait-Cleared addr.rx_id (u64 (start + n_cr_ms)) events cleared)
    ])
    ∙ ap (λ fs. some (sent fs)) (frames_of-layout addr.tx_id bytes fits)
