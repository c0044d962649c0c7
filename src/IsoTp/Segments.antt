-- ===== src/IsoTp/Segments.antt =====
-- Which frames the sender of src/isotp.c writes.
use vecu_uds.Base.{
  refl, le→ltb, u64, lt→ltb, ◌⊎◌, append_assoc, ap, append-nil, inr, ◌∙◌, ltb→lt, inl, zero,
  Bool-cases, ◌++◌, some, false, ◌∷◌, arith, ltb, ◌≤◌, ◌-◌, suc, leb, true, length, if◌then◌else◌,
  ◌≡◌, [], Bool, ◌<◌, List, ℕ, ◌+◌,
}
use vecu_uds.IsoTp.Send.{
  clear_to_send, wait_for_fc, isotp_send, next_sn, consecutive_frame, first_frame, sent,
  single_frame, chunk_at, send_consecutive,
}
use vecu_uds.IsoTp.Frame.{n_cr_ms, max_payload, Addr, Event, CanFrame}

-- The consecutive frames from an offset on; a bound on the bytes that are left counts the rounds.
unfoldable pub segments : ℕ → List ℕ → ℕ → ℕ → ℕ → List CanFrame
segments tx_id bytes zero offset sn = []
segments tx_id bytes (suc rounds) offset sn = elim (ltb offset (length bytes)) [
  | false ↦ []
  | true ↦
      consecutive_frame tx_id bytes offset sn
      ∷ segments tx_id bytes rounds (offset + chunk_at bytes offset) (next_sn sn)
]

-- Every frame of a message, as isotp_send lays it out.
abbrev pub frames_of : ℕ → List ℕ → List CanFrame
frames_of tx_id bytes =
    if leb (length bytes) 7
    then single_frame tx_id bytes ∷ []
    else first_frame tx_id bytes ∷ segments tx_id bytes (length bytes) 6 1

pub chunk_bounds :
    (bytes : List ℕ) (offset : ℕ)
    → offset < length bytes
    → (0 < chunk_at bytes offset)
      × (chunk_at bytes offset ≤ 7)
      × (offset + chunk_at bytes offset ≤ length bytes)
chunk_bounds bytes offset h = ground arith

pub segments-more :
    (tx_id : ℕ) (bytes : List ℕ) (rounds offset sn : ℕ)
    → offset < length bytes
    → segments tx_id bytes (suc rounds) offset sn
      ≡ consecutive_frame tx_id bytes offset sn
        ∷ segments tx_id bytes rounds (offset + chunk_at bytes offset) (next_sn sn)
unfolding segments
segments-more tx_id bytes rounds offset sn h = rw (lt→ltb _ _ h, segments)

-- Past the end there is no frame.
pub segments-end :
    (tx_id : ℕ) (bytes : List ℕ) (rounds offset sn : ℕ)
    → length bytes ≤ offset
    → segments tx_id bytes rounds offset sn ≡ []
unfolding segments
segments-end tx_id bytes zero offset sn h = refl
segments-end tx_id bytes (suc rounds) offset sn h =
    rw (le→ltb offset (length bytes) h, segments) refl

-- With fuel for every byte that is left the loop ends; if no write fails it has written exactly the
-- consecutive frames, in order.
pub send_consecutive-segments :
    (writes : ℕ → Bool) (tx_id : ℕ) (bytes : List ℕ) (fuel offset sn : ℕ) (out : List CanFrame)
    → ((n : ℕ) → writes n ≡ true)
    → length bytes - offset < fuel
    → send_consecutive writes tx_id bytes fuel offset sn out
      ≡ some (sent (out ++ segments tx_id bytes fuel offset sn))
unfolding send_consecutive segments
send_consecutive-segments writes tx_id bytes zero offset sn out w h = absurd (omega arith)
send_consecutive-segments writes tx_id bytes (suc fuel) offset sn out w h =
    elim (Bool-cases (ltb offset (length bytes))) [
      | inl more ↦
          rw (more, send_consecutive, segments)
            (rw (w (length out), send_consecutive)
              (send_consecutive-segments writes tx_id bytes fuel (offset + chunk_at bytes offset)
                  (next_sn sn) (out ++ consecutive_frame tx_id bytes offset sn ∷ []) w
                  (omega (arith, chunk_bounds bytes offset (ltb→lt _ _ more)))
                ∙ ap (λ fs. some (sent fs))
                    (append_assoc out (consecutive_frame tx_id bytes offset sn ∷ []) _)))
      | inr done ↦ rw (done, send_consecutive, segments) (rw append-nil)
    ]

-- A message of 1 to 4095 bytes is sent whole, as `frames_of` lays it out, if no write fails and, for
-- more than seven bytes, the peer's flow control clears it.
pub isotp_send_lem :
    (writes : ℕ → Bool) (start : ℕ) (events : List Event) (addr : Addr) (bytes : List ℕ)
    → ((n : ℕ) → writes n ≡ true)
    → 0 < length bytes
    → length bytes ≤ max_payload
    → (length bytes ≤ 7) ⊎ (wait_for_fc addr.rx_id (u64 (start + n_cr_ms)) events ≡ clear_to_send)
    → isotp_send writes start events addr bytes ≡ some (sent (frames_of addr.tx_id bytes))
unfolding isotp_send
isotp_send_lem writes start events addr bytes w some_bytes fits clear = ground (
  arith,
  w 0,
  send_consecutive-segments writes addr.tx_id bytes (length bytes) 6 1
      (first_frame addr.tx_id bytes ∷ []) w,
)
