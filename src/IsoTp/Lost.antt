-- ===== src/IsoTp/Lost.antt =====
-- The receiver of src/isotp.c when a consecutive frame of a message is lost.
use vecu_uds.Base.{
  false, leb, some, ltb→lt, ltb, true, Bool-cases, ◌∙◌, u64, ◌-◌, bit_and_nibble, ◌+◌, ◌≡◌, arith,
  bit_and, ◌≢◌, ◌≤◌, length, List, ◌<◌, Bool, ℕ, ◌∷◌, [], suc, zero, inl, inr,
}
use vecu_uds.IsoTp.Segments.{segments-end, chunk_bounds, frames_of, segments-more, segments}
use vecu_uds.IsoTp.Frame.{max_payload, n_cr_ms, arrived, can_sff_mask, Event, Addr, CanFrame}
use vecu_uds.IsoTp.Send.{first_frame, sent, isotp_send, consecutive_frame, chunk_at, next_sn}
use vecu_uds.IsoTp.Recv.{
  isotp_recv, continue, recv_failed, recv_loop, finish, on_chunk, on_frame, Rx,
}
use vecu_uds.IsoTp.Reassembly.{
  chunk_step, recv_finish, next_sn-lt, pci_consecutive, foreign_step, chunk_result, recv_continue,
  mask_twice, Midway,
}
use vecu_uds.IsoTp.RoundTrip.{first_step, sent_frames}

-- The frames arrive in order and in time up to one that is lost, and the one after it arrives;
-- frames with another identifier may come in between, and anything afterwards.
pub data Lossy (rx_id : ℕ) : ℕ → List CanFrame → List Event → Type 0 where
  foreign :
      {deadline : ℕ} {fs : List CanFrame} {es : List Event} (f : CanFrame) (now later : ℕ)
      → bit_and f.can_id can_sff_mask ≢ rx_id
      → Lossy rx_id deadline fs es
      → Lossy rx_id deadline fs (arrived f now later ∷ es)
  next :
      {deadline : ℕ} {fs : List CanFrame} {es : List Event} (f : CanFrame) (now later : ℕ)
      → now ≤ deadline
      → Lossy rx_id (u64 (later + n_cr_ms)) fs es
      → Lossy rx_id deadline (f ∷ fs) (arrived f now later ∷ es)
  lost :
      {deadline : ℕ} {fs : List CanFrame} {es : List Event} (f g : CanFrame) (now later : ℕ)
      → Lossy rx_id deadline (f ∷ g ∷ fs) (arrived g now later ∷ es)

none_to_lose :
    {rx_id deadline : ℕ} {fs : List CanFrame} {es : List Event}
    → Lossy rx_id deadline fs es
    → fs ≢ []
none_to_lose (Lossy.foreign f now later h d) e = none_to_lose d e
none_to_lose (Lossy.next f now later h d) e = cc
none_to_lose (lost f g now later) e = cc

next_sn-ne : (sn : ℕ) → sn < 16 → next_sn sn ≢ sn
next_sn-ne sn h = ground (arith, bit_and_nibble (sn + 1))

some_left :
    (tx_id : ℕ) (bytes : List ℕ) (rounds offset sn : ℕ) (fs : List CanFrame)
    → fs ≡ segments tx_id bytes rounds offset sn
    → fs ≢ []
    → offset < length bytes
some_left tx_id bytes rounds offset sn fs e some_frame =
    elim (Bool-cases (ltb offset (length bytes))) [
      | inl more ↦ ltb→lt offset (length bytes) more
      | inr over ↦
          absurd (some_frame (e ∙ segments-end tx_id bytes rounds offset sn (ground arith)))
    ]

first_of_segments :
    (tx_id : ℕ) (bytes : List ℕ) (rounds offset sn : ℕ) (f : CanFrame) (fs : List CanFrame)
    → f ∷ fs ≡ segments tx_id bytes rounds offset sn
    → f ≡ consecutive_frame tx_id bytes offset sn
unfolding segments
first_of_segments tx_id bytes zero offset sn f fs e = cc
first_of_segments tx_id bytes (suc rounds) offset sn f fs e =
    let more = some_left tx_id bytes (suc rounds) offset sn (f ∷ fs) e (λ h. cc) in
    cc (e ∙ segments-more tx_id bytes rounds offset sn more)

module _ (writes : ℕ → Bool) (addr : Addr) (out_cap : ℕ) where
  skipped_step :
      (tx_id : ℕ) (bytes : List ℕ) (offset offset' sn deadline now later : ℕ) (rx : Rx)
      → addr.rx_id ≡ bit_and tx_id can_sff_mask
      → Midway bytes offset sn deadline rx
      → on_frame writes addr out_cap rx
          (consecutive_frame tx_id bytes offset' (next_sn sn))
          now
          later
        ≡ finish recv_failed
  unfolding on_frame
  skipped_step tx_id bytes offset offset' sn deadline now later rx a m = ground (
    arith,
    mask_twice tx_id,
    pci_consecutive (next_sn sn) (next_sn-lt sn),
    next_sn-ne sn m.small_sn,
  )

  -- A frame that is not the last leaves the receiver midway.
  chunk_continues :
      (tx_id : ℕ) (bytes : List ℕ) (offset sn deadline later : ℕ) (rx : Rx)
      → Midway bytes offset sn deadline rx
      → offset + chunk_at bytes offset < length bytes
      → (rx' : Rx) × (on_chunk writes addr out_cap rx
            (consecutive_frame tx_id bytes offset sn)
            later
          ≡ continue rx')
        × Midway bytes (offset + chunk_at bytes offset) (next_sn sn) (u64 (later + n_cr_ms)) rx'
  chunk_continues tx_id bytes offset sn deadline later rx m more =
      elim (chunk_result writes addr out_cap tx_id bytes offset sn deadline later rx m) [
        | inl last ↦ absurd (ground (arith, m.total, m.got, last))
        | inr midway ↦ midway
      ]

  recv-Lossy :
      (tx_id : ℕ) (bytes : List ℕ) (rounds offset sn : ℕ) {deadline : ℕ} {fs : List CanFrame}
      {es : List Event} (rx : Rx)
      → addr.rx_id ≡ bit_and tx_id can_sff_mask
      → length bytes - offset ≤ rounds
      → fs ≡ segments tx_id bytes rounds offset sn
      → Midway bytes offset sn deadline rx
      → Lossy addr.rx_id deadline fs es
      → recv_loop writes addr out_cap rx es ≡ recv_failed
  recv-Lossy tx_id bytes zero offset sn rx a r e m d = absurd (omega (arith, m.left))
  recv-Lossy tx_id bytes (suc rounds) offset sn rx a r e m
        (Lossy.foreign {es = es} f now later h d) =
      recv_continue writes addr out_cap rx rx f now later es
        (foreign_step writes addr out_cap rx f now later h)
      ∙ recv-Lossy tx_id bytes (suc rounds) offset sn rx a r e m d
  recv-Lossy tx_id bytes (suc rounds) offset sn {deadline} rx a r e m
        (lost {fs = rest} {es = es} f g now later) =
      recv_finish writes addr out_cap rx recv_failed g now later es (
        rw g-eq (
          skipped_step tx_id bytes offset (offset + chunk_at bytes offset) sn deadline now later rx
            a m))
    where
      split :
          f ∷ g ∷ rest
          ≡ consecutive_frame tx_id bytes offset sn
            ∷ segments tx_id bytes rounds (offset + chunk_at bytes offset) (next_sn sn)
      split = e ∙ segments-more tx_id bytes rounds offset sn m.left

      g-eq : g ≡ consecutive_frame tx_id bytes (offset + chunk_at bytes offset) (next_sn sn)
      g-eq =
          first_of_segments tx_id bytes rounds (offset + chunk_at bytes offset) (next_sn sn) g rest
            (cc split)
  recv-Lossy tx_id bytes (suc rounds) offset sn {deadline} rx a r e m
        (Lossy.next {fs = rest} {es = es} f now later h d) =
      recv_continue writes addr out_cap rx midway.0 f now later es (step ∙ midway.1)
      ∙ recv-Lossy tx_id bytes rounds (offset + chunk_at bytes offset) (next_sn sn) midway.0 a
          (omega (arith, chunk_bounds bytes offset m.left)) same_rest midway.2 d
    where
      split :
          f ∷ rest
          ≡ consecutive_frame tx_id bytes offset sn
            ∷ segments tx_id bytes rounds (offset + chunk_at bytes offset) (next_sn sn)
      split = e ∙ segments-more tx_id bytes rounds offset sn m.left

      same_frame : f ≡ consecutive_frame tx_id bytes offset sn
      same_frame = cc split

      same_rest : rest ≡ segments tx_id bytes rounds (offset + chunk_at bytes offset) (next_sn sn)
      same_rest = cc split

      midway :
          (rx' : Rx) × (on_chunk writes addr out_cap rx
              (consecutive_frame tx_id bytes offset sn)
              later
            ≡ continue rx')
          × Midway bytes (offset + chunk_at bytes offset) (next_sn sn) (u64 (later + n_cr_ms)) rx'
      midway = chunk_continues tx_id bytes offset sn deadline later rx m (
          some_left tx_id bytes rounds (offset + chunk_at bytes offset) (next_sn sn) rest same_rest
            (none_to_lose d))

      step :
          on_frame writes addr out_cap rx f now later
          ≡ on_chunk writes addr out_cap rx (consecutive_frame tx_id bytes offset sn) later
      step =
          rw same_frame
            (chunk_step writes addr out_cap tx_id bytes offset sn deadline now later rx a h m)

-- If the first frame of a message of 8 to 4095 bytes that isotp_send has sent, with no failing write,
-- arrives, the message fits the receiver's buffer and the receiver's write of its flow control
-- succeeds, and then the consecutive frames arrive in order and in time up to one that is lost, and
-- the frame after the lost one arrives, isotp_recv fails: it does not return the message with a gap.
-- Frames for others may come in between.
pub isotp_recv-Lossy :
    (send_writes recv_writes : ℕ → Bool) (start out_cap now later : ℕ) (controls es : List Event)
    (sender receiver : Addr) (bytes : List ℕ) (f : CanFrame) (frames : List CanFrame)
    → ((n : ℕ) → send_writes n ≡ true)
    → recv_writes 0 ≡ true
    → receiver.rx_id ≡ bit_and sender.tx_id can_sff_mask
    → 7 < length bytes
    → length bytes ≤ max_payload
    → length bytes ≤ out_cap
    → isotp_send send_writes start controls sender bytes ≡ some (sent (f ∷ frames))
    → Lossy receiver.rx_id (u64 (later + n_cr_ms)) frames es
    → isotp_recv recv_writes receiver out_cap (arrived f now later ∷ es) ≡ recv_failed
unfolding isotp_recv
isotp_recv-Lossy send_writes recv_writes start out_cap now later controls es sender receiver bytes f
      frames all_written w a long small fits e d =
    let all : f ∷ frames ≡ frames_of sender.tx_id bytes =
      sent_frames send_writes start controls sender bytes (f ∷ frames) all_written e in
    let split : f ∷ frames
        ≡ first_frame sender.tx_id bytes ∷ segments sender.tx_id bytes (length bytes) 6 1 =
      all ∙ rw not_single in
    let f-eq : f ≡ first_frame sender.tx_id bytes = cc split in
    let rest-eq : frames ≡ segments sender.tx_id bytes (length bytes) 6 1 = cc split in
    let (rx, step, m) =
      first_step recv_writes receiver out_cap sender.tx_id bytes now later w a long small fits in
    recv_continue recv_writes receiver out_cap _ rx f now later es (rw f-eq step)
    ∙ recv-Lossy recv_writes receiver out_cap sender.tx_id bytes (length bytes) 6 1 rx a
        (omega arith) rest-eq m d
  where
    not_single : leb (length bytes) 7 ≡ false
    not_single = ground arith
