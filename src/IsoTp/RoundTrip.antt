-- ===== src/IsoTp/RoundTrip.antt =====
-- The sender and the receiver of src/isotp.c together.
use vecu_uds.Base.{
  u64, some, bit_or_two_bytes, bit_and_byte, ◌<<◌, replicate, take-append, ◌>>>◌, suc, take_all,
  ◌∙◌, refl, ap, inr, inl, leb, Bool-cases, ◌-◌, length-take, ◌∷◌, bit_or_disjoint, true, ◌≤◌, [],
  ◌≡◌, bit_or, bit_and_nibble, take, u8, arith, length, Bool, bit_and, ◌<◌, List, ℕ, ◌+◌,
}
use vecu_uds.IsoTp.Send.{sent, isotp_send, single_frame, first_frame}
use vecu_uds.IsoTp.Frame.{
  padding, pci_ff, max_payload, pci_sf, n_cr_ms, pci_type, Event, Addr, CanFrame, can_sff_mask,
}
use vecu_uds.IsoTp.Recv.{
  isotp_recv, flow_control, idle, recv_loop, received, finish, continue, on_frame, Rx,
}
use vecu_uds.IsoTp.Segments.{send_consecutive-segments, frames_of, segments}
use vecu_uds.IsoTp.Reassembly.{
  done, recv_segments, recv_finish, next, foreign_step, recv_continue, foreign, Delivery, Midway,
  mask_twice,
}

pub single_fields :
    (len : ℕ)
    → len ≤ 7
    → let b = u8 (bit_and len 0x0F) in (pci_type b ≡ pci_sf) × (bit_and b 0x0F ≡ len)
single_fields len h = ground (arith, bit_and_nibble len, bit_and_nibble (u8 (bit_and len 0x0F)))

pub first_fields :
    (len : ℕ)
    → len ≤ max_payload
    → let b = u8 (bit_or 0x10 (bit_and (len >>> 8) 0x0F)) in
      (pci_type b ≡ pci_ff) × (bit_or (bit_and b 0x0F << 8) (u8 (bit_and len 0xFF)) ≡ len)
first_fields len h = ground (
  arith,
  bit_and_nibble (len >>> 8),
  bit_or_disjoint 4 1 (bit_and (len >>> 8) 0x0F),
  bit_and_nibble (u8 (bit_or 0x10 (bit_and (len >>> 8) 0x0F))),
  bit_and_byte len,
  bit_or_two_bytes (bit_and (u8 (bit_or 0x10 (bit_and (len >>> 8) 0x0F))) 0x0F)
      (u8 (bit_and len 0xFF)),
)

-- The receiver behind the first frame.
pub started-Midway :
    (bytes : List ℕ) (total_len deadline : ℕ) (controls : List CanFrame)
    → 7 < length bytes
    → total_len ≡ length bytes
    → Midway bytes 6 1 deadline (record {
      receiving = true;
      total_len = total_len;
      got = 6;
      expected_sn = 1;
      deadline = deadline;
      out = take 6 (take 6 bytes);
      controls = controls;
    })
started-Midway bytes total_len deadline controls long total = record {
  receiving = refl;
  total = total;
  got = refl;
  expected = refl;
  until = refl;
  prefix = ap (take 6) first_six ∙ first_six;
  left = omega arith;
  small_sn = omega arith;
}
  where
    first_six : take 6 (take 6 bytes) ≡ take 6 bytes
    first_six = take_all 6 (take 6 bytes) (omega (arith, length-take 6 bytes))

module _ (writes : ℕ → Bool) (addr : Addr) (out_cap : ℕ) where
  single_step :
      (tx_id : ℕ) (bytes : List ℕ) (now later : ℕ)
      → addr.rx_id ≡ bit_and tx_id can_sff_mask
      → 0 < length bytes
      → length bytes ≤ 7
      → length bytes ≤ out_cap
      → on_frame writes addr out_cap (idle writes addr out_cap) (single_frame tx_id bytes) now later
        ≡ finish (received bytes)
  unfolding on_frame
  single_step tx_id bytes now later a some_bytes short fits = ground (
    arith,
    mask_twice tx_id,
    single_fields (length bytes) short,
    take-append bytes (replicate (8 - suc (length bytes)) padding),
  )

  pub first_step :
      (tx_id : ℕ) (bytes : List ℕ) (now later : ℕ)
      → writes 0 ≡ true
      → addr.rx_id ≡ bit_and tx_id can_sff_mask
      → 7 < length bytes
      → length bytes ≤ max_payload
      → length bytes ≤ out_cap
      → (rx : Rx) × (on_frame writes addr out_cap
            (idle writes addr out_cap)
            (first_frame tx_id bytes)
            now
            later
          ≡ continue rx)
        × Midway bytes 6 1 (u64 (later + n_cr_ms)) rx
  unfolding on_frame
  first_step tx_id bytes now later w a long small fits = (
    record {
      receiving = true;
      total_len = length bytes;
      got = 6;
      expected_sn = 1;
      deadline = u64 (later + n_cr_ms);
      out = take 6 (take 6 bytes);
      controls = flow_control addr.tx_id ∷ [];
    },
    ground (arith, mask_twice tx_id, first_fields (length bytes) small),
    started-Midway bytes (length bytes) (u64 (later + n_cr_ms)) (flow_control addr.tx_id ∷ []) long
        refl,
  )

  recv_frames :
      (tx_id : ℕ) (bytes : List ℕ) {deadline : ℕ} {fs : List CanFrame} {es : List Event}
      → writes 0 ≡ true
      → addr.rx_id ≡ bit_and tx_id can_sff_mask
      → 0 < length bytes
      → length bytes ≤ max_payload
      → length bytes ≤ out_cap
      → fs ≡ frames_of tx_id bytes
      → Delivery addr.rx_id deadline fs es
      → recv_loop writes addr out_cap (idle writes addr out_cap) es ≡ received bytes
  recv_frames tx_id bytes w a some_bytes small fits e done = ground arith
  recv_frames tx_id bytes w a some_bytes small fits e (foreign {es = es} f now later h d) =
      recv_continue writes addr out_cap _ _ f now later es
        (foreign_step writes addr out_cap (idle writes addr out_cap) f now later h)
      ∙ recv_frames tx_id bytes w a some_bytes small fits e d
  recv_frames tx_id bytes w a some_bytes small fits e (next {fs = rest} {es = es} f now later h d) =
      elim (Bool-cases (leb (length bytes) 7)) [
        | inl short ↦
            let e' : f ∷ rest ≡ single_frame tx_id bytes ∷ [] = e ∙ rw short in
            let f-eq : f ≡ single_frame tx_id bytes = cc e' in
            recv_finish writes addr out_cap _ _ f now later es
              (rw f-eq (single_step tx_id bytes now later a some_bytes (ground arith) fits))
        | inr long ↦
            let e' : f ∷ rest ≡ first_frame tx_id bytes ∷ segments tx_id bytes (length bytes) 6 1 =
              e ∙ rw long in
            let f-eq : f ≡ first_frame tx_id bytes = cc e' in
            let rest-eq : rest ≡ segments tx_id bytes (length bytes) 6 1 = cc e' in
            let (rx, step, m) = first_step tx_id bytes now later w a (ground arith) small fits in
            recv_continue writes addr out_cap _ rx f now later es (rw f-eq step)
            ∙ recv_segments writes addr out_cap tx_id bytes (length bytes) 6 1 rx a (omega arith)
                rest-eq m d
      ]

pub sent_frames :
    (writes : ℕ → Bool) (start : ℕ) (events : List Event) (addr : Addr) (bytes : List ℕ)
    (frames : List CanFrame)
    → ((n : ℕ) → writes n ≡ true)
    → isotp_send writes start events addr bytes ≡ some (sent frames)
    → frames ≡ frames_of addr.tx_id bytes
unfolding isotp_send
sent_frames writes start events addr bytes frames w e = ground (
  arith,
  w 0,
  send_consecutive-segments writes addr.tx_id bytes (length bytes) 6 1
      (first_frame addr.tx_id bytes ∷ []) w,
)

-- Every message of 1 to 4095 bytes that fits the receiver's buffer comes back byte for byte: if no
-- write of the sender fails, the frames that isotp_send writes for it arrive in order and in time,
-- under the identifier that the receiver listens to, with frames for others in between, and the
-- receiver's write of its flow control succeeds, isotp_recv returns exactly the message.
pub isotp_recv-isotp_send :
    (send_writes recv_writes : ℕ → Bool) (start out_cap deadline : ℕ) (controls es : List Event)
    (sender receiver : Addr) (bytes : List ℕ) (frames : List CanFrame)
    → ((n : ℕ) → send_writes n ≡ true)
    → recv_writes 0 ≡ true
    → receiver.rx_id ≡ bit_and sender.tx_id can_sff_mask
    → 0 < length bytes
    → length bytes ≤ max_payload
    → length bytes ≤ out_cap
    → isotp_send send_writes start controls sender bytes ≡ some (sent frames)
    → Delivery receiver.rx_id deadline frames es
    → isotp_recv recv_writes receiver out_cap es ≡ received bytes
unfolding isotp_recv
isotp_recv-isotp_send send_writes recv_writes start out_cap deadline controls es sender receiver
      bytes frames all_written w a some_bytes small fits e d =
    recv_frames recv_writes receiver out_cap sender.tx_id bytes w a some_bytes small fits
      (sent_frames send_writes start controls sender bytes frames all_written e) d
