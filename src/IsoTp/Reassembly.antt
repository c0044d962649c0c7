-- ===== src/IsoTp/Reassembly.antt =====
-- The receiver of src/isotp.c in the middle of a message, fed with the sender's consecutive frames.
use vecu_uds.Base.{
  u64, zero, suc, take_all, ◌∙◌, ap₂, refl, ap, inr, inl, leb, Bool-cases, take-add, ◌++◌, ◌-◌, ltb,
  if◌then◌else◌, ◌⊎◌, length-drop, length-take, take_exact, ◌∷◌, bit_or_disjoint, drop, ◌≢◌,
  bit_and_eleven_bits, true, ◌≤◌, [], ◌≡◌, bit_or, bit_and_nibble, take, u8, arith, length, Bool,
  bit_and, ◌<◌, List, ℕ, ◌+◌,
}
use vecu_uds.IsoTp.Send.{consecutive_frame, chunk_at, next_sn}
use vecu_uds.IsoTp.Frame.{n_cr_ms, arrived, pci_cf, pci_type, Event, Addr, CanFrame, can_sff_mask}
use vecu_uds.IsoTp.Recv.{RecvResult, recv_loop, received, finish, on_chunk, continue, on_frame, Rx}
use vecu_uds.IsoTp.Segments.{segments-more, segments, chunk_bounds}

-- The frames arrive in order and each before the deadline that the receiver has set; frames with
-- another identifier may come in between, and anything after the last one.
pub data Delivery (rx_id : ℕ) : ℕ → List CanFrame → List Event → Type 0 where
  done : {deadline : ℕ} {es : List Event} → Delivery rx_id deadline [] es
  foreign :
      {deadline : ℕ} {fs : List CanFrame} {es : List Event} (f : CanFrame) (now later : ℕ)
      → bit_and f.can_id can_sff_mask ≢ rx_id
      → Delivery rx_id deadline fs es
      → Delivery rx_id deadline fs (arrived f now later ∷ es)
  next :
      {deadline : ℕ} {fs : List CanFrame} {es : List Event} (f : CanFrame) (now later : ℕ)
      → now ≤ deadline
      → Delivery rx_id (u64 (later + n_cr_ms)) fs es
      → Delivery rx_id deadline (f ∷ fs) (arrived f now later ∷ es)

-- The receiver has the first `offset` bytes of a message and waits for the frame number `sn`.
pub record Midway (bytes : List ℕ) (offset sn deadline : ℕ) (rx : Rx) : Type 0 where
  pub receiving : rx.receiving ≡ true
  pub total : rx.total_len ≡ length bytes
  pub got : rx.got ≡ offset
  pub expected : rx.expected_sn ≡ sn
  pub until : rx.deadline ≡ deadline
  pub prefix : take rx.got rx.out ≡ take offset bytes
  pub left : offset < length bytes
  pub small_sn : sn < 16

pub mask_twice :
    (tx_id : ℕ) → bit_and (bit_and tx_id can_sff_mask) can_sff_mask ≡ bit_and tx_id can_sff_mask
mask_twice tx_id =
    omega (arith, bit_and_eleven_bits tx_id, bit_and_eleven_bits (bit_and tx_id can_sff_mask))

pub pci_consecutive :
    (sn : ℕ)
    → sn < 16
    → let b = u8 (bit_or 0x20 (bit_and sn 0x0F)) in (pci_type b ≡ pci_cf) × (bit_and b 0x0F ≡ sn)
pci_consecutive sn h = ground (
  arith,
  bit_and_nibble sn,
  bit_or_disjoint 4 2 (bit_and sn 0x0F),
  bit_and_nibble (u8 (bit_or 0x20 (bit_and sn 0x0F))),
)

length-chunk :
    (bytes : List ℕ) (offset : ℕ)
    → offset < length bytes
    → length (take (chunk_at bytes offset) (drop offset bytes)) ≡ chunk_at bytes offset
length-chunk bytes offset h = omega (
  arith,
  length-take (chunk_at bytes offset) (drop offset bytes),
  length-drop offset bytes,
  chunk_bounds bytes offset h,
)

chunk_of_frame :
    (tx_id : ℕ) (bytes : List ℕ) (offset sn : ℕ)
    → offset < length bytes
    → take (chunk_at bytes offset) (drop 1 (consecutive_frame tx_id bytes offset sn).payload)
      ≡ take (chunk_at bytes offset) (drop offset bytes)
chunk_of_frame tx_id bytes offset sn h =
    take_exact (chunk_at bytes offset) (take (chunk_at bytes offset) (drop offset bytes)) _
      (length-chunk bytes offset h)

pub next_sn-lt : (sn : ℕ) → next_sn sn < 16
next_sn-lt sn = omega (arith, bit_and_nibble (sn + 1))

module _ (writes : ℕ → Bool) (addr : Addr) (out_cap : ℕ) where
  pub foreign_step :
      (rx : Rx) (f : CanFrame) (now later : ℕ)
      → bit_and f.can_id can_sff_mask ≢ addr.rx_id
      → on_frame writes addr out_cap rx f now later ≡ continue rx
  unfolding on_frame
  foreign_step rx f now later h = ground arith

  pub chunk_step :
      (tx_id : ℕ) (bytes : List ℕ) (offset sn deadline now later : ℕ) (rx : Rx)
      → addr.rx_id ≡ bit_and tx_id can_sff_mask
      → now ≤ deadline
      → Midway bytes offset sn deadline rx
      → on_frame writes addr out_cap rx (consecutive_frame tx_id bytes offset sn) now later
        ≡ on_chunk writes addr out_cap rx (consecutive_frame tx_id bytes offset sn) later
  unfolding on_frame
  chunk_step tx_id bytes offset sn deadline now later rx a h m =
      ground (arith, mask_twice tx_id, pci_consecutive sn m.small_sn)

  -- The frame completes the message, or the receiver is midway again.
  pub chunk_result :
      (tx_id : ℕ) (bytes : List ℕ) (offset sn deadline later : ℕ) (rx : Rx)
      → Midway bytes offset sn deadline rx
      → let step =
          on_chunk writes addr out_cap rx (consecutive_frame tx_id bytes offset sn) later in
        (step ≡ finish (received bytes))
        ⊎ ((rx' : Rx) × (step ≡ continue rx')
            × Midway bytes
                (offset + chunk_at bytes offset)
                (next_sn sn)
                (u64 (later + n_cr_ms))
                rx')
  chunk_result tx_id bytes offset sn deadline later rx m =
      elim (Bool-cases (leb rx.total_len (rx.got + chunk))) [
        | inl last ↦ inl (
            rw last (
              ap (λ o. finish (received (take rx.total_len o))) (whole last)
              ∙ ap (λ o. finish (received o))
                  (take_all rx.total_len bytes (omega (arith, m.total)))))
        | inr more ↦ inr (
          record rx {
            out = grown;
            got = rx.got + chunk;
            expected_sn = next_sn rx.expected_sn;
            deadline = u64 (later + n_cr_ms);
          },
          rw more refl,
          record {
            receiving = m.receiving;
            total = m.total;
            got = same_got;
            expected = ap next_sn m.expected;
            until = refl;
            prefix = rw grown_lem (
                take_all (rx.got + chunk) _
                  (omega (arith, same_got, length-take (offset + chunk_at bytes offset) bytes)));
            left = ground (arith, same_got, m.total);
            small_sn = next_sn-lt sn;
          },
        )
      ]
    where
      chunk : ℕ
      chunk = if ltb 7 (rx.total_len - rx.got) then 7 else rx.total_len - rx.got

      same_chunk : chunk ≡ chunk_at bytes offset
      same_chunk = rw (m.total, m.got)

      f : CanFrame
      f = consecutive_frame tx_id bytes offset sn

      grown : List ℕ
      grown = take rx.got rx.out ++ take chunk (drop 1 f.payload)

      grown_lem : grown ≡ take (offset + chunk_at bytes offset) bytes
      grown_lem =
          rw (same_chunk, m.prefix, chunk_of_frame tx_id bytes offset sn m.left)
            (take-add offset (chunk_at bytes offset) bytes)

      same_got : rx.got + chunk ≡ offset + chunk_at bytes offset
      same_got = ap₂ ◌+◌ m.got same_chunk

      whole : leb rx.total_len (rx.got + chunk) ≡ true → grown ≡ bytes
      whole last =
          grown_lem
          ∙ take_all (offset + chunk_at bytes offset) bytes (ground (arith, same_got, m.total))

  pub recv_continue :
      (rx rx' : Rx) (f : CanFrame) (now later : ℕ) (es : List Event)
      → on_frame writes addr out_cap rx f now later ≡ continue rx'
      → recv_loop writes addr out_cap rx (arrived f now later ∷ es)
        ≡ recv_loop writes addr out_cap rx' es
  unfolding recv_loop
  recv_continue rx rx' f now later es e = rw (e, recv_loop)

  pub recv_finish :
      (rx : Rx) (r : RecvResult) (f : CanFrame) (now later : ℕ) (es : List Event)
      → on_frame writes addr out_cap rx f now later ≡ finish r
      → recv_loop writes addr out_cap rx (arrived f now later ∷ es) ≡ r
  unfolding recv_loop
  recv_finish rx r f now later es e = rw (e, recv_loop)

  pub recv_segments :
      (tx_id : ℕ) (bytes : List ℕ) (rounds offset sn : ℕ) {deadline : ℕ} {fs : List CanFrame}
      {es : List Event} (rx : Rx)
      → addr.rx_id ≡ bit_and tx_id can_sff_mask
      → length bytes - offset ≤ rounds
      → fs ≡ segments tx_id bytes rounds offset sn
      → Midway bytes offset sn deadline rx
      → Delivery addr.rx_id deadline fs es
      → recv_loop writes addr out_cap rx es ≡ received bytes
  recv_segments tx_id bytes zero offset sn rx a r e m d = absurd (omega (arith, m.left))
  recv_segments tx_id bytes (suc rounds) offset sn rx a r e m done =
      cc (e ∙ segments-more tx_id bytes rounds offset sn m.left)
  recv_segments tx_id bytes (suc rounds) offset sn rx a r e m (foreign {es = es} f now later h d) =
      recv_continue rx rx f now later es (foreign_step rx f now later h)
      ∙ recv_segments tx_id bytes (suc rounds) offset sn rx a r e m d
  recv_segments tx_id bytes (suc rounds) offset sn {deadline} rx a r e m
        (next {fs = rest} {es = es} f now later h d) =
      elim (chunk_result tx_id bytes offset sn deadline later rx m) [
        | inl last ↦ recv_finish rx (received bytes) f now later es (step ∙ last)
        | inr (rx', more, m') ↦
            recv_continue rx rx' f now later es (step ∙ more)
            ∙ recv_segments tx_id bytes rounds (offset + chunk_at bytes offset) (next_sn sn) rx' a
                (omega (arith, chunk_bounds bytes offset m.left)) same_rest m' d
      ]
    where
      split :
          f ∷ rest
          ≡ consecutive_frame tx_id bytes offset sn
            ∷ segments tx_id bytes rounds (offset + chunk_at bytes offset) (next_sn sn)
      split = e ∙ segments-more tx_id bytes rounds offset sn m.left

      same_frame : f ≡ consecutive_frame tx_id bytes offset sn
      same_frame = cc split

      same_rest : rest ≡ segments tx_id bytes rounds (offset + chunk_at bytes offset) (next_sn sn)
      same_rest = cc split

      step :
          on_frame writes addr out_cap rx f now later
          ≡ on_chunk writes addr out_cap rx (consecutive_frame tx_id bytes offset sn) later
      step = rw same_frame (chunk_step tx_id bytes offset sn deadline now later rx a h m)
