-- ===== src/IsoTp/Capacity.antt =====
-- The receiver of src/isotp.c and the size of the caller's buffer, whatever the bus brings.
use vecu_uds.Base.{
  if-holds, ◌==◌, not, ◌!=◌, length-append, ◌++◌, take, [], drop, bit_and, ltb, ◌∷◌, length-take,
  if◌then◌else◌, ◌-◌, ◌<◌, arith, false, ◌≤◌, List, true, length, ◌≡◌, Bool, ℕ,
}
use vecu_uds.IsoTp.Recv.{
  recv_failed, recv_interrupted, idle, blocked, on_first, on_single, on_chunk, on_frame, recv_loop,
  isotp_recv, finish, continue, received, Next, RecvResult, Rx,
}
use vecu_uds.IsoTp.Frame.{
  pci_cf, pci_ff, pci_sf, pci_type, can_sff_mask, broken, interrupted, data_at, arrived, Event,
  CanFrame, Addr,
}

-- While a message is being put together it fits the buffer, and some bytes of it are missing.
pub record Fits (out_cap : ℕ) (rx : Rx) : Type 0 where
  pub message_fits : rx.receiving ≡ true → rx.total_len ≤ out_cap
  pub missing : rx.receiving ≡ true → rx.got < rx.total_len
  pub in_buffer : length rx.out ≤ out_cap

-- A message is not empty, and what is stored never exceeds the buffer.
abbrev pub WithinCapacity : ℕ → RecvResult → Type 0
WithinCapacity out_cap (received bytes) = length bytes ≤ out_cap
WithinCapacity out_cap (blocked rx) = length rx.out ≤ out_cap
WithinCapacity out_cap recv_interrupted = Unit {0}
WithinCapacity out_cap recv_failed = Unit {0}

abbrev Kept : ℕ → Next → Type 0
Kept out_cap (continue rx) = Fits out_cap rx
Kept out_cap (finish r) = WithinCapacity out_cap r

module _ (writes : ℕ → Bool) (addr : Addr) (out_cap : ℕ) where
  on_single-Kept :
      (rx : Rx) (f : CanFrame) → Fits out_cap rx → Kept out_cap (on_single writes addr out_cap rx f)
  on_single-Kept rx f h =
      ground (arith, length-take (bit_and (data_at f 0) 0x0F) (drop 1 f.payload))

  on_first-Kept :
      (rx : Rx) (f : CanFrame) (later : ℕ)
      → rx.receiving ≡ false
      → Fits out_cap rx
      → Kept out_cap (on_first writes addr out_cap rx f later)
  on_first-Kept rx f later off h = ground (arith, length-take 6 (drop 2 f.payload))

  on_chunk-Kept :
      (rx : Rx) (f : CanFrame) (later : ℕ)
      → rx.receiving ≡ true
      → Fits out_cap rx
      → Kept out_cap (on_chunk writes addr out_cap rx f later)
  on_chunk-Kept rx f later on h =
      let remaining = rx.total_len - rx.got in
      let chunk = if ltb 7 remaining then 7 else remaining in
      let out = take rx.got rx.out ++ take chunk (drop 1 f.payload) in
      ground (
        arith,
        h.message_fits on,
        h.missing on,
        length-take rx.got rx.out,
        length-take chunk (drop 1 f.payload),
        length-append (take rx.got rx.out) (take chunk (drop 1 f.payload)),
        length-take rx.total_len out,
      )

  on_frame-Kept :
      (rx : Rx) (f : CanFrame) (now later : ℕ)
      → Fits out_cap rx
      → Kept out_cap (on_frame writes addr out_cap rx f now later)
  unfolding on_frame
  on_frame-Kept rx f now later h =
      if-holds (Kept out_cap) (bit_and f.can_id can_sff_mask != addr.rx_id) _ _ (λ _. h)
        λ _.
          if-holds (Kept out_cap) (not rx.receiving) _ _
            (λ off.
              if-holds (Kept out_cap) (pci_type (data_at f 0) == pci_sf) _ _
                (λ _. on_single-Kept rx f h)
                λ _.
                  if-holds (Kept out_cap) (pci_type (data_at f 0) == pci_ff) _ _
                    (λ _. on_first-Kept rx f later (ground arith) h) (λ _. h))
            λ on.
              if-holds (Kept out_cap) (ltb rx.deadline now) _ _ (λ _. tt)
                λ _.
                  if-holds (Kept out_cap) (pci_type (data_at f 0) != pci_cf) _ _ (λ _. stopped)
                    λ _.
                      if-holds (Kept out_cap) (bit_and (data_at f 0) 0x0F != rx.expected_sn) _ _
                        (λ _. tt) (λ _. on_chunk-Kept rx f later (ground arith) h)
    where
      stopped : Fits out_cap (record rx { receiving = false })
      stopped = record { message_fits = λ e. cc e; missing = λ e. cc e; in_buffer = h.in_buffer }

  recv_loop-WithinCapacity :
      (rx : Rx) (es : List Event)
      → Fits out_cap rx
      → WithinCapacity out_cap (recv_loop writes addr out_cap rx es)
  unfolding recv_loop
  recv_loop-WithinCapacity rx [] h = h.in_buffer
  recv_loop-WithinCapacity rx (interrupted ∷ es) h = tt
  recv_loop-WithinCapacity rx (broken ∷ es) h = tt
  recv_loop-WithinCapacity rx (arrived f now later ∷ es) h =
      go (on_frame writes addr out_cap rx f now later) (on_frame-Kept rx f now later h)
        λ rx' k. recv_loop-WithinCapacity rx' es k
    where
      go :
          (n : Next)
          → Kept out_cap n
          → ((rx' : Rx)
              → Fits out_cap rx'
              → WithinCapacity out_cap (recv_loop writes addr out_cap rx' es))
          → WithinCapacity out_cap
              (elim n [ continue rx' ↦ recv_loop writes addr out_cap rx' es | finish r ↦ r ])
      go (continue rx') k ih = ih rx' k
      go (finish r) k ih = k

  -- Whatever the bus brings, a message that isotp_recv returns fits the caller's buffer, and what it
  -- has stored of an unfinished one does too.
  pub isotp_recv-WithinCapacity :
      (es : List Event) → WithinCapacity out_cap (isotp_recv writes addr out_cap es)
  unfolding isotp_recv
  isotp_recv-WithinCapacity es =
      recv_loop-WithinCapacity (idle writes addr out_cap) es
        (record { message_fits = λ e. cc e; missing = λ e. cc e; in_buffer = omega arith })
