-- ===== src/IsoTp/Steps.antt =====
-- One frame of a message of at most 118 bytes, at the receiver of src/isotp.c.
use vecu_uds.Base.{
  sym, ◌||◌, [], ◌∷◌, ◌++◌, take, u64, ◌<<◌, bit_or, not, ltb, ◌==◌, true, ◌!=◌, inr, ◌≢◌, bit_and,
  inl, if-holds, suc, ◌-◌, replicate, take-append, ◌*◌, ◌+◌, ◌≤◌, ◌<◌, ◌⊎◌, length, false, ◌≡◌,
  Bool, List, ℕ, refl, arith,
}
use vecu_uds.IsoTp.Parts.{next_sn-at, sn_at}
use vecu_uds.IsoTp.Frame.{
  n_cr_ms, pci_ff, pci_sf, pci_cf, can_sff_mask, data_at, pci_type, CanFrame, padding, max_payload,
  Addr,
}
use vecu_uds.IsoTp.Recv.{
  flow_control, on_first, on_chunk, finish, on_frame, continue, RecvResult, Next, Rx, recv_failed,
  recv_interrupted, blocked, received,
}
use vecu_uds.IsoTp.Reassembly.{chunk_result, pci_consecutive, Midway}
use vecu_uds.IsoTp.Send.{chunk_at, first_frame, single_frame, consecutive_frame}
use vecu_uds.IsoTp.RoundTrip.{started-Midway, first_fields, single_fields}

-- A call returns this message, or none.
abbrev pub IsIntact : List ℕ → RecvResult → Type 0
IsIntact bytes (received message) = message ≡ bytes
IsIntact bytes recv_interrupted = Unit {0}
IsIntact bytes recv_failed = Unit {0}
IsIntact bytes (blocked rx) = Unit {0}

-- Outside a reassembly, or in the middle of this message.
abbrev pub Waits : List ℕ → Rx → Type 0
Waits bytes rx =
    (rx.receiving ≡ false) ⊎ ((i : ℕ) × Midway bytes (6 + 7 * i) (sn_at i) rx.deadline rx)

abbrev pub Keeps : List ℕ → Next → Type 0
Keeps bytes (continue rx) = Waits bytes rx
Keeps bytes (finish r) = IsIntact bytes r

module _ (writes : ℕ → Bool) (addr : Addr) (out_cap tx_id : ℕ) (bytes : List ℕ) where
  pub idle_single :
      (rx : Rx) (now later : ℕ)
      → length bytes ≤ 7
      → rx.receiving ≡ false
      → Keeps bytes (on_frame writes addr out_cap rx (single_frame tx_id bytes) now later)
  unfolding on_frame
  idle_single rx now later short off = ground (
    arith,
    single_fields (length bytes) short,
    take-append bytes (replicate (8 - suc (length bytes)) padding),
  )

  first_accepted :
      (rx : Rx) (later : ℕ)
      → 7 < length bytes
      → length bytes ≤ max_payload
      → rx.receiving ≡ false
      → Keeps bytes (on_first writes addr out_cap rx (first_frame tx_id bytes) later)
  first_accepted rx later long few off =
      if-holds (Keeps bytes) (ltb total 8 || ltb max_payload total || ltb out_cap total)
        (continue (record rx { total_len = total })) _ (λ _. inl off)
        λ _.
          if-holds (Keeps bytes) (writes (length rx.controls)) (continue started)
            (finish recv_failed)
            (λ _. inr (0, started-Midway bytes total started.deadline started.controls long same))
            (λ _. tt)
    where
      f : CanFrame
      f = first_frame tx_id bytes

      total : ℕ
      total = bit_or (bit_and (data_at f 0) 0x0F << 8) (data_at f 1)

      same : total ≡ length bytes
      same = (first_fields (length bytes) few).1

      started : Rx
      started = record {
        receiving = true;
        total_len = total;
        got = 6;
        expected_sn = 1;
        deadline = u64 (later + n_cr_ms);
        out = take 6 (take 6 bytes);
        controls = rx.controls ++ flow_control addr.tx_id ∷ [];
      }

  pub idle_first :
      (rx : Rx) (now later : ℕ)
      → 7 < length bytes
      → length bytes ≤ max_payload
      → rx.receiving ≡ false
      → Keeps bytes (on_frame writes addr out_cap rx (first_frame tx_id bytes) now later)
  unfolding on_frame
  idle_first rx now later long few off =
      let f = first_frame tx_id bytes in
      let (pci, total) = first_fields (length bytes) few in
      if-holds (Keeps bytes) (bit_and f.can_id can_sff_mask != addr.rx_id) _ _ (λ _. inl off)
        λ _.
          if-holds (Keeps bytes) (not rx.receiving) _ _
            (λ _.
              if-holds (Keeps bytes) (pci_type (data_at f 0) == pci_sf) _ _
                (λ sf. absurd (ground arith))
                λ _.
                  if-holds (Keeps bytes) (pci_type (data_at f 0) == pci_ff) _ _
                    (λ _. first_accepted rx later long few off) (λ _. inl off))
            (λ on. absurd (ground arith))

  pub idle_chunk :
      (rx : Rx) (now later offset sn : ℕ)
      → sn < 16
      → rx.receiving ≡ false
      → Keeps bytes
          (on_frame writes addr out_cap rx (consecutive_frame tx_id bytes offset sn) now later)
  unfolding on_frame
  idle_chunk rx now later offset sn small off = ground (arith, pci_consecutive sn small)

  -- The frame ends the reassembly.
  pub other_frame :
      (rx : Rx) (f : CanFrame) (now later : ℕ)
      → pci_type (data_at f 0) ≢ pci_cf
      → rx.receiving ≡ true
      → Waits bytes rx
      → Keeps bytes (on_frame writes addr out_cap rx f now later)
  unfolding on_frame
  other_frame rx f now later other on w = ground arith

  on_chunk-Keeps :
      (rx : Rx) (i deadline later : ℕ)
      → Midway bytes (6 + 7 * i) (sn_at i) deadline rx
      → Keeps bytes (
          on_chunk writes addr out_cap rx
            (consecutive_frame tx_id bytes (6 + 7 * i) (sn_at i))
            later)
  on_chunk-Keeps rx i deadline later m =
      elim (chunk_result writes addr out_cap tx_id bytes (6 + 7 * i) (sn_at i) deadline later rx
        m) [
          | inl last ↦ rw last refl
          | inr (rx', more, m') ↦ rw more (
              inr (
                i + 1,
                (let there : 6 + 7 * i + chunk_at bytes (6 + 7 * i) ≡ 6 + 7 * (i + 1) =
                      ground (arith, m'.left) in
                    rw (there, next_sn-at i, sym m'.until) at m'),
              ))
        ]

  pub numbered_chunk :
      (rx : Rx) (i k now later : ℕ)
      → length bytes ≤ 118
      → 6 + 7 * k < length bytes
      → Midway bytes (6 + 7 * i) (sn_at i) rx.deadline rx
      → Keeps bytes (
          on_frame writes addr out_cap rx
            (consecutive_frame tx_id bytes (6 + 7 * k) (sn_at k))
            now
            later)
  unfolding on_frame
  numbered_chunk rx i k now later few there m =
      let f = consecutive_frame tx_id bytes (6 + 7 * k) (sn_at k) in
      let (pci, sn) = pci_consecutive (sn_at k) (omega arith) in
      if-holds (Keeps bytes) (bit_and f.can_id can_sff_mask != addr.rx_id) _ _ (λ _. inr (i, m))
        λ _.
          if-holds (Keeps bytes) (not rx.receiving) _ _
            (λ off. absurd (ground (arith, m.receiving)))
            λ _.
              if-holds (Keeps bytes) (ltb rx.deadline now) _ _ (λ _. tt)
                λ _.
                  if-holds (Keeps bytes) (pci_type (data_at f 0) != pci_cf) _ _
                    (λ h. absurd (ground arith))
                    λ _.
                      if-holds (Keeps bytes) (bit_and (data_at f 0) 0x0F != rx.expected_sn) _ _
                        (λ _. tt)
                        (λ same.
                          let k-eq : k ≡ i = ground (arith, m.left, m.expected) in
                          rw k-eq (on_chunk-Keeps rx i rx.deadline later m))
