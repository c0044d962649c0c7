-- ===== src/IsoTp/Recv.antt =====
-- The receiver of src/isotp.c, one frame at a time. `writes n` says whether the write of the flow
-- control frame number n succeeds.
use vecu_uds.Base.{
  u64, true, leb, length, drop, ◌++◌, take, ◌||◌, not, ltb, ◌!=◌, u8, ◌==◌, ◌∷◌, if◌then◌else◌,
  ◌<<◌, [], ◌-◌, bit_or, false, bit_and, Bool, List, ℕ, ◌+◌,
}
use vecu_uds.IsoTp.Frame.{
  pci_cf, n_cr_ms, pci_ff, max_payload, broken, pci_sf, fc_fs_cts, interrupted, arrived, frame_pad,
  Event, can_sff_mask, pci_type, data_at, Addr, CanFrame,
}

-- The local variables of isotp_recv. `out` is what has been written to the caller's buffer.
pub record Rx : Type 0 where
  pub receiving : Bool
  pub total_len : ℕ
  pub got : ℕ
  pub expected_sn : ℕ
  pub deadline : ℕ
  pub out : List ℕ
  pub controls : List CanFrame

-- How a call of isotp_recv ends: its return codes 0 (with the message), 1 and -1, or it still waits
-- for the bus.
pub data RecvResult : Type 0 where
  received : List ℕ → RecvResult
  recv_interrupted : RecvResult
  recv_failed : RecvResult
  blocked : Rx → RecvResult

pub data Next : Type 0 where
  continue : Rx → Next
  finish : RecvResult → Next

-- the frame of send_fc_cts
abbrev pub flow_control : ℕ → CanFrame
flow_control tx_id = record {
  can_id = bit_and tx_id can_sff_mask;
  payload = frame_pad (u8 (bit_or 0x30 fc_fs_cts) ∷ 0x00 ∷ 0x00 ∷ []);
}

module _ (writes : ℕ → Bool) (addr : Addr) (out_cap : ℕ) where
  -- a single frame, and a first frame, outside a reassembly
  abbrev pub on_single : Rx → CanFrame → Next
  on_single rx f =
      let len = bit_and (data_at f 0) 0x0F in
      if len == 0 || ltb 7 len || ltb out_cap len
      then continue rx
      else finish (received (take len (drop 1 f.payload)))

  abbrev pub on_first : Rx → CanFrame → ℕ → Next
  on_first rx f later =
      let total = bit_or (bit_and (data_at f 0) 0x0F << 8) (data_at f 1) in
      if ltb total 8 || ltb max_payload total || ltb out_cap total
      then continue (record rx { total_len = total })
      else if writes (length rx.controls)
      then continue (record {
        receiving = true;
        total_len = total;
        got = 6;
        expected_sn = 1;
        deadline = u64 (later + n_cr_ms);
        out = take 6 (drop 2 f.payload);
        controls = rx.controls ++ flow_control addr.tx_id ∷ [];
      })
      else finish recv_failed

  -- a consecutive frame with the expected sequence number
  abbrev pub on_chunk : Rx → CanFrame → ℕ → Next
  on_chunk rx f later =
      let remaining = rx.total_len - rx.got in
      let chunk = if ltb 7 remaining then 7 else remaining in
      let out = take rx.got rx.out ++ take chunk (drop 1 f.payload) in
      if leb rx.total_len (rx.got + chunk)
      then finish (received (take rx.total_len out))
      else continue (record rx {
        out = out;
        got = rx.got + chunk;
        expected_sn = u8 (bit_and (rx.expected_sn + 1) 0x0F);
        deadline = u64 (later + n_cr_ms);
      })

  -- one round of the loop of isotp_recv
  unfoldable pub on_frame : Rx → CanFrame → ℕ → ℕ → Next
  on_frame rx f now later =
      let pci = pci_type (data_at f 0) in
      if bit_and f.can_id can_sff_mask != addr.rx_id
      then continue rx
      else if not rx.receiving
      then (if pci == pci_sf
          then on_single rx f
          else if pci == pci_ff
          then on_first rx f later
          else continue rx)
      else if ltb rx.deadline now
      then finish recv_failed
      else if pci != pci_cf
      then continue (record rx { receiving = false })
      else if bit_and (data_at f 0) 0x0F != rx.expected_sn
      then finish recv_failed
      else on_chunk rx f later

  unfoldable pub recv_loop : Rx → List Event → RecvResult
  recv_loop rx [] = blocked rx
  recv_loop rx (interrupted ∷ es) = recv_interrupted
  recv_loop rx (broken ∷ es) = recv_failed
  recv_loop rx (arrived f now later ∷ es) = elim (on_frame rx f now later) [
    | continue rx' ↦ recv_loop rx' es
    | finish r ↦ r
  ]

  abbrev pub idle : Rx
  idle = record {
    receiving = false;
    total_len = 0;
    got = 0;
    expected_sn = 1;
    deadline = 0;
    out = [];
    controls = [];
  }

  -- isotp_recv over what the bus gives
  unfoldable pub isotp_recv : List Event → RecvResult
  unfolding recv_loop on_frame
  isotp_recv events = recv_loop idle events
