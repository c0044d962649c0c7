-- ===== src/IsoTp/Send.antt =====
-- The sender of src/isotp.c. The frames handed to the bus are a list, and `writes n` says whether
-- the write of the frame number n succeeds.
use vecu_uds.Base.{
  u64, true, zero, ◌++◌, false, leb, drop, ◌!=◌, ◌||◌, ◌-◌, suc, ◌==◌, take, ◌>>>◌, length, some,
  bit_or, none, [], ◌∷◌, ltb, Option, if◌then◌else◌, bit_and, Bool, List, u8, ℕ, ◌+◌,
}
use vecu_uds.IsoTp.Frame.{
  broken, interrupted, fc_fs_wait, fc_fs_cts, pci_fc, max_payload, pci_type, n_cr_ms, data_at,
  arrived, frame_pad, can_sff_mask, Addr, Event, CanFrame,
}

-- How a call of the sender ends: its return codes 0 and -1, or it still waits for the bus. The
-- frames are those written so far.
pub data SendResult : Type 0 where
  sent : List CanFrame → SendResult
  send_failed : List CanFrame → SendResult
  waiting : List CanFrame → SendResult

-- the frame of send_sf
abbrev pub single_frame : ℕ → List ℕ → CanFrame
single_frame tx_id bytes = record {
  can_id = bit_and tx_id can_sff_mask;
  payload = frame_pad (u8 (bit_and (length bytes) 0x0F) ∷ bytes);
}

-- the first frame of send_multiframe
abbrev pub first_frame : ℕ → List ℕ → CanFrame
first_frame tx_id bytes = record {
  can_id = bit_and tx_id can_sff_mask;
  payload =
      u8 (bit_or 0x10 (bit_and (length bytes >>> 8) 0x0F))
      ∷ u8 (bit_and (length bytes) 0xFF)
      ∷ take 6 bytes;
}

-- the bytes that the consecutive frame at an offset carries, and the frame
abbrev pub chunk_at : List ℕ → ℕ → ℕ
chunk_at bytes offset = if ltb 7 (length bytes - offset) then 7 else length bytes - offset

abbrev pub consecutive_frame : ℕ → List ℕ → ℕ → ℕ → CanFrame
consecutive_frame tx_id bytes offset sn = record {
  can_id = bit_and tx_id can_sff_mask;
  payload =
      frame_pad
        (u8 (bit_or 0x20 (bit_and sn 0x0F)) ∷ take (chunk_at bytes offset) (drop offset bytes));
}

abbrev pub next_sn : ℕ → ℕ
next_sn sn = u8 (bit_and (sn + 1) 0x0F)

-- The loop of send_multiframe with fuel; `none` means that the fuel ran out.
unfoldable pub send_consecutive :
    (ℕ → Bool) → ℕ → List ℕ → ℕ → ℕ → ℕ → List CanFrame → Option SendResult
send_consecutive writes tx_id bytes zero offset sn out = none
send_consecutive writes tx_id bytes (suc fuel) offset sn out = elim (ltb offset (length bytes)) [
  | false ↦ some (sent out)
  | true ↦ elim (writes (length out)) [
    | false ↦ some (send_failed out)
    | true ↦
        send_consecutive writes tx_id bytes fuel (offset + chunk_at bytes offset) (next_sn sn)
          (out ++ consecutive_frame tx_id bytes offset sn ∷ [])
  ]
]

-- How wait_for_fc ends: its return codes 0 and -1, or no frame has come.
pub data Wait : Type 0 where
  clear_to_send : Wait
  no_clearance : Wait
  silent : Wait

-- wait_for_fc over what the bus gives; the deadline is tested only at a frame for someone else
unfoldable pub wait_for_fc : ℕ → ℕ → List Event → Wait
wait_for_fc expected_id deadline [] = silent
wait_for_fc expected_id deadline (interrupted ∷ es) = wait_for_fc expected_id deadline es
wait_for_fc expected_id deadline (broken ∷ es) = no_clearance
wait_for_fc expected_id deadline (arrived f now later ∷ es) =
    let rest = wait_for_fc expected_id deadline es in
    let status = bit_and (data_at f 0) 0x0F in
    if bit_and f.can_id can_sff_mask != expected_id
    then (if ltb deadline now then no_clearance else rest)
    else if pci_type (data_at f 0) != pci_fc
    then no_clearance
    else if status == fc_fs_cts
    then clear_to_send
    else if status == fc_fs_wait
    then rest
    else no_clearance

-- The loop is given a round for every byte.
abbrev pub after_wait : (ℕ → Bool) → ℕ → List ℕ → List CanFrame → Wait → Option SendResult
after_wait writes tx_id bytes out silent = some (waiting out)
after_wait writes tx_id bytes out no_clearance = some (send_failed out)
after_wait writes tx_id bytes out clear_to_send =
    send_consecutive writes tx_id bytes (length bytes) 6 1 out

-- send_multiframe; `start` is the clock reading that the deadline is made of
unfoldable pub send_multiframe : (ℕ → Bool) → ℕ → List Event → Addr → List ℕ → Option SendResult
send_multiframe writes start events addr bytes =
    if writes 0
    then after_wait writes addr.tx_id bytes (first_frame addr.tx_id bytes ∷ [])
        (wait_for_fc addr.rx_id (u64 (start + n_cr_ms)) events)
    else some (send_failed [])

-- isotp_send
unfoldable pub isotp_send : (ℕ → Bool) → ℕ → List Event → Addr → List ℕ → Option SendResult
unfolding send_multiframe
isotp_send writes start events addr bytes =
    if length bytes == 0 || ltb max_payload (length bytes)
    then some (send_failed [])
    else if leb (length bytes) 7
    then (if writes 0
        then some (sent (single_frame addr.tx_id bytes ∷ []))
        else some (send_failed []))
    else send_multiframe writes start events addr bytes
