-- ===== src/IsoTp/Intact.antt =====
-- The receiver of src/isotp.c when frames of one message are lost, repeated or reordered.
use vecu_uds.Base.{
  some, [], ◌∷◌, true, inr, ◌≢◌, bit_and, inl, ◌*◌, ◌+◌, ◌≤◌, ◌⊎◌, length, ◌≡◌, Bool, List, ℕ, refl,
  arith,
}
use mathlib.Core.List.{Memᴰ}
use vecu_uds.IsoTp.Parts.{frames-IsPart, sn_at, IsPart}
use vecu_uds.IsoTp.Frame.{Event, can_sff_mask, CanFrame, Addr, arrived, interrupted, broken}
use vecu_uds.IsoTp.Recv.{idle, recv_loop, isotp_recv, finish, on_frame, continue, Next, Rx}
use vecu_uds.IsoTp.Reassembly.{foreign_step}
use vecu_uds.IsoTp.Send.{sent, isotp_send, first_frame, single_frame}
use vecu_uds.IsoTp.RoundTrip.{sent_frames, first_fields, single_fields}
use vecu_uds.IsoTp.Segments.{frames_of}
use vecu_uds.IsoTp.Steps.{
  numbered_chunk, idle_chunk, idle_first, other_frame, idle_single, Keeps, IsIntact, Waits,
}

-- Every frame for the receiver is one of these, however often and in whatever order; frames with
-- another identifier, interruptions and errors may come too.
abbrev pub AllFrom : ℕ → List CanFrame → List Event → Type 0
AllFrom rx_id frames [] = Unit {0}
AllFrom rx_id frames (arrived f now later ∷ es) =
    ((bit_and f.can_id can_sff_mask ≢ rx_id) ⊎ Memᴰ f frames) × AllFrom rx_id frames es
AllFrom rx_id frames (interrupted ∷ es) = AllFrom rx_id frames es
AllFrom rx_id frames (broken ∷ es) = AllFrom rx_id frames es

module _ (writes : ℕ → Bool) (addr : Addr) (out_cap tx_id : ℕ) (bytes : List ℕ) where
  part-Keeps :
      (rx : Rx) (f : CanFrame) (now later : ℕ)
      → length bytes ≤ 118
      → IsPart tx_id bytes f
      → Waits bytes rx
      → Keeps bytes (on_frame writes addr out_cap rx f now later)
  part-Keeps rx f now later few (IsPart.single short e) (inl off) =
      rw e (idle_single writes addr out_cap tx_id bytes rx now later short off)
  part-Keeps rx f now later few (IsPart.single short e) (inr (i, m)) = rw e (
      other_frame writes addr out_cap tx_id bytes rx (single_frame tx_id bytes) now later
        (ground (arith, single_fields (length bytes) short)) m.receiving (inr (i, m)))
  part-Keeps rx f now later few (IsPart.first long e) (inl off) =
      rw e (idle_first writes addr out_cap tx_id bytes rx now later long (omega arith) off)
  part-Keeps rx f now later few (IsPart.first long e) (inr (i, m)) = rw e (
      other_frame writes addr out_cap tx_id bytes rx (first_frame tx_id bytes) now later
        (ground (arith, first_fields (length bytes) (omega arith))) m.receiving (inr (i, m)))
  part-Keeps rx f now later few (IsPart.chunk k there e) (inl off) = rw e (
      idle_chunk writes addr out_cap tx_id bytes rx now later (6 + 7 * k) (sn_at k) (omega arith)
        off)
  part-Keeps rx f now later few (IsPart.chunk k there e) (inr (i, m)) =
      rw e (numbered_chunk writes addr out_cap tx_id bytes rx i k now later few there m)

  recv_loop-Intact :
      (rx : Rx) (es : List Event)
      → length bytes ≤ 118
      → AllFrom addr.rx_id (frames_of tx_id bytes) es
      → Waits bytes rx
      → IsIntact bytes (recv_loop writes addr out_cap rx es)
  unfolding recv_loop
  recv_loop-Intact rx [] few h w = tt
  recv_loop-Intact rx (interrupted ∷ es) few h w = tt
  recv_loop-Intact rx (broken ∷ es) few h w = tt
  recv_loop-Intact rx (arrived f now later ∷ es) few (inl foreign, rest) w =
      rw (foreign_step writes addr out_cap rx f now later foreign, recv_loop)
        (recv_loop-Intact rx es few rest w)
  recv_loop-Intact rx (arrived f now later ∷ es) few (inr part, rest) w =
      go (on_frame writes addr out_cap rx f now later)
        (part-Keeps rx f now later few (frames-IsPart tx_id bytes f part) w)
        λ rx' k. recv_loop-Intact rx' es few rest k
    where
      go :
          (n : Next)
          → Keeps bytes n
          → ((rx' : Rx) → Waits bytes rx' → IsIntact bytes (recv_loop writes addr out_cap rx' es))
          → IsIntact bytes
              (elim n [ continue rx' ↦ recv_loop writes addr out_cap rx' es | finish r ↦ r ])
      go (continue rx') k ih = ih rx' k
      go (finish r) k ih = k

-- Of a message of up to 118 bytes that isotp_send has sent, whatever part of the frames arrives, in
-- whatever order, repeated or not, with frames for others, interruptions and errors in between:
-- isotp_recv returns this message or none.
pub isotp_recv-Intact :
    (send_writes recv_writes : ℕ → Bool) (start out_cap : ℕ) (controls es : List Event)
    (sender receiver : Addr) (bytes : List ℕ) (frames : List CanFrame)
    → ((n : ℕ) → send_writes n ≡ true)
    → length bytes ≤ 118
    → isotp_send send_writes start controls sender bytes ≡ some (sent frames)
    → AllFrom receiver.rx_id frames es
    → IsIntact bytes (isotp_recv recv_writes receiver out_cap es)
unfolding isotp_recv
isotp_recv-Intact send_writes recv_writes start out_cap controls es sender receiver bytes frames
      all_written few e h =
    let all = sent_frames send_writes start controls sender bytes frames all_written e in
    recv_loop-Intact recv_writes receiver out_cap sender.tx_id bytes
      (idle recv_writes receiver out_cap) es few (rw all at h) (inl refl)
