-- ===== src/IsoTp/Written.antt =====
-- What the sender of src/isotp.c has put on the bus when it stops, whatever the bus does.
use mathlib.Core.Path.{subst}
use vecu_uds.Base.{
  ap, u64, zero, ltb→lt, ◌⊎◌, true, ◌+◌, inr, inl, leb, Bool-cases, false, ltb, ◌||◌, ◌==◌,
  append_assoc, ◌≤◌, refl, arith, suc, append-nil, [], sym, ◌∙◌, ◌∷◌, take, ◌++◌, some, ◌<◌, ◌≡◌,
  ◌-◌, length, Option, List, Bool, ℕ,
}
use vecu_uds.IsoTp.Send.{
  next_sn, chunk_at, consecutive_frame, wait_for_fc, first_frame, single_frame, clear_to_send,
  no_clearance, silent, after_wait, isotp_send, Wait, send_consecutive, waiting, send_failed, sent,
  SendResult,
}
use vecu_uds.IsoTp.Frame.{n_cr_ms, max_payload, Addr, Event, CanFrame}
use vecu_uds.IsoTp.Segments.{chunk_bounds, segments}
use vecu_uds.IsoTp.Layout.{first_frame-laid, frames_of-layout, layout}
use vecu_uds.IsoTp.Clearance.{Pending, silent-Pending}

abbrev pub written : SendResult → List CanFrame
written (sent fs) = fs
written (send_failed fs) = fs
written (waiting fs) = fs

abbrev pub is_sent : SendResult → Bool
is_sent (sent fs) = true
is_sent (send_failed fs) = false
is_sent (waiting fs) = false

abbrev pub is_waiting : SendResult → Bool
is_waiting (sent fs) = false
is_waiting (send_failed fs) = false
is_waiting (waiting fs) = true

-- The fuel is enough, what was written is the beginning of the frames, and all of them exactly on
-- success; where the call still waits for the bus, `Blocked` holds of what it has written.
pub record Ends (Blocked : List CanFrame → Type 0) (out all : List CanFrame) (o : Option SendResult)
    : Type 0 where
  pub result : SendResult
  pub ends : o ≡ some result
  pub count : ℕ
  pub beginning : written result ≡ out ++ take count all
  pub complete : (is_sent result ≡ false) ⊎ (written result ≡ out ++ all)
  pub blocked : (is_waiting result ≡ false) ⊎ Blocked (written result)

abbrev is_silent : Wait → Bool
is_silent silent = true
is_silent no_clearance = false
is_silent clear_to_send = false

module _ (Blocked : List CanFrame → Type 0) where
  -- It stops here: nothing more is written.
  Ends-stop :
      (out all : List CanFrame) (r : SendResult)
      → written r ≡ out
      → (is_sent r ≡ false) ⊎ (written r ≡ out ++ all)
      → (is_waiting r ≡ false) ⊎ Blocked (written r)
      → Ends Blocked out all (some r)
  Ends-stop out all r w c b = record {
    result = r;
    ends = refl;
    count = 0;
    beginning = w ∙ sym (append-nil out);
    complete = c;
    blocked = b;
  }

  Ends-step :
      (out all : List CanFrame) (f : CanFrame) (o : Option SendResult)
      → Ends Blocked (out ++ f ∷ []) all o
      → Ends Blocked out (f ∷ all) o
  Ends-step out all f o e = record {
    result = e.result;
    ends = e.ends;
    count = suc e.count;
    beginning = e.beginning ∙ append_assoc out (f ∷ []) (take e.count all);
    complete = elim e.complete [
      | inl partly ↦ inl partly
      | inr whole ↦ inr (whole ∙ append_assoc out (f ∷ []) all)
    ];
    blocked = e.blocked;
  }

  Ends-consecutive :
      (writes : ℕ → Bool) (tx_id : ℕ) (bytes : List ℕ) (fuel offset sn : ℕ) (out : List CanFrame)
      → length bytes - offset < fuel
      → Ends Blocked out
          (segments tx_id bytes fuel offset sn)
          (send_consecutive writes tx_id bytes fuel offset sn out)
  unfolding send_consecutive segments
  Ends-consecutive writes tx_id bytes zero offset sn out h = absurd (omega arith)
  Ends-consecutive writes tx_id bytes (suc fuel) offset sn out h =
      elim (Bool-cases (ltb offset (length bytes))) [
        | inl more ↦
            rw (more, send_consecutive, segments)
              (elim (Bool-cases (writes (length out))) [
                | inl ok ↦
                    rw (ok, send_consecutive)
                      (Ends-step out _ (consecutive_frame tx_id bytes offset sn) _ (
                        Ends-consecutive writes tx_id bytes fuel (offset + chunk_at bytes offset)
                          (next_sn sn) (out ++ consecutive_frame tx_id bytes offset sn ∷ [])
                          (omega (arith, chunk_bounds bytes offset (ltb→lt _ _ more)))))
                | inr bad ↦ rw bad (Ends-stop out _ (send_failed out) refl (inl refl) (inl refl))
              ])
        | inr over ↦
            rw (over, send_consecutive, segments)
              (Ends-stop out [] (sent out) refl (inr (sym (append-nil out))) (inl refl))
      ]

  Ends-after_wait :
      (writes : ℕ → Bool) (tx_id : ℕ) (bytes : List ℕ) (out : List CanFrame) (w : Wait)
      → 6 < length bytes
      → (is_silent w ≡ false) ⊎ Blocked out
      → Ends Blocked out
          (segments tx_id bytes (length bytes) 6 1)
          (after_wait writes tx_id bytes out w)
  Ends-after_wait writes tx_id bytes out silent h b =
      Ends-stop out _ (waiting out) refl (inl refl) b
  Ends-after_wait writes tx_id bytes out no_clearance h b =
      Ends-stop out _ (send_failed out) refl (inl refl) (inl refl)
  Ends-after_wait writes tx_id bytes out clear_to_send h b =
      Ends-consecutive writes tx_id bytes (length bytes) 6 1 out (omega arith)

-- It has written the first frame of a message longer than seven bytes, and all that the bus has
-- brought leaves the wait for flow control undecided.
abbrev pub Unanswered : Addr → ℕ → List Event → List ℕ → List CanFrame → Type 0
Unanswered addr start events bytes out =
    (out ≡ take 1 (layout addr.tx_id bytes))
    × (7 < length bytes)
    × Pending addr.rx_id (u64 (start + n_cr_ms)) events

wait_silent : (w : Wait) → (is_silent w ≡ false) ⊎ (w ≡ silent)
wait_silent silent = inr refl
wait_silent no_clearance = inl refl
wait_silent clear_to_send = inl refl

unanswered :
    (start : ℕ) (events : List Event) (addr : Addr) (bytes : List ℕ)
    → length bytes ≤ max_payload
    → 7 < length bytes
    → (is_silent (wait_for_fc addr.rx_id (u64 (start + n_cr_ms)) events) ≡ false)
      ⊎ Unanswered addr start events bytes (first_frame addr.tx_id bytes ∷ [])
unanswered start events addr bytes fits long =
    let deadline = u64 (start + n_cr_ms) in
    let not_single : leb (length bytes) 7 ≡ false = ground arith in
    elim (wait_silent (wait_for_fc addr.rx_id deadline events)) [
      | inl over ↦ inl over
      | inr quiet ↦ inr (
        rw not_single (ap (λ f. f ∷ []) (first_frame-laid addr.tx_id bytes long fits)),
        long,
        silent-Pending addr.rx_id deadline events quiet,
      )
    ]

-- Of a message of 1 to 4095 bytes, whatever the bus brings and whichever writes succeed, isotp_send
-- has written the beginning of the frames that ISO 15765-2 lays out, counted out from the front of
-- the message, and all of them if it reports success. It succeeds, fails, or still waits for the
-- bus; it waits only if the message is longer than seven bytes, exactly the first frame is written,
-- and the bus has so far brought nothing but interruptions, frames for someone else that come before
-- the deadline, and the peer's flow control with the status WAIT.
pub isotp_send-Ends :
    (writes : ℕ → Bool) (start : ℕ) (events : List Event) (addr : Addr) (bytes : List ℕ)
    → 0 < length bytes
    → length bytes ≤ max_payload
    → Ends
        (Unanswered addr start events bytes)
        []
        (layout addr.tx_id bytes)
        (isotp_send writes start events addr bytes)
unfolding isotp_send
isotp_send-Ends writes start events addr bytes some_bytes fits =
    let not_empty : (length bytes == 0 || ltb max_payload (length bytes)) ≡ false = ground arith in
    let Blocked = Unanswered addr start events bytes in
    let same = frames_of-layout addr.tx_id bytes fits in
    let wait = wait_for_fc addr.rx_id (u64 (start + n_cr_ms)) events in
    subst (λ all. Ends Blocked [] all (isotp_send writes start events addr bytes)) same
      (rw not_empty (elim (Bool-cases (leb (length bytes) 7)) [
        | inl short ↦ rw short (elim (Bool-cases (writes 0)) [
          | inl ok ↦ rw ok (
              Ends-step Blocked [] [] (single_frame addr.tx_id bytes) _
                (Ends-stop Blocked _ [] _ refl (inr refl) (inl refl)))
          | inr bad ↦ rw bad (Ends-stop Blocked [] _ (send_failed []) refl (inl refl) (inl refl))
        ])
        | inr long ↦ rw long (elim (Bool-cases (writes 0)) [
          | inl ok ↦ rw ok (
              Ends-step Blocked [] _ (first_frame addr.tx_id bytes) _ (
                Ends-after_wait Blocked writes addr.tx_id bytes _ wait (ground arith)
                  (unanswered start events addr bytes fits (ground (arith, long)))))
          | inr bad ↦ rw bad (Ends-stop Blocked [] _ (send_failed []) refl (inl refl) (inl refl))
        ])
      ]))
