-- ===== src/Dtc/Calls.antt =====
-- Sequences of calls of src/dtc_mem.c against a list of at most sixteen trouble codes.
use vecu_uds.Base.{
  refl, take, ◌∷◌, ◌%◌, ◌++◌, if◌then◌else◌, ap, ◌≡◌, length, ◌^◌, ltb, [], ◌<◌, List, ℕ, Bool,
}
use vecu_uds.Base.Machine.{replay, Simulates, replay-Simulates}
use vecu_uds.Dtc.{dtc_max, snapshot_by_mask, clear_all, add, DtcEntry, init, DtcMem}
use vecu_uds.Dtc.Stored.{
  init-IsValid, matching, snapshot_by_mask_lem, clear_all_lem, add_lem, stored, IsValid,
}

-- A status is a byte.
pub data Call : Type 0 where
  add_call : (dtc status : ℕ) → status < 2 ^ 8 → Call
  clear_call : Call
  snapshot_call : (mask max : ℕ) → Call

pub data Answer : Type 0 where
  was_added : Bool → Answer
  erased : ℕ → Answer
  copied : List DtcEntry → Answer

unfoldable pub call : Call → DtcMem → Answer × DtcMem
call (add_call dtc status h) m = let (done, after) = add dtc status m in (was_added done, after)
call clear_call m = let (n, after) = clear_all m in (erased n, after)
call (snapshot_call mask max) m = (copied (snapshot_by_mask mask max m), m)

unfoldable pub list_call : Call → List DtcEntry → Answer × List DtcEntry
list_call (add_call dtc status h) es =
    let room = ltb (length es) dtc_max in
    (was_added room, if room then es ++ record { dtc = dtc % 2 ^ 24; status = status } ∷ [] else es)
list_call clear_call es = (erased (length es), [])
list_call (snapshot_call mask max) es = (copied (take max (matching mask es)), es)

call-Simulates :
    (c : Call) (m : DtcMem)
    → IsValid m
    → Simulates IsValid stored (call c m) (list_call c (stored m))
unfolding call list_call
call-Simulates (add_call dtc status h) m v =
    let (valid, done, grown) = add_lem dtc status m v h in
    record { valid = valid; answer = ap was_added done; state = grown }
call-Simulates clear_call m v =
    let (valid, none_left, n) = clear_all_lem m v in
    record { valid = valid; answer = ap erased n; state = none_left }
call-Simulates (snapshot_call mask max) m v = record {
  valid = v;
  answer = ap copied (snapshot_by_mask_lem mask max m v);
  state = refl;
}

-- Any sequence of dtc_mem_add, dtc_mem_clear_all and dtc_mem_snapshot_by_mask on a new memory, with
-- statuses that are bytes, is answered as on a list of at most sixteen codes: an addition appends
-- the code, cut to 24 bits, and fails when sixteen are there; clearing returns how many there were;
-- a snapshot has, oldest first, the codes that share a status bit with the mask, as far as the
-- caller's buffer goes. The codes in the memory are those of the list at the end.
pub dtc_calls-list :
    (cs : List Call)
    → let (answers, m) = replay call cs init in
      let (list_answers, es) = replay list_call cs [] in (answers ≡ list_answers) × (stored m ≡ es)
unfolding init
dtc_calls-list cs =
    let r = replay-Simulates IsValid stored call list_call call-Simulates cs init init-IsValid in
    (r.answer, r.state)
