-- ===== src/Dtc/Examples.antt =====
-- The trouble code memory of src/dtc_mem.c over a few calls.
use vecu_uds.Base.Machine.{replay}
use vecu_uds.Dtc.{clear_all, snapshot_loop, init, add, snapshot_by_mask}
use vecu_uds.Dtc.Calls.{
  erased, copied, clear_call, snapshot_call, was_added, add_call, dtc_calls-list, list_call, Call,
  call,
}
use vecu_uds.Dtc.Stored.{stored}
use vecu_uds.Base.{refl, true, List, ◌∷◌, arith, [], ◌≡◌}

abbrev calls : List Call
calls =
    add_call 0xFF042000 0x29 (omega arith)
    ∷ add_call 0x030100 0x08 (omega arith)
    ∷ snapshot_call 0x08 1
    ∷ clear_call
    ∷ snapshot_call 0xFF 16
    ∷ []

dtc_calls-list_example :
    let (answers, m) = replay call calls init in
    let (list_answers, es) = replay list_call calls [] in (answers ≡ list_answers) × (stored m ≡ es)
dtc_calls-list_example = dtc_calls-list calls

dtc_answers :
    (replay call calls init).0
    ≡ was_added true
      ∷ was_added true
      ∷ copied (record { dtc = 0x042000; status = 0x29 } ∷ [])
      ∷ erased 2
      ∷ copied []
      ∷ []
unfolding replay call init add snapshot_by_mask snapshot_loop clear_all
dtc_answers = refl
