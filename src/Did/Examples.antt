-- ===== src/Did/Examples.antt =====
-- The identifier table of src/did_table.c with two entries for one identifier.
use vecu_uds.Base.Machine.{replay}
use vecu_uds.Did.{lookup_loop, init, add, no_entry, DidEntry, lookup}
use vecu_uds.Base.{true, none, List, [], refl, ◌∷◌, some, ◌≡◌}
use vecu_uds.Did.Calls.{
  was_added, add_call, did_calls-list, lookup_call, found, list_call, Call, call,
}
use vecu_uds.Did.Lookup.{added}

abbrev vin : DidEntry
vin = record no_entry { did = 0xF190; static_data = some (86 ∷ []); static_len = 1 }

abbrev other : DidEntry
other = record no_entry { did = 0xF190; static_data = some (70 ∷ []); static_len = 1 }

abbrev calls : List Call
calls = lookup_call 0xF190 ∷ add_call vin ∷ add_call other ∷ lookup_call 0xF190 ∷ []

did_calls-list_example :
    let (answers, t) = replay call calls init in
    let (list_answers, es) = replay list_call calls [] in (answers ≡ list_answers) × (added t ≡ es)
did_calls-list_example = did_calls-list calls

did_answers :
    (replay call calls init).0
    ≡ found none ∷ was_added true ∷ was_added true ∷ found (some vin) ∷ []
unfolding replay call lookup lookup_loop add init
did_answers = refl
