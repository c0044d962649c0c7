-- ===== src/Did/Calls.antt =====
-- Sequences of calls of src/did_table.c against a list of at most sixteen entries.
use vecu_uds.Base.{refl, ◌∷◌, ◌++◌, ap, if◌then◌else◌, ◌≡◌, length, [], ltb, Option, ℕ, List, Bool}
use vecu_uds.Base.Machine.{replay, Simulates, replay-Simulates}
use vecu_uds.Did.{did_table_max, lookup, add, init, DidTable, DidEntry}
use vecu_uds.Did.Lookup.{init-IsValid, find, lookup-find, added-add, added, IsValid}

pub data Call : Type 0 where
  add_call : DidEntry → Call
  lookup_call : ℕ → Call

pub data Answer : Type 0 where
  was_added : Bool → Answer
  found : Option DidEntry → Answer

unfoldable pub call : Call → DidTable → Answer × DidTable
call (add_call e) t = let (done, after) = add e t in (was_added done, after)
call (lookup_call did) t = (found (lookup did t), t)

unfoldable pub list_call : Call → List DidEntry → Answer × List DidEntry
list_call (add_call e) es =
    let room = ltb (length es) did_table_max in (was_added room, if room then es ++ e ∷ [] else es)
list_call (lookup_call did) es = (found (find did es), es)

call-Simulates :
    (c : Call) (t : DidTable)
    → IsValid t
    → Simulates IsValid added (call c t) (list_call c (added t))
unfolding call list_call
call-Simulates (add_call e) t v =
    let (valid, done, grown) = added-add e t v in
    record { valid = valid; answer = ap was_added done; state = grown }
call-Simulates (lookup_call did) t v = record {
  valid = v;
  answer = ap found (lookup-find did t v);
  state = refl;
}

-- Any sequence of did_table_add and did_table_lookup on a new table is answered as on a list: an
-- addition appends the entry and fails when the list is full, and a lookup finds the first entry
-- that was added with the identifier, and NULL if there is none. The entries of the table are those
-- of the list at the end.
pub did_calls-list :
    (cs : List Call)
    → let (answers, t) = replay call cs init in
      let (list_answers, es) = replay list_call cs [] in (answers ≡ list_answers) × (added t ≡ es)
unfolding init
did_calls-list cs =
    let r = replay-Simulates IsValid added call list_call call-Simulates cs init init-IsValid in
    (r.answer, r.state)
