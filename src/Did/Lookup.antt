-- ===== src/Did/Lookup.antt =====
-- The table of src/did_table.c seen as the list of the entries that were added, oldest first.
use vecu_uds.Base.{
  ℕ, zero, suc, ◌+◌, ◌≤◌, ◌≡◌, refl, sym, ◌∙◌, true, false, inl, inr, List, [], ◌∷◌, ◌++◌, Option,
  none, some, ltb, leb, ◌==◌, if◌then◌else◌, length, take, drop, arith, Bool-cases, take-set_next,
  length-set, length-take, drop-get_or,
}
use vecu_uds.Did.{DidEntry, DidTable, did_table_max, no_entry, init, add, lookup_loop, lookup}

abbrev pub added : DidTable → List DidEntry
added t = take t.count t.entries

pub record IsValid (t : DidTable) : Type 0 where
  pub full_array : length t.entries ≡ did_table_max
  pub count_capped : t.count ≤ did_table_max

pub init-IsValid : IsValid init
unfolding init
init-IsValid = omega arith

-- The first entry with the identifier.
unfoldable pub find : ℕ → List DidEntry → Option DidEntry
find did [] = none
find did (e ∷ es) = if e.did == did then some e else find did es

lookup_loop_lem :
    (rounds i : ℕ) (entries : List DidEntry) (did : ℕ)
    → i + rounds ≤ length entries
    → lookup_loop rounds i entries did ≡ find did (take rounds (drop i entries))
unfolding lookup_loop find
lookup_loop_lem zero i entries did h = refl
lookup_loop_lem (suc rounds) i entries did h = rw (
  drop-get_or i entries no_entry (omega arith),
  lookup_loop_lem rounds (i + 1) entries did (omega arith),
)

-- did_table_lookup finds the first entry that was added with the identifier, and NULL if there is
-- none.
pub lookup-find : (did : ℕ) (t : DidTable) → IsValid t → lookup did t ≡ find did (added t)
unfolding lookup
lookup-find did t v = lookup_loop_lem t.count 0 t.entries did (omega (arith, v))

length-added : (t : DidTable) → IsValid t → length (added t) ≡ t.count
length-added t v = omega (arith, length-take t.count t.entries, v)

-- did_table_add appends the entry to those that were added and reports success while there is room,
-- and otherwise leaves the table as it is and reports failure; it keeps the invariant.
pub added-add :
    (e : DidEntry) (t : DidTable)
    → IsValid t
    → let (done, t') = add e t in
      IsValid t'
      × (done ≡ ltb (length (added t)) did_table_max)
      × (added t' ≡ (if ltb (length (added t)) did_table_max then added t ++ e ∷ [] else added t))
unfolding add
added-add e t v = elim (Bool-cases (ltb t.count did_table_max)) [
  | inl room ↦
      let below : leb did_table_max t.count ≡ false = ground arith in
      rw (length-added t v, room, below)
        (
          record {
            full_array = length-set t.entries t.count e ∙ v.full_array;
            count_capped = ground arith;
          },
          refl,
          take-set_next t.count t.entries e (ground arith),
        )
  | inr full ↦
      let above : leb did_table_max t.count ≡ true = ground arith in
      rw (length-added t v, full, above) (v, refl, refl)
]

find-append :
    (did : ℕ) (es : List DidEntry) (e x : DidEntry)
    → find did es ≡ some x
    → find did (es ++ e ∷ []) ≡ some x
unfolding find
find-append did [] e x h = cc
find-append did (y ∷ es) e x h = elim (Bool-cases (y.did == did)) [
  | inl hit ↦ rw (hit, find) (rw (hit, find) at h)
  | inr miss ↦ rw (miss, find) (find-append did es e x (rw (miss, find) at h))
]

-- The entry that was registered first for an identifier is the one that is found, whatever is added
-- after it.
pub lookup-add_old :
    (did : ℕ) (e x : DidEntry) (t : DidTable)
    → IsValid t
    → lookup did t ≡ some x
    → lookup did (add e t).1 ≡ some x
lookup-add_old did e x t v h =
    let (valid, done, grown) = added-add e t v in
    rw (lookup-find did (add e t).1 valid, grown)
      (elim (Bool-cases (ltb (length (added t)) did_table_max)) [
        | inl room ↦ rw room (find-append did (added t) e x old)
        | inr full ↦ rw full old
      ])
  where
    old : find did (added t) ≡ some x
    old = sym (lookup-find did t v) ∙ h
