-- ===== src/Dtc/Stored.antt =====
-- The memory of src/dtc_mem.c seen as the list of the codes that it stores, oldest first.
use vecu_uds.Base.{
  ℕ, zero, suc, ◌+◌, ◌-◌, ◌^◌, ◌≤◌, ◌<◌, ◌≡◌, refl, ap, ◌∙◌, true, inl, inr, List, [], ◌∷◌, ◌++◌,
  bit_and, ltb, ◌!=◌, if◌then◌else◌, length, get_or, take, drop, arith, append-nil, Bool-cases,
  take-nil, take_all, length-set, length-take, drop-get_or, take-room, take-set_next, ◌%◌, ltb→lt,
  bit_and_three_bytes,
}
use vecu_uds.Dtc.{
  DtcEntry, DtcMem, dtc_max, no_entry, init, add, clear_all, snapshot_loop, snapshot_by_mask,
}

abbrev pub stored : DtcMem → List DtcEntry
stored m = take m.count m.entries

-- A code is 24 bits wide and its status a byte.
abbrev pub IsEntry : DtcEntry → Type 0
IsEntry e = (e.dtc < 2 ^ 24) × (e.status < 2 ^ 8)

abbrev pub AllEntries : List DtcEntry → Type 0
AllEntries [] = Unit {0}
AllEntries (e ∷ es) = IsEntry e × AllEntries es

pub record IsValid (m : DtcMem) : Type 0 where
  pub full_array : length m.entries ≡ dtc_max
  pub count_capped : m.count ≤ dtc_max
  pub entries_fit : AllEntries (stored m)
  pub mask_fits : m.availability_mask < 2 ^ 8

-- The codes that share a status bit with the mask, in order.
unfoldable pub matching : ℕ → List DtcEntry → List DtcEntry
matching mask [] = []
matching mask (e ∷ es) =
    if bit_and e.status mask != 0 then e ∷ matching mask es else matching mask es

pub length-matching : (mask : ℕ) (es : List DtcEntry) → length (matching mask es) ≤ length es
unfolding matching
length-matching mask [] = omega arith
length-matching mask (e ∷ es) = ground (arith, length-matching mask es)

pub AllEntries-matching :
    (mask : ℕ) (es : List DtcEntry) → AllEntries es → AllEntries (matching mask es)
unfolding matching
AllEntries-matching mask [] h = tt
AllEntries-matching mask (e ∷ es) h = elim (Bool-cases (bit_and e.status mask != 0)) [
  | inl on ↦ rw on (h.0, AllEntries-matching mask es h.1)
  | inr off ↦ rw off (AllEntries-matching mask es h.1)
]

AllEntries-append :
    (es : List DtcEntry) (e : DtcEntry) → AllEntries es → IsEntry e → AllEntries (es ++ e ∷ [])
AllEntries-append [] e h k = (k, tt)
AllEntries-append (x ∷ es) e h k = (h.0, AllEntries-append es e h.1 k)

pub init-IsValid : IsValid init
unfolding init
init-IsValid = omega arith

-- The loop appends to what it has written the matching codes of the entries that are left, as far
-- as the caller's buffer goes.
snapshot_loop_lem :
    (rounds i : ℕ) (entries : List DtcEntry) (mask max : ℕ) (out : List DtcEntry)
    → i + rounds ≤ length entries
    → snapshot_loop rounds i entries mask max out
      ≡ out ++ take (max - length out) (matching mask (take rounds (drop i entries)))
unfolding snapshot_loop matching
snapshot_loop_lem zero i entries mask max out h = rw (take-nil, append-nil)
snapshot_loop_lem (suc rounds) i entries mask max out h = elim (Bool-cases (ltb (length out) max)) [
  | inl room ↦
      rw (room, drop-get_or i entries no_entry (omega arith))
        (go (λ out'. snapshot_loop_lem rounds (i + 1) entries mask max out' (omega arith)) room)
  | inr full ↦
      let none_left : max - length out ≡ 0 = ground arith in rw (full, none_left, append-nil)
]
  where
    e : DtcEntry
    e = get_or entries i no_entry

    go :
        ((out' : List DtcEntry)
          → snapshot_loop rounds (i + 1) entries mask max out'
            ≡ out' ++ take (max - length out') (matching mask (take rounds (drop (i + 1) entries))))
        → ltb (length out) max ≡ true
        → snapshot_loop rounds
            (i + 1)
            entries
            mask
            max
            (if bit_and e.status mask != 0 then out ++ e ∷ [] else out)
          ≡ out ++ take (max - length out) (matching mask (e ∷ take rounds (drop (i + 1) entries)))
    go ih room = elim (Bool-cases (bit_and e.status mask != 0)) [
      | inl on ↦ rw on (
          ih (out ++ e ∷ [])
          ∙ take-room max out (matching mask (take rounds (drop (i + 1) entries))) e
              (ltb→lt _ _ room))
      | inr off ↦ rw off (ih out)
    ]

-- dtc_mem_snapshot_by_mask copies, oldest first, the stored codes that share a status bit with the
-- mask, and stops at the capacity of the caller's buffer.
pub snapshot_by_mask_lem :
    (mask max : ℕ) (m : DtcMem)
    → IsValid m
    → snapshot_by_mask mask max m ≡ take max (matching mask (stored m))
unfolding snapshot_by_mask
snapshot_by_mask_lem mask zero m v = refl
snapshot_by_mask_lem mask (suc max) m v =
    let all : suc max - 0 ≡ suc max = omega arith in
    let some_room : (suc max != 0) ≡ true = ground arith in
    rw some_room (
      snapshot_loop_lem m.count 0 m.entries mask (suc max) [] (omega (arith, v))
      ∙ ap (λ n. take n (matching mask (stored m))) all)

pub length-stored : (m : DtcMem) → IsValid m → length (stored m) ≡ m.count
length-stored m v = omega (arith, length-take m.count m.entries, v)

-- With a buffer of DTC_MAX entries, as the UDS handler has, none is left out.
pub snapshot_all :
    (mask : ℕ) (m : DtcMem) → IsValid m → snapshot_by_mask mask dtc_max m ≡ matching mask (stored m)
snapshot_all mask m v =
    snapshot_by_mask_lem mask dtc_max m v
    ∙ take_all dtc_max (matching mask (stored m))
        (omega (arith, v, length-matching mask (stored m), length-take m.count m.entries))

-- dtc_mem_add appends the code, cut to 24 bits, to the stored ones and reports success while there
-- is room, and leaves the memory as it is and reports failure when it is full; it keeps the
-- invariant for a status that is a byte.
pub add_lem :
    (dtc status : ℕ) (m : DtcMem)
    → IsValid m
    → status < 2 ^ 8
    → let (done, m') = add dtc status m in
      IsValid m'
      × (done ≡ ltb (length (stored m)) dtc_max)
      × (stored m' ≡ (
          if ltb (length (stored m)) dtc_max
          then stored m ++ record { dtc = dtc % 2 ^ 24; status = status } ∷ []
          else stored m))
unfolding add
add_lem dtc status m v h = elim (Bool-cases (ltb m.count dtc_max)) [
  | inl room ↦
      let grown =
        take-set_next m.count m.entries (record { dtc = bit_and dtc 0x00FFFFFF; status = status })
          (ground arith) in
      rw (length-stored m v, room)
        (
          record {
            full_array = length-set m.entries m.count _ ∙ v.full_array;
            count_capped = ground arith;
            entries_fit = rw grown (
                AllEntries-append (stored m) _ v.entries_fit
                  (omega (arith, bit_and_three_bytes dtc), h));
            mask_fits = v.mask_fits;
          },
          refl,
          rw (grown, bit_and_three_bytes dtc),
        )
  | inr full ↦ rw (length-stored m v, full) (v, refl, refl)
]

-- dtc_mem_clear_all forgets every code, returns how many there were, and keeps the invariant.
pub clear_all_lem :
    (m : DtcMem)
    → IsValid m
    → let (erased, m') = clear_all m in IsValid m' × (stored m' ≡ []) × (erased ≡ length (stored m))
unfolding clear_all
clear_all_lem m v = (
  record {
    full_array = refl;
    count_capped = omega arith;
    entries_fit = tt;
    mask_fits = v.mask_fits;
  },
  refl,
  ground (arith, length-take m.count m.entries, v),
)
