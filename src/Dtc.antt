-- ===== src/Dtc.antt =====
-- The trouble code memory of src/dtc_mem.c and include/dtc_mem.h. Each function runs under the
-- memory's mutex, so a call is one step.
pub mod Stored
pub mod Calls
mod Examples
use vecu_uds.Base.{
  ℕ, zero, suc, ◌+◌, Bool, true, false, List, [], ◌∷◌, ◌++◌, bit_and, bit_or, ltb, ◌!=◌,
  if◌then◌else◌, length, get_or, set, replicate,
}

-- DTC_MAX
abbrev pub dtc_max : ℕ
dtc_max = 16

-- DTC_STATUS_TEST_FAILED, DTC_STATUS_CONFIRMED, DTC_STATUS_TEST_FAILED_SINCE_LAST_CLEAR
abbrev pub test_failed : ℕ
test_failed = 0x01

abbrev pub confirmed : ℕ
confirmed = 0x08

abbrev pub test_failed_since_last_clear : ℕ
test_failed_since_last_clear = 0x20

-- `dtc_entry_t`
pub record DtcEntry : Type 0 where
  pub dtc : ℕ  -- uint32_t, 24 bits used
  pub status : ℕ  -- uint8_t

-- `dtc_mem_t`
pub record DtcMem : Type 0 where
  pub entries : List DtcEntry
  pub count : ℕ
  pub availability_mask : ℕ

abbrev pub no_entry : DtcEntry
no_entry = record { dtc = 0; status = 0 }

-- dtc_mem_init
unfoldable pub init : DtcMem
init = record {
  entries = replicate dtc_max no_entry;
  count = 0;
  availability_mask = bit_or (bit_or test_failed confirmed) test_failed_since_last_clear;
}

-- dtc_mem_add; `false` is the return code -1
unfoldable pub add : ℕ → ℕ → DtcMem → Bool × DtcMem
add dtc status m =
    if ltb m.count dtc_max
    then (
      true,
      record m {
        entries = set m.entries m.count (record { dtc = bit_and dtc 0x00FFFFFF; status = status });
        count = m.count + 1;
      },
    )
    else (false, m)

-- dtc_mem_clear_all
unfoldable pub clear_all : DtcMem → ℕ × DtcMem
clear_all m = (m.count, record m { count = 0; entries = replicate dtc_max no_entry })

-- The loop of `dtc_mem_snapshot_by_mask` with `rounds` iterations left, from index `i`; `out` is
-- what has been written.
unfoldable pub snapshot_loop : ℕ → ℕ → List DtcEntry → ℕ → ℕ → List DtcEntry → List DtcEntry
snapshot_loop zero i entries mask max out = out
snapshot_loop (suc rounds) i entries mask max out =
    let e = get_or entries i no_entry in
    let rest =
      snapshot_loop rounds (i + 1) entries mask max
        (if bit_and e.status mask != 0 then out ++ e ∷ [] else out) in
    if ltb (length out) max then rest else out

-- dtc_mem_snapshot_by_mask
unfoldable pub snapshot_by_mask : ℕ → ℕ → DtcMem → List DtcEntry
unfolding snapshot_loop
snapshot_by_mask mask max m = if max != 0 then snapshot_loop m.count 0 m.entries mask max [] else []

-- dtc_mem_availability_mask
abbrev pub mask_of : DtcMem → ℕ
mask_of m = m.availability_mask
