-- ===== src/Uds/RoundTrip.antt =====
-- Pairs of requests to src/uds.c: what a write or a clear leaves for the next read.
use vecu_uds.Types.Sid
use vecu_uds.Uds.Faults
use vecu_uds.Dtc.Stored
use vecu_uds.Base.{
  le→ltb, ltb, false, ◌==◌, suc, refl, drop, ◌++◌, ◌∙◌, ◌<◌, arith, ◌*◌, [], length, true, ◌∷◌,
  some, List, ◌≤◌, ◌≡◌, ℕ, ◌+◌,
}
use vecu_uds.Did.{lookup}
use vecu_uds.Uds.Dispatch.{process_request}
use vecu_uds.Vecu.{
  call_write, read_owner, call_read, owner_entry, owner_name_cap, Vecu, write_owner,
  registered_dids,
}
use vecu_uds.Clock.{Env}
use vecu_uds.Uds.Faults.{encode_entries, clear_dtc}
use vecu_uds.Uds.Identifiers.{payload_cap, read_did, write_did}
use vecu_uds.Dtc.{snapshot_by_mask}
use vecu_uds.Dtc.Stored.{snapshot_all, stored, matching}
use vecu_uds.Uds.Reply.{reply, is_extended_session}
use vecu_uds.Security.{is_unlocked}
use vecu_uds.Vecu.Owner.{read-write_owner}

-- ReadDTCInformation by a status mask, given room for the response: 59 02, the availability mask,
-- and four bytes for each stored code that shares a status bit with the mask, oldest first; the
-- state is unchanged.
pub read_dtc_lem :
    (env : Env) (mask resp_cap : ℕ) (s : Vecu)
    → Stored.IsValid s.dtcs
    → 3 + length (matching mask (stored s.dtcs)) * 4 ≤ resp_cap
    → process_request env (Sid.read_dtc ∷ 0x02 ∷ mask ∷ []) resp_cap s ≡ (
      reply
          (0x59 ∷ 0x02 ∷ s.dtcs.availability_mask ∷ encode_entries (matching mask (stored s.dtcs))),
      s,
    )
unfolding process_request Faults.read_dtc
read_dtc_lem env mask resp_cap s v room = ground (arith, snapshot_all mask s.dtcs v)

-- After 14 FF FF FF no trouble code is reported, for any mask.
pub read-clear_dtc :
    (env env' : Env) (mask resp_cap : ℕ) (s : Vecu)
    → 3 ≤ resp_cap
    → let (o, t) = process_request env (Sid.clear_dtc ∷ 0xFF ∷ 0xFF ∷ 0xFF ∷ []) resp_cap s in
      (o ≡ reply (0x54 ∷ []))
      × (process_request env' (Sid.read_dtc ∷ 0x02 ∷ mask ∷ []) resp_cap t
          ≡ (reply (0x59 ∷ 0x02 ∷ s.dtcs.availability_mask ∷ []), t))
unfolding process_request clear_dtc Faults.read_dtc snapshot_by_mask
read-clear_dtc env env' mask resp_cap s room = ground arith

pub owner_entry_found : lookup 0xF200 registered_dids ≡ some owner_entry
unfolding lookup registered_dids
owner_entry_found = refl

pub write_owner_lem :
    (payload : List ℕ) (s : Vecu)
    → 0 < length payload
    → length payload ≤ owner_name_cap
    → (t : Vecu) × (write_owner payload s ≡ some t)
unfolding write_owner
write_owner_lem payload s some_bytes fits = (
  record s {
    owner_name = payload ++ drop (length payload) s.owner_name;
    owner_len = length payload;
  },
  ground arith,
)

pub write_step :
    (env : Env) (payload : List ℕ) (resp_cap : ℕ) (s t : Vecu)
    → 3 ≤ resp_cap
    → s.dids ≡ registered_dids
    → is_extended_session s ≡ true
    → is_unlocked 0x01 s.security ≡ true
    → 0 < length payload
    → write_owner payload s ≡ some t
    → process_request env (Sid.write_data_by_identifier ∷ 0xF2 ∷ 0x00 ∷ payload) resp_cap s
      ≡ (reply (0x6E ∷ 0xF2 ∷ 0x00 ∷ []), t)
unfolding process_request write_did call_write
write_step env payload resp_cap s t room boot ext unl some_bytes wrote =
    rw (not_empty, le→ltb resp_cap 3 room, long, found) (rw (ext, unl, wrote))
  where
    not_empty : (suc (suc (suc (length payload))) == 0) ≡ false
    not_empty = ground arith

    long : ltb (suc (suc (suc (length payload)))) 4 ≡ false
    long = ground arith

    found : lookup 0xF200 s.dids ≡ some owner_entry
    found = rw boot owner_entry_found

pub read_step :
    (env : Env) (payload : List ℕ) (resp_cap : ℕ) (t : Vecu)
    → t.dids ≡ registered_dids
    → read_owner payload_cap t ≡ payload
    → 3 + length payload ≤ resp_cap
    → process_request env (Sid.read_data_by_identifier ∷ 0xF2 ∷ 0x00 ∷ []) resp_cap t
      ≡ (reply (0x62 ∷ 0xF2 ∷ 0x00 ∷ payload), t)
unfolding process_request read_did call_read
read_step env payload resp_cap t boot stored room = ground (arith, owner_entry_found)

pub dids-write_owner :
    (payload : List ℕ) (s t : Vecu) → write_owner payload s ≡ some t → t.dids ≡ s.dids
unfolding write_owner
dids-write_owner payload s t h = ground arith

-- In a non-default session of an unlocked ECU with the table that vecu_init builds, a payload of 1
-- to 32 bytes written to 0xF200 is confirmed by 6E F2 00, and 22 F2 00 then gives back exactly
-- these bytes.
pub read-write_owner_did :
    (env env' : Env) (payload : List ℕ) (resp_cap : ℕ) (s : Vecu)
    → 3 + owner_name_cap ≤ resp_cap
    → s.dids ≡ registered_dids
    → is_extended_session s ≡ true
    → is_unlocked 0x01 s.security ≡ true
    → 0 < length payload
    → length payload ≤ owner_name_cap
    → let (o, t) =
        process_request env (Sid.write_data_by_identifier ∷ 0xF2 ∷ 0x00 ∷ payload) resp_cap s in
      (o ≡ reply (0x6E ∷ 0xF2 ∷ 0x00 ∷ []))
      × (process_request env' (Sid.read_data_by_identifier ∷ 0xF2 ∷ 0x00 ∷ []) resp_cap t
          ≡ (reply (0x62 ∷ 0xF2 ∷ 0x00 ∷ payload), t))
read-write_owner_did env env' payload resp_cap s room boot ext unl some_bytes fits =
    let (t, wrote) = write_owner_lem payload s some_bytes fits in
    let done = write_step env payload resp_cap s t (omega arith) boot ext unl some_bytes wrote in
    rw done (
      refl,
      read_step env' payload resp_cap t (dids-write_owner payload s t wrote ∙ boot)
          (read-write_owner payload payload_cap s t wrote (omega arith)) (omega arith),
    )
