-- ===== src/Uds/Faults.antt =====
-- Services 0x14 and 0x19 of src/uds.c.
use vecu_uds.Base.{
  ℕ, ◌+◌, ◌*◌, List, [], ◌∷◌, ◌++◌, ◌==◌, ◌!=◌, ◌&&◌, not, if◌then◌else◌, ltb, length, bit_and, u8,
  ◌>>>◌,
}
use vecu_uds.Types.{pos_resp}
use vecu_uds.Types.Nrc
use vecu_uds.Dtc.{mask_of, DtcEntry, dtc_max, clear_all, snapshot_by_mask}
use vecu_uds.Uds.Reply.{reply, Handler, byte_at, refuse, sub_function, answer}

-- ClearDiagnosticInformation
unfoldable pub clear_dtc : Handler
unfolding clear_all
clear_dtc env req resp_cap s =
    if length req != 4
    then refuse req Nrc.incorrect_message_length s
    else if not (byte_at req 1 == 0xFF && byte_at req 2 == 0xFF && byte_at req 3 == 0xFF)
    then refuse req Nrc.request_out_of_range s
    else (reply (pos_resp (byte_at req 0) ∷ []), record s { dtcs = (clear_all s.dtcs).1 })

-- the four bytes of one trouble code, and the loop over the snapshot
abbrev pub encode_entry : DtcEntry → List ℕ
encode_entry e =
    u8 (bit_and (e.dtc >>> 16) 0xFF)
    ∷ u8 (bit_and (e.dtc >>> 8) 0xFF)
    ∷ u8 (bit_and e.dtc 0xFF)
    ∷ e.status
    ∷ []

abbrev pub encode_entries : List DtcEntry → List ℕ
encode_entries [] = []
encode_entries (e ∷ es) = encode_entry e ++ encode_entries es

-- ReadDTCInformation
unfoldable pub read_dtc : Handler
read_dtc env req resp_cap s =
    if ltb (length req) 2
    then refuse req Nrc.incorrect_message_length s
    else let sub_raw = byte_at req 1 in
      let sub = sub_function sub_raw in
      if sub != 0x02
      then refuse req Nrc.sub_function_not_supported s
      else if length req != 3
      then refuse req Nrc.incorrect_message_length s
      else let snap = snapshot_by_mask (byte_at req 2) dtc_max s.dtcs in
        let need = 3 + length snap * 4 in
        if ltb resp_cap need then refuse req Nrc.response_too_long s else (
          answer sub_raw (pos_resp (byte_at req 0) ∷ sub ∷ mask_of s.dtcs ∷ encode_entries snap),
          s,
        )
