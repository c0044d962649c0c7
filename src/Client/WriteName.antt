-- ===== src/Client/WriteName.antt =====
-- The write-name command of client/diag_tool.py against the ECU of src/.
use vecu_uds.Types.Sid
use vecu_uds.Base.{
  leb, ◌==◌, ◌&&◌, if◌then◌else◌, Option, Bool, ltb, ◌≤◌, length, List, ℕ, ◌≡◌, refl, arith, true,
  [], ◌∷◌, some,
}
use vecu_uds.Client.{Piece, text, repr_of}
use vecu_uds.Client.Codecs.{var_ascii_codec, decode_ascii, encode_ascii}
use vecu_uds.Client.Documented.{Documented, all_ascii}
use vecu_uds.Vecu.{Vecu, owner_name_cap, codes}

pub encode-ascii : (name : List ℕ) → all_ascii name ≡ true → encode_ascii name ≡ some name
unfolding encode_ascii
encode-ascii [] h = refl
encode-ascii (c ∷ cs) h = ground (arith, encode-ascii cs)

pub decode-ascii : (name : List ℕ) → all_ascii name ≡ true → decode_ascii name ≡ name
unfolding decode_ascii
decode-ascii [] h = refl
decode-ascii (c ∷ cs) h = ground (arith, decode-ascii cs)

pub encode_owner :
    (name : List ℕ)
    → all_ascii name ≡ true
    → length name ≤ owner_name_cap
    → (var_ascii_codec 32).encode name ≡ some name
encode_owner name ascii short = rw (encode-ascii name ascii) (ground arith)

abbrev write_request : List ℕ → List ℕ
write_request payload = Sid.write_data_by_identifier ∷ 0xF2 ∷ 0x00 ∷ payload

abbrev read_request : List ℕ
read_request = Sid.read_data_by_identifier ∷ 0xF2 ∷ 0x00 ∷ []

abbrev pub fits : List ℕ → Bool
fits name = all_ascii name && leb (length name) owner_name_cap

abbrev pub name_lines : List ℕ → List (List Piece)
name_lines name =
    (text (codes "Owner name written: ") ∷ repr_of name ∷ [])
    ∷ (text (codes "Confirmed: ") ∷ repr_of name ∷ [])
    ∷ []

abbrev pub write_code : List ℕ → Option ℕ
write_code name = if fits name then (if length name == 0 then some 2 else some 0) else some 1

abbrev pub written : List ℕ → Bool
written name = fits name && ltb 0 (length name)
