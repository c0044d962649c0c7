-- ===== src/Client/Dtcs.antt =====
-- client/dtc_names.py
use vecu_uds.Base.{
  ◌!=◌, none, length, some, ◌==◌, bit_and, ◌++◌, if◌then◌else◌, Option, ℕ, List, [], ◌∷◌,
}
use vecu_uds.Client.{Piece, text, hex}
use vecu_uds.Vecu.{codes}

-- DTC_NAMES
unfoldable pub dtc_names : ℕ → Option (List ℕ)
dtc_names dtc =
    if dtc == 0x030100
    then some (codes "P0301  Cylinder 1 Misfire")
    else if dtc == 0x042000
    then some (codes "P0420  Catalyst System Efficiency Below Threshold (Bank 1)")
    else if dtc == 0x017100
    then some (codes "P0171  System Too Lean (Bank 1)")
    else if dtc == 0x012800
    then some (codes "P0128  Coolant Thermostat Below Regulating Temperature")
    else if dtc == 0x070100
    then some (codes "P0701  Transmission Control System Range/Performance")
    else none

abbrev pub flag : ℕ → ℕ → List ℕ → List (List ℕ)
flag status mask name = if bit_and status mask != 0 then name ∷ [] else []

abbrev pub flags : ℕ → List (List ℕ)
flags status =
    flag status 0x01 (codes "testFailed")
    ++ flag status 0x02 (codes "testFailedThisCycle")
    ++ flag status 0x04 (codes "pending")
    ++ flag status 0x08 (codes "confirmed")
    ++ flag status 0x20 (codes "testFailedSinceClear")
    ++ flag status 0x80 (codes "warningIndicator")

-- ", ".join
unfoldable pub joined : List (List ℕ) → List ℕ
joined [] = []
joined (x ∷ []) = x
joined (x ∷ y ∷ rest) = x ++ codes ", " ++ joined (y ∷ rest)

-- an em dash if there is no flag
unfoldable pub status_flags : ℕ → List ℕ
unfolding joined
status_flags status = if length (flags status) == 0 then 0x2014 ∷ [] else joined (flags status)

abbrev pub name_of : Option (List ℕ) → ℕ → List Piece
name_of none dtc = text (codes "0x") ∷ hex 6 dtc ∷ text (codes "  (unknown)") ∷ []
name_of (some name) dtc = text name ∷ []

unfoldable pub format_dtc : ℕ → ℕ → List Piece
unfolding dtc_names status_flags
format_dtc dtc status =
    text (codes "  ") ∷ name_of (dtc_names dtc) dtc
    ++ text (codes "   [") ∷ text (status_flags status) ∷ text (codes "]") ∷ []
