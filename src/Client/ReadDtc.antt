-- ===== src/Client/ReadDtc.antt =====
-- The read-dtc command of client/diag_tool.py against the ECU of src/.

use vecu_uds.Dtc.Stored
use vecu_uds.Base.{length, ◌<◌, List, ℕ, [], ◌∷◌}
use vecu_uds.Client.{Piece, text, decimal}
use vecu_uds.Client.Documented.{Documented}
use vecu_uds.Dtc.{DtcEntry}
use vecu_uds.Vecu.{codes}
use vecu_uds.Client.Flags.{described}

abbrev pub coded : DtcEntry → ℕ × ℕ
coded e = (e.dtc, e.status)

abbrev pub NoZero : List DtcEntry → Type 0
NoZero [] = Unit
NoZero (e ∷ es) = (0 < e.dtc) × NoZero es

abbrev pub dtc_lines : List (ℕ × ℕ) → List (List Piece)
dtc_lines [] = []
dtc_lines ((dtc, status) ∷ rest) = described dtc status ∷ dtc_lines rest

abbrev pub dtc_report : List (ℕ × ℕ) → List (List Piece)
dtc_report [] = (text (codes "No active DTCs.") ∷ []) ∷ []
dtc_report (d ∷ ds) =
    (text (codes "Active DTCs (") ∷ decimal (length (d ∷ ds)) ∷ text (codes "):") ∷ [])
    ∷ dtc_lines (d ∷ ds)
